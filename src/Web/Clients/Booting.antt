-- ===== src/Web/Clients/Booting.antt =====
-- What is assigned to a client is what it boots next.
use diskless.Base.{
  ℕ, ◌≡◌, refl, sym, ap, subst, ◌∙◌, Bool, true, false, ◌||◌, Option, none, some, List, [], ◌∷◌,
  Text, codes, ℤ, pos, negsuc, ok, if◌then◌else◌, ◌==◌, list_eq, nat_eq, inl, inr, Result-cases,
  Option-cases, arith, ok_injective,
}
use diskless.Config.{Config}
use diskless.Database.{
  Database, ClientBinding, ActiveSession, select, fetch_one, update, sqlite_integer,
}
use diskless.Machine.{Machine}
use diskless.Models.{lookup_client_binding_by_mac}
use diskless.Orchestration.Host.{Host}
use diskless.Orchestration.Session.{initiator_iqn_for_mac}
use diskless.Orchestration.Lifecycle.{build_sanboot_script}
use diskless.Orchestration.Lifecycle.Rows.{is_for}
use diskless.Orchestration.Lifecycle.Booting.{IsOf, boot_lem}
use diskless.Web.{Args, WebSession, redirect, World, verify_csrf, checked}
use diskless.Web.Clients.{
  Assignment, assignment, has_row_id, assign_rows, assign, assigned, assign_version,
}

-- Whether a row is among the chosen ones.
pub is_chosen : (Text → Option ℕ) → List Text → ClientBinding → Bool
is_chosen row_id [] b = false
is_chosen row_id (cid ∷ cids) b = has_row_id (row_id cid) b || is_chosen row_id cids b

abbrev pub with_version : ℤ → Bool → ClientBinding → ClientBinding
with_version v chosen b = if chosen then record b { assigned_version = v } else b

abbrev found : Option ClientBinding → (ClientBinding → ClientBinding) → Option ClientBinding
found none f = none
found (some b) f = some (f b)

abbrev has_mac : Text → ClientBinding → Bool
has_mac mac b = b.client_mac == mac

module _ (mac : Text) (v : ℤ) where
  twice :
      (c d : Bool) (b : ClientBinding)
      → with_version v d (with_version v c b) ≡ with_version v (c || d) b
  twice true true b = refl
  twice true false b = refl
  twice false d b = refl

  fetch-update :
      (q : ClientBinding → Bool) (rows : List ClientBinding)
      → fetch_one (has_mac mac) (update q (λ b. record b { assigned_version = v }) rows)
        ≡ found (fetch_one (has_mac mac) rows) (λ b. with_version v (q b) b)
  unfolding fetch_one update
  fetch-update q [] = refl
  fetch-update q (b ∷ rows) = ground (arith, fetch-update q rows)

  module _ (row_id : Text → Option ℕ) where
    same_id :
        (i : Option ℕ) (b : ClientBinding) (chosen : Bool)
        → has_row_id i (with_version v chosen b) ≡ has_row_id i b
    unfolding has_row_id
    same_id i b chosen = ground arith

    still_chosen :
        (cids : List Text) (b : ClientBinding) (chosen : Bool)
        → is_chosen row_id cids (with_version v chosen b) ≡ is_chosen row_id cids b
    unfolding is_chosen
    still_chosen [] b chosen = refl
    still_chosen (cid ∷ cids) b chosen =
        rw (same_id (row_id cid) b chosen, still_chosen cids b chosen) refl

    fetch-assign_rows :
        (cids : List Text) (rows : List ClientBinding) (b : ClientBinding)
        → fetch_one (has_mac mac) rows ≡ some b
        → fetch_one (has_mac mac) (assign_rows row_id v cids rows)
          ≡ some (with_version v (is_chosen row_id cids b) b)
    unfolding assign_rows is_chosen
    fetch-assign_rows [] rows b here = here
    fetch-assign_rows (cid ∷ cids) rows b here =
        let one = fetch-update (has_row_id (row_id cid)) rows in
        let b' = with_version v (has_row_id (row_id cid) b) b in
        let next =
          fetch-assign_rows cids
            (update (has_row_id (row_id cid)) (λ b. record b { assigned_version = v }) rows) b'
            (one ∙ rw here refl) in
        next
        ∙ rw (still_chosen cids b (has_row_id (row_id cid) b))
            (ap some (twice (has_row_id (row_id cid) b) (is_chosen row_id cids b) b))

fits : (z v : ℤ) → sqlite_integer z ≡ ok v → v ≡ z
unfolding sqlite_integer
fits (pos n) v e = ground (arith, e)
fits (negsuc n) v e = ground (arith, e)

module _ (row_id : Text → Option ℕ) (mac : Text) (b : ClientBinding) where
  looked_up :
      (db : Database)
      → lookup_client_binding_by_mac mac db ≡ ok b
      → fetch_one (has_mac mac) db.client_binding ≡ some b
  unfolding lookup_client_binding_by_mac
  looked_up db e = elim (Option-cases (fetch_one (has_mac mac) db.client_binding)) [
    | inl absent ↦ ground (arith, absent, e)
    | inr (row, here) ↦ ground (arith, here, e)
  ]

  lookup-rows :
      (cids : List Text) (v : ℤ) (db : Database)
      → lookup_client_binding_by_mac mac db ≡ ok b
      → lookup_client_binding_by_mac mac
          (record db { client_binding = assign_rows row_id v cids db.client_binding })
        ≡ ok (with_version v (is_chosen row_id cids b) b)
  unfolding lookup_client_binding_by_mac
  lookup-rows cids v db known =
      rw
        (
          fetch-assign_rows mac v row_id cids db.client_binding b (looked_up db known),
          lookup_client_binding_by_mac,
        )
        refl

  lookup-assign :
      (cids : List Text) (z : ℤ) (db db' : Database)
      → lookup_client_binding_by_mac mac db ≡ ok b
      → assign row_id (record { client_ids = cids; version_number = z }) db ≡ ok db'
      → lookup_client_binding_by_mac mac db' ≡ ok (with_version z (is_chosen row_id cids b) b)
  unfolding assign is_chosen
  lookup-assign [] z db db' known e = rw (← ok_injective db db' e) known
  lookup-assign (cid ∷ cids) z db db' known e = elim (Result-cases (sqlite_integer z)) [
    | inl (x, huge) ↦ ground (arith, huge, e)
    | inr (v, small) ↦
        let same : v ≡ z = fits z v small in
        let e' = ok_injective _ db' (rw small at e) in
        subst
          (λ d.
            lookup_client_binding_by_mac mac d
            ≡ ok (with_version z (is_chosen row_id (cid ∷ cids) b) b))
          e'
          (subst
            (λ y.
              lookup_client_binding_by_mac mac
                (record db { client_binding = assign_rows row_id y (cid ∷ cids) db.client_binding })
              ≡ ok (with_version z (is_chosen row_id (cid ∷ cids) b) b))
            (sym same) (lookup-rows (cid ∷ cids) z db known))
  ]

  -- A post that redirects has changed the row of the client as its form says.
  lookup-assign_version :
      (args : Args) (session : WebSession) (w : World) (a : Assignment)
      → assignment args ≡ ok a
      → lookup_client_binding_by_mac mac w.db ≡ ok b
      → (assign_version row_id args session w).0 ≡ ok (redirect (codes "/clients"))
      → lookup_client_binding_by_mac mac (assign_version row_id args session w).1.db
        ≡ ok (with_version a.version_number (is_chosen row_id a.client_ids b) b)
  unfolding assign_version assigned checked
  lookup-assign_version args session w a form known done =
      elim (Result-cases (verify_csrf args session)) [
        | inl (x, unread) ↦ ground (arith, unread, done)
        | inr (false, forged) ↦ ground (arith, forged, done)
        | inr (true, own) ↦ elim (Result-cases (assign row_id a w.db)) [
          | inl (x, failed) ↦ ground (arith, own, form, failed, done)
          | inr (db, written) ↦
              rw (assign_version, own, checked, form, assigned, written)
                (lookup-assign a.client_ids a.version_number w.db db known written)
        ]
      ]

-- After a post to the assignment page that redirects, a boot, on the database that it
-- left, of a client that was registered, where it returns its script, has left
-- one row for the client's initiator, read only, with the version of the form where the client was
-- chosen, else with the version it had; and the base device of the row is the loop device that was
-- attached for the file of that version in the client's profile.
pub assign_version-boot :
    {K : Type 0} (os : Machine K) (cfg : Config) (row_id : Text → Option ℕ) (args : Args)
    (session : WebSession) (w : World) (a : Assignment) (at mac : Text) (b : ClientBinding)
    (h : Host K) (script : Text)
    → assignment args ≡ ok a
    → lookup_client_binding_by_mac mac w.db ≡ ok b
    → (assign_version row_id args session w).0 ≡ ok (redirect (codes "/clients"))
    → h.db ≡ (assign_version row_id args session w).1.db
    → (build_sanboot_script os cfg at mac h).0 ≡ ok script
    → (row : ActiveSession) × (dev : Text) × (select
          (is_for (initiator_iqn_for_mac cfg mac))
          (build_sanboot_script os cfg at mac h).1.db.active_session
        ≡ row ∷ [])
      × (row.readonly ≡ true)
      × (row.base_loop_dev ≡ some dev)
      × IsOf os cfg
          (with_version a.version_number (is_chosen row_id a.client_ids b) b)
          h
          dev
          row.version
assign_version-boot os cfg row_id args session w a at mac b h script form known done same booted =
    boot_lem os cfg at mac (with_version a.version_number (is_chosen row_id a.client_ids b) b) h
      script
      (ap (lookup_client_binding_by_mac mac) same
        ∙ lookup-assign_version row_id mac b args session w a form known done)
      booted
