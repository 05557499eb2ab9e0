-- ===== src/Orchestration/Lifecycle/Booting.antt =====
-- What a client boots: the file of the version that its row has.
use diskless.Base.{
  ℕ, ◌≡◌, refl, sym, ap, subst, ◌∙◌, true, none, some, [], ◌∷◌, Text, pos, Result, ok, eq_refl,
  list_eq, nat_eq, ok_injective,
}
use diskless.Base.Action.{bind_returned, reads, lift, return}
use diskless.Config.{Config}
use diskless.Database.{ImageProfile, ClientBinding, ActiveSession, select}
use diskless.Machine.{Machine}
use diskless.Models.{get_image_profile, lookup_client_binding_by_mac, resolve_image_path}
use diskless.Orchestration.Host.{Host, on_kernel, on_db}
use diskless.Orchestration.PrivClient.{attach_loop}
use diskless.Orchestration.Session.{Session, initiator_iqn_for_mac, version_of, active_row}
use diskless.Orchestration.Lifecycle.{
  start_client_session, make_session, start_session, build_sanboot_script,
}
use diskless.Orchestration.Lifecycle.Rows.{is_for}
use diskless.Orchestration.Lifecycle.Starting.{Recorded, start_session-Recorded}

-- The session's base device is the loop device of the file of the binding's version.
pub record IsOf {K : Type 0} (os : Machine K) (cfg : Config) (b : ClientBinding) (h : Host K)
    (dev : Text) (n : ℕ) : Type 0 where
  pub profile : ImageProfile
  pub path : Text
  pub known : get_image_profile b.image_profile_id h.db ≡ ok profile
  pub resolved : resolve_image_path cfg.images_root profile b.assigned_version h.db ≡ ok path
  pub attached : (attach_loop os path true h.kernel).0 ≡ ok dev
  pub numbered : version_of b.assigned_version ≡ ok n

module _ {K : Type 0} (os : Machine K) (cfg : Config) where
  client_session :
      (b : ClientBinding) (p : ImageProfile) (iqn : Text) (h : Host K) (s : Session)
      → get_image_profile b.image_profile_id h.db ≡ ok p
      → (start_client_session os cfg b p iqn h).0 ≡ ok s
      → IsOf os cfg b h s.base_loop_dev s.version_number
  unfolding start_client_session on_db on_kernel reads lift return
  client_session b p iqn h s known made =
      let (path, resolved, _, e1) = bind_returned _ _ h s made in
      let (dev, attached, _, e2) = bind_returned _ _ h s e1 in
      let (size, _, _, e3) = bind_returned _ _ _ s e2 in
      let (_, _, _, e4) = bind_returned _ _ _ s e3 in
      let (_, _, _, e5) = bind_returned _ _ _ s e4 in
      let (_, _, _, e6) = bind_returned _ _ _ s e5 in
      let (n, numbered, _, e7) = bind_returned _ _ _ s e6 in
      let same = ok_injective _ s e7 in
      record {
        profile = p;
        path = path;
        known = known;
        resolved = resolved;
        attached = attached ∙ ap (λ (r : Session). ok r.base_loop_dev) same;
        numbered = numbered ∙ ap (λ (r : Session). ok r.version_number) same;
      }

  session_of :
      (at : Text) (b : ClientBinding) (iqn : Text) (h : Host K) (s : Session)
      → (start_session os cfg at b iqn true none (pos 0) h).0 ≡ ok s
      → IsOf os cfg b h s.base_loop_dev s.version_number
  unfolding start_session make_session on_db reads return
  session_of at b iqn h s done =
      let (p, known, _, e1) = bind_returned _ _ h s done in
      let (made, session, _, e2) = bind_returned _ _ h s e1 in
      let (_, _, _, e3) = bind_returned _ _ _ s e2 in
      let (_, _, _, e4) = bind_returned _ _ _ s e3 in
      client_session b p iqn h s known (session ∙ e4)

  -- A boot that returns its script has left one row for the client's initiator, read only, with the
  -- version of the client's row, and the base device of the row is the loop device of the file of
  -- that version.
  pub boot_lem :
      (at mac : Text) (b : ClientBinding) (h : Host K) (script : Text)
      → lookup_client_binding_by_mac mac h.db ≡ ok b
      → (build_sanboot_script os cfg at mac h).0 ≡ ok script
      → (row : ActiveSession) × (dev : Text) × (select
            (is_for (initiator_iqn_for_mac cfg mac))
            (build_sanboot_script os cfg at mac h).1.db.active_session
          ≡ row ∷ [])
        × (row.readonly ≡ true)
        × (row.base_loop_dev ≡ some dev)
        × IsOf os cfg b h dev row.version
  unfolding build_sanboot_script on_db reads return active_row
  boot_lem at mac b h script found done =
      let iqn = initiator_iqn_for_mac cfg mac in
      let (b', found', now, e1) = bind_returned _ _ h script done in
      let same : b' ≡ b = ok_injective b' b (sym found' ∙ found) in
      let (s, started, rest, e2) = bind_returned _ _ h script e1 in
      let after = (start_session os cfg at b' iqn true none (pos 0) h).1.db.active_session in
      let last : (build_sanboot_script os cfg at mac h).1.db.active_session ≡ after =
        ap (λ (r : Result Text × Host K). r.1.db.active_session) (now ∙ rest) in
      let rows : Recorded at iqn b' true h.db.active_session (ok s) after =
        subst (λ r. Recorded at iqn b' true h.db.active_session r after) started
          (start_session-Recorded os cfg at b' iqn true none (pos 0) h) in
      (
        active_row at iqn b' true s,
        s.base_loop_dev,
        ap (select (is_for iqn)) last ∙ rows iqn ∙ rw (eq_refl iqn) refl,
        refl,
        refl,
        subst (λ c. IsOf os cfg c h s.base_loop_dev s.version_number) same
            (session_of at b' iqn h s started),
      )
