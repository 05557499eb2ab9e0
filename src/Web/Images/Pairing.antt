-- ===== src/Web/Images/Pairing.antt =====
-- Creating, deleting and unlocking keep sessions and locks paired.
use diskless.Base.{
  ℕ, ◌≡◌, refl, true, false, List, [], ◌∷◌, ◌++◌, arith, Text, Result, ◌==◌, list_eq, nat_eq, eqb,
  eqb→eq, inl, inr, Bool-cases, bind_cases, decode, codes,
}
use diskless.Base.Dict.{has_key}
use diskless.Database.{Database, ImageProfile, fetch_one, delete, exists_row, has_id}
use diskless.Orchestration.Lock
use diskless.Orchestration.Lock.Exclusion.{locked_after, locked_row}
use diskless.Orchestration.Lock.Holding.{is_locked-release_ne}
use diskless.Orchestration.Lock.Keys.{IsKeyed, append-IsKeyed, delete-IsKeyed, release-IsKeyed}
use diskless.Web.{Args, WebSession, Response, redirect, arg, World, verify_csrf, checked_cases}
use diskless.Web.Pairing.{IsPaired, keep_pairs, same_pairs}
use diskless.Web.Images.{
  create_profile, insert_profile, store, delete_profile, delete_profile_row, is_referenced,
  conflict, force_unlock, delete_version, remove_version,
}

found_in_append :
    (i : ℕ) (rs : List ImageProfile) (r : ImageProfile)
    → locked_after (fetch_one (has_id i) rs) ≡ true
    → locked_after (fetch_one (has_id i) (rs ++ r ∷ [])) ≡ true
unfolding fetch_one
found_in_append i [] r h = cc
found_in_append i (q ∷ rs) r h = ground (arith, found_in_append i rs r)

store-IsPaired :
    (w : World) (name dir : Text) (r : Response)
    → IsPaired w
    → IsPaired (store w (insert_profile name dir w.db) r).1
unfolding store insert_profile
store-IsPaired w name dir r h =
    elim (Bool-cases (exists_row (λ (p : ImageProfile). p.name == name) w.db.image_profile)) [
      | inl used ↦ rw (used, store, insert_profile) h
      | inr fresh ↦
          rw (fresh, store, insert_profile)
            (keep_pairs w _ refl
              (λ i k. rw locked_row (found_in_append i w.db.image_profile _ (rw locked_row at k)))
              (append-IsKeyed w.db _ refl h.keyed) h)
    ]

other_rows :
    (i j : ℕ) (rs : List ImageProfile)
    → eqb i j ≡ false
    → fetch_one (has_id i) (delete (has_id j) rs) ≡ fetch_one (has_id i) rs
unfolding fetch_one delete
other_rows i j [] h = refl
other_rows i j (r ∷ rs) h = ground (arith, other_rows i j rs)

-- What is locked is not what is free.
distinct :
    (i j : ℕ) (db : Database)
    → Lock.is_locked i db ≡ true
    → Lock.is_locked j db ≡ false
    → eqb i j ≡ false
distinct i j db h free = elim (Bool-cases (eqb i j)) [
  | inl same ↦ let e : i ≡ j = eqb→eq i j same in cc (rw e at h, free)
  | inr other ↦ other
]

conflict-IsPaired :
    (w : World) (j : ℕ) (r : Response)
    → Lock.is_locked j w.db ≡ false
    → IsPaired w
    → IsPaired (conflict w (delete_profile_row j w.db) r).1
unfolding conflict delete_profile_row
conflict-IsPaired w j r free h = keep_pairs w _ (ground arith) kept keyed h
  where
    kept :
        (i : ℕ)
        → Lock.is_locked i w.db ≡ true
        → Lock.is_locked i (conflict w (delete_profile_row j w.db) r).1.db ≡ true
    kept i k = ground (
      arith,
      distinct i j w.db k free,
      other_rows i j w.db.image_profile,
      locked_row i w.db,
      locked_row i (conflict w (delete_profile_row j w.db) r).1.db,
    )

    keyed : IsKeyed (conflict w (delete_profile_row j w.db) r).1.db
    keyed = elim (Bool-cases (exists_row (has_id j) w.db.image_profile)) [
      | inr absent ↦ rw (absent, conflict, delete_profile_row) h.keyed
      | inl here ↦ elim (Bool-cases (is_referenced j w.db)) [
        | inl used ↦ rw (here, used, conflict, delete_profile_row) h.keyed
        | inr unused ↦
            rw (here, unused, conflict, delete_profile_row) (delete-IsKeyed w.db (has_id j) h.keyed)
      ]
    ]

pub delete_profile-IsPaired :
    (j : ℕ) (args : Args) (session : WebSession) (w : World)
    → IsPaired w
    → IsPaired (delete_profile j args session w).1
unfolding delete_profile
delete_profile-IsPaired j args session w h =
    checked_cases IsPaired (verify_csrf args session) _ w h
      (elim (Bool-cases (Lock.is_locked j w.db)) [
        | inl held ↦ rw held h
        | inr free ↦ rw free (conflict-IsPaired w j _ free h)
      ])

-- The lock of a profile that is being edited here is not taken away.
pub force_unlock-IsPaired :
    (j : ℕ) (args : Args) (session : WebSession) (w : World)
    → IsPaired w
    → IsPaired (force_unlock j args session w).1
unfolding force_unlock
force_unlock-IsPaired j args session w h =
    checked_cases IsPaired (verify_csrf args session) _ w h
      (elim (Bool-cases (has_key j w.admin_sessions)) [
        | inl edited ↦ rw edited h
        | inr idle ↦ rw idle (record {
          locked = λ i k.
              let other : eqb i j ≡ false = elim (Bool-cases (eqb i j)) [
                | inl same ↦ let e : i ≡ j = eqb→eq i j same in cc (rw e at k, idle)
                | inr ne ↦ ne
              ] in
              rw (is_locked-release_ne i j w.db other) (h.locked i k);
          keyed = release-IsKeyed j w.db h.keyed;
        })
      ])

pub delete_version-IsPaired :
    (root : Text) (j n : ℕ) (args : Args) (session : WebSession) (w : World)
    → IsPaired w
    → IsPaired (delete_version root j n args session w).1
unfolding delete_version remove_version
delete_version-IsPaired root j n args session w h =
    checked_cases IsPaired (verify_csrf args session) _ w h
      (same_pairs w _ (ground arith) (ground arith, ground arith) h)

pub create_profile-IsPaired :
    (args : Args) (session : WebSession) (w : World)
    → IsPaired w
    → IsPaired (create_profile args session w).1
unfolding create_profile store
create_profile-IsPaired args session w h =
    let kept = λ (made : Result Database). IsPaired (store w made (redirect (codes "/images"))).1 in
    checked_cases IsPaired (verify_csrf args session) _ w h (
      bind_cases kept (arg (codes "name") args) _ (λ x. h)
        λ raw_name.
          bind_cases kept (decode raw_name) _ (λ x. h)
            λ name.
              bind_cases kept (arg (codes "storage_dir") args) _ (λ x. h)
                λ raw_dir.
                  bind_cases kept (decode raw_dir) _ (λ x. h)
                    λ dir. store-IsPaired w name dir (redirect (codes "/images")) h)
