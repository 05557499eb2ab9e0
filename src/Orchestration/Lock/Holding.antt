-- ===== src/Orchestration/Lock/Holding.antt =====
-- Which profiles are locked after the calls of the lock.
use diskless.Base.{
  ℕ, ◌≡◌, ◌≢◌, refl, true, false, Option, none, some, List, [], ◌∷◌, arith, Text, ok, eqb, inl, inr,
  Bool-cases, Option-cases,
}
use diskless.Database.{Database, ImageProfile, has_id, fetch_one, update, exists_row}
use diskless.Orchestration.Lock.{acquire, refusal, is_free, unlock, release, is_locked}
use diskless.Orchestration.Lock.Exclusion.{locked_after, fetch_one-update, fetched_id, locked_row}

-- Whoever takes the lock, a row that is held stays held.
update_keeps_held :
    (j i : ℕ) (user at : Text) (rs : List ImageProfile)
    → locked_after (fetch_one (has_id j) rs) ≡ true
    → locked_after (
        fetch_one
          (has_id j)
          (update (is_free i) (λ r. record r { locked_by = some user; locked_at = some at }) rs))
      ≡ true
update_keeps_held j i user at rs h =
    let e =
      fetch_one-update j (is_free i) (λ r. record r { locked_by = some user; locked_at = some at })
        (λ r. refl) rs in
    ground (arith, e)

update_holds :
    (i : ℕ) (user at : Text) (rs : List ImageProfile)
    → exists_row (is_free i) rs ≡ true
    → locked_after (
        fetch_one
          (has_id i)
          (update (is_free i) (λ r. record r { locked_by = some user; locked_at = some at }) rs))
      ≡ true
unfolding exists_row fetch_one update
update_holds i user at [] h = cc
update_holds i user at (r ∷ rs) h = ground (arith, update_holds i user at rs)

-- A lock that is held stays held under another `acquire`.
pub is_locked-acquire :
    (j i : ℕ) (user at : Text) (db : Database)
    → is_locked j db ≡ true
    → is_locked j (acquire i user at db).1 ≡ true
unfolding acquire
is_locked-acquire j i user at db h = elim (Bool-cases (exists_row (is_free i) db.image_profile)) [
  | inl free ↦
      rw (free, acquire, locked_row)
        (update_keeps_held j i user at db.image_profile (rw locked_row at h))
  | inr held ↦ rw (held, acquire) h
]

refused : (row : Option ImageProfile) → refusal row ≢ ok tt
unfolding refusal
refused none e = cc
refused (some row) e = ground arith

-- An `acquire` that returns has locked the profile.
pub is_locked-acquire_self :
    (i : ℕ) (user at : Text) (db : Database)
    → (acquire i user at db).0 ≡ ok tt
    → is_locked i (acquire i user at db).1 ≡ true
unfolding acquire
is_locked-acquire_self i user at db h =
    elim (Bool-cases (exists_row (is_free i) db.image_profile)) [
      | inl free ↦ rw (free, acquire, locked_row) (update_holds i user at db.image_profile free)
      | inr held ↦
          absurd (refused (fetch_one (has_id i) db.image_profile) (rw (held, acquire) at h))
    ]

-- A release is of one profile only.
pub is_locked-release_ne :
    (j i : ℕ) (db : Database) → eqb j i ≡ false → is_locked j (release i db) ≡ is_locked j db
unfolding release unlock
is_locked-release_ne j i db h =
    let e = fetch_one-update j (has_id i) unlock (λ r. refl) db.image_profile in
    elim (Option-cases (fetch_one (has_id j) db.image_profile)) [
      | inl absent ↦ ground (arith, e, locked_row j db, locked_row j (release i db))
      | inr (row, here) ↦
          let same_id = fetched_id j row db.image_profile here in
          ground (arith, e, same_id, locked_row j db, locked_row j (release i db))
    ]

-- A profile that was released is not locked.
pub is_locked-release : (i : ℕ) (db : Database) → is_locked i (release i db) ≡ false
unfolding release unlock
is_locked-release i db =
    let e = fetch_one-update i (has_id i) unlock (λ r. refl) db.image_profile in
    elim (Option-cases (fetch_one (has_id i) db.image_profile)) [
      | inl absent ↦ ground (arith, e, locked_row i (release i db))
      | inr (row, here) ↦
          let same_id = fetched_id i row db.image_profile here in
          ground (arith, e, same_id, locked_row i (release i db))
    ]
