-- ===== src/Orchestration/Lock.antt =====
-- The exclusive lock of a profile: src/diskless/orchestration/lock.py. The argument `at` is the
-- database's `datetime('now')`.
pub mod Exclusion
pub mod Holding
pub mod Keys
pub mod Promises
pub mod Refinement
use diskless.Base.{
  ℕ, Bool, true, false, not, ◌&&◌, Option, none, some, List, [], ◌∷◌, map, Text, Result, ok, raise,
  lookup_error, profile_locked, attribute_error, if◌then◌else◌, eqb,
}
use diskless.Database.{
  Database, ImageProfile, has_id, is_held, select, fetch_one, update, exists_row,
}

-- Who holds the lock that was not free.
refusal : Option ImageProfile → Result (Unit {0})
refusal none = raise lookup_error
refusal (some row) = elim row.locked_by [
  | none ↦ raise (profile_locked [])
  | some holder ↦ raise (profile_locked holder)
]

abbrev is_free : ℕ → ImageProfile → Bool
is_free profile_id r = has_id profile_id r && not (is_held r)

unfoldable pub acquire : ℕ → Text → Text → Database → Result (Unit {0}) × Database
unfolding refusal
acquire profile_id username at db =
    let locked = record db {
      image_profile =
          update (is_free profile_id)
            (λ r. record r { locked_by = some username; locked_at = some at }) db.image_profile;
    } in
    if exists_row (is_free profile_id) db.image_profile
    then (ok tt, locked)
    else (refusal (fetch_one (has_id profile_id) db.image_profile), db)

unfoldable pub unlock : ImageProfile → ImageProfile
unlock r = record r { locked_by = none; locked_at = none }

unfoldable pub release : ℕ → Database → Database
unfolding unlock
release profile_id db = record db {
  image_profile = update (has_id profile_id) unlock db.image_profile;
}

unfoldable pub is_locked : ℕ → Database → Bool
is_locked profile_id db = elim (fetch_one (has_id profile_id) db.image_profile) [
  | none ↦ false
  | some row ↦ is_held row
]

unfoldable pub release_all : Database → List ℕ × Database
unfolding unlock
release_all db =
    let ids = map (λ (r : ImageProfile). r.id) (select is_held db.image_profile) in
    (
      ids,
      elim ids [
        | [] ↦ db
        | _ ∷ _ ↦ record db { image_profile = update is_held unlock db.image_profile }
      ],
    )
