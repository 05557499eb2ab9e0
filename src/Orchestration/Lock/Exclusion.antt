-- ===== src/Orchestration/Lock/Exclusion.antt =====
-- The lock excludes, and a release makes it free again.
use diskless.Base.{
  ℕ, ◌≡◌, refl, Bool, true, false, not, Option, none, some, List, [], ◌∷◌, map, arith, Text, ok,
  raise, lookup_error, profile_locked, if◌then◌else◌, eqb, inl, inr, Bool-cases, Option-cases, ap,
  ◌∙◌,
}
use diskless.Database.{
  Database, ImageProfile, has_id, is_held, select, fetch_one, update, exists_row,
}
use diskless.Orchestration.Lock.{acquire, is_free, unlock, release, is_locked, release_all}

-- Ids are unique, as a primary key is.
abbrev pub DistinctIds : List ImageProfile → Type 0
DistinctIds [] = Unit
DistinctIds (r ∷ rs) = (exists_row (has_id r.id) rs ≡ false) × DistinctIds rs

abbrev pub locked_after : Option ImageProfile → Bool
locked_after none = false
locked_after (some row) = is_held row

-- What an update that keeps the ids does to the row with an id.
abbrev pub updated :
    (ImageProfile → Bool)
    → (ImageProfile → ImageProfile)
    → Option ImageProfile
    → Option ImageProfile
updated p f none = none
updated p f (some r) = some (if p r then f r else r)

pub fetch_one-update :
    (j : ℕ) (p : ImageProfile → Bool) (f : ImageProfile → ImageProfile)
    → ((r : ImageProfile) → (f r).id ≡ r.id)
    → (rs : List ImageProfile)
    → fetch_one (has_id j) (update p f rs) ≡ updated p f (fetch_one (has_id j) rs)
unfolding fetch_one update
fetch_one-update j p f same [] = refl
fetch_one-update j p f same (r ∷ rs) = ground (arith, same r, fetch_one-update j p f same rs)

exists_absent :
    (i : ℕ) (rs : List ImageProfile)
    → exists_row (has_id i) rs ≡ false
    → exists_row (is_free i) rs ≡ false
unfolding exists_row
exists_absent i [] h = refl
exists_absent i (r ∷ rs) h = ground (arith, exists_absent i rs)

abbrev pub is_free_row : Option ImageProfile → Bool
is_free_row none = false
is_free_row (some r) = not (is_held r)

same_row :
    (i j : ℕ) (rs : List ImageProfile)
    → i ≡ j
    → exists_row (has_id i) rs ≡ false
    → exists_row (has_id j) rs ≡ false
same_row i j rs e h = rw (← e) h

pub exists_free :
    (i : ℕ) (rs : List ImageProfile)
    → DistinctIds rs
    → exists_row (is_free i) rs ≡ is_free_row (fetch_one (has_id i) rs)
unfolding exists_row fetch_one
exists_free i [] d = refl
exists_free i (r ∷ rs) (fresh, d) =
    ground (arith, exists_free i rs d, exists_absent i rs, same_row r.id i rs)

pub fetched_id :
    (i : ℕ) (row : ImageProfile) (rs : List ImageProfile)
    → fetch_one (has_id i) rs ≡ some row
    → eqb row.id i ≡ true
unfolding fetch_one
fetched_id i row [] h = cc
fetched_id i row (r ∷ rs) h = ground (arith, fetched_id i row rs)

exists-update :
    (j : ℕ) (p : ImageProfile → Bool) (f : ImageProfile → ImageProfile)
    → ((r : ImageProfile) → (f r).id ≡ r.id)
    → (rs : List ImageProfile) → exists_row (has_id j) (update p f rs) ≡ exists_row (has_id j) rs
unfolding exists_row update
exists-update j p f same [] = refl
exists-update j p f same (r ∷ rs) = ground (arith, same r, exists-update j p f same rs)

id_after :
    (p : ImageProfile → Bool) (f : ImageProfile → ImageProfile)
    → ((r : ImageProfile) → (f r).id ≡ r.id)
    → (r : ImageProfile) → (if p r then f r else r).id ≡ r.id
id_after p f same r = ground (arith, same r)

pub update-DistinctIds :
    (p : ImageProfile → Bool) (f : ImageProfile → ImageProfile)
    → ((r : ImageProfile) → (f r).id ≡ r.id)
    → (rs : List ImageProfile) → DistinctIds rs
    → DistinctIds (update p f rs)
unfolding update
update-DistinctIds p f same [] d = tt
update-DistinctIds p f same (r ∷ rs) (fresh, d) = (
  rw (id_after p f same r, exists-update r.id p f same rs) fresh,
  update-DistinctIds p f same rs d,
)

module _ (i : ℕ) (user at : Text) (db : Database) (d : DistinctIds db.image_profile) where
  -- A free profile is locked by the caller; a profile that is held, or that does not exist, is
  -- refused with its holder or as unknown, and nothing changes.
  pub acquire_lem :
      (fetch_one (has_id i) db.image_profile ≡ none
        → acquire i user at db ≡ (raise lookup_error, db))
      × ((row : ImageProfile) (holder : Text)
          → fetch_one (has_id i) db.image_profile ≡ some row
          → row.locked_by ≡ some holder
          → acquire i user at db ≡ (raise (profile_locked holder), db))
      × ((row : ImageProfile)
          → fetch_one (has_id i) db.image_profile ≡ some row
          → row.locked_by ≡ none
          → ((acquire i user at db).0 ≡ ok tt)
            × (fetch_one (has_id i) (acquire i user at db).1.image_profile
                ≡ some (record row { locked_by = some user; locked_at = some at })))
  unfolding acquire
  acquire_lem =
      let free = exists_free i db.image_profile d in
      let after =
        fetch_one-update i (is_free i)
          (λ r. record r { locked_by = some user; locked_at = some at }) (λ r. refl)
          db.image_profile in
      (
        λ none_here. ground (arith, free),
        λ row holder here held. ground (arith, free),
        λ row here open_row.
            let at_row = fetched_id i row db.image_profile here in
            (ground (arith, free), ground (arith, free, after, at_row)),
      )

pub locked_row :
    (i : ℕ) (db : Database) → is_locked i db ≡ locked_after (fetch_one (has_id i) db.image_profile)
unfolding is_locked
locked_row i db = ground arith

-- A profile that is locked is refused with its holder, and nothing changes.
pub acquire_locked :
    (i : ℕ) (user at : Text) (db : Database)
    → DistinctIds db.image_profile
    → is_locked i db ≡ true
    → (holder : Text) × (acquire i user at db ≡ (raise (profile_locked holder), db))
acquire_locked i user at db d held = elim (Option-cases (fetch_one (has_id i) db.image_profile)) [
  | inl none_here ↦ absurd (ground (arith, locked_row i db ∙ ap locked_after none_here, held))
  | inr (row, here) ↦ elim (Option-cases row.locked_by) [
    | inl open_row ↦ absurd (ground (arith, locked_row i db ∙ ap locked_after here, held, open_row))
    | inr (holder, by) ↦ (holder, (acquire_lem i user at db d).1 row holder here by)
  ]
]

pub acquire-DistinctIds :
    (i : ℕ) (user at : Text) (db : Database)
    → DistinctIds db.image_profile
    → DistinctIds (acquire i user at db).1.image_profile
unfolding acquire
acquire-DistinctIds i user at db d =
    let after =
      update-DistinctIds (is_free i) (λ r. record r { locked_by = some user; locked_at = some at })
        (λ r. refl) db.image_profile d in
    elim (Bool-cases (exists_row (is_free i) db.image_profile)) [
      | inl free ↦ rw (free, acquire) after
      | inr held ↦ rw (held, acquire) d
    ]

-- In a table with distinct ids, after an `acquire` of a profile that is free, another one of any
-- user raises with the name of the holder and changes nothing.
pub acquire-acquire :
    (i : ℕ) (user other at later : Text) (db : Database) (row : ImageProfile)
    → DistinctIds db.image_profile
    → fetch_one (has_id i) db.image_profile ≡ some row
    → row.locked_by ≡ none
    → acquire i other later (acquire i user at db).1
      ≡ (raise (profile_locked user), (acquire i user at db).1)
acquire-acquire i user other at later db row d here free =
    let db' = (acquire i user at db).1 in
    let row' = record row { locked_by = some user; locked_at = some at } in
    let (_, held) = (acquire_lem i user at db d).2 row here free in
    (acquire_lem i other later db' (acquire-DistinctIds i user at db d)).1 row' user held refl

-- In a table with distinct ids, an `acquire` of a profile that exists succeeds after its
-- `release`, whoever held it.
pub acquire-release :
    (i : ℕ) (user at : Text) (db : Database) (row : ImageProfile)
    → DistinctIds db.image_profile
    → fetch_one (has_id i) db.image_profile ≡ some row
    → (acquire i user at (release i db)).0 ≡ ok tt
unfolding release unlock
acquire-release i user at db row d here =
    let freed = record db { image_profile = update (has_id i) unlock db.image_profile } in
    let at_row = fetched_id i row db.image_profile here in
    let after = fetch_one-update i (has_id i) unlock (λ r. refl) db.image_profile in
    ((acquire_lem i user at freed
        (update-DistinctIds (has_id i) unlock (λ r. refl) db.image_profile d)).2
      (unlock row) (ground (arith, after, at_row)) refl).0

pub none_held :
    (rs : List ImageProfile)
    → map (λ (r : ImageProfile). r.id) (select is_held rs) ≡ []
    → (j : ℕ) → locked_after (fetch_one (has_id j) rs) ≡ false
unfolding select fetch_one
none_held [] e j = refl
none_held (r ∷ rs) e j =
    ground
      (arith, λ (h : map (λ (q : ImageProfile). q.id) (select is_held rs) ≡ []). none_held rs h j)

-- `release_all` leaves no profile locked.
pub is_locked-release_all : (j : ℕ) (db : Database) → is_locked j (release_all db).1 ≡ false
unfolding release_all is_locked unlock
is_locked-release_all j db =
    let after = fetch_one-update j is_held unlock (λ r. refl) db.image_profile in
    ground (
      arith,
      after,
      λ (h : map (λ (q : ImageProfile). q.id) (select is_held db.image_profile) ≡ []).
          none_held db.image_profile h j,
    )
