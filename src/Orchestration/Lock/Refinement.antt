-- ===== src/Orchestration/Lock/Refinement.antt =====
-- The table's lock is the lock that knows only the holders.
use mathlib.Core.Path.{fun_ext}
use diskless.Base.{
  ℕ, ◌≡◌, refl, sym, ap, ◌∙◌, true, false, none, some, List, [], ◌∷◌, arith, Text, if◌then◌else◌,
  eqb, eqb→eq, contains, nat_eq, map, inl, inr, Bool-cases, Option-cases,
}
use diskless.Database.{Database, ImageProfile, has_id, is_held, select, fetch_one, exists_row}
use diskless.Orchestration.Lock.{acquire, is_free, unlock, release, release_all}
use diskless.Orchestration.Lock.Exclusion.{
  DistinctIds, acquire_lem, acquire-DistinctIds, fetch_one-update, fetched_id, update-DistinctIds,
  none_held, exists_free, locked_row,
}
use diskless.Orchestration.Lock.Promises.{
  held, freed, Call, acquiring, releasing, asking, releasing_all, released, take_lock, promised,
  answered, promises, answers, holder, locks,
}

not_listed :
    (j : ℕ) (rs : List ImageProfile)
    → exists_row (has_id j) rs ≡ false
    → contains (map (λ (r : ImageProfile). r.id) (select is_held rs)) j ≡ false
unfolding contains select exists_row nat_eq
not_listed j [] h = refl
not_listed j (r ∷ rs) h = ground (arith, not_listed j rs)

same_absent :
    (i j : ℕ) (rs : List ImageProfile)
    → exists_row (has_id i) rs ≡ false
    → eqb i j ≡ true
    → exists_row (has_id j) rs ≡ false
same_absent i j rs h e = rw (← eqb→eq i j e) h

ids_held :
    (j : ℕ) (rs : List ImageProfile)
    → DistinctIds rs
    → contains (map (λ (r : ImageProfile). r.id) (select is_held rs)) j
      ≡ held (holder (fetch_one (has_id j) rs))
unfolding contains select fetch_one nat_eq
ids_held j [] d = refl
ids_held j (r ∷ rs) (fresh, d) =
    ground (arith, ids_held j rs d, not_listed j rs, same_absent r.id j rs fresh)

module _ (db : Database) (j : ℕ) where
  locks-release :
      (i : ℕ) → locks (release i db) j ≡ (if eqb i j then freed (locks db j) else locks db j)
  unfolding release unlock
  locks-release i =
      let e = fetch_one-update j (has_id i) unlock (λ r. refl) db.image_profile in
      elim (Option-cases (fetch_one (has_id j) db.image_profile)) [
        | inl absent ↦ ground (arith, e, absent)
        | inr (row, here) ↦ ground (arith, e, here, fetched_id j row db.image_profile here)
      ]

  locks-release_all : locks (release_all db).1 j ≡ freed (locks db j)
  unfolding release_all unlock
  locks-release_all =
      let e = fetch_one-update j is_held unlock (λ r. refl) db.image_profile in
      ground (
        arith,
        e,
        λ (h : map (λ (q : ImageProfile). q.id) (select is_held db.image_profile) ≡ []).
            none_held db.image_profile h j,
      )

  locks-acquire :
      (i : ℕ) (user at : Text) (row : ImageProfile)
      → DistinctIds db.image_profile
      → fetch_one (has_id i) db.image_profile ≡ some row
      → row.locked_by ≡ none
      → locks (acquire i user at db).1 j ≡ (if eqb i j then some (some user) else locks db j)
  unfolding acquire
  locks-acquire i user at row d here free =
      let e =
        fetch_one-update j (is_free i)
          (λ r. record r { locked_by = some user; locked_at = some at }) (λ r. refl)
          db.image_profile in
      let open_row : exists_row (is_free i) db.image_profile ≡ true =
        exists_free i db.image_profile d ∙ rw (here, free) refl in
      elim (Bool-cases (eqb i j)) [
        | inl same ↦
            let there : fetch_one (has_id j) db.image_profile ≡ some row =
              rw (← eqb→eq i j same) here in
            rw (open_row, acquire)
              (ground (arith, e, there, free, fetched_id j row db.image_profile there))
        | inr other ↦ elim (Option-cases (fetch_one (has_id j) db.image_profile)) [
          | inl absent ↦ rw (open_row, acquire) (ground (arith, e, absent))
          | inr (row', there) ↦
              rw (open_row, acquire)
                (ground (arith, e, there, fetched_id j row' db.image_profile there))
        ]
      ]

record Agrees (c : Call) (db : Database) : Type 0 where
  answer : (answered c db).0 ≡ (promised c (locks db)).0
  after : locks (answered c db).1 ≡ (promised c (locks db)).1
  distinct : DistinctIds (answered c db).1.image_profile

module _ (db : Database) (d : DistinctIds db.image_profile) where
  releasing-Agrees : (i : ℕ) → Agrees (releasing i) db
  unfolding answered promised release unlock
  releasing-Agrees i = record {
    answer = refl;
    after = fun_ext (λ j. locks-release db j i);
    distinct = update-DistinctIds (has_id i) unlock (λ r. refl) db.image_profile d;
  }

  asking-Agrees : (i : ℕ) → Agrees (asking i) db
  unfolding answered promised
  asking-Agrees i = record {
    answer = rw (locked_row i db) (ground arith);
    after = refl;
    distinct = d;
  }

  releasing_all-Agrees : Agrees releasing_all db
  unfolding answered promised release_all unlock
  releasing_all-Agrees = record {
    answer = ap released (fun_ext (λ j. ids_held j db.image_profile d));
    after = fun_ext (λ j. locks-release_all db j);
    distinct = ground (arith, update-DistinctIds is_held unlock (λ r. refl) db.image_profile d);
  }

  taken_over :
      (i : ℕ) (user at : Text) (row : ImageProfile)
      → fetch_one (has_id i) db.image_profile ≡ some row
      → row.locked_by ≡ none
      → (promised (acquiring i user at) (locks db)).1
        ≡ (λ j. if eqb i j then some (some user) else locks db j)
  unfolding promised take_lock
  taken_over i user at row here free = rw (promised, here, free) refl

  acquiring-Agrees : (i : ℕ) (user at : Text) → Agrees (acquiring i user at) db
  unfolding answered promised take_lock
  acquiring-Agrees i user at =
      let known = acquire_lem i user at db d in
      elim (Option-cases (fetch_one (has_id i) db.image_profile)) [
        | inl absent ↦
            let e = known.0 absent in
            record { answer = rw (e, absent) refl; after = rw (e, absent) refl; distinct = rw e d }
        | inr (row, here) ↦ elim (Option-cases row.locked_by) [
          | inl free ↦ record {
            answer = rw ((known.2 row here free).0, here, free) refl;
            after =
                fun_ext (λ j. locks-acquire db j i user at row d here free)
                ∙ sym (taken_over i user at row here free);
            distinct = acquire-DistinctIds i user at db d;
          }
          | inr (user', taken) ↦
              let e = known.1 row user' here taken in
              record {
                answer = rw (e, here, taken) refl;
                after = rw (e, here, taken) refl;
                distinct = rw e d;
              }
        ]
      ]

agrees : (c : Call) (db : Database) → DistinctIds db.image_profile → Agrees c db
agrees (acquiring i user at) db d = acquiring-Agrees db d i user at
agrees (releasing i) db d = releasing-Agrees db d i
agrees (asking i) db d = asking-Agrees db d i
agrees releasing_all db d = releasing_all-Agrees db d

-- On a table with distinct ids, any sequence of `acquire`, `release`, `is_locked` and `release_all`
-- gives the answers of the specification, which knows only who holds which profile, the ids that
-- `release_all` returns as the set of the held ones; and leaves the table with the specification's
-- holders.
pub calls_refine :
    (cs : List Call) (db : Database)
    → DistinctIds db.image_profile
    → ((answers cs db).0 ≡ (promises cs (locks db)).0)
      × (locks (answers cs db).1 ≡ (promises cs (locks db)).1)
unfolding answers promises
calls_refine [] db d = (refl, refl)
calls_refine (c ∷ cs) db d =
    let h = agrees c db d in
    let rest = calls_refine cs (answered c db).1 h.distinct in
    rw (← h.answer, ← h.after) (ap (λ more. (answered c db).0 ∷ more) rest.0, rest.1)
