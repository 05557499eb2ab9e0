-- ===== src/Orchestration/Lock/Keys.antt =====
-- The ids of the profiles stay distinct, as a primary key's, under what the program does to the rows.
use diskless.Base.{
  map, ℕ, suc, ◌≡◌, refl, Bool, false, List, [], ◌∷◌, ◌++◌, arith, Text, ok, leb, inl, inr,
  Bool-cases, List-cases,
}
use diskless.Database.{Database, ImageProfile, has_id, is_held, select, update, delete, exists_row}
use diskless.Orchestration.Lock.{acquire, is_free, refusal, unlock, release, release_all, is_locked}
use diskless.Orchestration.Lock.Exclusion.{DistinctIds, update-DistinctIds, exists_free, locked_row}

abbrev pub is_from : ℕ → ImageProfile → Bool
is_from n r = leb n r.id

-- Ids are distinct, and below the next one.
pub record IsKeyed (db : Database) : Type 0 where
  pub distinct : DistinctIds db.image_profile
  pub below : exists_row (is_from db.next_profile) db.image_profile ≡ false

fresh_below :
    (n : ℕ) (rs : List ImageProfile)
    → exists_row (is_from n) rs ≡ false
    → exists_row (has_id n) rs ≡ false
unfolding exists_row
fresh_below n [] h = refl
fresh_below n (r ∷ rs) h = ground (arith, fresh_below n rs)

exists-append :
    (p : ImageProfile → Bool) (rs : List ImageProfile) (r : ImageProfile)
    → exists_row p rs ≡ false
    → p r ≡ false
    → exists_row p (rs ++ r ∷ []) ≡ false
unfolding exists_row
exists-append p [] r h e = rw e
exists-append p (q ∷ rs) r h e = ground (arith, exists-append p rs r)

append-DistinctIds :
    (rs : List ImageProfile) (r : ImageProfile)
    → DistinctIds rs
    → exists_row (has_id r.id) rs ≡ false
    → DistinctIds (rs ++ r ∷ [])
unfolding exists_row
append-DistinctIds [] r d fresh = (refl, tt)
append-DistinctIds (q ∷ rs) r (e, d) fresh =
    (exists-append (has_id q.id) rs r e (ground arith), append-DistinctIds rs r d (ground arith))

above_next :
    (n : ℕ) (rs : List ImageProfile)
    → exists_row (is_from n) rs ≡ false
    → exists_row (is_from (suc n)) rs ≡ false
unfolding exists_row
above_next n [] h = refl
above_next n (r ∷ rs) h = ground (arith, above_next n rs)

-- A row with the next id.
pub append-IsKeyed :
    (db : Database) (r : ImageProfile)
    → r.id ≡ db.next_profile
    → IsKeyed db
    → IsKeyed (record db {
      image_profile = db.image_profile ++ r ∷ [];
      next_profile = suc db.next_profile;
    })
append-IsKeyed db r e k = record {
  distinct =
      append-DistinctIds db.image_profile r k.distinct
        (rw e (fresh_below db.next_profile db.image_profile k.below));
  below =
      exists-append (is_from (suc db.next_profile)) db.image_profile r
        (above_next db.next_profile db.image_profile k.below) (ground arith);
}

pub exists_delete :
    (p q : ImageProfile → Bool) (rs : List ImageProfile)
    → exists_row p rs ≡ false
    → exists_row p (delete q rs) ≡ false
unfolding exists_row delete
exists_delete p q [] h = refl
exists_delete p q (r ∷ rs) h = ground (arith, exists_delete p q rs)

delete-DistinctIds :
    (q : ImageProfile → Bool) (rs : List ImageProfile) → DistinctIds rs → DistinctIds (delete q rs)
unfolding delete
delete-DistinctIds q [] d = tt
delete-DistinctIds q (r ∷ rs) (e, d) = elim (Bool-cases (q r)) [
  | inl gone ↦ rw (gone, delete) (delete-DistinctIds q rs d)
  | inr stays ↦ rw (stays, delete) (exists_delete (has_id r.id) q rs e, delete-DistinctIds q rs d)
]

pub delete-IsKeyed :
    (db : Database) (q : ImageProfile → Bool)
    → IsKeyed db
    → IsKeyed (record db { image_profile = delete q db.image_profile })
delete-IsKeyed db q k = record {
  distinct = delete-DistinctIds q db.image_profile k.distinct;
  below = exists_delete (is_from db.next_profile) q db.image_profile k.below;
}

exists-update_from :
    (n : ℕ) (p : ImageProfile → Bool) (f : ImageProfile → ImageProfile)
    → ((r : ImageProfile) → (f r).id ≡ r.id)
    → (rs : List ImageProfile) → exists_row (is_from n) (update p f rs) ≡ exists_row (is_from n) rs
unfolding exists_row update
exists-update_from n p f same [] = refl
exists-update_from n p f same (r ∷ rs) = ground (arith, same r, exists-update_from n p f same rs)

update-IsKeyed :
    (db : Database) (p : ImageProfile → Bool) (f : ImageProfile → ImageProfile)
    → ((r : ImageProfile) → (f r).id ≡ r.id)
    → IsKeyed db
    → IsKeyed (record db { image_profile = update p f db.image_profile })
update-IsKeyed db p f same k = record {
  distinct = update-DistinctIds p f same db.image_profile k.distinct;
  below = rw (exists-update_from db.next_profile p f same db.image_profile) k.below;
}

pub acquire-IsKeyed :
    (i : ℕ) (user at : Text) (db : Database) → IsKeyed db → IsKeyed (acquire i user at db).1
unfolding acquire
acquire-IsKeyed i user at db k = elim (Bool-cases (exists_row (is_free i) db.image_profile)) [
  | inl free ↦ rw (free, acquire) (update-IsKeyed db (is_free i) _ (λ r. refl) k)
  | inr held ↦ rw (held, acquire) k
]

pub release-IsKeyed : (i : ℕ) (db : Database) → IsKeyed db → IsKeyed (release i db)
unfolding release unlock
release-IsKeyed i db k = update-IsKeyed db (has_id i) unlock (λ r. refl) k

-- An `acquire` that returns has found the profile free.
pub was_free :
    (i : ℕ) (user at : Text) (db : Database)
    → IsKeyed db
    → (acquire i user at db).0 ≡ ok tt
    → is_locked i db ≡ false
unfolding acquire refusal
was_free i user at db k h =
    ground (arith, exists_free i db.image_profile k.distinct, locked_row i db)

pub release_all-IsKeyed : (db : Database) → IsKeyed db → IsKeyed (release_all db).1
unfolding release_all unlock
release_all-IsKeyed db k =
    let freed = update-IsKeyed db is_held unlock (λ r. refl) k in
    elim (List-cases (map (λ (r : ImageProfile). r.id) (select is_held db.image_profile))) [
      | inl nobody ↦ rw (nobody, release_all) k
      | inr (i, others, held) ↦ rw (held, release_all) freed
    ]
