-- ===== src/Web/Images/References.antt =====
-- What deletions must not break: assigned versions stay, and references have their targets.
use diskless.Base.{
  ℕ, ◌≡◌, refl, true, false, List, [], ◌∷◌, arith, Text, list_eq, nat_eq, eqb, ◌&&◌, inl, inr,
  Bool-cases, All,
}
use diskless.Database.{
  Database, ImageProfile, ImageVersion, ClientBinding, delete, exists_row, has_id, is_version,
  is_binding,
}
use diskless.Orchestration.Lock
use diskless.Web.{Args, WebSession, Response, World, verify_csrf, checked, checked_cases}
use diskless.Web.Images.{
  delete_profile, delete_profile_row, is_referenced, conflict, delete_version, remove_version,
}

-- Rows of another version stay where a version is deleted.
exists-delete :
    (i v j n : ℕ) (rs : List ImageVersion)
    → (eqb i j && eqb v n) ≡ false
    → exists_row (is_version i v) (delete (is_version j n) rs) ≡ exists_row (is_version i v) rs
unfolding exists_row delete
exists-delete i v j n [] h = refl
exists-delete i v j n (r ∷ rs) h = ground (arith, exists-delete i v j n rs)

same_binding :
    (i v j n : ℕ) (bs : List ClientBinding)
    → (eqb i j && eqb v n) ≡ true
    → exists_row (is_binding i v) bs ≡ true
    → exists_row (is_binding j n) bs ≡ true
same_binding i v j n bs e h =
    let p : i ≡ j = ground arith in let q : v ≡ n = ground arith in rw (← p, ← q) h

-- Deleting any version, whatever the request, takes no version away that a client is assigned to.
pub delete_version_keeps_assigned :
    (images_root : Text) (j n : ℕ) (args : Args) (session : WebSession) (w : World) (i v : ℕ)
    → exists_row (is_binding i v) w.db.client_binding ≡ true
    → exists_row (is_version i v) (delete_version images_root j n args session w).1.db.image_version
      ≡ exists_row (is_version i v) w.db.image_version
unfolding delete_version checked remove_version
delete_version_keeps_assigned images_root j n args session w i v used =
    ground
      (arith, exists-delete i v j n w.db.image_version, same_binding i v j n w.db.client_binding)

-- Every version and every client refers to a profile that exists.
pub record IsReferential (db : Database) : Type 0 where
  pub versions :
      All
        (λ (r : ImageVersion). exists_row (has_id r.profile_id) db.image_profile ≡ true)
        db.image_version
  pub bindings :
      All
        (λ (b : ClientBinding). exists_row (has_id b.image_profile_id) db.image_profile ≡ true)
        db.client_binding

other_profile :
    (i j : ℕ) (rs : List ImageProfile)
    → eqb i j ≡ false
    → exists_row (has_id i) (delete (has_id j) rs) ≡ exists_row (has_id i) rs
unfolding exists_row delete
other_profile i j [] h = refl
other_profile i j (r ∷ rs) h = ground (arith, other_profile i j rs)

versions_stay :
    (j : ℕ) (ps : List ImageProfile) (rs : List ImageVersion)
    → exists_row (λ (r : ImageVersion). eqb r.profile_id j) rs ≡ false
    → All (λ (r : ImageVersion). exists_row (has_id r.profile_id) ps ≡ true) rs
    → All (λ (r : ImageVersion). exists_row (has_id r.profile_id) (delete (has_id j) ps) ≡ true) rs
unfolding exists_row
versions_stay j ps [] unused all = tt
versions_stay j ps (r ∷ rs) unused all =
    (ground (arith, other_profile r.profile_id j ps), versions_stay j ps rs (ground arith) all.1)

bindings_stay :
    (j : ℕ) (ps : List ImageProfile) (bs : List ClientBinding)
    → exists_row (λ (b : ClientBinding). eqb b.image_profile_id j) bs ≡ false
    → All (λ (b : ClientBinding). exists_row (has_id b.image_profile_id) ps ≡ true) bs
    → All
        (λ (b : ClientBinding).
          exists_row (has_id b.image_profile_id) (delete (has_id j) ps) ≡ true)
        bs
unfolding exists_row
bindings_stay j ps [] unused all = tt
bindings_stay j ps (b ∷ bs) unused all = (
  ground (arith, other_profile b.image_profile_id j ps),
  bindings_stay j ps bs (ground arith) all.1,
)

conflict-IsReferential :
    (j : ℕ) (w : World) (r : Response)
    → IsReferential w.db
    → IsReferential (conflict w (delete_profile_row j w.db) r).1.db
unfolding conflict delete_profile_row is_referenced
conflict-IsReferential j w r h = elim (Bool-cases (exists_row (has_id j) w.db.image_profile)) [
  | inr absent ↦ rw (absent, conflict, delete_profile_row) h
  | inl here ↦ elim (Bool-cases (is_referenced j w.db)) [
    | inl used ↦ rw (here, used, conflict, delete_profile_row) h
    | inr unused ↦
        rw (here, unused, conflict, delete_profile_row)
          (record {
            versions =
                versions_stay j w.db.image_profile w.db.image_version (ground arith) h.versions;
            bindings =
                bindings_stay j w.db.image_profile w.db.client_binding (ground arith) h.bindings;
          })
  ]
]

-- Where every version and every client has its profile, they have it after any request to delete a
-- profile.
pub delete_profile-IsReferential :
    (j : ℕ) (args : Args) (session : WebSession) (w : World)
    → IsReferential w.db
    → IsReferential (delete_profile j args session w).1.db
unfolding delete_profile
delete_profile-IsReferential j args session w h =
    checked_cases (λ after. IsReferential after.db) (verify_csrf args session) _ w h
      (elim (Bool-cases (Lock.is_locked j w.db)) [
        | inl held ↦ rw held h
        | inr free ↦ rw free (conflict-IsReferential j w _ h)
      ])

-- A request to delete a profile that is locked changes nothing.
pub delete_profile_locked :
    (j : ℕ) (args : Args) (session : WebSession) (w : World)
    → Lock.is_locked j w.db ≡ true
    → (delete_profile j args session w).1 ≡ w
unfolding delete_profile
delete_profile_locked j args session w held =
    checked_cases (λ after. after ≡ w) (verify_csrf args session) _ w refl (rw held refl)
