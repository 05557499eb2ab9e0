-- ===== src/Lio/Removal.antt =====
-- What `remove_lun` takes away, and what it leaves.
use diskless.Base.{
  ℕ, ◌≡◌, refl, Bool, true, false, ◌&&◌, List, [], ◌∷◌, arith, Text, ok, ◌==◌, list_eq, nat_eq, eqb,
  if◌then◌else◌, inl, inr, Bool-cases,
}
use diskless.Base.Action.{◌>>=◌}
use diskless.Database.{delete, exists_row}
use diskless.Machine.{Machine, NodeAcl, Lun}
use diskless.Lio.{tpg_tag, delete_acls, delete_luns, remove_lun}

abbrev pub is_of : Text → NodeAcl → Bool
is_of iqn acl = acl.node_wwn == iqn

abbrev pub is_named : Text → Lun → Bool
is_named name lun = lun.storage_name == name

-- How rtslib shows the target's ACLs and LUNs: the target and its TPG are there already, lists are
-- read as they are, and a deletion takes away what it is called on.
pub record IsShown {K : Type 0} (os : Machine K) (wwn : Text) (acls : K → List NodeAcl)
    (luns : K → List Lun) : Type 0 where
  pub target : (k : K) → os.target wwn k ≡ (ok tt, k)
  pub tpg : (k : K) → os.tpg wwn tpg_tag k ≡ (ok tt, k)
  pub node_acls : (k : K) → os.node_acls wwn tpg_tag k ≡ (ok (acls k), k)
  pub luns_read : (k : K) → os.luns wwn tpg_tag k ≡ (ok (luns k), k)
  pub delete_acl :
      (iqn : Text) (k : K)
      → ((os.delete_acl wwn tpg_tag iqn k).0 ≡ ok tt)
        × (acls (os.delete_acl wwn tpg_tag iqn k).1 ≡ delete (is_of iqn) (acls k))
        × (luns (os.delete_acl wwn tpg_tag iqn k).1 ≡ luns k)
  pub delete_lun :
      (n : ℕ) (k : K)
      → ((os.delete_lun wwn tpg_tag n k).0 ≡ ok tt)
        × (acls (os.delete_lun wwn tpg_tag n k).1 ≡ acls k)
        × (luns (os.delete_lun wwn tpg_tag n k).1 ≡ delete (λ (l : Lun). eqb l.lun n) (luns k))
  pub delete_storage :
      (name : Text) (k : K)
      → (acls (os.delete_storage name k).1 ≡ acls k) × (luns (os.delete_storage name k).1 ≡ luns k)

delete_twice : {A : Type 0} (p : A → Bool) (xs : List A) → delete p (delete p xs) ≡ delete p xs
unfolding delete
delete_twice p [] = refl
delete_twice p (x ∷ xs) = ground (arith, delete_twice p xs)

delete_absent :
    {A : Type 0} (p : A → Bool) (xs : List A) → exists_row p xs ≡ false → delete p xs ≡ xs
unfolding delete exists_row
delete_absent p [] h = refl
delete_absent p (x ∷ xs) h = ground (arith, delete_absent p xs)

-- Deleting other rows makes no row appear.
exists-delete :
    {A : Type 0} (p q : A → Bool) (xs : List A)
    → exists_row p xs ≡ false
    → exists_row p (delete q xs) ≡ false
unfolding delete exists_row
exists-delete p q [] h = refl
exists-delete p q (x ∷ xs) h = ground (arith, exists-delete p q xs)

module _ {K : Type 0} (os : Machine K) (wwn : Text) {acls : K → List NodeAcl} {luns : K → List Lun}
    (shown : IsShown os wwn acls luns) where
  delete_acls_lem :
      (iqn : Text) (rows : List NodeAcl) (k : K)
      → ((delete_acls os wwn iqn rows k).0 ≡ ok tt)
        × (acls (delete_acls os wwn iqn rows k).1
            ≡ (if exists_row (is_of iqn) rows then delete (is_of iqn) (acls k) else acls k))
        × (luns (delete_acls os wwn iqn rows k).1 ≡ luns k)
  unfolding delete_acls exists_row ◌>>=◌
  delete_acls_lem iqn [] k = (refl, refl, refl)
  delete_acls_lem iqn (a ∷ rows) k = ground (
    arith,
    shown.delete_acl a.node_wwn k,
    delete_acls_lem iqn rows k,
    delete_acls_lem iqn rows (os.delete_acl wwn tpg_tag a.node_wwn k).1,
    delete_twice (is_of iqn) (acls k),
  )

abbrev is_numbered : ℕ → Lun → Bool
is_numbered n lun = eqb lun.lun n

-- The LUNs that are left where those of the name, with the numbers in `rows`, are deleted.
without : Text → List Lun → List Lun → List Lun
without name [] ls = ls
without name (r ∷ rows) ls =
    without name rows (if is_named name r then delete (is_numbered r.lun) ls else ls)

same_name_of : Text → ℕ → Lun → Bool
same_name_of name n r = is_named name r && eqb r.lun n

-- Every LUN of the name has its number in `rows`.
abbrev Listed : Text → List Lun → List Lun → Type 0
Listed name rows [] = Unit
Listed name rows (m ∷ ls) =
    (is_named name m ≡ true → exists_row (same_name_of name m.lun) rows ≡ true)
    × Listed name rows ls

Listed-tail :
    (name : Text) (r : Lun) (rows ls : List Lun)
    → is_named name r ≡ false
    → Listed name (r ∷ rows) ls
    → Listed name rows ls
unfolding exists_row same_name_of
Listed-tail name r rows [] other h = tt
Listed-tail name r rows (m ∷ ls) other h =
    (λ named. ground (arith, h.0 named), Listed-tail name r rows ls other h.1)

Listed-delete :
    (name : Text) (r : Lun) (rows ls : List Lun)
    → Listed name (r ∷ rows) ls
    → Listed name rows (delete (is_numbered r.lun) ls)
unfolding exists_row delete same_name_of
Listed-delete name r rows [] h = tt
Listed-delete name r rows (m ∷ ls) h = elim (Bool-cases (is_numbered r.lun m)) [
  | inl gone ↦ rw (gone, delete) (Listed-delete name r rows ls h.1)
  | inr stays ↦
      rw (stays, delete) ((λ named. ground (arith, h.0 named)), Listed-delete name r rows ls h.1)
]

Listed-cons :
    (name : Text) (r : Lun) (rows ls : List Lun) → Listed name rows ls → Listed name (r ∷ rows) ls
unfolding exists_row
Listed-cons name r rows [] h = tt
Listed-cons name r rows (m ∷ ls) h =
    (λ named. ground (arith, h.0 named), Listed-cons name r rows ls h.1)

Listed-self : (name : Text) (ls : List Lun) → Listed name ls ls
unfolding exists_row same_name_of
Listed-self name [] = tt
Listed-self name (m ∷ ls) = (λ named. ground arith, Listed-cons name m ls ls (Listed-self name ls))

none_left :
    (name : Text) (rows ls : List Lun)
    → Listed name rows ls
    → exists_row (is_named name) (without name rows ls) ≡ false
unfolding exists_row without
none_left name [] [] h = refl
none_left name [] (m ∷ ls) h = ground (arith, h.0, none_left name [] ls h.1)
none_left name (r ∷ rows) ls h = elim (Bool-cases (is_named name r)) [
  | inl named ↦ rw named (none_left name rows _ (Listed-delete name r rows ls h))
  | inr other ↦ rw other (none_left name rows ls (Listed-tail name r rows ls other h))
]

module _ {K : Type 0} (os : Machine K) (wwn : Text) {acls : K → List NodeAcl} {luns : K → List Lun}
    (shown : IsShown os wwn acls luns) where
  delete_luns_lem :
      (name : Text) (rows : List Lun) (k : K)
      → ((delete_luns os wwn name rows k).0 ≡ ok tt)
        × (acls (delete_luns os wwn name rows k).1 ≡ acls k)
        × (luns (delete_luns os wwn name rows k).1 ≡ without name rows (luns k))
  unfolding delete_luns without ◌>>=◌
  delete_luns_lem name [] k = (refl, refl, refl)
  delete_luns_lem name (r ∷ rows) k = ground (
    arith,
    shown.delete_lun r.lun k,
    delete_luns_lem name rows k,
    delete_luns_lem name rows (os.delete_lun wwn tpg_tag r.lun k).1,
  )

-- On a target that rtslib shows and changes as documented, `remove_lun` leaves exactly the ACLs of the
-- other initiators and no LUN of the session's name, also where the storage object cannot be deleted.
pub remove_lun_lem :
    {K : Type 0} (os : Machine K) (wwn iqn name : Text) {acls : K → List NodeAcl}
    {luns : K → List Lun} (k : K)
    → IsShown os wwn acls luns
    → (acls (remove_lun os wwn iqn name k).1 ≡ delete (is_of iqn) (acls k))
      × (exists_row (is_named name) (luns (remove_lun os wwn iqn name k).1) ≡ false)
unfolding remove_lun ◌>>=◌
remove_lun_lem os wwn iqn name {acls} {luns} k shown =
    let k' = (delete_acls os wwn iqn (acls k) k).1 in
    let a = delete_acls_lem os wwn shown iqn (acls k) k in
    let l = delete_luns_lem os wwn shown name (luns k) k' in
    ground (
      arith,
      shown.target k,
      shown.tpg k,
      shown.node_acls k,
      a,
      shown.luns_read k',
      l,
      shown.delete_storage name (delete_luns os wwn name (luns k) k').1,
      delete_absent (is_of iqn) (acls k),
      none_left name (luns k) (luns k) (Listed-self name (luns k)),
    )
