-- ===== src/Web/Pages/Newest.antt =====
-- The order of the versions on their page.
use Prim.Native.Nat.{max}
use mathlib.Core.List.{Perm}
use mathlib.Core.List.Perm
use diskless.Base.{ℕ, ◌+◌, ◌≤◌, ◌≡◌, refl, ap, List, [], ◌∷◌, arith, ltb, eqb, inl, inr, Bool-cases}
use diskless.Database.{ImageVersion, select}
use diskless.Orchestration.Session.{last_version, next_version_number}
use diskless.Web.{World}
use diskless.Web.Pages.{place, descending, versions_of}

place-Perm : (r : ImageVersion) (rows : List ImageVersion) → Perm (r ∷ rows) (place r rows)
unfolding place
place-Perm r [] = Perm.rfl
place-Perm r (q ∷ rows) = elim (Bool-cases (ltb r.version_number q.version_number)) [
  | inl older ↦
      rw (older, place) (Perm.trans (Perm.swap q r rows) (Perm.cons q (place-Perm r rows)))
  | inr newer ↦ rw (newer, place) Perm.rfl
]

descending-Perm : (rows : List ImageVersion) → Perm rows (descending rows)
unfolding descending
descending-Perm [] = Perm.nil
descending-Perm (r ∷ rows) =
    Perm.trans (Perm.cons r (descending-Perm rows)) (place-Perm r (descending rows))

-- The first of some rows has no higher number than a row.
abbrev pub Tops : ImageVersion → List ImageVersion → Type 0
Tops r [] = Unit
Tops r (q ∷ rows) = q.version_number ≤ r.version_number

abbrev pub Descending : List ImageVersion → Type 0
Descending [] = Unit
Descending (r ∷ rows) = Tops r rows × Descending rows

Tops-place :
    (q r : ImageVersion) (rows : List ImageVersion)
    → Tops q rows
    → r.version_number ≤ q.version_number
    → Tops q (place r rows)
unfolding place
Tops-place q r [] h below = below
Tops-place q r (p ∷ rows) h below = ground arith

place-Descending :
    (r : ImageVersion) (rows : List ImageVersion) → Descending rows → Descending (place r rows)
unfolding place
place-Descending r [] h = (tt, tt)
place-Descending r (q ∷ rows) h = elim (Bool-cases (ltb r.version_number q.version_number)) [
  | inl older ↦
      rw (older, place) (Tops-place q r rows h.0 (ground arith), place-Descending r rows h.1)
  | inr newer ↦ rw (newer, place) (ground arith, h)
]

descending-Descending : (rows : List ImageVersion) → Descending (descending rows)
unfolding descending
descending-Descending [] = tt
descending-Descending (r ∷ rows) = place-Descending r (descending rows) (descending-Descending rows)

-- The number of the first row, or 0.
pub top : List ImageVersion → ℕ
top [] = 0
top (r ∷ rows) = r.version_number

top-place :
    (r : ImageVersion) (rows : List ImageVersion)
    → top (place r rows) ≡ max r.version_number (top rows)
unfolding place top
top-place r [] = omega arith
top-place r (q ∷ rows) = ground arith

top-descending :
    (i : ℕ) (rows : List ImageVersion)
    → last_version i rows
      ≡ top (descending (select (λ (r : ImageVersion). eqb r.profile_id i) rows))
unfolding last_version descending select top
top-descending i [] = refl
top-descending i (r ∷ rows) = elim (Bool-cases (eqb r.profile_id i)) [
  | inl own ↦
      rw (own, top-place r (descending (select (λ (q : ImageVersion). eqb q.profile_id i) rows)))
        (ap (max r.version_number) (top-descending i rows))
  | inr other ↦ rw other (top-descending i rows)
]

-- The page of a profile's versions has exactly the rows of the profile, the highest number first and
-- each number at least the one after it, and the next version of the profile gets the number after
-- the first one's, or 1 where there is none.
pub list_versions-next_version_number :
    (i : ℕ) (w : World)
    → Perm
        (select (λ (r : ImageVersion). eqb r.profile_id i) w.db.image_version)
        (versions_of i w).versions
      × Descending (versions_of i w).versions
      × (next_version_number i w.db ≡ top (versions_of i w).versions + 1)
unfolding versions_of next_version_number
list_versions-next_version_number i w =
    let own = select (λ (r : ImageVersion). eqb r.profile_id i) w.db.image_version in
    (
      descending-Perm own,
      descending-Descending own,
      ap (λ n. n + 1) (top-descending i w.db.image_version),
    )
