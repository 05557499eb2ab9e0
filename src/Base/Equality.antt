-- ===== src/Base/Equality.antt =====
-- Python's `==` and `in` for every type whose equality is decided.
use Prim.Native.Nat.{ℕ}
use mathlib.Core.Path.{◌≡◌, refl, ap, ap₂}
use mathlib.Core.Logic.{◌≢◌, ite, dite}
use mathlib.Core.Bool.{Bool, true, false, ◌||◌}
use mathlib.Core.List.{List, [], ◌∷◌}
use mathlib.Core.Option.{Option, none, some, none-ne-some, some-ne-none, some-injective}
use native.Mathlib.Decide.{ℕ_discrete}
use native.Mathlib.Omega.{arith}

pub record Eq {ℓ} (A : Type ℓ) : Type ℓ where
  pub dec : Discrete A

infix 50 ◌==◌
abbrev pub ◌==◌ {ℓ} : {A : Type ℓ} ⦃e : Eq A⦄ → A → A → Bool
◌==◌ ⦃e⦄ a b = ite (e.dec a b) true false

pub eq_refl {ℓ} : {A : Type ℓ} ⦃e : Eq A⦄ (a : A) → (a == a) ≡ true
eq_refl a = ground arith

pub same_if_equal {ℓ} : {A : Type ℓ} ⦃e : Eq A⦄ (a b : A) → (a == b) ≡ true → a ≡ b
same_if_equal a b h = ground arith

pub not_equal {ℓ} : {A : Type ℓ} ⦃e : Eq A⦄ (a b : A) → a ≢ b → (a == b) ≡ false
not_equal a b h = ground arith

unfoldable pub contains {ℓ} : {A : Type ℓ} ⦃e : Eq A⦄ → List A → A → Bool
contains [] a = false
contains (x ∷ xs) a = a == x || contains xs a

module _ {ℓ} {A : Type ℓ} where
  pub cons-ne-nil : (x : A) (xs : List A) → ¬ (x ∷ xs ≡ [])
  cons-ne-nil x xs h = cc

  pub nil-ne-cons : (x : A) (xs : List A) → ¬ ([] ≡ x ∷ xs)
  nil-ne-cons x xs h = cc

  pub head_eq : (x y : A) (xs ys : List A) → x ∷ xs ≡ y ∷ ys → x ≡ y
  head_eq x y xs ys h = cc

  pub tail_eq : (x y : A) (xs ys : List A) → x ∷ xs ≡ y ∷ ys → xs ≡ ys
  tail_eq x y xs ys h = cc

module _ {ℓ} {A : Type ℓ} ⦃e : Eq A⦄ where
  list_dec : Discrete (List A)
  list_dec [] [] = yes refl
  list_dec [] (y ∷ ys) = no (nil-ne-cons y ys)
  list_dec (x ∷ xs) [] = no (cons-ne-nil x xs)
  list_dec (x ∷ xs) (y ∷ ys) =
      let rest = list_dec xs ys in
      dite (e.dec x y)
        (λ p. dite rest (λ q. yes (ap₂ ◌∷◌ p q)) (λ n. no (λ h. n (tail_eq x y xs ys h))))
        (λ n. no (λ h. n (head_eq x y xs ys h)))

  instance unfoldable pub list_eq : Eq (List A)
  unfolding list_dec
  list_eq = record { dec = list_dec }

instance unfoldable pub nat_eq : Eq ℕ
unfolding ℕ_discrete
nat_eq = record { dec = ℕ_discrete }

module _ {ℓ} {A : Type ℓ} ⦃e : Eq A⦄ where
  option_dec : Discrete (Option A)
  option_dec none none = yes refl
  option_dec none (some b) = no (none-ne-some b)
  option_dec (some a) none = no (some-ne-none a)
  option_dec (some a) (some b) =
      dite (e.dec a b) (λ p. yes (ap some p)) (λ n. no (λ p. n (some-injective a b p)))

  instance unfoldable pub option_eq : Eq (Option A)
  unfolding option_dec
  option_eq = record { dec = option_dec }

module _ {ℓ κ} {A : Type ℓ} {B : Type κ} ⦃d : Eq A⦄ ⦃e : Eq B⦄ where
  pub fst_eq : (a c : A) (b w : B) → ◌≡◌ {A = A × B} (a, b) (c, w) → a ≡ c
  fst_eq a c b w h = ap (λ (p : A × B). p.0) h

  pub snd_eq : (a c : A) (b w : B) → ◌≡◌ {A = A × B} (a, b) (c, w) → b ≡ w
  snd_eq a c b w h = ap (λ (p : A × B). p.1) h

  pair_dec : Discrete (A × B)
  pair_dec (a, b) (c, w) =
      dite (d.dec a c)
        (λ p.
          dite (e.dec b w) (λ q. yes (ap₂ (λ x y. (x, y)) p q))
            (λ n. no (λ h. n (snd_eq a c b w h))))
        (λ n. no (λ h. n (fst_eq a c b w h)))

  instance unfoldable pub pair_eq : Eq (A × B)
  unfolding pair_dec
  pair_eq = record { dec = pair_dec }
