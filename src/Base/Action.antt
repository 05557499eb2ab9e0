-- ===== src/Base/Action.antt =====
-- Methods that change a state and may raise: what was changed before an exception stays changed.
use mathlib.Core.Path.{◌≡◌, refl}
use mathlib.Core.Bool.{Bool, true, false}
use native.Mathlib.Omega.{arith}
use mathlib.Core.Logic.{inl, inr}
use diskless.Base.Tests.{if◌then◌else◌}
use diskless.Base.Outcome.{Result, ok, raise, Result-cases}

abbrev pub Action {ℓ} : Type ℓ → Type ℓ → Type ℓ
Action S A = S → Result A × S

module _ {ℓ} {S A : Type ℓ} where
  unfoldable pub return : A → Action S A
  return a s = (ok a, s)

  -- The outcome of a computation that does not look at the state.
  unfoldable pub lift : Result A → Action S A
  lift outcome s = (outcome, s)

  -- The outcome of one that reads it.
  unfoldable pub reads : (S → Result A) → Action S A
  reads query s = (query s, s)

unfoldable pub changes {ℓ} : {S : Type ℓ} → (S → S) → Action S (Unit {ℓ})
changes update s = (ok tt, update s)

module _ {ℓ} {S A B : Type ℓ} where
  abbrev proceed : (A → Action S B) → Result A → Action S B
  proceed rest (raise x) s = (raise x, s)
  proceed rest (ok a) s = rest a s

  infixl 5 ◌>>=◌ ◌>>◌
  unfoldable pub ◌>>=◌ : Action S A → (A → Action S B) → Action S B
  unfolding return lift reads changes
  ◌>>=◌ first rest s = let (outcome, s') = first s in proceed rest outcome s'

  abbrev pub ◌>>◌ : Action S A → Action S B → Action S B
  first >> second = first >>= λ _. second

module _ {ℓ} {S A B : Type ℓ} where
  -- A chain that returns has returned from its first action.
  pub bind_returned :
      (first : Action S A) (rest : A → Action S B) (s : S) (b : B)
      → ((first >>= rest) s).0 ≡ ok b
      → (a : A) × ((first s).0 ≡ ok a)
        × ((first >>= rest) s ≡ rest a (first s).1)
        × ((rest a (first s).1).0 ≡ ok b)
  unfolding ◌>>=◌
  bind_returned first rest s b e = elim (Result-cases (first s).0) [
    | inl (x, failed) ↦ ground (arith, failed, e)
    | inr (a, done) ↦ (a, done, rw done refl, rw done at e)
  ]

-- An action on a part of the state.
unfoldable pub within {ℓ} : {S T A : Type ℓ} → (S → T) → (T → S → S) → Action T A → Action S A
within part put_back act s = let (outcome, t) = act (part s) in (outcome, put_back t s)

-- `P` holds after the action, returned or raised, if it held before.
pub record Keeps {ℓ} {S A : Type ℓ} (P : S → Type ℓ) (act : Action S A) : Type ℓ where
  pub after : (s : S) → P s → P (act s).1

module _ {ℓ} {S A : Type ℓ} {P : S → Type ℓ} where
  pub return-Keeps : (a : A) → Keeps P (return {S = S} a)
  unfolding return
  return-Keeps a = record { after = λ s held. held }

  pub lift-Keeps : (outcome : Result A) → Keeps P (lift {S = S} outcome)
  unfolding lift
  lift-Keeps outcome = record { after = λ s held. held }

  pub reads-Keeps : (query : S → Result A) → Keeps P (reads query)
  unfolding reads
  reads-Keeps query = record { after = λ s held. held }

  pub if-Keeps :
      (test : Bool) (yes_act no_act : Action S A)
      → Keeps P yes_act
      → Keeps P no_act
      → Keeps P (if test then yes_act else no_act)
  if-Keeps true yes_act no_act kept _ = kept
  if-Keeps false yes_act no_act _ kept = kept

module _ {ℓ} {S A B : Type ℓ} {P : S → Type ℓ} where
  proceed-Keeps :
      (rest : A → Action S B) (outcome : Result A)
      → ((a : A) → Keeps P (rest a))
      → Keeps P (proceed rest outcome)
  proceed-Keeps rest (raise x) kept = record { after = λ s held. held }
  proceed-Keeps rest (ok a) kept = kept a

  pub bind-Keeps :
      (first : Action S A) (rest : A → Action S B)
      → Keeps P first
      → ((a : A) → Keeps P (rest a))
      → Keeps P (first >>= rest)
  unfolding ◌>>=◌
  bind-Keeps first rest kept kept_rest = record {
    after =
        λ s held. (proceed-Keeps rest (first s).0 kept_rest).after (first s).1 (kept.after s held);
  }

pub ruleset keeps_rules = (return-Keeps, lift-Keeps, reads-Keeps, if-Keeps, bind-Keeps)

-- The rest of a chain may use what the outcome was.
pub lift-bind-Keeps {ℓ} :
    {S A B : Type ℓ} {P : S → Type ℓ} (outcome : Result A) (rest : A → Action S B)
    → ((a : A) → outcome ≡ ok a → Keeps P (rest a))
    → Keeps P (lift outcome >>= rest)
unfolding ◌>>=◌
lift-bind-Keeps (ok a) rest kept = kept a refl
lift-bind-Keeps (raise x) rest kept = record { after = λ s held. held }
