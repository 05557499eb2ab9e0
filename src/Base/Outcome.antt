-- ===== src/Base/Outcome.antt =====
-- Python's exceptions as values, and methods that change an object and may raise: what was written
-- before a raise stays written, so the state comes back beside the exception too.
use mathlib.Core.List.{List}
use mathlib.Core.Path.{◌≡◌, refl, ap}
use mathlib.Core.Logic.{◌⊎◌, inl, inr}
use Prim.Native.Nat.{ℕ}

-- The exceptions that the program raises or that its library calls raise. `out_of_fuel` is no
-- exception: it is what a loop of the model returns if its fuel ends.
pub data Exn : Type 0 where
  index_error key_error value_error overflow_error unicode_error attribute_error : Exn
  lookup_error client_not_registered integrity_error pool_exhausted file_not_found : Exn
  bad_signature os_error called_process_error runtime_error type_error : Exn
  profile_locked : List ℕ → Exn
  priv_helper_error : List ℕ → Exn
  out_of_fuel : Exn

pub data Result {ℓ} (A : Type ℓ) : Type ℓ where
  ok : A → Result A
  raise : Exn → Result A

infixl 5 ◌>>=◌ ◌>>◌
abbrev pub ◌>>=◌ {ℓ κ} : {A : Type ℓ} {B : Type κ} → Result A → (A → Result B) → Result B
ok a >>= f = f a
raise x >>= f = raise x

abbrev pub ◌>>◌ {ℓ κ} : {A : Type ℓ} {B : Type κ} → Result A → Result B → Result B
m >> k = m >>= λ _. k

-- What holds of every exception, and of every outcome of the rest, holds of the chain.
pub bind_cases {ℓ κ μ} :
    {A : Type ℓ} {B : Type κ} (P : Result B → Type μ) (first : Result A) (rest : A → Result B)
    → ((x : Exn) → P (raise x))
    → ((a : A) → P (rest a))
    → P (first >>= rest)
bind_cases P (ok a) rest failed went = went a
bind_cases P (raise x) rest failed went = failed x

pub Result-cases {ℓ} :
    {A : Type ℓ} (r : Result A) → ((x : Exn) × (r ≡ raise x)) ⊎ ((a : A) × (r ≡ ok a))
Result-cases (ok a) = inr (a, refl)
Result-cases (raise x) = inl (x, refl)

pub ok_injective {ℓ} : {A : Type ℓ} (a b : A) → ok a ≡ ok b → a ≡ b
ok_injective a b = ap (λ r. elim r [ ok x ↦ x | raise x ↦ a ])
