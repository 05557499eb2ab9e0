-- ===== src/Base/Binary.antt =====
-- Python's `bytes` as the list of its bytes, and the integer conversions of the standard library
-- that the packet code calls.
use Prim.Native.Nat.{ℕ, zero, suc, ◌+◌, ◌-◌, ◌*◌, ◌/◌, ◌%◌, ◌^◌, ◌<◌}
use mathlib.Core.Path.{◌≡◌, refl, ◌∙◌}
use mathlib.Core.Bool.{Bool, true, ◌&&◌}
use mathlib.Core.List.{List, [], ◌∷◌, ◌++◌}
use native.Mathlib.Omega.{arith}
use native.Mathlib.Nat.{pow-suc}
use diskless.Base.Tests.{ltb, if◌then◌else◌}
use diskless.Base.Lists.{length, length-append, replicate, All}
use diskless.Base.Outcome.{Result, ok, raise, value_error, overflow_error}

abbrev pub Bytes : Type 0
Bytes = List ℕ

abbrev pub IsBytes : Bytes → Type 0
IsBytes = All (λ b. b < 256)

from_bytes_acc : ℕ → Bytes → ℕ
from_bytes_acc acc [] = acc
from_bytes_acc acc (b ∷ bs) = from_bytes_acc (acc * 256 + b) bs

-- `int.from_bytes(bs, "big")`
unfoldable pub from_bytes : Bytes → ℕ
unfolding from_bytes_acc
from_bytes = from_bytes_acc 0

unfoldable pub big_endian : ℕ → ℕ → Bytes
big_endian zero n = []
big_endian (suc k) n = big_endian k (n / 256) ++ n % 256 ∷ []

-- `n.to_bytes(k, "big")`
unfoldable pub to_bytes : ℕ → ℕ → Result Bytes
unfolding big_endian
to_bytes k n = if ltb n (256 ^ k) then ok (big_endian k n) else raise overflow_error

fits_bytes : List ℕ → Bool
fits_bytes [] = true
fits_bytes (x ∷ xs) = ltb x 256 && fits_bytes xs

-- `bytes(xs)`, for numbers that are not negative
unfoldable pub bytes_of : List ℕ → Result Bytes
unfolding fits_bytes
bytes_of xs = if fits_bytes xs then ok xs else raise value_error

-- `bs.ljust(n, bytes([fill]))`
unfoldable pub ljust : ℕ → ℕ → Bytes → Bytes
ljust n fill bs = bs ++ replicate (n - length bs) fill

pub length-big_endian : (k n : ℕ) → length (big_endian k n) ≡ k
unfolding big_endian
length-big_endian zero n = refl
length-big_endian (suc k) n =
    omega
      (arith, length-append (big_endian k (n / 256)) (n % 256 ∷ []), length-big_endian k (n / 256))

from_bytes_acc-append :
    (acc : ℕ) (bs : Bytes) (b : ℕ)
    → from_bytes_acc acc (bs ++ b ∷ []) ≡ from_bytes_acc acc bs * 256 + b
unfolding from_bytes_acc
from_bytes_acc-append acc [] b = refl
from_bytes_acc-append acc (c ∷ bs) b = from_bytes_acc-append (acc * 256 + c) bs b

div_small : (k n : ℕ) → n < 256 ^ suc k → n / 256 < 256 ^ k
div_small k n h = omega (arith, pow-suc 256 k)

-- Reading back what `to_bytes` wrote gives the number.
pub from_bytes-big_endian : (k n : ℕ) → n < 256 ^ k → from_bytes (big_endian k n) ≡ n
unfolding from_bytes big_endian
from_bytes-big_endian zero n h = omega arith
from_bytes-big_endian (suc k) n h =
    let small : n / 256 < 256 ^ k = div_small k n h in
    from_bytes_acc-append 0 (big_endian k (n / 256)) (n % 256)
    ∙ omega (arith, from_bytes-big_endian k (n / 256) small)
