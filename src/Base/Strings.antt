-- ===== src/Base/Strings.antt =====
-- Python's `str` as the list of the bytes of its UTF-8 encoding: `encode` is the identity, and
-- `decode` checks the encoding. Decimal and hexadecimal printing, `int`, `split` and `join`.
use Prim.Native.Nat.{ℕ, zero, suc, ◌+◌, ◌-◌, ◌*◌, ◌/◌, ◌%◌}
use Prim.Native.Char.{code}
use Prim.Native.String.{String}
use mathlib.Core.Path.{◌≡◌, refl}
use mathlib.Core.Bool.{Bool, true, false, ◌&&◌, ◌||◌}
use mathlib.Core.Option.{Option, none, some}
use mathlib.Core.List.{List, [], ◌∷◌, ◌++◌, reverse}
use diskless.Base.Tests.{ltb, leb, eqb, if◌then◌else◌}
use diskless.Base.Binary.{Bytes}
use native.Mathlib.Omega.{arith}
use diskless.Base.Outcome.{Result, ok, raise, ◌>>=◌, value_error, unicode_error}

abbrev pub Text : Type 0
Text = List ℕ

-- The text of an ASCII literal.
abbrev pub codes : String → Text
codes String.[] = []
codes (String.◌∷◌ c s) = code c ∷ codes s

-- What may follow a lead byte: how many continuation bytes, and the range of the first.
lead : ℕ → Option (ℕ × ℕ × ℕ)
lead c =
    if ltb c 0x80
    then some (0, 128, 191)
    else if ltb c 0xC2
    then none
    else if leb c 0xDF
    then some (1, 128, 191)
    else if eqb c 0xE0
    then some (2, 160, 191)
    else if eqb c 0xED
    then some (2, 128, 159)
    else if leb c 0xEF
    then some (2, 128, 191)
    else if eqb c 0xF0
    then some (3, 144, 191)
    else if leb c 0xF3
    then some (3, 128, 191)
    else if eqb c 0xF4
    then some (3, 128, 143)
    else none

-- `k` continuation bytes are due, the next of them from `lo` to `hi`.
is_utf8_from : ℕ → ℕ → ℕ → Bytes → Bool
unfolding lead
is_utf8_from zero lo hi [] = true
is_utf8_from (suc k) lo hi [] = false
is_utf8_from zero lo hi (c ∷ bs) = elim (lead c) [
  | none ↦ false
  | some r ↦ is_utf8_from r.0 r.1 r.2 bs
]
is_utf8_from (suc k) lo hi (c ∷ bs) = leb lo c && leb c hi && is_utf8_from k 128 191 bs

-- `bs.decode()`
unfoldable pub decode : Bytes → Result Text
unfolding is_utf8_from
decode bs = if is_utf8_from 0 128 191 bs then ok bs else raise unicode_error

decoded_if :
    (good : Bool) (bs s : Text) → (if good then ok bs else raise unicode_error) ≡ ok s → s ≡ bs
decoded_if true bs s h = ground arith
decoded_if false bs s h = ground arith

-- A text is the bytes that it is decoded from.
pub decode_same : (bs s : Text) → decode bs ≡ ok s → s ≡ bs
unfolding decode
decode_same bs s h = decoded_if (is_utf8_from 0 128 191 bs) bs s h

-- Whether a text is ASCII.
unfoldable pub is_ascii : Text → Bool
is_ascii [] = true
is_ascii (c ∷ s) = leb c 127 && is_ascii s

ascii_valid : (s : Text) → is_ascii s ≡ true → is_utf8_from 0 128 191 s ≡ true
unfolding is_ascii is_utf8_from
ascii_valid [] h = refl
ascii_valid (c ∷ s) h = ground (arith, ascii_valid s)

pub decode_ascii : (s : Text) → is_ascii s ≡ true → decode s ≡ ok s
unfolding decode
decode_ascii s h = rw (ascii_valid s h) refl

-- `sep.join(parts)`
unfoldable pub join : Text → List Text → Text
join sep [] = []
join sep (p ∷ []) = p
join sep (p ∷ q ∷ ps) = p ++ sep ++ join sep (q ∷ ps)

split_add : ℕ → ℕ → List Bytes → List Bytes
split_add sep c [] = []
split_add sep c (f ∷ fs) = if eqb c sep then [] ∷ f ∷ fs else (c ∷ f) ∷ fs

-- `bs.split(bytes([sep]))`, for a separator of one byte
unfoldable pub split : ℕ → Bytes → List Bytes
unfolding split_add
split sep [] = [] ∷ []
split sep (c ∷ bs) = split_add sep c (split sep bs)

-- `str(n)`; a number has fewer digits than `suc n`.
unfoldable pub decimal_from : ℕ → ℕ → Text
decimal_from zero n = []
decimal_from (suc f) n =
    let front = decimal_from f (n / 10) in
    if ltb n 10 then (48 + n) ∷ [] else front ++ (48 + n % 10) ∷ []

unfoldable pub decimal : ℕ → Text
unfolding decimal_from
decimal n = decimal_from (suc n) n

hex_digit : ℕ → ℕ
hex_digit n = if ltb n 10 then 48 + n else 87 + n

-- `f"{b:02x}"`, for a byte
unfoldable pub hex : ℕ → Text
unfolding hex_digit
hex b = hex_digit (b / 16) ∷ hex_digit (b % 16) ∷ []

-- `int(text)`. The text is ASCII; the Unicode digits and spaces that `int` reads too are refused.
is_space : ℕ → Bool
is_space c = (leb 9 c && leb c 13) || (leb 28 c && leb c 32)

strip_left : Text → Text
unfolding is_space
strip_left [] = []
strip_left (c ∷ s) = if is_space c then strip_left s else c ∷ s

-- `s.strip()`
unfoldable pub strip : Text → Text
unfolding strip_left
strip s = reverse (strip_left (reverse (strip_left s)))

is_digit : ℕ → Bool
is_digit c = leb 48 c && leb c 57

-- The digits after the first, with single underscores between them: the value, and how many digits.
digits : ℕ → ℕ → Text → Option (ℕ × ℕ)
unfolding is_digit
digits acc k [] = some (acc, k)
digits acc k (c ∷ []) = if is_digit c then some (acc * 10 + (c - 48), k + 1) else none
digits acc k (c ∷ d ∷ s) =
    let here = digits (acc * 10 + (c - 48)) (k + 1) (d ∷ s) in
    let skip = digits (acc * 10 + (d - 48)) (k + 1) s in
    if is_digit c then here else if eqb c b'_' && is_digit d then skip else none

-- The interpreter refuses texts of more than 4300 digits.
magnitude : Text → Result ℕ
unfolding digits
magnitude [] = raise value_error
magnitude (c ∷ s) =
    if is_digit c
    then elim (digits (c - 48) 1 s) [
      | none ↦ raise value_error
      | some r ↦ if leb r.1 4300 then ok r.0 else raise value_error
    ]
    else raise value_error

-- The integers that `int` returns; `negsuc n` is -(n + 1).
pub data ℤ : Type 0 where
  pos : ℕ → ℤ
  negsuc : ℕ → ℤ

negate : ℕ → ℤ
negate zero = pos 0
negate (suc n) = negsuc n

signed : Text → Result ℤ
unfolding magnitude negate
signed [] = raise value_error
signed (c ∷ s) =
    if eqb c b'-'
    then (do n ← magnitude s; ok (negate n))
    else if eqb c b'+'
    then (do n ← magnitude s; ok (pos n))
    else (do n ← magnitude (c ∷ s); ok (pos n))

unfoldable pub int : Text → Result ℤ
unfolding strip signed
int s = signed (strip s)

int_runs : int (codes " -1_20") ≡ ok (negsuc 119)
unfolding int
int_runs = refl

decimal_runs : decimal 1468 ≡ codes "1468"
unfolding decimal
decimal_runs = refl

split_runs : split 0 (codes "ab") ≡ codes "ab" ∷ []
unfolding split
split_runs = refl

decode_runs : decode (0xE3 ∷ 0x81 ∷ 0x82 ∷ []) ≡ ok (0xE3 ∷ 0x81 ∷ 0x82 ∷ [])
unfolding decode
decode_runs = refl

-- `str(z)`
unfoldable pub shown_int : ℤ → Text
shown_int (pos n) = decimal n
shown_int (negsuc n) = b'-' ∷ decimal (suc n)
