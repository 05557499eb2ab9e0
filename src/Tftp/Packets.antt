-- ===== src/Tftp/Packets.antt =====
-- The packets of src/diskless/bootd/tftp.py, and the negotiation of the block size.
use diskless.Base.{
  ℕ, ◌-◌, ◌≤◌, ◌≡◌, refl, none, some, List, [], ◌∷◌, ◌++◌, arith, Bytes, Text, codes, decode, split,
  ℤ, pos, negsuc, int, Result, ok, raise, index_error, ◌>>=◌, if◌then◌else◌, ltb, Option-cases, inl,
  inr, length, take, drop, to_bytes, list_eq, nat_eq,
}
use diskless.Base.Dict.{Dict, lookup, insert}

abbrev pub opcode_rrq : ℕ
opcode_rrq = 1

abbrev pub opcode_wrq : ℕ
opcode_wrq = 2

abbrev pub opcode_data : ℕ
opcode_data = 3

abbrev pub opcode_ack : ℕ
opcode_ack = 4

abbrev pub opcode_error : ℕ
opcode_error = 5

abbrev pub opcode_oack : ℕ
opcode_oack = 6

abbrev pub err_access_violation : ℕ
err_access_violation = 2

abbrev pub default_block_size : ℕ
default_block_size = 512

abbrev pub max_block_size : ℕ
max_block_size = 1468

abbrev pub max_retransmits : ℕ
max_retransmits = 5

-- `fields[i:-1:2]` behind its first `i` fields: every second one, without the last.
every_other : List Bytes → List Bytes
every_other [] = []
every_other (f ∷ []) = f ∷ []
every_other (f ∷ g ∷ fs) = f ∷ every_other fs

fields_from : ℕ → List Bytes → List Bytes
unfolding every_other
fields_from i fields = every_other (drop i (take (length fields - 1) fields))

-- `dict(zip(names, values))` over two generators that decode: `zip` asks for the name first.
zip_decoded : List Bytes → List Bytes → Dict Text Text → Result (Dict Text Text)
zip_decoded [] values options = ok options
zip_decoded (n ∷ names) [] options = do name ← decode n; ok options
zip_decoded (n ∷ names) (v ∷ values) options = do
  name ← decode n
  value ← decode v
  zip_decoded names values (insert name value options)

first_field : List Bytes → Result Bytes
first_field [] = raise index_error
first_field (f ∷ fs) = ok f

unfoldable pub parse_rrq : Bytes → Result (Text × Dict Text Text)
unfolding fields_from zip_decoded first_field
parse_rrq payload = do
  let fields = split 0 payload
  first ← first_field fields
  filename ← decode first
  options ← zip_decoded (fields_from 2 fields) (fields_from 3 fields) []
  ok (filename, options)

unfoldable pub error_packet : ℕ → Text → Result Bytes
error_packet code message = do
  opcode ← to_bytes 2 opcode_error
  number ← to_bytes 2 code
  ok (opcode ++ (number ++ (message ++ 0 ∷ [])))

unfoldable pub data_packet : ℕ → Bytes → Result Bytes
data_packet block chunk = do
  opcode ← to_bytes 2 opcode_data
  number ← to_bytes 2 block
  ok (opcode ++ (number ++ chunk))

oack_body : Dict Text Text → Bytes
oack_body [] = []
oack_body ((k, v) ∷ options) = k ++ 0 ∷ (v ++ 0 ∷ oack_body options)

unfoldable pub oack_packet : Dict Text Text → Result Bytes
unfolding oack_body
oack_packet options = do opcode ← to_bytes 2 opcode_oack; ok (opcode ++ oack_body options)

-- `max(8, min(n, MAX_BLOCK_SIZE))`
clamp : ℤ → ℕ
clamp (negsuc n) = 8
clamp (pos n) = if ltb n 8 then 8 else if ltb max_block_size n then max_block_size else n

unfoldable pub negotiate_block_size : Dict Text Text → Result ℕ
unfolding clamp
negotiate_block_size requested = elim (lookup (codes "blksize") requested) [
  | none ↦ ok default_block_size
  | some value ↦ do n ← int value; ok (clamp n)
]

clamp_bounds : (n : ℤ) → (8 ≤ clamp n) × (clamp n ≤ max_block_size)
unfolding clamp
clamp_bounds (negsuc n) = omega arith
clamp_bounds (pos n) = ground arith

-- Whatever the client asks for, the block size is from 8 to 1468 bytes.
pub negotiate_block_size_bounds :
    (requested : Dict Text Text) {n : ℕ}
    → negotiate_block_size requested ≡ ok n
    → (8 ≤ n) × (n ≤ max_block_size)
unfolding negotiate_block_size
negotiate_block_size_bounds requested {n} h =
    elim (Option-cases (lookup (codes "blksize") requested)) [
      | inl absent ↦ ground arith
      | inr (value, given) ↦ from_int (int value) (rw (given, negotiate_block_size) at h)
    ]
  where
    from_int : (r : Result ℤ) → (do n ← r; ok (clamp n)) ≡ ok n → (8 ≤ n) × (n ≤ max_block_size)
    from_int (ok z) e = ground (arith, clamp_bounds z)
    from_int (raise x) e = cc

parse_rrq_runs :
    parse_rrq (codes "a.efi" ++ 0 ∷ codes "octet" ++ 0 ∷ codes "blksize" ++ 0 ∷ codes "9" ++ 0 ∷ [])
    ≡ ok (codes "a.efi", (codes "blksize", codes "9") ∷ [])
unfolding parse_rrq split decode insert
parse_rrq_runs = refl
