-- ===== src/Dhcp/Request/Options.antt =====
-- The option loop: it ends, and it reads back what an encoder of options wrote.
use mathlib.Core.List.{append_assoc}
use diskless.Base.{
  ℕ, zero, suc, ◌+◌, ◌-◌, ◌≤◌, ◌≡◌, ◌≢◌, refl, ap, sym, ◌∙◌, List, [], ◌∷◌, ◌++◌, some, arith,
  Bytes, ok, raise, out_of_fuel, length, get_elem?, take, drop, slice, nat_eq, inl, inr,
  Option-cases, get_elem?-drop, drop-drop, take-append, drop-append, get_elem?-eq-none, All,
}
use diskless.Base.Dict.{Dict, insert}
use diskless.Dhcp.Codes.{opt_end, options_start}
use diskless.Dhcp.Request.{options_loop, parse_raw_options}

-- Where the index is out of the packet the loop ends; each round moves it forward.
options_loop-ne-out_of_fuel :
    (f : ℕ) (packet : Bytes) (i : ℕ) (options : Dict ℕ Bytes)
    → length packet ≤ f + i
    → options_loop (suc f) packet i options ≢ raise out_of_fuel
unfolding options_loop
options_loop-ne-out_of_fuel zero packet i options h =
    rw (get_elem?-eq-none packet i (omega arith), options_loop) (λ e. cc)
options_loop-ne-out_of_fuel (suc f) packet i options h =
    let pad = options_loop-ne-out_of_fuel f packet (i + 1) options (omega arith) in
    elim (Option-cases (get_elem? packet (i + 1))) [
      | inl end ↦ ground arith
      | inr (n, found) ↦
          let tag = λ (opt : ℕ).
            options_loop-ne-out_of_fuel f packet (i + 2 + n)
              (insert opt (slice (i + 2) (i + 2 + n) packet) options) (omega arith) in
          elim (Option-cases (get_elem? packet i)) [
            | inl end ↦ ground arith
            | inr (opt, here) ↦ ground (arith, tag opt)
          ]
    ]

-- Parsing a packet always ends: the rounds that the model allows are enough for every packet.
pub parse_raw_options_total : (packet : Bytes) → parse_raw_options packet ≢ raise out_of_fuel
unfolding parse_raw_options
parse_raw_options_total packet =
    options_loop-ne-out_of_fuel (length packet) packet options_start [] (omega arith)

-- The loop on what is left of the packet.
abbrev pub Field : Type 0
Field = ℕ × Bytes

-- An option as a sender writes it: its code, the length of the value, the value.
abbrev pub encode : List Field → Bytes
encode [] = []
encode (o ∷ os) = o.0 ∷ length o.1 ∷ o.1 ++ encode os

-- The dict that the loop builds from options in this order.
abbrev pub collect : List Field → Dict ℕ Bytes → Dict ℕ Bytes
collect [] options = options
collect (o ∷ os) options = collect os (insert o.0 o.1 options)

abbrev pub IsField : Field → Type 0
IsField o = (o.0 ≢ 0) × (o.0 ≢ opt_end)

-- Where the loop stands before the options that are left, it reads the first of them.
module _ (o : Field) (left packet : Bytes) (i : ℕ)
    (at : drop i packet ≡ o.0 ∷ length o.1 ∷ o.1 ++ left) where
  code_at : get_elem? packet i ≡ some o.0
  code_at =
      ap (get_elem? packet) (omega arith)
      ∙ sym (get_elem?-drop i packet 0)
      ∙ ap (λ (l : Bytes). get_elem? l 0) at

  length_at : get_elem? packet (i + 1) ≡ some (length o.1)
  length_at = sym (get_elem?-drop i packet 1) ∙ ap (λ (l : Bytes). get_elem? l 1) at

  after_tag : drop (i + 2) packet ≡ o.1 ++ left
  after_tag = sym (drop-drop 2 i packet) ∙ ap (drop 2) at

  value_at : slice (i + 2) (i + 2 + length o.1) packet ≡ o.1
  value_at =
      ap (take (i + 2 + length o.1 - (i + 2))) after_tag ∙ take-append o.1 left _ (omega arith)

  left_at : drop (i + 2 + length o.1) packet ≡ left
  left_at =
      sym (drop-drop (length o.1) (i + 2) packet)
      ∙ ap (drop (length o.1)) after_tag
      ∙ drop-append o.1 left _ refl

options_loop-encode :
    (os : List Field) (f : ℕ) (rest packet : Bytes) (i : ℕ) (options : Dict ℕ Bytes)
    → All IsField os
    → length os ≤ f
    → drop i packet ≡ encode os ++ opt_end ∷ rest
    → options_loop (suc f) packet i options ≡ ok (collect os options)
unfolding options_loop
options_loop-encode [] f rest packet i options fields enough at =
    let here : get_elem? packet i ≡ some opt_end =
      ap (get_elem? packet) (omega arith)
      ∙ sym (get_elem?-drop i packet 0)
      ∙ ap (λ (l : Bytes). get_elem? l 0) at in
    ground (arith, here)
options_loop-encode (o ∷ os) zero rest packet i options fields enough at = absurd (omega arith)
options_loop-encode (o ∷ os) (suc f) rest packet i options fields enough at =
    let left = encode os ++ opt_end ∷ rest in
    let at' : drop i packet ≡ o.0 ∷ length o.1 ∷ o.1 ++ left =
      at ∙ ap (λ l. o.0 ∷ length o.1 ∷ l) (append_assoc o.1 (encode os) (opt_end ∷ rest)) in
    let next =
      options_loop-encode os f rest packet (i + 2 + length o.1) (insert o.0 o.1 options) fields.1
        (omega arith) (left_at o left packet i at') in
    ground (
      arith,
      code_at o left packet i at',
      length_at o left packet i at',
      value_at o left packet i at',
      next,
    )

-- Well-formed options that a packet has after the fixed fields and before the end mark are read
-- back one by one; an option that comes twice has its last value.
pub parse_raw_options-encode :
    (os : List Field) (rest packet : Bytes)
    → All IsField os
    → length os ≤ length packet
    → drop options_start packet ≡ encode os ++ opt_end ∷ rest
    → parse_raw_options packet ≡ ok (collect os [])
unfolding parse_raw_options
parse_raw_options-encode os rest packet fields enough at =
    options_loop-encode os (length packet) rest packet options_start [] fields enough at
