-- ===== src/Tftp/Transfer/Delivery.antt =====
-- A client that acknowledges every packet gets the whole file, and no more; where blocks have no
-- number left, the transfer is stuck.
use Prim.Native.Nat.{min}
use native.Mathlib.Nat.{add-zero}
use diskless.Base.{
  ℕ, zero, suc, ◌+◌, ◌-◌, ◌*◌, ◌/◌, ◌%◌, ◌≤◌, ◌<◌, ◌≡◌, ◌≢◌, ◌⊎◌, refl, sym, ap, subst, ◌∙◌, Bool,
  true, false, none, some, [], ◌∷◌, ◌++◌, arith, Bytes, Result, ok, raise, out_of_fuel,
  runtime_error, overflow_error, ◌>>=◌, if◌then◌else◌, eqb, ltb, lt→ltb, ltb→lt, eqb→eq, length,
  drop, take, from_bytes, to_bytes, big_endian, nat_eq, length-take, length-drop, take-append-drop,
  drop-drop, drop_of_length-le, inl, inr, Bool-cases,
}
use diskless.Base.Dict.{lookup, lookup-insert}
use diskless.Tftp.Packets.{opcode_data, data_packet, oack_packet}
use diskless.Tftp.Transfer.{Transfer, init, chunk, advance, first_packet, handle_ack}

-- A transfer that has sent the block which it waits for.
pub record IsStarted (t : Transfer) : Type 0 where
  pub positive : 0 < t.block_size
  pub sent :
      t.pending_block ≢ 0 → lookup t.pending_block t.sent_chunks ≡ some (chunk t.pending_block t)

-- What a client has written to its file when the server says that the transfer is over: it
-- acknowledges each packet, and appends what stands behind the four bytes of the header.
unfoldable pub fetch : ℕ → Transfer → Result Bytes
fetch zero t = raise out_of_fuel
fetch (suc f) t =
    let (r, t') = handle_ack t.pending_block t in
    elim r [
      | raise x ↦ raise x
      | ok (none, done) ↦ if done then ok [] else raise runtime_error
      | ok (some packet, done) ↦ do rest ← fetch f t'; ok (drop 4 packet ++ rest)
    ]

abbrev pub offset : Transfer → ℕ
offset t = t.pending_block * t.block_size

pub step_back : (b n : ℕ) → b ≢ 0 → (b - 1) * n + n ≡ b * n
step_back zero n h = absurd (h refl)
step_back (suc b) n h = let e : suc b - 1 ≡ b = omega arith in rw e (grind arith)

length-chunk :
    (t : Transfer)
    → length (chunk t.pending_block t)
      ≡ min t.block_size (length t.payload - (t.pending_block - 1) * t.block_size)
unfolding chunk
length-chunk t =
    let start = (t.pending_block - 1) * t.block_size in
    omega (
      arith,
      length-take (start + t.block_size - start) (drop start t.payload),
      length-drop start t.payload,
    )

-- A short block was the last of the file.
pub short_ends :
    (t : Transfer)
    → t.pending_block ≢ 0
    → length (chunk t.pending_block t) < t.block_size
    → length t.payload ≤ offset t
short_ends t nz short = omega (arith, length-chunk t, step_back t.pending_block t.block_size nz)

pub full_continues :
    (t : Transfer)
    → t.pending_block ≢ 0
    → 0 < t.block_size
    → ltb (length (chunk t.pending_block t)) t.block_size ≡ false
    → offset t ≤ length t.payload
full_continues t nz pos full =
    let long : t.block_size ≤ length (chunk t.pending_block t) = ground arith in
    omega (arith, length-chunk t, step_back t.pending_block t.block_size nz)

-- What a data packet has behind its header; no other packet has data.
unfoldable pub body : Bytes → Bytes
body packet = if eqb (from_bytes (take 2 packet)) opcode_data then drop 4 packet else []

pub data_packet_lem :
    (n : ℕ) (c : Bytes)
    → n < 65536
    → (p : Bytes) × (data_packet n c ≡ ok p) × (drop 4 p ≡ c) × (body p ≡ c)
unfolding data_packet to_bytes big_endian body from_bytes
data_packet_lem n c h =
    (0 ∷ 3 ∷ n / 256 % 256 ∷ n % 256 ∷ c, rw (lt→ltb n 65536 h) refl, refl, refl)

pub advance-IsStarted : (n : ℕ) (t : Transfer) → 0 < t.block_size → IsStarted (advance n t)
unfolding advance chunk
advance-IsStarted n t pos = record { positive = pos; sent = λ _. rw lookup-insert (ground arith) }

-- The chunk after `b` blocks, and what the file has behind it.
pub chunk-next :
    (b : ℕ) (t : Transfer)
    → chunk (b + 1) t ++ drop ((b + 1) * t.block_size) t.payload ≡ drop (b * t.block_size) t.payload
unfolding chunk
chunk-next b t =
    let size = t.block_size in
    let e : b + 1 - 1 ≡ b = omega arith in
    let width : b * size + size - b * size ≡ size = omega arith in
    let end : (b + 1) * size ≡ b * size + size = omega arith in
    rw (e, width, end, ← drop-drop size (b * size) t.payload)
      (take-append-drop size (drop (b * size) t.payload))

-- What is still missing after the pending block.
abbrev pub missing : Transfer → Bytes
missing t = drop (offset t) t.payload

-- With fewer than 65535 full blocks the transfer ends, and the client has what was missing.
module _ (f : ℕ) (t : Transfer) where
  fetch_end :
      lookup t.pending_block t.sent_chunks ≡ some (chunk t.pending_block t)
      → t.pending_block ≢ 0
      → ltb (length (chunk t.pending_block t)) t.block_size ≡ true
      → fetch (suc f) t ≡ ok []
  unfolding fetch handle_ack
  fetch_end sent nz short = ground (arith, sent)

  -- A round that sends the next block.
  fetch_round :
      (p rest : Bytes)
      → ((t.pending_block ≡ 0)
          ⊎ ((lookup t.pending_block t.sent_chunks ≡ some (chunk t.pending_block t))
              × (ltb (length (chunk t.pending_block t)) t.block_size ≡ false)))
      → data_packet (t.pending_block + 1) (chunk (t.pending_block + 1) t) ≡ ok p
      → fetch f (advance (t.pending_block + 1) t) ≡ ok rest
      → fetch (suc f) t ≡ ok (drop 4 p ++ rest)
  unfolding fetch handle_ack
  fetch_round p rest goes_on built then_rest = ground (arith, built, then_rest)

no_block : (b n : ℕ) {l : ℕ} → b ≡ 0 → l < b * n → ⊥
no_block b n e h = grind arith

pub below_blocks : (b m n : ℕ) → b * n < m * n → b < m
below_blocks b m n h = grind arith

-- The file is over at the pending block, or goes on behind it.
module _ (t : Transfer) (s : IsStarted t) (few : length t.payload < 65535 * t.block_size) where
  fetch_over :
      (f : ℕ)
      → t.pending_block ≢ 0
      → ltb (length (chunk t.pending_block t)) t.block_size ≡ true
      → fetch (suc f) t ≡ ok (missing t)
  fetch_over f nz short =
      fetch_end f t (s.sent nz) nz short
      ∙ ap ok (sym (drop_of_length-le (offset t) t.payload (short_ends t nz (ltb→lt _ _ short))))

  fetch_on :
      (f : ℕ)
      → ((t.pending_block ≡ 0)
          ⊎ ((lookup t.pending_block t.sent_chunks ≡ some (chunk t.pending_block t))
              × (ltb (length (chunk t.pending_block t)) t.block_size ≡ false)))
      → t.pending_block < 65535
      → fetch f (advance (t.pending_block + 1) t)
        ≡ ok (drop ((t.pending_block + 1) * t.block_size) t.payload)
      → fetch (suc f) t ≡ ok (missing t)
  fetch_on f goes_on low then_rest =
      let b = t.pending_block in
      let (p, built, tail, _) = data_packet_lem (b + 1) (chunk (b + 1) t) (omega arith) in
      fetch_round f t p (drop ((b + 1) * t.block_size) t.payload) goes_on built then_rest
      ∙ ap (λ c. ok (c ++ drop ((b + 1) * t.block_size) t.payload)) tail
      ∙ ap ok (chunk-next b t)

-- With enough rounds, the client has all that was missing behind the pending block.
pub fetch-missing :
    (f : ℕ) (t : Transfer)
    → IsStarted t
    → length t.payload < 65535 * t.block_size
    → length t.payload < (t.pending_block + f) * t.block_size
    → fetch (suc f) t ≡ ok (missing t)
unfolding advance
fetch-missing zero t s few enough =
    let here : length t.payload < t.pending_block * t.block_size = rw add-zero at enough in
    let nz : t.pending_block ≢ 0 = λ e. absurd (no_block t.pending_block t.block_size e here) in
    elim (Bool-cases (ltb (length (chunk t.pending_block t)) t.block_size)) [
      | inl short ↦ fetch_over t s few zero nz short
      | inr full ↦ let more = full_continues t nz s.positive full in absurd (omega arith)
    ]
fetch-missing (suc f) t s few enough =
    let b = t.pending_block in
    let e : b + suc f ≡ b + 1 + f = omega arith in
    let next =
      fetch-missing f (advance (b + 1) t) (advance-IsStarted (b + 1) t s.positive) few
        (rw e at enough) in
    elim (Bool-cases (eqb b 0)) [
      | inl first ↦ fetch_on t s few (suc f) (inl (eqb→eq b 0 first)) (ground arith) next
      | inr later ↦
          let nz : b ≢ 0 = ground arith in
          elim (Bool-cases (ltb (length (chunk b t)) t.block_size)) [
            | inl short ↦ fetch_over t s few (suc f) nz short
            | inr full ↦
                let more = full_continues t nz s.positive full in
                fetch_on t s few (suc f) (inr (s.sent nz, full))
                  (below_blocks b 65535 t.block_size (omega arith)) next
          ]
    ]

pub init-IsStarted :
    (payload : Bytes) (n : ℕ) (use_oack : Bool)
    → 0 < n
    → IsStarted (first_packet (init payload n use_oack)).1
unfolding init first_packet chunk
init-IsStarted payload n true h = record { positive = h; sent = λ nz. absurd (nz refl) }
init-IsStarted payload n false h = record {
  positive = h;
  sent = λ _. rw lookup-insert (ground arith);
}

-- A whole transfer, from the packet that answers the request.
unfoldable pub download : Bytes → ℕ → Bool → Result Bytes
download payload block_size use_oack =
    let (first, t) = first_packet (init payload block_size use_oack) in
    do
      packet ← first
      rest ← fetch (suc (suc (length payload))) t
      ok ((if use_oack then [] else drop 4 packet) ++ rest)

rounds_enough : (b l n : ℕ) → 0 < n → l < (b + suc l) * n
rounds_enough b l zero h = elim h [ ]
rounds_enough b l (suc n) h = grind arith

fetched :
    (payload : Bytes) (n : ℕ) (use_oack : Bool)
    → 0 < n
    → length payload < 65535 * n
    → fetch (suc (suc (length payload))) (first_packet (init payload n use_oack)).1
      ≡ ok (drop ((if use_oack then 0 else 1) * n) payload)
unfolding init first_packet
fetched payload n true h few =
    fetch-missing (suc (length payload)) _ (init-IsStarted payload n true h) few
      (rounds_enough 0 (length payload) n h)
fetched payload n false h few =
    fetch-missing (suc (length payload)) _ (init-IsStarted payload n false h) few
      (rounds_enough 1 (length payload) n h)

pub whole : (payload : Bytes) (n : ℕ) → drop (0 * n) payload ≡ payload
whole payload n = let e : 0 * n ≡ 0 = omega arith in rw e

-- For a block size that is not zero and a file of fewer than 65535 full blocks, a client that
-- acknowledges every packet ends with exactly the file, whether the options were acknowledged or
-- not.
pub download_lem :
    (payload : Bytes) (n : ℕ) (use_oack : Bool)
    → 0 < n
    → length payload < 65535 * n
    → download payload n use_oack ≡ ok payload
unfolding download init first_packet oack_packet to_bytes
download_lem payload n true h few = rw (fetched payload n true h few) (ap ok (whole payload n))
download_lem payload n false h few =
    let t = init payload n false in
    let (p, built, tail, _) = data_packet_lem 1 (chunk 1 t) (omega arith) in
    rw (built, fetched payload n false h few, tail) (ap ok (chunk-next 0 t ∙ whole payload n))

handle_ack_last :
    (t : Transfer)
    → IsStarted t
    → t.pending_block ≡ 65535
    → 65535 * t.block_size ≤ length t.payload
    → handle_ack 65535 t ≡ (raise overflow_error, advance 65536 t)
unfolding handle_ack data_packet to_bytes
handle_ack_last t s at long =
    let sent : lookup 65535 t.sent_chunks ≡ some (chunk 65535 t) =
      subst (λ b. lookup b t.sent_chunks ≡ some (chunk b t)) at (s.sent (omega arith)) in
    let size : length (chunk 65535 t)
        ≡ min t.block_size (length t.payload - (65535 - 1) * t.block_size) =
      subst (λ b. length (chunk b t) ≡ min t.block_size (length t.payload - (b - 1) * t.block_size))
        at (length-chunk t) in
    let full : t.block_size ≤ length (chunk 65535 t) = omega arith in ground (arith, sent)

handle_ack_late :
    (block : ℕ) (t : Transfer)
    → block < 65536
    → handle_ack block (advance 65536 t) ≡ (ok (none, false), advance 65536 t)
unfolding handle_ack advance
handle_ack_late block t h = ground arith

-- A started transfer that waits for block 65535 of a file with at least so many full blocks raises
-- at its acknowledgement, and then answers no acknowledgement of a block number that fits in two
-- bytes.
pub handle_ack_stuck :
    (t : Transfer) (block : ℕ)
    → IsStarted t
    → t.pending_block ≡ 65535
    → 65535 * t.block_size ≤ length t.payload
    → block < 65536
    → ((handle_ack 65535 t).0 ≡ raise overflow_error)
      × (handle_ack block (handle_ack 65535 t).1 ≡ (ok (none, false), (handle_ack 65535 t).1))
handle_ack_stuck t block s at long h =
    rw (handle_ack_last t s at long) (refl, handle_ack_late block t h)
