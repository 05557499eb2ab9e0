-- ===== src/Tftp/Server/Network/Patience.antt =====
-- A client on whose download packets and acknowledgements are lost, fewer in succession than the server
-- sends a packet.
use diskless.Base.{
  ℕ, zero, suc, ◌+◌, ◌-◌, ◌*◌, ◌<◌, codes, decimal, to_bytes, ◌≡◌, ◌≢◌, ◌⊎◌, refl, ap, ◌∙◌, true,
  false, none, some, List, [], ◌∷◌, ◌++◌, arith, Bytes, ok, All, from_bytes, big_endian,
  from_bytes-big_endian, list_eq, nat_eq, pair_eq, eqb, eqb→eq, ltb, drop, length, inl, inr,
  Bool-cases,
}
use diskless.Base.Dict.{lookup}
use diskless.Tftp.Packets.{data_packet, oack_packet}
use diskless.Tftp.Transfer
use diskless.Tftp.Transfer.{Transfer, init, chunk, advance, first_packet}
use diskless.Tftp.Transfer.Delivery.{IsStarted, full_continues, data_packet_lem, below_blocks}
use diskless.Tftp.Server.{Address, TftpProtocol, step, datagram, due}
use diskless.Tftp.Server.Trace.{ack_packet}
use diskless.Tftp.Server.Network.{packets, is_data, number, data_packet_numbered}
use diskless.Tftp.Server.Network.Receiver.{Receiver, takes, taken, take_packet}

-- The packet that is scheduled for the client is sent once more, a number of times: it, or what the
-- client answered to it, was lost.
unfoldable pub lose : Address → ℕ → TftpProtocol → TftpProtocol
lose addr zero s = s
lose addr (suc k) s = elim (lookup addr s.retransmit_calls) [
  | none ↦ s
  | some id ↦ lose addr k (step (due id) s)
]

-- The packet that was written last.
abbrev pub last : List Bytes → Bytes
last [] = []
last (p ∷ []) = p
last (p ∷ q ∷ ps) = last (q ∷ ps)

-- A client until the server has ended its transfer: in each round it hears the last of the copies of a
-- packet, and acknowledges the block before the one that it then waits for. `losses` is how many copies
-- are sent in vain, by the number of rounds that are left.
unfoldable pub patient :
    Address → ℕ → (ℕ → ℕ) → ℕ → TftpProtocol → Receiver → TftpProtocol × Receiver
unfolding lose
patient addr n losses zero s r = (s, r)
patient addr n losses (suc f) s r = elim (lookup addr s.transfers) [
  | none ↦ (s, r)
  | some t ↦
      let s' = lose addr (losses f) s in
      let r' = take_packet n (last (packets addr s'.written)) r in
      patient addr n losses f (step (datagram (ack_packet (r'.expected - 1)) addr) s') r'
]

-- The next round of a transfer: over behind a short block, or on to the next one.
abbrev pub Next : Transfer → Type 0
Next t =
    ((Transfer.handle_ack t.pending_block t ≡ (ok (none, true), t))
      × (t.pending_block ≢ 0)
      × (ltb (length (chunk t.pending_block t)) t.block_size ≡ true))
    ⊎ ((p : Bytes) × (t.pending_block < 65535)
        × (Transfer.handle_ack t.pending_block t
            ≡ (ok (some p, false), advance (t.pending_block + 1) t))
        × (data_packet (t.pending_block + 1) (chunk (t.pending_block + 1) t) ≡ ok p)
        × ((t.pending_block ≡ 0) ⊎ (ltb (length (chunk t.pending_block t)) t.block_size ≡ false)))

module _ (t : Transfer) (s : IsStarted t) (few : length t.payload < 65535 * t.block_size) where
  Next-on :
      ((t.pending_block ≡ 0)
        ⊎ ((lookup t.pending_block t.sent_chunks ≡ some (chunk t.pending_block t))
            × (ltb (length (chunk t.pending_block t)) t.block_size ≡ false)))
      → (t.pending_block ≡ 0) ⊎ (ltb (length (chunk t.pending_block t)) t.block_size ≡ false)
      → t.pending_block < 65535
      → Next t
  unfolding Transfer.handle_ack advance
  Next-on goes_on why low =
      let b = t.pending_block in
      let (p, built, _, tail) = data_packet_lem (b + 1) (chunk (b + 1) t) (omega arith) in
      inr (p, low, ground (arith, built), built, why)

  pub next : Next t
  unfolding Transfer.handle_ack
  next =
      let b = t.pending_block in
      elim (Bool-cases (eqb b 0)) [
        | inl first ↦ Next-on (inl (eqb→eq b 0 first)) (inl (eqb→eq b 0 first)) (ground arith)
        | inr later ↦
            let nz : b ≢ 0 = ground arith in
            elim (Bool-cases (ltb (length (chunk b t)) t.block_size)) [
              | inl short ↦ inl (ground (arith, s.sent nz), nz, short)
              | inr full ↦
                  let more = full_continues t nz s.positive full in
                  Next-on (inr (s.sent nz, full)) (inr full)
                    (below_blocks b 65535 t.block_size (omega arith))
            ]
      ]

pub last-append : (ps : List Bytes) (p : Bytes) → last (ps ++ p ∷ []) ≡ p
last-append [] p = refl
last-append (q ∷ []) p = refl
last-append (q ∷ q' ∷ ps) p = last-append (q' ∷ ps) p

pub All-last {κ} : (P : Bytes → Type κ) (ps : List Bytes) → P [] → All P ps → P (last ps)
All-last P [] nothing all = nothing
All-last P (p ∷ []) nothing all = all.0
All-last P (p ∷ q ∷ ps) nothing all = All-last P (q ∷ ps) nothing all.1

-- What a client has that has heard of the blocks up to the pending one.
abbrev pub HeardUp : Transfer → Receiver → Type 0
HeardUp t r =
    (r.expected ≡ t.pending_block + 1)
    × (((t.pending_block ≡ 0) × (r.finished ≡ false))
        ⊎ ((t.pending_block ≢ 0)
            × (r.finished ≡ ltb (length (chunk t.pending_block t)) t.block_size)))

pub data_number :
    (b : ℕ) (c p : Bytes)
    → data_packet b c ≡ ok p
    → (is_data p ≡ true) × (number p ≡ b) × (drop 4 p ≡ c)
unfolding big_endian from_bytes
data_number b c p built =
    let (small, e) = data_packet_numbered b c p built in
    rw (← e) (refl, from_bytes-big_endian 2 b small, refl)

-- A packet without data is not taken.
pub unheard : (n : ℕ) (p : Bytes) (r : Receiver) → is_data p ≡ false → take_packet n p r ≡ r
unfolding take_packet
unheard n p r no_data =
    let skip : takes p r ≡ false = ground (arith, no_data) in rw (skip, take_packet) refl

pub oack_built : (n : ℕ) → (p : Bytes) × (oack_packet ((codes "blksize", decimal n) ∷ []) ≡ ok p)
unfolding oack_packet to_bytes big_endian
oack_built n = (_, refl)

-- The next packet is taken.
pub heard_next :
    (n b : ℕ) (c p : Bytes) (r : Receiver)
    → data_packet b c ≡ ok p
    → r.expected ≡ b
    → r.finished ≡ false
    → ((take_packet n p r).expected ≡ b + 1) × ((take_packet n p r).finished ≡ ltb (length c) n)
unfolding take_packet
heard_next n b c p r built expects going =
    let (holds, own, tail) = data_number b c p built in
    let wanted : takes p r ≡ true = ground (arith, holds, own, expects, going) in
    let e : take_packet n p r ≡ taken n p r = rw (wanted, take_packet) refl in
    (
      ap (λ (q : Receiver). q.expected) e ∙ ap (λ m. m + 1) expects,
      ap (λ (q : Receiver). q.finished) e ∙ ap (λ d. ltb (length d) n) tail,
    )
