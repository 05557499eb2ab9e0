-- ===== src/Tftp/Server/Network.antt =====
-- What the server writes to a client whose datagrams come in any order, or not at all: every data
-- packet has the block of the file that its number says.
pub mod Sending
pub mod Sound
pub mod Starting
pub mod Receiver
pub mod Patience
pub mod Waiting
pub mod Rounds
pub mod Lossy
use diskless.Base.{
  ℕ, ◌+◌, ◌-◌, ◌*◌, ◌<◌, ◌≡◌, ◌⊎◌, sym, ap, Bool, false, Option, none, some, List, [], ◌∷◌, arith,
  Bytes, ok, ok_injective, ◌/◌, ◌%◌, ◌==◌, list_eq, nat_eq, pair_eq, eqb, ltb, ltb→lt, take, drop,
  slice, from_bytes, to_bytes, big_endian, from_bytes-big_endian, All, inl, inr, Bool-cases,
  if◌then◌else◌,
}
use diskless.Base.Dict.{lookup}
use diskless.Tftp.Packets.{opcode_data, data_packet}
use diskless.Tftp.Transfer.{Transfer}
use diskless.Tftp.Server.{Address, DelayedCall, TftpProtocol, Event, step, datagram, resolved, due}
use diskless.Tftp.Server.Isolation.{OfAnother, oldest, caller}

-- The packets to a client, in the order that they were written.
abbrev pub packets : Address → List (Bytes × Address) → List Bytes
packets addr [] = []
packets addr ((packet, a) ∷ written) =
    let rest = packets addr written in if addr == a then packet ∷ rest else rest

-- What a packet says: whether it has data, and the number of its block.
abbrev pub is_data : Bytes → Bool
is_data packet = eqb (from_bytes (take 2 packet)) opcode_data

abbrev pub number : Bytes → ℕ
number packet = from_bytes (slice 2 4 packet)

-- The block with a number, of a file in blocks of `n`.
abbrev pub block_of : Bytes → ℕ → ℕ → Bytes
block_of payload n b = slice ((b - 1) * n) ((b - 1) * n + n) payload

abbrev pub Legit : Bytes → ℕ → Bytes → Type 0
Legit payload n packet =
    (is_data packet ≡ false) ⊎ (drop 4 packet ≡ block_of payload n (number packet))

abbrev pub numbered : ℕ → Bytes → Bytes
numbered b c = 0 ∷ 3 ∷ b / 256 % 256 ∷ b % 256 ∷ c

pub data_packet_numbered :
    (b : ℕ) (c p : Bytes) → data_packet b c ≡ ok p → (b < 65536) × (numbered b c ≡ p)
unfolding data_packet to_bytes big_endian
data_packet_numbered b c p built = elim (Bool-cases (ltb b 65536)) [
  | inl small ↦ (ltb→lt b 65536 small, ok_injective _ p (rw small at built))
  | inr large ↦ absurd (ground (arith, large, built))
]

pub data_packet-Legit :
    (payload : Bytes) (n b : ℕ) (p : Bytes)
    → data_packet b (block_of payload n b) ≡ ok p
    → Legit payload n p
unfolding big_endian
data_packet-Legit payload n b p built =
    let (small, e) = data_packet_numbered b (block_of payload n b) p built in
    inr (rw (← e) (ap (block_of payload n) (sym (from_bytes-big_endian 2 b small))))

-- One client's download of a file in blocks of `n`.
module _ (addr : Address) (payload : Bytes) (n : ℕ) where
  abbrev pub TransferSound : Option Transfer → Type 0
  TransferSound none = Unit
  TransferSound (some t) = (t.payload ≡ payload) × (t.block_size ≡ n)

  -- What may be sent to an address.
  abbrev pub PacketSound : Address → Bytes → Type 0
  PacketSound a packet = ((addr == a) ≡ false) ⊎ Legit payload n packet

  abbrev pub CallSound : Option DelayedCall → Type 0
  CallSound none = Unit
  CallSound (some c) = PacketSound c.addr c.packet

  pub record IsSound (s : TftpProtocol) : Type 0 where
    pub transfer : TransferSound (lookup addr s.transfers)
    pub calls : (id : ℕ) → CallSound (lookup id s.clock)
    pub sent : All (Legit payload n) (packets addr s.written)

-- An event does not begin another transfer for the client.
abbrev pub IsNoRestart : Address → Event → TftpProtocol → Type 0
IsNoRestart addr (datagram bytes a) s = Unit
IsNoRestart addr (resolved r) s = OfAnother addr (oldest s.jobs)
IsNoRestart addr (due id) s = Unit

-- The state after events.
abbrev pub run : List Event → TftpProtocol → TftpProtocol
run [] s = s
run (e ∷ events) s = run events (step e s)

-- No event begins another transfer for the client; its datagrams and its timeouts may be among them.
abbrev pub IsOneTransfer : Address → List Event → TftpProtocol → Type 0
IsOneTransfer addr [] s = Unit
IsOneTransfer addr (e ∷ events) s = IsNoRestart addr e s × IsOneTransfer addr events (step e s)

-- Nothing was ever written to the client, nor is scheduled for it.
pub record IsFresh (addr : Address) (s : TftpProtocol) : Type 0 where
  pub calls : (id : ℕ) → OfAnother addr (caller (lookup id s.clock))
  pub sent : packets addr s.written ≡ []
