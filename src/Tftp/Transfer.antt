-- ===== src/Tftp/Transfer.antt =====
-- One transfer of src/diskless/bootd/tftp.py: `_Transfer`.
pub mod Delivery
pub mod Rounds
use diskless.Base.{
  ℕ, suc, ◌+◌, ◌-◌, ◌*◌, Bool, true, false, not, Option, none, some, [], ◌∷◌, Bytes, codes, decimal,
  Result, ok, raise, key_error, ◌>>=◌, if◌then◌else◌, eqb, ltb, length, slice, nat_eq,
}
use diskless.Base.Dict.{Dict, lookup, insert}
use diskless.Tftp.Packets.{data_packet, oack_packet}

pub record Transfer : Type 0 where
  pub payload : Bytes
  pub block_size : ℕ
  pub pending_block : ℕ
  pub sent_chunks : Dict ℕ Bytes

unfoldable pub init : Bytes → ℕ → Bool → Transfer
init payload block_size use_oack = record {
  payload = payload;
  block_size = block_size;
  pending_block = if use_oack then 0 else 1;
  sent_chunks = [];
}

-- `_chunk`, for blocks from 1 on
unfoldable pub chunk : ℕ → Transfer → Bytes
chunk block t =
    let start = (block - 1) * t.block_size in slice start (start + t.block_size) t.payload

unfoldable pub first_packet : Transfer → Result Bytes × Transfer
first_packet t =
    if eqb t.pending_block 0
    then (oack_packet ((codes "blksize", decimal t.block_size) ∷ []), t)
    else (data_packet 1 (chunk 1 t), record t { sent_chunks = insert 1 (chunk 1 t) t.sent_chunks })

-- The block after an acknowledged one: what is noted before the packet is built.
unfoldable pub advance : ℕ → Transfer → Transfer
advance next_block t = record t {
  pending_block = next_block;
  sent_chunks = insert next_block (chunk next_block t) t.sent_chunks;
}

send_next : ℕ → Transfer → Result (Option Bytes × Bool) × Transfer
unfolding advance
send_next next_block t = (
  do packet ← data_packet next_block (chunk next_block t); ok (some packet, false),
  advance next_block t,
)

-- The packet to send next, if there is one, and whether the transfer is over.
unfoldable pub handle_ack : ℕ → Transfer → Result (Option Bytes × Bool) × Transfer
unfolding send_next
handle_ack block t =
    if not (eqb block t.pending_block)
    then (ok (none, false), t)
    else if eqb block 0
    then send_next (block + 1) t
    else elim (lookup block t.sent_chunks) [
      | none ↦ (raise key_error, t)
      | some sent ↦
          if ltb (length sent) t.block_size then (ok (none, true), t) else send_next (block + 1) t
    ]
