-- ===== src/Tftp/Server/Network/Starting.antt =====
-- A fresh client's transfer, from its start on.
use diskless.Base.{
  ℕ, ◌≡◌, refl, true, false, Option, none, some, List, [], ◌∷◌, Bytes, Text, codes, ok,
  ok_injective, list_eq, nat_eq, pair_eq, eq_refl, from_bytes, to_bytes, big_endian, inl, inr,
  decimal,
}
use diskless.Base.Dict.{Dict, lookup, insert, lookup-insert}
use diskless.Tftp.Packets.{data_packet, oack_packet, negotiate_block_size}
use diskless.Tftp.Transfer.{Transfer, init, chunk, first_packet}
use diskless.Tftp.Server.{
  Address, DelayedCall, Job, TftpProtocol, Event, start_transfer, begin_transfer, step, finish_job,
  resolved,
}
use diskless.Tftp.Server.Isolation.{OfAnother, caller}
use diskless.Tftp.Server.Network.{
  is_data, Legit, data_packet-Legit, IsOneTransfer, IsFresh, run, TransferSound, CallSound, IsSound,
}
use diskless.Tftp.Server.Network.Sound.{arm-IsSound, step-IsSound}

-- The acknowledgement of the options has no data.
pub oack_no_data :
    (n : ℕ) (p : Bytes) → oack_packet ((codes "blksize", decimal n) ∷ []) ≡ ok p → is_data p ≡ false
unfolding oack_packet to_bytes big_endian from_bytes
oack_no_data n p built = rw (← ok_injective _ p built) refl

module _ (addr : Address) (payload : Bytes) (n : ℕ) where
  abbrev Sound : TftpProtocol → Type 0
  Sound s = IsSound addr payload n s

  another_call :
      (call : Option DelayedCall) → OfAnother addr (caller call) → CallSound addr payload n call
  another_call none other = tt
  another_call (some c) other = inl other

  fresh-IsSound :
      (t : Transfer) {s : TftpProtocol}
      → TransferSound addr payload n (some t)
      → IsFresh addr s
      → Sound (record s { transfers = insert addr t s.transfers })
  fresh-IsSound t {s} own_file fresh = record {
    transfer = rw (lookup-insert addr addr t s.transfers, eq_refl addr) own_file;
    calls = λ id. another_call (lookup id s.clock) (fresh.calls id);
    sent = rw fresh.sent tt;
  }

  first_data :
      (t : Transfer) (p : Bytes)
      → TransferSound addr payload n (some t)
      → data_packet 1 (chunk 1 t) ≡ ok p
      → Legit payload n p
  unfolding chunk
  first_data t p (file, size) built = data_packet-Legit payload n 1 p (rw (file, size) at built)

  begin-IsSound :
      (options : Dict Text Text) {s : TftpProtocol}
      → IsFresh addr s
      → Sound (begin_transfer (ok n) payload addr options s).1
  unfolding begin_transfer first_packet init
  begin-IsSound [] fresh =
      arm-IsSound addr payload n addr _
        (inr (λ p. first_data (init payload n false) p (refl, refl)))
        (fresh-IsSound (first_packet (init payload n false)).1 (refl, refl) fresh)
  begin-IsSound (o ∷ options) fresh =
      arm-IsSound addr payload n addr _ (inr (λ p built. inl (oack_no_data n p built)))
        (fresh-IsSound (init payload n true) (refl, refl) fresh)

  -- The start of a fresh client's transfer.
  pub start-IsSound :
      (j : Job) (js : List Job) {s : TftpProtocol}
      → j.addr ≡ addr
      → s.jobs ≡ j ∷ js
      → negotiate_block_size j.options ≡ ok n
      → IsFresh addr s
      → IsSound addr payload n (step (resolved (ok payload)) s)
  unfolding step finish_job start_transfer
  start-IsSound j js {s} client queue size fresh =
      rw (queue, finish_job, size, client)
        (begin-IsSound j.options (record { calls = fresh.calls; sent = fresh.sent }))

  pub run-IsSound :
      (events : List Event) {s : TftpProtocol}
      → IsOneTransfer addr events s
      → IsSound addr payload n s
      → IsSound addr payload n (run events s)
  run-IsSound [] one h = h
  run-IsSound (e ∷ events) one h = run-IsSound events one.1 (step-IsSound addr payload n e one.0 h)
