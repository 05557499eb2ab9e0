-- ===== src/Tftp/Server/Retransmit.antt =====
-- Retransmission: what a timeout does, and what disarms it that should not.
use diskless.Base.{
  ℕ, ◌+◌, ◌≤◌, ◌<◌, ◌≡◌, ◌≢◌, refl, false, none, some, [], ◌∷◌, ◌++◌, arith, Bytes, ok, list_eq,
  nat_eq, pair_eq, eq_refl, from_bytes,
}
use diskless.Base.Dict.{lookup, insert, erase, lookup-insert, lookup-erase}
use diskless.Tftp.Packets.{max_retransmits, opcode_error}
use diskless.Tftp.Transfer
use diskless.Tftp.Transfer.{Transfer, first_packet}
use diskless.Tftp.Server.{
  Address, DelayedCall, TftpProtocol, write, send_and_arm_retransmit, cancel_retransmit,
  on_retransmit_timeout, after_ack, handle_ack, datagram_received, step, run_call, due,
}

-- A delayed call that is due sends its packet once more and schedules the next attempt, while the
-- limit allows it.
pub step-due :
    (id : ℕ) (c : DelayedCall) (s : TftpProtocol)
    → lookup id s.clock ≡ some c
    → c.attempt + 1 < max_retransmits
    → ((step (due id) s).written ≡ s.written ++ (c.packet, c.addr) ∷ [])
      × (lookup s.next_call (step (due id) s).clock ≡ some (record c { attempt = c.attempt + 1 }))
      × (lookup c.addr (step (due id) s).retransmit_calls ≡ some s.next_call)
unfolding step run_call on_retransmit_timeout send_and_arm_retransmit write
step-due id c s h low = rw h (
    ground (
      arith,
      lookup-insert s.next_call s.next_call (record c { attempt = c.attempt + 1 })
          (erase id s.clock),
      lookup-insert c.addr c.addr s.next_call (erase c.addr s.retransmit_calls),
    ))

-- After the last attempt a delayed call that is due sends nothing, schedules nothing, and the
-- transfer of its client is given up.
pub step_gives_up :
    (id : ℕ) (c : DelayedCall) (s : TftpProtocol)
    → lookup id s.clock ≡ some c
    → max_retransmits ≤ c.attempt + 1
    → ((step (due id) s).written ≡ s.written)
      × ((step (due id) s).clock ≡ erase id s.clock)
      × (lookup c.addr (step (due id) s).transfers ≡ none)
unfolding step run_call on_retransmit_timeout send_and_arm_retransmit write
step_gives_up id c s h high = rw h (ground (arith, lookup-erase c.addr c.addr s.transfers))

ignored :
    (block : ℕ) (t : Transfer)
    → block ≢ t.pending_block
    → Transfer.handle_ack block t ≡ (ok (none, false), t)
unfolding Transfer.handle_ack
ignored block t other = ground arith

handle_ack_stale :
    (block id : ℕ) (addr : Address) (t : Transfer) (s : TftpProtocol)
    → lookup addr s.transfers ≡ some t
    → lookup addr s.retransmit_calls ≡ some id
    → block ≢ t.pending_block
    → (handle_ack block addr s).1 ≡ record s {
      transfers = insert addr t s.transfers;
      retransmit_calls = erase addr s.retransmit_calls;
      clock = erase id s.clock;
    }
unfolding handle_ack cancel_retransmit after_ack
handle_ack_stale block id addr t s known armed other =
    ground (arith, known, armed, ignored block t other)

-- Where a client has a transfer and a retransmission is scheduled for it, an acknowledgement of
-- another block than the pending one sends nothing and keeps the transfer, and takes the
-- retransmission of the pending packet away.
pub stale_ack_disarms :
    (block id : ℕ) (addr : Address) (t : Transfer) (s : TftpProtocol)
    → lookup addr s.transfers ≡ some t
    → lookup addr s.retransmit_calls ≡ some id
    → block ≢ t.pending_block
    → ((handle_ack block addr s).1.written ≡ s.written)
      × (lookup addr (handle_ack block addr s).1.transfers ≡ some t)
      × (lookup addr (handle_ack block addr s).1.retransmit_calls ≡ none)
      × (lookup id (handle_ack block addr s).1.clock ≡ none)
stale_ack_disarms block id addr t s known armed other =
    rw (handle_ack_stale block id addr t s known armed other)
      (refl, rw (lookup-insert, eq_refl), rw (lookup-erase, eq_refl), rw (lookup-erase, eq_refl))

-- An ERROR datagram drops the transfer of its sender and leaves every delayed call scheduled.
pub error_leaves_armed :
    (addr : Address) (rest : Bytes) (s : TftpProtocol)
    → (lookup addr (datagram_received (0 ∷ opcode_error ∷ rest) addr s).1.transfers ≡ none)
      × ((datagram_received (0 ∷ opcode_error ∷ rest) addr s).1.clock ≡ s.clock)
unfolding datagram_received from_bytes
error_leaves_armed addr rest s = (rw (lookup-erase, eq_refl), refl)
