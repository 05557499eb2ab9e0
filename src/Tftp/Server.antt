-- ===== src/Tftp/Server.antt =====
-- The protocol of src/diskless/bootd/tftp.py: `TftpProtocol`, with the reactor's delayed calls and the
-- worker threads as part of the state. One event of the reactor is one step.
pub mod Retransmit
pub mod Isolation
pub mod Trace
pub mod Interleaved
pub mod Network
pub mod Budget
use diskless.Base.{
  ℕ, zero, suc, ◌+◌, Bool, true, false, not, Option, none, some, List, [], ◌∷◌, ◌++◌, Bytes, Text,
  codes, Result, ok, raise, key_error, ◌==◌, list_eq, nat_eq, pair_eq, if◌then◌else◌, eqb, leb,
  take, drop, slice, from_bytes,
}
use diskless.Base.Dict.{Dict, lookup, insert, erase}
use diskless.Tftp.Packets.{
  opcode_rrq, opcode_wrq, opcode_ack, err_access_violation, max_retransmits, parse_rrq,
  error_packet, negotiate_block_size,
}
use diskless.Tftp.Transfer
use diskless.Tftp.Transfer.{Transfer, first_packet}

abbrev pub Address : Type 0
Address = Text × ℕ

-- A call that `clock.callLater` has scheduled and that has not run: `_on_retransmit_timeout` and its
-- arguments.
pub record DelayedCall : Type 0 where
  pub addr : Address
  pub packet : Bytes
  pub attempt : ℕ

-- A request whose payload a worker thread is to find.
pub record Job : Type 0 where
  pub filename : Text
  pub addr : Address
  pub options : Dict Text Text

pub record TftpProtocol : Type 0 where
  pub transfers : Dict Address Transfer
  pub retransmit_calls : Dict Address ℕ
  pub clock : Dict ℕ DelayedCall
  pub next_call : ℕ
  pub jobs : List Job
  pub written : List (Bytes × Address)

unfoldable pub write : Bytes → Address → TftpProtocol → TftpProtocol
write packet addr s = record s { written = s.written ++ (packet, addr) ∷ [] }

unfoldable pub send_and_arm_retransmit : Address → Bytes → ℕ → TftpProtocol → TftpProtocol
unfolding write
send_and_arm_retransmit addr packet attempt s =
    let sent = write packet addr s in
    record sent {
      clock =
          insert s.next_call (record { addr = addr; packet = packet; attempt = attempt }) s.clock;
      retransmit_calls = insert addr s.next_call s.retransmit_calls;
      next_call = suc s.next_call;
    }

-- A call that is no more in the clock is not active.
unfoldable pub cancel_retransmit : Address → TftpProtocol → TftpProtocol
cancel_retransmit addr s = elim (lookup addr s.retransmit_calls) [
  | none ↦ s
  | some call ↦ record s {
    retransmit_calls = erase addr s.retransmit_calls;
    clock = erase call s.clock;
  }
]

unfoldable pub on_retransmit_timeout : DelayedCall → TftpProtocol → TftpProtocol
unfolding send_and_arm_retransmit
on_retransmit_timeout c s =
    let s' = record s { retransmit_calls = erase c.addr s.retransmit_calls } in
    if leb max_retransmits (c.attempt + 1)
    then record s' { transfers = erase c.addr s.transfers }
    else send_and_arm_retransmit c.addr c.packet (c.attempt + 1) s'

-- What follows `transfer.handle_ack`.
unfoldable pub after_ack :
    Address → Result (Option Bytes × Bool) → TftpProtocol → Result (Unit {0}) × TftpProtocol
unfolding send_and_arm_retransmit
after_ack addr (raise x) s = (raise x, s)
after_ack addr (ok (packet, done)) s =
    let sent : TftpProtocol = elim packet [
      | none ↦ s
      | some p ↦ send_and_arm_retransmit addr p 0 s
    ] in
    (ok tt, if done then record sent { transfers = erase addr sent.transfers } else sent)

unfoldable pub handle_ack : ℕ → Address → TftpProtocol → Result (Unit {0}) × TftpProtocol
unfolding cancel_retransmit after_ack
handle_ack block addr s = elim (lookup addr s.transfers) [
  | none ↦ (ok tt, s)
  | some transfer ↦
      let c = cancel_retransmit addr s in
      let (result, transfer') = Transfer.handle_ack block transfer in
      after_ack addr result (record c { transfers = insert addr transfer' c.transfers })
]

pub arm_first : Result Bytes → Address → TftpProtocol → Result (Unit {0}) × TftpProtocol
unfolding send_and_arm_retransmit
arm_first (raise x) addr s = (raise x, s)
arm_first (ok packet) addr s = (ok tt, send_and_arm_retransmit addr packet 0 s)

-- `bool(options)`
abbrev use_oack : Dict Text Text → Bool
use_oack [] = false
use_oack (_ ∷ _) = true

begin_transfer :
    Result ℕ → Bytes → Address → Dict Text Text → TftpProtocol → Result (Unit {0}) × TftpProtocol
unfolding arm_first
begin_transfer (raise x) payload addr options s = (raise x, s)
begin_transfer (ok block_size) payload addr options s =
    let (packet, transfer) = first_packet (Transfer.init payload block_size (use_oack options)) in
    arm_first packet addr (record s { transfers = insert addr transfer s.transfers })

unfoldable pub start_transfer :
    Bytes → Address → Dict Text Text → TftpProtocol → Result (Unit {0}) × TftpProtocol
unfolding begin_transfer
start_transfer payload addr options s =
    begin_transfer (negotiate_block_size options) payload addr options s

refuse_write : Address → TftpProtocol → Result (Unit {0}) × TftpProtocol
unfolding write
refuse_write addr s = elim (error_packet err_access_violation (codes "write not allowed")) [
  | raise x ↦ (raise x, s)
  | ok packet ↦ (ok tt, write packet addr s)
]

unfoldable pub datagram_received : Bytes → Address → TftpProtocol → Result (Unit {0}) × TftpProtocol
unfolding refuse_write handle_ack
datagram_received datagram addr s =
    let opcode = from_bytes (take 2 datagram) in
    if eqb opcode opcode_wrq
    then refuse_write addr s
    else if eqb opcode opcode_rrq
    then elim (parse_rrq (drop 2 datagram)) [
      | raise x ↦ (raise x, s)
      | ok r ↦ (
        ok tt,
        record s { jobs = s.jobs ++ record { filename = r.0; addr = addr; options = r.1 } ∷ [] },
      )
    ]
    else if eqb opcode opcode_ack
    then handle_ack (from_bytes (slice 2 4 datagram)) addr s
    else (ok tt, record s { transfers = erase addr s.transfers })

-- The events of the reactor: a datagram, the worker's result for the oldest request, and a delayed
-- call that is due.
pub data Event : Type 0 where
  datagram : Bytes → Address → Event
  resolved : Result Bytes → Event
  due : ℕ → Event

finish_job : Result Bytes → List Job → TftpProtocol → TftpProtocol
unfolding start_transfer
finish_job r [] s = s
finish_job (raise x) (j ∷ js) s = record s { jobs = js }
finish_job (ok payload) (j ∷ js) s =
    (start_transfer payload j.addr j.options (record s { jobs = js })).1

run_call : ℕ → Option DelayedCall → TftpProtocol → TftpProtocol
unfolding on_retransmit_timeout
run_call id none s = s
run_call id (some c) s = on_retransmit_timeout c (record s { clock = erase id s.clock })

-- An exception that a callback raises is logged, and the reactor goes on.
unfoldable pub step : Event → TftpProtocol → TftpProtocol
unfolding datagram_received finish_job run_call
step (datagram bytes addr) s = (datagram_received bytes addr s).1
step (resolved r) s = finish_job r s.jobs s
step (due id) s = run_call id (lookup id s.clock) s
