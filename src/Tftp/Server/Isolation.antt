-- ===== src/Tftp/Server/Isolation.antt =====
-- What the server does for one client leaves every other client's transfer as it is.
use mathlib.Core.List.{append-nil, append_assoc}
use diskless.Base.{
  ℕ, ◌≡◌, refl, ◌∙◌, Bool, true, false, Option, none, some, List, [], ◌∷◌, ◌++◌, arith, Bytes, Text,
  Result, ok, raise, ◌==◌, list_eq, nat_eq, pair_eq, leb, slice, from_bytes, inl, inr, Option-cases,
  Bool-cases, Result-cases, ◌+◌, codes, if◌then◌else◌,
}
use diskless.Base.Dict.{Dict, lookup, insert, erase, lookup-insert, lookup-erase}
use diskless.Tftp.Packets.{
  negotiate_block_size, max_retransmits, error_packet, err_access_violation,
}
use diskless.Tftp.Transfer
use diskless.Tftp.Transfer.{Transfer, first_packet}
use diskless.Tftp.Transfer.Delivery.{body}
use diskless.Tftp.Server.{
  Address, DelayedCall, Job, TftpProtocol, Event, write, send_and_arm_retransmit, cancel_retransmit,
  on_retransmit_timeout, after_ack, handle_ack, start_transfer, begin_transfer, arm_first, use_oack,
  refuse_write, datagram_received, step, finish_job, run_call, datagram, resolved, due,
}

-- The data of the packets to a client, in the order that they were written.
unfoldable pub received : Address → List (Bytes × Address) → Bytes
received addr [] = []
received addr ((packet, a) ∷ written) =
    let rest = received addr written in if addr == a then body packet ++ rest else rest

pub received-append :
    (addr a : Address) (packet : Bytes) (written : List (Bytes × Address))
    → received addr (written ++ (packet, a) ∷ [])
      ≡ received addr written ++ (if addr == a then body packet else [])
unfolding received
received-append addr a packet [] = ground (arith, append-nil (body packet))
received-append addr a packet ((p, b) ∷ written) = ground (
  arith,
  received-append addr a packet written,
  append_assoc (body p) (received addr written) (if addr == a then body packet else []),
)

-- The transfer of a client, and what it has been sent, are the same in two states.
pub record Same (addr : Address) (s t : TftpProtocol) : Type 0 where
  pub transfer : lookup addr t.transfers ≡ lookup addr s.transfers
  pub sent : received addr t.written ≡ received addr s.written

module _ (addr : Address) where
  same : {s : TftpProtocol} → Same addr s s
  same = record { transfer = refl; sent = refl }

  after-Same : {s t u : TftpProtocol} → Same addr s t → Same addr t u → Same addr s u
  after-Same f g = record { transfer = g.transfer ∙ f.transfer; sent = g.sent ∙ f.sent }

  -- `a` is another client.
  module _ (a : Address) (ne : (addr == a) ≡ false) where
    write-Same : (packet : Bytes) (s : TftpProtocol) → Same addr s (write packet a s)
    unfolding write
    write-Same packet s = record {
      transfer = refl;
      sent =
          rw (received-append addr a packet s.written, ne) (append-nil (received addr s.written));
    }

    send-Same :
        (packet : Bytes) (attempt : ℕ) (s : TftpProtocol)
        → Same addr s (send_and_arm_retransmit a packet attempt s)
    unfolding send_and_arm_retransmit
    send-Same packet attempt s =
        let h = write-Same packet s in record { transfer = h.transfer; sent = h.sent }

    cancel-Same : (s : TftpProtocol) → Same addr s (cancel_retransmit a s)
    unfolding cancel_retransmit
    cancel-Same s = record { transfer = ground arith; sent = ground arith }

    insert-Same :
        (t : Transfer) (s : TftpProtocol)
        → Same addr s (record s { transfers = insert a t s.transfers })
    insert-Same t s = record {
      transfer = rw (lookup-insert addr a t s.transfers, ne) refl;
      sent = refl;
    }

    erase-Same : (s : TftpProtocol) → Same addr s (record s { transfers = erase a s.transfers })
    erase-Same s = record { transfer = rw (lookup-erase addr a s.transfers, ne) refl; sent = refl }

    after_ack-Same :
        (r : Result (Option Bytes × Bool)) (s : TftpProtocol) → Same addr s (after_ack a r s).1
    unfolding after_ack
    after_ack-Same (raise x) s = same
    after_ack-Same (ok (none, true)) s = erase-Same s
    after_ack-Same (ok (none, false)) s = same
    after_ack-Same (ok (some p, true)) s =
        after-Same (send-Same p 0 s) (erase-Same (send_and_arm_retransmit a p 0 s))
    after_ack-Same (ok (some p, false)) s = send-Same p 0 s

    handle_ack-Same : (block : ℕ) (s : TftpProtocol) → Same addr s (handle_ack block a s).1
    unfolding handle_ack
    handle_ack-Same block s = elim (Option-cases (lookup a s.transfers)) [
      | inl unknown ↦ rw (unknown, handle_ack) same
      | inr (t, known) ↦
          let c = cancel_retransmit a s in
          let (r, t') = Transfer.handle_ack block t in
          rw (known, handle_ack)
            (after-Same (after-Same (cancel-Same s) (insert-Same t' c))
              (after_ack-Same r (record c { transfers = insert a t' c.transfers })))
    ]

    timeout-Same :
        (packet : Bytes) (attempt : ℕ) (s : TftpProtocol)
        → Same addr s
            (on_retransmit_timeout (record { addr = a; packet = packet; attempt = attempt }) s)
    unfolding on_retransmit_timeout
    timeout-Same packet attempt s = elim (Bool-cases (leb max_retransmits (attempt + 1))) [
      | inl spent ↦
          let h = erase-Same s in
          rw (spent, on_retransmit_timeout) (record { transfer = h.transfer; sent = h.sent })
      | inr more ↦
          let s' = record s { retransmit_calls = erase a s.retransmit_calls } in
          let h = send-Same packet (attempt + 1) s' in
          rw (more, on_retransmit_timeout) (record { transfer = h.transfer; sent = h.sent })
    ]

    arm-Same : (r : Result Bytes) (s : TftpProtocol) → Same addr s (arm_first r a s).1
    unfolding arm_first
    arm-Same (raise x) s = same
    arm-Same (ok p) s = send-Same p 0 s

    begin-Same :
        (n : Result ℕ) (payload : Bytes) (options : Dict Text Text) (s : TftpProtocol)
        → Same addr s (begin_transfer n payload a options s).1
    unfolding begin_transfer
    begin-Same (raise x) payload options s = same
    begin-Same (ok n) payload options s =
        let (p, t) = first_packet (Transfer.init payload n (use_oack options)) in
        after-Same (insert-Same t s) (arm-Same p (record s { transfers = insert a t s.transfers }))

    refuse-Same : (s : TftpProtocol) → Same addr s (refuse_write a s).1
    unfolding refuse_write
    refuse-Same s =
        elim (Result-cases (error_packet err_access_violation (codes "write not allowed"))) [
          | inl (x, e) ↦ rw (e, refuse_write) same
          | inr (packet, e) ↦ rw (e, refuse_write) (write-Same packet s)
        ]

    received-Same : (bytes : Bytes) (s : TftpProtocol) → Same addr s (datagram_received bytes a s).1
    unfolding datagram_received
    received-Same bytes s =
        let refused = refuse-Same s in
        let acked = handle_ack-Same (from_bytes (slice 2 4 bytes)) s in
        let dropped = erase-Same s in
        record {
          transfer = ground (arith, refused.transfer, acked.transfer, dropped.transfer);
          sent = ground (arith, refused.sent, acked.sent, dropped.sent);
        }

    -- The parts of the two other events.
    resolved-Same :
        (r : Result Bytes) (j : Job) (js : List Job) (s : TftpProtocol)
        → j.addr ≡ a
        → Same addr s (finish_job r (j ∷ js) s)
    unfolding finish_job start_transfer
    resolved-Same (raise x) j js s own = record { transfer = refl; sent = refl }
    resolved-Same (ok payload) j js s own =
        let h =
          begin-Same (negotiate_block_size j.options) payload j.options (record s { jobs = js }) in
        rw own (record { transfer = h.transfer; sent = h.sent })

    due-Same :
        (id : ℕ) (c : DelayedCall) (s : TftpProtocol)
        → c.addr ≡ a
        → Same addr s (run_call id (some c) s)
    unfolding run_call
    due-Same id c s own =
        let h = timeout-Same c.packet c.attempt (record s { clock = erase id s.clock }) in
        rw own (record { transfer = h.transfer; sent = h.sent })

-- An event of another client: its datagram, the result for its request where that is the oldest, its
-- delayed call.
abbrev pub OfAnother : Address → Option Address → Type 0
OfAnother addr none = Unit
OfAnother addr (some a) = (addr == a) ≡ false

abbrev pub oldest : List Job → Option Address
oldest [] = none
oldest (j ∷ js) = some j.addr

abbrev pub caller : Option DelayedCall → Option Address
caller none = none
caller (some c) = some c.addr

abbrev whose : Event → TftpProtocol → Option Address
whose (datagram bytes a) s = some a
whose (resolved r) s = oldest s.jobs
whose (due id) s = caller (lookup id s.clock)

abbrev pub IsOther : Address → Event → TftpProtocol → Type 0
IsOther addr event s = OfAnother addr (whose event s)

resolved_cases :
    (addr : Address) (r : Result Bytes) (jobs : List Job) (s : TftpProtocol)
    → s.jobs ≡ jobs
    → IsOther addr (resolved r) s
    → Same addr s (finish_job r jobs s)
unfolding finish_job
resolved_cases addr r [] s e other = same addr
resolved_cases addr r (j ∷ js) s e other = resolved-Same addr j.addr (rw e at other) r j js s refl

due_cases :
    (addr : Address) (id : ℕ) (call : Option DelayedCall) (s : TftpProtocol)
    → lookup id s.clock ≡ call
    → IsOther addr (due id) s
    → Same addr s (run_call id call s)
unfolding run_call
due_cases addr id none s e other = same addr
due_cases addr id (some c) s e other = due-Same addr c.addr (rw e at other) id c s refl

-- An event of another client leaves a client's transfer, and what it has been sent, as they are.
pub step-Same :
    (addr : Address) (event : Event) (s : TftpProtocol)
    → IsOther addr event s
    → Same addr s (step event s)
unfolding step
step-Same addr (datagram bytes a) s other = received-Same addr a other bytes s
step-Same addr (resolved r) s other = resolved_cases addr r s.jobs s refl other
step-Same addr (due id) s other = due_cases addr id (lookup id s.clock) s refl other
