-- ===== src/Tftp/Server/Network/Sound.antt =====
-- Each event keeps what is sent to a client to the blocks of its file.
use diskless.Base.{
  ℕ, ◌+◌, ◌≡◌, ◌⊎◌, refl, ap, subst, ◌∙◌, Bool, true, false, Option, none, some, List, [], ◌∷◌,
  Bytes, Text, same_if_equal, Result, ok, raise, ◌==◌, list_eq, nat_eq, pair_eq, length, eqb, ltb,
  leb, take, drop, slice, from_bytes, to_bytes, big_endian, inl, inr, Option-cases, Bool-cases,
  Result-cases, ◌>>=◌,
}
use diskless.Base.Dict.{Dict, lookup, insert}
use diskless.Tftp.Packets.{
  opcode_wrq, opcode_rrq, opcode_ack, parse_rrq, max_retransmits, data_packet, error_packet,
  negotiate_block_size,
}
use diskless.Tftp.Transfer
use diskless.Tftp.Transfer.{Transfer, init, chunk, first_packet}
use diskless.Tftp.Server.{
  Address, DelayedCall, Job, TftpProtocol, Event, on_retransmit_timeout, after_ack, handle_ack,
  start_transfer, begin_transfer, arm_first, use_oack, refuse_write, datagram_received, step,
  finish_job, run_call, datagram, resolved, due,
}
use diskless.Tftp.Server.Isolation.{OfAnother, oldest}
use diskless.Tftp.Server.Network.{
  Legit, data_packet-Legit, IsNoRestart, TransferSound, PacketSound, CallSound, IsSound,
}
use diskless.Tftp.Server.Network.Sending.{
  write-IsSound, send-IsSound, erased_calls, cancel-IsSound, insert-IsSound, erase-IsSound,
}

module _ (addr : Address) (payload : Bytes) (n : ℕ) where
  abbrev Sound : TftpProtocol → Type 0
  Sound s = IsSound addr payload n s

  -- What a transfer makes of an acknowledgement.
  abbrev ResultSound : Result (Option Bytes × Bool) → Type 0
  ResultSound (raise x) = Unit
  ResultSound (ok (none, done)) = Unit
  ResultSound (ok (some p, done)) = Legit payload n p

  record AckSound (o : Result (Option Bytes × Bool) × Transfer) : Type 0 where
    result : ResultSound o.0
    transfer : TransferSound addr payload n (some o.1)

  next_lem :
      (b : ℕ) (t : Transfer)
      → TransferSound addr payload n (some t)
      → ResultSound (do packet ← data_packet b (chunk b t); ok (some packet, false))
  unfolding chunk
  next_lem b t (file, size) = elim (Result-cases (data_packet b (chunk b t))) [
    | inl (x, e) ↦ rw e tt
    | inr (p, e) ↦ rw e (data_packet-Legit payload n b p (rw (file, size) at e))
  ]

  ack_lem :
      (block : ℕ) (t : Transfer)
      → TransferSound addr payload n (some t)
      → AckSound (Transfer.handle_ack block t)
  unfolding Transfer.handle_ack Transfer.advance
  ack_lem block t h =
      let next = next_lem (block + 1) t h in
      elim (Bool-cases (eqb block t.pending_block)) [
        | inr other ↦ rw (other, Transfer.handle_ack) (record { result = tt; transfer = h })
        | inl pending ↦ elim (Bool-cases (eqb block 0)) [
          | inl first ↦
              rw (pending, first, Transfer.handle_ack) (record { result = next; transfer = h })
          | inr later ↦ elim (Option-cases (lookup block t.sent_chunks)) [
            | inl unsent ↦
                rw (pending, later, unsent, Transfer.handle_ack)
                  (record { result = tt; transfer = h })
            | inr (sent, e) ↦ elim (Bool-cases (ltb (length sent) t.block_size)) [
              | inl short ↦
                  rw (pending, later, e, short, Transfer.handle_ack)
                    (record { result = tt; transfer = h })
              | inr full ↦
                  rw (pending, later, e, full, Transfer.handle_ack)
                    (record { result = next; transfer = h })
            ]
          ]
        ]
      ]

  after_ack-IsSound :
      (a : Address) (r : Result (Option Bytes × Bool)) {s : TftpProtocol}
      → ((addr == a) ≡ false) ⊎ ResultSound r
      → Sound s
      → Sound (after_ack a r s).1
  unfolding after_ack
  after_ack-IsSound a (raise x) ok_for h = h
  after_ack-IsSound a (ok (none, true)) ok_for h = erase-IsSound addr payload n a h
  after_ack-IsSound a (ok (none, false)) ok_for h = h
  after_ack-IsSound a (ok (some p, true)) ok_for h =
      erase-IsSound addr payload n a (send-IsSound addr payload n a p 0 ok_for h)
  after_ack-IsSound a (ok (some p, false)) ok_for h = send-IsSound addr payload n a p 0 ok_for h

  -- The transfer of a client who may be the one.
  transfer_of :
      (a : Address) (t : Transfer) {s : TftpProtocol}
      → Sound s
      → lookup a s.transfers ≡ some t
      → ((addr == a) ≡ false) ⊎ TransferSound addr payload n (some t)
  transfer_of a t {s} h at = elim (Bool-cases (addr == a)) [
    | inr another ↦ inl another
    | inl same ↦
        let e : lookup addr s.transfers ≡ some t =
          ap (λ b. lookup b s.transfers) (same_if_equal addr a same) ∙ at in
        inr (subst (TransferSound addr payload n) e h.transfer)
  ]

  acked_by :
      (a : Address) (block : ℕ) (t : Transfer)
      → ((addr == a) ≡ false) ⊎ TransferSound addr payload n (some t)
      → ((addr == a) ≡ false) ⊎ AckSound (Transfer.handle_ack block t)
  acked_by a block t (inl another) = inl another
  acked_by a block t (inr h) = inr (ack_lem block t h)

  both :
      (a : Address) (o : Result (Option Bytes × Bool) × Transfer) {s : TftpProtocol}
      → ((addr == a) ≡ false) ⊎ AckSound o
      → Sound s
      → Sound (after_ack a o.0 (record s { transfers = insert a o.1 s.transfers })).1
  both a o (inl another) h =
      after_ack-IsSound a o.0 (inl another) (insert-IsSound addr payload n a o.1 (inl another) h)
  both a o (inr r) h =
      after_ack-IsSound a o.0 (inr r.result)
        (insert-IsSound addr payload n a o.1 (inr r.transfer) h)

  handle_ack-IsSound :
      (block : ℕ) (a : Address) {s : TftpProtocol} → Sound s → Sound (handle_ack block a s).1
  unfolding handle_ack
  handle_ack-IsSound block a {s} h = elim (Option-cases (lookup a s.transfers)) [
    | inl unknown ↦ rw (unknown, handle_ack) h
    | inr (t, known) ↦
        rw (known, handle_ack)
          (both a (Transfer.handle_ack block t) (acked_by a block t (transfer_of a t h known))
            (cancel-IsSound addr payload n a h))
  ]

  timeout-IsSound :
      (c : DelayedCall) {s : TftpProtocol}
      → PacketSound addr payload n c.addr c.packet
      → Sound s
      → Sound (on_retransmit_timeout c s)
  unfolding on_retransmit_timeout
  timeout-IsSound c {s} ok_for h = elim (Bool-cases (leb max_retransmits (c.attempt + 1))) [
    | inl spent ↦
        let e = erase-IsSound addr payload n c.addr h in
        rw (spent, on_retransmit_timeout)
          (record { transfer = e.transfer; calls = e.calls; sent = e.sent })
    | inr more ↦
        rw (more, on_retransmit_timeout)
          (send-IsSound addr payload n c.addr c.packet (c.attempt + 1) ok_for
            (record { transfer = h.transfer; calls = h.calls; sent = h.sent }))
  ]

  refuse-IsSound : (a : Address) {s : TftpProtocol} → Sound s → Sound (refuse_write a s).1
  unfolding refuse_write error_packet to_bytes big_endian from_bytes
  refuse-IsSound a h = write-IsSound addr payload n a _ (inr (inl refl)) h

  pub arm-IsSound :
      (a : Address) (r : Result Bytes) {s : TftpProtocol}
      → ((addr == a) ≡ false) ⊎ ((p : Bytes) → r ≡ ok p → Legit payload n p)
      → Sound s
      → Sound (arm_first r a s).1
  unfolding arm_first
  arm-IsSound a (raise x) ok_for h = h
  arm-IsSound a (ok p) (inl another) h = send-IsSound addr payload n a p 0 (inl another) h
  arm-IsSound a (ok p) (inr legit) h = send-IsSound addr payload n a p 0 (inr (legit p refl)) h

  begin_other :
      (a : Address) (r : Result ℕ) (file : Bytes) (options : Dict Text Text) {s : TftpProtocol}
      → (addr == a) ≡ false
      → Sound s
      → Sound (begin_transfer r file a options s).1
  unfolding begin_transfer
  begin_other a (raise x) file options another h = h
  begin_other a (ok size) file options another h =
      let (p, t) = first_packet (init file size (use_oack options)) in
      arm-IsSound a p (inl another) (insert-IsSound addr payload n a t (inl another) h)

  finish-IsSound :
      (r : Result Bytes) (js : List Job) {s : TftpProtocol}
      → OfAnother addr (oldest js)
      → Sound s
      → Sound (finish_job r js s)
  unfolding finish_job start_transfer
  finish-IsSound r [] another h = h
  finish-IsSound (raise x) (j ∷ js) another h = record {
    transfer = h.transfer;
    calls = h.calls;
    sent = h.sent;
  }
  finish-IsSound (ok file) (j ∷ js) another h =
      begin_other j.addr (negotiate_block_size j.options) file j.options another
        (record { transfer = h.transfer; calls = h.calls; sent = h.sent })

  call-IsSound :
      (id : ℕ) (call : Option DelayedCall) {s : TftpProtocol}
      → CallSound addr payload n call
      → Sound s
      → Sound (run_call id call s)
  unfolding run_call
  call-IsSound id none ok_for h = h
  call-IsSound id (some c) ok_for h =
      timeout-IsSound c ok_for
        (record { transfer = h.transfer; calls = erased_calls addr payload n id h; sent = h.sent })

  received-IsSound :
      (bytes : Bytes) (a : Address) {s : TftpProtocol}
      → Sound s
      → Sound (datagram_received bytes a s).1
  unfolding datagram_received
  received-IsSound bytes a {s} h =
      let opcode = from_bytes (take 2 bytes) in
      elim (Bool-cases (eqb opcode opcode_wrq)) [
        | inl wrq ↦ rw (wrq, datagram_received) (refuse-IsSound a h)
        | inr not_wrq ↦ elim (Bool-cases (eqb opcode opcode_rrq)) [
          | inl rrq ↦ elim (Result-cases (parse_rrq (drop 2 bytes))) [
            | inl (x, e) ↦ rw (not_wrq, rrq, e, datagram_received) h
            | inr (q, e) ↦
                rw (not_wrq, rrq, e, datagram_received)
                  (record { transfer = h.transfer; calls = h.calls; sent = h.sent })
          ]
          | inr not_rrq ↦ elim (Bool-cases (eqb opcode opcode_ack)) [
            | inl ack ↦
                rw (not_wrq, not_rrq, ack, datagram_received)
                  (handle_ack-IsSound (from_bytes (slice 2 4 bytes)) a h)
            | inr error ↦
                rw (not_wrq, not_rrq, error, datagram_received) (erase-IsSound addr payload n a h)
          ]
        ]
      ]

  pub step-IsSound :
      (e : Event) {s : TftpProtocol}
      → IsNoRestart addr e s
      → IsSound addr payload n s
      → IsSound addr payload n (step e s)
  unfolding step
  step-IsSound (datagram bytes a) quiet h = received-IsSound bytes a h
  step-IsSound (resolved r) {s} quiet h = finish-IsSound r s.jobs quiet h
  step-IsSound (due id) {s} quiet h = call-IsSound id (lookup id s.clock) (h.calls id) h
