-- ===== src/Tftp/Server/Trace.antt =====
-- The server's steps around one client's download.
use mathlib.Core.List.{append_assoc}
use diskless.Base.{
  ℕ, ◌+◌, ◌*◌, ◌<◌, ◌≡◌, ◌≢◌, refl, sym, ap, subst, ◌∙◌, true, false, Option, none, some, [], ◌∷◌,
  ◌++◌, arith, Bytes, ok, eq_refl, list_eq, nat_eq, pair_eq, length, take, slice, from_bytes,
  big_endian, inl, inr, from_bytes-big_endian, zero, suc, ◌-◌, Option-cases,
}
use diskless.Base.Dict.{lookup, insert, lookup-insert, lookup-erase}
use diskless.Tftp.Packets.{opcode_ack}
use diskless.Tftp.Transfer
use diskless.Tftp.Transfer.{Transfer, advance, init, chunk, first_packet}
use diskless.Tftp.Transfer.Delivery.{IsStarted, advance-IsStarted, missing, body}
use diskless.Tftp.Transfer.Rounds.{rounds}
use diskless.Tftp.Server.{
  Address, TftpProtocol, Event, write, send_and_arm_retransmit, cancel_retransmit, after_ack,
  handle_ack, datagram_received, step, datagram,
}
use diskless.Tftp.Server.Isolation.{received, received-append, Same, IsOther, step-Same}

-- An acknowledgement.
abbrev pub IsAck : Bytes → Type 0
IsAck bytes = from_bytes (take 2 bytes) ≡ opcode_ack

abbrev pub acknowledged : Bytes → ℕ
acknowledged bytes = from_bytes (slice 2 4 bytes)

-- The steps of the server while a client downloads: events of other clients, acknowledgements by the
-- client of another block than the pending one, and acknowledgements of the pending block.
pub data Trace (addr : Address) : TftpProtocol → TftpProtocol → Type 0 where
  stop : {s : TftpProtocol} → Trace addr s s
  other :
      {s u : TftpProtocol}
      → (event : Event) → IsOther addr event s
      → Trace addr (step event s) u
      → Trace addr s u
  stale :
      {s u : TftpProtocol}
      → (bytes : Bytes) → (t : Transfer) → IsAck bytes
      → lookup addr s.transfers ≡ some t
      → acknowledged bytes ≢ t.pending_block
      → Trace addr (step (datagram bytes addr) s) u
      → Trace addr s u
  acked :
      {s u : TftpProtocol}
      → (bytes : Bytes) → (t : Transfer) → IsAck bytes
      → lookup addr s.transfers ≡ some t
      → acknowledged bytes ≡ t.pending_block
      → Trace addr (step (datagram bytes addr) s) u
      → Trace addr s u

module _ (addr : Address) where
  pub step-ack :
      (bytes : Bytes) (s : TftpProtocol)
      → IsAck bytes
      → step (datagram bytes addr) s ≡ (handle_ack (acknowledged bytes) addr s).1
  unfolding step datagram_received
  step-ack bytes s is = rw (is, step, datagram_received) refl

  pub sent_by_cancel : (s : TftpProtocol) → (cancel_retransmit addr s).written ≡ s.written
  unfolding cancel_retransmit
  sent_by_cancel s = ground arith

  -- What an acknowledgement by the client does, by what its transfer makes of it.
  module _ (s : TftpProtocol) (t t' : Transfer) (at : lookup addr s.transfers ≡ some t)
      (block : ℕ) where
    pub over :
        Transfer.handle_ack block t ≡ (ok (none, true), t')
        → (lookup addr (handle_ack block addr s).1.transfers ≡ none)
          × (received addr (handle_ack block addr s).1.written ≡ received addr s.written)
    unfolding handle_ack after_ack
    over e =
        let c = cancel_retransmit addr s in
        rw (at, handle_ack, e, after_ack)
          (
            rw (lookup-erase addr addr (insert addr t' c.transfers), eq_refl addr) refl,
            ap (received addr) (sent_by_cancel s),
          )

    silent :
        Transfer.handle_ack block t ≡ (ok (none, false), t')
        → (lookup addr (handle_ack block addr s).1.transfers ≡ some t')
          × (received addr (handle_ack block addr s).1.written ≡ received addr s.written)
    unfolding handle_ack after_ack
    silent e =
        let c = cancel_retransmit addr s in
        rw (at, handle_ack, e, after_ack)
          (
            rw (lookup-insert addr addr t' c.transfers, eq_refl addr) refl,
            ap (received addr) (sent_by_cancel s),
          )

    onward :
        (p : Bytes)
        → Transfer.handle_ack block t ≡ (ok (some p, false), t')
        → (lookup addr (handle_ack block addr s).1.transfers ≡ some t')
          × (received addr (handle_ack block addr s).1.written ≡ received addr s.written ++ body p)
    unfolding handle_ack after_ack send_and_arm_retransmit write
    onward p e =
        let c = cancel_retransmit addr s in
        rw (at, handle_ack, e, after_ack)
          (
            rw (lookup-insert addr addr t' c.transfers, eq_refl addr) refl,
            rw (received-append addr addr p c.written, eq_refl addr, sent_by_cancel s) refl,
          )

-- What a client still misses: nothing where it has no transfer.
abbrev pub left : Option Transfer → Bytes
left none = []
left (some t) = missing t

-- A started transfer with block numbers enough for its file.
abbrev pub Fits : Option Transfer → Type 0
Fits none = Unit
Fits (some t) = IsStarted t × (length t.payload < 65535 * t.block_size) × (t.pending_block < 65536)

-- An event leaves a client with what it had, and what it still misses is still to come.
pub record Conserves (addr : Address) (s u : TftpProtocol) : Type 0 where
  pub sum :
      received addr u.written ++ left (lookup addr u.transfers)
      ≡ received addr s.written ++ left (lookup addr s.transfers)
  pub fits : Fits (lookup addr u.transfers)

Same-Conserves :
    (addr : Address) {s u : TftpProtocol}
    → Same addr s u
    → Fits (lookup addr s.transfers)
    → Conserves addr s u
Same-Conserves addr h f = record { sum = rw (h.transfer, h.sent) refl; fits = rw h.transfer f }

module _ (addr : Address) (s : TftpProtocol) (t : Transfer)
    (at : lookup addr s.transfers ≡ some t) where
  stale-Conserves :
      (block : ℕ)
      → block ≢ t.pending_block
      → Fits (some t)
      → Conserves addr s (handle_ack block addr s).1
  unfolding Transfer.handle_ack
  stale-Conserves block ne f =
      let (kept, sent) = silent addr s t t at block (ground arith) in
      record { sum = rw (kept, sent, at) refl; fits = rw kept f }

  acked-Conserves : Fits (some t) → Conserves addr s (handle_ack t.pending_block addr s).1
  unfolding advance
  acked-Conserves (started, few, small) = elim (rounds t started few) [
    | inl (e, none_left) ↦
        let (gone, sent) = over addr s t t at t.pending_block e in
        record { sum = rw (gone, sent, at, none_left) refl; fits = rw gone tt }
    | inr (p, low, e, more) ↦
        let t' = advance (t.pending_block + 1) t in
        let (now, sent) = onward addr s t t' at t.pending_block p e in
        record {
          sum =
              rw (now, sent, at, more)
                (append_assoc (received addr s.written) (body p) (missing t'));
          fits =
              rw now (advance-IsStarted (t.pending_block + 1) t started.positive, few, omega arith);
        }
  ]

pub Trace-Conserves :
    (addr : Address) {s u : TftpProtocol}
    → Trace addr s u
    → Fits (lookup addr s.transfers)
    → Conserves addr s u
Trace-Conserves addr stop f = record { sum = refl; fits = f }
Trace-Conserves addr {s} {u} (other event o trace) f =
    let now = Same-Conserves addr (step-Same addr event s o) f in
    let then_on = Trace-Conserves addr trace now.fits in
    record { sum = then_on.sum ∙ now.sum; fits = then_on.fits }
Trace-Conserves addr {s} {u} (stale bytes t is at ne trace) f =
    let here = stale-Conserves addr s t at (acknowledged bytes) ne (rw at at f) in
    let now = subst (λ v. Conserves addr s v) (sym (step-ack addr bytes s is)) here in
    let then_on = Trace-Conserves addr trace now.fits in
    record { sum = then_on.sum ∙ now.sum; fits = then_on.fits }
Trace-Conserves addr {s} {u} (acked bytes t is at eq trace) f =
    let here =
      subst (λ b. Conserves addr s (handle_ack b addr s).1) (sym eq)
        (acked-Conserves addr s t at (rw at at f)) in
    let now = subst (λ v. Conserves addr s v) (sym (step-ack addr bytes s is)) here in
    let then_on = Trace-Conserves addr trace now.fits in
    record { sum = then_on.sum ∙ now.sum; fits = then_on.fits }

-- The acknowledgement of a block.
abbrev pub ack_packet : ℕ → Bytes
ack_packet b = 0 ∷ opcode_ack ∷ big_endian 2 b

pub ack_packet_lem : (b : ℕ) → b < 65536 → IsAck (ack_packet b) × (acknowledged (ack_packet b) ≡ b)
unfolding big_endian from_bytes
ack_packet_lem b small = (refl, from_bytes-big_endian 2 b small)

-- A client that goes on can end its transfer.
pub record Ends (addr : Address) (s : TftpProtocol) : Type 0 where
  pub end : TftpProtocol
  pub trace : Trace addr s end
  pub gone : lookup addr end.transfers ≡ none

Fits-Ends_within :
    (addr : Address) (f : ℕ) (s : TftpProtocol) (t : Transfer)
    → lookup addr s.transfers ≡ some t
    → Fits (some t)
    → t.pending_block + f ≡ 65536
    → Ends addr s
unfolding advance
Fits-Ends_within addr zero s t at (started, few, small) e = absurd (omega arith)
Fits-Ends_within addr (suc f) s t at (started, few, small) e =
    let b = t.pending_block in
    let (is, same) = ack_packet_lem b small in
    let s' = step (datagram (ack_packet b) addr) s in
    let now : s' ≡ (handle_ack b addr s).1 =
      step-ack addr (ack_packet b) s is ∙ ap (λ n. (handle_ack n addr s).1) same in
    elim (rounds t started few) [
      | inl (e', none_left) ↦ record {
        end = s';
        trace = acked (ack_packet b) t is at same stop;
        gone = rw now (over addr s t t at b e').0;
      }
      | inr (p, low, e', more) ↦
          let t' = advance (b + 1) t in
          let there : lookup addr s'.transfers ≡ some t' =
            rw now (onward addr s t t' at b p e').0 in
          let rest =
            Fits-Ends_within addr f s' t' there
              (advance-IsStarted (b + 1) t started.positive, few, omega arith) (omega arith) in
          record {
            end = rest.end;
            trace = acked (ack_packet b) t is at same rest.trace;
            gone = rest.gone;
          }
    ]

-- From wherever the events have led.
pub Fits-Ends : (addr : Address) (s : TftpProtocol) → Fits (lookup addr s.transfers) → Ends addr s
Fits-Ends addr s f = elim (Option-cases (lookup addr s.transfers)) [
  | inl gone ↦ record { end = s; trace = stop; gone = gone }
  | inr (t, at) ↦
      let fits = rw at at f in
      Fits-Ends_within addr (65536 - t.pending_block) s t at fits (omega (arith, fits.2))
]
