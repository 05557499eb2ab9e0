-- ===== src/Tftp/Server/Network/Waiting.antt =====
-- What stands while the server waits for an acknowledgement: after a loss, and after the next packet.
use diskless.Base.{
  ℕ, zero, suc, ◌+◌, ◌<◌, ◌≡◌, refl, ap, ◌∙◌, false, some, [], ◌∷◌, ◌++◌, arith, Bytes, ok, eq_refl,
  list_eq, nat_eq, pair_eq,
}
use diskless.Base.Dict.{lookup, lookup-insert}
use diskless.Tftp.Packets.{max_retransmits}
use diskless.Tftp.Transfer
use diskless.Tftp.Transfer.{Transfer, init, chunk, advance, first_packet}
use diskless.Tftp.Server.{
  Address, DelayedCall, TftpProtocol, write, send_and_arm_retransmit, cancel_retransmit, after_ack,
  handle_ack, step, due, run_call, on_retransmit_timeout,
}
use diskless.Tftp.Server.Retransmit.{step-due}
use diskless.Tftp.Server.Trace.{Fits, sent_by_cancel}
use diskless.Tftp.Server.Network.{packets, IsSound}
use diskless.Tftp.Server.Network.Sending.{packets-append}
use diskless.Tftp.Server.Network.Sound.{step-IsSound}
use diskless.Tftp.Server.Network.Receiver.{Receiver, take_packet, Has}
use diskless.Tftp.Server.Network.Patience.{lose, last, last-append, HeardUp}

module _ (addr : Address) (payload : Bytes) (n : ℕ) where
  pub newest :
      (s u : TftpProtocol) (p : Bytes)
      → u.written ≡ s.written ++ (p, addr) ∷ []
      → last (packets addr u.written) ≡ p
  newest s u p e =
      ap (λ w. last (packets addr w)) e ∙ ap last added ∙ last-append (packets addr s.written) p
    where
      added : packets addr (s.written ++ (p, addr) ∷ []) ≡ packets addr s.written ++ p ∷ []
      added = packets-append addr addr p s.written ∙ rw (eq_refl addr) refl

  -- The server waits for the client to acknowledge a packet, which it has sent and scheduled.
  pub record Waits (r : Receiver) (t : Transfer) (p : Bytes) (attempt : ℕ) (s : TftpProtocol)
      : Type 0 where
    pub at : lookup addr s.transfers ≡ some t
    pub id : ℕ
    pub armed : lookup addr s.retransmit_calls ≡ some id
    pub call : lookup id s.clock ≡ some (record { addr = addr; packet = p; attempt = attempt })
    pub latest : last (packets addr s.written) ≡ p
    pub fits : Fits (some t)
    pub sound : IsSound addr payload n s
    pub up : HeardUp t (take_packet n p r)
    pub has : Has payload n r

  pub due_keeps :
      (id : ℕ) (c : DelayedCall) (s : TftpProtocol)
      → lookup id s.clock ≡ some c
      → c.attempt + 1 < max_retransmits
      → (step (due id) s).transfers ≡ s.transfers
  unfolding step run_call on_retransmit_timeout send_and_arm_retransmit write
  due_keeps id c s h low = rw h (ground arith)

  pub lost-Waits :
      (r : Receiver) (t : Transfer) (p : Bytes) (a : ℕ) (s : TftpProtocol) (w : Waits r t p a s)
      → a + 1 < max_retransmits
      → Waits r t p (a + 1) (step (due w.id) s)
  lost-Waits r t p a s w low =
      let c : DelayedCall = record { addr = addr; packet = p; attempt = a } in
      let (again, scheduled, armed) = step-due w.id c s w.call low in
      record {
        at = ap (lookup addr) (due_keeps w.id c s w.call low) ∙ w.at;
        id = s.next_call;
        armed = armed;
        call = scheduled;
        latest = newest s (step (due w.id) s) p again;
        fits = w.fits;
        sound = step-IsSound addr payload n (due w.id) tt w.sound;
        up = w.up;
        has = w.has;
      }

  pub lose-Waits :
      (k : ℕ) (r : Receiver) (t : Transfer) (p : Bytes) (a : ℕ) (s : TftpProtocol)
      → Waits r t p a s
      → a + k < max_retransmits
      → (a' : ℕ) × Waits r t p a' (lose addr k s)
  unfolding lose
  lose-Waits zero r t p a s w low = (a, w)
  lose-Waits (suc k) r t p a s w low =
      rw (w.armed, lose)
        (lose-Waits k r t p (a + 1) (step (due w.id) s) (lost-Waits r t p a s w (omega arith))
          (omega arith))

  -- An acknowledgement to which the next packet is sent.
  pub record Sends (t' : Transfer) (p : Bytes) (s u : TftpProtocol) : Type 0 where
    pub at : lookup addr u.transfers ≡ some t'
    pub id : ℕ
    pub armed : lookup addr u.retransmit_calls ≡ some id
    pub call : lookup id u.clock ≡ some (record { addr = addr; packet = p; attempt = 0 })
    pub written : u.written ≡ s.written ++ (p, addr) ∷ []

  pub acked-Sends :
      (s : TftpProtocol) (t t' : Transfer) (block : ℕ) (p : Bytes)
      → lookup addr s.transfers ≡ some t
      → Transfer.handle_ack block t ≡ (ok (some p, false), t')
      → Sends t' p s (handle_ack block addr s).1
  unfolding handle_ack after_ack send_and_arm_retransmit write
  acked-Sends s t t' block p at e =
      let c = cancel_retransmit addr s in
      let call : DelayedCall = record { addr = addr; packet = p; attempt = 0 } in
      rw (at, handle_ack, e, after_ack)
        (record {
          at = rw (lookup-insert addr addr t' c.transfers, eq_refl addr) refl;
          id = c.next_call;
          armed = rw (lookup-insert addr addr c.next_call c.retransmit_calls, eq_refl addr) refl;
          call = rw (lookup-insert c.next_call c.next_call call c.clock, eq_refl c.next_call) refl;
          written = ap (λ w. w ++ (p, addr) ∷ []) (sent_by_cancel addr s);
        })
