-- ===== src/Tftp/Server/Network/Rounds.antt =====
-- One round of a lossy download: what the client hears, and what its acknowledgement does.
use diskless.Base.{
  ℕ, zero, suc, ◌+◌, ◌-◌, ◌<◌, ◌≡◌, ◌≢◌, ◌⊎◌, refl, sym, ap, subst, ◌∙◌, true, false, none, some,
  arith, Bytes, ok, from_bytes, list_eq, nat_eq, pair_eq, ltb, length, inl, inr,
}
use diskless.Base.Dict.{lookup}
use diskless.Tftp.Packets.{data_packet}
use diskless.Tftp.Transfer
use diskless.Tftp.Transfer.{Transfer, init, chunk, advance, first_packet}
use diskless.Tftp.Transfer.Delivery.{advance-IsStarted}
use diskless.Tftp.Server.{Address, TftpProtocol, handle_ack, step, datagram}
use diskless.Tftp.Server.Trace.{over, step-ack, ack_packet, ack_packet_lem}
use diskless.Tftp.Server.Network.{packets, Legit, TransferSound, IsSound}
use diskless.Tftp.Server.Network.Sound.{step-IsSound}
use diskless.Tftp.Server.Network.Receiver.{Receiver, take_packet, take_packet-Has, Has}
use diskless.Tftp.Server.Network.Patience.{patient, All-last, heard_next}
use diskless.Tftp.Server.Network.Waiting.{newest, Waits, Sends, acked-Sends}

module _ (addr : Address) (payload : Bytes) (n : ℕ) where
  -- The client has the file, and the server is done with it.
  abbrev pub Finished : TftpProtocol × Receiver → Type 0
  Finished (s, r) = (lookup addr s.transfers ≡ none) × (r.finished ≡ true) × (r.file ≡ payload)

  -- Behind the end nothing changes.
  pub patient-gone :
      (losses : ℕ → ℕ) (f : ℕ) (s : TftpProtocol) (r : Receiver)
      → lookup addr s.transfers ≡ none
      → patient addr n losses f s r ≡ (s, r)
  unfolding patient
  patient-gone losses zero s r gone = refl
  patient-gone losses (suc f) s r gone = rw (gone, patient) refl

  pub size_of :
      (t : Transfer) (s : TftpProtocol)
      → lookup addr s.transfers ≡ some t
      → IsSound addr payload n s
      → t.block_size ≡ n
  size_of t s at h = (subst (TransferSound addr payload n) at h.transfer).1

  pub whole_file : (r : Receiver) → Has payload n r → r.finished ≡ true → r.file ≡ payload
  whole_file r (_, inl (going, _)) over = absurd (ground (arith, going, over))
  whole_file r (_, inr (_, file)) over = file

  -- The client hears the packet, and the server its acknowledgement.
  module _ (r : Receiver) (t : Transfer) (p : Bytes) (a : ℕ) (s : TftpProtocol)
      (w : Waits addr payload n r t p a s) where
    abbrev pub hears : Receiver
    hears = take_packet n p r

    abbrev pub after : TftpProtocol
    after = step (datagram (ack_packet (hears.expected - 1)) addr) s

    pub after_lem : after ≡ (handle_ack t.pending_block addr s).1
    after_lem =
        let b = t.pending_block in
        let own : hears.expected - 1 ≡ b = omega (arith, w.up.0) in
        let (is, same) = ack_packet_lem b w.fits.2 in
        ap (λ m. step (datagram (ack_packet m) addr) s) own
        ∙ step-ack addr (ack_packet b) s is
        ∙ ap (λ m. (handle_ack m addr s).1) same

    pub hears-Has : Has payload n hears
    unfolding from_bytes
    hears-Has =
        let legit = All-last (Legit payload n) (packets addr s.written) (inl refl) w.sound.sent in
        take_packet-Has payload n p r (subst (Legit payload n) w.latest legit) w.has

    pub last_round :
        Transfer.handle_ack t.pending_block t ≡ (ok (none, true), t)
        → t.pending_block ≢ 0
        → ltb (length (chunk t.pending_block t)) t.block_size ≡ true
        → Finished (after, hears)
    last_round e nz short =
        let finished : hears.finished ≡ true = finished_of w.up.1 in
        (
          rw after_lem (over addr s t t w.at t.pending_block e).0,
          finished,
          whole_file hears hears-Has finished,
        )
      where
        finished_of :
            ((t.pending_block ≡ 0) × (hears.finished ≡ false))
              ⊎ ((t.pending_block ≢ 0)
                  × (hears.finished ≡ ltb (length (chunk t.pending_block t)) t.block_size))
            → hears.finished ≡ true
        finished_of (inl (first, _)) = absurd (nz first)
        finished_of (inr (_, ended)) = ended ∙ short

    pub next_round :
        (p' : Bytes)
        → t.pending_block < 65535
        → Transfer.handle_ack t.pending_block t
          ≡ (ok (some p', false), advance (t.pending_block + 1) t)
        → data_packet (t.pending_block + 1) (chunk (t.pending_block + 1) t) ≡ ok p'
        → (t.pending_block ≡ 0) ⊎ (ltb (length (chunk t.pending_block t)) t.block_size ≡ false)
        → Waits addr payload n hears (advance (t.pending_block + 1) t) p' 0 after
    unfolding advance chunk
    next_round p' low e built why =
        let b = t.pending_block in
        let t' = advance (b + 1) t in
        let sends =
          subst (Sends addr payload n t' p' s) (sym after_lem)
            (acked-Sends addr payload n s t t' b p' w.at e) in
        let going : hears.finished ≡ false = going_of w.up.1 why in
        let size = size_of t s w.at w.sound in
        let (more, ended) = heard_next n (b + 1) (chunk (b + 1) t) p' hears built w.up.0 going in
        record {
          at = sends.at;
          id = sends.id;
          armed = sends.armed;
          call = sends.call;
          latest = newest addr payload n s after p' sends.written;
          fits = (advance-IsStarted (b + 1) t w.fits.0.positive, w.fits.1, omega arith);
          sound =
              step-IsSound addr payload n (datagram (ack_packet (hears.expected - 1)) addr) tt
                w.sound;
          up = (
            more,
            inr (λ z. omega (arith, z), ended ∙ ap (ltb (length (chunk (b + 1) t))) (sym size)),
          );
          has = hears-Has;
        }
      where
        going_of :
            ((t.pending_block ≡ 0) × (hears.finished ≡ false))
              ⊎ ((t.pending_block ≢ 0)
                  × (hears.finished ≡ ltb (length (chunk t.pending_block t)) t.block_size))
            → (t.pending_block ≡ 0) ⊎ (ltb (length (chunk t.pending_block t)) t.block_size ≡ false)
            → hears.finished ≡ false
        going_of (inl (_, going)) why = going
        going_of (inr (nz, ended)) (inl first) = absurd (nz first)
        going_of (inr (nz, ended)) (inr full) = ended ∙ full
