-- ===== src/Tftp/Transfer/Rounds.antt =====
-- One round of a transfer: the acknowledgement of the block that it waits for.
use diskless.Base.{
  ◌+◌, ◌*◌, ◌<◌, ◌≡◌, ◌≢◌, ◌⊎◌, sym, ap, ◌∙◌, true, false, none, some, [], ◌++◌, arith, Bytes, ok,
  eqb, ltb, ltb→lt, eqb→eq, length, drop, nat_eq, drop_of_length-le, inl, inr, Bool-cases,
}
use diskless.Base.Dict.{lookup}
use diskless.Tftp.Transfer.{Transfer, chunk, advance, handle_ack}
use diskless.Tftp.Transfer.Delivery.{
  IsStarted, offset, missing, short_ends, full_continues, body, data_packet_lem, chunk-next,
  below_blocks,
}

-- The transfer is over and nothing is missing, or the next block goes out and the rest is missing.
abbrev pub Round : Transfer → Type 0
Round t =
    ((handle_ack t.pending_block t ≡ (ok (none, true), t)) × (missing t ≡ []))
    ⊎ ((p : Bytes) × (t.pending_block < 65535)
        × (handle_ack t.pending_block t ≡ (ok (some p, false), advance (t.pending_block + 1) t))
        × (missing t ≡ body p ++ missing (advance (t.pending_block + 1) t)))

module _ (t : Transfer) (s : IsStarted t) (few : length t.payload < 65535 * t.block_size) where
  Round-over :
      t.pending_block ≢ 0 → ltb (length (chunk t.pending_block t)) t.block_size ≡ true → Round t
  unfolding handle_ack
  Round-over nz short = inl (
    ground (arith, s.sent nz),
    drop_of_length-le (offset t) t.payload (short_ends t nz (ltb→lt _ _ short)),
  )

  Round-on :
      ((t.pending_block ≡ 0)
        ⊎ ((lookup t.pending_block t.sent_chunks ≡ some (chunk t.pending_block t))
            × (ltb (length (chunk t.pending_block t)) t.block_size ≡ false)))
      → t.pending_block < 65535
      → Round t
  unfolding handle_ack advance
  Round-on goes_on low =
      let b = t.pending_block in
      let (p, built, _, tail) = data_packet_lem (b + 1) (chunk (b + 1) t) (omega arith) in
      inr (
        p,
        low,
        ground (arith, built),
        sym (chunk-next b t) ∙ ap (λ c. c ++ drop ((b + 1) * t.block_size) t.payload) (sym tail),
      )

  pub rounds : Round t
  rounds =
      let b = t.pending_block in
      elim (Bool-cases (eqb b 0)) [
        | inl first ↦ Round-on (inl (eqb→eq b 0 first)) (ground arith)
        | inr later ↦
            let nz : b ≢ 0 = ground arith in
            elim (Bool-cases (ltb (length (chunk b t)) t.block_size)) [
              | inl short ↦ Round-over nz short
              | inr full ↦
                  let more = full_continues t nz s.positive full in
                  Round-on (inr (s.sent nz, full)) (below_blocks b 65535 t.block_size (omega arith))
            ]
      ]
