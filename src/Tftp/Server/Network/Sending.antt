-- ===== src/Tftp/Server/Network/Sending.antt =====
-- Writing, scheduling and cancelling keep what is sent to a client to the blocks of its file.
use diskless.Base.{
  ℕ, ◌≡◌, ◌⊎◌, refl, sym, subst, true, false, some, List, [], ◌∷◌, ◌++◌, arith, Bytes, ◌==◌,
  list_eq, nat_eq, pair_eq, All, All-append, inl, inr, Option-cases, Bool-cases, if◌then◌else◌,
}
use diskless.Base.Dict.{lookup, insert, erase, lookup-insert, lookup-erase}
use diskless.Tftp.Transfer.{Transfer}
use diskless.Tftp.Server.{
  Address, DelayedCall, TftpProtocol, write, send_and_arm_retransmit, cancel_retransmit,
}
use diskless.Tftp.Server.Network.{packets, Legit, TransferSound, PacketSound, CallSound, IsSound}

pub packets-append :
    (addr a : Address) (p : Bytes) (written : List (Bytes × Address))
    → packets addr (written ++ (p, a) ∷ [])
      ≡ packets addr written ++ (if addr == a then p ∷ [] else [])
packets-append addr a p [] = refl
packets-append addr a p ((q, b) ∷ written) = ground (arith, packets-append addr a p written)

-- What holds of a client's own, where the client is meant.
own {ℓ} : {P : Type ℓ} (addr a : Address) → ((addr == a) ≡ false) ⊎ P → (addr == a) ≡ true → P
own addr a (inl another) same = absurd (ground (arith, another, same))
own addr a (inr holds) same = holds

module _ (addr : Address) (payload : Bytes) (n : ℕ) where
  abbrev Sound : TftpProtocol → Type 0
  Sound s = IsSound addr payload n s

  pub write-IsSound :
      (a : Address) (p : Bytes) {s : TftpProtocol}
      → PacketSound addr payload n a p
      → Sound s
      → Sound (write p a s)
  unfolding write
  write-IsSound a p {s} ok_for h = record {
    transfer = h.transfer;
    calls = h.calls;
    sent =
        subst (All (Legit payload n)) (sym (packets-append addr a p s.written))
          (All-append (Legit payload n) (packets addr s.written) _ h.sent new);
  }
    where
      new : All (Legit payload n) (if addr == a then p ∷ [] else [])
      new = elim (Bool-cases (addr == a)) [
        | inl same ↦ rw same (own addr a ok_for same, tt)
        | inr another ↦ rw another tt
      ]

  pub send-IsSound :
      (a : Address) (p : Bytes) (attempt : ℕ) {s : TftpProtocol}
      → PacketSound addr payload n a p
      → Sound s
      → Sound (send_and_arm_retransmit a p attempt s)
  unfolding send_and_arm_retransmit
  send-IsSound a p attempt {s} ok_for h =
      let w = write-IsSound a p ok_for h in
      record {
        transfer = w.transfer;
        calls = λ id.
            let call : DelayedCall = record { addr = a; packet = p; attempt = attempt } in
            rw (lookup-insert id s.next_call call s.clock) (elim (Bool-cases (id == s.next_call)) [
              | inl now ↦ rw now ok_for
              | inr before ↦ rw before (h.calls id)
            ]);
        sent = w.sent;
      }

  pub erased_calls :
      (call : ℕ) {s : TftpProtocol}
      → Sound s
      → (id : ℕ) → CallSound addr payload n (lookup id (erase call s.clock))
  erased_calls call {s} h id =
      rw (lookup-erase id call s.clock) (elim (Bool-cases (id == call)) [
        | inl gone ↦ rw gone tt
        | inr other ↦ rw other (h.calls id)
      ])

  pub cancel-IsSound : (a : Address) {s : TftpProtocol} → Sound s → Sound (cancel_retransmit a s)
  unfolding cancel_retransmit
  cancel-IsSound a {s} h = elim (Option-cases (lookup a s.retransmit_calls)) [
    | inl unarmed ↦ rw (unarmed, cancel_retransmit) h
    | inr (call, armed) ↦
        rw (armed, cancel_retransmit)
          (record { transfer = h.transfer; calls = erased_calls call h; sent = h.sent })
  ]

  pub insert-IsSound :
      (a : Address) (t : Transfer) {s : TftpProtocol}
      → ((addr == a) ≡ false) ⊎ TransferSound addr payload n (some t)
      → Sound s
      → Sound (record s { transfers = insert a t s.transfers })
  insert-IsSound a t {s} ok_for h = record {
    transfer = rw (lookup-insert addr a t s.transfers) (elim (Bool-cases (addr == a)) [
      | inl same ↦ rw same (own addr a ok_for same)
      | inr another ↦ rw another h.transfer
    ]);
    calls = h.calls;
    sent = h.sent;
  }

  pub erase-IsSound :
      (a : Address) {s : TftpProtocol}
      → Sound s
      → Sound (record s { transfers = erase a s.transfers })
  erase-IsSound a {s} h = record {
    transfer = rw (lookup-erase addr a s.transfers) (elim (Bool-cases (addr == a)) [
      | inl same ↦ rw same tt
      | inr another ↦ rw another h.transfer
    ]);
    calls = h.calls;
    sent = h.sent;
  }
