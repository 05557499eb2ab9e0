-- ===== src/Tftp/Server/Network/Lossy.antt =====
-- A lossy download from its start to its end.
use diskless.Base.{
  ℕ, zero, suc, ◌+◌, ◌*◌, ◌<◌, ◌≤◌, ◌≡◌, refl, sym, subst, true, false, none, some, List, [], ◌∷◌,
  arith, Bytes, Text, ok, eq_refl, list_eq, nat_eq, pair_eq, length, inl, inr,
}
use diskless.Base.Dict.{Dict, lookup, insert, lookup-insert}
use diskless.Tftp.Packets.{max_retransmits, negotiate_block_size}
use diskless.Tftp.Transfer.{Transfer, init, chunk, advance, first_packet}
use diskless.Tftp.Transfer.Delivery.{init-IsStarted, data_packet_lem}
use diskless.Tftp.Server.{
  Address, DelayedCall, Job, TftpProtocol, write, send_and_arm_retransmit, step, finish_job,
  start_transfer, begin_transfer, arm_first, resolved,
}
use diskless.Tftp.Server.Trace.{Fits}
use diskless.Tftp.Server.Network.{IsSound, IsFresh}
use diskless.Tftp.Server.Network.Starting.{start-IsSound, oack_no_data}
use diskless.Tftp.Server.Network.Receiver.{Receiver, waiting, take_packet, waiting-Has}
use diskless.Tftp.Server.Network.Patience.{
  lose, patient, next, HeardUp, unheard, oack_built, heard_next,
}
use diskless.Tftp.Server.Network.Waiting.{newest, Waits, lose-Waits}
use diskless.Tftp.Server.Network.Rounds.{Finished, patient-gone, after, last_round, next_round}

module _ (addr : Address) (payload : Bytes) (n : ℕ) where
  module _ (losses : ℕ → ℕ) (few_lost : (f : ℕ) → losses f < max_retransmits) where
    patient-Finished :
        (f : ℕ) (r : Receiver) (t : Transfer) (p : Bytes) (s : TftpProtocol)
        → Waits addr payload n r t p 0 s
        → 65536 ≤ t.pending_block + f
        → Finished addr payload n (patient addr n losses f s r)
    unfolding patient advance
    patient-Finished zero r t p s w e = absurd (omega (arith, w.fits))
    patient-Finished (suc f) r t p s w e =
        let (a, v) = lose-Waits addr payload n (losses f) r t p 0 s w (omega (arith, few_lost f)) in
        let s' = lose addr (losses f) s in
        elim (next t w.fits.0 w.fits.1) [
          | inl (ends, nz, short) ↦
              let done = last_round addr payload n r t p a s' v ends nz short in
              rw
                (
                  w.at,
                  patient,
                  v.latest,
                  patient-gone addr payload n losses f (after addr payload n r t p a s' v)
                      (take_packet n p r) done.0,
                )
                done
          | inr (p', low, goes_on, built, why) ↦
              rw (w.at, patient, v.latest)
                (patient-Finished f (take_packet n p r) (advance (t.pending_block + 1) t) p'
                  (after addr payload n r t p a s' v)
                  (next_round addr payload n r t p a s' v p' low goes_on built why) (omega arith))
        ]

  send-Waits :
      (t : Transfer) (p : Bytes) (s : TftpProtocol)
      → lookup addr s.transfers ≡ some t
      → Fits (some t)
      → HeardUp t (take_packet n p waiting)
      → IsSound addr payload n (send_and_arm_retransmit addr p 0 s)
      → Waits addr payload n waiting t p 0 (send_and_arm_retransmit addr p 0 s)
  unfolding send_and_arm_retransmit write
  send-Waits t p s at fits up sound =
      let call : DelayedCall = record { addr = addr; packet = p; attempt = 0 } in
      record {
        at = at;
        id = s.next_call;
        armed = rw (lookup-insert addr addr s.next_call s.retransmit_calls, eq_refl addr) refl;
        call = rw (lookup-insert s.next_call s.next_call call s.clock, eq_refl s.next_call) refl;
        latest = newest addr payload n s (send_and_arm_retransmit addr p 0 s) p refl;
        fits = fits;
        sound = sound;
        up = up;
        has = waiting-Has payload n;
      }

  record Starts (u : TftpProtocol) : Type 0 where
    transfer : Transfer
    packet : Bytes
    waits : Waits addr payload n waiting transfer packet 0 u

  -- The start of a transfer.
  module _ (pos : 0 < n) (few : length payload < 65535 * n) (s : TftpProtocol) where
    entered : (t : Transfer) → lookup addr (insert addr t s.transfers) ≡ some t
    entered t = rw (lookup-insert addr addr t s.transfers, eq_refl addr) refl

    begin-Starts :
        (options : Dict Text Text)
        → IsSound addr payload n (begin_transfer (ok n) payload addr options s).1
        → Starts (begin_transfer (ok n) payload addr options s).1
    unfolding begin_transfer arm_first first_packet init insert chunk
    begin-Starts [] sound =
        let t = init payload n false in
        let t' = (first_packet t).1 in
        let s' : TftpProtocol = record s { transfers = insert addr t' s.transfers } in
        let (p, built, _, _) = data_packet_lem 1 (chunk 1 t) (omega arith) in
        let e : (begin_transfer (ok n) payload addr [] s).1 ≡ send_and_arm_retransmit addr p 0 s' =
          rw built refl in
        let (more, ended) = heard_next n 1 (chunk 1 t) p waiting built refl refl in
        subst Starts (sym e) (record {
          transfer = t';
          packet = p;
          waits =
              send-Waits t' p s' (entered t') (init-IsStarted payload n false pos, few, omega arith)
                (more, inr (λ z. omega (arith, z), ended)) (subst (IsSound addr payload n) e sound);
        })
    begin-Starts (o ∷ options) sound =
        let t = init payload n true in
        let s' : TftpProtocol = record s { transfers = insert addr t s.transfers } in
        let (p, built) = oack_built n in
        let e : (begin_transfer (ok n) payload addr (o ∷ options) s).1
            ≡ send_and_arm_retransmit addr p 0 s' =
          rw built refl in
        subst Starts (sym e) (record {
          transfer = t;
          packet = p;
          waits =
              send-Waits t p s' (entered t) (init-IsStarted payload n true pos, few, omega arith)
                (subst (HeardUp t) (sym (unheard n p waiting (oack_no_data n p built)))
                  (refl, inl (refl, refl)))
                (subst (IsSound addr payload n) e sound);
        })

-- When the request of a client to whom nothing was sent before was the oldest, for a file of fewer than
-- 65535 full blocks, and where each packet or its acknowledgement is lost less often in succession
-- than `MAX_RETRANSMITS`: a client that takes the blocks by their numbers and acknowledges what it has
-- ends with exactly the file, and the server ends the transfer.
pub patient_lem :
    (j : Job) (js : List Job) (payload : Bytes) (n : ℕ) (losses : ℕ → ℕ) (s : TftpProtocol)
    → s.jobs ≡ j ∷ js
    → negotiate_block_size j.options ≡ ok n
    → 0 < n
    → length payload < 65535 * n
    → IsFresh j.addr s
    → ((f : ℕ) → losses f < max_retransmits)
    → (lookup j.addr
          (patient j.addr n losses 65536 (step (resolved (ok payload)) s) waiting).0.transfers
        ≡ none)
      × ((patient j.addr n losses 65536 (step (resolved (ok payload)) s) waiting).1.finished ≡ true)
      × ((patient j.addr n losses 65536 (step (resolved (ok payload)) s) waiting).1.file ≡ payload)
unfolding step finish_job start_transfer
patient_lem j js payload n losses s queue size pos few fresh few_lost =
    let s' : TftpProtocol = record s { jobs = js } in
    let e : (begin_transfer (ok n) payload j.addr j.options s').1 ≡ step (resolved (ok payload)) s =
      rw (queue, finish_job, size) refl in
    let sound = start-IsSound j.addr payload n j js refl queue size fresh in
    let start =
      begin-Starts j.addr payload n pos few s' j.options
        (subst (IsSound j.addr payload n) (sym e) sound) in
    rw (← e) (
      patient-Finished j.addr payload n losses few_lost 65536 waiting start.transfer start.packet
        (begin_transfer (ok n) payload j.addr j.options s').1 start.waits (omega arith))
