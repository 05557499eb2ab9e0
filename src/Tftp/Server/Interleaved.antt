-- ===== src/Tftp/Server/Interleaved.antt =====
-- A download while other clients' events come in between.
use mathlib.Core.List.{append-nil, append_assoc}
use diskless.Base.{
  ℕ, ◌*◌, ◌<◌, ◌≡◌, refl, sym, ap, subst, Text, ◌∙◌, true, false, none, [], ◌∷◌, ◌++◌, arith, Bytes,
  codes, decimal, List, ok, eq_refl, list_eq, nat_eq, pair_eq, length, from_bytes, to_bytes,
  big_endian,
}
use diskless.Base.Dict.{Dict, lookup, lookup-insert}
use diskless.Tftp.Packets.{oack_packet, negotiate_block_size}
use diskless.Tftp.Transfer.{init, chunk, first_packet}
use diskless.Tftp.Transfer.Delivery.{
  missing, body, init-IsStarted, whole, chunk-next, data_packet_lem,
}
use diskless.Tftp.Server.{
  Address, TftpProtocol, write, send_and_arm_retransmit, step, resolved, begin_transfer, arm_first,
  Job, finish_job, start_transfer,
}
use diskless.Tftp.Server.Isolation.{received, received-append}
use diskless.Tftp.Server.Trace.{Trace, left, Fits, Trace-Conserves, Fits-Ends}

-- The acknowledgement of the options has no data.
oack_no_data :
    (n : ℕ) → (p : Bytes) × (oack_packet ((codes "blksize", decimal n) ∷ []) ≡ ok p) × (body p ≡ [])
unfolding oack_packet body to_bytes big_endian from_bytes
oack_no_data n = (_, refl, refl)

-- The start of a transfer, for a file of `payload` in blocks of `n`.
module _ (addr : Address) (payload : Bytes) (n : ℕ) (pos : 0 < n)
    (few : length payload < 65535 * n) where
  record Begins (s u : TftpProtocol) : Type 0 where
    sum :
        received addr u.written ++ left (lookup addr u.transfers)
        ≡ received addr s.written ++ payload
    fits : Fits (lookup addr u.transfers)

  begin_lem :
      (options : Dict Text Text) (s : TftpProtocol)
      → Begins s (begin_transfer (ok n) payload addr options s).1
  unfolding begin_transfer arm_first first_packet init send_and_arm_retransmit write
  begin_lem [] s =
      let t = init payload n false in
      let t' = (first_packet t).1 in
      let (p, built, _, tail) = data_packet_lem 1 (chunk 1 t) (omega arith) in
      let now = lookup-insert addr addr t' s.transfers in
      record {
        sum =
            rw (built, now, eq_refl addr, received-append addr addr p s.written, eq_refl addr, tail)
              (append_assoc (received addr s.written) (chunk 1 t) (missing t')
                ∙ ap (λ c. received addr s.written ++ c) (chunk-next 0 t ∙ whole payload n));
        fits = rw (built, now, eq_refl addr) (init-IsStarted payload n false pos, few, omega arith);
      }
  begin_lem (o ∷ options) s =
      let t = init payload n true in
      let now = lookup-insert addr addr t s.transfers in
      let (p, built, nothing) = oack_no_data n in
      record {
        sum =
            rw
              (
                built,
                now,
                eq_refl addr,
                received-append addr addr p s.written,
                eq_refl addr,
                nothing,
              )
              (ap (λ c. c ++ missing t) (append-nil (received addr s.written))
                ∙ ap (λ c. received addr s.written ++ c) (whole payload n));
        fits = rw (built, now, eq_refl addr) (init-IsStarted payload n true pos, few, omega arith);
      }

-- A way to an end of the transfer at which the client has been sent `all`.
pub record Completes (addr : Address) (all : Bytes) (u : TftpProtocol) : Type 0 where
  pub end : TftpProtocol
  pub trace : Trace addr u end
  pub gone : lookup addr end.transfers ≡ none
  pub sent : received addr end.written ≡ all

-- For a negotiated block size that is not zero and a file of fewer than 65535 full blocks, when the
-- request of a client was the oldest and its file is there: after any events of other clients and
-- acknowledgements by the client of the pending block or another one, what the server has written to the
-- client in data packets, with what its transfer still misses, is the file, in order and once;
-- and the client can go on to an end of its transfer, where it has been sent exactly the file.
pub interleaved :
    (j : Job) (js : List Job) (payload : Bytes) (n : ℕ) (s u : TftpProtocol)
    → s.jobs ≡ j ∷ js
    → negotiate_block_size j.options ≡ ok n
    → 0 < n
    → length payload < 65535 * n
    → Trace j.addr (step (resolved (ok payload)) s) u
    → (received j.addr u.written ++ left (lookup j.addr u.transfers)
        ≡ received j.addr s.written ++ payload)
      × Completes j.addr (received j.addr s.written ++ payload) u
unfolding step finish_job start_transfer
interleaved j js payload n s u queue size pos few trace =
    let s' : TftpProtocol = record s { jobs = js } in
    let first = begin_lem j.addr payload n pos few j.options s' in
    let e : (begin_transfer (ok n) payload j.addr j.options s').1 ≡ step (resolved (ok payload)) s =
      rw (queue, finish_job, size) refl in
    let start = subst (λ v. Begins j.addr payload n pos few s' v) e first in
    let here = Trace-Conserves j.addr trace start.fits in
    let ends = Fits-Ends j.addr u here.fits in
    let there = Trace-Conserves j.addr ends.trace here.fits in
    let sum = here.sum ∙ start.sum in
    (
      sum,
      record {
        end = ends.end;
        trace = ends.trace;
        gone = ends.gone;
        sent =
            sym (append-nil (received j.addr ends.end.written)) ∙ rw ends.gone at there.sum ∙ sum;
      },
    )
