-- ===== src/Tftp/Server/Network/Receiver.antt =====
-- A client that takes the blocks in the order of their numbers, on a network that loses, repeats and
-- reorders packets.
use diskless.Base.{
  ℕ, ◌+◌, ◌-◌, ◌*◌, ◌<◌, ◌≡◌, ◌⊎◌, refl, sym, ap, subst, ◌∙◌, Bool, true, false, not, ◌&&◌, List,
  [], ◌∷◌, ◌++◌, arith, Bytes, ok, list_eq, nat_eq, pair_eq, eqb, eqb→eq, ltb, ltb→lt, take, drop,
  length, contains, All, All-contains, inl, inr, Bool-cases, if◌then◌else◌, take-add,
  take_of_length-le, length-take, length-drop,
}
use diskless.Tftp.Packets.{negotiate_block_size}
use diskless.Tftp.Transfer.Delivery.{step_back}
use diskless.Tftp.Server.{Job, TftpProtocol, Event, step, resolved}
use diskless.Tftp.Server.Network.{
  packets, is_data, number, block_of, Legit, IsOneTransfer, IsFresh, run,
}
use diskless.Tftp.Server.Network.Starting.{start-IsSound, run-IsSound}

-- A client: the number of the block that it waits for, what it has of the file, and whether it has had
-- the last block, which is a short one.
pub record Receiver : Type 0 where
  pub expected : ℕ
  pub file : Bytes
  pub finished : Bool

abbrev pub waiting : Receiver
waiting = record { expected = 1; file = []; finished = false }

-- The packet is the one that the client waits for.
abbrev pub takes : Bytes → Receiver → Bool
takes p r = not r.finished && is_data p && eqb (number p) r.expected

abbrev pub taken : ℕ → Bytes → Receiver → Receiver
taken n p r = record {
  expected = r.expected + 1;
  file = r.file ++ drop 4 p;
  finished = ltb (length (drop 4 p)) n;
}

unfoldable pub take_packet : ℕ → Bytes → Receiver → Receiver
take_packet n p r = if takes p r then taken n p r else r

-- The packets in the order that they arrive.
unfoldable pub receive : ℕ → List Bytes → Receiver → Receiver
unfolding take_packet
receive n [] r = r
receive n (p ∷ arrived) r = receive n arrived (take_packet n p r)

-- The file up to a block, or all of it behind the last one.
abbrev pub Has : Bytes → ℕ → Receiver → Type 0
Has payload n r =
    (0 < r.expected)
    × (((r.finished ≡ false) × (r.file ≡ take ((r.expected - 1) * n) payload))
        ⊎ ((r.finished ≡ true) × (r.file ≡ payload)))

next_start : (e n : ℕ) → 0 < e → (e - 1) * n + n ≡ e * n
next_start e n pos = step_back e n (λ zeroth. omega (arith, zeroth, pos))

take-block_of :
    (e n : ℕ) (payload : Bytes)
    → 0 < e
    → take ((e - 1) * n) payload ++ block_of payload n e ≡ take (e * n) payload
take-block_of e n payload pos =
    let start = (e - 1) * n in
    let width : start + n - start ≡ n = omega arith in
    rw width (take-add start n payload ∙ ap (λ k. take k payload) (next_start e n pos))

short_last :
    (e n : ℕ) (payload : Bytes)
    → 0 < e
    → length (block_of payload n e) < n
    → take (e * n) payload ≡ payload
short_last e n payload pos short =
    let start = (e - 1) * n in
    take_of_length-le (e * n) payload (
      omega (
        arith,
        length-take (start + n - start) (drop start payload),
        length-drop start payload,
        next_start e n pos,
      ))

module _ (payload : Bytes) (n : ℕ) where
  -- A block that the client waits for.
  taken-Has :
      (p : Bytes) (r : Receiver)
      → 0 < r.expected
      → r.file ≡ take ((r.expected - 1) * n) payload
      → drop 4 p ≡ block_of payload n r.expected
      → Has payload n (taken n p r)
  taken-Has p r pos so_far block =
      let e = r.expected in
      let here : r.file ++ drop 4 p ≡ take (e * n) payload =
        rw (so_far, block) (take-block_of e n payload pos) in
      let back : e + 1 - 1 ≡ e = omega arith in
      (
        omega arith,
        elim (Bool-cases (ltb (length (drop 4 p)) n)) [
          | inl short ↦ inr (
            short,
            here
                ∙ short_last e n payload pos
                    (subst (λ c. length c < n) block (ltb→lt (length (drop 4 p)) n short)),
          )
          | inr full ↦ inl (full, rw back here)
        ],
      )

  -- A packet with the number that the client waits for.
  expected_block :
      (p : Bytes) (b : ℕ)
      → is_data p ≡ true
      → eqb (number p) b ≡ true
      → Legit payload n p
      → drop 4 p ≡ block_of payload n b
  expected_block p b holds awaited (inl no_data) = absurd (ground (arith, holds, no_data))
  expected_block p b holds awaited (inr block) =
      block ∙ ap (block_of payload n) (eqb→eq (number p) b awaited)

  pub take_packet-Has :
      (p : Bytes) (r : Receiver)
      → Legit payload n p
      → Has payload n r
      → Has payload n (take_packet n p r)
  unfolding take_packet
  take_packet-Has p r legit (pos, has) = elim (Bool-cases (takes p r)) [
    | inr skip ↦
        let e : take_packet n p r ≡ r = rw (skip, take_packet) refl in
        subst (Has payload n) (sym e) (pos, has)
    | inl wanted ↦
        let e : take_packet n p r ≡ taken n p r = rw (wanted, take_packet) refl in
        let block =
          expected_block p r.expected (ground (arith, wanted)) (ground (arith, wanted)) legit in
        subst (Has payload n) (sym e)
          (taken-Has p r pos (so_far has (ground (arith, wanted))) block)
  ]
    where
      so_far :
          (((r.finished ≡ false) × (r.file ≡ take ((r.expected - 1) * n) payload))
            ⊎ ((r.finished ≡ true) × (r.file ≡ payload)))
          → r.finished ≡ false
          → r.file ≡ take ((r.expected - 1) * n) payload
      so_far (inl (going, file)) open_yet = file
      so_far (inr (over, file)) open_yet = absurd (ground (arith, over, open_yet))

  pub waiting-Has : Has payload n waiting
  waiting-Has =
      let none_yet : 0 * n ≡ 0 = grind arith in (omega arith, inl (refl, rw none_yet refl))

  pub legit-Has :
      (arrived : List Bytes) (r : Receiver)
      → All (Legit payload n) arrived
      → Has payload n r
      → Has payload n (receive n arrived r)
  unfolding receive
  legit-Has [] r legit h = h
  legit-Has (p ∷ arrived) r legit h =
      legit-Has arrived (take_packet n p r) legit.1 (take_packet-Has p r legit.0 h)

-- The packets that arrive are ones that were sent.
All-sent {κ} :
    (P : Bytes → Type κ) (sent arrived : List Bytes)
    → All P sent
    → All (λ p. contains sent p ≡ true) arrived
    → All P arrived
All-sent P sent [] legit were_sent = tt
All-sent P sent (p ∷ arrived) legit were_sent =
    (All-contains P sent p legit were_sent.0, All-sent P sent arrived legit were_sent.1)

-- When the request of a client to whom nothing was sent before was the oldest: after any events (of
-- other clients, datagrams of the client itself, timeouts) but the start of another transfer for the
-- client, and whatever packets to the client arrive, in any order and any number of times, of those
-- that were written to it: a client that takes the blocks in the order of their numbers has exactly
-- the blocks of the file before the one that it waits for, and, where it has had a short block, the file.
pub arrivals :
    (j : Job) (js : List Job) (payload : Bytes) (n : ℕ) (s : TftpProtocol) (events : List Event)
    (arrived : List Bytes)
    → s.jobs ≡ j ∷ js
    → negotiate_block_size j.options ≡ ok n
    → IsFresh j.addr s
    → IsOneTransfer j.addr events (step (resolved (ok payload)) s)
    → All
        (λ p.
          contains (packets j.addr (run events (step (resolved (ok payload)) s)).written) p ≡ true)
        arrived
    → (((receive n arrived waiting).finished ≡ false)
        × ((receive n arrived waiting).file
            ≡ take (((receive n arrived waiting).expected - 1) * n) payload))
      ⊎ (((receive n arrived waiting).finished ≡ true)
          × ((receive n arrived waiting).file ≡ payload))
arrivals j js payload n s events arrived queue size fresh one were_sent =
    let start = start-IsSound j.addr payload n j js refl queue size fresh in
    let here = run-IsSound j.addr payload n events one start in
    let sent = packets j.addr (run events (step (resolved (ok payload)) s)).written in
    (legit-Has payload n arrived waiting
      (All-sent (Legit payload n) sent arrived here.sent were_sent) (waiting-Has payload n)).1
