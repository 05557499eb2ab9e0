-- ===== src/Tests/Tftp.antt =====
-- Transfers and retransmissions on concrete files and clients.
use diskless.Base.{
  ℕ, ◌*◌, ◌≡◌, ◌≢◌, ◌≤◌, ◌<◌, refl, false, none, some, [], ◌∷◌, arith, Text, codes, ok, raise,
  overflow_error, list_eq, nat_eq, pair_eq, length, replicate, length-replicate, int,
}
use diskless.Base.Dict.{Dict, lookup}
use diskless.Tftp.Packets.{max_block_size, negotiate_block_size, negotiate_block_size_bounds}
use diskless.Tftp.Transfer.{Transfer, init, advance, handle_ack}
use diskless.Tftp.Transfer.Delivery.{advance-IsStarted, handle_ack_stuck}
use diskless.Tftp.Server
use diskless.Tftp.Server.{
  Address, DelayedCall, TftpProtocol, Event, step, datagram_received, datagram, resolved, due,
}
use diskless.Tftp.Server.Retransmit.{stale_ack_disarms}

-- 65535 blocks of one byte, all sent.
abbrev unsent : Transfer
unsent = init (replicate 65535 7) 1 false

abbrev all_sent : Transfer
all_sent = advance 65535 unsent

fields : (all_sent.pending_block ≡ 65535) × (65535 * all_sent.block_size ≤ length all_sent.payload)
unfolding advance init
fields = (refl, omega (arith, length-replicate {A = ℕ} 65535 7))

one_byte : 0 < unsent.block_size
unfolding init
one_byte = omega arith

handle_ack_stuck_example :
    ((handle_ack 65535 all_sent).0 ≡ raise overflow_error)
    × (handle_ack 65535 (handle_ack 65535 all_sent).1
        ≡ (ok (none, false), (handle_ack 65535 all_sent).1))
handle_ack_stuck_example =
    handle_ack_stuck all_sent 65535 (advance-IsStarted 65535 unsent one_byte) fields.0 fields.1
      (omega arith)

abbrev client : Address
client = (codes "10.0.0.1", 2000)

abbrev transfer : Transfer
transfer = init (codes "ABC") 8 false

-- The first packet is out for the attempt `n`.
abbrev waiting : ℕ → TftpProtocol
waiting n = record {
  transfers = (client, transfer) ∷ [];
  retransmit_calls = (client, 0) ∷ [];
  clock = (0, record { addr = client; packet = codes "p"; attempt = n }) ∷ [];
  next_call = 1;
  jobs = [];
  written = [];
}

client_here :
    (n : ℕ)
    → (lookup client (waiting n).transfers ≡ some transfer)
      × (lookup client (waiting n).retransmit_calls ≡ some 0)
unfolding lookup pair_eq list_eq nat_eq
client_here n = (refl, refl)

other_block : 0 ≢ transfer.pending_block
unfolding init
other_block = omega arith

stale_ack_disarms_example :
    ((Server.handle_ack 0 client (waiting 0)).1.written ≡ (waiting 0).written)
    × (lookup client (Server.handle_ack 0 client (waiting 0)).1.transfers ≡ some transfer)
    × (lookup client (Server.handle_ack 0 client (waiting 0)).1.retransmit_calls ≡ none)
    × (lookup 0 (Server.handle_ack 0 client (waiting 0)).1.clock ≡ none)
stale_ack_disarms_example =
    stale_ack_disarms 0 0 client transfer (waiting 0) (client_here 0).0 (client_here 0).1
      other_block

abbrev requested : Dict Text Text
requested = (codes "blksize", codes "9000") ∷ []

negotiated : negotiate_block_size requested ≡ ok 1468
unfolding negotiate_block_size lookup int list_eq nat_eq
negotiated = refl

negotiate_block_size_bounds_example : (8 ≤ 1468) × (1468 ≤ max_block_size)
negotiate_block_size_bounds_example = negotiate_block_size_bounds requested negotiated
