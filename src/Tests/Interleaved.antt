-- ===== src/Tests/Interleaved.antt =====
-- Two clients of the TFTP server at a time.
use diskless.Base.{
  ℕ, false, ◌≡◌, ◌≢◌, from_bytes, to_bytes, refl, some, [], ◌∷◌, ◌++◌, arith, codes, ok, list_eq,
  nat_eq, pair_eq,
}
use diskless.Base.Dict.{lookup, insert, erase}
use diskless.Tftp.Packets.{negotiate_block_size, opcode_ack, error_packet, data_packet}
use diskless.Tftp.Transfer.{Transfer, init, first_packet, handle_ack, chunk}
use diskless.Tftp.Server.{Address, Event, Job, TftpProtocol, step, datagram, resolved}
use diskless.Tftp.Server.Isolation.{received, IsOther}
use diskless.Tftp.Server.Trace.{Trace, left, stop, other, stale}
use diskless.Tftp.Server.Interleaved.{Completes, interleaved}

abbrev client : Address
client = (codes "10.0.0.1", 2000)

abbrev rival : Address
rival = (codes "10.0.0.2", 2000)

abbrev job : Job
job = record { filename = codes "f"; addr = client; options = [] }

abbrev asked : TftpProtocol
asked = record {
  transfers = [];
  retransmit_calls = [];
  clock = [];
  next_call = 0;
  jobs = job ∷ [];
  written = [];
}

abbrev ack : ℕ → Event
ack n = datagram (0 ∷ opcode_ack ∷ 0 ∷ n ∷ []) client

abbrev begun : TftpProtocol
begun = step (resolved (ok (codes "ABC"))) asked

-- The other client asks for a file to write, and the client repeats an old acknowledgement.
abbrev refused : TftpProtocol
refused = step (datagram (0 ∷ 2 ∷ []) rival) begun

abbrev repeated : TftpProtocol
repeated = step (ack 0) refused

abbrev transfer : Transfer
transfer = (first_packet (init (codes "ABC") 512 false)).1

another : IsOther client (datagram (0 ∷ 2 ∷ []) rival) begun
unfolding pair_eq list_eq nat_eq
another = refl

waits_for_one : 0 ≢ transfer.pending_block
unfolding first_packet init
waits_for_one = omega arith

still_there : lookup client refused.transfers ≡ some transfer
unfolding step lookup from_bytes error_packet to_bytes negotiate_block_size first_packet init
    data_packet insert pair_eq list_eq nat_eq handle_ack chunk erase
still_there = refl

trace : Trace client begun repeated
unfolding from_bytes
trace =
    other (datagram (0 ∷ 2 ∷ []) rival) another
      (stale (0 ∷ opcode_ack ∷ 0 ∷ 0 ∷ []) transfer refl still_there waits_for_one stop)

default_size : negotiate_block_size job.options ≡ ok 512
unfolding negotiate_block_size lookup
default_size = refl

interleaved_example :
    (received client repeated.written ++ left (lookup client repeated.transfers)
      ≡ received client asked.written ++ codes "ABC")
    × Completes client (received client asked.written ++ codes "ABC") repeated
interleaved_example =
    interleaved job [] (codes "ABC") 512 asked repeated refl default_size (omega arith)
      (omega arith) trace
