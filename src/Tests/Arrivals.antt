-- ===== src/Tests/Arrivals.antt =====
-- A file in two blocks to a client on a network that repeats and reorders.
use diskless.Base.{
  arith, none, ℕ, ◌-◌, ◌*◌, true, false, ◌≡◌, ◌⊎◌, refl, List, [], ◌∷◌, codes, ok, list_eq, nat_eq,
  pair_eq, contains, take, Bytes, from_bytes, to_bytes, big_endian, All, int,
}
use diskless.Base.Dict.{lookup, insert, erase}
use diskless.Tftp.Packets.{negotiate_block_size, opcode_ack, data_packet, oack_packet}
use diskless.Tftp.Transfer.{init, first_packet, chunk, handle_ack}
use diskless.Tftp.Server.{Address, Event, Job, TftpProtocol, step, datagram, resolved, due}
use diskless.Tftp.Server.Network.{packets, IsFresh, run}
use diskless.Tftp.Server.Network.Patience.{patient}
use diskless.Tftp.Server.Network.Lossy.{patient_lem}
use diskless.Tftp.Server.Network.Receiver.{receive, waiting, arrivals}

abbrev client : Address
client = (codes "10.0.0.1", 2000)

abbrev job : Job
job = record { filename = codes "f"; addr = client; options = (codes "blksize", codes "8") ∷ [] }

abbrev asked : TftpProtocol
asked = record {
  transfers = [];
  retransmit_calls = [];
  clock = [];
  next_call = 0;
  jobs = job ∷ [];
  written = [];
}

abbrev file : Bytes
file = codes "ABCDEFGHIJ"

abbrev ack : ℕ → Event
ack n = datagram (0 ∷ opcode_ack ∷ 0 ∷ n ∷ []) client

-- The first block is sent twice, the second one once.
abbrev events : List Event
events = ack 0 ∷ due 1 ∷ ack 1 ∷ []

abbrev first : Bytes
first = 0 ∷ 3 ∷ 0 ∷ 1 ∷ codes "ABCDEFGH"

abbrev second : Bytes
second = 0 ∷ 3 ∷ 0 ∷ 2 ∷ codes "IJ"

abbrev arrived : List Bytes
arrived = second ∷ first ∷ first ∷ second ∷ []

size : negotiate_block_size job.options ≡ ok 8
unfolding negotiate_block_size lookup int list_eq nat_eq
size = refl

fresh : IsFresh client asked
unfolding lookup
fresh = record { calls = λ id. tt; sent = refl }

were_sent :
    All
      (λ p.
        contains (packets client (run events (step (resolved (ok file)) asked)).written) p ≡ true)
      arrived
unfolding step lookup from_bytes to_bytes big_endian negotiate_block_size first_packet init
    data_packet oack_packet insert erase pair_eq list_eq nat_eq handle_ack chunk contains int
were_sent = (refl, (refl, (refl, (refl, tt))))

arrivals_example :
    (((receive 8 arrived waiting).finished ≡ false)
      × ((receive 8 arrived waiting).file
          ≡ take (((receive 8 arrived waiting).expected - 1) * 8) file))
    ⊎ (((receive 8 arrived waiting).finished ≡ true) × ((receive 8 arrived waiting).file ≡ file))
arrivals_example =
    arrivals job [] file 8 asked events arrived refl size fresh (tt, (tt, (tt, tt))) were_sent

-- The client has all of it.
arrived_runs : (receive 8 arrived waiting).file ≡ file
unfolding receive from_bytes nat_eq
arrived_runs = refl

-- Four copies of each packet are lost before one arrives.
patient_lem_example :
    (lookup client
        (patient client 8 (λ f. 4) 65536 (step (resolved (ok file)) asked) waiting).0.transfers
      ≡ none)
    × ((patient client 8 (λ f. 4) 65536 (step (resolved (ok file)) asked) waiting).1.finished
        ≡ true)
    × ((patient client 8 (λ f. 4) 65536 (step (resolved (ok file)) asked) waiting).1.file ≡ file)
patient_lem_example =
    patient_lem job [] file 8 (λ f. 4) asked refl size (omega arith) (omega arith) fresh
      (λ f. omega arith)
