-- ===== src/Tftp/Server/Budget.antt =====
-- How many packets the server of src/diskless/bootd/tftp.py sends, retransmissions included.
use diskless.Base.{ℕ, ◌+◌, ◌-◌, ◌≤◌, List, [], ◌∷◌, length, list_eq, nat_eq, pair_eq}
use diskless.Base.Dict.{Dict}
use diskless.Tftp.Packets.{max_retransmits}
use diskless.Tftp.Transfer
use diskless.Tftp.Transfer.{Transfer}
use diskless.Tftp.Server.{DelayedCall, TftpProtocol, Event, datagram, resolved, due}

-- The copies that a delayed call may still send.
abbrev pub spare : DelayedCall → ℕ
spare c = max_retransmits - 1 - c.attempt

abbrev pub spares : Dict ℕ DelayedCall → ℕ
spares [] = 0
spares ((id, c) ∷ clock) = spare c + spares clock

-- What was written, and what may still be without another event than timeouts.
abbrev pub budget : TftpProtocol → ℕ
budget s = length s.written + spares s.clock

-- One event that is not a timeout adds at most a packet and its retransmissions.
abbrev Adds : TftpProtocol → TftpProtocol → Type 0
Adds s u = budget u ≤ budget s + max_retransmits

-- How many of some events are datagrams and results of workers.
abbrev pub inputs : List Event → ℕ
inputs [] = 0
inputs (datagram bytes addr ∷ events) = 1 + inputs events
inputs (resolved r ∷ events) = 1 + inputs events
inputs (due id ∷ events) = inputs events
