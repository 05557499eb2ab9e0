-- ===== src/Dhcp/Server/Traffic.antt =====
-- What other clients' datagrams leave of one client's address.
use diskless.Base.{
  ℕ, ◌<◌, ◌≡◌, ◌≢◌, some, List, [], ◌∷◌, arith, Bytes, IsBytes, Text, ok, ◌==◌, list_eq, nat_eq,
  option_eq, length, inl, inr, Bool-cases, Result-cases,
}
use diskless.Dhcp.Codes.{msg_discover, msg_request}
use diskless.Dhcp.Request.{DhcpRequest, Address, parse_request}
use diskless.Dhcp.Pool.{now}
use diskless.Dhcp.Pool.Invariant.{IsConsistent}
use diskless.Dhcp.Pool.Expiry.{Holds, offer-Holds, commit-Holds}
use diskless.Dhcp.Server.{StandaloneDhcpProtocol, Datagram, answer, standalone_received}
use diskless.Dhcp.Server.Answers.{standalone_received-IsConsistent}

-- The state after some datagrams.
unfoldable pub traffic : List Datagram → StandaloneDhcpProtocol → StandaloneDhcpProtocol
traffic [] s = s
traffic ((datagram, addr) ∷ rest) s = traffic rest (standalone_received datagram addr s).1

-- Each of the datagrams is no request of the client, and comes before the time `exp`.
abbrev pub IsQuiet : Text → ℕ → List Datagram → StandaloneDhcpProtocol → Type 0
IsQuiet mac exp [] s = Unit
IsQuiet mac exp ((datagram, addr) ∷ rest) s =
    ((request : DhcpRequest) → parse_request datagram ≡ ok request → request.client_mac ≢ mac)
    × (now s.lease_pool < exp)
    × IsQuiet mac exp rest (standalone_received datagram addr s).1

-- A server address of four bytes, and a boot file name that fits its option.
pub record IsServing (s : StandaloneDhcpProtocol) : Type 0 where
  pub address : length s.server_ip_bytes ≡ 4
  pub bytes : IsBytes s.server_ip_bytes
  pub file : length s.boot_filename < 255

abbrev pub HoldsAt : Text → Text → ℕ → StandaloneDhcpProtocol → Type 0
HoldsAt mac ip exp s = IsConsistent s.lease_pool × Holds mac ip exp s.lease_pool

module _ (mac ip : Text) (exp : ℕ) where
  answer-Holds :
      (request : DhcpRequest) (addr : Address) (s : StandaloneDhcpProtocol)
      → now s.lease_pool < exp
      → request.client_mac ≢ mac
      → HoldsAt mac ip exp s
      → Holds mac ip exp (answer request addr s).1.lease_pool
  unfolding answer
  answer-Holds request addr s early other (h, held) =
      elim (Bool-cases (request.message_type == some msg_discover)) [
        | inl discover ↦
            rw (discover, answer) (offer-Holds mac ip request.client_mac exp h early other held)
        | inr offered ↦ elim (Bool-cases (request.message_type == some msg_request)) [
          | inl ask ↦
              rw (offered, ask, answer)
                (commit-Holds mac ip request.client_mac exp h early other held)
          | inr neither ↦ rw (offered, neither, answer) held
        ]
      ]

  received-Holds :
      (datagram : Bytes) (addr : Address) (s : StandaloneDhcpProtocol)
      → now s.lease_pool < exp
      → ((request : DhcpRequest) → parse_request datagram ≡ ok request → request.client_mac ≢ mac)
      → HoldsAt mac ip exp s
      → Holds mac ip exp (standalone_received datagram addr s).1.lease_pool
  unfolding standalone_received
  received-Holds datagram addr s early others h = elim (Result-cases (parse_request datagram)) [
    | inl (x, unread) ↦ rw (unread, standalone_received) h.1
    | inr (request, read) ↦
        rw (read, standalone_received) (answer-Holds request addr s early (others request read) h)
  ]

  pub traffic-Holds :
      (rest : List Datagram) (s : StandaloneDhcpProtocol)
      → IsQuiet mac exp rest s
      → HoldsAt mac ip exp s
      → HoldsAt mac ip exp (traffic rest s)
  unfolding traffic
  traffic-Holds [] s quiet h = h
  traffic-Holds ((datagram, addr) ∷ rest) s (others, early, quiet) h =
      traffic-Holds rest (standalone_received datagram addr s).1 quiet (
        standalone_received-IsConsistent datagram addr s h.0,
        received-Holds datagram addr s early others h,
      )

-- The settings do not change.
received_settings :
    (datagram : Bytes) (addr : Address) (s : StandaloneDhcpProtocol)
    → ((standalone_received datagram addr s).1.server_ip_bytes ≡ s.server_ip_bytes)
      × ((standalone_received datagram addr s).1.boot_filename ≡ s.boot_filename)
unfolding standalone_received answer
received_settings datagram addr s = (ground arith, ground arith)

pub received-IsServing :
    (datagram : Bytes) (addr : Address) (s : StandaloneDhcpProtocol)
    → IsServing s
    → IsServing (standalone_received datagram addr s).1
received-IsServing datagram addr s h =
    let (address, file) = received_settings datagram addr s in
    record { address = rw address h.address; bytes = rw address h.bytes; file = rw file h.file }

pub traffic-IsServing :
    (rest : List Datagram) (s : StandaloneDhcpProtocol) → IsServing s → IsServing (traffic rest s)
unfolding traffic
traffic-IsServing [] s h = h
traffic-IsServing ((datagram, addr) ∷ rest) s h =
    traffic-IsServing rest (standalone_received datagram addr s).1
      (received-IsServing datagram addr s h)
