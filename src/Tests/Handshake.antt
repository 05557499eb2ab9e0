-- ===== src/Tests/Handshake.antt =====
-- A whole exchange of a client with the standalone server, in packets, while another client asks too.
use diskless.Base.{
  ℕ, ◌≡◌, ◌≢◌, refl, subst, ap, false, none, some, List, [], ◌∷◌, ◌++◌, arith, Bytes, codes, Result,
  ok, ◌==◌, list_eq, nat_eq, option_eq, eq_refl, replicate, join, hex, from_bytes, split, int,
  bytes_of,
}
use diskless.Base.Dict.{lookup, insert, has_key}
use diskless.Dhcp.Codes.{opt_end, msg_offer, msg_ack}
use diskless.Dhcp.Request.{DhcpRequest, parse_raw_options, parse_request}
use diskless.Dhcp.Request.Options.{encode}
use diskless.Dhcp.Pool.{
  LeasePool, now, init, offer, offer_from, reclaim_expired, release_each, expired_macs, first_free,
  extend,
}
use diskless.Dhcp.Server.{StandaloneDhcpProtocol, Datagram, standalone_received, ip_to_bytes}
use diskless.Dhcp.Server.Traffic.{traffic, IsQuiet, IsServing}
use diskless.Dhcp.Server.Handshake.{IsMessage, IsAnswered, handshake, discover_lem}
use diskless.Tests.Dhcp.{
  empty, empty-IsConsistent, no_one, standalone, discover_packet, discover_request, discover_parsed,
  first_ip,
}

abbrev zeros : ℕ → Bytes
zeros n = replicate n (let zero_byte : ℕ = 0 in zero_byte)

abbrev ask_packet : Bytes
ask_packet = zeros 240 ++ (encode ((53, 3 ∷ []) ∷ []) ++ opt_end ∷ [])

abbrev ask_request : DhcpRequest
ask_request = record discover_request { message_type = some 3; vendor_class = none }

ask_parsed : parse_request ask_packet ≡ ok ask_request
unfolding parse_request parse_raw_options lookup insert nat_eq join hex from_bytes
ask_parsed = refl

-- A DISCOVER of another client.
abbrev other_packet : Bytes
other_packet = zeros 28 ++ (2 ∷ zeros 211) ++ (encode ((53, 1 ∷ []) ∷ []) ++ opt_end ∷ [])

abbrev other_request : DhcpRequest
other_request = record discover_request {
  chaddr = 2 ∷ zeros 15;
  client_mac = codes "02:00:00:00:00:00";
  vendor_class = none;
}

other_parsed : parse_request other_packet ≡ ok other_request
unfolding parse_request parse_raw_options lookup insert nat_eq join hex from_bytes
other_parsed = refl

macs_unequal : (other_request.client_mac == discover_request.client_mac) ≡ false
unfolding list_eq nat_eq
macs_unequal = refl

other_differs :
    (request : DhcpRequest)
    → parse_request other_packet ≡ ok request
    → request.client_mac ≢ discover_request.client_mac
other_differs request parsed same =
    let known : request ≡ other_request = cc (parsed, other_parsed) in
    let e : other_request.client_mac ≡ discover_request.client_mac = rw known at same in
    let h : (discover_request.client_mac == discover_request.client_mac) ≡ false =
      subst (λ m. (m == discover_request.client_mac) ≡ false) e macs_unequal in
    cc (h, eq_refl discover_request.client_mac)

abbrev between : List Datagram
between = (other_packet, no_one) ∷ []

served : IsServing standalone
served = record { address = refl; bytes = omega arith; file = omega arith }

given : (offer discover_request.client_mac empty).0 ≡ ok first_ip
unfolding offer init offer_from reclaim_expired release_each expired_macs first_free extend lookup
    has_key list_eq nat_eq
given = refl

printed : ip_to_bytes first_ip ≡ ok (10 ∷ 0 ∷ 0 ∷ 1 ∷ [])
unfolding ip_to_bytes split int bytes_of
printed = refl

abbrev offering : StandaloneDhcpProtocol
offering = (standalone_received discover_packet no_one standalone).1

asked_first : IsMessage 1 discover_packet discover_request
asked_first = record { parsed = discover_parsed; type_is = refl; xid = refl; giaddr = refl }

asked_again : IsMessage 3 ask_packet ask_request
asked_again = record { parsed = ask_parsed; type_is = refl; xid = refl; giaddr = refl }

abbrev offered_pool : LeasePool
offered_pool = (offer discover_request.client_mac empty).1

pool_after : offering.lease_pool ≡ offered_pool
pool_after =
    ap (λ (r : Result (List Datagram) × StandaloneDhcpProtocol). r.1.lease_pool)
      (discover_lem standalone discover_packet no_one discover_request asked_first)

dated :
    (lookup discover_request.client_mac offered_pool.expires_at ≡ some 130)
    × (now offered_pool ≡ 100)
unfolding offer init offer_from reclaim_expired release_each expired_macs first_free extend lookup
    insert has_key list_eq nat_eq
dated = (refl, refl)

quiet : IsQuiet discover_request.client_mac 130 between offering
quiet = (other_differs, rw (pool_after, dated.1) (omega arith), tt)

handshake_example :
    IsAnswered msg_offer
      (10 ∷ 0 ∷ 0 ∷ 1 ∷ [])
      discover_request
      no_one
      (standalone_received discover_packet no_one standalone).0
    × IsAnswered msg_ack
        (10 ∷ 0 ∷ 0 ∷ 1 ∷ [])
        ask_request
        no_one
        (standalone_received ask_packet no_one (traffic between offering)).0
handshake_example =
    handshake standalone discover_packet ask_packet no_one no_one discover_request ask_request
      between first_ip (10 ∷ 0 ∷ 0 ∷ 1 ∷ []) 130 served empty-IsConsistent asked_first asked_again
      refl given printed refl (rw pool_after dated.0) quiet
