-- ===== src/Tests/Dhcp.antt =====
-- The DHCP server on concrete packets and pools.
use diskless.Base.{
  ℕ, ◌==◌, subst, ◌≡◌, ◌≢◌, ◌↔◌, refl, true, false, none, some, List, [], ◌∷◌, ◌++◌, arith, Bytes,
  Text, codes, ok, raise, pool_exhausted, out_of_fuel, list_eq, nat_eq, option_eq, contains,
  big_endian, replicate, eq_refl, join, hex, from_bytes,
}
use diskless.Base.Dict.{Dict, lookup, insert, erase, has_key}
use diskless.Dhcp.Codes.{
  opt_end, opt_server_id, opt_lease_time, opt_bootfile_name, opt_tftp_server_name, pxe_vendor_class,
}
use diskless.Dhcp.Request.{
  DhcpRequest, Address, parse_raw_options, parse_request, reply_destination, bytes_to_ip,
}
use diskless.Dhcp.Request.Options.{Field, encode, parse_raw_options_total}
use diskless.Dhcp.Reply.{ReplyArgs, build_reply}
use diskless.Dhcp.Reply.Layout.{IsWellFormed}
use diskless.Dhcp.Reply.RoundTrip.{echo, parse_request-build_reply, parse_raw_options-build_reply}
use diskless.Dhcp.Pool.{
  LeasePool, init, release, release_each, reclaim_expired, expired_macs, first_free, extend,
  offer_from, offer, commit,
}
use diskless.Dhcp.Pool.Invariant.{IsConsistent, init-IsConsistent, commit-IsConsistent}
use diskless.Dhcp.Pool.Expiry.{
  Call, discover, request, step, run, offer-eq-pool_exhausted, run_protects,
}
use diskless.Dhcp.Server.{
  StandaloneDhcpProtocol, standalone_received, ProxyDhcpProtocol, proxy_received,
}
use diskless.Dhcp.Server.Answers.{proxy_received_lem, standalone_received-IsConsistent}

program : Unit {0}
unfolding init release release_each reclaim_expired expired_macs first_free extend offer_from offer
    commit step lookup insert erase has_key list_eq nat_eq contains
program = tt

abbrev first_mac : Text
first_mac = codes "02:00:00:00:00:01"

abbrev second_mac : Text
second_mac = codes "02:00:00:00:00:02"

abbrev pub first_ip : Text
first_ip = codes "10.0.0.1"

abbrev second_ip : Text
second_ip = codes "10.0.0.2"

-- The clock stands at 100.
abbrev pub empty : LeasePool
empty = init (first_ip ∷ second_ip ∷ []) 3600 30 (λ _. 100)

pub empty-IsConsistent : IsConsistent empty
empty-IsConsistent = init-IsConsistent (first_ip ∷ second_ip ∷ []) 3600 30 (λ _. 100)

abbrev leased : LeasePool
leased = (commit first_mac empty).1

leased-IsConsistent : IsConsistent leased
leased-IsConsistent = (commit-IsConsistent first_mac empty-IsConsistent).0

first_held :
    (lookup first_mac leased.mac_to_ip ≡ some first_ip)
    × (lookup first_mac leased.expires_at ≡ some 3700)
unfolding program
first_held = (refl, refl)

abbrev others : List Call
others = discover second_mac ∷ request second_mac ∷ []

others_unequal : (second_mac == first_mac) ≡ false
unfolding list_eq nat_eq
others_unequal = refl

others_differ : second_mac ≢ first_mac
others_differ = λ e.
    let h : (first_mac == first_mac) ≡ false =
      subst (λ m. (m == first_mac) ≡ false) e others_unequal in
    cc (h, eq_refl first_mac)

clock_stands :
    (leased.clock leased.readings ≡ 100)
    × (((step (discover second_mac) leased)).clock (step (discover second_mac) leased).readings
        ≡ 100)
unfolding program
clock_stands = (refl, refl)

run_protects_example :
    (lookup first_mac (run others leased).mac_to_ip ≡ some first_ip)
    × (lookup first_mac (run others leased).expires_at ≡ some 3700)
    × (lookup first_ip (run others leased).ip_to_mac ≡ some first_mac)
run_protects_example =
    run_protects first_mac first_ip 3700 others leased-IsConsistent first_held.0 first_held.1 (
      others_differ,
      omega (arith, clock_stands.0),
      (others_differ, omega (arith, clock_stands.1), tt),
    )

offer-eq-pool_exhausted_example : ((offer second_mac leased).0 ≡ raise pool_exhausted) ↔ (
    (lookup second_mac (reclaim_expired leased).mac_to_ip ≡ none)
    × ((ip : Text)
        → contains (reclaim_expired leased).pool ip ≡ true
        → lookup ip (reclaim_expired leased).ip_to_mac ≢ none))
offer-eq-pool_exhausted_example = offer-eq-pool_exhausted second_mac leased

-- An OFFER to a PXE client.
abbrev args : ReplyArgs
args = record {
  message_type = 2;
  xid = 1 ∷ 2 ∷ 3 ∷ 4 ∷ [];
  chaddr = 2 ∷ 0 ∷ 0 ∷ 0 ∷ 0 ∷ 1 ∷ [];
  yiaddr = 10 ∷ 0 ∷ 0 ∷ 1 ∷ [];
  siaddr = 10 ∷ 0 ∷ 0 ∷ 254 ∷ [];
  server_id = 10 ∷ 0 ∷ 0 ∷ 254 ∷ [];
  boot_filename = codes "undionly.kpxe";
  lease_seconds = some 3600;
  subnet_mask = none;
  router = none;
  pxe = true;
  giaddr = 0 ∷ 0 ∷ 0 ∷ 0 ∷ [];
}

args-IsWellFormed : IsWellFormed args
args-IsWellFormed = record {
  xid = refl;
  yiaddr = refl;
  siaddr = refl;
  siaddr_bytes = omega arith;
  giaddr = refl;
  server_id = refl;
  subnet_mask = tt;
  router = tt;
  message_type = omega arith;
  lease_seconds = omega arith;
}

parse_request-build_reply_example :
    (packet : Bytes) × (build_reply args ≡ ok packet) × (parse_request packet ≡ ok (echo args))
parse_request-build_reply_example = parse_request-build_reply args args-IsWellFormed (omega arith)

parse_raw_options-build_reply_example :
    (packet : Bytes) × (options : Dict ℕ Bytes) × (build_reply args ≡ ok packet)
    × (parse_raw_options packet ≡ ok options)
    × (lookup opt_server_id options ≡ some args.server_id)
    × (lookup opt_lease_time options ≡ some (big_endian 4 3600))
    × (lookup opt_bootfile_name options ≡ some (codes "undionly.kpxe" ++ 0 ∷ []))
    × (lookup opt_tftp_server_name options ≡ some (bytes_to_ip args.siaddr))
parse_raw_options-build_reply_example =
    parse_raw_options-build_reply args args-IsWellFormed (omega arith)

-- A DISCOVER of a PXE client: the fixed fields, the cookie, two options and the end mark.
abbrev fields : List Field
fields = (53, 1 ∷ []) ∷ (60, pxe_vendor_class) ∷ []

abbrev pub discover_packet : Bytes
discover_packet =
    replicate 240 (let zero_byte : ℕ = 0 in zero_byte) ++ (encode fields ++ opt_end ∷ [])

parse_raw_options_total_example : parse_raw_options discover_packet ≢ raise out_of_fuel
parse_raw_options_total_example = parse_raw_options_total discover_packet

abbrev pub no_one : Address
no_one = (codes "0.0.0.0", 68)

abbrev pub standalone : StandaloneDhcpProtocol
standalone = record {
  server_ip_bytes = 10 ∷ 0 ∷ 0 ∷ 254 ∷ [];
  boot_filename = codes "undionly.kpxe";
  lease_pool = empty;
}

standalone_received-IsConsistent_example :
    IsConsistent (standalone_received discover_packet no_one standalone).1.lease_pool
standalone_received-IsConsistent_example =
    standalone_received-IsConsistent discover_packet no_one standalone empty-IsConsistent

abbrev proxy : ProxyDhcpProtocol
proxy = record {
  server_ip = codes "10.0.0.254";
  server_ip_bytes = 10 ∷ 0 ∷ 0 ∷ 254 ∷ [];
  boot_filename = codes "undionly.kpxe";
}

abbrev pub discover_request : DhcpRequest
discover_request = record {
  message_type = some 1;
  xid = 0 ∷ 0 ∷ 0 ∷ 0 ∷ [];
  chaddr = replicate 16 (let zero_byte : ℕ = 0 in zero_byte);
  client_mac = codes "00:00:00:00:00:00";
  vendor_class = some pxe_vendor_class;
  requested_ip = none;
  giaddr = 0 ∷ 0 ∷ 0 ∷ 0 ∷ [];
  broadcast = false;
}

pub discover_parsed : parse_request discover_packet ≡ ok discover_request
unfolding parse_request parse_raw_options lookup insert nat_eq join hex from_bytes
discover_parsed = refl

proxy_received_lem_example :
    (reply : Bytes) × (answered : DhcpRequest) × (proxy_received discover_packet no_one proxy
      ≡ ok ((reply, reply_destination discover_request no_one) ∷ []))
    × (parse_request reply ≡ ok answered)
    × (answered.message_type ≡ some 2)
    × (answered.vendor_class ≡ some pxe_vendor_class)
    × (answered.xid ≡ discover_request.xid)
    × (answered.giaddr ≡ discover_request.giaddr)
proxy_received_lem_example =
    proxy_received_lem proxy no_one discover_packet
      (record { address = refl; bytes = omega arith; file = omega arith }) discover_parsed refl refl
      refl
