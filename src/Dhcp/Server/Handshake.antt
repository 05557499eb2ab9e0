-- ===== src/Dhcp/Server/Handshake.antt =====
-- A client's DISCOVER and REQUEST, with other clients' traffic in between, in bytes.
use diskless.Base.{
  ℕ, ◌<◌, ◌≡◌, refl, true, false, some, List, [], ◌∷◌, arith, Bytes, Text, Result, ok, ◌==◌,
  list_eq, nat_eq, option_eq, Option, eq_refl, length, slice, split, int,
}
use diskless.Base.Dict.{lookup}
use diskless.Dhcp.Codes.{msg_discover, msg_offer, msg_request, msg_ack}
use diskless.Dhcp.Request.{DhcpRequest, Address, parse_request, reply_destination}
use diskless.Dhcp.Reply.Layout.{IsWellFormed}
use diskless.Dhcp.Reply.RoundTrip.{echo, build_reply-yiaddr}
use diskless.Dhcp.Pool.{LeasePool, offer, commit}
use diskless.Dhcp.Pool.Invariant.{IsConsistent, offer_assigns}
use diskless.Dhcp.Server.{
  StandaloneDhcpProtocol, Datagram, ip_to_bytes, int_parts, standalone_args, build, send, answer,
  standalone_received,
}
use diskless.Dhcp.Server.Answers.{standalone_received-IsConsistent}
use diskless.Dhcp.Server.Traffic.{
  traffic, IsQuiet, IsServing, HoldsAt, traffic-Holds, received-IsServing, traffic-IsServing,
}

-- A datagram that parses as a message of a type, with a whole transaction id and relay address.
pub record IsMessage (message_type : ℕ) (datagram : Bytes) (request : DhcpRequest) : Type 0 where
  pub parsed : parse_request datagram ≡ ok request
  pub type_is : request.message_type ≡ some message_type
  pub xid : length request.xid ≡ 4
  pub giaddr : length request.giaddr ≡ 4

-- Exactly one datagram is sent, to where the request asks: a message of a type with the request's
-- transaction id and the client's address.
pub record IsAnswered (message_type : ℕ) (yiaddr : Bytes) (request : DhcpRequest) (addr : Address)
    (sent : Result (List Datagram)) : Type 0 where
  pub packet : Bytes
  pub read : DhcpRequest
  pub only : sent ≡ ok ((packet, reply_destination request addr) ∷ [])
  pub parsed : parse_request packet ≡ ok read
  pub type_is : read.message_type ≡ some message_type
  pub xid : read.xid ≡ request.xid
  pub yiaddr_at : slice 16 20 packet ≡ yiaddr

module _ {s : StandaloneDhcpProtocol} (request : DhcpRequest) (ip : Text) (y : Bytes)
    (h : IsServing s) where
  args-IsWellFormed :
      (m : ℕ)
      → m < 256
      → length y ≡ 4
      → length request.xid ≡ 4
      → length request.giaddr ≡ 4
      → IsWellFormed (standalone_args s m request y)
  unfolding standalone_args
  args-IsWellFormed m small four x g = record {
    xid = x;
    yiaddr = four;
    siaddr = h.address;
    siaddr_bytes = h.bytes;
    giaddr = g;
    server_id = h.address;
    subnet_mask = tt;
    router = tt;
    message_type = small;
    lease_seconds = omega arith;
  }

  send-IsAnswered :
      (m : ℕ) (addr : Address)
      → m < 256
      → ip_to_bytes ip ≡ ok y
      → length y ≡ 4
      → length request.xid ≡ 4
      → length request.giaddr ≡ 4
      → IsAnswered m y request addr (send s m request addr (ok ip))
  unfolding send build standalone_args
  send-IsAnswered m addr small printed four x g =
      let a = standalone_args s m request y in
      let (packet, built, parsed, given) =
        build_reply-yiaddr a (args-IsWellFormed m small four x g) h.file in
      record {
        packet = packet;
        read = echo a;
        only = rw (printed, built) refl;
        parsed = parsed;
        type_is = refl;
        xid = refl;
        yiaddr_at = given;
      }

-- An address that can be written as bytes is not empty.
not_empty : (ip : Text) (y : Bytes) → ip_to_bytes ip ≡ ok y → (ip == []) ≡ false
unfolding ip_to_bytes split int int_parts
not_empty [] y printed = ground arith
not_empty (c ∷ ip) y printed = ground arith

commit_kept :
    (mac ip : Text) (p : LeasePool)
    → lookup mac p.mac_to_ip ≡ some ip
    → (ip == []) ≡ false
    → (commit mac p).0 ≡ ok ip
unfolding commit
commit_kept mac ip p held full = rw (held, full, commit) refl

is_type : (o : Option ℕ) (m : ℕ) → o ≡ some m → (o == some m) ≡ true
is_type o m e = rw e (eq_refl (some m))

no_discover : (o : Option ℕ) → o ≡ some msg_request → (o == some msg_discover) ≡ false
unfolding option_eq nat_eq
no_discover o e = rw e refl

-- What a DISCOVER and a REQUEST come to.
pub discover_lem :
    (s : StandaloneDhcpProtocol) (datagram : Bytes) (addr : Address) (request : DhcpRequest)
    → IsMessage msg_discover datagram request
    → standalone_received datagram addr s ≡ (
      send s msg_offer request addr (offer request.client_mac s.lease_pool).0,
      record s { lease_pool = (offer request.client_mac s.lease_pool).1 },
    )
unfolding standalone_received answer
discover_lem s datagram addr request d =
    rw (d.parsed, standalone_received, answer, is_type request.message_type msg_discover d.type_is)
      refl

request_lem :
    (s : StandaloneDhcpProtocol) (datagram : Bytes) (addr : Address) (request : DhcpRequest)
    → IsMessage msg_request datagram request
    → standalone_received datagram addr s ≡ (
      send s msg_ack request addr (commit request.client_mac s.lease_pool).0,
      record s { lease_pool = (commit request.client_mac s.lease_pool).1 },
    )
unfolding standalone_received answer
request_lem s datagram addr request r =
    rw
      (
        r.parsed,
        standalone_received,
        answer,
        no_discover request.message_type r.type_is,
        is_type request.message_type msg_request r.type_is,
      )
      refl

-- A DISCOVER to which the pool gives an address is answered by an OFFER of it. After any datagrams of
-- other clients that come before the offer runs out, a REQUEST of the same client is answered by an ACK of
-- the same address. Both answers parse, carry the transaction id of what they answer, and go where it
-- asks. (The server's address has four
-- bytes, its boot file name at most 254, the pool is consistent, the client's packets have a whole
-- transaction id and relay address, and its address can be written as four bytes.)
pub handshake :
    (s : StandaloneDhcpProtocol) (discover ask : Bytes) (from then : Address)
    (first second : DhcpRequest) (between : List Datagram) (ip : Text) (y : Bytes) (exp : ℕ)
    → IsServing s
    → IsConsistent s.lease_pool
    → IsMessage msg_discover discover first
    → IsMessage msg_request ask second
    → second.client_mac ≡ first.client_mac
    → (offer first.client_mac s.lease_pool).0 ≡ ok ip
    → ip_to_bytes ip ≡ ok y
    → length y ≡ 4
    → lookup first.client_mac (standalone_received discover from s).1.lease_pool.expires_at
      ≡ some exp
    → IsQuiet first.client_mac exp between (standalone_received discover from s).1
    → IsAnswered msg_offer y first from (standalone_received discover from s).0
      × IsAnswered msg_ack y second then
          (standalone_received ask then (traffic between (standalone_received discover from s).1)).0
handshake s discover ask from then first second between ip y exp h consistent d r same given printed
      four until quiet =
    let s1 = (standalone_received discover from s).1 in
    let offered : standalone_received discover from s ≡ _ = discover_lem s discover from first d in
    let assigned = offer_assigns first.client_mac ip consistent given in
    let held : HoldsAt first.client_mac ip exp (traffic between s1) =
      traffic-Holds first.client_mac ip exp between s1 quiet (
        standalone_received-IsConsistent discover from s consistent,
        (rw offered assigned.1, until),
      ) in
    let kept : (commit second.client_mac (traffic between s1).lease_pool).0 ≡ ok ip = rw same (
      commit_kept first.client_mac ip (traffic between s1).lease_pool held.1.0
        (not_empty ip y printed)) in
    (
      rw (discover_lem s discover from first d, given)
          (send-IsAnswered first ip y h msg_offer from (omega arith) printed four d.xid d.giaddr),
      rw (request_lem (traffic between s1) ask then second r, kept)
          (send-IsAnswered second ip y
            (traffic-IsServing between s1 (received-IsServing discover from s h)) msg_ack then
            (omega arith) printed four r.xid r.giaddr),
    )
