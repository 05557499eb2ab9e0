-- ===== src/Dhcp/Server/Answers.antt =====
-- What a client gets back, end to end: from its datagram to what its parser reads in the answer.
use diskless.Base.{
  ◌<◌, ◌≡◌, refl, some, List, [], ◌∷◌, arith, Bytes, IsBytes, Result, ok, raise, ◌==◌, list_eq,
  nat_eq, option_eq, length, inl, inr, Bool-cases,
}
use diskless.Dhcp.Codes.{msg_discover, msg_offer, msg_request, pxe_vendor_class}
use diskless.Dhcp.Request.{DhcpRequest, Address, parse_request, is_pxe_client, reply_destination}
use diskless.Dhcp.Reply.Layout.{IsWellFormed}
use diskless.Dhcp.Reply.RoundTrip.{echo, parse_request-build_reply}
use diskless.Dhcp.Pool.Invariant.{IsConsistent, offer-IsConsistent, commit-IsConsistent}
use diskless.Dhcp.Server.{
  StandaloneDhcpProtocol, answer, standalone_received, ProxyDhcpProtocol, proxy_args,
  proxy_received, Datagram,
}

-- A server address of four bytes, and a boot file name that fits its option.
pub record IsServing (s : ProxyDhcpProtocol) : Type 0 where
  pub address : length s.server_ip_bytes ≡ 4
  pub bytes : IsBytes s.server_ip_bytes
  pub file : length s.boot_filename < 255

proxy_args-IsWellFormed :
    (s : ProxyDhcpProtocol) (request : DhcpRequest)
    → IsServing s
    → length request.xid ≡ 4
    → length request.giaddr ≡ 4
    → IsWellFormed (proxy_args s request)
unfolding proxy_args
proxy_args-IsWellFormed s request h x g = record {
  xid = x;
  yiaddr = refl;
  siaddr = h.address;
  siaddr_bytes = h.bytes;
  giaddr = g;
  server_id = h.address;
  subnet_mask = tt;
  router = tt;
  message_type = omega arith;
  lease_seconds = tt;
}

-- A proxy with proper settings answers a packet that parses as a PXE client's request, with a
-- whole transaction id and relay address, by exactly one datagram, sent to where the request asks,
-- and the parser reads it as an OFFER of a PXE server with the request's transaction id and relay
-- address.
pub proxy_received_lem :
    (s : ProxyDhcpProtocol) (addr : Address) (datagram : Bytes) {request : DhcpRequest}
    → IsServing s
    → parse_request datagram ≡ ok request
    → length request.xid ≡ 4
    → length request.giaddr ≡ 4
    → request.vendor_class ≡ some pxe_vendor_class
    → (reply : Bytes) × (answered : DhcpRequest) × (proxy_received datagram addr s
        ≡ ok ((reply, reply_destination request addr) ∷ []))
      × (parse_request reply ≡ ok answered)
      × (answered.message_type ≡ some msg_offer)
      × (answered.vendor_class ≡ some pxe_vendor_class)
      × (answered.xid ≡ request.xid)
      × (answered.giaddr ≡ request.giaddr)
unfolding proxy_received is_pxe_client
proxy_received_lem s addr datagram {request} h parsed x g pxe =
    let (reply, built, read) =
      parse_request-build_reply (proxy_args s request) (proxy_args-IsWellFormed s request h x g)
        h.file in
    (
      reply,
      echo (proxy_args s request),
      rw (parsed, built) (ground arith),
      read,
      refl,
      refl,
      refl,
      refl,
    )

answer-IsConsistent :
    (request : DhcpRequest) (addr : Address) (s : StandaloneDhcpProtocol)
    → IsConsistent s.lease_pool
    → IsConsistent (answer request addr s).1.lease_pool
unfolding answer
answer-IsConsistent request addr s h =
    elim (Bool-cases (request.message_type == some msg_discover)) [
      | inl discover ↦ rw (discover, answer) (offer-IsConsistent request.client_mac h).0
      | inr other ↦ elim (Bool-cases (request.message_type == some msg_request)) [
        | inl ask ↦ rw (other, ask, answer) (commit-IsConsistent request.client_mac h).0
        | inr neither ↦ rw (other, neither, answer) h
      ]
    ]

-- If the pool of the standalone server is consistent, so it is after any datagram from anyone.
pub standalone_received-IsConsistent :
    (datagram : Bytes) (addr : Address) (s : StandaloneDhcpProtocol)
    → IsConsistent s.lease_pool
    → IsConsistent (standalone_received datagram addr s).1.lease_pool
unfolding standalone_received
standalone_received-IsConsistent datagram addr s h = by_parse (parse_request datagram)
  where
    by_parse :
        (r : Result DhcpRequest)
        → IsConsistent
            (elim r as (λ _. Result (List Datagram) × StandaloneDhcpProtocol) [
              | raise x ↦ (raise x, s)
              | ok request ↦ answer request addr s
            ]).1.lease_pool
    by_parse (raise x) = h
    by_parse (ok request) = answer-IsConsistent request addr s h
