-- ===== src/Dhcp/Server.antt =====
-- The two protocols on top of the packet code: `StandaloneDhcpProtocol` with its pool
-- (src/diskless/bootd/dhcp_standalone.py) and `ProxyDhcpProtocol` (src/diskless/bootd/dhcp_proxy.py).
-- A datagram gives the datagrams that the transport is handed, or the exception that ends it.
pub mod Answers
pub mod Traffic
pub mod Handshake
use diskless.Base.{
  ℕ, Bool, true, false, not, Option, none, some, List, [], ◌∷◌, map, Bytes, Text, ℤ, pos, negsuc,
  int, split, decode, codes, Result, ok, raise, value_error, ◌>>=◌, ◌==◌, list_eq, nat_eq,
  option_eq, if◌then◌else◌, bytes_of,
}
use diskless.Dhcp.Codes.{msg_discover, msg_offer, msg_request, msg_ack, zero_ip}
use diskless.Dhcp.Request.{DhcpRequest, Address, parse_request, is_pxe_client, reply_destination}
use diskless.Dhcp.Reply.{ReplyArgs, build_reply}
use diskless.Dhcp.Pool.{LeasePool, offer, commit}

natural : ℤ → Result ℕ
natural (pos n) = ok n
natural (negsuc n) = raise value_error

int_parts : List Text → Result (List ℕ)
unfolding natural
int_parts [] = ok []
int_parts (part ∷ parts) = do
  z ← int part
  n ← natural z
  checked ← bytes_of (n ∷ [])
  ns ← int_parts parts
  ok (n ∷ ns)

-- `bytes(int(part) for part in ip.split("."))`: each number is checked as it comes.
unfoldable pub ip_to_bytes : Text → Result Bytes
unfolding int_parts
ip_to_bytes ip = int_parts (split b'.' ip)

-- `LEASE_SECONDS`
abbrev pub lease_seconds : ℕ
lease_seconds = 3600

pub record StandaloneDhcpProtocol : Type 0 where
  pub server_ip_bytes : Bytes
  pub boot_filename : Text
  pub lease_pool : LeasePool

-- `__init__`
unfoldable standalone_init : Text → Text → LeasePool → Result StandaloneDhcpProtocol
standalone_init server_ip boot_filename lease_pool = do
  bytes ← ip_to_bytes server_ip
  ok (record { server_ip_bytes = bytes; boot_filename = boot_filename; lease_pool = lease_pool })

-- What a call of `transport.write` is given.
abbrev pub Datagram : Type 0
Datagram = Bytes × Address

unfoldable pub standalone_args : StandaloneDhcpProtocol → ℕ → DhcpRequest → Bytes → ReplyArgs
standalone_args s message_type request yiaddr = record {
  message_type = message_type;
  xid = request.xid;
  chaddr = request.chaddr;
  yiaddr = yiaddr;
  siaddr = s.server_ip_bytes;
  server_id = s.server_ip_bytes;
  boot_filename = s.boot_filename;
  lease_seconds = some lease_seconds;
  subnet_mask = none;
  router = none;
  pxe = is_pxe_client request;
  giaddr = request.giaddr;
}

-- `_build`
unfoldable pub build : StandaloneDhcpProtocol → ℕ → DhcpRequest → Text → Result Bytes
unfolding standalone_args
build s message_type request ip = do
  yiaddr ← ip_to_bytes ip
  build_reply (standalone_args s message_type request yiaddr)

-- The answer with the address that the pool gave, sent to where the request asks.
pub send : StandaloneDhcpProtocol → ℕ → DhcpRequest → Address → Result Text → Result (List Datagram)
unfolding build
send s message_type request addr given = do
  ip ← given
  reply ← build s message_type request ip
  ok ((reply, reply_destination request addr) ∷ [])

unfoldable pub answer :
    DhcpRequest → Address → StandaloneDhcpProtocol → Result (List Datagram) × StandaloneDhcpProtocol
unfolding send
answer request addr s =
    if request.message_type == some msg_discover
    then (let (given, pool) = offer request.client_mac s.lease_pool in
        (send s msg_offer request addr given, record s { lease_pool = pool }))
    else if request.message_type == some msg_request
    then (let (given, pool) = commit request.client_mac s.lease_pool in
        (send s msg_ack request addr given, record s { lease_pool = pool }))
    else (ok [], s)

-- `datagramReceived`
unfoldable pub standalone_received :
    Bytes → Address → StandaloneDhcpProtocol → Result (List Datagram) × StandaloneDhcpProtocol
standalone_received datagram addr s = elim (parse_request datagram) [
  | raise x ↦ (raise x, s)
  | ok request ↦ answer request addr s
]

pub record ProxyDhcpProtocol : Type 0 where
  pub server_ip : Text
  pub server_ip_bytes : Bytes
  pub boot_filename : Text

-- `__init__`
unfoldable pub proxy_init : Text → Text → Result ProxyDhcpProtocol
proxy_init server_ip boot_filename = do
  bytes ← ip_to_bytes server_ip
  ok (record { server_ip = server_ip; server_ip_bytes = bytes; boot_filename = boot_filename })

unfoldable pub proxy_args : ProxyDhcpProtocol → DhcpRequest → ReplyArgs
proxy_args s request = record {
  message_type = msg_offer;
  xid = request.xid;
  chaddr = request.chaddr;
  yiaddr = zero_ip;
  siaddr = s.server_ip_bytes;
  server_id = s.server_ip_bytes;
  boot_filename = s.boot_filename;
  lease_seconds = none;
  subnet_mask = none;
  router = none;
  pxe = true;
  giaddr = request.giaddr;
}

-- `datagramReceived`
unfoldable pub proxy_received : Bytes → Address → ProxyDhcpProtocol → Result (List Datagram)
unfolding proxy_args
proxy_received datagram addr s = do
  request ← parse_request datagram
  if not (is_pxe_client request) then ok [] else do
    reply ← build_reply (proxy_args s request)
    ok ((reply, reply_destination request addr) ∷ [])
