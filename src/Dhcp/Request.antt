-- ===== src/Dhcp/Request.antt =====
-- Parsing of a DHCP packet and the destination of its answer (src/diskless/dhcp/common.py).
pub mod Options
use diskless.Base.{
  ℕ, zero, suc, ◌+◌, ◌/◌, ◌%◌, ◌^◌, Bool, not, Option, none, some, [], ◌∷◌, map, Bytes, Text, codes,
  Result, ok, raise, index_error, out_of_fuel, ◌>>=◌, ◌==◌, list_eq, nat_eq, option_eq, eqb,
  if◌then◌else◌, length, get_elem?, take, slice, from_bytes, join, hex, decimal,
}
use diskless.Base.Dict.{Dict, lookup, insert}
use diskless.Dhcp.Codes.{
  opt_message_type, opt_vendor_class, opt_requested_ip, opt_end, options_start, pxe_vendor_class,
  zero_ip,
}

pub record DhcpRequest : Type 0 where
  pub message_type : Option ℕ
  pub xid : Bytes
  pub chaddr : Bytes
  pub client_mac : Text
  pub vendor_class : Option Bytes
  pub requested_ip : Option Bytes
  pub giaddr : Bytes
  pub broadcast : Bool

-- The `while` loop from the index `i`, for at most `f` rounds.
options_loop : ℕ → Bytes → ℕ → Dict ℕ Bytes → Result (Dict ℕ Bytes)
options_loop zero packet i options = raise out_of_fuel
options_loop (suc f) packet i options = elim (get_elem? packet i) [
  | none ↦ ok options
  | some opt ↦
      let padded = options_loop f packet (i + 1) options in
      let tagged : Result (Dict ℕ Bytes) = elim (get_elem? packet (i + 1)) [
        | none ↦ raise index_error
        | some n ↦
            options_loop f packet (i + 2 + n)
              (insert opt (slice (i + 2) (i + 2 + n) packet) options)
      ] in
      if eqb opt opt_end then ok options else if eqb opt 0 then padded else tagged
]

-- A round moves the index forward, so that this many rounds are enough.
unfoldable pub parse_raw_options : Bytes → Result (Dict ℕ Bytes)
unfolding options_loop
parse_raw_options packet = options_loop (suc (length packet)) packet options_start []

pub first_byte : Option Bytes → Result (Option ℕ)
first_byte none = ok none
first_byte (some v) = elim (get_elem? v 0) [ none ↦ raise index_error | some b ↦ ok (some b) ]

unfoldable pub client_mac_of : Bytes → Text
client_mac_of chaddr = join (codes ":") (map hex (take 6 chaddr))

unfoldable pub parse_request : Bytes → Result DhcpRequest
unfolding first_byte client_mac_of
parse_request packet = do
  let flags = from_bytes (slice 10 12 packet)
  let chaddr = slice 28 44 packet
  options ← parse_raw_options packet
  message_type ← first_byte (lookup opt_message_type options)
  ok (record {
    message_type = message_type;
    xid = slice 4 8 packet;
    chaddr = chaddr;
    client_mac = client_mac_of chaddr;
    vendor_class = lookup opt_vendor_class options;
    requested_ip = lookup opt_requested_ip options;
    giaddr = slice 24 28 packet;
    broadcast = not (eqb (flags / 2 ^ 15 % 2) 0);
  })

unfoldable pub is_pxe_client : DhcpRequest → Bool
is_pxe_client request = request.vendor_class == some pxe_vendor_class

unfoldable pub bytes_to_ip : Bytes → Text
bytes_to_ip addr = join (codes ".") (map decimal addr)

-- The host and the port of a UDP endpoint.
abbrev pub Address : Type 0
Address = Text × ℕ

unfoldable pub reply_destination : DhcpRequest → Address → Address
unfolding bytes_to_ip
reply_destination request received_from =
    if not (request.giaddr == zero_ip)
    then (bytes_to_ip request.giaddr, 67)
    else if request.broadcast
    then (codes "255.255.255.255", 68)
    else received_from
