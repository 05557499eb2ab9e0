-- ===== src/Dhcp/Reply.antt =====
-- Assembly of an answer (src/diskless/dhcp/common.py: build_pxe_options, build_reply).
pub mod Layout
pub mod RoundTrip
use diskless.Base.{
  ℕ, suc, Bool, Option, none, some, [], ◌∷◌, ◌++◌, Bytes, Text, Result, ok, ◌>>=◌, if◌then◌else◌,
  length, take, replicate, ljust, bytes_of, to_bytes,
}
use diskless.Dhcp.Codes.{
  opt_subnet_mask, opt_router, opt_lease_time, opt_message_type, opt_server_id, opt_vendor_class,
  opt_tftp_server_name, opt_bootfile_name, opt_end, pxe_vendor_class, magic_cookie,
}
use diskless.Dhcp.Request.{bytes_to_ip}

-- The arguments of `build_reply`.
pub record ReplyArgs : Type 0 where
  pub message_type : ℕ
  pub xid : Bytes
  pub chaddr : Bytes
  pub yiaddr : Bytes
  pub siaddr : Bytes
  pub server_id : Bytes
  pub boot_filename : Text
  pub lease_seconds : Option ℕ
  pub subnet_mask : Option Bytes
  pub router : Option Bytes
  pub pxe : Bool
  pub giaddr : Bytes

unfoldable pub build_pxe_options : Text → Text → Result Bytes
unfolding bytes_of
build_pxe_options tftp_server_ip boot_filename = do
  let filename_bytes = boot_filename ++ 0 ∷ []
  server_tag ← bytes_of (opt_tftp_server_name ∷ length tftp_server_ip ∷ [])
  filename_tag ← bytes_of (opt_bootfile_name ∷ length filename_bytes ∷ [])
  ok (server_tag ++ tftp_server_ip ++ filename_tag ++ filename_bytes)

unfoldable pub reply_header : ReplyArgs → Bytes
unfolding ljust
reply_header a =
    (2 ∷ 1 ∷ 6 ∷ 0 ∷ [])
    ++ a.xid
    ++ (0 ∷ 0 ∷ [])
    ++ (0 ∷ 0 ∷ [])
    ++ (0 ∷ 0 ∷ 0 ∷ 0 ∷ [])
    ++ a.yiaddr
    ++ a.siaddr
    ++ a.giaddr
    ++ take 16 (ljust 16 0 a.chaddr)
    ++ replicate 64 0
    ++ take 128 (ljust 128 0 a.boot_filename)

lease_part : Option ℕ → Result Bytes
lease_part none = ok []
lease_part (some seconds) = do bytes ← to_bytes 4 seconds; ok (opt_lease_time ∷ 4 ∷ bytes)

optional_part : ℕ → Option Bytes → Bytes
optional_part code none = []
optional_part code (some value) = code ∷ 4 ∷ value

pxe_part : ReplyArgs → Result Bytes
unfolding build_pxe_options bytes_of
pxe_part a =
    if a.pxe
    then (do
      tag ← bytes_of (opt_vendor_class ∷ length pxe_vendor_class ∷ [])
      rest ← build_pxe_options (bytes_to_ip a.siaddr) a.boot_filename
      ok (tag ++ pxe_vendor_class ++ rest))
    else ok []

unfoldable pub build_reply : ReplyArgs → Result Bytes
unfolding reply_header lease_part optional_part pxe_part bytes_of to_bytes
build_reply a = do
  type_part ← bytes_of (opt_message_type ∷ 1 ∷ a.message_type ∷ [])
  lease ← lease_part a.lease_seconds
  pxe ← pxe_part a
  ok (
      reply_header a
      ++ magic_cookie
      ++ type_part
      ++ (opt_server_id ∷ 4 ∷ a.server_id)
      ++ lease
      ++ optional_part opt_subnet_mask a.subnet_mask
      ++ optional_part opt_router a.router
      ++ pxe
      ++ opt_end ∷ [])
