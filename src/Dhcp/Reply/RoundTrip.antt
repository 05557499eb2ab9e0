-- ===== src/Dhcp/Reply/RoundTrip.antt =====
-- Building an answer succeeds if its texts fit, and the program's own parser reads it back.
use mathlib.Core.List.{append_assoc, append-nil}
use diskless.Base.{
  ℕ, zero, suc, ◌≤◌, ◌<◌, ◌^◌, ◌≡◌, refl, ap, sym, ◌∙◌, Bool, true, false, Option, none, some, List,
  [], ◌∷◌, ◌++◌, arith, Bytes, IsBytes, ok, if◌then◌else◌, length, drop, All, All-append,
  length-append, drop-append, drop-drop, bytes_of, to_bytes, big_endian, length-big_endian, decimal,
  join, leb, lt→ltb, nat_eq, Bool-cases, inl, inr, ◌&&◌, from_bytes, slice,
}
use mathlib.Core.Option
use diskless.Base.Dict.{Dict, lookup, insert}
use diskless.Dhcp.Codes.{
  opt_subnet_mask, opt_router, opt_lease_time, opt_message_type, opt_server_id, opt_vendor_class,
  opt_tftp_server_name, opt_bootfile_name, opt_requested_ip, opt_end, pxe_vendor_class,
  magic_cookie,
}
use diskless.Dhcp.Request.{
  DhcpRequest, bytes_to_ip, client_mac_of, parse_raw_options, parse_request,
}
use diskless.Dhcp.Request.Options.{Field, IsField, encode, collect, parse_raw_options-encode}
use diskless.Dhcp.Reply.{
  ReplyArgs, build_reply, build_pxe_options, reply_header, lease_part, optional_part, pxe_part,
}
use diskless.Dhcp.Reply.Layout.{
  IsWellFormed, IsBelow, HasLength, length-reply_header, chaddr_field, xid_at, flags_at, giaddr_at,
  chaddr_at, yiaddr_at,
}

-- The options of an answer, in the order in which they are written.
abbrev pub lease_fields : Option ℕ → List Field
lease_fields none = []
lease_fields (some seconds) = (opt_lease_time, big_endian 4 seconds) ∷ []

abbrev pub optional_fields : ℕ → Option Bytes → List Field
optional_fields code none = []
optional_fields code (some value) = (code, value) ∷ []

abbrev pub pxe_fields : ReplyArgs → List Field
pxe_fields a =
    if a.pxe
    then (opt_vendor_class, pxe_vendor_class)
      ∷ (opt_tftp_server_name, bytes_to_ip a.siaddr)
      ∷ (opt_bootfile_name, a.boot_filename ++ 0 ∷ [])
      ∷ []
    else []

abbrev pub reply_fields : ReplyArgs → List Field
reply_fields a =
    (opt_message_type, a.message_type ∷ [])
      ∷ (opt_server_id, a.server_id)
      ∷ lease_fields a.lease_seconds
    ++ (optional_fields opt_subnet_mask a.subnet_mask
        ++ (optional_fields opt_router a.router ++ pxe_fields a))

encode-append : (os qs : List Field) → encode (os ++ qs) ≡ encode os ++ encode qs
encode-append [] qs = refl
encode-append (o ∷ os) qs = simp (encode-append os qs, append_assoc)

lease_part-encode :
    (seconds : Option ℕ)
    → IsBelow (256 ^ 4) seconds
    → lease_part seconds ≡ ok (encode (lease_fields seconds))
unfolding lease_part to_bytes
lease_part-encode none h = refl
lease_part-encode (some n) h =
    rw (lt→ltb n (256 ^ 4) h, length-big_endian 4 n)
      (ap (λ l. ok (opt_lease_time ∷ 4 ∷ l)) (sym (append-nil (big_endian 4 n))))

optional_part-encode :
    (code : ℕ) (value : Option Bytes)
    → HasLength 4 value
    → optional_part code value ≡ encode (optional_fields code value)
unfolding optional_part
optional_part-encode code none h = refl
optional_part-encode code (some v) h = rw h (ap (λ l. code ∷ 4 ∷ l) (sym (append-nil v)))

-- The dotted text of a byte has at most three digits.
holds_up_to : (ℕ → Bool) → ℕ → Bool
holds_up_to test zero = true
holds_up_to test (suc top) = holds_up_to test top && test top

table_entry :
    (test : ℕ → Bool) (top : ℕ) → holds_up_to test top ≡ true → (b : ℕ) → b < top → test b ≡ true
unfolding holds_up_to
table_entry test zero table b low = absurd (omega arith)
table_entry test (suc top) table b low =
    ground (arith, λ (q : holds_up_to test top ≡ true) (l : b < top). table_entry test top q b l)

decimal_table : holds_up_to (λ b. leb (length (decimal b)) 3) 256 ≡ true
unfolding holds_up_to decimal
decimal_table = refl

length-decimal-le : (b : ℕ) → b < 256 → length (decimal b) ≤ 3
length-decimal-le b h =
    let test = table_entry (λ n. leb (length (decimal n)) 3) 256 decimal_table b h in ground arith

length-bytes_to_ip :
    (addr : Bytes) → length addr ≡ 4 → IsBytes addr → length (bytes_to_ip addr) ≤ 15
unfolding bytes_to_ip join
length-bytes_to_ip (b ∷ c ∷ d ∷ e ∷ []) h (hb, (hc, (hd, (he, _)))) = simp length-append (
    omega (
      arith,
      length-decimal-le b hb,
      length-decimal-le c hc,
      length-decimal-le d hd,
      length-decimal-le e he,
    ))
length-bytes_to_ip _ h w = absurd (omega arith)

pxe_part-encode :
    (a : ReplyArgs)
    → IsWellFormed a
    → length a.boot_filename < 255
    → pxe_part a ≡ ok (encode (pxe_fields a))
unfolding pxe_part build_pxe_options bytes_of
pxe_part-encode a w h =
    let name = a.boot_filename ++ 0 ∷ [] in
    let server_fits =
      lt→ltb (length (bytes_to_ip a.siaddr)) 256
        (omega (arith, length-bytes_to_ip a.siaddr w.siaddr w.siaddr_bytes)) in
    let file_fits =
      lt→ltb (length name) 256 (omega (arith, length-append a.boot_filename (0 ∷ []))) in
    elim (Bool-cases a.pxe) [
      | inl on ↦ rw (on, server_fits, file_fits) (simp (append_assoc, append-nil))
      | inr off ↦ rw off
    ]

lease_fields-IsField : (seconds : Option ℕ) → All IsField (lease_fields seconds)
lease_fields-IsField none = tt
lease_fields-IsField (some n) = omega arith

optional_fields-IsField :
    (code : ℕ) (value : Option Bytes)
    → IsField (code, [])
    → All IsField (optional_fields code value)
optional_fields-IsField code none h = tt
optional_fields-IsField code (some v) h = (h, tt)

pxe_fields-IsField : (a : ReplyArgs) → All IsField (pxe_fields a)
pxe_fields-IsField a = elim (Bool-cases a.pxe) [
  | inl on ↦ rw on (omega arith)
  | inr off ↦ rw off tt
]

reply_fields-IsField : (a : ReplyArgs) → All IsField (reply_fields a)
reply_fields-IsField a = (
  omega arith,
  (
    omega arith,
    All-append IsField (lease_fields a.lease_seconds) _ (lease_fields-IsField a.lease_seconds) (
        All-append IsField (optional_fields opt_subnet_mask a.subnet_mask) _
          (optional_fields-IsField opt_subnet_mask a.subnet_mask (omega arith))
          (All-append IsField (optional_fields opt_router a.router) _
            (optional_fields-IsField opt_router a.router (omega arith)) (pxe_fields-IsField a))),
  ),
)

length-encode-ge : (os : List Field) → length os ≤ length (encode os)
length-encode-ge [] = omega arith
length-encode-ge (o ∷ os) = omega (arith, length-append o.1 (encode os), length-encode-ge os)

fields_fit :
    (header : Bytes) (os : List Field) (rest : Bytes)
    → length os ≤ length (header ++ (magic_cookie ++ (encode os ++ rest)))
fields_fit header os rest = omega (
  arith,
  length-append header (magic_cookie ++ (encode os ++ rest)),
  length-append (encode os) rest,
  length-encode-ge os,
)

abbrev pub answer : ReplyArgs → Bytes
answer a = reply_header a ++ (magic_cookie ++ (encode (reply_fields a) ++ opt_end ∷ []))

-- An answer is built exactly as its header, the cookie, its options one by one and the end mark.
pub build_reply-encode :
    (a : ReplyArgs) → IsWellFormed a → length a.boot_filename < 255 → build_reply a ≡ ok (answer a)
unfolding build_reply
build_reply-encode a w fits =
    rw
      (
        lt→ltb a.message_type 256 w.message_type,
        lease_part-encode a.lease_seconds w.lease_seconds,
        pxe_part-encode a w fits,
        optional_part-encode opt_subnet_mask a.subnet_mask w.subnet_mask,
        optional_part-encode opt_router a.router w.router,
      )
      (simp (append_assoc, encode-append, w.server_id))

read_options :
    (a : ReplyArgs)
    → IsWellFormed a
    → parse_raw_options (answer a) ≡ ok (collect (reply_fields a) [])
read_options a w =
    parse_raw_options-encode (reply_fields a) [] (answer a) (reply_fields-IsField a)
      (fields_fit (reply_header a) (reply_fields a) (opt_end ∷ []))
      (sym (drop-drop 4 236 (answer a))
        ∙ ap (drop 4) (
            drop-append (reply_header a) (magic_cookie ++ (encode (reply_fields a) ++ opt_end ∷ []))
              236 (omega (arith, length-reply_header a w))))

-- The options that a client looks up.
lookup_type :
    (a : ReplyArgs)
    → lookup opt_message_type (collect (reply_fields a) []) ≡ some (a.message_type ∷ [])
unfolding lookup insert nat_eq
lookup_type a = ground arith

lookup_vendor :
    (a : ReplyArgs)
    → lookup opt_vendor_class (collect (reply_fields a) [])
      ≡ (if a.pxe then some pxe_vendor_class else none)
unfolding lookup insert nat_eq
lookup_vendor a = ground arith

lookup_requested : (a : ReplyArgs) → lookup opt_requested_ip (collect (reply_fields a) []) ≡ none
unfolding lookup insert nat_eq
lookup_requested a = ground arith

lookup_lease :
    (a : ReplyArgs)
    → lookup opt_lease_time (collect (reply_fields a) [])
      ≡ Option.map (big_endian 4) a.lease_seconds
unfolding lookup insert nat_eq
lookup_lease a = ground arith

lookup_bootfile :
    (a : ReplyArgs)
    → lookup opt_bootfile_name (collect (reply_fields a) [])
      ≡ (if a.pxe then some (a.boot_filename ++ 0 ∷ []) else none)
unfolding lookup insert nat_eq
lookup_bootfile a = ground arith

-- What the parser makes of an answer: the client's identifiers come back unchanged.
abbrev pub echo : ReplyArgs → DhcpRequest
echo a = record {
  message_type = some a.message_type;
  xid = a.xid;
  chaddr = chaddr_field a;
  client_mac = client_mac_of (chaddr_field a);
  vendor_class = if a.pxe then some pxe_vendor_class else none;
  requested_ip = none;
  giaddr = a.giaddr;
  broadcast = false;
}

-- Arguments that are well-formed, with a boot file name of at most 254 bytes, give a packet; the
-- parser reads from it the same transaction id, relay address, message type and (padded or cut to
-- sixteen bytes) hardware address, and the PXE vendor class exactly if PXE options were asked for.
pub parse_request-build_reply :
    (a : ReplyArgs)
    → IsWellFormed a
    → length a.boot_filename < 255
    → (packet : Bytes) × (build_reply a ≡ ok packet) × (parse_request packet ≡ ok (echo a))
unfolding parse_request from_bytes
parse_request-build_reply a w fits =
    let back = magic_cookie ++ (encode (reply_fields a) ++ opt_end ∷ []) in
    (
      answer a,
      build_reply-encode a w fits,
      rw
          (
            read_options a w,
            lookup_type,
            lookup_vendor,
            lookup_requested,
            xid_at a w back,
            flags_at a w back,
            giaddr_at a w back,
            chaddr_at a w back,
          )
          refl,
    )

-- Arguments that are well-formed, with a boot file name of at most 254 bytes, give a packet whose
-- options hold the server's id, the lease time if one is given, and, exactly if PXE options were
-- asked for, the boot file name and the address of the boot server.
pub parse_raw_options-build_reply :
    (a : ReplyArgs)
    → IsWellFormed a
    → length a.boot_filename < 255
    → (packet : Bytes) × (options : Dict ℕ Bytes) × (build_reply a ≡ ok packet)
      × (parse_raw_options packet ≡ ok options)
      × (lookup opt_server_id options ≡ some a.server_id)
      × (lookup opt_lease_time options ≡ Option.map (big_endian 4) a.lease_seconds)
      × (lookup opt_bootfile_name options
          ≡ (if a.pxe then some (a.boot_filename ++ 0 ∷ []) else none))
      × (lookup opt_tftp_server_name options
          ≡ (if a.pxe then some (bytes_to_ip a.siaddr) else none))
unfolding lookup insert nat_eq
parse_raw_options-build_reply a w fits = (
  answer a,
  collect (reply_fields a) [],
  build_reply-encode a w fits,
  read_options a w,
  ground arith,
  lookup_lease a,
  lookup_bootfile a,
  ground arith,
)

-- The packet of `parse_request-build_reply`, with the address that it gives.
pub build_reply-yiaddr :
    (a : ReplyArgs)
    → IsWellFormed a
    → length a.boot_filename < 255
    → (packet : Bytes) × (build_reply a ≡ ok packet)
      × (parse_request packet ≡ ok (echo a))
      × (slice 16 20 packet ≡ a.yiaddr)
build_reply-yiaddr a w fits =
    let (packet, built, read) = parse_request-build_reply a w fits in
    let same : packet ≡ answer a = cc (built, build_reply-encode a w fits) in
    (
      packet,
      built,
      read,
      rw same (yiaddr_at a w (magic_cookie ++ (encode (reply_fields a) ++ opt_end ∷ []))),
    )
