-- ===== src/Dhcp/Reply/Layout.antt =====
-- Where the fixed fields of an answer stand, and the options behind them.
use mathlib.Core.List.{append_assoc}
use diskless.Base.{
  ℕ, ◌+◌, ◌-◌, ◌<◌, ◌≡◌, refl, ap, ◌∙◌, Option, none, some, [], ◌∷◌, ◌++◌, arith, Bytes, IsBytes,
  length, take, slice, ljust, replicate, length-append, length-take, length-replicate, take-append,
  drop-append, ◌^◌,
}
use diskless.Dhcp.Codes.{bootp_header_len}
use diskless.Dhcp.Reply.{ReplyArgs, reply_header}

-- `ljust` and a cut make a field of exactly `n` bytes.
pub length-take-ljust : (n : ℕ) (bs : Bytes) → length (take n (ljust n 0 bs)) ≡ n
unfolding ljust
length-take-ljust n bs = omega (
  arith,
  length-take n (bs ++ replicate (n - length bs) 0),
  length-append bs (replicate (n - length bs) 0),
  length-replicate (n - length bs) (let z : ℕ = 0 in z),
)

abbrev pub HasLength : ℕ → Option Bytes → Type 0
HasLength n none = Unit
HasLength n (some v) = length v ≡ n

abbrev pub IsBelow : ℕ → Option ℕ → Type 0
IsBelow n none = Unit
IsBelow n (some v) = v < n

-- What `build_reply` relies on: addresses of four bytes, numbers that fit their fields.
pub record IsWellFormed (a : ReplyArgs) : Type 0 where
  pub xid : length a.xid ≡ 4
  pub yiaddr : length a.yiaddr ≡ 4
  pub siaddr : length a.siaddr ≡ 4
  pub siaddr_bytes : IsBytes a.siaddr
  pub giaddr : length a.giaddr ≡ 4
  pub server_id : length a.server_id ≡ 4
  pub subnet_mask : HasLength 4 a.subnet_mask
  pub router : HasLength 4 a.router
  pub message_type : a.message_type < 256
  pub lease_seconds : IsBelow (256 ^ 4) a.lease_seconds

-- A block of a packet is what the slice between its ends reads.
pub slice-append :
    (front x back packet : Bytes) (i j : ℕ)
    → packet ≡ front ++ (x ++ back)
    → i ≡ length front
    → j ≡ i + length x
    → slice i j packet ≡ x
slice-append front x back packet i j e h k =
    ap (slice i j) e
    ∙ ap (take (j - i)) (drop-append front (x ++ back) i h)
    ∙ take-append x back (j - i) (omega arith)

abbrev zero_byte : ℕ
zero_byte = 0

abbrev pub chaddr_field : ReplyArgs → Bytes
chaddr_field a = take 16 (ljust 16 0 a.chaddr)

abbrev pub file_field : ReplyArgs → Bytes
file_field a = take 128 (ljust 128 0 a.boot_filename)

module _ (a : ReplyArgs) (w : IsWellFormed a) where
  pub length-reply_header : length (reply_header a) ≡ bootp_header_len
  unfolding reply_header
  length-reply_header = simp length-append (
      omega (
        arith,
        length-take-ljust 16 a.chaddr,
        length-replicate 64 zero_byte,
        length-take-ljust 128 a.boot_filename,
      ))

  -- Each field of a packet that begins with the header, wherever it goes on.
  module _ (back : Bytes) where
    abbrev before_yiaddr : Bytes
    before_yiaddr = 2 ∷ 1 ∷ 6 ∷ 0 ∷ [] ++ a.xid ++ 0 ∷ 0 ∷ 0 ∷ 0 ∷ 0 ∷ 0 ∷ 0 ∷ 0 ∷ []

    abbrev before_chaddr : Bytes
    before_chaddr = before_yiaddr ++ a.yiaddr ++ a.siaddr ++ a.giaddr

    abbrev after_chaddr : Bytes
    after_chaddr = replicate 64 zero_byte ++ (file_field a ++ back)

    abbrev after_siaddr : Bytes
    after_siaddr = a.giaddr ++ (chaddr_field a ++ after_chaddr)

    abbrev after_flags : Bytes
    after_flags = 0 ∷ 0 ∷ 0 ∷ 0 ∷ a.yiaddr ++ (a.siaddr ++ after_siaddr)

    abbrev packet : Bytes
    packet = reply_header a ++ back

    pub xid_at : slice 4 8 packet ≡ a.xid
    unfolding reply_header
    xid_at =
        slice-append (2 ∷ 1 ∷ 6 ∷ 0 ∷ []) a.xid (0 ∷ 0 ∷ 0 ∷ 0 ∷ after_flags) packet 4 8
          (simp append_assoc) refl (omega arith)

    pub flags_at : slice 10 12 packet ≡ 0 ∷ 0 ∷ []
    unfolding reply_header
    flags_at =
        slice-append (2 ∷ 1 ∷ 6 ∷ 0 ∷ [] ++ a.xid ++ 0 ∷ 0 ∷ []) (0 ∷ 0 ∷ []) after_flags packet 10
          12 (simp append_assoc) (simp length-append (omega arith)) refl

    pub yiaddr_at : slice 16 20 packet ≡ a.yiaddr
    unfolding reply_header
    yiaddr_at =
        slice-append before_yiaddr a.yiaddr (a.siaddr ++ after_siaddr) packet 16 20
          (simp append_assoc) (simp length-append (omega arith)) (omega arith)

    pub siaddr_at : slice 20 24 packet ≡ a.siaddr
    unfolding reply_header
    siaddr_at =
        slice-append (before_yiaddr ++ a.yiaddr) a.siaddr after_siaddr packet 20 24
          (simp append_assoc) (simp length-append (omega arith)) (omega arith)

    pub giaddr_at : slice 24 28 packet ≡ a.giaddr
    unfolding reply_header
    giaddr_at =
        slice-append (before_yiaddr ++ a.yiaddr ++ a.siaddr) a.giaddr
          (chaddr_field a ++ after_chaddr) packet 24 28 (simp append_assoc)
          (simp length-append (omega arith)) (omega arith)

    pub chaddr_at : slice 28 44 packet ≡ chaddr_field a
    unfolding reply_header
    chaddr_at =
        slice-append before_chaddr (chaddr_field a) after_chaddr packet 28 44 (simp append_assoc)
          (simp length-append (omega arith)) (omega (arith, length-take-ljust 16 a.chaddr))

    pub file_at : slice 108 236 packet ≡ file_field a
    unfolding reply_header
    file_at =
        slice-append (before_chaddr ++ chaddr_field a ++ replicate 64 zero_byte) (file_field a) back
          packet 108 236 (simp append_assoc)
          (simp length-append
            (omega (arith, length-take-ljust 16 a.chaddr, length-replicate 64 zero_byte)))
          (omega (arith, length-take-ljust 128 a.boot_filename))
