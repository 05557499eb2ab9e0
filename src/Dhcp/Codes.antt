-- ===== src/Dhcp/Codes.antt =====
-- The constants of src/diskless/dhcp/common.py.
use diskless.Base.{ℕ, ◌+◌, [], ◌∷◌, Bytes, codes, length}

abbrev pub opt_subnet_mask : ℕ
opt_subnet_mask = 1

abbrev pub opt_router : ℕ
opt_router = 3

abbrev pub opt_requested_ip : ℕ
opt_requested_ip = 50

abbrev pub opt_lease_time : ℕ
opt_lease_time = 51

abbrev pub opt_message_type : ℕ
opt_message_type = 53

abbrev pub opt_server_id : ℕ
opt_server_id = 54

abbrev pub opt_vendor_class : ℕ
opt_vendor_class = 60

abbrev pub opt_tftp_server_name : ℕ
opt_tftp_server_name = 66

abbrev pub opt_bootfile_name : ℕ
opt_bootfile_name = 67

abbrev pub opt_end : ℕ
opt_end = 255

abbrev pub msg_discover : ℕ
msg_discover = 1

abbrev pub msg_offer : ℕ
msg_offer = 2

abbrev pub msg_request : ℕ
msg_request = 3

abbrev pub msg_ack : ℕ
msg_ack = 5

abbrev pub pxe_vendor_class : Bytes
pxe_vendor_class = codes "PXEClient"

abbrev pub magic_cookie : Bytes
magic_cookie = 99 ∷ 130 ∷ 83 ∷ 99 ∷ []

abbrev pub zero_ip : Bytes
zero_ip = 0 ∷ 0 ∷ 0 ∷ 0 ∷ []

abbrev pub bootp_header_len : ℕ
bootp_header_len = 236

abbrev pub options_start : ℕ
options_start = bootp_header_len + length magic_cookie
