-- ===== src/Dhcp.antt =====
-- The DHCP server of both modes: src/diskless/dhcp/common.py, src/diskless/bootd/dhcp_standalone.py
-- and src/diskless/bootd/dhcp_proxy.py.
pub mod Codes
pub mod Request
pub mod Reply
pub mod Pool
pub mod Server
