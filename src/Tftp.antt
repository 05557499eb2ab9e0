-- ===== src/Tftp.antt =====
-- The TFTP server: src/diskless/bootd/tftp.py.
pub mod Packets
pub mod Transfer
pub mod Server
