-- ===== src/Tests.antt =====
-- Runs on concrete inputs, and every theorem at an input that meets its conditions.
mod Dhcp
mod Handshake
mod Tftp
mod Interleaved
mod Arrivals
mod Site
mod Login
mod Monitor
mod Helper
mod Lifecycle
mod Editing
mod Booting
mod Sharing
mod Pages
