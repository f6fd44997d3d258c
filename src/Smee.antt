-- ===== src/Smee.antt =====
-- The network boot service smee.
pub mod Syslog
pub mod Dhcp
pub mod Iso
mod Tests
