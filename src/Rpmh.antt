-- ===== src/Rpmh.antt =====
-- Library/RpmhLib: the resource power manager's command sets. A driver claims a free TCS (trigger
-- command set), writes its commands into the TCS's registers and triggers it; the interrupt says that
-- the commands are done.
pub mod Types
pub mod Tcs
pub mod Write
pub mod Isr
pub mod Trigger
pub mod Claim
pub mod Layout
pub mod Inflight
pub mod Request
pub mod Send
pub mod Busy
pub mod Tests
