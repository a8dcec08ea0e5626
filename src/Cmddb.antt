-- ===== src/Cmddb.antt =====
-- Library/CmdDBLib: the command database that the firmware leaves in memory, which names the
-- resources of the power manager and their addresses.
pub mod Address
pub mod Types
pub mod Strings
pub mod Search
pub mod First
pub mod Names
pub mod RoundTrip
pub mod Same
pub mod Tests
