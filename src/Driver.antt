-- ===== src/Driver.antt =====
-- The drivers under Driver/ that publish the libraries as protocols of the firmware. The firmware's
-- services that locate and install a protocol are parameters.
pub mod CommandDatabase
pub mod PowerManager
pub mod Pins
pub mod Bridge
pub mod Clocks
pub mod Published
pub mod Requests
mod Tests
use cr_dk.Base.{ℕ}
