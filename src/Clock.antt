-- ===== src/Clock.antt =====
-- Library/ClockLib: the tree of clocks, the rates of their generators, the power domains, and the
-- measurement of a clock's frequency.
pub mod Types
pub mod Rate
pub mod Policy
pub mod Floor
pub mod Rcg
pub mod Enable
pub mod Gdsc
pub mod Lookup
pub mod Debugcc
pub mod Update
pub mod Branch
pub mod Hertz
mod Tests
use cr_dk.Base.{ℕ}
