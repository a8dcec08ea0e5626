-- ===== src/Uart.antt =====
-- Library/DebugUartLib: the debug serial port on a serial engine, with a ring of the bytes received, and
-- Driver/DebugUartSerialCrDxe, which publishes it.
pub mod Types
pub mod Ring
pub mod Window
pub mod Isr
pub mod Queue
pub mod Receiver
pub mod Transmit
pub mod Words
pub mod Line
pub mod Quiet
pub mod Settle
pub mod Init
pub mod Serial
pub mod Read
pub mod Device
pub mod Stream
mod Tests
pub mod Commands
pub mod Word
pub mod Wire
use cr_dk.Base.{ℕ}
