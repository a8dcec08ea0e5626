-- ===== src/Gpio.antt =====
-- Library/GpioLib/gpio.c: the pins of the top level mode multiplexer, each with a control register, an
-- input and output register, and three registers for its interrupt.
pub mod Types
pub mod Config
pub mod Trigger
pub mod Fields
pub mod RoundTrip
pub mod Irq
pub mod Handlers
pub mod Detection
pub mod Enable
mod Tests
