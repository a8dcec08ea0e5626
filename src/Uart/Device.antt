-- ===== src/Uart/Device.antt =====
-- The serial device of DebugUartSerialCr.c over the queue of the bytes received.
use cr_dk.Uart.Init.{cr_debug_uart_lib_init}
use cr_dk.Status.{Status}
use cr_dk.Interrupt.{HardwareInterrupt2}
use cr_dk.Mmio.{M, Bus}
use cr_dk.Uart.Read.{Gives, read_ring-Gives}
use cr_dk.Uart.Queue.{Holds}
use cr_dk.Uart.Types.{debug_uart_input_buf_size, UartContext}
use mathlib.Core.Path.{subst}
use cr_dk.Uart.Serial.{
  open_ring, open_port, driver_entry_point, SerialState, serial_read, read_ring,
}
use cr_dk.Uart.Ring.{held}
use cr_dk.Base.{
  ℕ, ◌≡◌, refl, sym, ap, ◌∙◌, inl, inr, Bool, true, false, not, ◌||◌, Option, none, some, List, [],
  arith, ◌==◌, if◌then◌else◌, ==→eq, Bool-cases, length, take, drop, replicate,
}

module _ {S : Type 0} where
  serial_read_nothing :
      (size : ℕ) (st : SerialState S)
      → st.opened ≡ true
      → (size == 0) ≡ true
      → serial_read (some size) true st ≡ ((some 0, []), st)
  unfolding serial_read
  serial_read_nothing size st on e = rw (on, e) refl

  serial_read_something :
      (size : ℕ) (st : SerialState S)
      → st.opened ≡ true
      → (size == 0) ≡ false
      → serial_read (some size) true st ≡ (
        (some (read_ring size st.port.uart).0.0, (read_ring size st.port.uart).0.1),
        record st { port = record st.port { uart = (read_ring size st.port.uart).1 } },
      )
  unfolding serial_read
  serial_read_something size st on e =
      ap (λ (b : Bool). after (not b || (size == 0))) on ∙ ap after e
    where
      after : Bool → (Option ℕ × List ℕ) × SerialState S
      after b = if b then ((some 0, []), st) else (
        (some (read_ring size st.port.uart).0.0, (read_ring size st.port.uart).0.1),
        record st { port = record st.port { uart = (read_ring size st.port.uart).1 } },
      )

  Read : ℕ → List ℕ → ℕ → (Option ℕ × List ℕ) × SerialState S → Type 0
  Read cap q size ((count, bytes), after) =
      (count ≡ some (length (take size q)))
      × (bytes ≡ take size q)
      × Holds cap (drop size q) after.port.uart

-- `SerialRead` on an open port gives the oldest bytes of the ring, as many as were asked for or all that
-- there are, stores how many they are, and leaves the rest in a well-formed ring.
pub serial_read-Holds :
    {S : Type 0} {cap : ℕ} {q : List ℕ} (size : ℕ) (st : SerialState S)
    → st.opened ≡ true
    → Holds cap q st.port.uart
    → let ((count, bytes), after) = serial_read (some size) true st in
      (count ≡ some (length (take size q)))
      × (bytes ≡ take size q)
      × Holds cap (drop size q) after.port.uart
unfolding Read Gives
serial_read-Holds {cap = cap} {q = q} size st on h = elim (Bool-cases (size == 0)) [
  | inl e ↦
      let none_left : 0 ≡ size = sym (==→eq size 0 e) in
      subst (Read cap q size) (sym (serial_read_nothing size st on e)) (
        ap (λ (n : ℕ). some (length (take n q))) none_left,
        ap (λ (n : ℕ). take n q) none_left,
        subst (λ (n : ℕ). Holds cap (drop n q) st.port.uart) none_left h,
      )
  | inr e ↦
      let (count, bytes, rest) = read_ring-Gives size h in
      subst (Read cap q size) (sym (serial_read_something size st on e))
        (ap some count, bytes, rest)
]

pub open_ring-Holds :
    (c : UartContext)
    → Holds debug_uart_input_buf_size [] (open_ring (replicate debug_uart_input_buf_size 0) c)
unfolding held
open_ring-Holds c = record {
  buffer = replicate debug_uart_input_buf_size 0;
  ring = record {
    buffer = refl;
    room = refl;
    nonempty = omega arith;
    small = omega arith;
    head = omega arith;
    size = omega arith;
    tail = refl;
  };
  capacity = refl;
  queue = refl;
}

open_port-Holds :
    {S : Type 0} (install : M S Status) (given : Bool) (s : Option Status) (st : SerialState S)
    → (open_port install given s st).0 ≡ some Status.success
    → ((open_port install given s st).1.opened ≡ given)
      × Holds debug_uart_input_buf_size [] (open_port install given s st).1.port.uart
unfolding open_port
open_port-Holds install given none st e = absurd (cc e)
open_port-Holds install given (some Status.success) st e = (refl, open_ring-Holds st.port.uart)
open_port-Holds install given (some s) st e = absurd (cc e)

-- The driver's entry point that succeeds leaves an open port with an empty ring of 256 bytes.
driver_entry_point-opens :
    {S : Type 0} (bus : Bus S) (raised : S → Bool) (fuel : ℕ) (gic : HardwareInterrupt2 S)
    (isr self : ℕ) (install : M S Status) (given : Bool) (st : SerialState S)
    → (driver_entry_point bus raised fuel gic isr self install given st).0 ≡ some Status.success
    → let after = (driver_entry_point bus raised fuel gic isr self install given st).1 in
      (after.opened ≡ true) × Holds debug_uart_input_buf_size [] after.port.uart
unfolding driver_entry_point cr_debug_uart_lib_init open_port
driver_entry_point-opens bus raised fuel gic isr self install false st e = absurd (cc e)
driver_entry_point-opens bus raised fuel gic isr self install true st e =
    open_port-Holds install true _ _ e
