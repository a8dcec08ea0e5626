-- ===== src/Uart/Serial.antt =====
-- Driver/DebugUartSerialCrDxe/DebugUartSerialCr.c: the port as a serial device of the firmware.
use cr_dk.Uart.Init.{cr_debug_uart_lib_init}
use cr_dk.Uart.Transmit.{msm_geni_write_tx_fifo}
use cr_dk.Uart.Ring.{advance}
use cr_dk.Uart.Types.{UartContext, UartState, on_bus, debug_uart_input_buf_size}
use cr_dk.Interrupt.{HardwareInterrupt2}
use cr_dk.Status.{Status, cr_error}
use cr_dk.Bits.{u32}
use cr_dk.Mmio.{M, pure, ◌>>=◌, Bus}
use cr_dk.Base.{
  ℕ, zero, suc, ◌-◌, Bool, true, false, not, ◌||◌, Option, none, some, List, [], ◌∷◌, ltb, ◌==◌,
  if◌then◌else◌, get_or, replicate,
}

-- The settings of the port, in the mode of the protocol and in the device path.
pub record SerialIoMode : Type 0 where
  pub control_mask : ℕ
  pub timeout : ℕ
  pub mode_baud_rate : ℕ
  pub receive_fifo_depth : ℕ
  pub mode_data_bits : ℕ
  pub mode_parity : ℕ
  pub mode_stop_bits : ℕ

pub record UartDevicePath : Type 0 where
  pub path_baud_rate : ℕ
  pub path_data_bits : ℕ
  pub path_parity : ℕ
  pub path_stop_bits : ℕ

-- `opened` is whether `mDebugUartContext` is set; the context and the hardware are `port`.
pub record SerialState (S : Type 0) : Type 0 where
  pub opened : Bool
  pub serial_io_mode : SerialIoMode
  pub uart_device_path : UartDevicePath
  pub port : UartState S

abbrev pub initial_mode : SerialIoMode
initial_mode = record {
  control_mask = 0;
  timeout = 1000000;
  mode_baud_rate = 0;
  receive_fifo_depth = 1;
  mode_data_bits = 0;
  mode_parity = 0;
  mode_stop_bits = 0;
}

-- The parameters are ignored.
abbrev pub serial_reset : Status
serial_reset = Status.success

abbrev pub serial_get_control : Option ℕ → Status × Option ℕ
serial_get_control control = (Status.success, elim control [ none ↦ none | some c ↦ some 0 ])

-- The loop of `SerialRead`: the bytes read, and the head behind them.
unfoldable pub read_bytes : List ℕ → ℕ → ℕ → ℕ → List ℕ × ℕ
unfolding advance
read_bytes buf cap zero head = ([], head)
read_bytes buf cap (suc n) head =
    let (bytes, last) = read_bytes buf cap n (advance cap head) in (get_or buf head 0 ∷ bytes, last)

-- `SerialRead` on the context and the buffer of its ring, for a size that is not 0: the size it stores,
-- and the bytes it stores for the caller.
unfoldable pub read_from : List ℕ → ℕ → UartContext → (ℕ × List ℕ) × UartContext
unfolding read_bytes
read_from buf size c =
    let available = c.input_buffer_size in
    let to_read = if ltb size available then size else available in
    let (bytes, head) = read_bytes buf c.input_buffer_capacity to_read c.input_buffer_head in
    if available == 0 then ((0, []), c) else (
      (to_read, bytes),
      record c { input_buffer_head = head; input_buffer_size = u32 (available - to_read) },
    )

unfoldable pub read_ring : ℕ → UartContext → (ℕ × List ℕ) × UartContext
unfolding read_from
read_ring size c = elim c.input_buffer [ none ↦ ((0, []), c) | some buf ↦ read_from buf size c ]

module _ {S : Type 0} where
  -- `SerialRead`: the size is `none` for NULL, as is the buffer if `buffer` is false. It always succeeds.
  unfoldable pub serial_read : Option ℕ → Bool → M (SerialState S) (Option ℕ × List ℕ)
  unfolding read_ring
  serial_read none buffer st = ((none, []), st)
  serial_read (some size) false st = ((some size, []), st)
  serial_read (some size) true st =
      if not st.opened || (size == 0)
      then ((some 0, []), st)
      else let ((count, bytes), c) = read_ring size st.port.uart in
        ((some count, bytes), record st { port = record st.port { uart = c } })

-- `SerialRead` with `handler` coming between the loop and the store of the ring's size, which was computed
-- from the size at first; without a loop there is no such store.
unfoldable pub serial_read_interrupted :
    {S : Type 0}
    → (UartState S → UartState S)
    → ℕ
    → SerialState S
    → (Option ℕ × List ℕ) × SerialState S
unfolding serial_read read_ring
serial_read_interrupted handler size st =
    let c = st.port.uart in
    let no_ring : Bool = elim c.input_buffer [ none ↦ true | some buf ↦ false ] in
    let (given, plain) = serial_read (some size) true st in
    let head_moved = record c { input_buffer_head = plain.port.uart.input_buffer_head } in
    let handled = handler (record st.port { uart = head_moved }) in
    let uart = record handled.uart { input_buffer_size = plain.port.uart.input_buffer_size } in
    if not st.opened || (size == 0) || no_ring || (c.input_buffer_size == 0)
    then (given, record plain { port = handled })
    else (given, record plain { port = record handled { uart = uart } })

abbrev pub on_port : {S A : Type 0} → M (UartState S) A → M (SerialState S) A
on_port m st = let (a, port) = m st.port in (a, record st { port = port })

-- The ring that the driver sets up over its buffer.
abbrev pub open_ring : List ℕ → UartContext → UartContext
open_ring buf c = record c {
  input_buffer = some buf;
  input_buffer_size = 0;
  input_buffer_head = 0;
  input_buffer_tail = 0;
  input_buffer_capacity = debug_uart_input_buf_size;
}

-- `DriverEntryPoint` behind the library's status. `install` is the call that installs the protocol.
unfoldable pub open_port :
    {S : Type 0} → M S Status → Bool → Option Status → M (SerialState S) (Option Status)
open_port install given none st = (none, record st { opened = given })
open_port install given (some Status.success) st =
    let c = open_ring (replicate debug_uart_input_buf_size 0) st.port.uart in
    let (installed, port) = on_bus install (record st.port { uart = c }) in
    (
      some (if cr_error installed then installed else Status.success),
      record {
        opened = given;
        serial_io_mode = record st.serial_io_mode {
          mode_baud_rate = c.baud_rate;
          mode_data_bits = c.data_bits;
          mode_parity = c.parity;
          mode_stop_bits = c.stop_bits;
          receive_fifo_depth = c.rx_fifo_depth;
        };
        uart_device_path = record {
          path_baud_rate = c.baud_rate;
          path_data_bits = c.data_bits;
          path_parity = c.parity;
          path_stop_bits = c.stop_bits;
        };
        port = port;
      },
    )
open_port install given (some s) st = (some s, record st { opened = given })

module _ {S : Type 0} (bus : Bus S) (raised : S → Bool) (fuel : ℕ) where
  -- `SerialWrite`; the buffer's length is `*BufferSize`. `none` is a wait without end.
  unfoldable pub serial_write : Option (List ℕ) → M (SerialState S) (Option Status)
  unfolding msm_geni_write_tx_fifo
  serial_write none = pure (some Status.invalid_parameter)
  serial_write (some buffer) = λ st.
      if not st.opened
      then (some Status.device_error, st)
      else let (returned, st') =
          on_port (msm_geni_write_tx_fifo bus raised fuel (some buffer)) st in
        (if returned then some Status.success else none, st')

  -- `DriverEntryPoint`.
  unfoldable pub driver_entry_point :
      HardwareInterrupt2 S → ℕ → ℕ → M S Status → Bool → M (SerialState S) (Option Status)
  unfolding cr_debug_uart_lib_init open_port
  driver_entry_point gic isr self install given = do
    status ← on_port (cr_debug_uart_lib_init bus gic raised isr self fuel given)
    open_port install given status
