-- ===== src/Uart/Tests.antt =====
-- A port at 0x880000 whose FIFO holds words, on hardware that records what is sent.
use cr_dk.Uart.Device.{serial_read-Holds, open_ring-Holds}
use cr_dk.Uart.Stream.{Event, arrivals, run, run-keeps, IsRoomy}
use cr_dk.Uart.Receiver.{IsReceiver, bytes_of_words}
use cr_dk.Uart.Line.{IsTransmitter, Line, written, waited}
use cr_dk.Uart.Wire.{msm_geni_write_tx_fifo-sends}
use cr_dk.Bits.{gen_msk}
use cr_dk.Bits.Laws.{testbit-gen_msk}
use cr_dk.Uart.Queue.{Holds, taken, msm_geni_serial_isr-Holds}
use cr_dk.Uart.Serial.{SerialState, initial_mode, open_ring, serial_read, driver_entry_point}
use cr_dk.Uart.Transmit.{msm_geni_write_tx_fifo, free_words}
use cr_dk.Uart.Isr.{msm_geni_serial_isr, word_count}
use cr_dk.Uart.Ring.{held, keep_last}
use cr_dk.Uart.Types.{UartContext, UartState, DebugUartType}
use cr_dk.Interrupt.{TriggerType, HardwareInterrupt2, initial}
use cr_dk.Status.{Status}
use cr_dk.Mmio.{Bus}
use cr_dk.Base.{
  ℕ, ◌-◌, ◌*◌, ◌^◌, ◌<◌, bit_and, ◌≡◌, refl, ap, ◌∙◌, inl, inr, Bool, true, false, ◌&&◌, Option,
  none, some, List, [], ◌∷◌, ◌++◌, arith, ltb, ◌==◌, if◌then◌else◌, ltb→le, Bool-cases, length,
  take, drop, get_or, replicate, testbit, testbit-bit_and, testbit-out, eq_of_testbit,
}

record Port : Type 0 where
  line : Line
  words : List ℕ

abbrev takes : ℕ → ℕ
takes n = 350

abbrev port_bus : Bus Port
port_bus = record {
  peek = λ s a.
      if a == 0x880804
      then length s.words
      else if a == 0x880780
      then get_or s.words 0 0
      else if a == 0x880610
      then (if s.line.done then 1 else 0)
      else if a == 0x880e24
      then 16 * 2 ^ 16
      else 0;
  after_read = λ a s. if a == 0x880780 then record s { words = drop 1 s.words } else s;
  poke = λ a v s. record s { line = written takes (a - 0x880000) v s.line };
  delay = λ us s. record s { line = waited us s.line };
}

abbrev port_raised : Port → Bool
port_raised s = s.line.done && s.line.enabled

abbrev port_arrive : List ℕ → Port → Port
port_arrive ws s = record s { words = s.words ++ ws }

port-IsTransmitter : IsTransmitter port_bus 0x880000 port_raised (λ s. s.line) takes
unfolding testbit
port-IsTransmitter = record {
  wrote = λ off v s h. ap (λ (k : ℕ). written takes k v s.line) (omega (arith, h));
  reads = λ a s. ground arith;
  waits = λ us s. refl;
  reports = λ s. ground arith;
  raises = λ s d e. ground (arith, d, e);
  positive = λ n. omega arith;
  bounded = λ n h. omega arith;
}

low_digits : (n : ℕ) → n < 2 ^ 25 → bit_and n (gen_msk 24 0) ≡ n
low_digits n h = eq_of_testbit (bit_and n (gen_msk 24 0)) n λ i.
    testbit-bit_and n (gen_msk 24 0) i
    ∙ ap (λ (d : Bool). testbit n i && d) (testbit-gen_msk 24 0 i (omega arith) (omega arith))
    ∙ elim (Bool-cases (ltb i 25)) [
      | inl low ↦ ground (arith, low)
      | inr high ↦ ground (arith, testbit-out 25 n i h (ltb→le i 25 high))
    ]

port-IsReceiver : IsReceiver port_bus 0x880000 (λ s. s.words) port_arrive
port-IsReceiver = record {
  block = omega arith;
  fifo_mode = λ s. refl;
  counts = λ s h. low_digits (length s.words) h;
  oldest = λ w ws s e. ap (λ (l : List ℕ). get_or l 0 0) e;
  taken_out = λ w ws s e. ap (λ (l : List ℕ). drop 1 l) e;
  reads = λ a s ne. ground arith;
  writes = λ a v s. refl;
  arrives = λ ws s. refl;
}

abbrev context : UartContext
context = record {
  base_address = 0x880000;
  interrupt_config = record {
    param = 0;
    handler = none;
    interrupt_number = 633;
    trigger_type = TriggerType.level_high;
  };
  is_debug_uart = true;
  uart_type = DebugUartType.geni;
  clock_frequency = 0;
  baud_rate = 115200;
  data_bits = 8;
  parity = 1;
  stop_bits = 1;
  tx_fifo_depth = 16;
  tx_fifo_width = 32;
  rx_fifo_depth = 16;
  tx_complete = false;
  input_buffer = none;
  input_buffer_size = 0;
  input_buffer_head = 0;
  input_buffer_tail = 0;
  input_buffer_capacity = 0;
}

abbrev quiet_line : Line
quiet_line = record { sent = []; len = 0; started = false; left = 0; done = false; enabled = false }

abbrev empty_port : Port
empty_port = record { line = quiet_line; words = [] }

abbrev idle : SerialState Port
idle = record {
  opened = true;
  serial_io_mode = initial_mode;
  uart_device_path = record {
    path_baud_rate = 0;
    path_data_bits = 0;
    path_parity = 0;
    path_stop_bits = 0;
  };
  port = record { uart = open_ring (replicate 256 0) context; irq = initial empty_port };
}

-- Two words have arrived.
abbrev ringing : Port
ringing = record { line = quiet_line; words = 0x44434241 ∷ 0x48474645 ∷ [] }

abbrev interrupted : UartState Port
interrupted = record { uart = open_ring (replicate 256 0) context; irq = initial ringing }

two_words : taken port_bus interrupted.uart ringing ≡ 65 ∷ 66 ∷ 67 ∷ 68 ∷ 69 ∷ 70 ∷ 71 ∷ 72 ∷ []
unfolding taken word_count
two_words = refl

msm_geni_serial_isr-Holds_example :
    Holds 256
      (keep_last 256 ([] ++ taken port_bus interrupted.uart ringing))
      (msm_geni_serial_isr port_bus interrupted).1.uart
msm_geni_serial_isr-Holds_example =
    msm_geni_serial_isr-Holds port_bus interrupted (open_ring-Holds context)

serial_read-Holds_example :
    let ((count, bytes), after) = serial_read (some 3) true idle in
    (count ≡ some 0) × (bytes ≡ take 3 []) × Holds 256 (drop 3 []) after.port.uart
serial_read-Holds_example = serial_read-Holds 3 idle refl (open_ring-Holds context)

-- Two words arrive, one after the other, and then another that no interrupt takes.
abbrev story : List Event
story =
    Event.arrival (0x44434241 ∷ [])
    ∷ Event.arrival (0x48474645 ∷ [])
    ∷ Event.interrupt
    ∷ Event.read 3
    ∷ Event.arrival (0x4c4b4a49 ∷ [])
    ∷ []

story-IsRoomy : IsRoomy port_bus (λ s. s.words) port_arrive story idle
unfolding IsRoomy held
story-IsRoomy = (omega arith, omega arith, tt)

run-keeps_example :
    let (out, last) = run port_bus (λ s. s.words) port_arrive story idle in
    out ++ (held last.port.uart ++ bytes_of_words last.port.irq.hw.words)
    ≡ [] ++ bytes_of_words ([] ++ arrivals story)
run-keeps_example =
    run-keeps port-IsReceiver story idle refl refl (open_ring-Holds context) story-IsRoomy

-- A word that the handler takes in the middle of a read is lost.
abbrev race : List ℕ × SerialState Port
race =
    run port_bus (λ s. s.words) port_arrive
      (Event.arrival (0x44434241 ∷ [])
        ∷ Event.interrupt
        ∷ Event.arrival (0x48474645 ∷ [])
        ∷ Event.read_interrupted 4
        ∷ Event.read 4
        ∷ [])
      idle

race-loses :
    (race.0 ≡ 65 ∷ 66 ∷ 67 ∷ 68 ∷ [])
    × (held race.1.port.uart ≡ [])
    × (race.1.port.irq.hw.words ≡ [])
unfolding run held written
race-loses = (refl, refl, refl)

msm_geni_write_tx_fifo-sends_example :
    let (returned, after) =
      msm_geni_write_tx_fifo port_bus port_raised 9
        (some (72 ∷ 105 ∷ 33 ∷ 33 ∷ 10 ∷ []))
        idle.port in
    (returned ≡ true)
    × (after.irq.hw.line.sent ≡ [] ++ (72 ∷ 105 ∷ 33 ∷ 33 ∷ 10 ∷ []))
    × (after.irq.hw.line.left ≡ 0)
unfolding free_words
msm_geni_write_tx_fifo-sends_example =
    msm_geni_write_tx_fifo-sends port-IsTransmitter 9 (72 ∷ 105 ∷ 33 ∷ 33 ∷ 10 ∷ []) idle.port
      (omega arith, (omega arith, (omega arith, (omega arith, (omega arith, tt))))) refl
      (record { out = refl; taken = refl }) (omega arith)

abbrev quiet : HardwareInterrupt2 Port
quiet = record {
  locate = λ s. true;
  register_source = λ n s. (Status.success, s);
  set_trigger_type = λ n t s. (Status.success, s);
  enable_source = λ n s. (Status.success, s);
  disable_source = λ n s. (Status.success, s);
  end_of_interrupt = λ n s. s;
}

abbrev started : Option Status × SerialState Port
started =
    driver_entry_point port_bus (λ s. true) 9 quiet 700 800 (λ s. (Status.success, s)) true idle

started_lem : started.0 ≡ some Status.success
unfolding driver_entry_point cr_dk.SlotTable.claim
started_lem = refl
