-- ===== src/Uart/Stream.antt =====
-- The bytes on their way from the FIFO of debug_uart.c through its ring to the reader of
-- DebugUartSerialCr.c.
use cr_dk.Interrupt.{IrqState}
use cr_dk.Mmio.{Bus}
use mathlib.Core.List.{append-nil, append_assoc}
use cr_dk.Uart.Isr.{msm_geni_serial_isr}
use cr_dk.Uart.Queue.{Holds, taken, msm_geni_serial_isr-Holds, base_address-msm_geni_serial_isr}
use cr_dk.Uart.Types.{UartContext}
use mathlib.Core.Path.{subst, ap₂}
use cr_dk.Uart.Serial.{
  read_from, on_port, SerialState, serial_read, read_ring, serial_read_interrupted,
}
use cr_dk.Uart.Window.{keep_last-small}
use cr_dk.Uart.Ring.{held, keep_last}
use cr_dk.Uart.Receiver.{
  IsReceiver, bytes_of_words, bytes_of_words-append, taken-waiting, isr-empties,
}
use cr_dk.Base.{
  ℕ, ◌+◌, ◌≤◌, ◌<◌, ◌≡◌, refl, sym, ap, ◌∙◌, inl, inr, true, Option, none, some, List, [], ◌∷◌,
  ◌++◌, arith, ◌==◌, Bool-cases, length, take, drop, take-append-drop, length-append,
}
use cr_dk.Uart.Device.{serial_read-Holds}

-- What happens to a port: words arrive, the handler runs, the firmware reads, or the handler runs in the
-- middle of a read.
pub data Event : Type 0 where
  arrival : List ℕ → Event
  interrupt : Event
  read read_interrupted : ℕ → Event

abbrev pub arrivals : List Event → List ℕ
arrivals [] = []
arrivals (Event.arrival ws ∷ events) = ws ++ arrivals events
arrivals (_ ∷ events) = arrivals events

base_address-read_from :
    (buf : List ℕ) (size : ℕ) (c : UartContext)
    → (read_from buf size c).1.base_address ≡ c.base_address
unfolding read_from
base_address-read_from buf size c = elim (Bool-cases (c.input_buffer_size == 0)) [
  | inl e ↦ rw e refl
  | inr e ↦ rw e refl
]

abbrev read_by : ℕ → UartContext → Option (List ℕ) → (ℕ × List ℕ) × UartContext
read_by size c o = elim o [ none ↦ ((0, []), c) | some buf ↦ read_from buf size c ]

base_address-read_ring :
    (size : ℕ) (c : UartContext) → (read_ring size c).1.base_address ≡ c.base_address
unfolding read_ring
base_address-read_ring size c =
    elim c.input_buffer as (λ o. (read_by size c o).1.base_address ≡ c.base_address) [
      | none ↦ refl
      | some buf ↦ base_address-read_from buf size c
    ]

module _ {S : Type 0} (bus : Bus S) (waiting : S → List ℕ) (arrive : List ℕ → S → S) where
  abbrev pub receiving : List ℕ → SerialState S → SerialState S
  receiving ws st = record st {
    port = record st.port { irq = record st.port.irq { hw = arrive ws st.port.irq.hw } };
  }

  -- The bytes that the firmware has read, and the state at the end.
  unfoldable pub run : List Event → SerialState S → List ℕ × SerialState S
  unfolding msm_geni_serial_isr serial_read serial_read_interrupted
  run [] st = ([], st)
  run (Event.arrival ws ∷ events) st = run events (receiving ws st)
  run (Event.interrupt ∷ events) st = run events (on_port (msm_geni_serial_isr bus) st).1
  run (Event.read size ∷ events) st =
      let ((count, bytes), st') = serial_read (some size) true st in
      let (out, last) = run events st' in (bytes ++ out, last)
  run (Event.read_interrupted size ∷ events) st =
      let ((count, bytes), st') =
        serial_read_interrupted (λ port. (msm_geni_serial_isr bus port).1) size st in
      let (out, last) = run events st' in (bytes ++ out, last)

  -- At each interrupt fewer than 256 words wait, and the ring has room for their bytes; and no interrupt
  -- falls into a read.
  unfoldable pub IsRoomy : List Event → SerialState S → Type 0
  unfolding msm_geni_serial_isr serial_read held
  IsRoomy [] st = Unit
  IsRoomy (Event.arrival ws ∷ events) st = IsRoomy events (receiving ws st)
  IsRoomy (Event.interrupt ∷ events) st =
      (length (waiting st.port.irq.hw) < 256)
      × (length (held st.port.uart) + length (bytes_of_words (waiting st.port.irq.hw))
          ≤ st.port.uart.input_buffer_capacity)
      × IsRoomy events (on_port (msm_geni_serial_isr bus) st).1
  IsRoomy (Event.read size ∷ events) st = IsRoomy events (serial_read (some size) true st).1
  IsRoomy (Event.read_interrupted size ∷ events) st = ⊥

  opened-serial_read :
      (size : ℕ) (st : SerialState S) → (serial_read (some size) true st).1.opened ≡ st.opened
  unfolding serial_read
  opened-serial_read size st = ground arith

  hw-serial_read :
      (size : ℕ) (st : SerialState S) → (serial_read (some size) true st).1.port.irq ≡ st.port.irq
  unfolding serial_read
  hw-serial_read size st = ground arith

  base-serial_read :
      (size : ℕ) (st : SerialState S)
      → (serial_read (some size) true st).1.port.uart.base_address ≡ st.port.uart.base_address
  unfolding serial_read
  base-serial_read size st = ground (arith, base_address-read_ring size st.port.uart)

module _ {S : Type 0} {bus : Bus S} {base : ℕ} {waiting : S → List ℕ} {arrive : List ℕ → S → S}
    (r : IsReceiver bus base waiting arrive) where
  -- No byte that arrives is lost, doubled or out of place: what the firmware has read, what the ring holds
  -- in the end and what still waits in the FIFO are the bytes that the ring held at first, those that
  -- waited, and those of the words that arrived, in order. At each interrupt fewer than 256 words wait
  -- and the ring has room for them, and no interrupt falls into a read. The port is open, and its receiver
  -- is not in DMA mode.
  pub run-keeps :
      (events : List Event) {cap : ℕ} {q : List ℕ} (st : SerialState S)
      → st.opened ≡ true
      → st.port.uart.base_address ≡ base
      → Holds cap q st.port.uart
      → IsRoomy bus waiting arrive events st
      → let (out, last) = run bus waiting arrive events st in
        out ++ (held last.port.uart ++ bytes_of_words (waiting last.port.irq.hw))
        ≡ q ++ bytes_of_words (waiting st.port.irq.hw ++ arrivals events)
  unfolding run IsRoomy
  run-keeps [] {q = q} st on b h roomy =
      ap₂ ◌++◌ h.queue (ap bytes_of_words (sym (append-nil (waiting st.port.irq.hw))))
  run-keeps (Event.arrival ws ∷ events) {q = q} st on b h roomy =
      run-keeps events (receiving bus waiting arrive ws st) on b h roomy
      ∙ ap (λ (t : List ℕ). q ++ bytes_of_words t)
          (ap (λ (t : List ℕ). t ++ arrivals events) (r.arrives ws st.port.irq.hw)
            ∙ append_assoc (waiting st.port.irq.hw) ws (arrivals events))
  run-keeps (Event.interrupt ∷ events) {cap = n} {q = q} st on b h (few, room, roomy) =
      run-keeps events (on_port (msm_geni_serial_isr bus) st).1 on
        (base_address-msm_geni_serial_isr bus st.port ∙ b)
        (subst (λ (t : List ℕ). Holds n t (msm_geni_serial_isr bus st.port).1.uart) kept
          (msm_geni_serial_isr-Holds bus st.port h))
        roomy
      ∙ ap (λ (t : List ℕ). (q ++ bytes) ++ bytes_of_words (t ++ arrivals events))
          (isr-empties r st.port b few)
      ∙ append_assoc q bytes (bytes_of_words (arrivals events))
      ∙ ap (λ (t : List ℕ). q ++ t)
          (sym (bytes_of_words-append (waiting st.port.irq.hw) (arrivals events)))
    where
      bytes : List ℕ
      bytes = bytes_of_words (waiting st.port.irq.hw)

      kept : keep_last n (q ++ taken bus st.port.uart st.port.irq.hw) ≡ q ++ bytes
      kept =
          ap (λ (t : List ℕ). keep_last n (q ++ t))
            (taken-waiting r st.port.uart st.port.irq.hw b few)
          ∙ keep_last-small n (q ++ bytes)
              (omega (arith, length-append q bytes, room, ap length h.queue, h.capacity))
  run-keeps (Event.read size ∷ events) {q = q} st on b h roomy =
      let (count, bytes, rest) = serial_read-Holds size st on h in
      let after = (serial_read (some size) true st).1 in
      let (out, last) = run bus waiting arrive events after in
      append_assoc (serial_read (some size) true st).0.1 out
        (held last.port.uart ++ bytes_of_words (waiting last.port.irq.hw))
      ∙ ap₂ ◌++◌ bytes (
          run-keeps events after (opened-serial_read bus waiting arrive size st ∙ on)
            (base-serial_read bus waiting arrive size st ∙ b) rest roomy)
      ∙ sym (append_assoc (take size q) (drop size q) _)
      ∙ ap₂ (λ (t : List ℕ) (s : IrqState S). t ++ bytes_of_words (waiting s.hw ++ arrivals events))
          (take-append-drop size q) (hw-serial_read bus waiting arrive size st)
  run-keeps (Event.read_interrupted size ∷ events) st on b h roomy = absurd roomy
