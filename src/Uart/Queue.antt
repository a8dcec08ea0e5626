-- ===== src/Uart/Queue.antt =====
-- The interrupt handler of debug_uart.c on the queue of the bytes received.
use cr_dk.Bits.{bit, u64, u32}
use cr_dk.Uart.Window.{keep_last-small, length-held, put-IsRing, held-put, keep_last-append}
use cr_dk.Uart.Ring.{put, put_bytes, IsRing, held, keep_last}
use cr_dk.Uart.Isr.{word_count, msm_geni_serial_isr, complete, receive, drain}
use cr_dk.Uart.Types.{
  rx_fifo_status, dma_mode_en, UartContext, UartState, reg, m_irq_status, s_irq_status, m_irq_clr,
  s_irq_clr, rx_fifo_n,
}
use mathlib.Core.Path.{subst, ap₂}
use mathlib.Core.List.{append-nil, append_assoc}
use cr_dk.Mmio.{Bus}
use cr_dk.Base.{
  ℕ, zero, suc, ◌+◌, ◌*◌, ◌/◌, ◌%◌, ◌^◌, ◌≤◌, bit_and, ◌≡◌, refl, sym, ap, ◌∙◌, inl, inr, List, [],
  ◌∷◌, ◌++◌, arith, ◌==◌, if◌then◌else◌, Bool-cases, length,
}

-- A ring of capacity `cap` that holds the queue `q`.
pub record Holds (cap : ℕ) (q : List ℕ) (c : UartContext) : Type 0 where
  pub buffer : List ℕ
  pub ring : IsRing c buffer
  pub capacity : c.input_buffer_capacity ≡ cap
  pub queue : held c ≡ q

-- The bytes of a word, the lowest first.
abbrev pub bytes_from : ℕ → ℕ → ℕ → List ℕ
bytes_from zero i word = []
bytes_from (suc n) i word = (word / 2 ^ (i * 8) % 2 ^ 8) ∷ bytes_from n (i + 1) word

capacity-put : (x : ℕ) (c : UartContext) → (put x c).input_buffer_capacity ≡ c.input_buffer_capacity
unfolding put
capacity-put x c = ground arith

base_address-put : (x : ℕ) (c : UartContext) → (put x c).base_address ≡ c.base_address
unfolding put
base_address-put x c = ground arith

pub base_address-put_bytes :
    (n i word : ℕ) (c : UartContext) → (put_bytes n i word c).base_address ≡ c.base_address
unfolding put_bytes
base_address-put_bytes zero i word c = refl
base_address-put_bytes (suc n) i word c =
    base_address-put_bytes n (i + 1) word (put (word / 2 ^ (i * 8) % 2 ^ 8) c)
    ∙ base_address-put (word / 2 ^ (i * 8) % 2 ^ 8) c

pub base_address-complete :
    (status : ℕ) (c : UartContext) → (complete status c).base_address ≡ c.base_address
unfolding complete
base_address-complete status c = ground arith

put-Holds :
    {cap : ℕ} {q : List ℕ} {c : UartContext} (x : ℕ)
    → Holds cap q c
    → Holds cap (keep_last cap (q ++ (x ∷ []))) (put x c)
put-Holds {cap} {q} {c} x h = record {
  buffer = _;
  ring = put-IsRing h.ring x;
  capacity = capacity-put x c ∙ h.capacity;
  queue =
      held-put h.ring x
      ∙ ap₂ (λ (k : ℕ) (t : List ℕ). keep_last k (t ++ (x ∷ []))) h.capacity h.queue;
}

fits : {cap : ℕ} {q : List ℕ} {c : UartContext} → Holds cap q c → length q ≤ cap
fits {q} h = omega (arith, ap length h.queue, length-held h.ring, h.ring.size, h.capacity)

none_more :
    {cap : ℕ} {q : List ℕ} {c : UartContext} → Holds cap q c → Holds cap (keep_last cap (q ++ [])) c
none_more {cap} {q} {c} h =
    subst (λ (t : List ℕ). Holds cap t c)
      (sym (ap (keep_last cap) (append-nil q) ∙ keep_last-small cap q (fits h))) h

-- What comes behind what has come already.
more :
    {cap : ℕ} {c : UartContext} (q xs ys : List ℕ)
    → Holds cap (keep_last cap (keep_last cap (q ++ xs) ++ ys)) c
    → Holds cap (keep_last cap (q ++ (xs ++ ys))) c
more {cap} {c} q xs ys h =
    subst (λ (t : List ℕ). Holds cap t c)
      (keep_last-append cap (q ++ xs) ys ∙ ap (keep_last cap) (append_assoc q xs ys)) h

put_bytes-Holds :
    (n i word : ℕ) {cap : ℕ} {q : List ℕ} {c : UartContext}
    → Holds cap q c
    → Holds cap (keep_last cap (q ++ bytes_from n i word)) (put_bytes n i word c)
unfolding put_bytes
put_bytes-Holds zero i word h = none_more h
put_bytes-Holds (suc n) i word {q = q} h =
    let byte : ℕ = word / 2 ^ (i * 8) % 2 ^ 8 in
    more q (byte ∷ []) (bytes_from n (i + 1) word)
      (put_bytes-Holds n (i + 1) word (put-Holds byte h))

module _ {S : Type 0} (bus : Bus S) where
  -- The bytes of the next `n` words that are read from a FIFO.
  abbrev pub fifo_bytes : ℕ → ℕ → S → List ℕ
  fifo_bytes fifo zero s = []
  fifo_bytes fifo (suc n) s =
      bytes_from 4 0 (bus.peek s fifo) ++ fifo_bytes fifo n (bus.after_read fifo s)

  drain-Holds :
      (n : ℕ) {cap : ℕ} {q : List ℕ} (st : UartState S)
      → Holds cap q st.uart
      → Holds cap
          (keep_last cap (q ++ fifo_bytes (reg st.uart rx_fifo_n) n st.irq.hw))
          (drain bus n st).1.uart
  unfolding drain
  drain-Holds zero st h = none_more h
  drain-Holds (suc n) {cap = cap} {q = q} st h =
      more q (bytes_from 4 0 word) (fifo_bytes fifo n st'.irq.hw) (
        subst
          (λ (a : ℕ).
            Holds cap
              (keep_last cap
                (keep_last cap (q ++ bytes_from 4 0 word) ++ fifo_bytes a n st'.irq.hw))
              (drain bus n st').1.uart)
          (ap (λ (a : ℕ). u64 (a + rx_fifo_n)) (base_address-put_bytes 4 0 word st.uart))
          (drain-Holds n st' (put_bytes-Holds 4 0 word h)))
    where
      fifo : ℕ
      fifo = reg st.uart rx_fifo_n

      word : ℕ
      word = bus.peek st.irq.hw fifo

      st' : UartState S
      st' = record {
        uart = put_bytes 4 0 word st.uart;
        irq = record st.irq { hw = bus.after_read fifo st.irq.hw };
      }

  -- What `MsmGeniSerialIsr` finds in the FIFO: the hardware after the registers of the interrupt's cause
  -- have been read and cleared, and the mode and the count have been read.
  unfoldable pub acknowledged : UartContext → S → S
  acknowledged c s =
      let s1 = bus.after_read (reg c m_irq_status) s in
      let s2 = bus.after_read (reg c s_irq_status) s1 in
      let s3 = bus.poke (reg c m_irq_clr) (u32 (bus.peek s (reg c m_irq_status))) s2 in
      bus.poke (reg c s_irq_clr) (u32 (bus.peek s1 (reg c s_irq_status))) s3

  -- The bytes that a port takes from its FIFO, none in DMA mode.
  unfoldable pub arrived : ℕ → S → List ℕ
  arrived base s =
      let s' = bus.after_read (u64 (base + dma_mode_en)) s in
      if bus.peek s (u64 (base + dma_mode_en)) == 0
      then fifo_bytes (u64 (base + rx_fifo_n))
          (word_count (bus.peek s' (u64 (base + rx_fifo_status))))
          (bus.after_read (u64 (base + rx_fifo_status)) s')
      else []

  receive-Holds :
      {cap : ℕ} {q : List ℕ} (st : UartState S)
      → Holds cap q st.uart
      → Holds cap
          (keep_last cap (q ++ arrived st.uart.base_address st.irq.hw))
          (receive bus st).1.uart
  unfolding receive arrived
  receive-Holds {cap} {q} st h = elim (Bool-cases (bus.peek st.irq.hw dma == 0)) [
    | inl on ↦ rw on (
        drain-Holds (word_count (bus.peek s' status))
          (record st { irq = record st.irq { hw = bus.after_read status s' } }) h)
    | inr off ↦ rw off (none_more h)
  ]
    where
      dma : ℕ
      dma = reg st.uart dma_mode_en

      status : ℕ
      status = reg st.uart rx_fifo_status

      s' : S
      s' = bus.after_read dma st.irq.hw

  complete-Holds :
      {cap : ℕ} {q : List ℕ} (status : ℕ) {c : UartContext}
      → Holds cap q c
      → Holds cap q (complete status c)
  unfolding complete held
  complete-Holds {cap} {q} status {c} h = elim (Bool-cases (bit_and status (bit 0) == 0)) [
    | inl off ↦ rw off h
    | inr on ↦ rw on (record {
      buffer = h.buffer;
      ring = record {
        buffer = h.ring.buffer;
        room = h.ring.room;
        nonempty = h.ring.nonempty;
        small = h.ring.small;
        head = h.ring.head;
        size = h.ring.size;
        tail = h.ring.tail;
      };
      capacity = h.capacity;
      queue = h.queue;
    })
  ]

  -- The bytes that `MsmGeniSerialIsr` takes: four for each word that the FIFO reports, none in DMA mode.
  unfoldable pub taken : UartContext → S → List ℕ
  unfolding arrived acknowledged
  taken c s = arrived c.base_address (acknowledged c s)

  -- `MsmGeniSerialIsr` puts the bytes it takes on the queue that the ring holds. What no longer fits pushes
  -- out the oldest bytes, and the ring stays well-formed, whatever the FIFO reports.
  pub msm_geni_serial_isr-Holds :
      {cap : ℕ} {q : List ℕ} (st : UartState S)
      → Holds cap q st.uart
      → Holds cap (keep_last cap (q ++ taken st.uart st.irq.hw)) (msm_geni_serial_isr bus st).1.uart
  unfolding msm_geni_serial_isr taken acknowledged
  msm_geni_serial_isr-Holds {cap} {q} st h =
      subst
        (λ (base : ℕ).
          Holds cap (keep_last cap (q ++ arrived base (acknowledged st.uart st.irq.hw)))
            (receive bus st').1.uart)
        (base_address-complete (bus.peek st.irq.hw (reg st.uart m_irq_status)) st.uart)
        (receive-Holds st' (complete-Holds _ h))
    where
      st' : UartState S
      st' = record {
        uart = complete (bus.peek st.irq.hw (reg st.uart m_irq_status)) st.uart;
        irq = record st.irq { hw = acknowledged st.uart st.irq.hw };
      }

  base_address-drain :
      (n : ℕ) (st : UartState S) → (drain bus n st).1.uart.base_address ≡ st.uart.base_address
  unfolding drain
  base_address-drain zero st = refl
  base_address-drain (suc n) st =
      base_address-drain n _
      ∙ base_address-put_bytes 4 0 (bus.peek st.irq.hw (reg st.uart rx_fifo_n)) st.uart

  base_address-receive :
      (st : UartState S) → (receive bus st).1.uart.base_address ≡ st.uart.base_address
  unfolding receive
  base_address-receive st = elim (Bool-cases (bus.peek st.irq.hw (reg st.uart dma_mode_en) == 0)) [
    | inl on ↦ rw on (
        base_address-drain (word_count (bus.peek s' (reg st.uart rx_fifo_status))) (record st {
          irq = record st.irq { hw = bus.after_read (reg st.uart rx_fifo_status) s' };
        }))
    | inr off ↦ rw off refl
  ]
    where
      s' : S
      s' = bus.after_read (reg st.uart dma_mode_en) st.irq.hw

  pub base_address-msm_geni_serial_isr :
      (st : UartState S) → (msm_geni_serial_isr bus st).1.uart.base_address ≡ st.uart.base_address
  unfolding msm_geni_serial_isr
  base_address-msm_geni_serial_isr st =
      base_address-receive _
      ∙ base_address-complete (bus.peek st.irq.hw (reg st.uart m_irq_status)) st.uart
