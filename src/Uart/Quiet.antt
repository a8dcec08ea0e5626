-- ===== src/Uart/Quiet.antt =====
-- The interrupt handler of debug_uart.c on the sending side of the port: it takes the report of a
-- transfer's end, and sends nothing.
use cr_dk.Uart.Line.{IsTransmitter, Line, written, written-m_irq_clr, written-s_irq_clr}
use cr_dk.Uart.Queue.{acknowledged, base_address-complete, base_address-put_bytes}
use cr_dk.Uart.Isr.{word_count, drain, receive, complete, msm_geni_serial_isr}
use cr_dk.Uart.Ring.{put, put_bytes}
use cr_dk.Uart.Types.{
  s_irq_clr, s_irq_status, rx_fifo_status, m_irq_status, dma_mode_en, rx_fifo_n, UartContext,
  UartState, reg, m_irq_clr,
}
use cr_dk.Bits.{bit, u32, u64}
use cr_dk.Mmio.{Bus}
use mathlib.Core.Path.{subst}
use cr_dk.Base.{
  ℕ, zero, suc, ◌+◌, ◌*◌, ◌/◌, ◌%◌, ◌^◌, ◌<◌, bit_and, ◌≡◌, refl, sym, ap, ◌∙◌, ◌≢◌, inl, inr, Bool,
  true, false, ◌&&◌, arith, ◌==◌, if◌then◌else◌, ne→==, Bool-cases, testbit, testbit-bit_and,
  testbit-zero, testbit-out, testbit-mod, eq_of_testbit,
}

tx_complete-put : (x : ℕ) (c : UartContext) → (put x c).tx_complete ≡ c.tx_complete
unfolding put
tx_complete-put x c = ground arith

tx_complete-put_bytes :
    (n i word : ℕ) (c : UartContext) → (put_bytes n i word c).tx_complete ≡ c.tx_complete
unfolding put_bytes
tx_complete-put_bytes zero i word c = refl
tx_complete-put_bytes (suc n) i word c =
    tx_complete-put_bytes n (i + 1) word (put (word / 2 ^ (i * 8) % 2 ^ 8) c)
    ∙ tx_complete-put (word / 2 ^ (i * 8) % 2 ^ 8) c

first_digit : (v : ℕ) → testbit v 0 ≡ false → bit_and v 1 ≡ 0
first_digit v off = eq_of_testbit (bit_and v 1) 0 λ i. testbit-bit_and v 1 i ∙ digit i
  where
    digit : (i : ℕ) → (testbit v i && testbit 1 i) ≡ testbit 0 i
    digit zero = ground (arith, off, testbit-zero 0)
    digit (suc i) =
        ground (arith, testbit-zero (suc i), testbit-out 1 1 (suc i) (omega arith) (omega arith))

last_digit : (v : ℕ) → testbit v 0 ≡ true → bit_and v 1 ≢ 0
unfolding testbit
last_digit v on e =
    absurd (ground (arith, on, testbit-bit_and v 1 0, ap (λ (n : ℕ). testbit n 0) e))

tx_complete-complete :
    (v : ℕ) (c : UartContext)
    → (complete v c).tx_complete ≡ (if testbit v 0 then true else c.tx_complete)
unfolding complete bit
tx_complete-complete v c = elim (Bool-cases (testbit v 0)) [
  | inl on ↦ rw (on, ne→== (bit_and v 1) 0 (last_digit v on)) refl
  | inr off ↦ rw (off, first_digit v off) refl
]

module _ {S : Type 0} {bus : Bus S} {base : ℕ} {raised : S → Bool} {line : S → Line} {takes : ℕ → ℕ}
    (t : IsTransmitter bus base raised line takes) where
  -- What code keeps that touches nothing of the sending side.
  record Keeps (before after : UartState S) : Type 0 where
    pub base_kept : after.uart.base_address ≡ before.uart.base_address
    pub complete_kept : after.uart.tx_complete ≡ before.uart.tx_complete
    pub line_kept : line after.irq.hw ≡ line before.irq.hw

  drain-Keeps : (n : ℕ) (st : UartState S) → Keeps st (drain bus n st).1
  unfolding drain
  drain-Keeps zero st = record { base_kept = refl; complete_kept = refl; line_kept = refl }
  drain-Keeps (suc n) st =
      let word : ℕ = bus.peek st.irq.hw (reg st.uart rx_fifo_n) in
      let rest = drain-Keeps n (record {
        uart = put_bytes 4 0 word st.uart;
        irq = record st.irq { hw = bus.after_read (reg st.uart rx_fifo_n) st.irq.hw };
      }) in
      record {
        base_kept = rest.base_kept ∙ base_address-put_bytes 4 0 word st.uart;
        complete_kept = rest.complete_kept ∙ tx_complete-put_bytes 4 0 word st.uart;
        line_kept = rest.line_kept ∙ t.reads (reg st.uart rx_fifo_n) st.irq.hw;
      }

  receive-Keeps : (st : UartState S) → Keeps st (receive bus st).1
  unfolding receive
  receive-Keeps st = elim (Bool-cases (bus.peek st.irq.hw (reg st.uart dma_mode_en) == 0)) [
    | inl on ↦
        let rest = drain-Keeps (word_count (bus.peek s' (reg st.uart rx_fifo_status))) (record st {
          irq = record st.irq { hw = bus.after_read (reg st.uart rx_fifo_status) s' };
        }) in
        rw on (record {
          base_kept = rest.base_kept;
          complete_kept = rest.complete_kept;
          line_kept = rest.line_kept ∙ t.reads (reg st.uart rx_fifo_status) s' ∙ mode;
        })
    | inr off ↦ rw off (record { base_kept = refl; complete_kept = refl; line_kept = mode })
  ]
    where
      s' : S
      s' = bus.after_read (reg st.uart dma_mode_en) st.irq.hw

      mode : line s' ≡ line st.irq.hw
      mode = t.reads (reg st.uart dma_mode_en) st.irq.hw

  -- A write of a register of a port at `base`.
  pub line-poke :
      (off v : ℕ) (c : UartContext) (s : S)
      → off < 0x1000
      → c.base_address ≡ base
      → line (bus.poke (reg c off) v s) ≡ written takes off v (line s)
  line-poke off v c s h b =
      subst (λ (k : ℕ). line (bus.poke (u64 (k + off)) v s) ≡ written takes off v (line s)) (sym b)
        (t.wrote off v s h)

  reported :
      (c : UartContext) (s : S)
      → c.base_address ≡ base
      → testbit (bus.peek s (reg c m_irq_status)) 0 ≡ (line s).done
  reported c s b =
      subst (λ (k : ℕ). testbit (bus.peek s (u64 (k + m_irq_status))) 0 ≡ (line s).done) (sym b)
        (t.reports s)

  line-acknowledged :
      (c : UartContext) (s : S)
      → c.base_address ≡ base
      → line (acknowledged bus c s) ≡ record (line s) { done = false }
  unfolding acknowledged
  line-acknowledged c s b =
      line-poke s_irq_clr _ c _ (omega arith) b
      ∙ written-s_irq_clr takes _ _
      ∙ line-poke m_irq_clr status c _ (omega arith) b
      ∙ ap (written takes m_irq_clr status)
          (t.reads (reg c s_irq_status) _ ∙ t.reads (reg c m_irq_status) s)
      ∙ written-m_irq_clr takes status (line s) (low ∙ reported c s b)
    where
      status : ℕ
      status = u32 (bus.peek s (reg c m_irq_status))

      low : testbit status 0 ≡ testbit (bus.peek s (reg c m_irq_status)) 0
      low = testbit-mod (bus.peek s (reg c m_irq_status)) 32 0

  -- The handler takes the report of a transfer's end, if there is one.
  pub record Handled (before after : UartState S) : Type 0 where
    pub base_kept : after.uart.base_address ≡ before.uart.base_address
    pub completed :
        after.uart.tx_complete
        ≡ (if (line before.irq.hw).done then true else before.uart.tx_complete)
    pub acknowledges : line after.irq.hw ≡ record (line before.irq.hw) { done = false }

  pub isr-Handled :
      (st : UartState S) → st.uart.base_address ≡ base → Handled st (msm_geni_serial_isr bus st).1
  unfolding msm_geni_serial_isr acknowledged
  isr-Handled st b =
      let status : ℕ = bus.peek st.irq.hw (reg st.uart m_irq_status) in
      let rest = receive-Keeps (record {
        uart = complete status st.uart;
        irq = record st.irq { hw = acknowledged bus st.uart st.irq.hw };
      }) in
      record {
        base_kept = rest.base_kept ∙ base_address-complete status st.uart;
        completed =
            rest.complete_kept
            ∙ tx_complete-complete status st.uart
            ∙ ap (λ (d : Bool). if d then true else st.uart.tx_complete)
                (reported st.uart st.irq.hw b);
        acknowledges = rest.line_kept ∙ line-acknowledged st.uart st.irq.hw b;
      }
