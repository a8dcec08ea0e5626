-- ===== src/Uart/Isr.antt =====
-- Library/DebugUartLib/debug_uart.c: `MsmGeniSerialIsr`, the interrupt handler.
use cr_dk.Uart.Types.{
  UartContext, UartState, on_bus, reg, m_irq_status, s_irq_status, m_irq_clr, s_irq_clr,
  dma_mode_en, rx_fifo_status, rx_fifo_n,
}
use cr_dk.Uart.Ring.{put_bytes}
use cr_dk.Bits.{bit, gen_msk}
use cr_dk.Mmio.{update_bits32, M, pure, ◌>>=◌, ◌>>◌, Bus, read32, write32}
use cr_dk.Base.{ℕ, zero, suc, ◌%◌, ◌^◌, bit_and, Bool, true, false, ◌==◌, if◌then◌else◌}

abbrev pub with_uart : {S : Type 0} → (UartContext → UartContext) → M (UartState S) (Unit {0})
with_uart f st = (tt, record st { uart = f st.uart })

-- `WordCount`, a UINT8.
unfoldable pub word_count : ℕ → ℕ
unfolding gen_msk
word_count status = bit_and status (gen_msk 24 0) % 2 ^ 8

-- `TxComplete`, on the interrupt for a command that is done.
unfoldable pub complete : ℕ → UartContext → UartContext
unfolding bit
complete status c = if bit_and status (bit 0) == 0 then c else record c { tx_complete = true }

-- A test of the state.
abbrev pub choose : {S A : Type 0} → (S → Bool) → M S A → M S A → M S A
choose test m k st = elim (test st) [ true ↦ m st | false ↦ k st ]

module _ {S : Type 0} (bus : Bus S) where
  abbrev pub read_reg : ℕ → M (UartState S) ℕ
  read_reg offset st = on_bus (read32 bus (reg st.uart offset)) st

  abbrev pub write_reg : ℕ → ℕ → M (UartState S) (Unit {0})
  write_reg offset v st = on_bus (write32 bus (reg st.uart offset) v) st

  abbrev pub update_reg : ℕ → ℕ → ℕ → M (UartState S) ℕ
  update_reg offset mask bits st = on_bus (update_bits32 bus (reg st.uart offset) mask bits) st

  -- The loop over the words of the FIFO, `n` of them left.
  unfoldable pub drain : ℕ → M (UartState S) (Unit {0})
  unfolding put_bytes
  drain zero = pure tt
  drain (suc n) = do word ← read_reg rx_fifo_n; with_uart (put_bytes 4 0 word); drain n

  -- The words of the FIFO, unless the port is in DMA mode.
  unfoldable pub receive : M (UartState S) (Unit {0})
  unfolding word_count drain
  receive = do
    dma ← read_reg dma_mode_en
    if dma == 0 then (do status ← read_reg rx_fifo_status; drain (word_count status)) else pure tt

  unfoldable pub msm_geni_serial_isr : M (UartState S) (Unit {0})
  unfolding complete receive
  msm_geni_serial_isr = do
    m_status ← read_reg m_irq_status
    s_status ← read_reg s_irq_status
    write_reg m_irq_clr m_status
    write_reg s_irq_clr s_status
    with_uart (complete m_status)
    receive
