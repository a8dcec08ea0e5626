-- ===== src/Uart/Init.antt =====
-- Library/DebugUartLib/debug_uart.c: `CrDebugUartLibInit`.
use cr_dk.Uart.Transmit.{msm_geni_write_tx_fifo}
use cr_dk.Uart.Isr.{read_reg, write_reg, update_reg, with_uart}
use cr_dk.Uart.Types.{
  tx_stop_bit_len, rx_word_len, tx_word_len, rx_parity_cfg, s_cmd0, rx_trans_cfg, se_irq_en,
  tx_parity_cfg, dma_rx_irq_clr, tx_trans_cfg, dma_tx_irq_clr, s_irq_en, m_irq_clr,
  rx_rfr_watermark, m_irq_en, fw_revision_ro, tx_watermark, rx_watermark, se_hw_param_1,
  se_hw_param_0, UartState, on_irq,
}
use cr_dk.Interrupt.{HardwareInterrupt2, register_interrupt}
use cr_dk.Status.{Status, cr_error}
use cr_dk.Bits.{bit, gen_msk, get_field, u32}
use cr_dk.Mmio.{M, pure, ◌>>=◌, ◌>>◌, Bus, update_bits32}
use cr_dk.Base.{
  ℕ, ◌+◌, ◌-◌, ◌*◌, ◌^◌, bit_or, Bool, true, false, Option, none, some, List, [], ◌∷◌,
  if◌then◌else◌,
}

-- The OR of `BIT(x)` for each of the numbers.
unfoldable pub bits_of : List ℕ → ℕ
unfolding bit
bits_of [] = 0
bits_of (x ∷ xs) = bit_or (bit x) (bits_of xs)

abbrev pub m_irqs : List ℕ
m_irqs = 1 ∷ 2 ∷ 3 ∷ 4 ∷ 5 ∷ 6 ∷ 22 ∷ 23 ∷ 24 ∷ 25 ∷ 28 ∷ 29 ∷ 26 ∷ 27 ∷ 30 ∷ 0 ∷ []

abbrev pub s_irqs : List ℕ
s_irqs = 1 ∷ 2 ∷ 3 ∷ 4 ∷ 5 ∷ 9 ∷ 10 ∷ 11 ∷ 12 ∷ 13 ∷ 24 ∷ 25 ∷ 26 ∷ 27 ∷ []

-- "Debug Uart Initialized.\n".
abbrev pub greeting : List ℕ
greeting =
    68 ∷ 101 ∷ 98 ∷ 117 ∷ 103 ∷ 32 ∷ 85 ∷ 97 ∷ 114 ∷ 116 ∷ 32 ∷ 73 ∷ 110 ∷ 105 ∷ 116 ∷ 105 ∷ 97
    ∷ 108 ∷ 105 ∷ 122 ∷ 101 ∷ 100 ∷ 46 ∷ 10 ∷ []

module _ {S : Type 0} (bus : Bus S) where
  unfoldable pub debug_uart_get_tx_fifo_depth : M (UartState S) ℕ
  unfolding get_field gen_msk
  debug_uart_get_tx_fifo_depth = do
    param ← read_reg bus se_hw_param_0
    pure (get_field param (gen_msk 21 16))

  unfoldable pub debug_uart_get_rx_fifo_depth : M (UartState S) ℕ
  unfolding get_field gen_msk
  debug_uart_get_rx_fifo_depth = do
    param ← read_reg bus se_hw_param_1
    pure (get_field param (gen_msk 21 16))

  unfoldable pub debug_uart_set_rx_fifo_watermark_rfr : ℕ → ℕ → M (UartState S) (Unit {0})
  debug_uart_set_rx_fifo_watermark_rfr watermark rfr = do
    write_reg bus rx_watermark watermark
    write_reg bus rx_rfr_watermark rfr

  unfoldable pub debug_uart_set_tx_fifo_watermark : ℕ → M (UartState S) (Unit {0})
  debug_uart_set_tx_fifo_watermark watermark = write_reg bus tx_watermark watermark

  -- From the check of the protocol, which only logs, to the watermarks.
  unfoldable pub init_fifos : M (UartState S) (Unit {0})
  unfolding debug_uart_get_tx_fifo_depth debug_uart_get_rx_fifo_depth
      debug_uart_set_rx_fifo_watermark_rfr debug_uart_set_tx_fifo_watermark update_bits32 gen_msk
  init_fifos = do
    revision ← read_reg bus fw_revision_ro
    write_reg bus m_irq_clr 0xffff_ffff
    write_reg bus dma_tx_irq_clr 0xffff_ffff
    write_reg bus dma_rx_irq_clr 0xffff_ffff
    write_reg bus se_irq_en 0xffff_ffff
    old ← update_reg bus s_cmd0 (gen_msk 31 27) (1 * 2 ^ 27)
    rx ← debug_uart_get_rx_fifo_depth
    with_uart (λ c. record c { rx_fifo_depth = rx })
    tx ← debug_uart_get_tx_fifo_depth
    with_uart (λ c. record c { tx_fifo_depth = tx })
    debug_uart_set_rx_fifo_watermark_rfr 2 (u32 (rx + 2 ^ 32 - 2))
    debug_uart_set_tx_fifo_watermark 2

  -- The interrupts and the line's parameters.
  unfoldable pub init_line : M (UartState S) (Unit {0})
  unfolding bits_of
  init_line = do
    write_reg bus m_irq_en (bits_of m_irqs)
    write_reg bus s_irq_en (bits_of s_irqs)
    write_reg bus tx_trans_cfg 2
    write_reg bus tx_parity_cfg 0
    write_reg bus rx_trans_cfg 0
    write_reg bus rx_parity_cfg 0
    write_reg bus tx_word_len 8
    write_reg bus rx_word_len 8
    write_reg bus tx_stop_bit_len 0

  -- `isr` and `self` are the addresses of the interrupt handler and of the context, `fuel` the rounds of
  -- the wait for space in the FIFO.
  module _ (gic : HardwareInterrupt2 S) (raised : S → Bool) (isr self fuel : ℕ) where
    unfoldable pub register_isr : M (UartState S) Status
    unfolding register_interrupt
    register_isr = do
      with_uart (λ c. record c {
        interrupt_config = record c.interrupt_config { handler = some isr; param = self };
      })
      λ st. on_irq (register_interrupt gic st.uart.interrupt_config) st

    -- The line that the port sends at last: `none` is a wait for the FIFO without end.
    unfoldable pub greet : Status → M (UartState S) (Option Status)
    unfolding msm_geni_write_tx_fifo
    greet status = do
      returned ← msm_geni_write_tx_fifo bus raised fuel (some greeting)
      pure (elim returned [ true ↦ some status | false ↦ none ])

    -- `CrDebugUartLibInit`, with whether the target has a context.
    unfoldable pub cr_debug_uart_lib_init : Bool → M (UartState S) (Option Status)
    unfolding init_fifos init_line register_isr greet
    cr_debug_uart_lib_init false = pure (some Status.device_error)
    cr_debug_uart_lib_init true = do
      init_fifos
      init_line
      status ← register_isr
      if cr_error status then pure (some status) else greet status
