-- ===== src/Uart/Types.antt =====
-- The data of Include/Library/debug_uart.h and the registers of debug_uart_internal.h.
use cr_dk.Mmio.{M}
use cr_dk.Base.{ℕ, ◌+◌, ◌*◌, Bool, Option, List}
use cr_dk.Bits.{u64}
use cr_dk.Interrupt.{on_hw, InterruptConfig, IrqState}

pub data DebugUartType : Type 0 where
  geni dm : DebugUartType

-- `input_buffer` is what `InputBuffer` points to, `none` for NULL.
pub record UartContext : Type 0 where
  pub base_address : ℕ
  pub interrupt_config : InterruptConfig
  pub is_debug_uart : Bool
  pub uart_type : DebugUartType
  pub clock_frequency : ℕ
  pub baud_rate : ℕ
  pub data_bits : ℕ
  pub parity : ℕ
  pub stop_bits : ℕ
  pub tx_fifo_depth : ℕ
  pub tx_fifo_width : ℕ
  pub rx_fifo_depth : ℕ
  pub tx_complete : Bool
  pub input_buffer : Option (List ℕ)
  pub input_buffer_size : ℕ
  pub input_buffer_head : ℕ
  pub input_buffer_tail : ℕ
  pub input_buffer_capacity : ℕ

-- The context that the driver and its interrupt handler share, above the table of interrupts and the
-- hardware.
pub record UartState (S : Type 0) : Type 0 where
  pub uart : UartContext
  pub irq : IrqState S

abbrev pub debug_uart_input_buf_size : ℕ
debug_uart_input_buf_size = 256

abbrev pub dma_mode_en : ℕ
dma_mode_en = 0x258

abbrev pub tx_trans_cfg : ℕ
tx_trans_cfg = 0x25c

abbrev pub tx_word_len : ℕ
tx_word_len = 0x268

abbrev pub tx_stop_bit_len : ℕ
tx_stop_bit_len = 0x26c

abbrev pub tx_trans_len : ℕ
tx_trans_len = 0x270

abbrev pub rx_trans_cfg : ℕ
rx_trans_cfg = 0x280

abbrev pub rx_word_len : ℕ
rx_word_len = 0x28c

abbrev pub tx_parity_cfg : ℕ
tx_parity_cfg = 0x2a4

abbrev pub rx_parity_cfg : ℕ
rx_parity_cfg = 0x2a8

abbrev pub fw_revision_ro : ℕ
fw_revision_ro = 0x68

abbrev pub m_cmd0 : ℕ
m_cmd0 = 0x600

abbrev pub m_irq_status : ℕ
m_irq_status = 0x610

abbrev pub m_irq_en : ℕ
m_irq_en = 0x614

abbrev pub m_irq_clr : ℕ
m_irq_clr = 0x618

abbrev pub s_cmd0 : ℕ
s_cmd0 = 0x630

abbrev pub s_irq_status : ℕ
s_irq_status = 0x640

abbrev pub s_irq_en : ℕ
s_irq_en = 0x644

abbrev pub s_irq_clr : ℕ
s_irq_clr = 0x648

abbrev pub tx_fifo_n : ℕ
tx_fifo_n = 0x700

abbrev pub rx_fifo_n : ℕ
rx_fifo_n = 0x780

abbrev pub tx_fifo_status : ℕ
tx_fifo_status = 0x800

abbrev pub rx_fifo_status : ℕ
rx_fifo_status = 0x804

abbrev pub tx_watermark : ℕ
tx_watermark = 0x80c

abbrev pub rx_watermark : ℕ
rx_watermark = 0x810

abbrev pub rx_rfr_watermark : ℕ
rx_rfr_watermark = 0x814

abbrev pub dma_tx_irq_clr : ℕ
dma_tx_irq_clr = 0xc44

abbrev pub dma_rx_irq_clr : ℕ
dma_rx_irq_clr = 0xd44

abbrev pub se_irq_en : ℕ
se_irq_en = 0xe1c

abbrev pub se_hw_param_0 : ℕ
se_hw_param_0 = 0xe24

abbrev pub se_hw_param_1 : ℕ
se_hw_param_1 = 0xe28

-- `DEBUG_UART_TX_TIMEOUT_US`, in rounds of one microsecond.
abbrev pub tx_timeout_us : ℕ
tx_timeout_us = 1000 * 1000

-- The address of a register.
abbrev pub reg : UartContext → ℕ → ℕ
reg c offset = u64 (c.base_address + offset)

module _ {S A : Type 0} where
  abbrev pub on_irq : M (IrqState S) A → M (UartState S) A
  on_irq m st = let (a, irq) = m st.irq in (a, record st { irq = irq })

  -- Code on the hardware alone.
  abbrev pub on_bus : M S A → M (UartState S) A
  on_bus m st = let (a, irq) = on_hw m st.irq in (a, record st { irq = irq })
