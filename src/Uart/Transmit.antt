-- ===== src/Uart/Transmit.antt =====
-- Library/DebugUartLib/debug_uart.c: `MsmGeniWriteTxFifo`. `raised` tells when the port's interrupt is
-- pending; it is taken while the code waits. The wait for space in the FIFO has no limit in the source,
-- and gets `fuel` rounds here: `none` is that they did not do.
use cr_dk.Uart.Types.{
  UartContext, UartState, on_bus, m_irq_en, m_irq_clr, m_cmd0, tx_trans_len, tx_fifo_n,
  tx_fifo_status, tx_timeout_us,
}
use cr_dk.Uart.Isr.{choose, read_reg, write_reg, update_reg, msm_geni_serial_isr}
use cr_dk.Bits.{bit, gen_msk, u32}
use cr_dk.Mmio.{M, pure, ◌>>=◌, ◌>>◌, Bus, sleep, update_bits32}
use cr_dk.Base.{
  ℕ, zero, suc, ◌+◌, ◌-◌, ◌*◌, ◌^◌, bit_and, bit_or, Bool, true, false, Option, none, some, List,
  [], ◌∷◌, ◌==◌, if◌then◌else◌, length, take, drop,
}

-- `BufToWrite` after the bytes from byte `i` on, and before them `acc`.
unfoldable pub merge : ℕ → List ℕ → ℕ → ℕ
merge i [] acc = acc
merge i (b ∷ bs) acc = merge (i + 1) bs (u32 (bit_or acc (b * 2 ^ (i * 8))))

-- The free words of the FIFO; the subtraction wraps.
unfoldable pub free_words : UartContext → ℕ → ℕ
unfolding gen_msk
free_words c status = u32 (c.tx_fifo_depth + 2 ^ 32 - bit_and status (gen_msk 27 0))

-- The mask of the interrupts that `MsmGeniWriteTxFifo` switches on.
abbrev pub tx_irqs : ℕ
tx_irqs = bit_or (bit 30) (bit 0)

module _ {S : Type 0} (bus : Bus S) where
  -- The loop on `AvailableTxFifoBytes`.
  unfoldable pub wait_space : ℕ → ℕ → M (UartState S) (Option ℕ)
  unfolding free_words
  wait_space zero available = pure (if available == 0 then none else some available)
  wait_space (suc fuel) available = elim (available == 0) [
    | false ↦ pure (some available)
    | true ↦ λ st.
        let (status, st') = read_reg bus tx_fifo_status st in
        wait_space fuel (u32 (free_words st.uart status * 4)) st'
  ]

module _ {S : Type 0} (bus : Bus S) (raised : S → Bool) where
  -- `cr_sleep(1)`, and the interrupt that may come meanwhile.
  unfoldable pub wait_us : M (UartState S) (Unit {0})
  unfolding msm_geni_serial_isr
  wait_us = do
    on_bus (sleep bus 1)
    choose (λ st. raised st.irq.hw) (msm_geni_serial_isr bus) (pure tt)

  -- The loop on `WaitTime`, with `n` rounds left.
  unfoldable pub wait_complete : ℕ → M (UartState S) (Unit {0})
  unfolding wait_us
  wait_complete zero = pure tt
  wait_complete (suc n) = choose (λ st. st.uart.tx_complete) (pure tt) (do wait_us; wait_complete n)

  -- One word of at most four bytes.
  unfoldable pub send_word : List ℕ → M (UartState S) (Unit {0})
  unfolding wait_complete merge update_bits32 gen_msk
  send_word word = do
    old ← update_reg bus m_cmd0 (gen_msk 31 27) (1 * 2 ^ 27)
    write_reg bus tx_trans_len (length word)
    write_reg bus tx_fifo_n (merge 0 word 0)
    wait_complete tx_timeout_us

  -- The loop over the buffer, with as many rounds left as it has bytes at most.
  unfoldable pub send_words : ℕ → ℕ → List ℕ → ℕ → M (UartState S) Bool
  unfolding wait_space send_word
  send_words fuel zero buffer available = pure true
  send_words fuel (suc n) [] available = pure true
  send_words fuel (suc n) (b ∷ bs) available = λ st.
      let word : List ℕ = take 4 (b ∷ bs) in
      let started : UartState S = record st { uart = record st.uart { tx_complete = false } } in
      let (space, ready) = wait_space bus fuel available started in
      elim space [
        | none ↦ (false, ready)
        | some left ↦ send_words fuel n (drop 4 (b ∷ bs)) left (send_word word ready).1
      ]

  -- The first read of the FIFO's status and the interrupts switched on: `AvailableTxFifoBytes`.
  unfoldable pub switch_on : M (UartState S) ℕ
  unfolding free_words bit update_bits32
  switch_on = do
    status ← read_reg bus tx_fifo_status
    old ← update_reg bus m_irq_en tx_irqs tx_irqs
    λ st. (free_words st.uart status, st)

  -- The end of a transfer that ends.
  unfoldable pub switch_off : Bool → M (UartState S) Bool
  unfolding bit update_bits32
  switch_off true = do
    write_reg bus m_irq_clr (bit 30)
    old ← update_reg bus m_irq_en (bit 30) 0
    pure true
  switch_off false = pure false

  -- `MsmGeniWriteTxFifo`: whether it returns. The buffer is its bytes, `none` for NULL.
  unfoldable pub msm_geni_write_tx_fifo : ℕ → Option (List ℕ) → M (UartState S) Bool
  unfolding switch_on send_words switch_off
  msm_geni_write_tx_fifo fuel none = pure true
  msm_geni_write_tx_fifo fuel (some []) = pure true
  msm_geni_write_tx_fifo fuel (some (b ∷ bs)) = do
    available ← switch_on
    returned ← send_words fuel (length (b ∷ bs)) (b ∷ bs) available
    switch_off returned
