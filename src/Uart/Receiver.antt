-- ===== src/Uart/Receiver.antt =====
-- The receiving side of a port, as MsmGeniSerialIsr of debug_uart.c relies on it, and what the handler
-- takes from it.
use cr_dk.Uart.Queue.{
  bytes_from, fifo_bytes, acknowledged, arrived, taken, base_address-put_bytes,
  base_address-complete,
}
use cr_dk.Uart.Isr.{drain, receive, complete, word_count, msm_geni_serial_isr}
use cr_dk.Uart.Types.{
  s_irq_status, rx_fifo_status, m_irq_status, dma_mode_en, rx_fifo_n, UartContext, UartState, reg,
}
use cr_dk.Bits.{gen_msk, u64}
use cr_dk.Mmio.{Bus}
use mathlib.Core.Path.{ap₂, subst}
use cr_dk.Base.{
  ℕ, ◌+◌, ◌^◌, ◌≤◌, ◌<◌, bit_and, ◌≡◌, refl, sym, ap, ◌∙◌, ◌≢◌, true, List, [], ◌∷◌, ◌++◌, arith,
  ◌==◌, length,
}

-- A receiver at `base` whose FIFO holds the words `waiting`: it is not in DMA mode, its status counts the
-- words in 25 bits, a read of the FIFO gives the oldest word and takes it out, and no other access
-- changes them. Words that arrive go behind those that wait.
pub record IsReceiver {S : Type 0} (bus : Bus S) (base : ℕ) (waiting : S → List ℕ)
    (arrive : List ℕ → S → S) : Type 0 where
  pub block : base + 0x1000 ≤ 2 ^ 64
  pub fifo_mode : (s : S) → bus.peek s (u64 (base + dma_mode_en)) ≡ 0
  pub counts :
      (s : S)
      → length (waiting s) < 2 ^ 25
      → bit_and (bus.peek s (u64 (base + rx_fifo_status))) (gen_msk 24 0) ≡ length (waiting s)
  pub oldest :
      (w : ℕ) (ws : List ℕ) (s : S) → waiting s ≡ w ∷ ws → bus.peek s (u64 (base + rx_fifo_n)) ≡ w
  pub taken_out :
      (w : ℕ) (ws : List ℕ) (s : S)
      → waiting s ≡ w ∷ ws
      → waiting (bus.after_read (u64 (base + rx_fifo_n)) s) ≡ ws
  pub reads :
      (a : ℕ) (s : S) → a ≢ u64 (base + rx_fifo_n) → waiting (bus.after_read a s) ≡ waiting s
  pub writes : (a v : ℕ) (s : S) → waiting (bus.poke a v s) ≡ waiting s
  pub arrives : (ws : List ℕ) (s : S) → waiting (arrive ws s) ≡ waiting s ++ ws

-- The bytes of words, four for each, the lowest first.
abbrev pub bytes_of_words : List ℕ → List ℕ
bytes_of_words [] = []
bytes_of_words (w ∷ ws) = bytes_from 4 0 w ++ bytes_of_words ws

pub bytes_of_words-append :
    (vs ws : List ℕ) → bytes_of_words (vs ++ ws) ≡ bytes_of_words vs ++ bytes_of_words ws
bytes_of_words-append [] ws = refl
bytes_of_words-append (v ∷ vs) ws =
    ap (λ (t : List ℕ). bytes_from 4 0 v ++ t) (bytes_of_words-append vs ws)

module _ {S : Type 0} {bus : Bus S} {base : ℕ} {waiting : S → List ℕ} {arrive : List ℕ → S → S}
    (r : IsReceiver bus base waiting arrive) where
  elsewhere : (off : ℕ) → off < 0x1000 → off ≢ rx_fifo_n → u64 (base + off) ≢ u64 (base + rx_fifo_n)
  elsewhere off h ne e = ne (omega (arith, r.block))

  read_elsewhere :
      (off : ℕ) (s : S)
      → off < 0x1000
      → off ≢ rx_fifo_n
      → waiting (bus.after_read (u64 (base + off)) s) ≡ waiting s
  read_elsewhere off s h ne = r.reads (u64 (base + off)) s (elsewhere off h ne)

  fifo_bytes-waiting :
      (ws : List ℕ) (s : S)
      → waiting s ≡ ws
      → fifo_bytes bus (u64 (base + rx_fifo_n)) (length ws) s ≡ bytes_of_words ws
  fifo_bytes-waiting [] s e = refl
  fifo_bytes-waiting (w ∷ ws) s e =
      ap₂ (λ (v : ℕ) (t : List ℕ). bytes_from 4 0 v ++ t) (r.oldest w ws s e)
        (fifo_bytes-waiting ws _ (r.taken_out w ws s e))

  drain-empties :
      (ws : List ℕ) (st : UartState S)
      → st.uart.base_address ≡ base
      → waiting st.irq.hw ≡ ws
      → waiting (drain bus (length ws) st).1.irq.hw ≡ []
  unfolding drain
  drain-empties [] st b e = e
  drain-empties (w ∷ ws) st b e =
      drain-empties ws _
        (base_address-put_bytes 4 0 (bus.peek st.irq.hw (reg st.uart rx_fifo_n)) st.uart ∙ b)
        (ap (λ (k : ℕ). waiting (bus.after_read (u64 (k + rx_fifo_n)) st.irq.hw)) b
          ∙ r.taken_out w ws st.irq.hw e)

  -- The count, on the hardware after the mode has been read.
  counted :
      (s : S)
      → length (waiting s) < 256
      → word_count
          (bus.peek (bus.after_read (u64 (base + dma_mode_en)) s) (u64 (base + rx_fifo_status)))
        ≡ length (waiting s)
  unfolding word_count
  counted s small =
      let same = read_elsewhere dma_mode_en s (omega arith) (omega arith) in
      let exact =
        r.counts (bus.after_read (u64 (base + dma_mode_en)) s)
          (omega (arith, ap (λ (l : List ℕ). length l) same)) in
      omega (arith, exact, ap (λ (l : List ℕ). length l) same)

  -- The hardware once the mode and the count have been read.
  abbrev looked : S → S
  looked s =
      bus.after_read (u64 (base + rx_fifo_status)) (bus.after_read (u64 (base + dma_mode_en)) s)

  waiting-looked : (s : S) → waiting (looked s) ≡ waiting s
  waiting-looked s =
      read_elsewhere rx_fifo_status _ (omega arith) (omega arith)
      ∙ read_elsewhere dma_mode_en s (omega arith) (omega arith)

  arrived-waiting :
      (s : S) → length (waiting s) < 256 → arrived bus base s ≡ bytes_of_words (waiting s)
  unfolding arrived
  arrived-waiting s small = rw (r.fifo_mode s) (
      ap (λ (n : ℕ). fifo_bytes bus (u64 (base + rx_fifo_n)) n (looked s)) (counted s small)
      ∙ fifo_bytes-waiting (waiting s) (looked s) (waiting-looked s))

  receive-empties :
      (st : UartState S)
      → st.uart.base_address ≡ base
      → length (waiting st.irq.hw) < 256
      → waiting (receive bus st).1.irq.hw ≡ []
  unfolding receive
  receive-empties st b small = rw on (
      ap (λ (n : ℕ). waiting (drain bus n st').1.irq.hw) count
      ∙ drain-empties (waiting hw) st' b same)
    where
      hw : S
      hw = st.irq.hw

      looked_by : ℕ → S
      looked_by k =
          bus.after_read (u64 (k + rx_fifo_status)) (bus.after_read (u64 (k + dma_mode_en)) hw)

      st' : UartState S
      st' = record st { irq = record st.irq { hw = looked_by st.uart.base_address } }

      on : (bus.peek hw (reg st.uart dma_mode_en) == 0) ≡ true
      on =
          subst (λ (k : ℕ). (bus.peek hw (u64 (k + dma_mode_en)) == 0) ≡ true) (sym b)
            (rw (r.fifo_mode hw) refl)

      count :
          word_count
            (bus.peek (bus.after_read (reg st.uart dma_mode_en) hw) (reg st.uart rx_fifo_status))
          ≡ length (waiting hw)
      count =
          subst
            (λ (k : ℕ).
              word_count
                (bus.peek (bus.after_read (u64 (k + dma_mode_en)) hw) (u64 (k + rx_fifo_status)))
              ≡ length (waiting hw))
            (sym b) (counted hw small)

      same : waiting (looked_by st.uart.base_address) ≡ waiting hw
      same = subst (λ (k : ℕ). waiting (looked_by k) ≡ waiting hw) (sym b) (waiting-looked hw)

  waiting-acknowledged :
      (c : UartContext) (s : S) → c.base_address ≡ base → waiting (acknowledged bus c s) ≡ waiting s
  unfolding acknowledged
  waiting-acknowledged c s b =
      r.writes _ _ _
      ∙ r.writes _ _ _
      ∙ r.reads (reg c s_irq_status) _ (rw b (elsewhere s_irq_status (omega arith) (omega arith)))
      ∙ r.reads (reg c m_irq_status) s (rw b (elsewhere m_irq_status (omega arith) (omega arith)))

  -- The handler takes all the bytes of the words that wait, up to 255 words.
  pub taken-waiting :
      (c : UartContext) (s : S)
      → c.base_address ≡ base
      → length (waiting s) < 256
      → taken bus c s ≡ bytes_of_words (waiting s)
  unfolding taken
  taken-waiting c s b small =
      let same = waiting-acknowledged c s b in
      ap (λ (k : ℕ). arrived bus k (acknowledged bus c s)) b
      ∙ arrived-waiting (acknowledged bus c s) (omega (arith, ap (λ (l : List ℕ). length l) same))
      ∙ ap bytes_of_words same

  -- The handler leaves the FIFO empty.
  pub isr-empties :
      (st : UartState S)
      → st.uart.base_address ≡ base
      → length (waiting st.irq.hw) < 256
      → waiting (msm_geni_serial_isr bus st).1.irq.hw ≡ []
  unfolding msm_geni_serial_isr acknowledged
  isr-empties st b small =
      receive-empties st' (base_address-complete _ st.uart ∙ b)
        (omega (arith, ap (λ (l : List ℕ). length l) (waiting-acknowledged st.uart st.irq.hw b)))
    where
      st' : UartState S
      st' = record {
        uart = complete (bus.peek st.irq.hw (reg st.uart m_irq_status)) st.uart;
        irq = record st.irq { hw = acknowledged bus st.uart st.irq.hw };
      }
