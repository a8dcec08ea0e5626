-- ===== src/Uart/Wire.antt =====
-- What `MsmGeniWriteTxFifo` of debug_uart.c puts on the line.
use cr_dk.Uart.Line.{IsTransmitter, Line, IsIdle, written-m_irq_en, written-clear}
use cr_dk.Uart.Quiet.{line-poke}
use cr_dk.Uart.Words.{drop-IsBytes, take-IsBytes, IsBytes}
use cr_dk.Uart.Isr.{write_reg, update_reg}
use cr_dk.Uart.Transmit.{
  tx_irqs, switch_on, switch_off, msm_geni_write_tx_fifo, wait_space, send_word, send_words,
  free_words,
}
use cr_dk.Uart.Types.{m_irq_en, UartState, reg, m_irq_clr, tx_fifo_status}
use cr_dk.Bits.{bit, u32}
use cr_dk.Mmio.{M, pure, Bus}
use mathlib.Core.Path.{ap₂, subst}
use mathlib.Core.List.{append-nil, append_assoc}
use cr_dk.Base.{
  ℕ, zero, suc, ◌≤◌, ◌≡◌, refl, sym, ap, ◌∙◌, ◌≢◌, Bool, true, false, not, ◌&&◌, Option, none, some,
  List, [], ◌∷◌, ◌++◌, arith, ◌==◌, ne→==, length, take, drop, take-append-drop, length-take,
  length-drop, testbit,
}
use cr_dk.Uart.Commands.{replaced, end_switched_on}
use cr_dk.Uart.Word.{IsReady, line-update, send_word-sends}

wait_space-found :
    {S : Type 0} (bus : Bus S) (fuel available : ℕ)
    → (available == 0) ≡ false
    → wait_space bus fuel available ≡ pure (some available)
unfolding wait_space
wait_space-found bus zero available e = rw (e, wait_space) refl
wait_space-found bus (suc fuel) available e = rw (e, wait_space) refl

module _ {S : Type 0} {bus : Bus S} {base : ℕ} {raised : S → Bool} {line : S → Line} {takes : ℕ → ℕ}
    (t : IsTransmitter bus base raised line takes) where
  -- Sending from `before` returned, and has sent `buffer`.
  Sends : List ℕ → UartState S → Bool × UartState S → Type 0
  Sends buffer before (returned, after) =
      (returned ≡ true)
      × IsReady t after
      × ((line after.irq.hw).sent ≡ (line before.irq.hw).sent ++ buffer)

  send_words-next :
      (fuel n x : ℕ) (xs : List ℕ) (available : ℕ) (st : UartState S)
      → (available == 0) ≡ false
      → send_words bus raised fuel (suc n) (x ∷ xs) available st
        ≡ send_words bus raised fuel n
            (drop 4 (x ∷ xs))
            available
            (send_word bus raised
              (take 4 (x ∷ xs))
              (record st { uart = record st.uart { tx_complete = false } })).1
  unfolding send_words
  send_words-next fuel n x xs available st e = ap after (wait_space-found bus fuel available e)
    where
      after : M (UartState S) (Option ℕ) → Bool × UartState S
      after m =
          let (space, ready) = m (record st { uart = record st.uart { tx_complete = false } }) in
          elim space [
            | none ↦ (false, ready)
            | some left ↦
                send_words bus raised fuel n (drop 4 (x ∷ xs)) left
                  (send_word bus raised (take 4 (x ∷ xs)) ready).1
          ]

  send_words-Sends :
      (fuel n : ℕ) (buffer : List ℕ) (available : ℕ) (st : UartState S)
      → (available == 0) ≡ false
      → length buffer ≤ n
      → IsBytes buffer
      → IsReady t st
      → Sends buffer st (send_words bus raised fuel n buffer available st)
  unfolding send_words Sends
  send_words-Sends fuel zero [] available st e h l ready =
      (refl, ready, sym (append-nil (line st.irq.hw).sent))
  send_words-Sends fuel zero (x ∷ xs) available st e h l ready = absurd (omega arith)
  send_words-Sends fuel (suc n) [] available st e h l ready =
      (refl, ready, sym (append-nil (line st.irq.hw).sent))
  send_words-Sends fuel (suc n) (x ∷ xs) available st e h l ready =
      let begun : UartState S = record st { uart = record st.uart { tx_complete = false } } in
      let next : UartState S = (send_word bus raised (take 4 (x ∷ xs)) begun).1 in
      let (ready', first) =
        send_word-sends t (take 4 (x ∷ xs)) begun
          (record { at_base = ready.at_base; idle = ready.idle; enabled = ready.enabled }) refl
          (take-IsBytes 4 (x ∷ xs) l) (length-take 4 (x ∷ xs)) in
      let (returned, ready'', rest) =
        send_words-Sends fuel n (drop 4 (x ∷ xs)) available next e
          (omega (arith, length-drop 4 (x ∷ xs))) (drop-IsBytes 4 (x ∷ xs) l) ready' in
      subst (Sends (x ∷ xs) st) (sym (send_words-next fuel n x xs available st e)) (
        returned,
        ready'',
        rest
            ∙ ap (λ (q : List ℕ). q ++ drop 4 (x ∷ xs)) first
            ∙ append_assoc (line st.irq.hw).sent (take 4 (x ∷ xs)) (drop 4 (x ∷ xs))
            ∙ ap (λ (q : List ℕ). (line st.irq.hw).sent ++ q) (take-append-drop 4 (x ∷ xs)),
      )

  -- The interrupts are switched on, and the line is as it was.
  switch_on-IsReady :
      (st : UartState S)
      → st.uart.base_address ≡ base
      → IsIdle (line st.irq.hw)
      → IsReady t (switch_on bus raised st).1
        × ((line (switch_on bus raised st).1.irq.hw).sent ≡ (line st.irq.hw).sent)
  unfolding switch_on
  switch_on-IsReady st b idle = (
    record {
      at_base = b;
      idle = record {
        out = ap (λ (x : Line). x.left) now ∙ idle.out;
        taken = ap (λ (x : Line). x.done) now ∙ idle.taken;
      };
      enabled = ap (λ (x : Line). x.enabled) now;
    },
    ap (λ (x : Line). x.sent) now,
  )
    where
      looked : UartState S
      looked = record st {
        irq = record st.irq { hw = bus.after_read (reg st.uart tx_fifo_status) st.irq.hw };
      }

      val : ℕ
      val = bus.peek looked.irq.hw (reg st.uart m_irq_en)

      now :
          line (update_reg bus m_irq_en tx_irqs tx_irqs looked).1.irq.hw
          ≡ record (line st.irq.hw) { enabled = true }
      now =
          line-update t m_irq_en tx_irqs tx_irqs looked (omega arith) b
          ∙ written-m_irq_en takes (replaced val tx_irqs tx_irqs) (line looked.irq.hw)
          ∙ ap₂ (λ (x : Line) (e : Bool). record x { enabled = e })
              (t.reads (reg st.uart tx_fifo_status) st.irq.hw) (end_switched_on val)

  switch_off-keeps :
      (returned : Bool) (st : UartState S)
      → returned ≡ true
      → st.uart.base_address ≡ base
      → ((switch_off bus raised returned st).0 ≡ true)
        × ((line (switch_off bus raised returned st).1.irq.hw).sent ≡ (line st.irq.hw).sent)
        × ((line (switch_off bus raised returned st).1.irq.hw).left ≡ (line st.irq.hw).left)
  unfolding switch_off
  switch_off-keeps false st r b = absurd (cc r)
  switch_off-keeps true st r b =
      (refl, ap (λ (x : Line). x.sent) now, ap (λ (x : Line). x.left) now)
    where
      cleared : UartState S
      cleared = (write_reg bus m_irq_clr (bit 30) st).1

      val : ℕ
      val = bus.peek cleared.irq.hw (reg st.uart m_irq_en)

      now : line (update_reg bus m_irq_en (bit 30) 0 cleared).1.irq.hw ≡ record (line st.irq.hw) {
        done = (line st.irq.hw).done && not (testbit (u32 (bit 30)) 0);
        enabled = testbit (replaced val (bit 30) 0) 0;
      }
      now =
          line-update t m_irq_en (bit 30) 0 cleared (omega arith) b
          ∙ written-m_irq_en takes (replaced val (bit 30) 0) (line cleared.irq.hw)
          ∙ ap (λ (x : Line). record x { enabled = testbit (replaced val (bit 30) 0) 0 })
              (line-poke t m_irq_clr (u32 (bit 30)) st.uart st.irq.hw (omega arith) b
                ∙ written-clear takes (u32 (bit 30)) (line st.irq.hw))

  -- `MsmGeniWriteTxFifo` of a buffer of bytes, on an idle port whose FIFO has space, returns; then it has
  -- sent the bytes in order and nothing else, whatever interrupts come while it waits, and the last is
  -- out. The transmitter loses a word that no command was given for, or that comes before the last word
  -- is out; it takes at most a second for a word, and reports its end by an interrupt.
  pub msm_geni_write_tx_fifo-sends :
      (fuel : ℕ) (buffer : List ℕ) (st : UartState S)
      → IsBytes buffer
      → st.uart.base_address ≡ base
      → IsIdle (line st.irq.hw)
      → free_words st.uart (bus.peek st.irq.hw (reg st.uart tx_fifo_status)) ≢ 0
      → let (returned, after) = msm_geni_write_tx_fifo bus raised fuel (some buffer) st in
        (returned ≡ true)
        × ((line after.irq.hw).sent ≡ (line st.irq.hw).sent ++ buffer)
        × ((line after.irq.hw).left ≡ 0)
  unfolding msm_geni_write_tx_fifo switch_on Sends
  msm_geni_write_tx_fifo-sends fuel [] st l b idle space =
      (refl, sym (append-nil (line st.irq.hw).sent), idle.out)
  msm_geni_write_tx_fifo-sends fuel (x ∷ xs) st l b idle space =
      let on : UartState S = (switch_on bus raised st).1 in
      let available : ℕ = (switch_on bus raised st).0 in
      let last : Bool × UartState S =
        send_words bus raised fuel (length (x ∷ xs)) (x ∷ xs) available on in
      let (ready, same) = switch_on-IsReady st b idle in
      let (returned, ready', sends) =
        send_words-Sends fuel (length (x ∷ xs)) (x ∷ xs) available on (ne→== available 0 space)
          (omega arith) l ready in
      let (ends, kept, out) = switch_off-keeps last.0 last.1 returned ready'.at_base in
      (ends, kept ∙ sends ∙ ap (λ (q : List ℕ). q ++ (x ∷ xs)) same, out ∙ ready'.idle.out)
