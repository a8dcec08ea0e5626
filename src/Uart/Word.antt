-- ===== src/Uart/Word.antt =====
-- One word that debug_uart.c sends: the command, the length, the word, and the wait until it is out.
use cr_dk.Uart.Line.{IsTransmitter, Line, IsIdle, written, written-word}
use cr_dk.Uart.Quiet.{line-poke}
use cr_dk.Uart.Settle.{IsSettled, wait_complete-IsSettled}
use cr_dk.Uart.Words.{IsBytes, bytes_from-merge}
use cr_dk.Uart.Isr.{write_reg, update_reg}
use cr_dk.Uart.Transmit.{send_word, wait_complete, merge}
use cr_dk.Uart.Types.{UartState, reg, m_cmd0, tx_trans_len, tx_fifo_n, tx_timeout_us}
use cr_dk.Bits.{gen_msk, u32}
use cr_dk.Mmio.{◌>>=◌, Bus, update_bits32}
use mathlib.Core.Path.{ap₂}
use cr_dk.Base.{
  ℕ, ◌*◌, ◌^◌, ◌≤◌, ◌<◌, ◌≡◌, refl, ap, ◌∙◌, Bool, true, false, List, ◌++◌, arith, length,
}
use cr_dk.Uart.Commands.{replaced, start_opcode}

module _ {S : Type 0} {bus : Bus S} {base : ℕ} {raised : S → Bool} {line : S → Line} {takes : ℕ → ℕ}
    (t : IsTransmitter bus base raised line takes) where
  -- The port is ready for a transfer.
  pub record IsReady (st : UartState S) : Type 0 where
    pub at_base : st.uart.base_address ≡ base
    pub idle : IsIdle (line st.irq.hw)
    pub enabled : (line st.irq.hw).enabled ≡ true

  -- A command, the length of a word and the word, before the wait.
  abbrev issued : List ℕ → UartState S → UartState S
  issued word st =
      ((update_reg bus m_cmd0 (gen_msk 31 27) (1 * 2 ^ 27) >>= λ old.
      write_reg bus tx_trans_len (length word) >>= λ u. write_reg bus tx_fifo_n (merge 0 word 0))
        st).1

  pub line-update :
      (off mask bits : ℕ) (st : UartState S)
      → off < 0x1000
      → st.uart.base_address ≡ base
      → line (update_reg bus off mask bits st).1.irq.hw
        ≡ written takes off
            (replaced (bus.peek st.irq.hw (reg st.uart off)) mask bits)
            (line st.irq.hw)
  unfolding update_bits32
  line-update off mask bits st h b =
      line-poke t off _ st.uart _ h b
      ∙ ap (written takes off (replaced (bus.peek st.irq.hw (reg st.uart off)) mask bits))
          (t.reads (reg st.uart off) st.irq.hw)

  line-issued :
      (word : List ℕ) (st : UartState S)
      → IsReady st
      → IsBytes word
      → length word ≤ 4
      → line (issued word st).irq.hw ≡ record (line st.irq.hw) {
        sent = (line st.irq.hw).sent ++ word;
        len = length word;
        started = false;
        left = takes (length word);
      }
  line-issued word st h l room =
      line-poke t tx_fifo_n (u32 (merge 0 word 0)) st.uart _ (omega arith) h.at_base
      ∙ ap (written takes tx_fifo_n (u32 (merge 0 word 0))) (
          line-poke t tx_trans_len (u32 (length word)) st.uart _ (omega arith) h.at_base
          ∙ ap₂ (λ (n : ℕ) (x : Line). written takes tx_trans_len n x) long
              (line-update m_cmd0 (gen_msk 31 27) (1 * 2 ^ 27) st (omega arith) h.at_base))
      ∙ written-word takes _ (length word) (u32 (merge 0 word 0)) (line st.irq.hw)
          (start_opcode (bus.peek st.irq.hw (reg st.uart m_cmd0))) h.idle.out
      ∙ ap
          (λ (bytes : List ℕ). record (line st.irq.hw) {
            sent = (line st.irq.hw).sent ++ bytes;
            len = length word;
            started = false;
            left = takes (length word);
          })
          (bytes_from-merge word l room)
    where
      long : u32 (length word) ≡ length word
      long = omega arith

  -- The wait comes last.
  send_word_lem :
      (word : List ℕ) (st : UartState S)
      → send_word bus raised word st ≡ wait_complete bus raised tx_timeout_us (issued word st)
  unfolding send_word
  send_word_lem word st = refl

  -- A word is sent, and the port is ready for the next.
  pub send_word-sends :
      (word : List ℕ) (st : UartState S)
      → IsReady st
      → st.uart.tx_complete ≡ false
      → IsBytes word
      → length word ≤ 4
      → IsReady (send_word bus raised word st).1
        × ((line (send_word bus raised word st).1.irq.hw).sent ≡ (line st.irq.hw).sent ++ word)
  unfolding send_word
  send_word-sends word st h begun l room = (
    record {
      at_base = waited.at_base;
      idle = record {
        out = ap (λ (x : Line). x.left) waited.settled;
        taken = ap (λ (x : Line). x.done) waited.settled;
      };
      enabled =
          ap (λ (x : Line). x.enabled) waited.settled
          ∙ ap (λ (x : Line). x.enabled) under_way
          ∙ h.enabled;
    },
    ap (λ (x : Line). x.sent) waited.settled ∙ ap (λ (x : Line). x.sent) under_way,
  )
    where
      under_way : line (issued word st).irq.hw ≡ record (line st.irq.hw) {
        sent = (line st.irq.hw).sent ++ word;
        len = length word;
        started = false;
        left = takes (length word);
      }
      under_way = line-issued word st h l room

      time : (line (issued word st).irq.hw).left ≡ takes (length word)
      time = ap (λ (x : Line). x.left) under_way

      waited :
          IsSettled t (issued word st) (wait_complete bus raised tx_timeout_us (issued word st)).1
      waited =
          wait_complete-IsSettled t tx_timeout_us (issued word st)
            (record {
              at_base = h.at_base;
              incomplete = begun;
              unreported = ap (λ (x : Line). x.done) under_way ∙ h.idle.taken;
              enabled = ap (λ (x : Line). x.enabled) under_way ∙ h.enabled;
            })
            (omega (arith, time, t.positive (length word)))
            (omega (arith, time, t.bounded (length word) room))
