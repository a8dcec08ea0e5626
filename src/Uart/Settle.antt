-- ===== src/Uart/Settle.antt =====
-- The wait of debug_uart.c for a word to be out: its loop ends when the handler has taken the report, and
-- so not before the word is out.
use cr_dk.Uart.Line.{IsTransmitter, Line, waited-last, waited-on}
use cr_dk.Uart.Quiet.{Handled, isr-Handled}
use cr_dk.Uart.Isr.{choose, msm_geni_serial_isr}
use cr_dk.Uart.Transmit.{wait_us, wait_complete}
use cr_dk.Uart.Types.{UartState}
use cr_dk.Mmio.{Bus, ◌>>=◌}
use cr_dk.Base.{
  ℕ, zero, suc, ◌-◌, ◌≤◌, ◌<◌, ◌≡◌, refl, ap, ◌∙◌, inl, inr, Bool, true, false, arith, leb,
  Bool-cases,
}

module _ {S : Type 0} {bus : Bus S} {base : ℕ} {raised : S → Bool} {line : S → Line} {takes : ℕ → ℕ}
    (t : IsTransmitter bus base raised line takes) where
  abbrev line_of : UartState S → Line
  line_of st = line st.irq.hw

  -- A word is on its way, and the handler has not been told of it.
  pub record IsSending (st : UartState S) : Type 0 where
    pub at_base : st.uart.base_address ≡ base
    pub incomplete : st.uart.tx_complete ≡ false
    pub unreported : (line st.irq.hw).done ≡ false
    pub enabled : (line st.irq.hw).enabled ≡ true

  -- The word is out, and nothing else has changed on the line.
  pub record IsSettled (before after : UartState S) : Type 0 where
    pub at_base : after.uart.base_address ≡ base
    pub settled : line after.irq.hw ≡ record (line before.irq.hw) { left = 0; done = false }

  abbrev slept : UartState S → UartState S
  slept st = record st { irq = record st.irq { hw = bus.delay 1 st.irq.hw } }

  wait_us-raised :
      (st : UartState S)
      → raised (bus.delay 1 st.irq.hw) ≡ true
      → wait_us bus raised st ≡ msm_geni_serial_isr bus (slept st)
  unfolding wait_us
  wait_us-raised st e = rw (e, choose) refl

  wait_us-calm :
      (st : UartState S)
      → raised (bus.delay 1 st.irq.hw) ≡ false
      → wait_us bus raised st ≡ (tt, slept st)
  unfolding wait_us
  wait_us-calm st e = rw (e, choose) refl

  wait_complete-done :
      (n : ℕ) (st : UartState S)
      → st.uart.tx_complete ≡ true
      → wait_complete bus raised n st ≡ (tt, st)
  unfolding wait_complete
  wait_complete-done zero st e = refl
  wait_complete-done (suc n) st e =
      ap
        (λ (b : Bool). elim b as (λ x. Unit {0} × UartState S) [
          | true ↦ (tt, st)
          | false ↦ (wait_us bus raised >>= λ u. wait_complete bus raised n) st
        ])
        e

  wait_complete-next :
      (n : ℕ) (st : UartState S)
      → st.uart.tx_complete ≡ false
      → wait_complete bus raised (suc n) st ≡ wait_complete bus raised n (wait_us bus raised st).1
  unfolding wait_complete
  wait_complete-next n st e = rw (e, choose) refl

  -- The last microsecond: the interrupt comes, and the handler takes the report.
  wait_us-last :
      (st : UartState S)
      → IsSending st
      → 0 < (line st.irq.hw).left
      → (line st.irq.hw).left ≤ 1
      → IsSettled st (wait_us bus raised st).1 × ((wait_us bus raised st).1.uart.tx_complete ≡ true)
  wait_us-last st h some_left last = rw (wait_us-raised st comes) (
    record {
      at_base = handled.base_kept ∙ h.at_base;
      settled = handled.acknowledges ∙ ap (λ (l : Line). record l { done = false }) over;
    },
    handled.completed ∙ rw (ap (λ (l : Line). l.done) over) refl,
  )
    where
      over : line (bus.delay 1 st.irq.hw) ≡ record (line st.irq.hw) { left = 0; done = true }
      over = t.waits 1 st.irq.hw ∙ waited-last (line st.irq.hw) some_left last

      comes : raised (bus.delay 1 st.irq.hw) ≡ true
      comes =
          t.raises (bus.delay 1 st.irq.hw) (ap (λ (l : Line). l.done) over)
            (ap (λ (l : Line). l.enabled) over ∙ h.enabled)

      handled : Handled t (slept st) (msm_geni_serial_isr bus (slept st)).1
      handled = isr-Handled t (slept st) h.at_base

  -- Another microsecond, with an interrupt or without.
  wait_us-on :
      (st : UartState S)
      → IsSending st
      → 1 < (line st.irq.hw).left
      → IsSending (wait_us bus raised st).1
        × (line (wait_us bus raised st).1.irq.hw
            ≡ record (line st.irq.hw) { left = (line st.irq.hw).left - 1; done = false })
  wait_us-on st h more = elim (Bool-cases (raised (bus.delay 1 st.irq.hw))) [
    | inl comes ↦ rw (wait_us-raised st comes) (
        let handled = isr-Handled t (slept st) h.at_base in
        let now = handled.acknowledges ∙ ap (λ (l : Line). record l { done = false }) on in
        (
          record {
            at_base = handled.base_kept ∙ h.at_base;
            incomplete = handled.completed ∙ rw (still (bus.delay 1 st.irq.hw) on) h.incomplete;
            unreported = ap (λ (l : Line). l.done) now;
            enabled = ap (λ (l : Line). l.enabled) now ∙ h.enabled;
          },
          now,
        ))
    | inr calm ↦ rw (wait_us-calm st calm) (
      record {
        at_base = h.at_base;
        incomplete = h.incomplete;
        unreported = still (bus.delay 1 st.irq.hw) on;
        enabled = ap (λ (l : Line). l.enabled) on ∙ h.enabled;
      },
      on
          ∙ ap
              (λ (d : Bool). record (line st.irq.hw) { left = (line st.irq.hw).left - 1; done = d })
              h.unreported,
    )
  ]
    where
      on :
          line (bus.delay 1 st.irq.hw)
          ≡ record (line st.irq.hw) { left = (line st.irq.hw).left - 1 }
      on = t.waits 1 st.irq.hw ∙ waited-on (line st.irq.hw) more

      still :
          (s : S)
          → line s ≡ record (line st.irq.hw) { left = (line st.irq.hw).left - 1 }
          → (line s).done ≡ false
      still s e = ap (λ (l : Line). l.done) e ∙ h.unreported

  -- As many rounds as the word takes are enough.
  pub wait_complete-IsSettled :
      (n : ℕ) (st : UartState S)
      → IsSending st
      → 0 < (line st.irq.hw).left
      → (line st.irq.hw).left ≤ n
      → IsSettled st (wait_complete bus raised n st).1
  wait_complete-IsSettled zero st h some_left enough = absurd (omega arith)
  wait_complete-IsSettled (suc n) st h some_left enough =
      rw (wait_complete-next n st h.incomplete) (elim (Bool-cases (leb (line st.irq.hw).left 1)) [
        | inl last ↦
            let (settled, complete) = wait_us-last st h some_left (ground (arith, last)) in
            rw (wait_complete-done n (wait_us bus raised st).1 complete) settled
        | inr more ↦
            let (sending, now) = wait_us-on st h (ground (arith, more)) in
            let left_now = ap (λ (l : Line). l.left) now in
            let rest =
              wait_complete-IsSettled n (wait_us bus raised st).1 sending
                (ground (arith, more, left_now)) (ground (arith, more, left_now)) in
            record {
              at_base = rest.at_base;
              settled = rest.settled ∙ ap (λ (l : Line). record l { left = 0; done = false }) now;
            }
      ])
