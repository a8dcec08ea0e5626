-- ===== src/Trng/Wait.antt =====
-- How long GetArmTrngEntropy of QcomTrngLib.c waits, and that it returns.
use mathlib.Core.Path.{subst}
use cr_dk.Trng.{bytes_of, poll, min, u64, CrTrngConfig}
use cr_dk.Base.{
  ℕ, zero, suc, ◌+◌, ◌-◌, ◌/◌, ◌^◌, ◌≤◌, ◌<◌, bit_and, ◌≡◌, refl, sym, ap, ◌∙◌, inl, inr, Bool,
  true, false, not, Option, none, some, arith, leb, ◌==◌, Bool-cases, length,
}
use cr_dk.Mmio.{Bus}

-- A clock of the hardware, which waiting moves on by the time waited and reading does not move.
pub record IsClock {S : Type 0} (bus : Bus S) (clock : S → ℕ) : Type 0 where
  pub clock-delay : (us : ℕ) (s : S) → clock (bus.delay us s) ≡ clock s + us
  pub clock-after_read : (a : ℕ) (s : S) → clock (bus.after_read a s) ≡ clock s

module _ {S : Type 0} (bus : Bus S) (c : CrTrngConfig) where
  abbrev status_at : ℕ
  status_at = u64 (c.base_address + c.status_offset)

  abbrev data_at : ℕ
  data_at = u64 (c.base_address + c.data_out_offset)

  abbrev ready : S → Bool
  ready s = not (bit_and (bus.peek s status_at) c.data_available_mask == 0)

  abbrev delay_at : ℕ → ℕ
  delay_at elapsed = min c.poll_delay_us (c.timeout_us - elapsed)

  poll-ready :
      (n elapsed : ℕ) (s : S)
      → ready s ≡ true
      → poll bus c (suc n) elapsed s ≡ (
        some (some (bus.peek (bus.after_read status_at s) data_at)),
        bus.after_read data_at (bus.after_read status_at s),
      )
  unfolding poll
  poll-ready n elapsed s h = ground (arith, h)

  poll-late :
      (n elapsed : ℕ) (s : S)
      → ready s ≡ false
      → leb c.timeout_us elapsed ≡ true
      → poll bus c (suc n) elapsed s ≡ (some none, bus.after_read status_at s)
  unfolding poll
  poll-late n elapsed s h late = ground (arith, h, late)

  poll-wait :
      (n elapsed : ℕ) (s : S)
      → ready s ≡ false
      → leb c.timeout_us elapsed ≡ false
      → poll bus c (suc n) elapsed s
        ≡ poll bus c n
            (elapsed + delay_at elapsed)
            (bus.delay (delay_at elapsed) (bus.after_read status_at s))
  unfolding poll
  poll-wait n elapsed s h early = ground (arith, h, early)

  -- With a delay of at least a microsecond the rounds do not run out before the time is up; the wait is
  -- within the time, and it is the whole time if no word came.
  abbrev Waited : (S → ℕ) → ℕ → S → Option (Option ℕ) × S → Type 0
  Waited clock elapsed s run =
      (out : Option ℕ) × (run.0 ≡ some out)
      × (clock run.1 + elapsed ≤ clock s + c.timeout_us)
      × (out ≡ none → clock run.1 + elapsed ≡ clock s + c.timeout_us)

  module _ {clock : S → ℕ} (k : IsClock bus clock) (step : 0 < c.poll_delay_us) where
    pub poll-Waited :
        (n elapsed : ℕ) (s : S)
        → elapsed ≤ c.timeout_us
        → c.timeout_us < elapsed + n
        → Waited clock elapsed s (poll bus c n elapsed s)
    poll-Waited zero elapsed s early enough = absurd (omega arith)
    poll-Waited (suc n) elapsed s early enough = elim (Bool-cases (ready s)) [
      | inl there ↦
          let now = k.clock-after_read status_at s in
          let then_ = k.clock-after_read data_at (bus.after_read status_at s) in
          subst (Waited clock elapsed s) (sym (poll-ready n elapsed s there)) (
            some (bus.peek (bus.after_read status_at s) data_at),
            refl,
            omega (arith, now, then_),
            λ e. absurd (cc (e)),
          )
      | inr missing ↦ elim (Bool-cases (leb c.timeout_us elapsed)) [
        | inl late ↦
            let now = k.clock-after_read status_at s in
            let same : elapsed ≡ c.timeout_us = ground (arith, late) in
            subst (Waited clock elapsed s) (sym (poll-late n elapsed s missing late))
              (none, refl, omega (arith, now, same), λ e. omega (arith, now, same))
        | inr time ↦
            let d = delay_at elapsed in
            let s' = bus.delay d (bus.after_read status_at s) in
            let left : elapsed < c.timeout_us = ground (arith, time) in
            let some_delay : 0 < d = ground (arith, step, left) in
            let within : elapsed + d ≤ c.timeout_us = ground (arith, left) in
            let now : clock s' ≡ clock s + d =
              k.clock-delay d (bus.after_read status_at s)
              ∙ ap (λ (t : ℕ). t + d) (k.clock-after_read status_at s) in
            let (out, found, bound, whole) =
              poll-Waited n (elapsed + d) s' within (omega (arith, enough, some_delay)) in
            subst (Waited clock elapsed s) (sym (poll-wait n elapsed s missing time))
              (out, found, omega (arith, bound, now), λ e. omega (arith, whole e, now))
      ]
    ]

pub length-bytes_of : (n w : ℕ) → length (bytes_of n w) ≡ n
unfolding bytes_of
length-bytes_of zero w = refl
length-bytes_of (suc n) w = ap suc (length-bytes_of n (w / 2 ^ 8))
