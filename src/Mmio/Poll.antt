-- ===== src/Mmio/Poll.antt =====
-- A register that is read until a test holds, with a wait of a microsecond after each read that fails it.
use cr_dk.Mmio.{Bus, M}
use mathlib.Core.Path.{subst}
use cr_dk.Base.{ℕ, zero, suc, ◌<◌, ◌≡◌, sym, ap, inl, inr, Bool, true, false, arith, Bool-cases}

module _ {S : Type 0} (bus : Bus S) (done : ℕ → Bool) (a : ℕ) where
  -- With `n` reads left: whether the test has held.
  unfoldable pub poll : ℕ → M S Bool
  poll zero s = (false, s)
  poll (suc n) s =
      let s' = bus.after_read a s in
      elim (done (bus.peek s a)) [ true ↦ (true, s') | false ↦ poll n (bus.delay 1 s') ]

  -- The hardware after `k` reads and waits.
  abbrev pub waited : ℕ → S → S
  waited zero s = s
  waited (suc k) s = waited k (bus.delay 1 (bus.after_read a s))

  -- The test fails on the first `k` reads.
  abbrev pub Fails : ℕ → S → Type 0
  Fails k s = (j : ℕ) → j < k → done (bus.peek (waited j s) a) ≡ false

  -- What the answer of the loop tells of `n` reads.
  unfoldable pub Polled : ℕ → S → Bool → Type 0
  Polled n s true = (k : ℕ) × (k < n) × Fails k s × (done (bus.peek (waited k s) a) ≡ true)
  Polled n s false = Fails n s

  later_read :
      (k : ℕ) (s : S)
      → done (bus.peek s a) ≡ false
      → Fails k (bus.delay 1 (bus.after_read a s))
      → Fails (suc k) s
  later_read k s e f zero h = e
  later_read k s e f (suc j) h = f j (omega arith)

  later_round :
      (n : ℕ) (s : S) (b : Bool)
      → done (bus.peek s a) ≡ false
      → Polled n (bus.delay 1 (bus.after_read a s)) b
      → Polled (suc n) s b
  unfolding Polled
  later_round n s true e (k, h, f, d) = (suc k, omega arith, later_read k s e f, d)
  later_round n s false e f = later_read n s e f

  -- The loop ends at the first read on which the test holds, and answers false only when it fails on all.
  pub poll-Polled : (n : ℕ) (s : S) → Polled n s (poll n s).0
  unfolding poll Polled
  poll-Polled zero s = λ j h. absurd (omega arith)
  poll-Polled (suc n) s = elim (Bool-cases (done (bus.peek s a))) [
    | inl e ↦
        subst (Polled (suc n) s) (sym (ap (λ (b : Bool). (answer n s b).0) e))
          (0, omega arith, λ j h. absurd (omega arith), e)
    | inr e ↦ subst (Polled (suc n) s) (sym (ap (λ (b : Bool). (answer n s b).0) e)) (
        later_round n s (poll n (bus.delay 1 (bus.after_read a s))).0 e
          (poll-Polled n (bus.delay 1 (bus.after_read a s))))
  ]
    where
      answer : ℕ → S → Bool → Bool × S
      answer n s b = elim b [
        | true ↦ (true, bus.after_read a s)
        | false ↦ poll n (bus.delay 1 (bus.after_read a s))
      ]
