-- ===== src/Trng/Entropy.antt =====
-- GetArmTrngEntropy of QcomTrngLib.c on every argument.
use cr_dk.Trng.Wait.{length-bytes_of, poll-Waited, IsClock}
use cr_dk.Trng.{poll, bytes_of, config_usable, get_arm_trng_entropy, ReturnStatus, CrTrngConfig}
use mathlib.Core.Path.{subst}
use cr_dk.Base.{
  ℕ, suc, ◌+◌, ◌/◌, ◌≤◌, ◌<◌, bit_and, ◌≡◌, refl, sym, ap, inl, inr, Bool, true, false, not, ◌||◌,
  Option, none, some, List, [], arith, ltb, ◌==◌, Bool-cases, length,
}
use cr_dk.Mmio.{Bus}

module _ {S : Type 0} (bus : Bus S) (c : CrTrngConfig) (bits size : ℕ) (given : Bool) (s : S) where
  abbrev pub entropy : Option (ReturnStatus × List ℕ) × S
  entropy = get_arm_trng_entropy bus (some c) bits size given s

  abbrev bad_request : Bool
  bad_request = not given || bits == 0 || ltb c.max_entropy_bits bits || not (bit_and bits 7 == 0)

  entropy-unusable :
      config_usable c ≡ false → entropy ≡ (some (ReturnStatus.return_unsupported, []), s)
  unfolding get_arm_trng_entropy
  entropy-unusable h = ground (arith, h)

  entropy-bad :
      config_usable c ≡ true
      → bad_request ≡ true
      → entropy ≡ (some (ReturnStatus.return_invalid_parameter, []), s)
  unfolding get_arm_trng_entropy
  entropy-bad h bad = ground (arith, h, bad)

  entropy-small :
      config_usable c ≡ true
      → bad_request ≡ false
      → ltb size (bits / 8) ≡ true
      → entropy ≡ (some (ReturnStatus.return_bad_buffer_size, []), s)
  unfolding get_arm_trng_entropy
  entropy-small h good small = ground (arith, h, good, small)

  abbrev answer : Option ℕ → ReturnStatus × List ℕ
  answer none = (ReturnStatus.return_not_ready, [])
  answer (some w) = (ReturnStatus.return_success, bytes_of (bits / 8) w)

  entropy-polled :
      config_usable c ≡ true
      → bad_request ≡ false
      → ltb size (bits / 8) ≡ false
      → (out : Option ℕ) → (poll bus c (suc c.timeout_us) 0 s).0 ≡ some out
      → (entropy.0 ≡ some (answer out)) × (entropy.1 ≡ (poll bus c (suc c.timeout_us) 0 s).1)
  unfolding get_arm_trng_entropy
  entropy-polled h good room none found =
      (ground (arith, h, good, room, found), ground (arith, h, good, room, found))
  entropy-polled h good room (some w) found =
      (ground (arith, h, good, room, found), ground (arith, h, good, room, found))

  -- What is said of a call's result.
  abbrev pub Answered : (S → ℕ) → Option (ReturnStatus × List ℕ) × S → Type 0
  Answered clock run =
      (status : ReturnStatus) × (bytes : List ℕ) × (run.0 ≡ some (status, bytes))
      × (clock run.1 ≤ clock s + c.timeout_us)
      × (status ≡ ReturnStatus.return_success → length bytes ≡ bits / 8)
      × (status ≡ ReturnStatus.return_not_ready → clock run.1 ≡ clock s + c.timeout_us)

  entropy-Answered :
      (clock : S → ℕ)
      → config_usable c ≡ true
      → bad_request ≡ false
      → ltb size (bits / 8) ≡ false
      → (out : Option ℕ) → (poll bus c (suc c.timeout_us) 0 s).0 ≡ some out
      → clock (poll bus c (suc c.timeout_us) 0 s).1 + 0 ≤ clock s + c.timeout_us
      → (out ≡ none → clock (poll bus c (suc c.timeout_us) 0 s).1 + 0 ≡ clock s + c.timeout_us)
      → Answered clock entropy
  entropy-Answered clock usable good room none found bound whole =
      let polled = entropy-polled usable good room none found in
      (
        ReturnStatus.return_not_ready,
        [],
        polled.0,
        omega (arith, bound, ap clock polled.1),
        λ e. absurd (cc (e)),
        λ e. omega (arith, whole refl, ap clock polled.1),
      )
  entropy-Answered clock usable good room (some w) found bound whole =
      let polled = entropy-polled usable good room (some w) found in
      (
        ReturnStatus.return_success,
        bytes_of (bits / 8) w,
        polled.0,
        omega (arith, bound, ap clock polled.1),
        λ e. length-bytes_of (bits / 8) w,
        λ e. absurd (cc (e)),
      )

  -- `GetArmTrngEntropy` returns on every argument and whatever the hardware answers. It waits no longer
  -- than its configuration's time, and the whole of it when it returns RETURN_NOT_READY; when it
  -- returns RETURN_SUCCESS it has written as many bytes as were asked for. The hardware has a clock.
  pub get_arm_trng_entropy-Answered : {clock : S → ℕ} → IsClock bus clock → Answered clock entropy
  get_arm_trng_entropy-Answered {clock} k = elim (Bool-cases (config_usable c)) [
    | inr unusable ↦ subst (Answered clock) (sym (entropy-unusable unusable)) (
      ReturnStatus.return_unsupported,
      [],
      refl,
      omega arith,
      λ e. absurd (cc (e)),
      λ e. absurd (cc (e)),
    )
    | inl usable ↦ elim (Bool-cases bad_request) [
      | inl bad ↦ subst (Answered clock) (sym (entropy-bad usable bad)) (
        ReturnStatus.return_invalid_parameter,
        [],
        refl,
        omega arith,
        λ e. absurd (cc (e)),
        λ e. absurd (cc (e)),
      )
      | inr good ↦ elim (Bool-cases (ltb size (bits / 8))) [
        | inl small ↦ subst (Answered clock) (sym (entropy-small usable good small)) (
          ReturnStatus.return_bad_buffer_size,
          [],
          refl,
          omega arith,
          λ e. absurd (cc (e)),
          λ e. absurd (cc (e)),
        )
        | inr room ↦
            let step : 0 < c.poll_delay_us = ground (arith, usable) in
            let waited =
              poll-Waited bus c k step (suc c.timeout_us) 0 s (omega arith) (omega arith) in
            entropy-Answered clock usable good room waited.0 waited.1 waited.2 waited.3
      ]
    ]
  ]
