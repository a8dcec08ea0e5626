-- ===== src/Clock/Hertz.antt =====
-- The arithmetic of debugcc.c and of the duty cycle in clock.c.
use native.Mathlib.Nat.{mul_assoc, mul-le-mul_left, mul-le-mul, mod-eq_of_lt}
use cr_dk.Clock.Debugcc.{DebugccInfo, DebugccController, counted_hz, times, final_hz}
use cr_dk.Clock.Rcg.{d2_val}
use cr_dk.Base.{
  ℕ, ◌+◌, ◌-◌, ◌*◌, ◌/◌, ◌^◌, ◌≤◌, ◌<◌, ◌≡◌, refl, ap, ◌∙◌, inl, inr, arith, ◌==◌, if◌then◌else◌,
  Bool-cases,
}

-- The frequency of the count of a full measurement, 131072 ticks of 4.8 MHz.
abbrev pub exact_hz : ℕ → ℕ → ℕ
exact_hz short full = if short == full then 0 else (full * 10 + 15) * 4800000 / 1310755

counted_hz_exact :
    (short full : ℕ)
    → full < 2 ^ 25
    → (counted_hz short full ≡ exact_hz short full) × (counted_hz short full < 2 ^ 31)
unfolding counted_hz
counted_hz_exact short full h = elim (Bool-cases (short == full)) [
  | inl e ↦ rw e (refl, omega arith)
  | inr e ↦ rw e (omega arith, omega arith)
]

-- A divider of 0 counts as 1.
abbrev pub or_one : ℕ → ℕ
or_one d = if d == 0 then 1 else d

times_exact : (hz d : ℕ) → hz * or_one d < 2 ^ 64 → times hz d ≡ hz * or_one d
unfolding times
times_exact hz d h = elim (Bool-cases (d == 0)) [
  | inl e ↦ rw e (omega arith)
  | inr e ↦ rw e (mod-eq_of_lt (rw e at h))
]

one_or_more : (d : ℕ) → 1 ≤ or_one d
one_or_more d = ground arith

room_lem :
    (hz p q : ℕ)
    → hz ≤ 2 ^ 31 - 1
    → 1 ≤ q
    → p * q ≤ 2 ^ 33
    → (hz * p < 2 ^ 64) × (hz * p * q < 2 ^ 64)
room_lem hz p q l one h =
    let few : p ≤ 2 ^ 33 = omega (arith, h, mul-le-mul_left p one) in
    (omega (arith, mul-le-mul l few), omega (arith, mul-le-mul l h, mul_assoc hz p q))

-- The final frequency of a clock is the exact one times its dividers, and nothing wraps on the way, for
-- counts of 25 bits and dividers whose product is at most 2 ^ 33.
pub final_hz-exact :
    (c : DebugccController) (clock : DebugccInfo) (short full : ℕ)
    → full < 2 ^ 25
    → or_one c.post_div_val * or_one clock.pre_div_val ≤ 2 ^ 33
    → final_hz c clock short full
      ≡ exact_hz short full * or_one c.post_div_val * or_one clock.pre_div_val
unfolding final_hz
final_hz-exact c clock short full h k =
    let (exact, small) = counted_hz_exact short full h in
    ap (λ (hz : ℕ). times (times hz c.post_div_val) clock.pre_div_val) exact
    ∙ ap (λ (hz : ℕ). times hz clock.pre_div_val)
        (times_exact hz c.post_div_val (omega (arith, room (omega (arith, exact, small)))))
    ∙ times_exact (hz * p) clock.pre_div_val (omega (arith, room (omega (arith, exact, small))))
  where
    hz : ℕ
    hz = exact_hz short full

    p : ℕ
    p = or_one c.post_div_val

    q : ℕ
    q = or_one clock.pre_div_val

    room : hz ≤ 2 ^ 31 - 1 → (hz * p < 2 ^ 64) × (hz * p * q < 2 ^ 64)
    room l = room_lem hz p q l (one_or_more clock.pre_div_val) k

-- `D2Val` lies between M and twice N - M, when there is room between them.
pub d2_val-clamped :
    (m n : ℕ) → m ≤ n → n < 2 ^ 16 → m ≤ 2 * (n - m) → (m ≤ d2_val m n) × (d2_val m n ≤ 2 * (n - m))
unfolding d2_val
d2_val-clamped m n h k l = ground arith
