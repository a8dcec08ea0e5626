-- ===== src/Bits/Fields.antt =====
-- Contiguous fields of a 32-bit register: what GET_FIELD reads back after SET_FIELD.
use cr_dk.Base.{
  ℕ, zero, suc, ◌+◌, ◌-◌, ◌*◌, ◌/◌, ◌%◌, ◌^◌, ◌≤◌, ◌<◌, ◌≡◌, ap, ◌∙◌, true, false, ◌&&◌, bit_or,
  bit_and, arith, ◌==◌, ltb, leb, if◌then◌else◌, testbit, testbit-zero, Bool-cases, ==→eq, ◌⊎◌, inl,
  inr, testbit-bit_and, testbit-bit_or, testbit-mod, testbit-shl, testbit-shr, eq_of_testbit,
}
use cr_dk.Bits.{u32, bit, gen_msk, clr_bits, ctz_from, ctz, ffs, set_field, get_field}
use cr_dk.Bits.Laws.{
  testbit-bit, testbit-gen_msk, testbit-clr_bits, testbit-u32, below_32, lt_of_testbit,
}

-- The mask of the `w` bits from bit `k` on, inside 32 bits.
pub record IsField (mask k w : ℕ) : Type 0 where
  pub bits : (i : ℕ) → testbit mask i ≡ (leb k i && ltb i (k + w))
  pub nonempty : 0 < w
  pub fits : k + w ≤ 32

ctz_from_lem :
    (n m k : ℕ)
    → k < n
    → testbit m k ≡ true
    → ((i : ℕ) → i < k → testbit m i ≡ false)
    → ctz_from n m ≡ k
unfolding ctz_from testbit
ctz_from_lem zero m k h t low = absurd (omega arith)
ctz_from_lem (suc n) m zero h t low = ground arith
ctz_from_lem (suc n) m (suc k) h t low =
    ground
      (arith, low 0, ctz_from_lem n (m / 2) k (omega arith) t (λ i p. low (suc i) (omega arith)))

module _ {mask k w : ℕ} (f : IsField mask k w) where
  bit_at_shift : testbit mask k ≡ true
  bit_at_shift = ground (arith, f.bits k, f.nonempty)

  none_below : (i : ℕ) → i < k → testbit mask i ≡ false
  none_below i h = ground (arith, f.bits i)

  pub ctz-IsField : ctz mask ≡ k
  unfolding ctz
  ctz-IsField = ctz_from_lem 64 mask k (omega (arith, f.fits, f.nonempty)) bit_at_shift none_below

  mask_ne_zero : (mask == 0) ≡ false
  mask_ne_zero = elim (Bool-cases (mask == 0)) [
    | inl e ↦ absurd (not_zero (==→eq mask 0 e))
    | inr e ↦ e
  ]
    where
      not_zero : mask ≡ 0 → ⊥
      not_zero e = ground (arith, bit_at_shift, testbit-zero k, ap (λ (t : ℕ). testbit t k) e)

  pub mask-lt : mask < 2 ^ 32
  mask-lt = lt_of_testbit 32 mask (λ i. ground (arith, f.bits i, f.fits))

  -- Digit `i` of `GET_FIELD(v, mask)`.
  pub testbit-get_field : (v i : ℕ) → testbit (get_field v mask) i ≡ (ltb i w && testbit v (k + i))
  unfolding get_field ffs
  testbit-get_field v i =
      ap (λ (t : ℕ). testbit (bit_and v mask / 2 ^ t) i) shift
      ∙ testbit-shr (bit_and v mask) k i
      ∙ testbit-bit_and v mask (k + i)
      ∙ ground (arith, f.bits (k + i))
    where
      shift : ffs mask - 1 ≡ k
      shift = ground (arith, mask_ne_zero, ctz-IsField)

  -- Digit `i` of `SET_FIELD(v, mask)`.
  pub testbit-set_field :
      (v i : ℕ) → testbit (set_field v mask) i ≡ (leb k i && ltb i (k + w) && testbit v (i - k))
  unfolding set_field
  testbit-set_field v i =
      ap (λ (t : ℕ). testbit (bit_and (v * 2 ^ t % 2 ^ 64) mask) i) ctz-IsField
      ∙ testbit-bit_and (v * 2 ^ k % 2 ^ 64) mask i
      ∙ ground (arith, f.bits i, f.fits, testbit-mod (v * 2 ^ k) 64 i, testbit-shl v k i)

  -- `CLR_BITS(r, mask) | SET_FIELD(v, mask)` in a UINT32 writes the field and no other digit.
  pub testbit-write :
      (r v i : ℕ)
      → r < 2 ^ 32
      → testbit (u32 (bit_or (clr_bits r mask) (set_field v mask))) i
        ≡ (if leb k i && ltb i (k + w) then testbit v (i - k) else testbit r i)
  testbit-write r v i h =
      testbit-u32 (bit_or (clr_bits r mask) (set_field v mask)) i
      ∙ ground (
        arith,
        testbit-bit_or (clr_bits r mask) (set_field v mask) i,
        testbit-clr_bits r mask i h (omega (arith, mask-lt)),
        testbit-set_field v i,
        f.bits i,
        f.fits,
        below_32 r i h,
      )

  -- GET_FIELD reads back the low `w` digits of what SET_FIELD wrote.
  pub get_field-write :
      (r v : ℕ)
      → r < 2 ^ 32
      → get_field (u32 (bit_or (clr_bits r mask) (set_field v mask))) mask ≡ v % 2 ^ w
  get_field-write r v h = eq_of_testbit _ _ λ i.
      testbit-get_field (u32 (bit_or (clr_bits r mask) (set_field v mask))) i
      ∙ ground (
        arith,
        testbit-write r v (k + i) h,
        testbit-mod v w i,
        ap (λ (t : ℕ). testbit v t) (add_sub i),
      )
    where
      add_sub : (i : ℕ) → k + i - k ≡ i
      add_sub i = omega arith

-- A field that shares no digit with the one written reads as before.
pub get_field-write_other :
    {mask k w other k' w' : ℕ} (f : IsField mask k w) (g : IsField other k' w') (r v : ℕ)
    → (k + w ≤ k') ⊎ (k' + w' ≤ k)
    → r < 2 ^ 32
    → get_field (u32 (bit_or (clr_bits r mask) (set_field v mask))) other ≡ get_field r other
get_field-write_other {mask} {k' = k'} f g r v apart h = eq_of_testbit _ _ λ i.
    testbit-get_field g (u32 (bit_or (clr_bits r mask) (set_field v mask))) i
    ∙ ground (arith, testbit-write f r v (k' + i) h, testbit-get_field g r i)

-- A field reads as a number of its width.
pub get_field-lt : {mask k w : ℕ} (f : IsField mask k w) (v : ℕ) → get_field v mask < 2 ^ w
get_field-lt {mask} {w} f v =
    lt_of_testbit w (get_field v mask) (λ i. ground (arith, testbit-get_field f v i))

-- `GEN_MSK(high, low)` is the field of the bits `low` to `high`.
pub gen_msk-IsField :
    (high low : ℕ) → low ≤ high → high < 32 → IsField (gen_msk high low) low (high + 1 - low)
gen_msk-IsField high low le lt = record {
  bits = λ i. testbit-gen_msk high low i lt (omega arith) ∙ ground arith;
  nonempty = omega arith;
  fits = omega arith;
}

-- `BIT(k)` is the field of one bit.
pub bit-IsField : (k : ℕ) → k < 32 → IsField (bit k) k 1
bit-IsField k lt = record {
  bits = λ i. testbit-bit k i (omega arith) ∙ ground arith;
  nonempty = omega arith;
  fits = omega arith;
}
