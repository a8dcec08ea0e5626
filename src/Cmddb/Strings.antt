-- ===== src/Cmddb/Strings.antt =====
-- `cr_strncmp` of Include/oskal/cr_string.h, in the form that stands in the header.
use cr_dk.Base.{
  refl, sym, ◌∙◌, ==→eq, ap, inl, inr, ◌↔◌, Bool-cases, true, arith, ℕ, zero, suc, ◌+◌, ◌-◌, ◌%◌,
  ◌^◌, ◌≤◌, ◌<◌, ◌≡◌, ◌≢◌, Bool, false, not, leb, ◌==◌, if◌then◌else◌,
}

pub data ℤ : Type 0 where
  pos negsuc : ℕ → ℤ

abbrev pub difference : ℕ → ℕ → ℤ
difference a b = if leb b a then ℤ.pos (a - b) else ℤ.negsuc (b - a - 1)

-- The loop of `cr_strncmp`, with `n` rounds left at character `i`.
unfoldable pub strncmp_from : (ℕ → ℕ) → (ℕ → ℕ) → ℕ → ℕ → ℤ
strncmp_from str1 str2 zero i = ℤ.pos 0
strncmp_from str1 str2 (suc n) i =
    let rest = strncmp_from str1 str2 n (i + 1) in
    if not (str1 i == str2 i)
    then difference (str1 i % 2 ^ 8) (str2 i % 2 ^ 8)
    else if str1 i == 0
    then ℤ.pos 0
    else rest

unfoldable pub cr_strncmp : (ℕ → ℕ) → (ℕ → ℕ) → ℕ → ℤ
unfolding strncmp_from
cr_strncmp str1 str2 len = strncmp_from str1 str2 len 0

-- The test `cr_strncmp(...) == 0`.
abbrev pub is_zero : ℤ → Bool
is_zero (ℤ.pos n) = n == 0
is_zero (ℤ.negsuc n) = false

-- Two strings agree on their first `n` characters from `i` on, or up to the end of the first.
abbrev pub Agree : (ℕ → ℕ) → (ℕ → ℕ) → ℕ → ℕ → Type 0
Agree str1 str2 n i =
    (k : ℕ) → i ≤ k → k < i + n → ((j : ℕ) → i ≤ j → j < k → str1 j ≢ 0) → str1 k ≡ str2 k

difference-zero :
    (a b : ℕ) → a < 2 ^ 8 → b < 2 ^ 8 → a ≢ b → is_zero (difference (a % 2 ^ 8) (b % 2 ^ 8)) ≡ false
difference-zero a b ha hb h = ground arith

pub strncmp_from-Agree :
    (str1 str2 : ℕ → ℕ) (n i : ℕ)
    → is_zero (strncmp_from str1 str2 n i) ≡ true
    → ((k : ℕ) → str1 k < 2 ^ 8)
    → ((k : ℕ) → str2 k < 2 ^ 8)
    → Agree str1 str2 n i
unfolding strncmp_from
strncmp_from-Agree str1 str2 zero i h b1 b2 k lo hi before = absurd (omega arith)
strncmp_from-Agree str1 str2 (suc n) i h b1 b2 k lo hi before =
    elim (Bool-cases (str1 i == str2 i)) [
      | inr differ ↦
          absurd (ground (arith, h, differ, difference-zero (str1 i) (str2 i) (b1 i) (b2 i)))
      | inl same ↦ elim (Bool-cases (k == i)) [
        | inl here ↦
            ap str1 (==→eq k i here) ∙ ==→eq (str1 i) (str2 i) same ∙ sym (ap str2 (==→eq k i here))
        | inr later ↦
            strncmp_from-Agree str1 str2 n (i + 1)
              (ground (arith, h, same, before i (omega arith) (ground arith))) b1 b2 k
              (ground arith) (omega arith) (λ j lo' hi'. before j (omega arith) hi')
      ]
    ]

pub strncmp_from-zero :
    (str1 str2 : ℕ → ℕ) (n i : ℕ)
    → Agree str1 str2 n i
    → is_zero (strncmp_from str1 str2 n i) ≡ true
unfolding strncmp_from
strncmp_from-zero str1 str2 zero i h = refl
strncmp_from-zero str1 str2 (suc n) i h =
    let first : str1 i ≡ str2 i =
      h i (omega arith) (omega arith) (λ j lo hi. absurd (omega arith)) in
    elim (Bool-cases (str1 i == 0)) [
      | inl ended ↦ ground (arith, first, ended)
      | inr going ↦ ground (
        arith,
        first,
        going,
        strncmp_from-zero str1 str2 n (i + 1) (λ k lo hi before.
            h k (omega arith) (omega arith) (λ j lo' hi'. elim (Bool-cases (j == i)) [
              | inl here ↦ λ e. absurd (ground (arith, going, e, ap str1 (==→eq j i here)))
              | inr later ↦ before j (ground arith) hi'
            ])),
      )
    ]

-- `cr_strncmp` returns 0 exactly if the strings agree on the characters before the length and up to
-- the end of the first string. Both strings are bytes.
pub cr_strncmp-Agree :
    (str1 str2 : ℕ → ℕ) (len : ℕ)
    → ((k : ℕ) → str1 k < 2 ^ 8)
    → ((k : ℕ) → str2 k < 2 ^ 8)
    → (is_zero (cr_strncmp str1 str2 len) ≡ true) ↔ Agree str1 str2 len 0
unfolding cr_strncmp
cr_strncmp-Agree str1 str2 len b1 b2 =
    (λ h. strncmp_from-Agree str1 str2 len 0 h b1 b2, strncmp_from-zero str1 str2 len 0)
