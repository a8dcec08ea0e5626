-- ===== src/Rpmh/Claim.antt =====
-- Claiming a TCS: which one is taken, and what becomes of the busy flags.
use mathlib.Core.Path.{subst}
use cr_dk.Status.{Status}
use cr_dk.Bits.{bit, u32, set_bits}
use cr_dk.Mmio.{Bus}
use cr_dk.Base.{
  Option-cases, refl, ◌≢◌, ◌||◌, ==→eq, ap, sym, ◌∙◌, ℕ, zero, suc, ◌+◌, ◌≤◌, ◌<◌, ◌≡◌, sym, ap,
  ◌∙◌, inl, inr, Bool, true, false, none, some, arith, ◌==◌, ==→eq, Bool-cases, testbit,
}
use cr_dk.Bits.Laws.{testbit-bit, testbit-set_bits, testbit-u32, bit_and-bit}
use cr_dk.Rpmh.Types.{RpmhState, RpmhDrvTcsData, RpmhDeviceContext}
use cr_dk.Rpmh.Write.{
  claim_free_tcs, is_cmd_inflight, tcs_rounds, get_next_free_tcs, is_tcs_busy, next_free,
}

-- The busy flag of a set.
abbrev pub busy_flag : RpmhDeviceContext → ℕ → Bool
busy_flag c i = testbit c.tcs_busy i

pub is_tcs_busy-flag : (c : RpmhDeviceContext) (i : ℕ) → i < 64 → is_tcs_busy c i ≡ busy_flag c i
unfolding is_tcs_busy
is_tcs_busy-flag c i h = bit_and-bit c.tcs_busy i h

-- The set that the search finds is free, lies in the range, and all before it are busy.
next_free-some :
    (c : RpmhDeviceContext) (n i : ℕ) {j : ℕ}
    → next_free c n i ≡ some j
    → (i ≤ j)
      × (j < i + n)
      × (is_tcs_busy c j ≡ false)
      × ((k : ℕ) → i ≤ k → k < j → is_tcs_busy c k ≡ true)
unfolding next_free
next_free-some c zero i h = absurd (cc)
next_free-some c (suc n) i {j} h = elim (Bool-cases (is_tcs_busy c i)) [
  | inr free ↦
      let same : i ≡ j = ground (arith, h, free) in
      (
        omega arith,
        omega arith,
        ap (is_tcs_busy c) (sym same) ∙ free,
        λ k lo hi. absurd (omega arith),
      )
  | inl busy ↦
      let h' : next_free c n (i + 1) ≡ some j = ground (arith, h, busy) in
      let ih = next_free-some c n (i + 1) h' in
      (
        omega (arith, ih.0),
        omega (arith, ih.1),
        ih.2,
        λ k lo hi. elim (Bool-cases (k == i)) [
          | inl here ↦ ap (is_tcs_busy c) (==→eq k i here) ∙ busy
          | inr later ↦ ih.3 k (ground arith) hi
        ],
      )
]

next_free-none :
    (c : RpmhDeviceContext) (n i : ℕ)
    → next_free c n i ≡ none
    → (k : ℕ) → i ≤ k
    → k < i + n
    → is_tcs_busy c k ≡ true
unfolding next_free
next_free-none c zero i h k lo hi = absurd (omega arith)
next_free-none c (suc n) i h k lo hi = elim (Bool-cases (is_tcs_busy c i)) [
  | inr free ↦ absurd (ground (arith, h, free))
  | inl busy ↦ elim (Bool-cases (k == i)) [
    | inl here ↦ ap (is_tcs_busy c) (==→eq k i here) ∙ busy
    | inr later ↦
        next_free-none c n (i + 1) (ground (arith, h, busy)) k (ground arith) (omega arith)
  ]
]

-- What it means that set `tcs` was claimed out of the sets `d`.
pub record IsTaken (before after : RpmhDeviceContext) (d : RpmhDrvTcsData) (tcs : ℕ) : Type 0 where
  pub from_first : d.offset ≤ tcs
  pub in_range : tcs < d.offset + d.tcs_count
  pub was_free : busy_flag before tcs ≡ false
  pub others_busy : (k : ℕ) → d.offset ≤ k → k < tcs → busy_flag before k ≡ true
  pub now_busy : busy_flag after tcs ≡ true
  pub others_kept : (k : ℕ) → k ≢ tcs → k < 32 → busy_flag after k ≡ busy_flag before k
  pub flag_set : after.irq_from_rpmh_cr ≡ true

-- The context with the flag of set `i` up.
abbrev pub mark_busy : RpmhDeviceContext → ℕ → RpmhDeviceContext
mark_busy c i = record c { tcs_busy = u32 (set_bits c.tcs_busy (bit i)); irq_from_rpmh_cr = true }

pub busy_flag-mark_busy :
    (c : RpmhDeviceContext) (i k : ℕ)
    → i < 32
    → k < 32
    → busy_flag (mark_busy c i) k ≡ (busy_flag c k || (k == i))
busy_flag-mark_busy c i k hi hk = ground (
  arith,
  testbit-u32 (set_bits c.tcs_busy (bit i)) k,
  testbit-set_bits c.tcs_busy (bit i) k,
  testbit-bit i k,
)

pub tcs_rounds-exact :
    (d : RpmhDrvTcsData) → d.offset + d.tcs_count ≤ 32 → tcs_rounds d ≡ d.tcs_count
tcs_rounds-exact d h = omega arith

pub mark_busy-IsTaken :
    (c : RpmhDeviceContext) (d : RpmhDrvTcsData) {j : ℕ}
    → d.offset + d.tcs_count ≤ 32
    → get_next_free_tcs c d ≡ some j
    → IsTaken c (mark_busy c j) d j
unfolding get_next_free_tcs
mark_busy-IsTaken c d {j} fits h =
    let found = next_free-some c (tcs_rounds d) d.offset h in
    let rounds = tcs_rounds-exact d fits in
    let hi : j < d.offset + d.tcs_count = omega (arith, found.1, rounds) in
    record {
      from_first = found.0;
      in_range = hi;
      was_free = sym (is_tcs_busy-flag c j (omega arith)) ∙ found.2;
      others_busy = λ k lo up. sym (is_tcs_busy-flag c k (omega arith)) ∙ found.3 k lo up;
      now_busy = ground (arith, busy_flag-mark_busy c j j);
      others_kept = λ k other small. ground (arith, busy_flag-mark_busy c j k);
      flag_set = refl;
    }

module _ {S : Type 0} (bus : Bus S) (stale : ℕ) (d : RpmhDrvTcsData) (request : ℕ)
    (st : RpmhState S) where
  -- Whether a command on the address is in flight.
  abbrev pub inflight : Bool
  inflight = (is_cmd_inflight bus request st.ctx st.irq.hw).0

  abbrev pub claimed : (Status × ℕ) × RpmhState S
  claimed = claim_free_tcs bus stale d request st

  pub claim-inflight :
      inflight ≡ true → (claimed.0 ≡ (Status.busy, stale)) × (claimed.1.ctx ≡ st.ctx)
  unfolding claim_free_tcs
  claim-inflight h = (ground (arith, h), ground (arith, h))

  pub claim-found :
      {j : ℕ}
      → inflight ≡ false
      → get_next_free_tcs st.ctx d ≡ some j
      → (claimed.0 ≡ (Status.success, j)) × (claimed.1.ctx ≡ mark_busy st.ctx j)
  unfolding claim_free_tcs
  claim-found h e = (ground (arith, h, e), ground (arith, h, e))

  pub claim-full :
      inflight ≡ false
      → get_next_free_tcs st.ctx d ≡ none
      → (claimed.0 ≡ (Status.not_found, stale)) × (claimed.1.ctx ≡ mark_busy st.ctx stale)
  unfolding claim_free_tcs
  claim-full h e = (ground (arith, h, e), ground (arith, h, e))

  -- A claim that returns CR_SUCCESS took a set of the range that was free, the first such; its busy
  -- flag is up afterwards, the flags of the other sets are as before, and the handler's flag is set.
  -- The range lies within the 32 flags.
  pub claim_free_tcs-IsTaken :
      d.offset + d.tcs_count ≤ 32
      → claimed.0.0 ≡ Status.success
      → IsTaken st.ctx claimed.1.ctx d claimed.0.1
  claim_free_tcs-IsTaken fits ok = elim (Bool-cases inflight) [
    | inl running ↦ absurd (cc (ap (λ (p : Status × ℕ). p.0) ((claim-inflight running).0), ok))
    | inr quiet ↦ elim (Option-cases (get_next_free_tcs st.ctx d)) [
      | inl none_left ↦
          absurd (cc (ap (λ (p : Status × ℕ). p.0) ((claim-full quiet none_left).0), ok))
      | inr (j, found) ↦
          let (result, after) = claim-found quiet found in
          subst (λ c. IsTaken st.ctx c d claimed.0.1) (sym after)
            (subst (λ i. IsTaken st.ctx (mark_busy st.ctx j) d i)
              (sym (ap (λ (p : Status × ℕ). p.1) result)) (mark_busy-IsTaken st.ctx d fits found))
    ]
  ]

  -- A claim finds a set whenever one of the range is free and no command on the address is in flight.
  -- The range lies within the 32 flags.
  pub claim_free_tcs-succeeds :
      d.offset + d.tcs_count ≤ 32
      → inflight ≡ false
      → (k : ℕ) → d.offset ≤ k
      → k < d.offset + d.tcs_count
      → busy_flag st.ctx k ≡ false
      → claimed.0.0 ≡ Status.success
  unfolding get_next_free_tcs
  claim_free_tcs-succeeds fits quiet k lo hi free =
      elim (Option-cases (get_next_free_tcs st.ctx d)) [
        | inr (j, found) ↦ ap (λ (p : Status × ℕ). p.0) ((claim-found quiet found).0)
        | inl none_left ↦ absurd (
            cc (
              free,
              is_tcs_busy-flag st.ctx k (omega arith),
              next_free-none st.ctx (tcs_rounds d) d.offset none_left k lo
                  (omega (arith, tcs_rounds-exact d fits)),
            ))
      ]

  -- A claim that returns CR_NOT_FOUND, or any status but success and busy, found every set of the range
  -- busy, and yet it hands out the index it was given, puts that set's busy flag up and sets the
  -- handler's flag. The range lies within the 32 flags, and so does the given index.
  pub claim_free_tcs-stale :
      d.offset + d.tcs_count ≤ 32
      → stale < 32
      → claimed.0.0 ≢ Status.success
      → claimed.0.0 ≢ Status.busy
      → (claimed.0.1 ≡ stale)
        × ((k : ℕ) → d.offset ≤ k → k < d.offset + d.tcs_count → busy_flag st.ctx k ≡ true)
        × (busy_flag claimed.1.ctx stale ≡ true)
        × (claimed.1.ctx.irq_from_rpmh_cr ≡ true)
  unfolding get_next_free_tcs
  claim_free_tcs-stale fits small failed idle = elim (Bool-cases inflight) [
    | inl running ↦ absurd (idle (ap (λ (p : Status × ℕ). p.0) ((claim-inflight running).0)))
    | inr quiet ↦ elim (Option-cases (get_next_free_tcs st.ctx d)) [
      | inr (j, found) ↦
          absurd (failed (ap (λ (p : Status × ℕ). p.0) ((claim-found quiet found).0)))
      | inl none_left ↦
          let (result, after) = claim-full quiet none_left in
          (
            ap (λ (p : Status × ℕ). p.1) result,
            λ k lo hi.
                sym (is_tcs_busy-flag st.ctx k (omega arith))
                ∙ next_free-none st.ctx (tcs_rounds d) d.offset none_left k lo
                    (omega (arith, tcs_rounds-exact d fits)),
            ap (λ c. busy_flag c stale) after
                ∙ ground (arith, busy_flag-mark_busy st.ctx stale stale),
            ap (λ (c : RpmhDeviceContext). c.irq_from_rpmh_cr) after,
          )
    ]
  ]
