-- ===== src/Clock/Policy.antt =====
-- The choice of clock.c in a table that is sorted by frequency, as it must be.
use mathlib.Core.Path.{subst}
use cr_dk.Clock.Types.{FreqEntry, clock_rcg2_policy_floor}
use cr_dk.Clock.Rate.{scan, last_entry, target_freq}
use cr_dk.Base.{
  ℕ, ◌≤◌, ◌<◌, ◌≡◌, refl, sym, ap, ◌∙◌, ◌≢◌, ◌⊎◌, inl, inr, Bool, false, Option, none, some, List,
  [], ◌∷◌, arith, ◌==◌, if◌then◌else◌, ne→==,
}

abbrev pub In : FreqEntry → List FreqEntry → Type 0
In e [] = ⊥
In e (x ∷ xs) = (x ≡ e) ⊎ In e xs

-- All entries of the table are at least `f`.
abbrev pub AtLeast : ℕ → List FreqEntry → Type 0
AtLeast f [] = Unit
AtLeast f (x ∷ xs) = (f ≤ x.frequency_hz) × AtLeast f xs

abbrev pub IsAscending : List FreqEntry → Type 0
IsAscending [] = Unit
IsAscending (x ∷ xs) = AtLeast x.frequency_hz xs × IsAscending xs

-- The slowest entry that is not below the rate, if there is one.
pub record IsCeiling (rate : ℕ) (table : List FreqEntry) (e : FreqEntry) : Type 0 where
  pub member : In e table
  pub above : rate ≤ e.frequency_hz
  pub slowest :
      (x : FreqEntry) → In x table → rate ≤ x.frequency_hz → e.frequency_hz ≤ x.frequency_hz

pub record IsFloor (rate : ℕ) (table : List FreqEntry) (e : FreqEntry) : Type 0 where
  pub member : In e table
  pub below : e.frequency_hz ≤ rate
  pub fastest :
      (x : FreqEntry) → In x table → x.frequency_hz ≤ rate → x.frequency_hz ≤ e.frequency_hz

-- The choice for a rate without the floor policy.
unfoldable pub Ceiling : ℕ → List FreqEntry → Option FreqEntry → Type 0
Ceiling rate table none = (x : FreqEntry) → In x table → x.frequency_hz < rate
Ceiling rate table (some e) = IsCeiling rate table e

pub at_least_lem :
    {f : ℕ} (es : List FreqEntry) (x : FreqEntry) → AtLeast f es → In x es → f ≤ x.frequency_hz
at_least_lem [] x h i = absurd i
at_least_lem (e ∷ es) x (h, hs) (inl p) = rw (← p) h
at_least_lem (e ∷ es) x (h, hs) (inr i) = at_least_lem es x hs i

module _ (rate policy : ℕ) (before : Option FreqEntry) (e : FreqEntry) (es : List FreqEntry) where
  pub scan_equal : e.frequency_hz ≡ rate → scan rate policy before (e ∷ es) ≡ some e
  unfolding scan
  scan_equal h = ground (arith, h)

  pub scan_above :
      rate < e.frequency_hz
      → scan rate policy before (e ∷ es)
        ≡ (if policy == clock_rcg2_policy_floor then before else some e)
  unfolding scan
  scan_above h = ground (arith, h)

  pub scan_below :
      e.frequency_hz < rate → scan rate policy before (e ∷ es) ≡ scan rate policy (some e) es
  unfolding scan
  scan_below h = ground (arith, h)

-- How an entry's frequency lies to the rate.
pub compared : (a b : ℕ) → (a ≡ b) ⊎ ((b < a) ⊎ (a < b))
compared a b = ground arith

least_first :
    {rate : ℕ} (e : FreqEntry) (es : List FreqEntry)
    → AtLeast e.frequency_hz es
    → rate ≤ e.frequency_hz
    → IsCeiling rate (e ∷ es) e
least_first e es a h = record {
  member = inl refl;
  above = h;
  slowest = λ x i l. elim i [ inl p ↦ rw p (omega arith) | inr j ↦ at_least_lem es x a j ];
}

below_first :
    {rate : ℕ} (e : FreqEntry) (es : List FreqEntry) (o : Option FreqEntry)
    → e.frequency_hz < rate
    → Ceiling rate es o
    → Ceiling rate (e ∷ es) o
unfolding Ceiling
below_first e es none h c = λ x i. elim i [ inl p ↦ rw (← p) h | inr j ↦ c x j ]
below_first e es (some r) h c = record {
  member = inr c.member;
  above = c.above;
  slowest = λ x i l. elim i [
    | inl p ↦ absurd (omega (arith, h, l, ap (λ (t : FreqEntry). t.frequency_hz) p))
    | inr j ↦ c.slowest x j l
  ];
}

scan-Ceiling :
    (rate policy : ℕ) (before : Option FreqEntry) (es : List FreqEntry)
    → (policy == clock_rcg2_policy_floor) ≡ false
    → IsAscending es
    → Ceiling rate es (scan rate policy before es)
unfolding scan Ceiling
scan-Ceiling rate policy before [] p up = λ x i. absurd i
scan-Ceiling rate policy before (e ∷ es) p (a, up) = elim (compared e.frequency_hz rate) [
  | inl same ↦
      subst (Ceiling rate (e ∷ es)) (sym (scan_equal rate policy before e es same))
        (least_first e es a (omega (arith, same)))
  | inr (inl more) ↦
      subst (Ceiling rate (e ∷ es))
        (sym (
          scan_above rate policy before e es more
          ∙ ap (λ (b : Bool). if b then before else some e) p))
        (least_first e es a (omega (arith, more)))
  | inr (inr less) ↦ subst (Ceiling rate (e ∷ es)) (sym (scan_below rate policy before e es less)) (
      below_first e es (scan rate policy (some e) es) less
        (scan-Ceiling rate policy (some e) es p up))
]

-- Under the ceiling policy, the default, `ClockRcg2SetRate` chooses from a sorted table the slowest entry
-- that is not below the rate, and none only when all are below it.
pub target_freq-Ceiling :
    (rate policy : ℕ) (table : List FreqEntry)
    → policy ≢ clock_rcg2_policy_floor
    → IsAscending table
    → Ceiling rate table (target_freq rate policy table)
unfolding target_freq
target_freq-Ceiling rate policy table p up =
    subst (Ceiling rate table) (sym (same (scan rate policy none table)))
      (scan-Ceiling rate policy none table (ne→== policy clock_rcg2_policy_floor p) up)
  where
    same :
        (o : Option FreqEntry)
        → elim o [
          | some e ↦ some e
          | none ↦ if policy == clock_rcg2_policy_floor then last_entry table else none
        ]
          ≡ o
    same none =
        ap (λ (b : Bool). if b then last_entry table else none)
          (ne→== policy clock_rcg2_policy_floor p)
    same (some e) = refl
