-- ===== src/Clock/Floor.antt =====
-- The choice of clock.c in a sorted table under the floor policy.
use mathlib.Core.Path.{subst}
use cr_dk.Clock.Policy.{
  In, AtLeast, IsAscending, IsFloor, at_least_lem, scan_equal, scan_above, scan_below, compared,
}
use cr_dk.Clock.Types.{FreqEntry, clock_rcg2_policy_floor}
use cr_dk.Clock.Rate.{scan, last_entry, target_freq}
use cr_dk.Base.{
  ℕ, ◌≤◌, ◌<◌, ◌≡◌, refl, sym, ap, ◌∙◌, ◌⊎◌, inl, inr, Bool, true, Option, none, some, List, [],
  ◌∷◌, arith, ◌==◌, if◌then◌else◌,
}

-- What is chosen: the fastest entry that is not above the rate, or where all are above it, the fastest of
-- all; nothing in an empty table.
unfoldable pub Floor : ℕ → List FreqEntry → Option FreqEntry → Type 0
Floor rate table none = table ≡ []
Floor rate table (some e) =
    IsFloor rate table e
    ⊎ (((x : FreqEntry) → In x table → rate < x.frequency_hz) × (last_entry table ≡ some e))

-- The loop behind an entry `p` below the rate.
From : ℕ → FreqEntry → List FreqEntry → Option FreqEntry → Type 0
From rate p es none = (x : FreqEntry) → In x es → x.frequency_hz < rate
From rate p es (some e) = IsFloor rate (p ∷ es) e

equal_first :
    {rate : ℕ} (p : List FreqEntry) (e : FreqEntry)
    → In e p
    → e.frequency_hz ≡ rate
    → IsFloor rate p e
equal_first p e i h = record {
  member = i;
  below = omega (arith, h);
  fastest = λ x j l. omega (arith, h, l);
}

above_first :
    {rate : ℕ} (p e : FreqEntry) (es : List FreqEntry)
    → p.frequency_hz < rate
    → rate < e.frequency_hz
    → AtLeast e.frequency_hz es
    → IsFloor rate (p ∷ e ∷ es) p
above_first p e es lp le a = record {
  member = inl refl;
  below = omega (arith, lp);
  fastest = λ x j l. elim j [
    | inl q ↦ rw q (omega arith)
    | inr (inl q) ↦ absurd (omega (arith, le, l, ap (λ (t : FreqEntry). t.frequency_hz) q))
    | inr (inr k) ↦ absurd (omega (arith, le, l, at_least_lem es x a k))
  ];
}

further :
    {rate : ℕ} (p e : FreqEntry) (es : List FreqEntry) (o : Option FreqEntry)
    → p.frequency_hz ≤ e.frequency_hz
    → e.frequency_hz < rate
    → From rate e es o
    → From rate p (e ∷ es) o
unfolding From
further p e es none lp le f = λ x i. elim i [ inl q ↦ rw (← q) le | inr j ↦ f x j ]
further p e es (some r) lp le f = record {
  member = inr f.member;
  below = f.below;
  fastest = λ x j l. elim j [
    | inl q ↦ omega (
      arith,
      lp,
      f.fastest e (inl refl) (omega (arith, le)),
      ap (λ (t : FreqEntry). t.frequency_hz) q,
    )
    | inr k ↦ f.fastest x k l
  ];
}

scan-From :
    (rate policy : ℕ) (p : FreqEntry) (es : List FreqEntry)
    → (policy == clock_rcg2_policy_floor) ≡ true
    → p.frequency_hz < rate
    → AtLeast p.frequency_hz es
    → IsAscending es
    → From rate p es (scan rate policy (some p) es)
unfolding scan From
scan-From rate policy p [] f lp a up = λ x i. absurd i
scan-From rate policy p (e ∷ es) f lp (pe, a) (ae, up) = elim (compared e.frequency_hz rate) [
  | inl same ↦
      subst (From rate p (e ∷ es)) (sym (scan_equal rate policy (some p) e es same))
        (equal_first (p ∷ e ∷ es) e (inr (inl refl)) same)
  | inr (inl more) ↦
      subst (From rate p (e ∷ es))
        (sym (
          scan_above rate policy (some p) e es more
          ∙ ap (λ (b : Bool). if b then some p else some e) f))
        (above_first p e es lp more ae)
  | inr (inr less) ↦
      subst (From rate p (e ∷ es)) (sym (scan_below rate policy (some p) e es less)) (
        further p e es (scan rate policy (some e) es) pe less
          (scan-From rate policy e es f less ae up))
]

-- The last entry of a sorted table is the fastest.
last_fastest :
    (e : FreqEntry) (es : List FreqEntry)
    → IsAscending (e ∷ es)
    → (l : FreqEntry) × (last_entry (e ∷ es) ≡ some l)
      × In l (e ∷ es)
      × ((x : FreqEntry) → In x (e ∷ es) → x.frequency_hz ≤ l.frequency_hz)
last_fastest e [] up =
    (e, refl, inl refl, λ x i. elim i [ inl p ↦ rw p (omega arith) | inr j ↦ absurd j ])
last_fastest e (f ∷ es) ((ef, a), up) =
    let (l, found, i, top) = last_fastest f es up in
    (
      l,
      found,
      inr i,
      λ x j. elim j [
        | inl p ↦ omega (arith, ef, top f (inl refl), ap (λ (t : FreqEntry). t.frequency_hz) p)
        | inr k ↦ top x k
      ],
    )

chosen : ℕ → List FreqEntry → Option FreqEntry → Option FreqEntry
chosen policy table o = elim o [
  | some e ↦ some e
  | none ↦ if policy == clock_rcg2_policy_floor then last_entry table else none
]

to_last :
    (rate : ℕ) (e : FreqEntry) (es : List FreqEntry)
    → rate < e.frequency_hz
    → IsAscending (e ∷ es)
    → Floor rate (e ∷ es) (chosen clock_rcg2_policy_floor (e ∷ es) none)
unfolding Floor chosen
to_last rate e es h (a, up) =
    let (l, found, i, top) = last_fastest e es (a, up) in
    subst (Floor rate (e ∷ es)) (sym found) (
      inr (
        λ x j. elim j [
          | inl p ↦ omega (arith, h, ap (λ (t : FreqEntry). t.frequency_hz) p)
          | inr k ↦ omega (arith, h, at_least_lem es x a k)
        ],
        found,
      ))

first_chosen :
    (rate : ℕ) (e : FreqEntry) (es : List FreqEntry) (o : Option FreqEntry)
    → e.frequency_hz < rate
    → IsAscending (e ∷ es)
    → From rate e es o
    → Floor rate (e ∷ es) (chosen clock_rcg2_policy_floor (e ∷ es) o)
unfolding From Floor chosen
first_chosen rate e es none h up f =
    let (l, found, i, top) = last_fastest e es up in
    subst (Floor rate (e ∷ es)) (sym found) (
      inl (record {
        member = i;
        below = elim i [
          | inl p ↦ omega (arith, h, ap (λ (t : FreqEntry). t.frequency_hz) p)
          | inr k ↦ omega (arith, f l k)
        ];
        fastest = λ x j b. top x j;
      }))
first_chosen rate e es (some r) h up f = inl f

-- Under the floor policy `ClockRcg2SetRate` chooses from a sorted table the fastest entry that is not
-- above the rate. For a rate below all entries it chooses the last one, the fastest of the table.
pub target_freq-Floor :
    (rate : ℕ) (table : List FreqEntry)
    → IsAscending table
    → Floor rate table (target_freq rate clock_rcg2_policy_floor table)
unfolding target_freq Floor scan chosen
target_freq-Floor rate [] up = refl
target_freq-Floor rate (e ∷ es) (a, up) = elim (compared e.frequency_hz rate) [
  | inl same ↦
      subst
        (λ (o : Option FreqEntry). Floor rate (e ∷ es) (chosen clock_rcg2_policy_floor (e ∷ es) o))
        (sym (scan_equal rate clock_rcg2_policy_floor none e es same))
        (inl (equal_first (e ∷ es) e (inl refl) same))
  | inr (inl more) ↦
      subst
        (λ (o : Option FreqEntry). Floor rate (e ∷ es) (chosen clock_rcg2_policy_floor (e ∷ es) o))
        (sym (scan_above rate clock_rcg2_policy_floor none e es more))
        (to_last rate e es more (a, up))
  | inr (inr less) ↦
      subst
        (λ (o : Option FreqEntry). Floor rate (e ∷ es) (chosen clock_rcg2_policy_floor (e ∷ es) o))
        (sym (scan_below rate clock_rcg2_policy_floor none e es less))
        (first_chosen rate e es _ less (a, up)
          (scan-From rate clock_rcg2_policy_floor e es refl less a up))
]
