-- ===== src/Clock/Rate.antt =====
-- Library/ClockLib/clock.c: the entry of the frequency table that `ClockRcg2SetRate` chooses.
use cr_dk.Clock.Types.{FreqEntry, clock_rcg2_policy_floor}
use cr_dk.Base.{ℕ, Option, none, some, List, [], ◌∷◌, leb, ◌==◌, if◌then◌else◌}

-- The loop over the table: `before` is the entry before the rest of it.
unfoldable pub scan : ℕ → ℕ → Option FreqEntry → List FreqEntry → Option FreqEntry
scan rate policy before [] = none
scan rate policy before (e ∷ es) =
    let rest = scan rate policy (some e) es in
    if e.frequency_hz == rate
    then some e
    else if leb rate e.frequency_hz
    then (if policy == clock_rcg2_policy_floor then before else some e)
    else rest

abbrev pub last_entry : List FreqEntry → Option FreqEntry
last_entry [] = none
last_entry (e ∷ []) = some e
last_entry (e ∷ f ∷ es) = last_entry (f ∷ es)

-- `TargetFreq`.
unfoldable pub target_freq : ℕ → ℕ → List FreqEntry → Option FreqEntry
unfolding scan
target_freq rate policy table = elim (scan rate policy none table) [
  | some e ↦ some e
  | none ↦ if policy == clock_rcg2_policy_floor then last_entry table else none
]
