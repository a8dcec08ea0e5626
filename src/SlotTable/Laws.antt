-- ===== src/SlotTable/Laws.antt =====
-- Tables whose free slots all stand behind the entries, and what the operations do to their contents.
use cr_dk.Base.{
  suc, ◌≤◌, ◌<◌, ◌≡◌, refl, sym, ap, ◌∙◌, ◌≢◌, ◌⊎◌, inl, inr, Bool, true, false, none, some, List,
  [], ◌∷◌, ◌++◌, arith, Bool-cases, Option-cases, length, length-append,
}
use mathlib.Core.Path.{subst}
use cr_dk.SlotTable.{claim, close_gap, release, contents, find_first, drop_first}

module _ {A : Type 0} (occupied : A → Bool) where
  -- No entry stands behind a free slot.
  abbrev pub IsCompact : List A → Type 0
  IsCompact [] = Unit
  IsCompact (x ∷ xs) = IsCompact xs × (occupied x ≡ false → contents occupied xs ≡ [])

  -- What a filled table says of the table before and the entry added.
  abbrev pub Added : A → List A → List A → Type 0
  Added e t t' =
      IsCompact t'
      × (contents occupied t' ≡ contents occupied t ++ (e ∷ []))
      × (length t' ≡ length t)

  pub claim-some :
      (e : A) (t : List A) {t' : List A}
      → claim occupied e t ≡ some t'
      → occupied e ≡ true
      → IsCompact t
      → Added e t t'
  unfolding claim contents
  claim-some e [] h o c = absurd (cc)
  claim-some e (x ∷ xs) {t'} h o c = elim (Bool-cases (occupied x)) [
    | inl full ↦ elim (Option-cases (claim occupied e xs)) [
      | inl none_left ↦ absurd (ground (arith, h, full, none_left))
      | inr (rest, found) ↦
          let same : x ∷ rest ≡ t' = ground (arith, h, full, found) in
          let ih : Added e xs rest = claim-some e xs found o c.0 in
          subst (Added e (x ∷ xs)) same
            ((ih.0, λ free. cc free), ground (arith, ih.1, full), ap suc ih.2)
    ]
    | inr free ↦
        let same : e ∷ xs ≡ t' = ground (arith, h, free) in
        subst (Added e (x ∷ xs)) same
          ((c.0, λ not_free. cc o), ground (arith, c.1 free, free, o), refl)
  ]

  -- Only a table without a free slot is refused.
  pub claim-none : (e : A) (t : List A) → claim occupied e t ≡ none → contents occupied t ≡ t
  unfolding claim contents
  claim-none e [] h = refl
  claim-none e (x ∷ xs) h = elim (Bool-cases (occupied x)) [
    | inl full ↦ elim (Option-cases (claim occupied e xs)) [
      | inl none_left ↦ rw full (ap (λ t. x ∷ t) (claim-none e xs none_left))
      | inr (rest, found) ↦ absurd (ground (arith, h, full, found))
    ]
    | inr free ↦ absurd (ground (arith, h, free))
  ]

  module _ (vacant : A) (is_vacant : occupied vacant ≡ false) where
    abbrev pub Closed : List A → List A → Type 0
    Closed xs t' =
        IsCompact t' × (contents occupied t' ≡ contents occupied xs) × (length t' ≡ suc (length xs))

    -- Closing a gap keeps the entries behind it, in order.
    pub close_gap-Closed :
        (xs : List A) → IsCompact xs → Closed xs (close_gap occupied vacant vacant xs)
    unfolding close_gap contents
    close_gap-Closed [] c = ((tt, λ free. refl), rw is_vacant, refl)
    close_gap-Closed (x ∷ xs) c = elim (Bool-cases (occupied x)) [
      | inl full ↦
          let ih : Closed xs (close_gap occupied vacant vacant xs) = close_gap-Closed xs c.0 in
          rw full ((ih.0, λ free. cc full), rw full (ap (λ t. x ∷ t) ih.1), ap suc ih.2)
      | inr free ↦
          let behind : contents occupied xs ≡ [] = c.1 free in
          rw free ((c, λ _. rw free behind), rw is_vacant (rw free), refl)
    ]

    module _ (hit : A → Bool) (hit_full : (a : A) → hit a ≡ true → occupied a ≡ true) where
      -- What a table says of the table before, when the first entry that `hit` accepts has left.
      abbrev pub Removed : List A → List A → Type 0
      Removed t t' =
          IsCompact t'
          × (contents occupied t' ≡ drop_first hit (contents occupied t))
          × (length t' ≡ length t)

      pub release-some :
          (t : List A) {t' : List A}
          → release occupied vacant hit t ≡ some t'
          → IsCompact t
          → Removed t t'
      unfolding release contents drop_first
      release-some [] h c = absurd (cc)
      release-some (x ∷ xs) {t'} h c = elim (Bool-cases (hit x)) [
        | inl found ↦
            let same : close_gap occupied vacant vacant xs ≡ t' = ground (arith, h, found) in
            let closed : Closed xs (close_gap occupied vacant vacant xs) =
              close_gap-Closed xs c.0 in
            subst (Removed (x ∷ xs)) same
              (closed.0, rw (hit_full x found) (rw found closed.1), closed.2)
        | inr other ↦ elim (Option-cases (release occupied vacant hit xs)) [
          | inl none_left ↦ absurd (ground (arith, h, other, none_left))
          | inr (rest, found) ↦
              let same : x ∷ rest ≡ t' = ground (arith, h, other, found) in
              let ih : Removed xs rest = release-some xs found c.0 in
              subst (Removed (x ∷ xs)) same (
                (ih.0, λ free. ih.1 ∙ rw (c.1 free) refl),
                ground (arith, other, ih.1),
                ap suc ih.2,
              )
        ]
      ]

      -- The search over the slots is the search over the entries.
      pub find_first-contents :
          (t : List A) → find_first hit (contents occupied t) ≡ find_first hit t
      unfolding find_first contents
      find_first-contents [] = refl
      find_first-contents (x ∷ xs) = ground (arith, find_first-contents xs, hit_full x)

      -- Nothing is released exactly when no entry is accepted.
      pub release-none :
          (t : List A)
          → release occupied vacant hit t ≡ none
          → find_first hit (contents occupied t) ≡ none
      unfolding release find_first contents
      release-none [] h = refl
      release-none (x ∷ xs) h = elim (Bool-cases (hit x)) [
        | inl found ↦ absurd (ground (arith, h, found))
        | inr other ↦ elim (Option-cases (release occupied vacant hit xs)) [
          | inl none_left ↦ ground (arith, other, release-none xs none_left)
          | inr (rest, found) ↦ absurd (ground (arith, h, other, found))
        ]
      ]

module _ {A : Type 0} (occupied : A → Bool) where
  pub length-contents : (t : List A) → length (contents occupied t) ≤ length t
  unfolding contents
  length-contents [] = omega arith
  length-contents (x ∷ xs) = ground (arith, length-contents xs)

  -- Exactly the tables with fewer entries than slots take one more.
  pub claim-cases :
      (e : A) (t : List A)
      → occupied e ≡ true
      → IsCompact occupied t
      → ((t' : List A) × (claim occupied e t ≡ some t')
          × Added occupied e t t'
          × (length (contents occupied t) < length t))
        ⊎ ((claim occupied e t ≡ none) × (length (contents occupied t) ≡ length t))
  claim-cases e t o c = elim (Option-cases (claim occupied e t)) [
    | inl full ↦ inr (full, ap length (claim-none occupied e t full))
    | inr (t', found) ↦
        let added : Added occupied e t t' = claim-some occupied e t found o c in
        inl (
          t',
          found,
          added,
          omega (
            arith,
            added.2,
            ap length added.1,
            length-append (contents occupied t) (e ∷ []),
            length-contents t',
          ),
        )
  ]

module _ {A : Type 0} (occupied : A → Bool) (vacant : A) (is_vacant : occupied vacant ≡ false)
    (hit : A → Bool) (hit_full : (a : A) → hit a ≡ true → occupied a ≡ true) where
  hit_of_release :
      (t : List A) {t' : List A} → release occupied vacant hit t ≡ some t' → find_first hit t ≢ none
  unfolding release find_first
  hit_of_release [] h = λ e. cc
  hit_of_release (x ∷ xs) h = elim (Bool-cases (hit x)) [
    | inl found ↦ rw found (λ e. cc)
    | inr other ↦ elim (Option-cases (release occupied vacant hit xs)) [
      | inl none_left ↦ absurd (ground (arith, h, other, none_left))
      | inr (rest, found) ↦ rw other (hit_of_release xs found)
    ]
  ]

  -- An entry leaves exactly when the search finds one.
  pub release-cases :
      (t : List A)
      → IsCompact occupied t
      → ((t' : List A) × (release occupied vacant hit t ≡ some t')
          × Removed occupied vacant is_vacant hit hit_full t t'
          × (find_first hit (contents occupied t) ≢ none))
        ⊎ ((release occupied vacant hit t ≡ none) × (find_first hit (contents occupied t) ≡ none))
  release-cases t c = elim (Option-cases (release occupied vacant hit t)) [
    | inl none_left ↦
        inr (none_left, release-none occupied vacant is_vacant hit hit_full t none_left)
    | inr (t', found) ↦
        let same = find_first-contents occupied vacant is_vacant hit hit_full t in
        inl (
          t',
          found,
          release-some occupied vacant is_vacant hit hit_full t found c,
          λ e. hit_of_release t found (sym same ∙ e),
        )
  ]

-- Nothing is released if no slot is accepted.
pub release-missing :
    {A : Type 0} (occupied : A → Bool) (vacant : A) (hit : A → Bool) (t : List A)
    → find_first hit t ≡ none
    → release occupied vacant hit t ≡ none
unfolding release find_first
release-missing occupied vacant hit [] absent = refl
release-missing occupied vacant hit (x ∷ xs) absent = elim (Bool-cases (hit x)) [
  | inl found ↦ absurd (ground (arith, absent, found))
  | inr other ↦
      let rest = release-missing occupied vacant hit xs (ground (arith, absent, other)) in
      ground (arith, other, rest)
]
