-- ===== src/SlotTable/Find.antt =====
-- Searching lists: what is found, and where two lists are joined.
use cr_dk.Base.{
  ◌≡◌, refl, sym, ap, ◌∙◌, ◌≢◌, inl, inr, Bool, true, none, some, List, [], ◌∷◌, ◌++◌, arith,
  Bool-cases,
}
use cr_dk.SlotTable.{Within, find_first, drop_first}

pub find_first-append :
    {A : Type 0} (hit : A → Bool) (xs : List A) (e : A)
    → find_first hit xs ≡ none
    → hit e ≡ true
    → find_first hit (xs ++ (e ∷ [])) ≡ some e
unfolding find_first
find_first-append hit [] e h k = rw k
find_first-append hit (x ∷ xs) e h k = elim (Bool-cases (hit x)) [
  | inl found ↦ absurd (ground (arith, h, found))
  | inr other ↦ rw other (find_first-append hit xs e (ground (arith, h, other)) k)
]

pub drop_first-append :
    {A : Type 0} (hit : A → Bool) (xs : List A) (e : A)
    → find_first hit xs ≡ none
    → hit e ≡ true
    → drop_first hit (xs ++ (e ∷ [])) ≡ xs
unfolding find_first drop_first
drop_first-append hit [] e h k = rw k
drop_first-append hit (x ∷ xs) e h k = elim (Bool-cases (hit x)) [
  | inl found ↦ absurd (ground (arith, h, found))
  | inr other ↦ rw other (ap (λ t. x ∷ t) (drop_first-append hit xs e (ground (arith, h, other)) k))
]

-- A list is searched to its end before the one behind it.
pub find_first-miss :
    {A : Type 0} (hit : A → Bool) (xs ys : List A)
    → find_first hit xs ≡ none
    → find_first hit (xs ++ ys) ≡ find_first hit ys
unfolding find_first
find_first-miss hit [] ys h = refl
find_first-miss hit (x ∷ xs) ys h = elim (Bool-cases (hit x)) [
  | inl found ↦ absurd (ground (arith, h, found))
  | inr other ↦ rw other (find_first-miss hit xs ys (ground (arith, h, other)))
]

pub find_first-hit :
    {A : Type 0} (hit : A → Bool) (xs ys : List A) {e : A}
    → find_first hit xs ≡ some e
    → find_first hit (xs ++ ys) ≡ some e
unfolding find_first
find_first-hit hit [] ys h = absurd (cc)
find_first-hit hit (x ∷ xs) ys h = elim (Bool-cases (hit x)) [
  | inl found ↦ ground (arith, h, found)
  | inr other ↦ rw other (find_first-hit hit xs ys (ground (arith, h, other)))
]

-- What is found is accepted and in the list.
pub find_first_sound :
    {A : Type 0} (hit : A → Bool) (xs : List A) {e : A}
    → find_first hit xs ≡ some e
    → (hit e ≡ true) × Within e xs
unfolding find_first
find_first_sound hit [] h = absurd (cc)
find_first_sound hit (x ∷ xs) {e} h = elim (Bool-cases (hit x)) [
  | inl found ↦
      let same : x ≡ e = ground (arith, h, found) in (ap hit (sym same) ∙ found, inl (sym same))
  | inr other ↦ let ih = find_first_sound hit xs (ground (arith, h, other)) in (ih.0, inr ih.1)
]

-- Something is found if a member is accepted.
pub find_first_found :
    {A : Type 0} (hit : A → Bool) (xs : List A) (e : A)
    → Within e xs
    → hit e ≡ true
    → find_first hit xs ≢ none
unfolding find_first
find_first_found hit [] e w h = absurd w
find_first_found hit (x ∷ xs) e (inl same) h = λ n. absurd (ground (arith, n, ap hit same, h))
find_first_found hit (x ∷ xs) e (inr w) h = λ n. elim (Bool-cases (hit x)) [
  | inl found ↦ absurd (ground (arith, n, found))
  | inr other ↦ find_first_found hit xs e w h (ground (arith, n, other))
]
