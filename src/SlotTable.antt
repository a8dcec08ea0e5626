-- ===== src/SlotTable.antt =====
-- Fixed tables of slots that are filled from the front: the scheme that the interrupt tables of
-- Library/OskInterruptLib/oskinterrupt.c and Library/GpioLib/gpio_irq.c share.
pub mod Laws
pub mod Find
use mathlib.Core.Option
use cr_dk.Base.{◌≡◌, ◌⊎◌, Bool, true, false, Option, none, some, List, [], ◌∷◌, if◌then◌else◌}

module _ {A : Type 0} (occupied : A → Bool) where
  -- The entry goes into the first free slot; `none` if the loop runs off the table.
  unfoldable pub claim : A → List A → Option (List A)
  claim e [] = none
  claim e (x ∷ xs) = if occupied x then Option.map (λ t. x ∷ t) (claim e xs) else some (e ∷ xs)

  -- The loop that moves entries forward, started at a slot that holds `gap`: each later entry moves
  -- one place down and leaves `vacant` behind, up to the first free slot.
  unfoldable pub close_gap : A → A → List A → List A
  close_gap vacant gap [] = gap ∷ []
  close_gap vacant gap (x ∷ xs) =
      if occupied x then x ∷ close_gap vacant vacant xs else gap ∷ x ∷ xs

  -- The first entry that `hit` accepts is cleared, and the gap closed; `none` if there is none.
  unfoldable pub release : A → (A → Bool) → List A → Option (List A)
  unfolding close_gap
  release vacant hit [] = none
  release vacant hit (x ∷ xs) =
      if hit x
      then some (close_gap vacant vacant xs)
      else Option.map (λ t. x ∷ t) (release vacant hit xs)

  -- The entries of a table, in order.
  unfoldable pub contents : List A → List A
  contents [] = []
  contents (x ∷ xs) = if occupied x then x ∷ contents xs else contents xs

-- The first entry that `hit` accepts.
unfoldable pub find_first : {A : Type 0} → (A → Bool) → List A → Option A
find_first hit [] = none
find_first hit (x ∷ xs) = if hit x then some x else find_first hit xs

-- A list without that entry.
unfoldable pub drop_first : {A : Type 0} → (A → Bool) → List A → List A
drop_first hit [] = []
drop_first hit (x ∷ xs) = if hit x then xs else x ∷ drop_first hit xs

-- An element of a list.
abbrev pub Within : {A : Type 0} → A → List A → Type 0
Within e [] = ⊥
Within e (x ∷ xs) = (e ≡ x) ⊎ Within e xs
