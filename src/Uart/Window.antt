-- ===== src/Uart/Window.antt =====
-- The ring of Uart/Ring.antt as a queue of the bytes that it holds.
use native.Mathlib.Nat.{mod-add-mod, mod-eq_of_lt, mod-eq-sub-mod, mod-lt, add-zero}
use cr_dk.Uart.Types.{UartContext}
use cr_dk.Uart.Ring.{keep_last, advance, put, IsRing, span, held}
use mathlib.Core.Path.{subst}
use cr_dk.Base.{
  ℕ, zero, suc, ◌+◌, ◌-◌, ◌%◌, ◌^◌, ◌≤◌, ◌<◌, ◌≡◌, refl, sym, ap, ◌∙◌, ◌≢◌, inl, inr, true, false,
  some, List, [], ◌∷◌, ◌++◌, arith, ltb, leb, ltb→lt, ltb→le, Bool-cases, length, drop, length-drop,
  drop-append, drop-drop, set, get_or, length-append, length-set, get_or-set_self, get_or-set_ne,
}

length-span : (bytes : List ℕ) (size at count : ℕ) → length (span bytes size at count) ≡ count
length-span bytes size at zero = refl
length-span bytes size at (suc count) = ap suc (length-span bytes size ((at + 1) % size) count)

pub step : {i cap : ℕ} → i < cap → cap < 2 ^ 32 → advance cap i ≡ (i + 1) % cap
unfolding advance
step {i} {cap} h small = elim (Bool-cases (leb cap (i + 1))) [
  | inl last ↦
      ground (arith, mod-eq-sub-mod {n = i + 1} {m = cap}, mod-eq_of_lt {n = i + 1 - cap} {m = cap})
  | inr more ↦ ground (arith, mod-eq_of_lt {n = i + 1} {m = cap})
]

-- Going on from an index by 1 or more, but less than once round, leads to another one.
moves_on : (size at k : ℕ) → at < size → 0 < k → k < size → (at + k) % size ≢ at
moves_on size at k inside positive less = elim (Bool-cases (ltb (at + k) size)) [
  | inl before ↦ ground (arith, mod-eq_of_lt {n = at + k} {m = size})
  | inr past ↦
      ground
        (arith, mod-eq_of_lt {n = at + k - size} {m = size}, mod-eq-sub-mod {n = at + k} {m = size})
]

pub shift : (size at k : ℕ) → (at + suc k) % size ≡ ((at + 1) % size + k) % size
shift size at k = sym (mod-add-mod (at + 1) size k ∙ ap (λ (i : ℕ). i % size) (omega arith))

-- Writing the byte that is next behind a span makes the span longer by it.
module _ (bytes : List ℕ) (size byte : ℕ) (room : size ≤ length bytes) where
  span-set :
      (count : ℕ) {at next : ℕ}
      → at < size
      → (at + count) % size ≡ next
      → count < size
      → span (set bytes next byte) size at (suc count) ≡ span bytes size at count ++ (byte ∷ [])
  span-set zero {at = at} inside here less =
      ap (λ (b : ℕ). b ∷ [])
        (ap (λ (i : ℕ). get_or (set bytes i byte) at 0)
            (sym here ∙ ap (λ (i : ℕ). i % size) (add-zero at) ∙ mod-eq_of_lt inside)
          ∙ get_or-set_self bytes at byte 0 (omega (arith, room)))
  span-set (suc count) {at = at} {next = next} inside here less =
      ap (λ (b : ℕ). b ∷ span (set bytes next byte) size ((at + 1) % size) (suc count))
        (get_or-set_ne bytes byte 0
          λ same. moves_on size at (suc count) inside (omega arith) less (here ∙ same))
      ∙ ap (λ (q : List ℕ). get_or bytes at 0 ∷ q)
          (span-set count (mod-lt (at + 1) (omega arith)) (sym (shift size at count) ∙ here)
            (omega (arith, less)))

pub keep_last-small : (cap : ℕ) (q : List ℕ) → length q ≤ cap → keep_last cap q ≡ q
unfolding keep_last
keep_last-small cap q h = ap (λ (k : ℕ). drop k q) {y = 0} (omega arith)

-- What is dropped first does not count.
pub keep_last-append :
    (cap : ℕ) (q r : List ℕ) → keep_last cap (keep_last cap q ++ r) ≡ keep_last cap (q ++ r)
unfolding keep_last
keep_last-append cap q r =
    ap (λ (t : List ℕ). drop (length (drop gone q ++ r) - cap) t)
      (sym (drop-append gone q r (omega arith)))
    ∙ drop-drop (length (drop gone q ++ r) - cap) gone (q ++ r)
    ∙ ap (λ (k : ℕ). drop k (q ++ r))
        (omega (arith, length-append (drop gone q) r, length-append q r, length-drop gone q))
  where
    gone : ℕ
    gone = length q - cap

-- The byte that replaces the oldest of a full window.
span-full :
    (buf : List ℕ) (cap x n h i : ℕ)
    → cap ≤ length buf
    → h < cap
    → n ≡ cap
    → i ≡ (h + n) % cap
    → span (set buf i x) cap ((h + 1) % cap) n ≡ keep_last cap (span buf cap h n ++ (x ∷ []))
unfolding keep_last
span-full buf cap x zero h i room hh full e = absurd (omega arith)
span-full buf cap x (suc m) h i room hh full e =
    span-set buf cap x room m (mod-lt (h + 1) (omega arith)) (sym (e ∙ shift cap h m)) (omega arith)
    ∙ ap (λ (k : ℕ). drop k (span buf cap h (suc m) ++ (x ∷ []))) {x = 1}
        (omega
          (arith, length-append (span buf cap h (suc m)) (x ∷ []), length-span buf cap h (suc m)))

module _ {c : UartContext} {buf : List ℕ} (r : IsRing c buf) where
  pub held_lem : held c ≡ span buf c.input_buffer_capacity c.input_buffer_head c.input_buffer_size
  unfolding held
  held_lem = rw r.buffer refl

  pub length-held : length (held c) ≡ c.input_buffer_size
  length-held =
      ap (λ (t : List ℕ). length t) held_lem
      ∙ length-span buf c.input_buffer_capacity c.input_buffer_head c.input_buffer_size

  abbrev cap : ℕ
  cap = c.input_buffer_capacity

  abbrev h : ℕ
  h = c.input_buffer_head

  abbrev n : ℕ
  n = c.input_buffer_size

  abbrev tl : ℕ
  tl = c.input_buffer_tail

  inside : tl < cap
  inside = rw r.tail (mod-lt (h + n) r.nonempty)

  put_room :
      (x : ℕ)
      → ltb n cap ≡ true
      → put x c ≡ record c {
        input_buffer = some (set buf tl x);
        input_buffer_tail = (tl + 1) % cap;
        input_buffer_size = n + 1;
      }
  unfolding put
  put_room x e = ground (arith, e, r.buffer, r.nonempty, r.small, r.size, step inside r.small)

  put_full :
      (x : ℕ)
      → ltb n cap ≡ false
      → put x c ≡ record c {
        input_buffer = some (set buf tl x);
        input_buffer_tail = (tl + 1) % cap;
        input_buffer_head = (h + 1) % cap;
      }
  unfolding put
  put_full x e = ground (arith, e, r.buffer, r.nonempty, step inside r.small, step r.head r.small)

  pub put-IsRing : (x : ℕ) → IsRing (put x c) (set buf tl x)
  put-IsRing x = elim (Bool-cases (ltb n cap)) [
    | inl e ↦
        subst (λ (t : UartContext). IsRing t (set buf tl x)) (sym (put_room x e))
          (record {
            buffer = refl;
            room = r.room ∙ sym (length-set buf tl x);
            nonempty = r.nonempty;
            small = r.small;
            head = r.head;
            size = ground (arith, e);
            tail = next ∙ ap (λ (k : ℕ). k % cap) (omega arith);
          })
    | inr e ↦
        subst (λ (t : UartContext). IsRing t (set buf tl x)) (sym (put_full x e))
          (record {
            buffer = refl;
            room = r.room ∙ sym (length-set buf tl x);
            nonempty = r.nonempty;
            small = r.small;
            head = mod-lt (h + 1) r.nonempty;
            size = r.size;
            tail = next ∙ ap (λ (k : ℕ). k % cap) (omega arith) ∙ shift cap h n;
          })
  ]
    where
      next : (tl + 1) % cap ≡ (h + n + 1) % cap
      next = ap (λ (k : ℕ). (k + 1) % cap) r.tail ∙ mod-add-mod (h + n) cap 1

  pub held-put : (x : ℕ) → held (put x c) ≡ keep_last cap (held c ++ (x ∷ []))
  unfolding held
  held-put x = elim (Bool-cases (ltb n cap)) [
    | inl e ↦
        ap held (put_room x e)
        ∙ ap (λ (k : ℕ). span (set buf tl x) cap h k) {y = suc n} (omega arith)
        ∙ span-set buf cap x (omega (arith, r.room)) n r.head (sym r.tail) (ltb→lt n cap e)
        ∙ sym (
            keep_last-small cap _ (
              omega (
                arith,
                ltb→lt n cap e,
                length-append (span buf cap h n) (x ∷ []),
                length-span buf cap h n,
              )))
        ∙ ap (λ (q : List ℕ). keep_last cap (q ++ (x ∷ []))) (sym held_lem)
    | inr e ↦
        ap held (put_full x e)
        ∙ span-full buf cap x n h tl (omega (arith, r.room)) r.head
            (omega (arith, r.size, ltb→le n cap e)) r.tail
        ∙ ap (λ (q : List ℕ). keep_last cap (q ++ (x ∷ []))) (sym held_lem)
  ]
