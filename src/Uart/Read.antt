-- ===== src/Uart/Read.antt =====
-- What `SerialRead` of DebugUartSerialCr.c takes from the ring that debug_uart.c fills.
use cr_dk.Bits.{u32}
use cr_dk.Uart.Queue.{Holds}
use cr_dk.Uart.Types.{UartContext}
use native.Mathlib.Nat.{mod-add-mod, mod-lt, add-zero, mod-eq_of_lt}
use mathlib.Core.Path.{subst, ap₂}
use cr_dk.Uart.Serial.{read_from, read_ring, read_bytes}
use cr_dk.Uart.Window.{held_lem, length-held, step, shift}
use cr_dk.Uart.Ring.{held, IsRing, span}
use cr_dk.Base.{
  ℕ, zero, suc, ◌+◌, ◌-◌, ◌%◌, ◌^◌, ◌≤◌, ◌<◌, ◌≡◌, refl, sym, ap, ◌∙◌, inl, inr, true, false,
  Option, none, some, List, [], ◌∷◌, arith, ltb, ◌==◌, if◌then◌else◌, ltb→le, ==→eq, Bool-cases,
  length, take, drop, take-all, drop-all, get_or,
}

take-span : (buf : List ℕ) (cap h n k : ℕ) → k ≤ n → take k (span buf cap h n) ≡ span buf cap h k
take-span buf cap h n zero l = refl
take-span buf cap h zero (suc k) l = absurd (omega arith)
take-span buf cap h (suc n) (suc k) l =
    ap (λ (t : List ℕ). get_or buf h 0 ∷ t) (take-span buf cap ((h + 1) % cap) n k (omega arith))

drop-span :
    (buf : List ℕ) (cap h n k : ℕ)
    → 0 < cap
    → h < cap
    → k ≤ n
    → drop k (span buf cap h n) ≡ span buf cap ((h + k) % cap) (n - k)
drop-span buf cap h n zero p hh l =
    ap₂ (λ (a m : ℕ). span buf cap a m)
      (sym (ap (λ (a : ℕ). a % cap) (add-zero h) ∙ mod-eq_of_lt hh)) (omega arith)
drop-span buf cap h zero (suc k) p hh l = absurd (omega arith)
drop-span buf cap h (suc n) (suc k) p hh l =
    drop-span buf cap ((h + 1) % cap) n k p (mod-lt (h + 1) p) (omega arith)
    ∙ ap₂ (λ (a m : ℕ). span buf cap a m) (sym (shift cap h k)) (omega arith)

-- The loop of `SerialRead`.
read_bytes-span :
    (buf : List ℕ) (cap n h : ℕ)
    → 0 < cap
    → cap < 2 ^ 32
    → h < cap
    → read_bytes buf cap n h ≡ (span buf cap h n, (h + n) % cap)
unfolding read_bytes
read_bytes-span buf cap zero h p small hh =
    ap (λ (a : ℕ). ([], a)) (sym (ap (λ (a : ℕ). a % cap) (add-zero h) ∙ mod-eq_of_lt hh))
read_bytes-span buf cap (suc n) h p small hh =
    ap (λ (a : ℕ). let (bytes, last) = read_bytes buf cap n a in (get_or buf h 0 ∷ bytes, last))
      (step hh small)
    ∙ ap (λ (r : List ℕ × ℕ). (get_or buf h 0 ∷ r.0, r.1))
        (read_bytes-span buf cap n ((h + 1) % cap) p small (mod-lt (h + 1) p))
    ∙ ap (λ (a : ℕ). (get_or buf h 0 ∷ span buf cap ((h + 1) % cap) n, a)) (sym (shift cap h n))

-- The number of bytes that a read of `size` takes from `n`.
abbrev least : ℕ → ℕ → ℕ
least size n = if ltb size n then size else n

take-least : (size : ℕ) (q : List ℕ) → take (least size (length q)) q ≡ take size q
take-least size q = elim (Bool-cases (ltb size (length q))) [
  | inl e ↦ rw e refl
  | inr e ↦
      rw e (take-all (length q) q (omega arith) ∙ sym (take-all size q (ltb→le size (length q) e)))
]

drop-least : (size : ℕ) (q : List ℕ) → drop (least size (length q)) q ≡ drop size q
drop-least size q = elim (Bool-cases (ltb size (length q))) [
  | inl e ↦ rw e refl
  | inr e ↦
      rw e (drop-all (length q) q (omega arith) ∙ sym (drop-all size q (ltb→le size (length q) e)))
]

length-least : (size : ℕ) (q : List ℕ) → length (take size q) ≡ least size (length q)
length-least zero [] = refl
length-least zero (x ∷ xs) = ground arith
length-least (suc n) [] = ground arith
length-least (suc n) (x ∷ xs) = ground (arith, length-least n xs)

module _ {c : UartContext} {buf : List ℕ} (r : IsRing c buf) (size : ℕ) where
  k : ℕ
  k = least size c.input_buffer_size

  few : k ≤ c.input_buffer_size
  unfolding k
  few = ground arith

  read : UartContext
  read = record c {
    input_buffer_head = (c.input_buffer_head + k) % c.input_buffer_capacity;
    input_buffer_size = c.input_buffer_size - k;
  }

  in_buffer : read_ring size c ≡ read_from buf size c
  unfolding read_ring
  in_buffer =
      ap (λ (o : Option (List ℕ)). elim o [ none ↦ ((0, []), c) | some buf ↦ read_from buf size c ])
        r.buffer

  read_ring_empty : (c.input_buffer_size == 0) ≡ true → read_ring size c ≡ ((0, []), c)
  unfolding read_from
  read_ring_empty e = in_buffer ∙ rw e refl

  read_ring_some :
      (c.input_buffer_size == 0) ≡ false
      → read_ring size c ≡ ((k, span buf c.input_buffer_capacity c.input_buffer_head k), read)
  unfolding read_from k read
  read_ring_some e =
      in_buffer
      ∙ rw e (
          ap
            (λ (o : List ℕ × ℕ). (
              (k, o.0),
              record c {
                input_buffer_head = o.1;
                input_buffer_size = u32 (c.input_buffer_size - k);
              },
            ))
            (read_bytes-span buf c.input_buffer_capacity k c.input_buffer_head r.nonempty r.small
              r.head))
      ∙ ap
          (λ (m : ℕ). (
            (k, span buf c.input_buffer_capacity c.input_buffer_head k),
            record read { input_buffer_size = m },
          ))
          (mod-eq_of_lt {n = c.input_buffer_size - k} {m = 2 ^ 32} (omega (arith, r.size, r.small)))

  read-IsRing : IsRing read buf
  unfolding read k
  read-IsRing = record {
    buffer = r.buffer;
    room = r.room;
    nonempty = r.nonempty;
    small = r.small;
    head = mod-lt (c.input_buffer_head + k) r.nonempty;
    size = omega (arith, r.size);
    tail =
        r.tail
        ∙ ap (λ (a : ℕ). a % c.input_buffer_capacity) (omega (arith, few))
        ∙ sym (
            mod-add-mod (c.input_buffer_head + k) c.input_buffer_capacity
              (c.input_buffer_size - k));
  }

  taken-held : span buf c.input_buffer_capacity c.input_buffer_head k ≡ take size (held c)
  unfolding k
  taken-held =
      sym (take-span buf c.input_buffer_capacity c.input_buffer_head c.input_buffer_size k few)
      ∙ ap₂ (λ (m : ℕ) (q : List ℕ). take (least size m) q) (sym (length-held r)) (sym (held_lem r))
      ∙ take-least size (held c)

  held-read : held read ≡ drop size (held c)
  unfolding k read
  held-read =
      held_lem read-IsRing
      ∙ sym (
          drop-span buf c.input_buffer_capacity c.input_buffer_head c.input_buffer_size k r.nonempty
            r.head few)
      ∙ ap₂ (λ (m : ℕ) (q : List ℕ). drop (least size m) q) (sym (length-held r)) (sym (held_lem r))
      ∙ drop-least size (held c)

-- What a read of `size` bytes from a ring that holds `q` gives, and that it leaves the rest.
unfoldable pub Gives : ℕ → List ℕ → ℕ → (ℕ × List ℕ) × UartContext → Type 0
Gives cap q size ((count, bytes), after) =
    (count ≡ length (take size q)) × (bytes ≡ take size q) × Holds cap (drop size q) after

pub empty :
    {cap : ℕ} {c : UartContext} (size : ℕ) (q : List ℕ)
    → length q ≡ 0
    → Holds cap q c
    → Gives cap q size ((0, []), c)
unfolding Gives
empty {cap} {c} size [] e h = (
  sym (ap length (take-all size [] (omega arith))),
  sym (take-all size [] (omega arith)),
  subst (λ (t : List ℕ). Holds cap t c) (sym (drop-all size [] (omega arith))) h,
)
empty size (x ∷ xs) e h = absurd (omega arith)

pub read_ring-Gives :
    {cap : ℕ} {q : List ℕ} {c : UartContext} (size : ℕ)
    → Holds cap q c
    → Gives cap q size (read_ring size c)
unfolding Gives k read
read_ring-Gives {cap} {q} {c} size h = elim (Bool-cases (c.input_buffer_size == 0)) [
  | inl e ↦ subst (Gives cap q size) (sym (read_ring_empty h.ring size e)) (
      empty size q (ap length (sym h.queue) ∙ length-held h.ring ∙ ==→eq c.input_buffer_size 0 e) h)
  | inr e ↦ subst (Gives cap q size) (sym (read_ring_some h.ring size e)) (
    ap (least size) (sym (length-held h.ring))
        ∙ sym (length-least size (held c))
        ∙ ap (λ (t : List ℕ). length (take size t)) h.queue,
    taken-held h.ring size ∙ ap (take size) h.queue,
    record {
      buffer = h.buffer;
      ring = read-IsRing h.ring size;
      capacity = h.capacity;
      queue = held-read h.ring size ∙ ap (drop size) h.queue;
    },
  )
]
