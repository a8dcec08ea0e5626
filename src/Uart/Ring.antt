-- ===== src/Uart/Ring.antt =====
-- The ring of the bytes received: lines of MsmGeniSerialIsr in Library/DebugUartLib/debug_uart.c. A ring
-- holds a queue of at most its capacity, which loses its oldest byte when a byte is put on it full.
use cr_dk.Base.{
  ℕ, zero, suc, ◌+◌, ◌-◌, ◌*◌, ◌/◌, ◌%◌, ◌^◌, ◌≤◌, ◌<◌, ◌≡◌, none, some, List, [], ◌∷◌, ltb, leb,
  ◌==◌, if◌then◌else◌, length, drop, set, get_or,
}
use cr_dk.Bits.{u64}
use cr_dk.Uart.Types.{UartContext}

-- An index one further, at 0 again when it has reached the capacity.
unfoldable pub advance : ℕ → ℕ → ℕ
advance cap i = let next = u64 (i + 1) in if leb cap next then 0 else next

-- The byte goes in at the tail. In a full ring the head has moved on over the oldest byte.
unfoldable pub put : ℕ → UartContext → UartContext
unfolding advance
put byte c = elim c.input_buffer [
  | none ↦ c
  | some buf ↦
      let cap = c.input_buffer_capacity in
      let written : UartContext = record c {
        input_buffer = some (set buf c.input_buffer_tail byte);
        input_buffer_tail = advance cap c.input_buffer_tail;
      } in
      if cap == 0
      then c
      else if ltb c.input_buffer_size cap
      then record written { input_buffer_size = u64 (c.input_buffer_size + 1) }
      else record written { input_buffer_head = advance cap c.input_buffer_head }
]

-- The loop over the bytes of a word, `n` of them left from byte `i` on.
unfoldable pub put_bytes : ℕ → ℕ → ℕ → UartContext → UartContext
unfolding put
put_bytes zero i word c = c
put_bytes (suc n) i word c = put_bytes n (i + 1) word (put (word / 2 ^ (i * 8) % 2 ^ 8) c)

-- A ring over a buffer, whose tail stands as far behind its head as it holds bytes.
pub record IsRing (c : UartContext) (buf : List ℕ) : Type 0 where
  pub buffer : c.input_buffer ≡ some buf
  pub room : c.input_buffer_capacity ≡ length buf
  pub nonempty : 0 < c.input_buffer_capacity
  pub small : c.input_buffer_capacity < 2 ^ 32
  pub head : c.input_buffer_head < c.input_buffer_capacity
  pub size : c.input_buffer_size ≤ c.input_buffer_capacity
  pub tail :
      c.input_buffer_tail ≡ (c.input_buffer_head + c.input_buffer_size) % c.input_buffer_capacity

-- As many bytes as `count` says, the first at index `at`, with index 0 behind the last one below `size`.
abbrev pub span : List ℕ → ℕ → ℕ → ℕ → List ℕ
span bytes size at zero = []
span bytes size at (suc count) = get_or bytes at 0 ∷ span bytes size ((at + 1) % size) count

-- What a ring holds, the oldest byte first.
unfoldable pub held : UartContext → List ℕ
held c = elim c.input_buffer [
  | none ↦ []
  | some buf ↦ span buf c.input_buffer_capacity c.input_buffer_head c.input_buffer_size
]

-- The last `cap` elements of a queue, all of it if it has no more.
unfoldable pub keep_last : ℕ → List ℕ → List ℕ
keep_last cap q = drop (length q - cap) q
