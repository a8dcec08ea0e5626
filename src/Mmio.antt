-- ===== src/Mmio.antt =====
-- Access to device registers: Include/oskal/cr_memory.h and Library/OskMemoryLib/OskMemoryLib.c.
-- The firmware's IoLib and TimerLib stand behind a `Bus`: `peek` is the value that a 32-bit read of
-- an address returns, `after_read` and `poke` what a read and a write do to the hardware, and `delay`
-- a wait of so many microseconds.
pub mod Storage
pub mod Poll
use cr_dk.Base.{ℕ, ◌-◌, ◌%◌, ◌^◌, bit_and, bit_or}
use cr_dk.Bits.{u32}

pub record Bus (S : Type 0) : Type 0 where
  pub peek : S → ℕ → ℕ
  pub after_read : ℕ → S → S
  pub poke : ℕ → ℕ → S → S
  pub delay : ℕ → S → S

-- Code that runs on the hardware.
abbrev pub M : Type 0 → Type 0 → Type 0
M S A = S → A × S

module _ {S : Type 0} where
  abbrev pub pure : {A : Type 0} → A → M S A
  pure a s = (a, s)

  infixl 5 ◌>>=◌ ◌>>◌
  abbrev pub ◌>>=◌ : {A B : Type 0} → M S A → (A → M S B) → M S B
  ◌>>=◌ m f s = let (a, s') = m s in f a s'

  abbrev pub ◌>>◌ : {B : Type 0} → M S (Unit {0}) → M S B → M S B
  m >> k = m >>= λ _. k

module _ {S : Type 0} (bus : Bus S) where
  abbrev pub read32 : ℕ → M S ℕ
  read32 a s = (bus.peek s a, bus.after_read a s)

  abbrev pub write32 : ℕ → ℕ → M S (Unit {0})
  write32 a v s = (tt, bus.poke a (u32 v) s)

  -- `cr_sleep` and `MicroSecondDelay`.
  abbrev pub sleep : ℕ → M S (Unit {0})
  sleep us s = (tt, bus.delay us s)

  unfoldable pub or32 : ℕ → ℕ → M S ℕ
  or32 a data_to_or = do val ← read32 a; let val' = bit_or val data_to_or; write32 a val'; pure val'

  unfoldable pub and32 : ℕ → ℕ → M S ℕ
  and32 a data_to_and = do
    val ← read32 a
    let val' = bit_and val data_to_and
    write32 a val'
    pure val'

  -- `Val &= ~Mask; Val |= (Data & Mask)`, on 32 bits.
  unfoldable pub update_bits32 : ℕ → ℕ → ℕ → M S ℕ
  update_bits32 a mask bits = do
    val ← read32 a
    let val' = bit_or (bit_and val (2 ^ 32 - 1 - mask)) (bit_and bits mask)
    write32 a val'
    pure val'
