-- ===== src/Trng.antt =====
-- Library/QcomTrngLib/QcomTrngLib.c: the hardware's random numbers, read from a register once another
-- says that there is one.
pub mod Wait
pub mod Entropy
mod Tests
use cr_dk.Bits.{u64}
use cr_dk.Mmio.{M, pure, ◌>>=◌, ◌>>◌, Bus, read32, sleep}
use cr_dk.Base.{
  ℕ, zero, suc, ◌+◌, ◌-◌, ◌*◌, ◌/◌, ◌%◌, ◌^◌, ◌≤◌, ◌<◌, bit_and, bit_or, ◌≡◌, refl, sym, ap, ◌∙◌,
  ◌≢◌, ◌↔◌, ◌⊎◌, inl, inr, Bool, true, false, not, ◌&&◌, ◌||◌, Option, none, some, List, [], ◌∷◌,
  ◌++◌, arith, ltb, leb, ◌==◌, if◌then◌else◌, lt→ltb, le→ltb, ltb→lt, ltb→le, ==→eq, ne→==,
  Bool-cases, Option-cases, length, get_elem?, set, get_or, replicate, length-append, length-set,
  get_or-set_self, get_or-set_ne, testbit, testbit-bit_and, testbit-bit_or, testbit-zero,
  testbit-out, testbit-shl, testbit-shr, testbit-mod, testbit-pow, testbit-complement,
  eq_of_testbit,
}

pub record CrTrngConfig : Type 0 where
  pub base_address : ℕ
  pub mmio_size : ℕ
  pub data_out_offset : ℕ
  pub status_offset : ℕ
  pub data_available_mask : ℕ
  pub max_entropy_bits : ℕ
  pub poll_delay_us : ℕ
  pub timeout_us : ℕ

-- The statuses that the library returns.
pub data ReturnStatus : Type 0 where
  return_success return_invalid_parameter return_unsupported : ReturnStatus
  return_bad_buffer_size return_not_ready : ReturnStatus

-- The test of `GetTrngConfig`. The subtraction of a size below 4 is not reached.
abbrev pub config_usable : CrTrngConfig → Bool
config_usable c = not (
    c.base_address == 0
    || ltb c.mmio_size 4
    || ltb (c.mmio_size - 4) c.data_out_offset
    || ltb (c.mmio_size - 4) c.status_offset
    || c.data_available_mask == 0
    || c.max_entropy_bits == 0
    || ltb 32 c.max_entropy_bits
    || not (bit_and c.max_entropy_bits 7 == 0)
    || c.poll_delay_us == 0)

-- `GetTrngConfig`; `target` is what `CrTargetGetTrngConfig` returns.
unfoldable pub get_trng_config : Option CrTrngConfig → Option CrTrngConfig
get_trng_config none = none
get_trng_config (some c) = if config_usable c then some c else none

-- `GetArmTrngVersion`; `given` is whether both out parameters are.
unfoldable pub get_arm_trng_version : Option CrTrngConfig → Bool → ReturnStatus × Option (ℕ × ℕ)
unfolding get_trng_config
get_arm_trng_version target given =
    if not given
    then (ReturnStatus.return_invalid_parameter, none)
    else elim (get_trng_config target) [
      | none ↦ (ReturnStatus.return_unsupported, none)
      | some c ↦ (ReturnStatus.return_success, some (1, 0))
    ]

unfoldable pub get_max_supported_entropy_bits : Option CrTrngConfig → ℕ
unfolding get_trng_config
get_max_supported_entropy_bits target = elim (get_trng_config target) [
  | none ↦ 0
  | some c ↦ c.max_entropy_bits
]

-- The first `n` bytes of a word in memory.
unfoldable pub bytes_of : ℕ → ℕ → List ℕ
bytes_of zero w = []
bytes_of (suc n) w = w % 2 ^ 8 ∷ bytes_of n (w / 2 ^ 8)

abbrev pub min : ℕ → ℕ → ℕ
min a b = if ltb a b then a else b

module _ {S : Type 0} (bus : Bus S) (c : CrTrngConfig) where
  -- The loop of `GetArmTrngEntropy`, with `n` rounds left: `some (some w)` when a word was there,
  -- `some none` when the time was up, and `none` when the rounds ran out.
  unfoldable pub poll : ℕ → ℕ → M S (Option (Option ℕ))
  poll zero elapsed = pure none
  poll (suc n) elapsed = do
    val ← read32 bus (u64 (c.base_address + c.status_offset))
    elim (bit_and val c.data_available_mask == 0) [
      | false ↦ do
        random_word ← read32 bus (u64 (c.base_address + c.data_out_offset))
        pure (some (some random_word))
      | true ↦ elim (leb c.timeout_us elapsed) [
        | true ↦ pure (some none)
        | false ↦
            let delay = min c.poll_delay_us (c.timeout_us - elapsed) in
            sleep bus delay >> poll n (elapsed + delay)
      ]
    ]

-- `GetArmTrngEntropy`: the status and the bytes written to the buffer. `given` is whether the buffer
-- is not NULL. A round waits at least a microsecond, so one round more than the time allows is enough.
unfoldable pub get_arm_trng_entropy :
    {S : Type 0} → Bus S → Option CrTrngConfig → ℕ → ℕ → Bool → M S (Option (ReturnStatus × List ℕ))
unfolding get_trng_config poll bytes_of
get_arm_trng_entropy bus target entropy_bits buffer_size given = elim (get_trng_config target) [
  | none ↦ pure (some (ReturnStatus.return_unsupported, []))
  | some c ↦
      let byte_count = entropy_bits / 8 in
      if not given
        || entropy_bits == 0
        || ltb c.max_entropy_bits entropy_bits
        || not (bit_and entropy_bits 7 == 0)
      then pure (some (ReturnStatus.return_invalid_parameter, []))
      else if ltb buffer_size byte_count
      then pure (some (ReturnStatus.return_bad_buffer_size, []))
      else do
        out ← poll bus c (suc c.timeout_us) 0
        pure (elim out [
          | none ↦ none
          | some word ↦ elim word [
            | none ↦ some (ReturnStatus.return_not_ready, [])
            | some w ↦ some (ReturnStatus.return_success, bytes_of byte_count w)
          ]
        ])
]
