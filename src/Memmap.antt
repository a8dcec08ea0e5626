-- ===== src/Memmap.antt =====
-- Library/OskMemmapLib/oskmemmap.c: regions of device memory. The firmware's DXE services are a parameter.
mod Tests
use cr_dk.Status.{Status, cr_error}
use cr_dk.Mmio.{M, pure, ◌>>=◌, ◌>>◌}
use cr_dk.Bits.{u64}
use native.Mathlib.Nat.{mod-eq_of_lt}
use cr_dk.Base.{
  ℕ, zero, suc, ◌+◌, ◌-◌, ◌*◌, ◌/◌, ◌%◌, ◌^◌, ◌≤◌, ◌<◌, bit_and, bit_or, ◌≡◌, refl, sym, ap, ◌∙◌,
  ◌≢◌, ◌↔◌, ◌⊎◌, inl, inr, Bool, true, false, not, ◌&&◌, ◌||◌, Option, none, some, List, [], ◌∷◌,
  ◌++◌, arith, ltb, leb, ◌==◌, if◌then◌else◌, lt→ltb, le→ltb, ltb→lt, ltb→le, ==→eq, ne→==,
  Bool-cases, Option-cases, length, take, drop, take-all, drop-all, take-append-drop, length-take,
  length-drop, drop-append, drop-drop, get_elem?, set, get_or, replicate, length-append, length-set,
  get_or-set_self, get_or-set_ne, testbit, testbit-bit_and, testbit-bit_or, testbit-zero,
  testbit-out, testbit-shl, testbit-shr, testbit-mod, testbit-pow, testbit-complement,
  eq_of_testbit,
}

-- `gDS`: a type, a base, a size and capabilities; a base, a size and attributes; a base and a size.
pub record DxeServices (S : Type 0) : Type 0 where
  pub add_memory_space : ℕ → ℕ → ℕ → ℕ → M S Status
  pub set_memory_space_attributes : ℕ → ℕ → ℕ → M S Status
  pub remove_memory_space : ℕ → ℕ → M S Status

abbrev pub efi_memory_uc : ℕ
efi_memory_uc = 1

-- `EfiGcdMemoryTypeMemoryMappedIo`.
abbrev pub memory_mapped_io : ℕ
memory_mapped_io = 3

-- `ALIGN_TO_4KB`; the sum wraps.
unfoldable pub align_to_4kb : ℕ → ℕ
align_to_4kb size = bit_and (u64 (size + 0xfff)) (2 ^ 64 - 1 - 0xfff)

module _ {S : Type 0} (dxe : DxeServices S) where
  unfoldable pub map_mem_region : ℕ → ℕ → ℕ → ℕ → ℕ → M S Status
  unfolding align_to_4kb
  map_mem_region base size attributes cache memory_type =
      if (base == 0) || (size == 0) then pure Status.invalid_parameter else (do
        added ← dxe.add_memory_space memory_type base (align_to_4kb size) cache
        if cr_error added then pure added else (do
          set_to ← dxe.set_memory_space_attributes base (align_to_4kb size) attributes
          pure (elim (cr_error set_to) [ true ↦ set_to | false ↦ Status.success ])))

  -- The status of clearing the attributes is only logged.
  unfoldable pub un_map_mem_region : ℕ → ℕ → M S Status
  unfolding align_to_4kb
  un_map_mem_region base size =
      if (base == 0) || (size == 0) then pure Status.invalid_parameter else (do
        cleared ← dxe.set_memory_space_attributes base (align_to_4kb size) 0
        removed ← dxe.remove_memory_space base (align_to_4kb size)
        pure (elim (cr_error removed) [ true ↦ removed | false ↦ Status.success ]))

  unfoldable pub map_device_io_region : ℕ → ℕ → M S Status
  unfolding map_mem_region
  map_device_io_region base size =
      map_mem_region base size efi_memory_uc efi_memory_uc memory_mapped_io

-- The multiple of 4096 that `ALIGN_TO_4KB` rounds up to.
below_page : (i : ℕ) → testbit 0xfff i ≡ ltb i 12
below_page i =
    ap (λ (t : ℕ). testbit t i) (omega arith)
    ∙ testbit-complement 12 0 i (omega arith)
    ∙ ground (arith, testbit-zero i)

clear_page : (x : ℕ) → x < 2 ^ 64 → bit_and x (2 ^ 64 - 1 - 0xfff) ≡ x / 2 ^ 12 * 2 ^ 12
clear_page x h = eq_of_testbit _ _ λ i.
    testbit-bit_and x (2 ^ 64 - 1 - 0xfff) i
    ∙ ground (
      arith,
      testbit-complement 64 0xfff i (omega arith),
      below_page i,
      testbit-out 64 x i h,
      testbit-shl (x / 2 ^ 12) 12 i,
      testbit-shr x 12 (i - 12),
      ap (λ (t : ℕ). testbit x t) {x = 12 + (i - 12)} {y = i},
    )

-- A size that does not wrap is rounded up to the next multiple of 4096.
pub align_to_4kb-next :
    (size : ℕ)
    → size + 0xfff < 2 ^ 64
    → (align_to_4kb size % 0x1000 ≡ 0)
      × (size ≤ align_to_4kb size)
      × (align_to_4kb size < size + 0x1000)
unfolding align_to_4kb
align_to_4kb-next size h =
    let whole =
      ap (λ (t : ℕ). bit_and t (2 ^ 64 - 1 - 0xfff))
        (mod-eq_of_lt {n = size + 0xfff} {m = 2 ^ 64} h)
      ∙ clear_page (size + 0xfff) h in
    (omega (arith, whole), omega (arith, whole), omega (arith, whole))
