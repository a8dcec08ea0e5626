-- ===== src/Rpmh/Layout.antt =====
-- Where RpmhLibInit of rpmh.c places the command sets: RpmhDrvTcsConfig after `layout_tcs`.
use cr_dk.Rpmh.Types.{RpmhDrvTcsConfig, RpmhDrvTcsData}
use cr_dk.Rpmh.Isr.{layout_tcs}
use cr_dk.Bits.Laws.{testbit-ones, testbit-u32}
use cr_dk.Base.{
  ℕ, ◌+◌, ◌-◌, ◌*◌, ◌%◌, ◌^◌, ◌≤◌, ◌≡◌, refl, ◌∙◌, ◌&&◌, arith, ltb, leb, testbit, testbit-shl,
}
use cr_dk.Bits.{bit, u32}

-- The sets `d` take the places from `first` on.
pub record IsPlaced (d : RpmhDrvTcsData) (first count : ℕ) : Type 0 where
  pub offset_is : d.offset ≡ first
  pub count_is : d.tcs_count ≡ count
  pub mask_bits : (i : ℕ) → testbit d.mask i ≡ (leb first i && ltb i (first + count))

mask_bits_lem :
    (count offset i : ℕ)
    → offset + count ≤ 32
    → testbit (u32 ((bit count + 2 ^ 64 - 1) % 2 ^ 64 * 2 ^ offset)) i
      ≡ (leb offset i && ltb i (offset + count))
mask_bits_lem count offset i h =
    testbit-u32 ((bit count + 2 ^ 64 - 1) % 2 ^ 64 * 2 ^ offset) i
    ∙ ground (
      arith,
      testbit-shl ((bit count + 2 ^ 64 - 1) % 2 ^ 64) offset i,
      testbit-ones count (i - offset) (omega arith),
    )

-- Up to 32 sets are placed one kind after the other, each kind's mask names its places and no others,
-- and no kind's number of sets changes.
pub layout_tcs-IsPlaced :
    (t : RpmhDrvTcsConfig)
    → t.active_tcs.tcs_count + t.sleep_tcs.tcs_count + t.wake_tcs.tcs_count ≤ 32
    → IsPlaced (layout_tcs t).active_tcs 0 t.active_tcs.tcs_count
      × IsPlaced (layout_tcs t).sleep_tcs t.active_tcs.tcs_count t.sleep_tcs.tcs_count
      × IsPlaced
          (layout_tcs t).wake_tcs
          (t.active_tcs.tcs_count + t.sleep_tcs.tcs_count)
          t.wake_tcs.tcs_count
unfolding layout_tcs
layout_tcs-IsPlaced t h =
    let a = t.active_tcs.tcs_count in
    let s = t.sleep_tcs.tcs_count in
    let w = t.wake_tcs.tcs_count in
    (
      record {
        offset_is = refl;
        count_is = refl;
        mask_bits = λ i. mask_bits_lem a 0 i (omega arith);
      },
      record {
        offset_is = omega arith;
        count_is = refl;
        mask_bits = λ i. mask_bits_lem s (u32 a) i (omega arith) ∙ ground arith;
      },
      record {
        offset_is = omega arith;
        count_is = refl;
        mask_bits = λ i. mask_bits_lem w (u32 (u32 a + s)) i (omega arith) ∙ ground arith;
      },
    )
