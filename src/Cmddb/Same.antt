-- ===== src/Cmddb/Same.antt =====
-- `CmdDBIsAddrEqual` of Include/Library/cmddb.h.
use cr_dk.Bits.Fields.{testbit-get_field, gen_msk-IsField, IsField}
use cr_dk.Bits.{get_field}
use cr_dk.Cmddb.Address.{rpmh_vrm_address_msk, slave_id_msk, is_addr_equal}
use cr_dk.Base.{ℕ, ◌+◌, ◌≡◌, ap, true, arith, testbit, eq_of_testbit}

slave_id_msk-IsField : IsField slave_id_msk 16 3
slave_id_msk-IsField = gen_msk-IsField 18 16 (omega arith) (omega arith)

rpmh_vrm_address_msk-IsField : IsField rpmh_vrm_address_msk 4 16
rpmh_vrm_address_msk-IsField = gen_msk-IsField 19 4 (omega arith) (omega arith)

-- The digits compared hold those of the resource.
same_slave :
    (a b : ℕ)
    → get_field a rpmh_vrm_address_msk ≡ get_field b rpmh_vrm_address_msk
    → get_field a slave_id_msk ≡ get_field b slave_id_msk
same_slave a b e = eq_of_testbit _ _ λ i. ground (
  arith,
  testbit-get_field slave_id_msk-IsField a i,
  testbit-get_field slave_id_msk-IsField b i,
  testbit-get_field rpmh_vrm_address_msk-IsField a (i + 12),
  testbit-get_field rpmh_vrm_address_msk-IsField b (i + 12),
  ap (λ (t : ℕ). testbit t (i + 12)) e,
  ap (testbit a) (shift i),
  ap (testbit b) (shift i),
)
  where
    shift : (i : ℕ) → 4 + (i + 12) ≡ 16 + i
    shift i = omega arith

-- `CmdDBIsAddrEqual` is an equivalence of addresses: every address equals itself, two equal ones are so
-- in either order, and two that equal a third equal each other.
pub is_addr_equal_equivalence :
    (a b c : ℕ)
    → (is_addr_equal a a ≡ true)
      × (is_addr_equal a b ≡ true → is_addr_equal b a ≡ true)
      × (is_addr_equal a b ≡ true → is_addr_equal b c ≡ true → is_addr_equal a c ≡ true)
unfolding is_addr_equal
is_addr_equal_equivalence a b c = (
  ground arith,
  λ h. ground (arith, h, same_slave b a),
  λ h k. ground (arith, h, k, same_slave b a, same_slave c b),
)
