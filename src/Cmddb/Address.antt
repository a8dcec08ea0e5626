-- ===== src/Cmddb/Address.antt =====
-- Resource addresses of the command database, from Include/Library/cmddb.h.
use cr_dk.Base.{ℕ, Bool, ◌&&◌, ◌||◌, ◌==◌}
use cr_dk.Bits.{gen_msk, get_field}

abbrev pub slave_id_msk : ℕ
slave_id_msk = gen_msk 18 16

abbrev pub rpmh_vrm_address_msk : ℕ
rpmh_vrm_address_msk = gen_msk 19 4

abbrev pub rsc_slave_hw_vrm : ℕ
rsc_slave_hw_vrm = 4

-- `CmdDBIsAddrEqual`: two addresses of one voltage regulator differ in their low digits.
unfoldable pub is_addr_equal : ℕ → ℕ → Bool
is_addr_equal addr1 addr2 =
    addr1 == addr2
    || (get_field addr1 slave_id_msk == rsc_slave_hw_vrm
        && get_field addr2 rpmh_vrm_address_msk == get_field addr1 rpmh_vrm_address_msk)
