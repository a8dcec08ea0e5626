-- ===== src/Memmap/Tests.antt =====
-- The rounding of oskmemmap.c.
use cr_dk.Memmap.{align_to_4kb, align_to_4kb-next}
use cr_dk.Base.{◌+◌, ◌%◌, ◌≤◌, ◌<◌, ◌≡◌, arith}

align_to_4kb-next_example :
    (align_to_4kb 0x1f_0001 % 0x1000 ≡ 0)
    × (0x1f_0001 ≤ align_to_4kb 0x1f_0001)
    × (align_to_4kb 0x1f_0001 < 0x1f_0001 + 0x1000)
align_to_4kb-next_example = align_to_4kb-next 0x1f_0001 (omega arith)
