-- ===== src/Driver/Clocks.antt =====
-- Driver/ClockCrDxe/ClockCrDxe.c: the driver that sets up the clocks and takes their registers out of
-- the memory map again.
use cr_dk.Clock.Lookup.{clock_lib_init, clock_deinit}
use cr_dk.Clock.Types.{ClockController}
use cr_dk.Memmap.{DxeServices}
use cr_dk.Status.{Status, cr_error}
use cr_dk.Mmio.{M, pure, ◌>>=◌}
use cr_dk.Base.{true, Option, none, some, List, [], if◌then◌else◌}

-- The end of `ClockEntryPoint`: the status of `ClockDeinit` is dropped.
unfoldable pub unmap_at_end :
    {S : Type 0} → DxeServices S → List ClockController → M S (Status × List ClockController)
unfolding clock_deinit
unmap_at_end dxe controllers = do
  unmapped ← clock_deinit dxe (some controllers)
  pure (Status.success, unmapped.1)

-- `ClockEntryPoint`: the status and the controllers at the end. `located` is the status of locating the
-- power manager's protocol, and the target gives `target` and `target_init`.
unfoldable pub clock_entry_point :
    {S : Type 0}
    → DxeServices S
    → Status
    → (List ClockController → M S Status)
    → Option (List ClockController)
    → M S Status
    → M S (Status × List ClockController)
unfolding clock_lib_init unmap_at_end
clock_entry_point dxe located target_init target install =
    if cr_error located
    then pure (located, elim target [ none ↦ [] | some cs ↦ cs ])
    else clock_lib_init dxe target_init true target >>= λ set_up.
        if cr_error set_up.0
        then pure (Status.device_error, set_up.1)
        else install >>= λ installed.
            if cr_error installed then pure (installed, set_up.1) else unmap_at_end dxe set_up.1
