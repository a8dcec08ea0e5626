-- ===== src/Interrupt/Tests.antt =====
-- The interrupt table on a controller that accepts every call and counts the interrupts it ended.
use cr_dk.Base.{
  ℕ, ◌+◌, ◌<◌, ◌≡◌, refl, ◌≢◌, true, none, some, [], ◌∷◌, ◌++◌, arith, length, replicate,
}
use cr_dk.Status.{Status}
use cr_dk.Interrupt.{
  interrupt_entry, hit, vacant, register_interrupt, InterruptConfig, TriggerType,
  HardwareInterrupt2, IrqState, initial,
}
use cr_dk.Interrupt.{register_interrupt, unregister_interrupt, register_handler, translate}
use cr_dk.SlotTable.{drop_first, find_first, contents, release, claim}
use cr_dk.Interrupt.Table.{
  unregister_interrupt-entries, IsValid, entries, entry_of, register_handler-entries,
  register_interrupt-IsValid,
}
use cr_dk.Interrupt.Registered.{
  interrupt_entry-register_handler, unregister_interrupt-register_handler,
}

abbrev quiet : HardwareInterrupt2 ℕ
quiet = record {
  locate = λ s. true;
  register_source = λ n s. (Status.success, s);
  set_trigger_type = λ n t s. (Status.success, s);
  enable_source = λ n s. (Status.success, s);
  disable_source = λ n s. (Status.success, s);
  end_of_interrupt = λ n s. s + 1;
}

abbrev start : IrqState ℕ
start = record (initial 0) { located = true }

abbrev uart : InterruptConfig
uart = record {
  param = 7;
  handler = some 100;
  interrupt_number = 42;
  trigger_type = TriggerType.edge_both;
}

abbrev rpmh : InterruptConfig
rpmh = record {
  param = 8;
  handler = some 200;
  interrupt_number = 43;
  trigger_type = TriggerType.level_high;
}

-- A handler that leaves a trace in the count.
abbrev call : ℕ → ℕ → IrqState ℕ → IrqState ℕ
call h param st = record st { hw = st.hw + h + param }

start-IsValid : IsValid start
unfolding contents
start-IsValid = record { compact = ground arith; slots = refl }

abbrev busy : IrqState ℕ
busy = record start { table = entry_of uart 100 ∷ replicate 15 vacant }

busy-IsValid : IsValid busy
unfolding contents
busy-IsValid = record { compact = ground arith; slots = refl }

two_registered :
    entries
      (unregister_interrupt quiet uart
        (register_interrupt quiet rpmh (register_interrupt quiet uart (initial 0)).1).1).1
    ≡ entry_of rpmh 200 ∷ []
unfolding register_interrupt contents release claim
two_registered = refl

register_interrupt-IsValid_example :
    IsValid (register_interrupt quiet uart start).1
    × IsValid (unregister_interrupt quiet uart start).1
register_interrupt-IsValid_example = register_interrupt-IsValid quiet uart start start-IsValid

register_handler-entries_example :
    let after = register_handler quiet uart 100 start in
    IsValid after.1
    × (length (entries start) < 16 → entries after.1 ≡ entries start ++ (entry_of uart 100 ∷ []))
    × (length (entries start) ≡ 16 → after ≡ (Status.out_of_resources, start))
unfolding translate
register_handler-entries_example =
    register_handler-entries quiet uart 100 start refl refl start-IsValid

unregister_interrupt-entries_example :
    let after = unregister_interrupt quiet uart busy in
    IsValid after.1
    × (find_first (hit 42) (entries busy) ≢ none
        → entries after.1 ≡ drop_first (hit 42) (entries busy))
    × (find_first (hit 42) (entries busy) ≡ none → after ≡ (Status.not_found, busy))
unregister_interrupt-entries_example =
    unregister_interrupt-entries quiet uart busy refl busy-IsValid

interrupt_entry-register_handler_example :
    let after = (register_handler quiet rpmh 200 busy).1 in
    interrupt_entry quiet call 43 after ≡ record after { hw = after.hw + 200 + 8 + 1 }
unfolding translate find_first contents
interrupt_entry-register_handler_example =
    interrupt_entry-register_handler quiet rpmh 200 busy call busy-IsValid refl refl (omega arith)
      refl (omega arith)

unregister_interrupt-register_handler_example :
    entries (unregister_interrupt quiet rpmh (register_handler quiet rpmh 200 busy).1).1
    ≡ entries busy
unfolding translate find_first contents
unregister_interrupt-register_handler_example =
    unregister_interrupt-register_handler quiet rpmh rpmh 200 busy busy-IsValid refl refl refl
      (omega arith) refl (omega arith)
