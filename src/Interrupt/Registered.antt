-- ===== src/Interrupt/Registered.antt =====
-- A handler after its registration: the interrupt that comes, and the entry that leaves again.
use cr_dk.Base.{
  ℕ, ◌<◌, ◌≡◌, refl, sym, ap, ◌∙◌, ◌≢◌, true, none, some, [], ◌∷◌, ◌++◌, arith, length,
}
use cr_dk.SlotTable.{drop_first, find_first}
use cr_dk.SlotTable.Laws.{find_first-contents}
use cr_dk.SlotTable.Find.{drop_first-append, find_first-append}
use cr_dk.Interrupt.{
  interrupt_entry, vacant, unregister_interrupt, InterruptConfig, HwTrigger, HardwareInterrupt2,
  IrqState, max_interrupt_entries, occupied, hit, translate, register_handler,
}
use cr_dk.Interrupt.Table.{
  IsValid, entries, hit_full, entry_of, register_handler-entries, register_handler-located,
  unregister_interrupt-entries,
}

module _ {S : Type 0} (gic : HardwareInterrupt2 S) where
  -- After a registration that found room, an interrupt of that number, which is not 0 and was not
  -- registered before, calls the registered handler with its parameter, and then ends the interrupt.
  pub interrupt_entry-register_handler :
      (config : InterruptConfig) (h : ℕ) (st : IrqState S) {trigger : HwTrigger}
      (call : ℕ → ℕ → IrqState S → IrqState S)
      → IsValid st
      → st.located ≡ true
      → translate config.trigger_type ≡ some trigger
      → config.interrupt_number ≢ 0
      → find_first (hit config.interrupt_number) (entries st) ≡ none
      → length (entries st) < max_interrupt_entries
      → let after = (register_handler gic config h st).1 in
        let handled = call h config.param after in
        interrupt_entry gic call config.interrupt_number after
        ≡ record handled { hw = gic.end_of_interrupt config.interrupt_number handled.hw }
  unfolding interrupt_entry
  interrupt_entry-register_handler config h st call v loc tr ne absent room = rw found refl
    where
      number : ℕ
      number = config.interrupt_number

      after : IrqState S
      after = (register_handler gic config h st).1

      ours : hit number (entry_of config h) ≡ true
      ours = ground arith

      found : find_first (hit number) after.table ≡ some (entry_of config h)
      found =
          sym (find_first-contents occupied vacant refl (hit number) (hit_full number) after.table)
          ∙ ap (find_first (hit number))
              ((register_handler-entries gic config h st loc tr v).1 room)
          ∙ find_first-append (hit number) (entries st) (entry_of config h) absent ours

  -- Unregistering a number that was not registered before a registration that found room takes that
  -- registration back: the entries are those before it.
  pub unregister_interrupt-register_handler :
      (config later : InterruptConfig) (h : ℕ) (st : IrqState S) {trigger : HwTrigger}
      → IsValid st
      → st.located ≡ true
      → translate config.trigger_type ≡ some trigger
      → later.interrupt_number ≡ config.interrupt_number
      → config.interrupt_number ≢ 0
      → find_first (hit config.interrupt_number) (entries st) ≡ none
      → length (entries st) < max_interrupt_entries
      → entries (unregister_interrupt gic later (register_handler gic config h st).1).1 ≡ entries st
  unregister_interrupt-register_handler config later h st v loc tr same nonzero absent room =
      (unregister_interrupt-entries gic later after still valid).1 (λ e. cc (sym e ∙ found))
      ∙ ap (λ t. drop_first (hit t) (entries after)) same
      ∙ ap (drop_first (hit number)) added
      ∙ drop_first-append (hit number) (entries st) (entry_of config h) absent ours
    where
      number : ℕ
      number = config.interrupt_number

      after : IrqState S
      after = (register_handler gic config h st).1

      ours : hit number (entry_of config h) ≡ true
      ours = ground arith

      valid : IsValid after
      valid = (register_handler-entries gic config h st loc tr v).0

      added : entries after ≡ entries st ++ (entry_of config h ∷ [])
      added = (register_handler-entries gic config h st loc tr v).1 room

      still : after.located ≡ true
      still = register_handler-located gic config h st loc tr

      found : find_first (hit later.interrupt_number) (entries after) ≡ some (entry_of config h)
      found =
          ap (λ t. find_first (hit t) (entries after)) same
          ∙ ap (find_first (hit number)) added
          ∙ find_first-append (hit number) (entries st) (entry_of config h) absent ours
