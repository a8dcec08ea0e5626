-- ===== src/Interrupt.antt =====
-- Library/OskInterruptLib/oskinterrupt.c with Include/oskal/cr_interrupt.h, the build for UEFI.
-- The firmware's HardwareInterrupt2 protocol is a parameter. A handler is the address of a function,
-- `none` for NULL.
pub mod Table
pub mod Registered
mod Tests
use cr_dk.Base.{
  ℕ, ◌≡◌, Bool, true, false, not, ◌&&◌, ◌||◌, Option, none, some, List, [], ◌∷◌, ◌==◌,
  if◌then◌else◌, replicate,
}
use cr_dk.Status.{Status, cr_error}
use cr_dk.Mmio.{M, pure, ◌>>=◌}
use cr_dk.SlotTable

pub data TriggerType : Type 0 where
  level_low level_high edge_falling edge_rising edge_both invalid : TriggerType

pub record Entry : Type 0 where
  pub handler : Option ℕ
  pub param : ℕ
  pub source : ℕ

pub record InterruptConfig : Type 0 where
  pub param : ℕ
  pub handler : Option ℕ
  pub interrupt_number : ℕ
  pub trigger_type : TriggerType

-- The trigger types of the protocol.
pub data HwTrigger : Type 0 where
  hw_level_low hw_level_high hw_edge_falling hw_edge_rising : HwTrigger

pub record HardwareInterrupt2 (S : Type 0) : Type 0 where
  pub locate : S → Bool
  pub register_source : ℕ → M S Status
  pub set_trigger_type : ℕ → HwTrigger → M S Status
  pub enable_source : ℕ → M S Status
  pub disable_source : ℕ → M S Status
  pub end_of_interrupt : ℕ → S → S

abbrev pub max_interrupt_entries : ℕ
max_interrupt_entries = 16

-- `mCrIntTable`, whether `mHwInterrupt2` is set, and the hardware.
pub record IrqState (S : Type 0) : Type 0 where
  pub table : List Entry
  pub located : Bool
  pub hw : S

abbrev pub vacant : Entry
vacant = record { handler = none; param = 0; source = 0 }

abbrev pub occupied : Entry → Bool
occupied e = elim e.handler [ none ↦ false | some h ↦ true ]

-- The entry that an interrupt number is looked up by; number 0 finds none.
abbrev pub hit : ℕ → Entry → Bool
hit number e = (e.source == number) && not (number == 0) && occupied e

unfoldable pub translate : TriggerType → Option HwTrigger
translate TriggerType.level_low = some HwTrigger.hw_level_low
translate TriggerType.level_high = some HwTrigger.hw_level_high
translate TriggerType.edge_falling = some HwTrigger.hw_edge_falling
translate TriggerType.edge_rising = some HwTrigger.hw_edge_rising
translate TriggerType.edge_both = some HwTrigger.hw_edge_rising
translate TriggerType.invalid = none

-- The second step runs only if the first reports no error.
abbrev pub checked : {S : Type 0} → M S Status → M S Status → M S Status
checked m k = do status ← m; if cr_error status then pure status else k

-- Lines of `CrUnregisterInterrupt`: the entry is cleared, and those behind it move forward.
unfoldable pub release_entry : ℕ → List Entry → Option (List Entry)
release_entry number = SlotTable.release occupied vacant (hit number)

-- Lines of `CrRegisterInterrupt`: the first slot whose handler is NULL takes the entry.
unfoldable pub claim_entry : Entry → List Entry → Option (List Entry)
claim_entry e = SlotTable.claim occupied e

abbrev pub initial : {S : Type 0} → S → IrqState S
initial s = record { table = replicate max_interrupt_entries vacant; located = false; hw = s }

abbrev pub on_hw : {S A : Type 0} → M S A → M (IrqState S) A
on_hw m st = let (a, s) = m st.hw in (a, record st { hw = s })

module _ {S : Type 0} (gic : HardwareInterrupt2 S) where
  -- `CrInterruptInit`, called while `mHwInterrupt2` is NULL. The assertion that fails when the protocol is
  -- not found is left out: a build without assertions goes on to return CR_NOT_FOUND, and one with them
  -- stops there.
  unfoldable pub interrupt_init : M (IrqState S) Status
  interrupt_init st =
      if gic.locate st.hw
      then (Status.success, record st { located = true })
      else (Status.not_found, st)

  abbrev pub ensure_located : M (IrqState S) Status
  ensure_located st = if st.located then (Status.success, st) else interrupt_init st

  unfoldable pub unregister_interrupt : InterruptConfig → M (IrqState S) Status
  unfolding interrupt_init release_entry
  unregister_interrupt config = checked ensure_located λ st.
      elim (release_entry config.interrupt_number st.table) [
        | none ↦ (Status.not_found, st)
        | some rest ↦
            on_hw (gic.disable_source config.interrupt_number) (record st { table = rest })
      ]

  -- The three calls of the protocol that follow the choice of a slot.
  unfoldable pub connect_source : ℕ → HwTrigger → M S Status
  connect_source number trigger =
      checked (gic.register_source number)
        (checked (gic.set_trigger_type number trigger) (gic.enable_source number))

  unfoldable pub register_handler : InterruptConfig → ℕ → M (IrqState S) Status
  unfolding interrupt_init translate claim_entry connect_source
  register_handler config handler = checked ensure_located λ st.
      elim (translate config.trigger_type) [
        | none ↦ (Status.invalid_parameter, st)
        | some trigger ↦
            elim (claim_entry
              (record {
                handler = some handler;
                param = config.param;
                source = config.interrupt_number;
              })
              st.table) [
                | none ↦ (Status.out_of_resources, st)
                | some t ↦
                    on_hw (connect_source config.interrupt_number trigger) (record st { table = t })
              ]
      ]

  -- `CrRegisterInterrupt`; a NULL handler unregisters.
  unfoldable pub register_interrupt : InterruptConfig → M (IrqState S) Status
  unfolding register_handler unregister_interrupt
  register_interrupt config = elim config.handler [
    | none ↦ unregister_interrupt config
    | some handler ↦ register_handler config handler
  ]

  -- `CrInternalInterruptEntry`. `call` is what a handler does when it is called with its parameter.
  unfoldable pub interrupt_entry : (ℕ → ℕ → IrqState S → IrqState S) → ℕ → IrqState S → IrqState S
  interrupt_entry call source st =
      let after : IrqState S = elim (SlotTable.find_first (hit source) st.table) [
        | none ↦ st
        | some e ↦ elim e.handler [ none ↦ st | some h ↦ call h e.param st ]
      ] in
      record after { hw = gic.end_of_interrupt source after.hw }
