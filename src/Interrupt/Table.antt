-- ===== src/Interrupt/Table.antt =====
-- The table of oskinterrupt.c as the list of the registered entries.
use cr_dk.Base.{
  ℕ, ◌<◌, ◌≡◌, refl, sym, ap, ◌∙◌, ◌≢◌, inl, inr, true, false, none, some, List, [], ◌∷◌, ◌++◌,
  arith, Bool-cases, Option-cases, length,
}
use cr_dk.Status.{Status}
use cr_dk.SlotTable.{drop_first, find_first, claim, release, contents}
use cr_dk.SlotTable.Laws.{release-cases, IsCompact, claim-cases}
use cr_dk.Interrupt.{
  register_interrupt, vacant, release_entry, unregister_interrupt, Entry, InterruptConfig,
  HwTrigger, HardwareInterrupt2, IrqState, max_interrupt_entries, occupied, hit, translate, on_hw,
  claim_entry, connect_source, register_handler,
}

-- No entry stands behind a free slot, and the table has all its slots.
pub record IsValid {S : Type 0} (st : IrqState S) : Type 0 where
  pub compact : IsCompact occupied st.table
  pub slots : length st.table ≡ max_interrupt_entries

abbrev pub entries : {S : Type 0} → IrqState S → List Entry
entries st = contents occupied st.table

pub hit_full : (number : ℕ) (e : Entry) → hit number e ≡ true → occupied e ≡ true
hit_full number e h = ground arith

abbrev pub entry_of : InterruptConfig → ℕ → Entry
entry_of config h = record {
  handler = some h;
  param = config.param;
  source = config.interrupt_number;
}

module _ {S : Type 0} (gic : HardwareInterrupt2 S) where
  module _ (config : InterruptConfig) (h : ℕ) (st : IrqState S) {trigger : HwTrigger}
      (loc : st.located ≡ true) (tr : translate config.trigger_type ≡ some trigger) where
    register_handler-some :
        (t : List Entry)
        → claim occupied (entry_of config h) st.table ≡ some t
        → register_handler gic config h st
          ≡ on_hw (connect_source gic config.interrupt_number trigger) (record st { table = t })
    unfolding register_handler claim_entry
    register_handler-some t found = ground arith

    register_handler-none :
        claim occupied (entry_of config h) st.table ≡ none
        → register_handler gic config h st ≡ (Status.out_of_resources, st)
    unfolding register_handler claim_entry
    register_handler-none full = ground arith

    pub register_handler-located : (register_handler gic config h st).1.located ≡ true
    unfolding register_handler
    register_handler-located = ground arith

    -- On a located controller a handler is added behind the entries, or the table is full and nothing
    -- changes; the table stays well formed.
    pub register_handler-entries :
        IsValid st
        → let after = register_handler gic config h st in
          IsValid after.1
          × (length (entries st) < max_interrupt_entries
              → entries after.1 ≡ entries st ++ (entry_of config h ∷ []))
          × (length (entries st) ≡ max_interrupt_entries → after ≡ (Status.out_of_resources, st))
    register_handler-entries v =
        elim (claim-cases occupied (entry_of config h) st.table refl v.compact) [
          | inl (t, found, added, room) ↦ rw (register_handler-some t found) (
            record { compact = added.0; slots = added.2 ∙ v.slots },
            λ _. added.1,
            λ full. absurd (omega (arith, v.slots)),
          )
          | inr (found, full) ↦
              rw (register_handler-none found)
                (v, λ room. absurd (omega (arith, v.slots)), λ _. refl)
        ]

  module _ (config : InterruptConfig) (st : IrqState S) (loc : st.located ≡ true) where
    unregister_interrupt-some :
        (t : List Entry)
        → release occupied vacant (hit config.interrupt_number) st.table ≡ some t
        → unregister_interrupt gic config st
          ≡ on_hw (gic.disable_source config.interrupt_number) (record st { table = t })
    unfolding unregister_interrupt release_entry
    unregister_interrupt-some t found = ground arith

    unregister_interrupt-none :
        release occupied vacant (hit config.interrupt_number) st.table ≡ none
        → unregister_interrupt gic config st ≡ (Status.not_found, st)
    unfolding unregister_interrupt release_entry
    unregister_interrupt-none missing = ground arith

    -- On a located controller the first entry of the number leaves and the others keep their order,
    -- or there is none and nothing changes; the table stays well formed.
    pub unregister_interrupt-entries :
        IsValid st
        → let after = unregister_interrupt gic config st in
          let is_ours = hit config.interrupt_number in
          IsValid after.1
          × (find_first is_ours (entries st) ≢ none
              → entries after.1 ≡ drop_first is_ours (entries st))
          × (find_first is_ours (entries st) ≡ none → after ≡ (Status.not_found, st))
    unregister_interrupt-entries v =
        elim (release-cases occupied vacant refl (hit config.interrupt_number)
          (hit_full config.interrupt_number) st.table v.compact) [
            | inl (t, found, removed, present) ↦ rw (unregister_interrupt-some t found) (
              record { compact = removed.0; slots = removed.2 ∙ v.slots },
              λ _. removed.1,
              λ absent. absurd (present absent),
            )
            | inr (missing, absent) ↦
                rw (unregister_interrupt-none missing)
                  (v, λ present. absurd (present absent), λ _. refl)
          ]

  -- Until the protocol is found nothing is registered; finding it comes first.
  unlocated :
      (config : InterruptConfig) (h : ℕ) (st : IrqState S)
      → st.located ≡ false
      → let there = record st { located = true } in
        (gic.locate st.hw ≡ false
          → (register_handler gic config h st ≡ (Status.not_found, st))
            × (unregister_interrupt gic config st ≡ (Status.not_found, st)))
        × (gic.locate st.hw ≡ true
            → (register_handler gic config h st ≡ register_handler gic config h there)
              × (unregister_interrupt gic config st ≡ unregister_interrupt gic config there))
  unfolding register_handler unregister_interrupt
  unlocated config h st loc =
      (λ missing. (ground arith, ground arith), λ found. (ground arith, ground arith))

  untranslated :
      (config : InterruptConfig) (h : ℕ) (st : IrqState S)
      → st.located ≡ true
      → translate config.trigger_type ≡ none
      → register_handler gic config h st ≡ (Status.invalid_parameter, st)
  unfolding register_handler
  untranslated config h st loc bad = ground arith

  located_register-IsValid :
      (config : InterruptConfig) (h : ℕ) (st : IrqState S)
      → st.located ≡ true
      → IsValid st
      → IsValid (register_handler gic config h st).1
  located_register-IsValid config h st loc v = elim (Option-cases (translate config.trigger_type)) [
    | inl bad ↦ rw (untranslated config h st loc bad) v
    | inr (trigger, tr) ↦ (register_handler-entries config h st loc tr v).0
  ]

  -- A registration that succeeds has put its handler behind the entries.
  register_handler-success :
      (config : InterruptConfig) (h : ℕ) (st : IrqState S)
      → st.located ≡ true
      → IsValid st
      → (register_handler gic config h st).0 ≡ Status.success
      → entries (register_handler gic config h st).1 ≡ entries st ++ (entry_of config h ∷ [])
  register_handler-success config h st loc v ok =
      elim (Option-cases (translate config.trigger_type)) [
        | inl bad ↦
            absurd
              (cc (ok, ap (λ (a : Status × IrqState S). a.0) (untranslated config h st loc bad)))
        | inr (trigger, tr) ↦
            elim (claim-cases occupied (entry_of config h) st.table refl v.compact) [
              | inl (t, found, added, room) ↦
                  (register_handler-entries config h st loc tr v).1 (omega (arith, room, v.slots))
              | inr (found, full) ↦ absurd (
                  cc (
                    ok,
                    ap (λ (a : Status × IrqState S). a.0)
                        (register_handler-none config h st loc tr found),
                  ))
            ]
      ]

  -- The same, whether or not the controller was located before.
  pub register_interrupt-success :
      (config : InterruptConfig) (h : ℕ) (st : IrqState S)
      → IsValid st
      → config.handler ≡ some h
      → (register_interrupt gic config st).0 ≡ Status.success
      → entries (register_interrupt gic config st).1 ≡ entries st ++ (entry_of config h ∷ [])
  unfolding register_interrupt
  register_interrupt-success config h st v given = rw given λ ok. elim (Bool-cases st.located) [
    | inl loc ↦ register_handler-success config h st loc v ok
    | inr unl ↦ elim (Bool-cases (gic.locate st.hw)) [
      | inl found ↦
          let same = ((unlocated config h st unl).1 found).0 in
          ap (λ (a : Status × IrqState S). entries a.1) same
          ∙ register_handler-success config h (record st { located = true }) refl
              (record { compact = v.compact; slots = v.slots })
              (sym (ap (λ (a : Status × IrqState S). a.0) same) ∙ ok)
      | inr missing ↦ absurd (
          cc
            (ok, ap (λ (a : Status × IrqState S). a.0) (((unlocated config h st unl).0 missing).0)))
    ]
  ]

  register_handler-IsValid :
      (config : InterruptConfig) (h : ℕ) (st : IrqState S)
      → IsValid st
      → IsValid (register_handler gic config h st).1
  register_handler-IsValid config h st v = elim (Bool-cases st.located) [
    | inl loc ↦ located_register-IsValid config h st loc v
    | inr unl ↦ elim (Bool-cases (gic.locate st.hw)) [
      | inl found ↦ rw (((unlocated config h st unl).1 found).0) (
          located_register-IsValid config h (record st { located = true }) refl
            (record { compact = v.compact; slots = v.slots }))
      | inr missing ↦ rw (((unlocated config h st unl).0 missing).0) v
    ]
  ]

  unregister_interrupt-IsValid :
      (config : InterruptConfig) (st : IrqState S)
      → IsValid st
      → IsValid (unregister_interrupt gic config st).1
  unregister_interrupt-IsValid config st v = elim (Bool-cases st.located) [
    | inl loc ↦ (unregister_interrupt-entries config st loc v).0
    | inr unl ↦ elim (Bool-cases (gic.locate st.hw)) [
      | inl found ↦
          rw (((unlocated config 0 st unl).1 found).1)
            (unregister_interrupt-entries config (record st { located = true }) refl
              (record { compact = v.compact; slots = v.slots })).0
      | inr missing ↦ rw (((unlocated config 0 st unl).0 missing).1) v
    ]
  ]

  -- Every call of `CrRegisterInterrupt` and `CrUnregisterInterrupt`, with any configuration and
  -- whatever the controller answers, keeps the table well formed.
  pub register_interrupt-IsValid :
      (config : InterruptConfig) (st : IrqState S)
      → IsValid st
      → IsValid (register_interrupt gic config st).1
        × IsValid (unregister_interrupt gic config st).1
  unfolding register_interrupt
  register_interrupt-IsValid config st v = (
    elim (Option-cases config.handler) [
      | inl null ↦ rw null (unregister_interrupt-IsValid config st v)
      | inr (h, some_handler) ↦ rw some_handler (register_handler-IsValid config h st v)
    ],
    unregister_interrupt-IsValid config st v,
  )
