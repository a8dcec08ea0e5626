-- ===== src/Cmddb/First.antt =====
-- What FindCmdDBEntry of cmddb.c finds: the first match in the list of the entries that it may look
-- at.
use cr_dk.Status.{ok, Status, err, Result}
use cr_dk.SlotTable.Find.{find_first-hit, find_first-miss}
use cr_dk.SlotTable.{find_first}
use cr_dk.Cmddb.Search.{
  find_cmddb_entry, found_entry, entry_at, resource_searched, entry_matches, search_resources,
  search_resource,
}
use cr_dk.Cmddb.Types.{EntryHeader, CmdDbHeader, ResourceHeader, CmdDbEntry}
use cr_dk.Base.{
  ℕ, zero, suc, ◌+◌, ◌≡◌, refl, ◌≢◌, ◌⊎◌, inl, inr, Bool, true, false, not, ◌&&◌, Option, none,
  some, List, [], ◌∷◌, ◌++◌, arith, ◌==◌, if◌then◌else◌, Bool-cases, Option-cases,
}
use mathlib.Core.Option

abbrev pub Place : Type 0
Place = ResourceHeader × EntryHeader

-- The entries of a resource.
unfoldable pub entries_from : CmdDbHeader → ResourceHeader → ℕ → ℕ → List Place
entries_from h r zero j = []
entries_from h r (suc n) j = (r, entry_at h r j) ∷ entries_from h r n (j + 1)

-- The entries of the resources that an address names, or of all valid ones without an address.
unfoldable pub candidates : CmdDbHeader → ℕ → List ResourceHeader → List Place
unfolding entries_from
candidates h addr [] = []
candidates h addr (r ∷ rs) =
    let rest = candidates h addr rs in
    if resource_searched addr r then entries_from h r r.count 0 ++ rest else rest

abbrev pub found_at : Place → CmdDbEntry
found_at p = found_entry p.0 p.1

module _ (h : CmdDbHeader) (addr : ℕ) (wanted : Option (ℕ → ℕ)) where
  abbrev pub hits : Place → Bool
  hits p = entry_matches addr wanted p.1

  search_resource_lem :
      (r : ResourceHeader) (n j : ℕ)
      → search_resource h addr wanted r n j
        ≡ Option.map found_at (find_first hits (entries_from h r n j))
  unfolding search_resource entries_from find_first
  search_resource_lem r zero j = refl
  search_resource_lem r (suc n) j = elim (Bool-cases (entry_matches addr wanted (entry_at h r j))) [
    | inl hit ↦ rw hit refl
    | inr miss ↦ rw miss (search_resource_lem r n (j + 1))
  ]

  search_resources_lem :
      (rs : List ResourceHeader)
      → search_resources h addr wanted rs
        ≡ Option.map found_at (find_first hits (candidates h addr rs))
  unfolding search_resources candidates find_first
  search_resources_lem [] = refl
  search_resources_lem (r ∷ rs) = elim (Bool-cases (resource_searched addr r)) [
    | inr skipped ↦ rw skipped (search_resources_lem rs)
    | inl searched ↦
        let here = search_resource_lem r r.count 0 in
        elim (Option-cases (find_first hits (entries_from h r r.count 0))) [
          | inl nothing ↦ ground (
            arith,
            searched,
            here,
            nothing,
            search_resources_lem rs,
            find_first-miss hits (entries_from h r r.count 0) (candidates h addr rs) nothing,
          )
          | inr (p, found) ↦ ground (
            arith,
            searched,
            here,
            found,
            find_first-hit hits (entries_from h r r.count 0) (candidates h addr rs) found,
          )
        ]
  ]

  -- What the function returns for the entry that is found.
  abbrev pub outcome : Option Place → Result CmdDbEntry
  outcome none = err Status.not_found
  outcome (some p) = ok (found_at p)

  -- With an address or a name to look for, `FindCmdDBEntry` returns the first entry that matches in the
  -- list of the entries of the resources that it may look at, and CR_NOT_FOUND if none does.
  pub find_cmddb_entry-first :
      (addr ≢ 0) ⊎ (wanted ≢ none)
      → find_cmddb_entry (some h) addr wanted
        ≡ outcome (find_first hits (candidates h addr h.rsc_headers))
  unfolding find_cmddb_entry
  find_cmddb_entry-first given =
      elim (Option-cases (find_first hits (candidates h addr h.rsc_headers))) [
        | inl nothing ↦ ground (arith, guard given, search_resources_lem h.rsc_headers, nothing)
        | inr (p, found) ↦ ground (arith, guard given, search_resources_lem h.rsc_headers, found)
      ]
    where
      name_given : Bool
      name_given = elim wanted [ none ↦ false | some s ↦ true ]

      guard : (addr ≢ 0) ⊎ (wanted ≢ none) → ((addr == 0) && not name_given) ≡ false
      guard (inl address) = ground arith
      guard (inr name) = elim (Option-cases wanted) [
        | inl missing ↦ absurd (name missing)
        | inr (s, there) ↦ ground (arith, there)
      ]
