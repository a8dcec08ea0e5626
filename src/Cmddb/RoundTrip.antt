-- ===== src/Cmddb/RoundTrip.antt =====
-- From a name to its address and back: GetCmdDBEntryAddressByName and GetCmdDBEntryNameByAddress of
-- cmddb.c.
use cr_dk.SlotTable.Find.{find_first_found, find_first_sound}
use cr_dk.Cmddb.Strings.{cr_strncmp-Agree, Agree, cr_strncmp, is_zero}
use cr_dk.SlotTable.{find_first, Within}
use cr_dk.Cmddb.Names.{candidates-bytes, candidates-narrow, candidates-widen, IsDatabase}
use cr_dk.Status.{err, ok, Result}
use cr_dk.Cmddb.First.{outcome, find_cmddb_entry-first, hits, candidates, Place}
use cr_dk.Cmddb.Search.{
  find_cmddb_entry, entry_matches, get_entry_name_by_address, get_entry_address_by_name,
}
use cr_dk.Cmddb.Types.{EntryHeader, CmdDbEntry, CmdDbHeader}
use cr_dk.Base.{
  ℕ, ◌^◌, ◌<◌, ◌≡◌, refl, sym, ap, ◌∙◌, ◌≢◌, inl, inr, true, none, some, List, arith, ◌==◌, ==→eq,
  Option-cases,
}

matches-name :
    (s : ℕ → ℕ) (e : EntryHeader) → entry_matches 0 (some s) e ≡ is_zero (cr_strncmp e.id s 8)
unfolding entry_matches
matches-name s e = refl

matches-address :
    (addr : ℕ) (e : EntryHeader) → addr ≢ 0 → entry_matches addr none e ≡ (e.address == addr)
unfolding entry_matches
matches-address addr e h = ground arith

-- What the two functions make of the search's result.
abbrev to_address : Result CmdDbEntry → Result ℕ
to_address (err e) = err e
to_address (ok e) = ok e.entry_address

abbrev to_name : Result CmdDbEntry → Result (ℕ → ℕ)
to_name (err e) = err e
to_name (ok e) = ok e.name

module _ (h : CmdDbHeader) where
  abbrev pub all_places : List Place
  all_places = candidates h 0 h.rsc_headers

  address_of_search :
      (s : ℕ → ℕ) {r : Result CmdDbEntry}
      → find_cmddb_entry (some h) 0 (some s) ≡ r
      → get_entry_address_by_name (some h) (some s) true ≡ to_address r
  unfolding get_entry_address_by_name
  address_of_search s e = ap to_address e

  name_of_search :
      (addr : ℕ) {r : Result CmdDbEntry}
      → find_cmddb_entry (some h) addr none ≡ r
      → get_entry_name_by_address (some h) addr true ≡ to_name r
  unfolding get_entry_name_by_address
  name_of_search addr e = ap to_name e

  -- The address that a name is found at, and the entry behind it.
  address-place :
      (s : ℕ → ℕ) {a : ℕ}
      → get_entry_address_by_name (some h) (some s) true ≡ ok a
      → (p : Place) × ((p.1).address ≡ a)
        × Within p all_places
        × (is_zero (cr_strncmp (p.1).id s 8) ≡ true)
  address-place s {a} e =
      let test = hits h 0 (some s) in
      let search = find_cmddb_entry-first h 0 (some s) (inr (λ n. absurd (cc))) in
      elim (Option-cases (find_first test all_places)) [
        | inl nothing ↦
            absurd (cc (e, address_of_search s (search ∙ ap (outcome h 0 (some s)) nothing)))
        | inr (p, found) ↦
            let sound = find_first_sound test all_places found in
            let result = address_of_search s (search ∙ ap (outcome h 0 (some s)) found) in
            (p, ground (arith, e, result), sound.1, sym (matches-name s p.1) ∙ sound.0)
      ]

  -- An address that an entry has finds an entry, and with distinct addresses that one.
  address-name :
      IsDatabase h
      → (p : Place) → Within p all_places
      → get_entry_name_by_address (some h) ((p.1).address) true ≡ ok ((p.1).id)
  address-name db p w =
      let a = (p.1).address in
      let test = hits h a none in
      let given = db.nonzero p w in
      let search = find_cmddb_entry-first h a none (inl given) in
      let here = candidates h a h.rsc_headers in
      let there = candidates-widen h a h.rsc_headers p (db.resource_of p w) w in
      let hit : test p ≡ true = matches-address a p.1 given ∙ ground arith in
      elim (Option-cases (find_first test here)) [
        | inl nothing ↦ absurd (find_first_found test here p there hit nothing)
        | inr (q, found) ↦
            let sound = find_first_sound test here found in
            let same_address : (q.1).address ≡ a =
              ==→eq ((q.1).address) a (sym (matches-address a q.1 given) ∙ sound.0) in
            let same =
              db.distinct q p (candidates-narrow h a h.rsc_headers q sound.1) w same_address in
            name_of_search a (search ∙ ap (outcome h a none) found)
            ∙ ap (λ (r : Place). ok ((r.1).id)) same
      ]

  -- The address that `GetCmdDBEntryAddressByName` finds for a name leads `GetCmdDBEntryNameByAddress`
  -- back to that name: the eight bytes that it returns agree with it up to the name's end. In the
  -- database an entry's address names its resource, is not 0 and belongs to one entry; names are bytes.
  pub address_by_name-name_by_address :
      (s : ℕ → ℕ) (a : ℕ)
      → IsDatabase h
      → ((k : ℕ) → h.bytes k < 2 ^ 8)
      → ((k : ℕ) → s k < 2 ^ 8)
      → get_entry_address_by_name (some h) (some s) true ≡ ok a
      → (id : ℕ → ℕ) × (get_entry_name_by_address (some h) a true ≡ ok id) × Agree id s 8 0
  address_by_name-name_by_address s a db bytes chars e =
      let (p, at, w, same) = address-place s e in
      (
        (p.1).id,
        ap (λ (t : ℕ). get_entry_name_by_address (some h) t true) (sym at) ∙ address-name db p w,
        (cr_strncmp-Agree (p.1).id s 8 (candidates-bytes h 0 h.rsc_headers p bytes w) chars).0 same,
      )
