-- ===== src/Cmddb/Tests.antt =====
-- A command database with two voltage regulators.
use cr_dk.Bits.{gen_msk, get_field}
use mathlib.Core.Path.{subst}
use cr_dk.Cmddb.RoundTrip.{address_by_name-name_by_address}
use cr_dk.SlotTable.{Within, find_first}
use cr_dk.Status.{ok}
use cr_dk.Cmddb.Names.{IsDatabase}
use cr_dk.Cmddb.Same.{is_addr_equal_equivalence}
use cr_dk.Cmddb.Strings.{cr_strncmp-Agree, Agree, cr_strncmp, is_zero}
use cr_dk.Cmddb.Address.{slave_id_msk, is_addr_equal}
use cr_dk.Cmddb.Search.{
  resource_searched, entry_at, find_cmddb_entry, get_entry_address_by_name,
  get_entry_name_by_address, get_aux_data_by_address,
}
use cr_dk.Cmddb.Types.{cmd_db_magic, CmdDbHeader, ResourceHeader}
use cr_dk.Cmddb.First.{Place, find_cmddb_entry-first, hits, outcome, candidates}
use cr_dk.Base.{
  ℕ, ◌%◌, ◌^◌, ◌≡◌, refl, sym, ap, ◌∙◌, ◌↔◌, ◌⊎◌, inl, inr, true, none, some, List, [], ◌∷◌, arith,
  get_or,
}

-- Two entries, `ldo1` at 0x40200 and `ldo22222` at 0x40300, and three bytes of data.
abbrev memory : List ℕ
memory =
    108 ∷ 100 ∷ 111 ∷ 49 ∷ 0 ∷ 0 ∷ 0 ∷ 0 ∷ 0 ∷ 0 ∷ 0 ∷ 0 ∷ 0 ∷ 0 ∷ 0 ∷ 0 ∷ 0 ∷ 2 ∷ 4 ∷ 0 ∷ 3 ∷ 0 ∷ 0
    ∷ 0 ∷ 108 ∷ 100 ∷ 111 ∷ 50 ∷ 50 ∷ 50 ∷ 50 ∷ 50 ∷ 0 ∷ 0 ∷ 0 ∷ 0 ∷ 0 ∷ 0 ∷ 0 ∷ 0 ∷ 0 ∷ 3 ∷ 4 ∷ 0
    ∷ 0 ∷ 0 ∷ 0 ∷ 0 ∷ 7 ∷ 8 ∷ 9 ∷ []

abbrev vrm : ResourceHeader
vrm = record { slave_id = 4; header_offset = 0; data_offset = 48; count = 2; version = 1 }

abbrev unused : ResourceHeader
unused = record { slave_id = 0; header_offset = 0; data_offset = 0; count = 9; version = 0 }

abbrev pub database : CmdDbHeader
database = record {
  db_version = 1;
  magic = cmd_db_magic;
  rsc_headers = unused ∷ vrm ∷ unused ∷ unused ∷ unused ∷ unused ∷ unused ∷ unused ∷ [];
  checksum = 0;
  bytes = λ i. get_or memory i 0 % 2 ^ 8;
}

-- The name `ldo22222`, with more behind it.
abbrev pub ldo2 : ℕ → ℕ
ldo2 i = get_or (108 ∷ 100 ∷ 111 ∷ []) i 50 % 2 ^ 8

pub found : get_entry_address_by_name (some database) (some ldo2) true ≡ ok 0x4_0300
unfolding get_entry_address_by_name
found = refl

data_of_ldo1 : get_aux_data_by_address (some database) 0x4_0200 true ≡ ok (3, 7 ∷ 8 ∷ 9 ∷ [])
unfolding get_aux_data_by_address get_field gen_msk
data_of_ldo1 = refl

abbrev place : ℕ → Place
place j = (vrm, entry_at database vrm j)

two_places :
    (p : Place)
    → Within p (candidates database 0 database.rsc_headers)
    → (p ≡ place 0) ⊎ (p ≡ place 1)
unfolding candidates resource_searched
two_places p (inl first) = inl first
two_places p (inr (inl second)) = inr second
two_places p (inr (inr none_left)) = absurd none_left

slave_of :
    (p : Place)
    → (p ≡ place 0) ⊎ (p ≡ place 1)
    → (p.0).slave_id ≡ get_field ((p.1).address) slave_id_msk
unfolding get_field gen_msk
slave_of p (inl e) =
    subst (λ (q : Place). (q.0).slave_id ≡ get_field ((q.1).address) slave_id_msk) (sym e) refl
slave_of p (inr e) =
    subst (λ (q : Place). (q.0).slave_id ≡ get_field ((q.1).address) slave_id_msk) (sym e) refl

address_of :
    (p : Place)
    → (p ≡ place 0) ⊎ (p ≡ place 1)
    → ((p.1).address ≡ 0x4_0200) ⊎ ((p.1).address ≡ 0x4_0300)
address_of p (inl e) = inl (ap (λ (q : Place). (q.1).address) e)
address_of p (inr e) = inr (ap (λ (q : Place). (q.1).address) e)

database-IsDatabase : IsDatabase database
database-IsDatabase = record {
  resource_of = λ p w. slave_of p (two_places p w);
  nonzero =
      λ p w. elim (address_of p (two_places p w)) [ inl e ↦ omega arith | inr e ↦ omega arith ];
  distinct = λ p q w v e. same p q (two_places p w) (two_places q v) e;
}
  where
    same :
        (p q : Place)
        → (p ≡ place 0) ⊎ (p ≡ place 1)
        → (q ≡ place 0) ⊎ (q ≡ place 1)
        → (p.1).address ≡ (q.1).address
        → p ≡ q
    same p q (inl e) (inl d) h = e ∙ sym d
    same p q (inr e) (inr d) h = e ∙ sym d
    same p q (inl e) (inr d) h =
        absurd (
          omega
            (arith, h, ap (λ (q : Place). (q.1).address) e, ap (λ (q : Place). (q.1).address) d))
    same p q (inr e) (inl d) h =
        absurd (
          omega
            (arith, h, ap (λ (q : Place). (q.1).address) e, ap (λ (q : Place). (q.1).address) d))

address_by_name-name_by_address_example :
    (id : ℕ → ℕ) × (get_entry_name_by_address (some database) 0x4_0300 true ≡ ok id)
    × Agree id ldo2 8 0
address_by_name-name_by_address_example =
    address_by_name-name_by_address database ldo2 0x4_0300 database-IsDatabase (λ k. omega arith)
      (λ k. omega arith) found

find_cmddb_entry-first_example :
    find_cmddb_entry (some database) 0x4_0200 none
    ≡ outcome database 0x4_0200 none (
        find_first
          (hits database 0x4_0200 none)
          (candidates database 0x4_0200 database.rsc_headers))
find_cmddb_entry-first_example = find_cmddb_entry-first database 0x4_0200 none (inl (omega arith))

cr_strncmp-Agree_example : (is_zero (cr_strncmp ldo2 ldo2 8) ≡ true) ↔ Agree ldo2 ldo2 8 0
cr_strncmp-Agree_example = cr_strncmp-Agree ldo2 ldo2 8 (λ k. omega arith) (λ k. omega arith)

is_addr_equal_equivalence_example :
    (is_addr_equal 0x4_0200 0x4_0200 ≡ true)
    × (is_addr_equal 0x4_0200 0x4_0204 ≡ true → is_addr_equal 0x4_0204 0x4_0200 ≡ true)
    × (is_addr_equal 0x4_0200 0x4_0204 ≡ true
        → is_addr_equal 0x4_0204 0x4_0208 ≡ true
        → is_addr_equal 0x4_0200 0x4_0208 ≡ true)
is_addr_equal_equivalence_example = is_addr_equal_equivalence 0x4_0200 0x4_0204 0x4_0208
