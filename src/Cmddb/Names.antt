-- ===== src/Cmddb/Names.antt =====
-- Which entries FindCmdDBEntry of cmddb.c may look at for an address, in a database whose addresses
-- name their resources.
use mathlib.Core.Path.{subst}
use cr_dk.Cmddb.Address.{slave_id_msk}
use cr_dk.Cmddb.Search.{resource_searched}
use cr_dk.Bits.{get_field}
use cr_dk.Cmddb.Types.{entry_header_size, ResourceHeader, CmdDbHeader}
use cr_dk.SlotTable.{Within}
use cr_dk.Cmddb.First.{Place, candidates, entries_from}
use cr_dk.Base.{
  ◌*◌, ◌^◌, ◌<◌, ℕ, zero, suc, ◌+◌, ◌≡◌, refl, sym, ap, ◌∙◌, ◌≢◌, ◌⊎◌, inl, inr, true, false, List,
  [], ◌∷◌, ◌++◌, arith, Bool-cases,
}

-- What the library relies on in a database: an entry's address names the resource that it stands in,
-- is not 0, and belongs to one entry.
pub record IsDatabase (h : CmdDbHeader) : Type 0 where
  pub resource_of :
      (p : Place)
      → Within p (candidates h 0 h.rsc_headers)
      → (p.0).slave_id ≡ get_field ((p.1).address) slave_id_msk
  pub nonzero : (p : Place) → Within p (candidates h 0 h.rsc_headers) → (p.1).address ≢ 0
  pub distinct :
      (p q : Place)
      → Within p (candidates h 0 h.rsc_headers)
      → Within q (candidates h 0 h.rsc_headers)
      → (p.1).address ≡ (q.1).address
      → p ≡ q

Within-append_cases :
    {A : Type 0} (e : A) (xs ys : List A) → Within e (xs ++ ys) → Within e xs ⊎ Within e ys
Within-append_cases e [] ys w = inr w
Within-append_cases e (x ∷ xs) ys (inl same) = inl (inl same)
Within-append_cases e (x ∷ xs) ys (inr w) = elim (Within-append_cases e xs ys w) [
  | inl left ↦ inl (inr left)
  | inr right ↦ inr right
]

Within-append_left : {A : Type 0} (e : A) (xs ys : List A) → Within e xs → Within e (xs ++ ys)
Within-append_left e [] ys w = absurd w
Within-append_left e (x ∷ xs) ys (inl same) = inl same
Within-append_left e (x ∷ xs) ys (inr w) = inr (Within-append_left e xs ys w)

Within-append_right : {A : Type 0} (e : A) (xs ys : List A) → Within e ys → Within e (xs ++ ys)
Within-append_right e [] ys w = w
Within-append_right e (x ∷ xs) ys w = inr (Within-append_right e xs ys w)

entries_from-resource :
    (h : CmdDbHeader) (r : ResourceHeader) (n j : ℕ) (p : Place)
    → Within p (entries_from h r n j)
    → p.0 ≡ r
unfolding entries_from
entries_from-resource h r zero j p w = absurd w
entries_from-resource h r (suc n) j p (inl same) = ap (λ (q : Place). q.0) same
entries_from-resource h r (suc n) j p (inr w) = entries_from-resource h r n (j + 1) p w

module _ (h : CmdDbHeader) (addr : ℕ) (r : ResourceHeader) (rs : List ResourceHeader)
    (p : Place) where
  candidates-searched :
      resource_searched addr r ≡ true
      → candidates h addr (r ∷ rs) ≡ entries_from h r r.count 0 ++ candidates h addr rs
  unfolding candidates
  candidates-searched e = rw e refl

  candidates-skipped :
      resource_searched addr r ≡ false → candidates h addr (r ∷ rs) ≡ candidates h addr rs
  unfolding candidates
  candidates-skipped e = rw e refl

  -- A candidate stands in the first resource, which is searched, or behind it.
  candidates-cases :
      Within p (candidates h addr (r ∷ rs))
      → ((resource_searched addr r ≡ true) × Within p (entries_from h r r.count 0))
        ⊎ Within p (candidates h addr rs)
  candidates-cases w = elim (Bool-cases (resource_searched addr r)) [
    | inr skipped ↦ inr (subst (Within p) (candidates-skipped skipped) w)
    | inl searched ↦
        elim (Within-append_cases p (entries_from h r r.count 0) (candidates h addr rs)
          (subst (Within p) (candidates-searched searched) w)) [
            | inl here ↦ inl (searched, here)
            | inr behind ↦ inr behind
          ]
  ]

  candidates-here :
      resource_searched addr r ≡ true
      → Within p (entries_from h r r.count 0)
      → Within p (candidates h addr (r ∷ rs))
  candidates-here searched w =
      subst (Within p) (sym (candidates-searched searched))
        (Within-append_left p (entries_from h r r.count 0) (candidates h addr rs) w)

  candidates-behind : Within p (candidates h addr rs) → Within p (candidates h addr (r ∷ rs))
  candidates-behind w = elim (Bool-cases (resource_searched addr r)) [
    | inr skipped ↦ subst (Within p) (sym (candidates-skipped skipped)) w
    | inl searched ↦
        subst (Within p) (sym (candidates-searched searched))
          (Within-append_right p (entries_from h r r.count 0) (candidates h addr rs) w)
  ]

-- Any address narrows the candidates down to those of the resources that it names.
pub candidates-narrow :
    (h : CmdDbHeader) (addr : ℕ) (rs : List ResourceHeader) (p : Place)
    → Within p (candidates h addr rs)
    → Within p (candidates h 0 rs)
unfolding candidates resource_searched
candidates-narrow h addr [] p w = w
candidates-narrow h addr (r ∷ rs) p w = elim (candidates-cases h addr r rs p w) [
  | inl (searched, here) ↦ candidates-here h 0 r rs p (ground (arith, searched)) here
  | inr behind ↦ candidates-behind h 0 r rs p (candidates-narrow h addr rs p behind)
]

pub candidates-widen :
    (h : CmdDbHeader) (addr : ℕ) (rs : List ResourceHeader) (p : Place)
    → (p.0).slave_id ≡ get_field addr slave_id_msk
    → Within p (candidates h 0 rs)
    → Within p (candidates h addr rs)
unfolding candidates resource_searched
candidates-widen h addr [] p named w = w
candidates-widen h addr (r ∷ rs) p named w = elim (candidates-cases h 0 r rs p w) [
  | inr behind ↦ candidates-behind h addr r rs p (candidates-widen h addr rs p named behind)
  | inl (searched, here) ↦
      let same : r.slave_id ≡ get_field addr slave_id_msk =
        ap (λ (q : ResourceHeader). q.slave_id) (sym (entries_from-resource h r r.count 0 p here))
        ∙ named in
      candidates-here h addr r rs p (ground (arith, searched, same)) here
]

entries_from-bytes :
    (h : CmdDbHeader) (r : ResourceHeader) (n j : ℕ) (p : Place)
    → ((k : ℕ) → h.bytes k < 2 ^ 8)
    → Within p (entries_from h r n j)
    → (k : ℕ) → (p.1).id k < 2 ^ 8
unfolding entries_from
entries_from-bytes h r zero j p b w k = absurd w
entries_from-bytes h r (suc n) j p b (inl same) k =
    subst (λ (q : Place). (q.1).id k < 2 ^ 8) (sym same)
      (b (r.header_offset + j * entry_header_size + k))
entries_from-bytes h r (suc n) j p b (inr w) k = entries_from-bytes h r n (j + 1) p b w k

-- The names of the entries are bytes if the database is.
pub candidates-bytes :
    (h : CmdDbHeader) (addr : ℕ) (rs : List ResourceHeader) (p : Place)
    → ((k : ℕ) → h.bytes k < 2 ^ 8)
    → Within p (candidates h addr rs)
    → (k : ℕ) → (p.1).id k < 2 ^ 8
unfolding candidates
candidates-bytes h addr [] p b w k = absurd w
candidates-bytes h addr (r ∷ rs) p b w k = elim (candidates-cases h addr r rs p w) [
  | inl (searched, here) ↦ entries_from-bytes h r r.count 0 p b here k
  | inr behind ↦ candidates-bytes h addr rs p b behind k
]
