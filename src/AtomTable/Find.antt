-- ===== src/AtomTable/Find.antt =====
-- atomString/atom.cpp: the atom that atomFind answers, and with it atomLength.
use terry.Base.{
  ℕ, zero, suc, ◌≡◌, ◌≢◌, ◌<◌, inl, inr, refl, sym, ap, ◌∙◌, true, false, some, List, [], ◌∷◌, ltb,
  ◌==◌, if◌then◌else◌, arith, length, get_elem?, ok, fault, load-ok, Bool-cases, ==_iff, lt→ltb,
}
use terry.AtomTable.{Atom, AtomTable, walk, atom_find, atom_length, index_of}
use terry.AtomTable.Atoms.{IsIn, IsInterned, some_inj}

-- The last atom of a bucket with the head `a`.
abbrev pub last_of : Atom → List Atom → Atom
last_of a [] = a
last_of a (b ∷ chain) = last_of b chain

-- No atom of a bucket has its string at the address.
abbrev pub IsUnknown : ℕ → List Atom → Type 0
IsUnknown str chain = (j : ℕ) (a : Atom) → get_elem? chain j ≡ some a → a.address ≢ str

-- What atomFind answers for a bucket with the head `a`.
abbrev pub found : ℕ → Atom → List Atom → Atom
found str a chain = if a.address == str then a else (walk str a chain).1

walk-unknown :
    (str : ℕ) (a : Atom) (chain : List Atom)
    → IsUnknown str chain
    → (walk str a chain).1 ≡ last_of a chain
unfolding walk
walk-unknown str a [] h = refl
walk-unknown str a (b ∷ chain) h = elim (Bool-cases (b.address == str)) [
  | inl same ↦ absurd (h 0 b refl ((==_iff b.address str).0 same))
  | inr other ↦ rw other (walk-unknown str b chain (λ j. h (suc j)))
]

found-unknown :
    (str : ℕ) (a : Atom) (chain : List Atom)
    → IsUnknown str (a ∷ chain)
    → found str a chain ≡ last_of a chain
found-unknown str a chain h = elim (Bool-cases (a.address == str)) [
  | inl same ↦ absurd (h 0 a refl ((==_iff a.address str).0 same))
  | inr other ↦ rw other (walk-unknown str a chain (λ j. h (suc j)))
]

-- The loop ends at an atom of the bucket, which has the address if one has it.
record IsFound (str : ℕ) (chain : List Atom) (result : Atom) : Type 0 where
  place : ℕ
  entry : get_elem? chain place ≡ some result
  address : result.address ≡ str

walk-IsFound :
    (str : ℕ) (a : Atom) (chain : List Atom) (j : ℕ) (b : Atom)
    → get_elem? chain j ≡ some b
    → b.address ≡ str
    → IsFound str (a ∷ chain) (walk str a chain).1
unfolding walk
walk-IsFound str a [] j b at e = cc
walk-IsFound str a (c ∷ chain) zero b at e =
    let same : c ≡ b = some_inj at in
    let hit : (c.address == str) ≡ true =
      (==_iff c.address str).1 (ap (λ (x : Atom). x.address) same ∙ e) in
    rw hit (record { place = 1; entry = refl; address = (==_iff c.address str).0 hit })
walk-IsFound str a (c ∷ chain) (suc j) b at e = elim (Bool-cases (c.address == str)) [
  | inl same ↦ rw same (record { place = 1; entry = refl; address = (==_iff c.address str).0 same })
  | inr other ↦
      let f = walk-IsFound str c chain j b at e in
      rw other (record { place = suc f.place; entry = f.entry; address = f.address })
]

found-IsFound :
    (str : ℕ) (a : Atom) (chain : List Atom) (j : ℕ) (b : Atom)
    → get_elem? (a ∷ chain) j ≡ some b
    → b.address ≡ str
    → IsFound str (a ∷ chain) (found str a chain)
found-IsFound str a chain j b at e = elim (Bool-cases (a.address == str)) [
  | inl same ↦ rw same (record { place = 0; entry = refl; address = (==_iff a.address str).0 same })
  | inr other ↦ rw other (later j other at)
]
  where
    later :
        (j : ℕ)
        → (a.address == str) ≡ false
        → get_elem? (a ∷ chain) j ≡ some b
        → IsFound str (a ∷ chain) (walk str a chain).1
    later zero other at =
        let same : a ≡ b = some_inj at in
        let addresses : a.address ≡ str = ap (λ (x : Atom). x.address) same ∙ e in
        absurd (ground arith)
    later (suc j) other at = walk-IsFound str a chain j b at e

length_in :
    (str : ℕ) (bytes : List ℕ) (t : AtomTable) (a : Atom) (chain : List Atom)
    → 0 < length t.buckets
    → get_elem? t.buckets (index_of bytes t) ≡ some (a ∷ chain)
    → atom_length str bytes t ≡ ok (found str a chain).len
unfolding atom_length atom_find
length_in str bytes t a chain ready here =
    let is_ready : ltb 0 (length t.buckets) ≡ true = lt→ltb 0 (length t.buckets) ready in
    elim (Bool-cases (a.address == str)) [
      | inl same ↦ rw (is_ready, load-ok t.buckets (index_of bytes t) here, same) refl
      | inr other ↦ rw (is_ready, load-ok t.buckets (index_of bytes t) here, other) refl
    ]

length_empty :
    (str : ℕ) (bytes : List ℕ) (t : AtomTable)
    → get_elem? t.buckets (index_of bytes t) ≡ some []
    → 0 < length t.buckets
    → atom_length str bytes t ≡ fault
unfolding atom_length atom_find
length_empty str bytes t here ready =
    let is_ready : ltb 0 (length t.buckets) ≡ true = lt→ltb 0 (length t.buckets) ready in
    rw (is_ready, load-ok t.buckets (index_of bytes t) here) refl

-- The answers of atomLength for an address, where the bucket of the string is `chain`.
pub record Answers (str : ℕ) (bytes : List ℕ) (t : AtomTable) (chain : List Atom) : Type 0 where
  pub known :
      (b : Atom) → IsIn b t → b.str ≡ bytes → b.address ≡ str → atom_length str bytes t ≡ ok b.len
  pub unknown :
      (a : Atom) (rest : List Atom)
      → chain ≡ a ∷ rest
      → IsUnknown str chain
      → atom_length str bytes t ≡ ok (last_of a rest).len
  pub empty : chain ≡ [] → atom_length str bytes t ≡ fault

length_known :
    (str : ℕ) (bytes : List ℕ) (t : AtomTable) (chain : List Atom)
    → IsInterned t
    → get_elem? t.buckets (index_of bytes t) ≡ some chain
    → (b : Atom) → IsIn b t
    → b.str ≡ bytes
    → b.address ≡ str
    → atom_length str bytes t ≡ ok b.len
length_known str bytes t [] c here b (i, at) string e =
    let bucket : i ≡ index_of bytes t = c.placed b i at ∙ ap (λ s. index_of s t) string in
    let whole : at.chain ≡ [] =
      some_inj (sym at.bucket ∙ ap (λ k. get_elem? t.buckets k) bucket ∙ here) in
    let entry : get_elem? [] at.place ≡ some b =
      ap (λ l. get_elem? l at.place) (sym whole) ∙ at.entry in
    cc
length_known str bytes t (a ∷ chain) c here b (i, at) string e =
    let bucket : i ≡ index_of bytes t = c.placed b i at ∙ ap (λ s. index_of s t) string in
    let whole : at.chain ≡ a ∷ chain =
      some_inj (sym at.bucket ∙ ap (λ k. get_elem? t.buckets k) bucket ∙ here) in
    let entry : get_elem? (a ∷ chain) at.place ≡ some b =
      ap (λ l. get_elem? l at.place) (sym whole) ∙ at.entry in
    let f = found-IsFound str a chain at.place b entry e in
    let known : IsIn (found str a chain) t = (
      index_of bytes t,
      record { chain = a ∷ chain; place = f.place; bucket = here; entry = f.entry },
    ) in
    let same : found str a chain ≡ b =
      c.one_address (found str a chain) b known (i, at) (f.address ∙ sym e) in
    length_in str bytes t a chain c.ready here ∙ ap (λ (x : Atom). ok x.len) same

-- For a table in which every atom is what atomNew makes of its string, an address and the bytes there:
-- atomLength answers the length of the atom that has the string and the address, the length of the
-- last atom of the bucket where no atom of it has the address, and reads a null pointer where the
-- bucket has no atom.
pub atom_length-Answers :
    (str : ℕ) (bytes : List ℕ) (t : AtomTable) (chain : List Atom)
    → IsInterned t
    → get_elem? t.buckets (index_of bytes t) ≡ some chain
    → Answers str bytes t chain
atom_length-Answers str bytes t chain c here = record {
  known = length_known str bytes t chain c here;
  unknown = λ a rest shape h.
      length_in str bytes t a rest c.ready (here ∙ ap some shape)
      ∙ ap (λ (x : Atom). ok x.len) (found-unknown str a rest (rw (← shape) h));
  empty = λ none_there. length_empty str bytes t (here ∙ ap some none_there) c.ready;
}
