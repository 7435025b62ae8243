-- ===== src/AtomTable/Intern.antt =====
-- atomString/atom.cpp: equal strings have one atom, and atomNew keeps it so.
use terry.Base.{
  ℕ, ◌≡◌, ◌≢◌, ◌↔◌, ◌≤◌, ◌<◌, ◌⊎◌, inl, inr, refl, sym, ap, ◌∙◌, true, none, some, List, ◌∷◌, ltb,
  leb, arith, length, take, get_elem?, get_elem?-inside, length-set, length-take, take-all, ok,
  ◌>>=◌, load-ok, store-ok, Returns, returns, Returns-bind, Option-cases, lt→ltb,
}
use native.Mathlib.Nat.{mod-lt}
use terry.AtomTable.{
  Atom, AtomTable, intern_in, atom_string, find_same, index_of, push_atom, atom_new, get_hash,
}
use terry.AtomTable.Atoms.{
  IsAt, IsIn, IsInterned, find_same_sound, find_same_complete, pushed, some_inj, pushed_atoms,
  pushed_new, pushed_kept,
}

-- What a call of atomNew leaves, and the address that it returns.
pub record Interned (bytes : List ℕ) (t : AtomTable) (result : AtomTable × ℕ) : Type 0 where
  pub interned : IsInterned result.0
  pub atom : Atom
  pub known : IsIn atom result.0
  pub string : atom.str ≡ bytes
  pub at_address : atom.address ≡ result.1
  pub kept : (a : Atom) → IsIn a t → IsIn a result.0
  pub nothing_else : (a : Atom) → IsIn a result.0 → IsIn a t ⊎ (a ≡ atom)

module _ (t : AtomTable) (c : IsInterned t) (bytes : List ℕ) (chain : List Atom)
    (here : get_elem? t.buckets (index_of bytes t) ≡ some chain) where
  -- The atom that atomNew makes.
  abbrev fresh : Atom
  fresh = record {
    cell = t.next_address;
    address = t.next_address;
    hash_value = get_hash bytes;
    len = length bytes;
    str = bytes;
  }

  abbrev grown : AtomTable
  grown = pushed fresh (index_of bytes t) chain t

  same_count : length grown.buckets ≡ length t.buckets
  same_count = length-set t.buckets (index_of bytes t) (fresh ∷ chain)

  inside_table : index_of bytes t < length t.buckets
  inside_table = mod-lt (get_hash bytes) c.ready

  old_atoms :
      (a : Atom) (k : ℕ) → IsAt a k grown → ((a ≡ fresh) × (k ≡ index_of bytes t)) ⊎ IsAt a k t
  old_atoms a k = pushed_atoms fresh (index_of bytes t) chain t here inside_table a k

  no_string : find_same (get_hash bytes) bytes chain ≡ none → (a : Atom) → IsIn a t → a.str ≢ bytes
  no_string h a (i, at) = λ same.
      let bucket : i ≡ index_of bytes t = c.placed a i at ∙ ap (λ s. index_of s t) same in
      let whole : at.chain ≡ chain =
        some_inj (sym at.bucket ∙ ap (λ k. get_elem? t.buckets k) bucket ∙ here) in
      let entry : get_elem? chain at.place ≡ some a = rw (← whole) at.entry in
      find_same_complete bytes chain at.place a entry same (c.sized a (i, at)) (c.hashed a (i, at))
        h

  not_new : (a : Atom) → IsIn a t → a.address ≢ t.next_address
  not_new a known = λ same. omega (arith, c.old a known)

  grown-IsInterned : find_same (get_hash bytes) bytes chain ≡ none → IsInterned grown
  grown-IsInterned h = record {
    ready = omega (arith, same_count, c.ready);
    sized =
        λ a (i, at). elim (old_atoms a i at) [ inl (e, _) ↦ rw e refl | inr o ↦ c.sized a (i, o) ];
    hashed =
        λ a (i, at). elim (old_atoms a i at) [ inl (e, _) ↦ rw e refl | inr o ↦ c.hashed a (i, o) ];
    placed = λ a i at. elim (old_atoms a i at) [
      | inl (e, k) ↦ rw (same_count, e) k
      | inr o ↦ rw same_count (c.placed a i o)
    ];
    old = λ a (i, at). elim (old_atoms a i at) [
      | inl (e, _) ↦ rw e (omega arith)
      | inr o ↦ omega (arith, c.old a (i, o))
    ];
    one_string = λ a b (i, at) (j, bt) same. elim (old_atoms a i at) [
      | inl (e, _) ↦ elim (old_atoms b j bt) [
        | inl (e', _) ↦ e ∙ sym e'
        | inr o ↦ absurd (no_string h b (j, o) (sym same ∙ ap (λ (x : Atom). x.str) e))
      ]
      | inr o ↦ elim (old_atoms b j bt) [
        | inl (e', _) ↦ absurd (no_string h a (i, o) (same ∙ ap (λ (x : Atom). x.str) e'))
        | inr o' ↦ c.one_string a b (i, o) (j, o') same
      ]
    ];
    one_address = λ a b (i, at) (j, bt) same. elim (old_atoms a i at) [
      | inl (e, _) ↦ elim (old_atoms b j bt) [
        | inl (e', _) ↦ e ∙ sym e'
        | inr o ↦ absurd (not_new b (j, o) (sym same ∙ ap (λ (x : Atom). x.address) e))
      ]
      | inr o ↦ elim (old_atoms b j bt) [
        | inl (e', _) ↦ absurd (not_new a (i, o) (same ∙ ap (λ (x : Atom). x.address) e'))
        | inr o' ↦ c.one_address a b (i, o) (j, o') same
      ]
    ];
  }

  intern_in-Interned :
      (len : ℕ) → len ≡ length bytes → Returns (Interned bytes t) (intern_in bytes len chain t)
  unfolding intern_in push_atom
  intern_in-Interned len size = elim (Option-cases (find_same (get_hash bytes) bytes chain)) [
    | inr (a, found) ↦
        let (j, entry, string) = find_same_sound (get_hash bytes) bytes chain found in
        let known : IsIn a t =
          (index_of bytes t, record { chain = chain; place = j; bucket = here; entry = entry }) in
        rw (found, intern_in)
          (returns (record {
            interned = c;
            atom = a;
            known = known;
            string = string;
            at_address = refl;
            kept = λ b b_in. b_in;
            nothing_else = λ b b_in. inl b_in;
          }))
    | inl lost ↦
        let room = store-ok t.buckets (index_of bytes t) (fresh ∷ chain) inside_table in
        rw (lost, intern_in, size, room)
          (returns (record {
            interned = grown-IsInterned lost;
            atom = fresh;
            known = (index_of bytes t, pushed_new fresh (index_of bytes t) chain t inside_table);
            string = refl;
            at_address = refl;
            kept = λ b (i, at).
                (i, pushed_kept fresh (index_of bytes t) chain t here inside_table b i at);
            nothing_else =
                λ b (i, at). elim (old_atoms b i at) [ inl (e, _) ↦ inr e | inr o ↦ inl (i, o) ];
          }))
  ]

-- For a table in which every atom is what atomNew makes of its string, and a string with at least `len`
-- bytes: atomNew returns, the table is as before or has one atom more, it is of that kind again, and the
-- address returned is that of the atom of the first `len` bytes.
pub atom_new-Interned :
    (str : List ℕ) (len : ℕ) (t : AtomTable)
    → IsInterned t
    → len ≤ length str
    → Returns (Interned (take len str) t) (atom_new str len t)
unfolding atom_new
atom_new-Interned str len t c fits =
    let bytes = take len str in
    let size : len ≡ length bytes = sym (length-take len str ∙ omega (arith, fits)) in
    let is_ready : ltb 0 (length t.buckets) ≡ true = lt→ltb 0 (length t.buckets) c.ready in
    let enough : leb len (length str) ≡ true = ground arith in
    let (chain, here) =
      get_elem?-inside t.buckets (index_of bytes t) (mod-lt (get_hash bytes) c.ready) in
    rw (is_ready, enough, load-ok t.buckets (index_of bytes t) here)
      (intern_in-Interned t c bytes chain here len size)

-- For such a table and two strings: after both have been interned, their addresses are equal exactly
-- if the strings are.
pub atom_string_unique :
    (left right : List ℕ) (t : AtomTable)
    → IsInterned t
    → Returns
        (λ (r : AtomTable × ℕ × ℕ). (r.1 ≡ r.2) ↔ (left ≡ right))
        (atom_string left t >>= λ (t₁, p). atom_string right t₁ >>= λ (t₂, q). ok (t₂, p, q))
unfolding atom_string
atom_string_unique left right t c =
    Returns-bind (atom_new-Interned left (length left) t c (omega arith)) (λ first l.
      Returns-bind (atom_new-Interned right (length right) first.0 l.interned (omega arith))
        (λ second r.
          let a_in = r.kept l.atom l.known in
          let left_is : l.atom.str ≡ left = l.string ∙ take-all (length left) left (omega arith) in
          let right_is : r.atom.str ≡ right =
            r.string ∙ take-all (length right) right (omega arith) in
          returns (
            (λ same.
                let atoms =
                  r.interned.one_address l.atom r.atom a_in r.known
                    (l.at_address ∙ same ∙ sym r.at_address) in
                sym left_is ∙ ap (λ (x : Atom). x.str) atoms ∙ right_is),
            (λ same.
                let atoms =
                  r.interned.one_string l.atom r.atom a_in r.known
                    (left_is ∙ same ∙ sym right_is) in
                sym l.at_address ∙ ap (λ (x : Atom). x.address) atoms ∙ r.at_address),
          )))
