-- ===== src/AtomTable/Tests.antt =====
-- atomString/atom.cpp: runs of the table of atoms.
use terry.Base.{
  ℕ, ◌+◌, ◌%◌, ◌≡◌, ◌↔◌, refl, List, [], ◌∷◌, arith, length, take, replicate, Run, ok, fault, ◌>>=◌,
  Returns,
}
use terry.Base.Int.{negsuc}
use terry.AtomTable.{
  Atom, AtomTable, get_hash, hash_from, walk, atom_find, atom_length, atom_new, atom_string,
  atom_int, number_text, digits, atom_free, atom_add, find_same, push_atom, intern_in, find_equal,
}
use terry.AtomTable.Atoms.{IsIn, IsInterned, empty-IsInterned}
use terry.AtomTable.Intern.{Interned, atom_new-Interned, atom_string_unique}
use terry.AtomTable.Numbers.{IsText, atom_int-IsText}
use terry.AtomTable.Find.{Answers, atom_length-Answers}

abbrev four_buckets : AtomTable
four_buckets = record { buckets = replicate 4 []; next_address = 0 }

abbrev ab : List ℕ
ab = 97 ∷ 98 ∷ []

abbrev four_buckets-IsInterned : IsInterned four_buckets
four_buckets-IsInterned = empty-IsInterned 4 (omega arith)

-- The same string twice, and another.
twice :
    (do
      (t, p) ← atom_string ab four_buckets
      (t', q) ← atom_string (98 ∷ []) t
      (t'', r) ← atom_string ab t'
      n ← atom_length p ab t''
      ok (p ∷ q ∷ r ∷ n ∷ []))
    ≡ ok (0 ∷ 1 ∷ 0 ∷ 2 ∷ [])
unfolding get_hash hash_from atom_string atom_new intern_in find_same push_atom atom_length
    atom_find walk terry.Base.load terry.Base.store
twice = refl

minus_forty_two : number_text (negsuc 41) ≡ ok (45 ∷ 52 ∷ 50 ∷ [])
unfolding number_text digits
minus_forty_two = refl

-- A string of atomAdd is not found by atomNew.
added_twice :
    (do (t, p) ← atom_add 77 ab 2 four_buckets; (t', q) ← atom_new ab 2 t; ok (p ∷ q ∷ []))
    ≡ ok (77 ∷ 1 ∷ [])
unfolding get_hash hash_from atom_new atom_add intern_in find_same find_equal push_atom
    terry.Base.load terry.Base.store
added_twice = refl

-- An atom that is freed is gone.
freed :
    (do (t, p) ← atom_string ab four_buckets; t' ← atom_free p ab t; ok t'.buckets)
    ≡ ok (replicate 4 [])
unfolding get_hash hash_from atom_string atom_new intern_in find_same push_atom atom_free atom_find
    walk terry.Base.load terry.Base.store
freed = refl

atom_new-Interned_example : Returns (Interned (take 1 ab) four_buckets) (atom_new ab 1 four_buckets)
atom_new-Interned_example =
    atom_new-Interned ab 1 four_buckets four_buckets-IsInterned (omega arith)

atom_string_unique_example :
    Returns
      (λ (r : AtomTable × ℕ × ℕ). (r.1 ≡ r.2) ↔ (ab ≡ 98 ∷ []))
      (atom_string ab four_buckets >>= λ (t₁, p).
        atom_string (98 ∷ []) t₁ >>= λ (t₂, q). ok (t₂, p, q))
atom_string_unique_example = atom_string_unique ab (98 ∷ []) four_buckets four_buckets-IsInterned

atom_int-IsText_example :
    Returns
      (λ (r : AtomTable × ℕ).
        (a : Atom) × IsIn a r.0 × (a.address ≡ r.1) × IsText (negsuc 41) a.str)
      (atom_int (negsuc 41) four_buckets)
atom_int-IsText_example =
    atom_int-IsText (negsuc 41) four_buckets four_buckets-IsInterned (omega arith)

atom_length-Answers_example : Answers 5 ab four_buckets []
unfolding get_hash hash_from
atom_length-Answers_example = atom_length-Answers 5 ab four_buckets [] four_buckets-IsInterned refl
