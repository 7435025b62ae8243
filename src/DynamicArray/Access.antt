-- ===== src/DynamicArray/Access.antt =====
-- dymanicArray/dArray.cpp: reading, writing, searching and clearing.
use terry.Base.{
  ℕ, zero, suc, ◌+◌, ◌-◌, ◌≤◌, ◌<◌, ◌^◌, ◌≡◌, refl, ap, inl, inr, Bool, false, some, none, List, [],
  ◌∷◌, arith, leb, ◌==◌, if◌then◌else◌, Option, length, get_elem?, set, take, drop, length-take,
  length-set, get_elem?-take, get_elem?-inside, ok, fault, or_fault, load, load-ok, store, store-ok,
  Returns, returns, Returns-map, sub64, u64_mod, Bool-cases, Option-cases, ==_refl, lt→ltb,
}
use terry.DynamicArray.{
  DArray, succeed, d_insert, d_get_by_index, d_set_by_index, find_from, d_find,
}
use terry.DynamicArray.View.{contents, IsValid, get_elem?-insert_at}
use terry.DynamicArray.Insert.{d_insert_correct}

-- What dFind should return on a list that is counted from `i`.
abbrev pub first_match {ℓ} : {A : Type ℓ} → (A → Bool) → ℕ → List A → Option ℕ
first_match comp i [] = none
first_match comp i (x ∷ xs) = if comp x then some i else first_match comp (i + 1) xs

-- `(size_t)-1` stands for none.
abbrev pub index_or_max : Option ℕ → ℕ
index_or_max none = u64_mod - 1
index_or_max (some i) = i

find_end : ℕ → Option ℕ → ℕ
find_end n none = n
find_end n (some i) = i

module _ {ℓ} {A : Type ℓ} where
  take-set : (n i : ℕ) (xs : List A) (v : A) → take n (set xs i v) ≡ set (take n xs) i v
  take-set zero i xs v = refl
  take-set (suc n) i [] v = refl
  take-set (suc n) zero (x ∷ xs) v = refl
  take-set (suc n) (suc i) (x ∷ xs) v = ap (◌∷◌ x) (take-set n i xs v)

  drop-cons :
      (i : ℕ) (xs : List A) (x : A) → get_elem? xs i ≡ some x → drop i xs ≡ x ∷ drop (suc i) xs
  drop-cons i [] x h = cc
  drop-cons zero (y ∷ xs) x h = cc
  drop-cons (suc i) (y ∷ xs) x h = drop-cons i xs x h

module _ {A : Type 0} where
  first_match-lt :
      (comp : A → Bool) (i : ℕ) (xs : List A) {k : ℕ}
      → first_match comp i xs ≡ some k
      → k < i + length xs
  first_match-lt comp i [] h = cc
  first_match-lt comp i (x ∷ xs) {k} h = elim (Bool-cases (comp x)) [
    | inl hit ↦ ground arith
    | inr miss ↦ let ih = first_match-lt comp (i + 1) xs {k = k} (rw miss at h) in omega arith
  ]

module _ {A : Type 0} where
  -- Reading the index of an element gives the element; any other index fails the assertion.
  pub d_get_by_index_correct :
      (index : ℕ) (d : DArray A)
      → IsValid d
      → d_get_by_index index d ≡ or_fault (get_elem? (contents d) index)
  unfolding d_get_by_index load
  d_get_by_index_correct index d w = ground (arith, get_elem?-take d.m_size d.p_base index)

  -- An element that dInsert puts in at an index within the array is read back there.
  pub d_get_by_index-d_insert :
      (index : ℕ) (v : A) (d : DArray A)
      → IsValid d
      → d.m_length < 2 ^ 63
      → index ≤ d.m_size
      → Returns (λ r. d_get_by_index index r.0 ≡ ok (some v)) (d_insert index v d)
  d_get_by_index-d_insert index v d w h inside = Returns-map (d_insert_correct index v d w h) λ r s.
      rw (d_get_by_index_correct index r.0 s.valid, s.view)
        (ground (
          arith,
          w.fits,
          w.cells,
          length-take d.m_size d.p_base,
          get_elem?-insert_at index (some v) (contents d) index,
        ))

  -- On a well-formed array that is not empty, dSetByIndex below `m_length` returns SUCCEED and
  -- overwrites the element at the index, or the last one if the index lies past the elements.
  pub d_set_by_index_correct :
      (index : ℕ) (v : A) (d : DArray A)
      → IsValid d
      → d.m_length < u64_mod
      → index < d.m_length
      → 0 < d.m_size
      → Returns
          (λ r.
            (r.1 ≡ succeed)
            × IsValid r.0
            × (contents r.0
                ≡ set (contents d) (if leb d.m_size index then d.m_size - 1 else index) (some v)))
          (d_set_by_index index v d)
  unfolding d_set_by_index
  d_set_by_index_correct index v d w bound inside some_element =
      let written : (i : ℕ)
          → i < d.m_size
          → store d.p_base i (some v) ≡ ok (set d.p_base i (some v)) =
        λ i h. store-ok d.p_base i (some v) (omega (arith, w.cells, w.fits)) in
      elim (Bool-cases (leb d.m_size index)) [
        | inl past ↦
            let last : sub64 d.m_size 1 ≡ d.m_size - 1 = omega (arith, w.fits) in
            rw (lt→ltb _ _ inside, past, last, written (d.m_size - 1) (omega arith))
              (returns
                (refl, kept (d.m_size - 1), take-set d.m_size (d.m_size - 1) d.p_base (some v)))
        | inr within ↦
            rw (lt→ltb _ _ inside, within, written index (ground arith))
              (returns (refl, kept index, take-set d.m_size index d.p_base (some v)))
      ]
    where
      kept : (i : ℕ) → IsValid (record d { p_base = set d.p_base i (some v) })
      kept i = record {
        cells = omega (arith, length-set d.p_base i (some v), w.cells);
        fits = w.fits;
      }

  -- On an empty array dSetByIndex writes at the position -1, outside of the memory.
  pub d_set_by_index-empty :
      (index : ℕ) (v : A) (d : DArray A)
      → IsValid d
      → d.m_length < u64_mod
      → d.m_size ≡ 0
      → d_set_by_index index v d ≡ fault
  unfolding d_set_by_index store
  d_set_by_index-empty index v d w bound empty = ground (arith, w.cells)

  find_from-first_match :
      (comp : Option A → Bool) (n i : ℕ) (a : List (Option A))
      → i + n ≤ length a
      → find_from comp n i a ≡ ok (find_end (i + n) (first_match comp i (take n (drop i a))))
  unfolding find_from find_end
  find_from-first_match comp zero i a h = ground arith
  find_from-first_match comp (suc n) i a h =
      let (x, e) = get_elem?-inside a i (omega arith) in
      let ih = find_from-first_match comp n (i + 1) a (omega arith) in
      let next : i + 1 + n ≡ i + suc n = omega arith in
      let here : i + 1 ≡ suc i = omega arith in
      rw (load-ok a i e, drop-cons i a x e)
        (elim (Bool-cases (comp x)) [ inl hit ↦ rw hit | inr miss ↦ rw (miss, ih, next, here) ])

  -- On a well-formed array dFind returns the index of the first element that satisfies the
  -- comparison, and `(size_t)-1` if there is none.
  pub d_find_correct :
      (comp : Option A → Bool) (d : DArray A)
      → IsValid d
      → d.m_length < u64_mod
      → d_find comp d ≡ ok (index_or_max (first_match comp 0 (contents d)))
  unfolding d_find find_end
  d_find_correct comp d w bound =
      let loop = find_from-first_match comp d.m_size 0 d.p_base (omega (arith, w.cells, w.fits)) in
      let start : 0 + d.m_size ≡ d.m_size = omega arith in
      rw (loop, start)
        (elim (Option-cases (first_match comp 0 (contents d))) [
          | inl nowhere ↦ rw (nowhere, ==_refl)
          | inr (k, found) ↦
              let below = first_match-lt comp 0 (contents d) {k = k} found in
              let other : (k == d.m_size) ≡ false = ground (arith, length-take d.m_size d.p_base) in
              rw (found, other)
        ])
