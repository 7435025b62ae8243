-- ===== src/DynamicArray/Insert.antt =====
-- dymanicArray/dArray.cpp: dExpand, dInsert, dPrepend and dAppend.
use terry.Base.{
  ℕ, ◌+◌, ◌-◌, ◌*◌, ◌≤◌, ◌<◌, ◌^◌, ◌≡◌, refl, sym, ◌∙◌, ◌⊎◌, inl, inr, some, none, List, [], ◌∷◌,
  ◌++◌, arith, ltb, leb, ◌==◌, if◌then◌else◌, Option, length, get_elem?, set, take, drop, replicate,
  length-append, length-take, length-drop, length-replicate, length-set, get_elem?-set,
  get_elem?-take, eq_of_get_elem?, ok, store-ok, Returns, returns, Returns-bind, Returns-map,
  Returns-if, sub64,
}
use terry.DynamicArray.{
  DArray, Ret, succeed, need_expand, expanded_length, d_expand, place, d_insert, d_append,
  d_prepend,
}
use terry.DynamicArray.Moves.{IsShiftedUp, shift_up-IsShiftedUp, memcpy-ok}
use terry.DynamicArray.View.{
  contents, IsValid, insert_at, get_elem?-insert_at, insert_at-past, insert_at-length, take_append,
}

expanded_length_bounds :
    (n : ℕ) → n < 2 ^ 63 → (n + 4 ≤ expanded_length n) × (2 * expanded_length n ≤ 3 * n + 32)
unfolding expanded_length
expanded_length_bounds n h = ground arith

module _ {A : Type 0} where
  -- The same elements in a memory with at least four cells to spare.
  pub record IsRoomy (d e : DArray A) : Type 0 where
    pub valid : IsValid e
    pub same : contents e ≡ contents d
    pub size : e.m_size ≡ d.m_size
    pub spare : d.m_size + 4 ≤ e.m_length
    pub grown : d.m_length ≤ e.m_length
    pub capped : (e.m_length ≡ d.m_length) ⊎ (2 * e.m_length ≤ 3 * d.m_size + 44)

  pub d_expand-IsRoomy :
      (d : DArray A)
      → IsValid d
      → d.m_length < 2 ^ 63
      → d.m_length ≤ d.m_size + 4
      → Returns (IsRoomy d) (d_expand d)
  unfolding d_expand
  d_expand-IsRoomy d v h tight =
      let n = expanded_length d.m_length in
      let (grows, limited) = expanded_length_bounds d.m_length h in
      let blank : Option A = none in
      let cleared = replicate n blank in
      let size = length-replicate n blank in
      rw
        (memcpy-ok cleared d.p_base d.m_size (omega (arith, v.cells, v.fits))
          (omega (arith, size, v.fits)))
        (returns (record {
          valid = record {
            cells = omega (
              arith,
              length-append (take d.m_size d.p_base) (drop d.m_size cleared),
              length-take d.m_size d.p_base,
              length-drop d.m_size cleared,
              size,
              v.cells,
              v.fits,
            );
            fits = omega (arith, v.fits);
          };
          same = take_append d.m_size d.p_base _ (omega (arith, v.cells, v.fits));
          size = refl;
          spare = omega (arith, v.fits);
          grown = omega arith;
          capped = inr (omega arith);
        }))

  pub record IsPlaced (index : ℕ) (v : A) (e : DArray A) (b : List (Option A)) : Type 0 where
    pub size : length b ≡ length e.p_base
    pub view : take (e.m_size + 1) b ≡ insert_at index (some v) (contents e)

  -- Cells that hold the elements with `v` at `i` stand for the list with `v` put in there.
  placed_view :
      (i n : ℕ) (v : A) (a b : List (Option A))
      → i ≤ n
      → n ≤ length a
      → ((j : ℕ)
          → j ≤ n
          → get_elem? b j ≡ (
              if ltb j i
              then get_elem? a j
              else if j == i
              then some (some v)
              else get_elem? a (j - 1)))
      → take (n + 1) b ≡ insert_at i (some v) (take n a)
  placed_view i n v a b h k cells = eq_of_get_elem? _ _ λ j. ground (
    arith,
    cells j,
    length-take n a,
    get_elem?-take (n + 1) b j,
    get_elem?-take n a j,
    get_elem?-take n a (j - 1),
    get_elem?-insert_at i (some v) (take n a) j,
  )

  place_end-IsPlaced :
      (index : ℕ) (v : A) (e : DArray A)
      → IsValid e
      → e.m_size < e.m_length
      → e.m_size ≤ index
      → IsPlaced index v e (set e.p_base e.m_size (some v))
  place_end-IsPlaced index v e w spare past =
      let full : length (contents e) ≡ e.m_size =
        omega (arith, length-take e.m_size e.p_base, w.cells) in
      record {
        size = length-set e.p_base e.m_size (some v);
        view =
            placed_view e.m_size e.m_size v e.p_base _ (omega arith) (omega (arith, w.cells))
              (λ j h. ground (arith, get_elem?-set e.p_base e.m_size j (some v), w.cells))
            ∙ rw full at (sym (insert_at-past index (some v) (contents e) (omega arith)));
      }

  place_inside-IsPlaced :
      (index : ℕ) (v : A) (e : DArray A) (r : ℕ × List (Option A))
      → IsValid e
      → e.m_size < e.m_length
      → index < e.m_size
      → IsShiftedUp index e.m_size e.p_base r
      → IsPlaced index v e (set r.1 r.0 (some v))
  place_inside-IsPlaced index v e r w spare inside s = record {
    size = omega (arith, length-set r.1 r.0 (some v), s.size);
    view = placed_view index e.m_size v e.p_base _ (omega arith) (omega (arith, w.cells)) λ j h.
        ground (arith, s.final, s.size, s.cells j, get_elem?-set r.1 r.0 j (some v), w.cells);
  }

  place-IsPlaced :
      (index : ℕ) (v : A) (e : DArray A)
      → IsValid e
      → e.m_size < e.m_length
      → Returns (IsPlaced index v e) (place index v e)
  unfolding place
  place-IsPlaced index v e w spare =
      Returns-if (leb e.m_size index)
        (λ past.
          rw (store-ok e.p_base e.m_size (some v) (omega (arith, w.cells)))
            (returns (place_end-IsPlaced index v e w spare (ground arith))))
        (λ inside.
          Returns-bind
            (shift_up-IsShiftedUp e.m_size index e.p_base (ground arith) (omega (arith, w.cells)))
            λ r s.
              rw (store-ok r.1 r.0 (some v) (ground (arith, s.final, s.size, w.cells)))
                (returns (place_inside-IsPlaced index v e r w spare (ground arith) s)))

  -- What dInsert leaves: the list with the new element, and a cell to spare.
  pub record IsInserted (index : ℕ) (v : A) (d : DArray A) (r : DArray A × Ret) : Type 0 where
    pub status : r.1 ≡ succeed
    pub valid : IsValid r.0
    pub view : contents r.0 ≡ insert_at index (some v) (contents d)
    pub size : r.0.m_size ≡ d.m_size + 1
    pub spare : r.0.m_size < r.0.m_length
    pub grown : d.m_length ≤ r.0.m_length
    pub capped : (r.0.m_length ≡ d.m_length) ⊎ (2 * r.0.m_length ≤ 3 * d.m_size + 44)

  room-IsRoomy :
      (d : DArray A)
      → IsValid d
      → d.m_length < 2 ^ 63
      → Returns (IsRoomy d) (if need_expand d then d_expand d else ok d)
  unfolding need_expand
  room-IsRoomy d v h =
      Returns-if (leb (sub64 d.m_length d.m_size) 4)
        (λ tight. d_expand-IsRoomy d v h (ground (arith, v.fits)))
        (λ wide. returns (record {
          valid = v;
          same = refl;
          size = refl;
          spare = ground (arith, v.fits);
          grown = omega arith;
          capped = inl refl;
        }))

  -- On a well-formed array of fewer than 2^63 cells dInsert returns SUCCEED; the array stays
  -- well-formed, and its elements are the former ones with the new one put in at the index, or at
  -- the end if the index lies past it. A cell stays free, and the memory does not get smaller.
  pub d_insert_correct :
      (index : ℕ) (v : A) (d : DArray A)
      → IsValid d
      → d.m_length < 2 ^ 63
      → Returns (IsInserted index v d) (d_insert index v d)
  unfolding d_insert
  d_insert_correct index v d w h = Returns-bind (room-IsRoomy d w h) λ e s.
      Returns-bind (place-IsPlaced index v e s.valid (omega (arith, s.spare, s.size))) λ b p.
        returns (record {
          status = refl;
          valid = record {
            cells = omega (arith, p.size, s.valid.cells);
            fits = omega (arith, s.spare, s.size);
          };
          view = rw (← s.same) p.view;
          size = omega (arith, s.size);
          spare = omega (arith, s.spare, s.size);
          grown = s.grown;
          capped = s.capped;
        })

  -- dAppend on such an array puts the element at the end of the list.
  pub d_append_correct :
      (v : A) (d : DArray A)
      → IsValid d
      → d.m_length < 2 ^ 63
      → Returns
          (λ r. (r.1 ≡ succeed) × IsValid r.0 × (contents r.0 ≡ contents d ++ some v ∷ []))
          (d_append v d)
  unfolding d_append
  d_append_correct v d w h =
      let full : length (contents d) ≡ d.m_size =
        omega (arith, length-take d.m_size d.p_base, w.cells, w.fits) in
      Returns-map (d_insert_correct d.m_size v d w h)
        λ r s. (s.status, s.valid, s.view ∙ rw full at (insert_at-length (some v) (contents d)))

  -- dPrepend on such an array puts the element in front of the list.
  pub d_prepend_correct :
      (v : A) (d : DArray A)
      → IsValid d
      → d.m_length < 2 ^ 63
      → Returns
          (λ r. (r.1 ≡ succeed) × IsValid r.0 × (contents r.0 ≡ some v ∷ contents d))
          (d_prepend v d)
  unfolding d_prepend
  d_prepend_correct v d w h =
      Returns-map (d_insert_correct 0 v d w h) λ r s. (s.status, s.valid, s.view)
