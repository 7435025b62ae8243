-- ===== src/DynamicArray/Remove.antt =====
-- dymanicArray/dArray.cpp: dDelete.
use terry.Base.{
  ℕ, suc, ◌+◌, ◌-◌, ◌≤◌, ◌<◌, ◌≡◌, refl, none, List, arith, leb, Option, length, get_elem?, take,
  drop, replicate, length-append, length-take, length-drop, length-replicate, get_elem?-take,
  get_elem?-inside, eq_of_get_elem?, ok, fault, ◌>>=◌, load-ok, Returns, returns, Returns-bind,
  Returns-if,
}
use terry.DynamicArray.{DArray, Ret, succeed, failed, new_from, d_delete}
use terry.DynamicArray.Moves.{IsShiftedDown, shift_down-IsShiftedDown, shift_down-fault, memcpy-ok}
use terry.DynamicArray.View.{contents, IsValid, delete_at, get_elem?-delete_at}

module _ {A : Type 0} where
  -- What dDelete leaves and hands out.
  pub record IsDeleted (index : ℕ) (d : DArray A) (r : DArray A × Ret × Option (Option A))
      : Type 0 where
    pub status : r.1 ≡ succeed
    pub value : r.2 ≡ get_elem? (contents d) index
    pub valid : IsValid r.0
    pub view : contents r.0 ≡ delete_at index (contents d)
    pub size : r.0.m_size + 1 ≡ d.m_size
    pub length_kept : r.0.m_length ≡ d.m_length

  deleted_view :
      (index n : ℕ) (a b : List (Option A))
      → index < n
      → n < length a
      → IsShiftedDown (n - index) index a b
      → take (n - 1) b ≡ delete_at index (take n a)
  deleted_view index n a b h k s = eq_of_get_elem? _ _ λ j. ground (
    arith,
    s.cells j,
    get_elem?-take (n - 1) b j,
    get_elem?-take n a j,
    get_elem?-take n a (j + 1),
    get_elem?-delete_at index (take n a) j,
  )

  -- On a well-formed array with a cell to spare dDelete at the index of an element returns SUCCEED
  -- and that element; the array stays well-formed, its memory as large, and its elements are the
  -- others in their order.
  pub d_delete_correct :
      (index : ℕ) (d : DArray A)
      → IsValid d
      → d.m_size < d.m_length
      → index < d.m_size
      → Returns (IsDeleted index d) (d_delete index d)
  unfolding d_delete
  d_delete_correct index d w spare inside =
      let (x, e) = get_elem?-inside d.p_base index (omega (arith, w.cells)) in
      Returns-if (leb d.m_size index) (λ past. absurd (ground arith))
        λ _. rw (load-ok d.p_base index e) (
          Returns-bind
            (shift_down-IsShiftedDown (d.m_size - index) index d.p_base (omega (arith, w.cells)))
            λ b s. returns (record {
              status = refl;
              value = ground (arith, e, get_elem?-take d.m_size d.p_base index);
              valid = record { cells = omega (arith, s.size, w.cells); fits = omega arith };
              view = deleted_view index d.m_size d.p_base b inside (omega (arith, w.cells)) s;
              size = omega arith;
              length_kept = refl;
            }))

  -- dDelete at an index past the elements returns FAILED, hands nothing out and changes nothing.
  pub d_delete-past :
      (index : ℕ) (d : DArray A) → d.m_size ≤ index → d_delete index d ≡ ok (d, failed, none)
  unfolding d_delete
  d_delete-past index d h = ground arith

  -- The shifting loop reads one cell past the elements: on an array without a spare cell, dDelete
  -- of any element reads outside of the memory.
  pub d_delete-full :
      (index : ℕ) (d : DArray A)
      → IsValid d
      → d.m_size ≡ d.m_length
      → index < d.m_size
      → d_delete index d ≡ fault
  unfolding d_delete
  d_delete-full index d w full inside =
      let (x, e) = get_elem?-inside d.p_base index (omega (arith, w.cells)) in
      let n = d.m_size - index - 1 in
      let rounds : d.m_size - index ≡ suc n = omega arith in
      rw
        (
          load-ok d.p_base index e,
          rounds,
          shift_down-fault n index d.p_base (omega (arith, w.cells)),
        )
        (ground arith)

  -- The constructor that copies a given array leaves no spare cell, so any dDelete that follows it
  -- reads outside of the memory.
  pub new_from-d_delete :
      (src : List (Option A)) (n index : ℕ)
      → n ≤ length src
      → index < n
      → (new_from src n >>= d_delete index) ≡ fault
  unfolding new_from
  new_from-d_delete src n index h inside =
      let blank : Option A = none in
      let cleared = replicate n blank in
      let size = length-replicate n blank in
      rw (memcpy-ok cleared src n h (omega (arith, size))) (
        d_delete-full index _
          (record {
            cells = omega (
              arith,
              length-append (take n src) (drop n cleared),
              length-take n src,
              length-drop n cleared,
              size,
            );
            fits = omega arith;
          })
          refl inside)
