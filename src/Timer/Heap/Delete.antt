-- ===== src/Timer/Heap/Delete.antt =====
-- timer/Heap.cpp: find_elememt_in_vector and delete_timer_from_heap.
use terry.Base.{
  ℕ, suc, ◌+◌, ◌-◌, ◌<◌, ◌≡◌, refl, ap, ◌∙◌, inl, inr, Bool, false, not, some, none, List, [], ◌∷◌,
  Perm, arith, ◌==◌, Option, length, get_elem?, get_or, take, length-take, get_elem?-get_or, ok,
  fault, load, store, Returns, returns, Returns-bind, Returns-map, Bool-cases, Option-cases, ==_iff,
  ==_refl, lt→ltb,
}
use mathlib.Core.List.{append-nil, Mem, not-mem-nil, mem-cons}
use mathlib.Core.List.Perm
use mathlib.Core.HLevel.{⊥_prop}
use mathlib.Core.Logic.Or
use terry.Base.{
  swap_cells, get_elem?-exchange, length-perm, concat-perm, drop-all, take-append-last,
}
use terry.Timer.Heap.{
  TimerHeap, find_from, find_elememt_in_vector, erase, expire_at, adjust_heap_2, get_root_time,
  root_expire, remove_position, delete_timer_from_heap, adjust_down,
}
use terry.Timer.Heap.Order.{
  IsHeapTo, expire_at-ok, swapped, swap_cells-swapped, length-swapped, swapped-perm, key-root,
}
use terry.Timer.Heap.Down.{adjust_heap_2-IsMoved}

-- A heap whose count is the size of its vector.
abbrev pub heap_of : List ℕ → TimerHeap
heap_of root = record { m_root = root; m_heap_size = length root }

-- What the search answers.
abbrev IsFound : ℕ → ℕ → List ℕ → Option ℕ → Type 0
IsFound tmr i root none = ¬ Mem tmr root
IsFound tmr i root (some k) =
    (j : ℕ) × (k ≡ i + j) × (j < length root) × (get_elem? root j ≡ some tmr)

find_from-IsFound : (tmr i : ℕ) (root : List ℕ) → IsFound tmr i root (find_from tmr i root)
unfolding find_from
find_from-IsFound tmr i [] = not-mem-nil
find_from-IsFound tmr i (t ∷ ts) = elim (Bool-cases (t == tmr)) [
  | inl hit ↦
      let e : t ≡ tmr = (==_iff t tmr).0 hit in rw hit (0, omega arith, omega arith, ap some e)
  | inr miss ↦
      rw miss
        (later (λ e. ground arith) (find_from tmr (suc i) ts) (find_from-IsFound tmr (suc i) ts))
]
  where
    later : ¬ (tmr ≡ t) → (o : Option ℕ) → IsFound tmr (suc i) ts o → IsFound tmr i (t ∷ ts) o
    later other none h = λ m. Or.elim ⊥_prop (mem-cons.0 m) other h
    later other (some k) h = (suc h.0, omega (arith, h.1), omega (arith, h.2), h.3)

find_head : (a : ℕ) (root : List ℕ) → find_elememt_in_vector a (a ∷ root) ≡ some 0
unfolding find_elememt_in_vector find_from
find_head a root = rw (==_refl a)

module _ (expire : ℕ → ℕ) where
  -- What is left when the timer was in the heap: the others. The flag tells whether the first
  -- expiry has changed.
  pub record IsRemoved (tmr : ℕ) (root : List ℕ) (r : TimerHeap × Bool) : Type 0 where
    pub sized : r.0.m_heap_size ≡ length r.0.m_root
    pub same : Perm (tmr ∷ r.0.m_root) root
    pub flag : r.1 ≡ not (get_root_time expire r.0 == root_expire expire root)

  -- The vector after the swap and the adjustment, with the timer at its last position.
  record IsCut (tmr n : ℕ) (root : List ℕ) (g : TimerHeap) : Type 0 where
    counted : g.m_heap_size ≡ n
    size : length g.m_root ≡ suc n
    same : Perm g.m_root root
    last : get_elem? g.m_root n ≡ some tmr

  adjusted-IsCut :
      (tmr n i : ℕ) (root : List ℕ)
      → length root ≡ suc n
      → i < length root
      → get_elem? root i ≡ some tmr
      → Returns
          (IsCut tmr n root)
          (adjust_heap_2 expire i (record { m_root = swapped root i n; m_heap_size = n }))
  adjusted-IsCut tmr n i root full hi e =
      let hn : n < length root = omega arith in
      let size = length-swapped root i n hi hn in
      Returns-map
        (adjust_heap_2-IsMoved expire i (record { m_root = swapped root i n; m_heap_size = n })
          (omega (arith, size)))
        λ g (counted, moved).
          let same = Perm.trans moved.same (swapped-perm root i n hi hn) in
          record {
            counted = counted;
            size = omega (arith, length-perm same);
            same = same;
            last = moved.past n (omega arith) ∙ last_cell;
          }
    where
      last_cell : get_elem? (swapped root i n) n ≡ some tmr
      last_cell = ground (
        arith,
        get_elem?-get_or root i 0 hi,
        get_elem?-exchange root i n (get_or root i 0) (get_or root n 0) n,
      )

  -- Deleting a timer that is not in the heap changes nothing, and says so.
  pub delete_timer_missing :
      (tmr : ℕ) (root : List ℕ)
      → find_elememt_in_vector tmr root ≡ none
      → delete_timer_from_heap expire tmr (heap_of root) ≡ ok (heap_of root, false)
  unfolding delete_timer_from_heap
  delete_timer_missing tmr [] e = refl
  delete_timer_missing tmr (t ∷ ts) e = ground arith

  remove_position-IsRemoved :
      (tmr i t : ℕ) (ts : List ℕ)
      → i < length (t ∷ ts)
      → get_elem? (t ∷ ts) i ≡ some tmr
      → 0 < length ts
      → Returns (IsRemoved tmr (t ∷ ts)) (remove_position expire (expire t) i (heap_of (t ∷ ts)))
  unfolding remove_position erase root_expire
  remove_position-IsRemoved tmr i t ts hi e several =
      let root = t ∷ ts in
      let n = length ts in
      let last : length root - 1 ≡ n = omega arith in
      rw (last, swap_cells-swapped root i n hi (omega arith))
        (Returns-bind (adjusted-IsCut tmr n i root refl hi e) λ g s.
          let rest = take n g.m_root in
          let some_timer : 0 < length rest = omega (arith, length-take n g.m_root, s.size) in
          rw
            (
              s.counted,
              lt→ltb n (length g.m_root) (omega (arith, s.size)),
              drop-all (suc n) g.m_root (omega (arith, s.size)),
              append-nil rest,
              expire_at-ok expire rest 0 some_timer,
            )
            (returns (record {
              sized = omega (arith, length-take n g.m_root, s.size);
              same =
                  Perm.trans (Perm.symm (concat-perm rest tmr))
                    (rw (take-append-last n g.m_root tmr s.size s.last) s.same);
              flag = rw (key-root expire (record { m_root = rest; m_heap_size = n }) some_timer);
            })))

  -- Deleting a timer of a heap of several timers returns and leaves the others. The flag says
  -- whether the first expiry has changed.
  pub delete_timer_correct :
      (tmr : ℕ) (root : List ℕ)
      → Mem tmr root
      → 1 < length root
      → Returns (IsRemoved tmr root) (delete_timer_from_heap expire tmr (heap_of root))
  unfolding delete_timer_from_heap find_elememt_in_vector
  delete_timer_correct tmr [] m several = absurd (omega arith)
  delete_timer_correct tmr (t ∷ ts) m several = elim (Option-cases (find_from tmr 0 (t ∷ ts))) [
    | inl missing ↦ absurd (rw missing at (find_from-IsFound tmr 0 (t ∷ ts)) m)
    | inr (i, found) ↦
        let (j, place, inside, cell) = rw found at (find_from-IsFound tmr 0 (t ∷ ts)) in
        let e : j ≡ i = omega arith in
        rw (found, delete_timer_from_heap)
          (remove_position-IsRemoved tmr i t ts (rw (← e) inside) (rw (← e) cell) (omega arith))
  ]

  -- Deleting the only timer of a heap reads the first element of the vector that has become empty.
  pub delete_timer-only : (tmr : ℕ) → delete_timer_from_heap expire tmr (heap_of (tmr ∷ [])) ≡ fault
  unfolding delete_timer_from_heap find_elememt_in_vector find_from remove_position swap_cells
      adjust_heap_2 adjust_down erase expire_at load store
  delete_timer-only tmr = rw (find_head tmr [], delete_timer_from_heap)

  -- The bound of adjust_heap_2 leaves the last position out. So where the second of three timers
  -- expires before the third, deleting the first puts the third at the root.
  pub delete_timer-misorders :
      (a b c : ℕ)
      → expire b < expire c
      → Returns
          (λ r. (r.0.m_root ≡ c ∷ b ∷ []) × ¬ IsHeapTo expire r.0.m_heap_size r.0.m_root)
          (delete_timer_from_heap expire a (heap_of (a ∷ b ∷ c ∷ [])))
  unfolding delete_timer_from_heap remove_position swap_cells adjust_heap_2 adjust_down erase
      expire_at load store
  delete_timer-misorders a b c h =
      rw (find_head a (b ∷ c ∷ []), delete_timer_from_heap)
        (returns (refl, λ o. omega (arith, o 1 (omega arith) (omega arith))))
