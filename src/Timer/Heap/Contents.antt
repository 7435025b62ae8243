-- ===== src/Timer/Heap/Contents.antt =====
-- timer/Heap.cpp: which timers each operation leaves in a heap, whether it is in order or not.
use terry.Base.{
  ℕ, zero, suc, ◌+◌, ◌-◌, ◌<◌, ◌≡◌, sym, List, [], ◌∷◌, ◌++◌, Perm, arith, ltb, ◌==◌, length,
  length-append, Returns, returns, Returns-bind, Returns-map, Returns-if,
}
use mathlib.Core.List.{Mem}
use mathlib.Core.List.Perm
use terry.Base.{length-perm, concat-perm}
use terry.Timer.Heap.{
  TimerHeap, parent, adjust_up, adjust_heap, add_timer_to_heap, delete_timer_from_heap,
}
use terry.Timer.Heap.Order.{
  key, expire_at-ok, swapped, swap_cells-swapped, length-swapped, swapped-perm,
}
use terry.Timer.Heap.Delete.{heap_of, delete_timer_correct}

abbrev pub IsSized : TimerHeap → Type 0
IsSized h = h.m_heap_size ≡ length h.m_root

pub heap_of-eq : (h : TimerHeap) → IsSized h → heap_of h.m_root ≡ h
heap_of-eq h e = λ i. record { m_root = h.m_root; m_heap_size = sym e i }

module _ (expire : ℕ → ℕ) where
  adjust_up-perm :
      (fuel : ℕ) (root : List ℕ) (i : ℕ)
      → i < fuel
      → i < length root
      → Returns (λ r. Perm r root) (adjust_up expire fuel root i)
  unfolding adjust_up
  adjust_up-perm zero root i f h = absurd (omega arith)
  adjust_up-perm (suc fuel) root i f h =
      let up : parent i < length root = omega arith in
      rw
        (
          expire_at-ok expire root (parent i) up,
          expire_at-ok expire root i h,
          swap_cells-swapped root i (parent i) h up,
        )
        (Returns-if (i == 0) (λ top. returns Perm.rfl)
          λ deep.
            Returns-if (ltb (key expire root i) (key expire root (parent i)))
              (λ below.
                Returns-map
                  (adjust_up-perm fuel (swapped root i (parent i)) (parent i) (ground arith)
                    (omega (arith, length-swapped root i (parent i) h up)))
                  λ r s. Perm.trans s (swapped-perm root i (parent i) h up))
              (λ settled. returns Perm.rfl))

  adjust_heap-perm :
      (h : TimerHeap)
      → IsSized h
      → 0 < h.m_heap_size
      → Returns (λ g. IsSized g × Perm g.m_root h.m_root) (adjust_heap expire h)
  unfolding adjust_heap
  adjust_heap-perm h sized some_timer =
      Returns-if (h.m_heap_size == 1) (λ single. returns (sized, Perm.rfl))
        λ several.
          Returns-if (h.m_heap_size == 0) (λ empty. absurd (ground arith))
            λ _.
              Returns-bind
                (adjust_up-perm h.m_heap_size h.m_root (h.m_heap_size - 1) (omega arith)
                  (omega arith))
                λ r s. returns (omega (arith, length-perm s), s)

  pub add_timer-perm :
      (tmr : ℕ) (h : TimerHeap)
      → IsSized h
      → Returns
          (λ r. IsSized r.0 × Perm r.0.m_root (tmr ∷ h.m_root))
          (add_timer_to_heap expire tmr h)
  unfolding add_timer_to_heap
  add_timer-perm tmr h sized =
      let size = length-append h.m_root (tmr ∷ []) in
      Returns-bind
        (adjust_heap-perm
          (record { m_root = h.m_root ++ tmr ∷ []; m_heap_size = h.m_heap_size + 1 })
          (omega (arith, size)) (omega arith))
        λ g (whole, s).
          rw (expire_at-ok expire g.m_root 0 (omega (arith, length-perm s, size)))
            (returns (whole, Perm.trans s (concat-perm h.m_root tmr)))

  pub delete_timer-perm :
      (tmr : ℕ) (h : TimerHeap)
      → IsSized h
      → Mem tmr h.m_root
      → 1 < length h.m_root
      → Returns
          (λ r. IsSized r.0 × Perm (tmr ∷ r.0.m_root) h.m_root)
          (delete_timer_from_heap expire tmr h)
  delete_timer-perm tmr h sized m several =
      Returns-map (rw (heap_of-eq h sized) at (delete_timer_correct expire tmr h.m_root m several))
        λ r s. (s.sized, s.same)
