-- ===== src/Timer/Heap/Up.antt =====
-- timer/Heap.cpp: adjust_heap and add_timer_to_heap.
use terry.Base.{
  ℕ, zero, suc, ◌+◌, ◌-◌, ◌≤◌, ◌<◌, ◌≡◌, ◌≢◌, true, List, [], ◌∷◌, ◌++◌, Perm, arith, ltb, ◌==◌,
  if◌then◌else◌, length, length-append, Returns, returns, Returns-bind, Returns-map, Returns-if,
}
use mathlib.Core.List.Perm
use terry.Base.{get_or-append, length-perm, concat-perm}
use terry.Timer.Heap.{
  TimerHeap, parent, adjust_up, adjust_heap, root_expire, add_timer_to_heap, get_root_time,
}
use terry.Timer.Heap.Order.{
  key, IsHeapTo, expire_at-ok, key-root, swapped, swap_cells-swapped, length-swapped, swapped-perm,
  key-swapped,
}

module _ (expire : ℕ → ℕ) where
  -- Only the edge above `i` may be out of order.
  record IsRising (root : List ℕ) (i : ℕ) : Type 0 where
    inside : i < length root
    edges :
        (c : ℕ) → 0 < c → c < length root → c ≢ i → key expire root (parent c) ≤ key expire root c
    bridged :
        (c : ℕ)
        → 0 < c
        → c < length root
        → parent c ≡ i
        → 0 < i
        → key expire root (parent i) ≤ key expire root c

  swapped-IsRising :
      (root : List ℕ) (i : ℕ)
      → IsRising root i
      → 0 < i
      → key expire root i < key expire root (parent i)
      → IsRising (swapped root i (parent i)) (parent i)
  swapped-IsRising root i v pos below =
      let up : parent i < length root = omega (arith, v.inside) in
      let size = length-swapped root i (parent i) v.inside up in
      let at = key-swapped root i (parent i) v.inside up expire in
      record {
        inside = omega (arith, size, v.inside);
        edges = λ c p q r.
            ground (arith, size, at c, at (parent c), v.edges c, v.edges (parent i), v.bridged c);
        bridged = λ c p q r t.
            ground (arith, size, at c, at (parent (parent i)), v.edges c, v.edges (parent i));
      }

  abbrev IsRisen : List ℕ → List ℕ → Type 0
  IsRisen root r = IsHeapTo expire (length r) r × Perm r root

  adjust_up-IsRisen :
      (fuel : ℕ) (root : List ℕ) (i : ℕ)
      → i < fuel
      → IsRising root i
      → Returns (IsRisen root) (adjust_up expire fuel root i)
  unfolding adjust_up
  adjust_up-IsRisen zero root i f v = absurd (omega arith)
  adjust_up-IsRisen (suc fuel) root i f v =
      let up : parent i < length root = omega (arith, v.inside) in
      rw
        (
          expire_at-ok expire root (parent i) up,
          expire_at-ok expire root i v.inside,
          swap_cells-swapped root i (parent i) v.inside up,
        )
        (Returns-if (i == 0) (λ top. returns (λ c p q. v.edges c p q (ground arith), Perm.rfl))
          λ deep.
            Returns-if (ltb (key expire root i) (key expire root (parent i)))
              (λ below.
                Returns-map
                  (adjust_up-IsRisen fuel (swapped root i (parent i)) (parent i) (ground arith)
                    (swapped-IsRising root i v (ground arith) (ground arith)))
                  λ r s. (s.0, Perm.trans s.1 (swapped-perm root i (parent i) v.inside up)))
              (λ settled. returns (λ c p q. ground (arith, v.edges c), Perm.rfl)))

  -- The heap's count and order.
  pub record IsOrdered (h : TimerHeap) : Type 0 where
    pub sized : h.m_heap_size ≡ length h.m_root
    pub heap : IsHeapTo expire h.m_heap_size h.m_root

  appended-IsRising :
      (h : TimerHeap) (tmr : ℕ) → IsOrdered h → IsRising (h.m_root ++ tmr ∷ []) (length h.m_root)
  appended-IsRising h tmr o =
      let size = length-append h.m_root (tmr ∷ []) in
      let at = λ (c : ℕ). get_or-append h.m_root (tmr ∷ []) c 0 in
      record {
        inside = omega (arith, size);
        edges = λ c p q r. ground (arith, size, o.sized, o.heap c, at c, at (parent c));
        bridged = λ c p q r t. absurd (omega (arith, size));
      }

  adjust_heap-appended :
      (h : TimerHeap) (tmr : ℕ)
      → IsOrdered h
      → Returns
          (λ g. IsOrdered g × Perm g.m_root (tmr ∷ h.m_root))
          (adjust_heap expire
            (record { m_root = h.m_root ++ tmr ∷ []; m_heap_size = h.m_heap_size + 1 }))
  unfolding adjust_heap
  adjust_heap-appended h tmr o =
      let size = length-append h.m_root (tmr ∷ []) in
      Returns-if (h.m_heap_size + 1 == 1)
        (λ alone. returns (
          record { sized = omega (arith, size, o.sized); heap = λ c p q. absurd (ground arith) },
          concat-perm h.m_root tmr,
        ))
        λ several.
          Returns-if (h.m_heap_size + 1 == 0) (λ none_left. absurd (ground arith))
            λ _.
              let last : h.m_heap_size + 1 - 1 ≡ length h.m_root = omega (arith, o.sized) in
              rw last (
                Returns-bind
                  (adjust_up-IsRisen (h.m_heap_size + 1) _ (length h.m_root)
                    (omega (arith, o.sized)) (appended-IsRising h tmr o))
                  λ r s.
                    let same = length-perm s.1 in
                    let whole : h.m_heap_size + 1 ≡ length r = omega (arith, same, size, o.sized) in
                    returns (
                      record { sized = whole; heap = rw whole s.0 },
                      Perm.trans s.1 (concat-perm h.m_root tmr),
                    ))

  -- Adding a timer to an ordered heap returns; the heap stays ordered and holds the timer besides
  -- the others. The flag says whether the timerfd is to be set: when the heap's first expiry was 0
  -- or the heap was empty, or when the first expiry is earlier than before.
  pub add_timer_to_heap_correct :
      (tmr : ℕ) (h : TimerHeap)
      → IsOrdered h
      → Returns
          (λ r.
            IsOrdered r.0
            × Perm r.0.m_root (tmr ∷ h.m_root)
            × (r.1 ≡ (
                if root_expire expire h.m_root == 0
                then true
                else ltb (get_root_time expire r.0) (root_expire expire h.m_root))))
          (add_timer_to_heap expire tmr h)
  unfolding add_timer_to_heap
  add_timer_to_heap_correct tmr h o = Returns-bind (adjust_heap-appended h tmr o) λ g s.
      let some_timer : 0 < length g.m_root = omega (arith, length-perm s.1) in
      rw (expire_at-ok expire g.m_root 0 some_timer)
        (returns (s.0, s.1, rw (key-root expire g some_timer)))
