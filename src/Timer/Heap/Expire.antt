-- ===== src/Timer/Heap/Expire.antt =====
-- timer/Heap.cpp: get_and_remove_expire_timers.
use terry.Base.{
  ℕ, ◌+◌, ◌-◌, ◌≤◌, ◌<◌, ◌≡◌, ap, List, ◌++◌, Perm, arith, length, drop, length-take, length-drop,
  take-append-drop, Returns, returns, Returns-bind, Returns-map,
}
use mathlib.Core.List.{append-nil}
use terry.Base.{length-perm, get_or-drop, take-all, drop-all, All, All-of_get_or, get_or-take}
use terry.Timer.Heap.{TimerHeap, parent, get_and_remove_expire_timers}
use terry.Timer.Heap.Order.{key, IsHeapTo, root_least}
use terry.Timer.Heap.Drain.{remove_expired-IsDrained}

module _ (expire : ℕ → ℕ) (tm : ℕ) where
  -- The heap and the list that the call returns, with what they keep of an order.
  record IsTaken (h : TimerHeap) (r : TimerHeap × List ℕ) : Type 0 where
    sized : r.0.m_heap_size ≡ length r.0.m_root
    same : Perm (r.0.m_root ++ r.1) h.m_root
    expired : All (λ t. expire t < tm) r.1
    order :
        IsHeapTo expire (h.m_heap_size - 1) h.m_root
        → IsHeapTo expire (r.0.m_heap_size - 1) r.0.m_root
    due :
        IsHeapTo expire (h.m_heap_size - 1) h.m_root
        → (c : ℕ) → c + 1 < r.0.m_heap_size
        → tm ≤ key expire r.0.m_root c
    begun : 0 < h.m_heap_size → key expire h.m_root 0 < tm → 0 < length r.1
    first : 0 < r.0.m_heap_size → tm ≤ key expire r.0.m_root 0

  get_and_remove-IsTaken :
      (h : TimerHeap)
      → h.m_heap_size ≡ length h.m_root
      → Returns (IsTaken h) (get_and_remove_expire_timers expire tm h)
  unfolding get_and_remove_expire_timers
  get_and_remove-IsTaken h sized =
      Returns-bind
        (remove_expired-IsDrained expire tm (h.m_heap_size + 1) h (omega arith) (omega arith))
        λ g s.
          let whole : length g.m_root ≤ h.m_heap_size = omega (arith, length-perm s.same) in
          let n = g.m_heap_size in
          let at = λ (c : ℕ) (p : c < n). ap expire (get_or-take n g.m_root c 0 p) in
          rw
            (
              take-all h.m_heap_size g.m_root whole,
              drop-all h.m_heap_size g.m_root whole,
              append-nil,
            )
            (returns (record {
              sized = omega (arith, length-take n g.m_root, length-perm s.same, s.size);
              same = rw (take-append-drop n g.m_root) s.same;
              expired =
                  All-of_get_or (λ t. expire t < tm) (drop n g.m_root) 0
                    λ i p.
                      rw (get_or-drop n g.m_root i 0)
                        (s.expired (n + i) (omega arith) (omega (arith, length-drop n g.m_root)));
              order = λ o c p q.
                  omega (arith, s.order o c p q, at c (omega arith), at (parent c) (omega arith));
              due = λ o c p. omega (
                arith,
                at c (omega arith),
                s.stop (omega arith),
                root_least expire (n - 1) g.m_root c (s.order o) (omega arith),
              );
              begun = λ p q. omega (arith, s.begun p q, length-drop n g.m_root, length-perm s.same);
              first = λ p. omega (arith, at 0 p, s.stop p);
            }))

  pub record IsExpired (h : TimerHeap) (r : TimerHeap × List ℕ) : Type 0 where
    pub sized : r.0.m_heap_size ≡ length r.0.m_root
    pub same : Perm (r.0.m_root ++ r.1) h.m_root
    pub expired : All (λ t. expire t < tm) r.1
    pub begun : 0 < h.m_heap_size → key expire h.m_root 0 < tm → 0 < length r.1
    pub first : 0 < r.0.m_heap_size → tm ≤ key expire r.0.m_root 0

  -- The heap may have any order.
  pub get_and_remove-IsExpired :
      (h : TimerHeap)
      → h.m_heap_size ≡ length h.m_root
      → Returns (IsExpired h) (get_and_remove_expire_timers expire tm h)
  get_and_remove-IsExpired h sized = Returns-map (get_and_remove-IsTaken h sized) λ r t. record {
    sized = t.sized;
    same = t.same;
    expired = t.expired;
    begun = t.begun;
    first = t.first;
  }

  -- What is left of a heap with all its positions but the last in order.
  pub record IsExpiredInOrder (h : TimerHeap) (r : TimerHeap × List ℕ) : Type 0 where
    pub contents : IsExpired h r
    pub order : IsHeapTo expire (r.0.m_heap_size - 1) r.0.m_root
    pub due : (c : ℕ) → c + 1 < r.0.m_heap_size → tm ≤ key expire r.0.m_root c

  -- On a heap whose count is the size of its vector, and whose positions but the last are in heap
  -- order, get_and_remove_expire_timers returns. The heap and the list together hold the timers of
  -- the heap before; every timer of the list has expired, and there is one if the first of the heap
  -- had expired. The positions that are left, but the last, are in heap order, and no timer at them
  -- has expired, nor the first of the heap.
  pub get_and_remove_correct :
      (h : TimerHeap)
      → h.m_heap_size ≡ length h.m_root
      → IsHeapTo expire (h.m_heap_size - 1) h.m_root
      → Returns (IsExpiredInOrder h) (get_and_remove_expire_timers expire tm h)
  get_and_remove_correct h sized o = Returns-map (get_and_remove-IsTaken h sized) λ r t. record {
    contents = record {
      sized = t.sized;
      same = t.same;
      expired = t.expired;
      begun = t.begun;
      first = t.first;
    };
    order = t.order o;
    due = t.due o;
  }
