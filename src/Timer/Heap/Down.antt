-- ===== src/Timer/Heap/Down.antt =====
-- timer/Heap.cpp: adjust_heap_2.
use terry.Base.{
  ℕ, zero, suc, ◌+◌, ◌-◌, ◌*◌, ◌≤◌, ◌<◌, ◌≡◌, ◌≢◌, refl, ◌∙◌, ◌⊎◌, inl, inr, List, Perm, arith, ltb,
  leb, length, get_elem?, Returns, returns, Returns-bind, Returns-map, Returns-if,
}
use mathlib.Core.List.Perm
use terry.Timer.Heap.{TimerHeap, parent, choose_child, adjust_down, adjust_heap_2}
use terry.Timer.Heap.Order.{
  key, IsHeapTo, expire_at-ok, swapped, swap_cells-swapped, length-swapped, swapped-perm,
  key-swapped, get_elem?-swapped,
}

module _ (expire : ℕ → ℕ) where
  -- The same timers; nothing has moved at `max` or later, nor before `k`.
  pub record IsMoved (max k : ℕ) (root r : List ℕ) : Type 0 where
    pub same : Perm r root
    pub past : (c : ℕ) → max ≤ c → get_elem? r c ≡ get_elem? root c
    pub before : (c : ℕ) → c < k → get_elem? r c ≡ get_elem? root c

  -- The child that is compared stands below the bound, and expires no later than the other.
  record IsChosen (root : List ℕ) (max k m : ℕ) : Type 0 where
    inside : m < max
    child : (m ≡ 2 * k + 1) ⊎ (m ≡ 2 * k + 2)
    least : (c : ℕ) → 0 < c → c < max → parent c ≡ k → key expire root m ≤ key expire root c

  choose_child-IsChosen :
      (root : List ℕ) (max k : ℕ)
      → max ≤ length root
      → 2 * k + 1 < max
      → Returns (IsChosen root max k) (choose_child expire root max k)
  unfolding choose_child
  choose_child-IsChosen root max k h p =
      Returns-if (leb max (2 * k + 2))
        (λ single. returns (record {
          inside = p;
          child = inl refl;
          least = λ c q r s. let e : c ≡ 2 * k + 1 = ground arith in rw e (omega arith);
        }))
        λ both.
          rw
            (
              expire_at-ok expire root (2 * k + 1) (omega arith),
              expire_at-ok expire root (2 * k + 2) (ground arith),
            )
            (returns (record {
              inside = ground arith;
              child = ground arith;
              least = λ c q r s. elim (two_children c k q s) [
                | inl e ↦ rw e (ground arith)
                | inr e ↦ rw e (ground arith)
              ];
            }))
    where
      two_children : (c k : ℕ) → 0 < c → parent c ≡ k → (c ≡ 2 * k + 1) ⊎ (c ≡ 2 * k + 2)
      two_children c k q s = omega arith

  -- Only the edges below `k` may be out of order, among the first `max` positions.
  pub record IsSinking (max : ℕ) (root : List ℕ) (k : ℕ) : Type 0 where
    pub edges :
        (c : ℕ) → 0 < c → c < max → parent c ≢ k → key expire root (parent c) ≤ key expire root c
    pub bridged :
        (c : ℕ)
        → 0 < c
        → c < max
        → parent c ≡ k
        → 0 < k
        → key expire root (parent k) ≤ key expire root c

  swapped-IsSinking :
      (max : ℕ) (root : List ℕ) (k m : ℕ)
      → max ≤ length root
      → IsSinking max root k
      → IsChosen root max k m
      → key expire root m < key expire root k
      → IsSinking max (swapped root m k) m
  swapped-IsSinking max root k m h v s below =
      let at =
        key-swapped root m k (omega (arith, s.inside)) (omega (arith, s.inside, s.child)) expire in
      record {
        edges = λ c p q r.
            ground (arith, s.child, at c, at (parent c), v.edges c, v.bridged m, s.least c);
        bridged = λ c p q r t. ground (arith, s.child, at c, at (parent m), v.edges c);
      }

  IsMoved-swapped :
      (max : ℕ) (root : List ℕ) (k m : ℕ) (r : List ℕ)
      → max ≤ length root
      → IsChosen root max k m
      → IsMoved max m (swapped root m k) r
      → IsMoved max k root r
  IsMoved-swapped max root k m r h s t =
      let hm : m < length root = omega (arith, s.inside) in
      let hk : k < length root = omega (arith, s.inside, s.child) in
      let far : k < m = omega (arith, s.child) in
      record {
        same = Perm.trans t.same (swapped-perm root m k hm hk);
        past = λ c p.
            t.past c p
            ∙ get_elem?-swapped root m k hm hk c (omega (arith, s.inside))
                (omega (arith, s.inside));
        before = λ c p.
            t.before c (omega arith)
            ∙ get_elem?-swapped root m k hm hk c (omega arith) (omega arith);
      }

  -- From any state the loop ends within its fuel, and only moves timers between `k` and the bound.
  adjust_down-IsMoved :
      (fuel : ℕ) (root : List ℕ) (max k : ℕ)
      → max ≤ length root
      → max - k < fuel
      → Returns (IsMoved max k root) (adjust_down expire fuel root max k)
  unfolding adjust_down
  adjust_down-IsMoved zero root max k h f = absurd (omega arith)
  adjust_down-IsMoved (suc fuel) root max k h f =
      Returns-if (ltb (2 * k + 1) max)
        (λ more. Returns-bind (choose_child-IsChosen root max k h (ground arith)) λ m s.
          let hm : m < length root = omega (arith, s.inside) in
          let hk : k < length root = omega (arith, s.inside, s.child) in
          rw
            (
              expire_at-ok expire root m hm,
              expire_at-ok expire root k hk,
              swap_cells-swapped root m k hm hk,
            )
            (Returns-if (ltb (key expire root m) (key expire root k))
              (λ below.
                Returns-map
                  (adjust_down-IsMoved fuel (swapped root m k) max m
                    (omega (arith, length-swapped root m k hm hk))
                    (omega (arith, s.child, s.inside)))
                  λ r t. IsMoved-swapped max root k m r h s t)
              (λ settled. returns unmoved)))
        (λ done. returns unmoved)
    where
      unmoved : IsMoved max k root root
      unmoved = record { same = Perm.rfl; past = λ c p. refl; before = λ c p. refl }

  adjust_down-IsHeapTo :
      (fuel : ℕ) (root : List ℕ) (max k : ℕ)
      → max ≤ length root
      → max - k < fuel
      → IsSinking max root k
      → Returns (IsHeapTo expire max) (adjust_down expire fuel root max k)
  unfolding adjust_down
  adjust_down-IsHeapTo zero root max k h f v = absurd (omega arith)
  adjust_down-IsHeapTo (suc fuel) root max k h f v =
      Returns-if (ltb (2 * k + 1) max)
        (λ more. Returns-bind (choose_child-IsChosen root max k h (ground arith)) λ m s.
          let hm : m < length root = omega (arith, s.inside) in
          let hk : k < length root = omega (arith, s.inside, s.child) in
          rw
            (
              expire_at-ok expire root m hm,
              expire_at-ok expire root k hk,
              swap_cells-swapped root m k hm hk,
            )
            (Returns-if (ltb (key expire root m) (key expire root k))
              (λ below.
                adjust_down-IsHeapTo fuel (swapped root m k) max m
                  (omega (arith, length-swapped root m k hm hk)) (omega (arith, s.child, s.inside))
                  (swapped-IsSinking max root k m h v s (ground arith)))
              (λ settled. returns (λ c p q. ground (arith, v.edges c, s.least c)))))
        (λ done. returns (λ c p q. ground (arith, v.edges c)))

  pub adjust_heap_2-IsMoved :
      (k : ℕ) (h : TimerHeap)
      → h.m_heap_size ≤ length h.m_root
      → Returns
          (λ g. (g.m_heap_size ≡ h.m_heap_size) × IsMoved (h.m_heap_size - 1) k h.m_root g.m_root)
          (adjust_heap_2 expire k h)
  unfolding adjust_heap_2
  adjust_heap_2-IsMoved k h p =
      Returns-bind
        (adjust_down-IsMoved (length h.m_root + 1) h.m_root (h.m_heap_size - 1) k (omega arith)
          (omega arith))
        λ r s. returns (refl, s)

  pub adjust_heap_2-IsHeapTo :
      (k : ℕ) (h : TimerHeap)
      → h.m_heap_size ≤ length h.m_root
      → IsSinking (h.m_heap_size - 1) h.m_root k
      → Returns (λ g. IsHeapTo expire (h.m_heap_size - 1) g.m_root) (adjust_heap_2 expire k h)
  unfolding adjust_heap_2
  adjust_heap_2-IsHeapTo k h p v =
      Returns-bind
        (adjust_down-IsHeapTo (length h.m_root + 1) h.m_root (h.m_heap_size - 1) k (omega arith)
          (omega arith) v)
        λ r s. returns s
