-- ===== src/Timer/Heap/Drain.antt =====
-- timer/Heap.cpp: the loop of get_and_remove_expire_timers.
use terry.Base.{
  ℕ, zero, suc, ◌-◌, ◌≤◌, ◌<◌, ◌≡◌, refl, ap, ◌∙◌, Perm, arith, ltb, length, get_elem?, ok, Returns,
  returns, Returns-bind, Returns-map, Returns-if, Returns-inv, dec_lt, lt→ltb, ge→ltb,
}
use mathlib.Core.List.Perm
use terry.Base.{length-perm, get_or-eq}
use terry.Timer.Heap.{TimerHeap, parent, adjust_heap_2, remove_expired}
use terry.Timer.Heap.Order.{
  key, IsHeapTo, expire_at-ok, swapped, swap_cells-swapped, length-swapped, swapped-perm,
  key-swapped, get_elem?-swapped,
}
use terry.Timer.Heap.Down.{IsSinking, adjust_heap_2-IsMoved, adjust_heap_2-IsHeapTo}

module _ (expire : ℕ → ℕ) (tm : ℕ) where
  -- The loop takes the timers from the position `g.m_heap_size` on out of the heap.
  pub record IsDrained (h g : TimerHeap) : Type 0 where
    pub size : g.m_heap_size ≤ h.m_heap_size
    pub same : Perm g.m_root h.m_root
    pub past : (c : ℕ) → h.m_heap_size ≤ c → get_elem? g.m_root c ≡ get_elem? h.m_root c
    pub expired : (c : ℕ) → g.m_heap_size ≤ c → c < h.m_heap_size → key expire g.m_root c < tm
    pub stop : 0 < g.m_heap_size → tm ≤ key expire g.m_root 0
    pub begun : 0 < h.m_heap_size → key expire h.m_root 0 < tm → g.m_heap_size < h.m_heap_size
    pub order :
        IsHeapTo expire (h.m_heap_size - 1) h.m_root → IsHeapTo expire (g.m_heap_size - 1) g.m_root

  -- One round: the root goes to the last position, and the rest is adjusted.
  record IsPopped (h g : TimerHeap) : Type 0 where
    size : g.m_heap_size ≡ h.m_heap_size - 1
    same : Perm g.m_root h.m_root
    last : key expire g.m_root (h.m_heap_size - 1) ≡ key expire h.m_root 0
    past : (c : ℕ) → h.m_heap_size ≤ c → get_elem? g.m_root c ≡ get_elem? h.m_root c
    order :
        IsHeapTo expire (h.m_heap_size - 1) h.m_root → IsHeapTo expire (g.m_heap_size - 1) g.m_root

  popped-IsSinking :
      (h : TimerHeap)
      → 0 < h.m_heap_size
      → h.m_heap_size ≤ length h.m_root
      → IsHeapTo expire (h.m_heap_size - 1) h.m_root
      → IsSinking expire (h.m_heap_size - 1 - 1) (swapped h.m_root 0 (h.m_heap_size - 1)) 0
  popped-IsSinking h p q o =
      let n = h.m_heap_size - 1 in
      let at = key-swapped h.m_root 0 n (omega arith) (omega arith) expire in
      record {
        edges = λ c r s t. ground (arith, at c, at (parent c), o c);
        bridged = λ c r s t u. absurd (omega arith);
      }

  round_order :
      (h g : TimerHeap)
      → 0 < h.m_heap_size
      → h.m_heap_size ≤ length h.m_root
      → adjust_heap_2 expire 0 (record {
        m_root = swapped h.m_root 0 (h.m_heap_size - 1);
        m_heap_size = h.m_heap_size - 1;
      })
        ≡ ok g
      → IsHeapTo expire (h.m_heap_size - 1) h.m_root
      → IsHeapTo expire (h.m_heap_size - 1 - 1) g.m_root
  round_order h g p q e o =
      let n = h.m_heap_size - 1 in
      let size = length-swapped h.m_root 0 n (omega arith) (omega arith) in
      of_ok (
        rw e at (
          adjust_heap_2-IsHeapTo expire 0
            (record { m_root = swapped h.m_root 0 n; m_heap_size = n }) (omega (arith, size))
            (popped-IsSinking h p q o)))
    where
      of_ok : {P : TimerHeap → Type 0} {g : TimerHeap} → Returns P (ok g) → P g
      of_ok (returns p) = p

  -- What a round does before the loop goes on.
  abbrev round_start : TimerHeap → TimerHeap
  round_start h = record {
    m_root = swapped h.m_root 0 (h.m_heap_size - 1);
    m_heap_size = h.m_heap_size - 1;
  }

  round-IsPopped :
      (h : TimerHeap)
      → 0 < h.m_heap_size
      → h.m_heap_size ≤ length h.m_root
      → Returns (IsPopped h) (adjust_heap_2 expire 0 (round_start h))
  round-IsPopped h p q =
      let n = h.m_heap_size - 1 in
      let h0 : 0 < length h.m_root = omega arith in
      let hn : n < length h.m_root = omega arith in
      let size = length-swapped h.m_root 0 n h0 hn in
      let (g, e, both) =
        Returns-inv (adjust_heap_2-IsMoved expire 0 (round_start h) (omega (arith, size))) in
      let (counted, moved) = both in
      rw e (
        returns (record {
          size = counted;
          same = Perm.trans moved.same (swapped-perm h.m_root 0 n h0 hn);
          last =
              ap expire (get_or-eq g.m_root _ n 0 (moved.past n (omega arith)))
              ∙ ground (arith, key-swapped h.m_root 0 n h0 hn expire n);
          past = λ c r.
              moved.past c (omega arith)
              ∙ get_elem?-swapped h.m_root 0 n h0 hn c (omega arith) (omega arith);
          order = λ o. rw counted (round_order h g p q e o);
        }))

  step-IsDrained :
      (h g k : TimerHeap)
      → 0 < h.m_heap_size
      → key expire h.m_root 0 < tm
      → IsPopped h g
      → IsDrained g k
      → IsDrained h k
  step-IsDrained h g k p early s t = record {
    size = omega (arith, s.size, t.size);
    same = Perm.trans t.same s.same;
    past = λ c q. t.past c (omega (arith, s.size)) ∙ s.past c q;
    expired = λ c q r. elim (dec_lt c g.m_heap_size) [
      | yes inner ↦ t.expired c q inner
      | no last ↦
          let e : c ≡ h.m_heap_size - 1 = omega (arith, s.size) in
          let kept = ap expire (get_or-eq k.m_root g.m_root c 0 (t.past c (omega arith))) in
          omega (arith, kept, s.last, ap (key expire g.m_root) e)
    ];
    stop = t.stop;
    begun = λ q r. omega (arith, s.size, t.size);
    order = λ o. t.order (s.order o);
  }

  pub remove_expired-IsDrained :
      (fuel : ℕ) (h : TimerHeap)
      → h.m_heap_size < fuel
      → h.m_heap_size ≤ length h.m_root
      → Returns (IsDrained h) (remove_expired expire fuel tm h)
  unfolding remove_expired
  remove_expired-IsDrained zero h f p = absurd (omega arith)
  remove_expired-IsDrained (suc fuel) h f p = elim (dec_lt 0 h.m_heap_size) [
    | yes some_timer ↦
        let n = h.m_heap_size - 1 in
        rw
          (
            lt→ltb _ _ some_timer,
            expire_at-ok expire h.m_root 0 (omega arith),
            swap_cells-swapped h.m_root 0 n (omega arith) (omega arith),
          )
          (Returns-if (ltb (key expire h.m_root 0) tm)
            (λ early. Returns-bind (round-IsPopped h some_timer p) λ g s.
              Returns-map
                (remove_expired-IsDrained fuel g (omega (arith, s.size))
                  (omega (arith, s.size, length-perm s.same)))
                λ k t. step-IsDrained h g k some_timer (ground arith) s t)
            (λ late. returns (stopped (λ _. ground arith))))
    | no empty ↦
        rw (ge→ltb 0 h.m_heap_size (omega arith)) (returns (stopped (λ p. absurd (omega arith))))
  ]
    where
      stopped : (0 < h.m_heap_size → tm ≤ key expire h.m_root 0) → IsDrained h h
      stopped late = record {
        size = omega arith;
        same = Perm.rfl;
        past = λ c q. refl;
        expired = λ c q r. absurd (omega arith);
        stop = late;
        begun = λ p early. absurd (omega (arith, late p));
        order = λ o. o;
      }
