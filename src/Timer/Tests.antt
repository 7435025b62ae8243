-- ===== src/Timer/Tests.antt =====
-- timer/: runs of the classes, and their theorems at concrete inputs.
use mathlib.Core.List.{mem-cons_self, mem-cons_of_mem}
use terry.Base.{
  ℕ, ◌*◌, ◌≡◌, refl, [], ◌∷◌, arith, true, ltb, Perm, ok, load, store, Returns, swap_cells,
}
use terry.Timer.Heap.{
  TimerHeap, expire_at, adjust_up, adjust_heap, choose_child, adjust_down, adjust_heap_2,
  root_expire, get_root_time, add_timer_to_heap, remove_expired, get_and_remove_expire_timers,
  delete_timer_from_heap,
}
use terry.Timer.Heap.Up.{IsOrdered, add_timer_to_heap_correct}
use terry.Timer.Heap.Expire.{IsExpiredInOrder, get_and_remove_correct}
use terry.Timer.Heap.Order.{IsHeapTo}
use terry.Timer.Heap.Delete.{heap_of, IsRemoved, delete_timer_correct}

-- The timer at address `t` expires at `10 * t`.
abbrev tens : ℕ → ℕ
tens t = 10 * t

heap_order :
    (add_timer_to_heap tens 1 (heap_of (2 ∷ 3 ∷ 4 ∷ []))) ≡ ok (heap_of (1 ∷ 2 ∷ 4 ∷ 3 ∷ []), true)
unfolding add_timer_to_heap adjust_heap adjust_up swap_cells expire_at root_expire load store
heap_order = refl

drained :
    get_and_remove_expire_timers tens 25 (heap_of (1 ∷ 2 ∷ 4 ∷ 3 ∷ []))
    ≡ ok (heap_of (4 ∷ 3 ∷ []), 2 ∷ 1 ∷ [])
unfolding get_and_remove_expire_timers remove_expired adjust_heap_2 adjust_down choose_child
    swap_cells expire_at load store
drained = refl

abbrev small : TimerHeap
small = heap_of (2 ∷ 3 ∷ 4 ∷ [])

small-IsOrdered : IsOrdered tens small
small-IsOrdered = grind arith

add_timer_to_heap_correct_example :
    Returns
      (λ r.
        IsOrdered tens r.0
        × Perm r.0.m_root (1 ∷ 2 ∷ 3 ∷ 4 ∷ [])
        × (r.1 ≡ ltb (get_root_time tens r.0) 20))
      (add_timer_to_heap tens 1 small)
unfolding root_expire
add_timer_to_heap_correct_example = add_timer_to_heap_correct tens 1 small small-IsOrdered

small_order : IsHeapTo tens 2 small.m_root
small_order = grind arith

get_and_remove_correct_example :
    Returns (IsExpiredInOrder tens 25 small) (get_and_remove_expire_timers tens 25 small)
get_and_remove_correct_example = get_and_remove_correct tens 25 small refl small_order

delete_timer_correct_example :
    Returns (IsRemoved tens 3 (2 ∷ 3 ∷ 4 ∷ [])) (delete_timer_from_heap tens 3 small)
delete_timer_correct_example =
    delete_timer_correct tens 3 (2 ∷ 3 ∷ 4 ∷ []) (mem-cons_of_mem 2 mem-cons_self) (omega arith)
