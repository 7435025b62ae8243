-- ===== src/Timer/Heap.antt =====
-- timer/Heap.cpp and timer/Heap.h: the class TimerHeap. A timer is its address; `expire` reads
-- the expiry of the timer at an address, so a section over `expire` is one state of the timers.
-- `m_heap_size` is kept beside the vector, as in the source. Logging is left out.
pub mod Order
pub mod Up
pub mod Down
pub mod Drain
pub mod Expire
pub mod Late
pub mod Delete
pub mod Contents
use terry.Base.{
  ℕ, zero, suc, ◌+◌, ◌-◌, ◌*◌, ◌/◌, ◌≤◌, ◌<◌, ◌≡◌, Bool, true, false, Option, none, some, List, [],
  ◌∷◌, ◌++◌, ltb, leb, ◌==◌, if◌then◌else◌, length, take, drop, Run, ok, fault, out_of_fuel, ◌>>=◌,
  load, swap_cells, u64_mod, not,
}

pub record TimerHeap : Type 0 where
  pub m_root : List ℕ
  pub m_heap_size : ℕ

-- The parent of a position.
abbrev pub parent : ℕ → ℕ
parent i = (i - 1) / 2

-- find_elememt_in_vector: the position of an address, or `none` for -1, counted from `i`.
unfoldable pub find_from : ℕ → ℕ → List ℕ → Option ℕ
find_from tmr i [] = none
find_from tmr i (t ∷ ts) = if t == tmr then some i else find_from tmr (suc i) ts

unfoldable pub find_elememt_in_vector : ℕ → List ℕ → Option ℕ
find_elememt_in_vector tmr root = find_from tmr 0 root

-- `m_root.erase(m_root.begin() + i)`, which wants an element there.
unfoldable pub erase : ℕ → List ℕ → Run (List ℕ)
erase i root = if ltb i (length root) then ok (take i root ++ drop (suc i) root) else fault

module _ (expire : ℕ → ℕ) where
  -- `m_root[i]->get_expire_time()`
  unfoldable pub expire_at : List ℕ → ℕ → Run ℕ
  expire_at root i = do t ← load root i; ok (expire t)

  -- The loop of adjust_heap, from position `i` towards the root.
  unfoldable pub adjust_up : ℕ → List ℕ → ℕ → Run (List ℕ)
  adjust_up zero root i = out_of_fuel
  adjust_up (suc fuel) root i =
      let rise = swap_cells root i (parent i) >>= λ r. adjust_up fuel r (parent i) in
      let step : Run (List ℕ) = do
        above ← expire_at root (parent i)
        here ← expire_at root i
        if ltb here above then rise else ok root
      in if i == 0 then ok root else step

  unfoldable pub adjust_heap : TimerHeap → Run TimerHeap
  adjust_heap h = if h.m_heap_size == 1 then ok h else if h.m_heap_size == 0 then fault else do
    root ← adjust_up h.m_heap_size h.m_root (h.m_heap_size - 1)
    ok (record h { m_root = root })

  -- The child of `k` that adjust_heap_2 compares with it: the right one unless the bound cuts it
  -- off or the left one expires earlier.
  unfoldable pub choose_child : List ℕ → ℕ → ℕ → Run ℕ
  choose_child root max_index k = if leb max_index (2 * k + 2) then ok (2 * k + 1) else do
    left ← expire_at root (2 * k + 1)
    right ← expire_at root (2 * k + 2)
    ok (if ltb left right then 2 * k + 1 else 2 * k + 2)

  -- The loop of adjust_heap_2. Its bound `max_index` is the size of the heap less one.
  unfoldable pub adjust_down : ℕ → List ℕ → ℕ → ℕ → Run (List ℕ)
  adjust_down zero root max_index k = out_of_fuel
  adjust_down (suc fuel) root max_index k =
      let step : Run (List ℕ) = do
        i ← choose_child root max_index k
        child ← expire_at root i
        here ← expire_at root k
        let sink = swap_cells root i k >>= λ r. adjust_down fuel r max_index i
        if ltb child here then sink else ok root
      in if ltb (2 * k + 1) max_index then step else ok root

  unfoldable pub adjust_heap_2 : ℕ → TimerHeap → Run TimerHeap
  adjust_heap_2 start h = do
    root ← adjust_down (length h.m_root + 1) h.m_root (h.m_heap_size - 1) start
    ok (record h { m_root = root })

  -- `none` where the vector is empty: the expiry of the root before the call.
  unfoldable pub root_expire : List ℕ → ℕ
  root_expire [] = 0
  root_expire (t ∷ ts) = expire t

  unfoldable pub add_timer_to_heap : ℕ → TimerHeap → Run (TimerHeap × Bool)
  add_timer_to_heap tmr h = do
    let before = root_expire h.m_root
    h' ← adjust_heap (record { m_root = h.m_root ++ tmr ∷ []; m_heap_size = h.m_heap_size + 1 })
    after ← expire_at h'.m_root 0
    ok (h', if before == 0 then true else ltb after before)

  -- `(UINT64)-1` on the empty heap.
  unfoldable pub get_root_time : TimerHeap → ℕ
  get_root_time h = elim h.m_root [ [] ↦ u64_mod - 1 | t ∷ _ ↦ expire t ]

  -- The loop of get_and_remove_expire_timers.
  unfoldable pub remove_expired : ℕ → ℕ → TimerHeap → Run TimerHeap
  remove_expired zero tm h = out_of_fuel
  remove_expired (suc fuel) tm h =
      let remove : Run TimerHeap = do
        root ← swap_cells h.m_root 0 (h.m_heap_size - 1)
        h' ← adjust_heap_2 0 (record { m_root = root; m_heap_size = h.m_heap_size - 1 })
        remove_expired fuel tm h'
      in let step : Run TimerHeap = do
        first ← expire_at h.m_root 0
        if ltb first tm then remove else ok h
        in if ltb 0 h.m_heap_size then step else ok h

  -- The heap that is left, and the timers that go to the list.
  unfoldable pub get_and_remove_expire_timers : ℕ → TimerHeap → Run (TimerHeap × List ℕ)
  get_and_remove_expire_timers tm h = do
    h' ← remove_expired (h.m_heap_size + 1) tm h
    let n = h'.m_heap_size
    let rest = take n h'.m_root ++ drop h.m_heap_size h'.m_root
    ok (record h' { m_root = rest }, drop n (take h.m_heap_size h'.m_root))

  -- The part of delete_timer_from_heap for a timer found at `i`; `before` is the first expiry.
  unfoldable pub remove_position : ℕ → ℕ → TimerHeap → Run (TimerHeap × Bool)
  remove_position before i h = do
    root ← swap_cells h.m_root i (h.m_heap_size - 1)
    h' ← adjust_heap_2 i (record { m_root = root; m_heap_size = h.m_heap_size - 1 })
    rest ← erase h'.m_heap_size h'.m_root
    after ← expire_at rest 0
    ok (record h' { m_root = rest }, not (after == before))

  unfoldable pub delete_timer_from_heap : ℕ → TimerHeap → Run (TimerHeap × Bool)
  delete_timer_from_heap tmr h = elim h.m_root [
    | [] ↦ ok (h, false)
    | first ∷ _ ↦ elim (find_elememt_in_vector tmr h.m_root) [
      | none ↦ ok (h, false)
      | some i ↦ remove_position (expire first) i h
    ]
  ]
