-- ===== src/Timer/Heap/Late.antt =====
-- timer/Heap.cpp: get_and_remove_expire_timers where nothing has expired, and what it misses.
use terry.Base.{
  ℕ, suc, ◌+◌, ◌≤◌, ◌<◌, ◌≡◌, refl, [], ◌∷◌, arith, length, ok, load, store, lt→ltb, ge→ltb,
}
use mathlib.Core.List.{append-nil}
use terry.Base.{swap_cells, take-all, drop-all}
use terry.Timer.Heap.{
  TimerHeap, expire_at, adjust_heap_2, adjust_down, remove_expired, get_and_remove_expire_timers,
}
use terry.Timer.Heap.Order.{key, expire_at-ok}

module _ (expire : ℕ → ℕ) (tm : ℕ) where
  remove_expired-late :
      (fuel : ℕ) (h : TimerHeap)
      → 0 < h.m_heap_size
      → h.m_heap_size ≡ length h.m_root
      → tm ≤ key expire h.m_root 0
      → remove_expired expire (suc fuel) tm h ≡ ok h
  unfolding remove_expired
  remove_expired-late fuel h p sized late =
      rw (lt→ltb _ _ p, expire_at-ok expire h.m_root 0 (omega arith), ge→ltb _ _ late) refl

  -- A heap whose first timer has not expired is left as it is.
  pub get_and_remove-late :
      (h : TimerHeap)
      → h.m_heap_size ≡ length h.m_root
      → 0 < h.m_heap_size
      → tm ≤ key expire h.m_root 0
      → get_and_remove_expire_timers expire tm h ≡ ok (h, [])
  unfolding get_and_remove_expire_timers
  get_and_remove-late h sized p late =
      let all : length h.m_root ≤ h.m_heap_size = omega arith in
      let fuel : h.m_heap_size + 1 ≡ suc h.m_heap_size = omega arith in
      rw
        (
          fuel,
          remove_expired-late h.m_heap_size h p sized late,
          take-all h.m_heap_size h.m_root all,
          drop-all h.m_heap_size h.m_root all,
          append-nil,
        )
        refl

  -- The bound of adjust_heap_2 leaves the last position out. So of three timers of which the first
  -- two have expired and the third has not, the second stays in the heap.
  pub get_and_remove-misses :
      (a b c : ℕ)
      → expire a < tm
      → expire b < tm
      → tm ≤ expire c
      → get_and_remove_expire_timers expire tm (record { m_root = a ∷ b ∷ c ∷ []; m_heap_size = 3 })
        ≡ ok (record { m_root = c ∷ b ∷ []; m_heap_size = 2 }, a ∷ [])
  unfolding get_and_remove_expire_timers remove_expired swap_cells adjust_heap_2 adjust_down
      expire_at load store
  get_and_remove-misses a b c ha hb hc = rw (lt→ltb _ _ ha, ge→ltb _ _ hc)
