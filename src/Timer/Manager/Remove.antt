-- ===== src/Timer/Manager/Remove.antt =====
-- timer/Timer_manager.cpp: delete_timer, expire_now and expire_now_and_delete.
use terry.Base.{
  ℕ, ◌<◌, ◌≡◌, ◌≢◌, refl, Bool, true, some, none, List, [], ◌∷◌, Perm, Option, length, Returns,
  returns, Returns-bind,
}
use terry.Timer.Object.{Timer, action}
use terry.Timer.Heap.{TimerHeap}
use terry.Timer.Heap.Contents.{IsSized}
use terry.Timer.Manager.{
  Env, TimerManager, update, get_timer_from_index, free, delete_timer, expire_now,
  expire_now_and_delete,
}
use terry.Timer.Manager.Links.{update_hit, update_miss}
use terry.Timer.Manager.Keeps.{IsConsistent}
use terry.Timer.Manager.Steps.{gone-IsKept, leave_heap-IsOut, fire-ok, fired-IsKept}

-- A timer is deleted: the manager is consistent, the timer is in no part of it, and the rest of
-- the map and of the heap is as before.
pub record IsDeleted (index tmr : ℕ) (active : ℕ → Option ℕ) (root : List ℕ)
    (r : TimerManager × Bool) : Type 0 where
  pub consistent : IsConsistent r.0
  pub result : r.1 ≡ true
  pub entry : r.0.m_active_timer index ≡ none
  pub object : r.0.m_timers tmr ≡ none
  pub others : (i : ℕ) → i ≢ index → r.0.m_active_timer i ≡ active i
  pub same : Perm (tmr ∷ r.0.m_heap.m_root) root

gone-IsDeleted :
    (index tmr : ℕ) (m : TimerManager)
    → IsConsistent m
    → m.m_active_timer index ≡ some tmr
    → (h : TimerHeap) → IsSized h
    → Perm (tmr ∷ h.m_root) m.m_heap.m_root
    → (spec : Option (ℕ × ℕ))
    → IsDeleted index tmr m.m_active_timer m.m_heap.m_root (
      record m {
        m_timers = update m.m_timers tmr none;
        m_heap = h;
        m_active_timer = update m.m_active_timer index none;
        armed = spec;
      },
      true,
    )
gone-IsDeleted index tmr m k active h sized same spec = record {
  consistent = gone-IsKept [] m tmr [] k index (k.linked.named index tmr active) h sized same spec;
  result = refl;
  entry = update_hit m.m_active_timer index none index refl;
  object = update_hit m.m_timers tmr none tmr refl;
  others = λ i other. update_miss m.m_active_timer index none i other;
  same = same;
}

-- On a consistent manager that has a timer under the index, and at least two timers, delete_timer
-- returns 0 and deletes the timer.
pub delete_timer-IsDeleted :
    (env : Env) (index tmr : ℕ) (m : TimerManager)
    → IsConsistent m
    → m.m_active_timer index ≡ some tmr
    → 1 < length m.m_heap.m_root
    → Returns (IsDeleted index tmr m.m_active_timer m.m_heap.m_root) (delete_timer env index m)
unfolding delete_timer get_timer_from_index free
delete_timer-IsDeleted env index tmr m k active several =
    rw (active, delete_timer, get_timer_from_index)
      (Returns-bind
        (leave_heap-IsOut env tmr (record m { m_active_timer = update m.m_active_timer index none })
          k.sized (k.linked.back index tmr active) several)
        λ m' out.
          rw out.changed
            (returns (gone-IsDeleted index tmr m k active out.heap out.sized out.same out.spec)))

-- On a consistent manager that has a timer under the index, expire_now returns 0. The callback of
-- the timer has been called once more, and the manager is consistent with the same map and heap.
pub expire_now-IsFired :
    (env : Env) (index tmr : ℕ) (m : TimerManager) (t : Timer)
    → IsConsistent m
    → m.m_active_timer index ≡ some tmr
    → m.m_timers tmr ≡ some t
    → Returns
        (λ r.
          IsConsistent r.0
          × (r.1 ≡ true)
          × (r.0.fired ≡ t.m_cb ∷ m.fired)
          × (r.0.m_active_timer ≡ m.m_active_timer)
          × (r.0.m_heap ≡ m.m_heap))
        (expire_now env index m)
unfolding expire_now get_timer_from_index
expire_now-IsFired env index tmr m t k active there =
    rw (active, expire_now, get_timer_from_index, fire-ok env tmr m t there)
      (returns (fired-IsKept env [] tmr m t k there, refl, refl, refl, refl))

-- On a consistent manager that has a timer under the index, and at least two timers,
-- expire_now_and_delete returns 0. The callback of the timer has been called once more, and the
-- timer is deleted.
pub expire_now_and_delete-IsDeleted :
    (env : Env) (index tmr : ℕ) (m : TimerManager) (t : Timer)
    → IsConsistent m
    → m.m_active_timer index ≡ some tmr
    → m.m_timers tmr ≡ some t
    → 1 < length m.m_heap.m_root
    → Returns
        (λ r.
          IsDeleted index tmr m.m_active_timer m.m_heap.m_root r × (r.0.fired ≡ t.m_cb ∷ m.fired))
        (expire_now_and_delete env index m)
unfolding expire_now_and_delete get_timer_from_index free
expire_now_and_delete-IsDeleted env index tmr m t k active there several =
    rw (active, expire_now_and_delete, get_timer_from_index, fire-ok env tmr m t there)
      (Returns-bind
        (leave_heap-IsOut env tmr called k.sized (k.linked.back index tmr active) several)
        λ m' out.
          let d =
            gone-IsDeleted index tmr called (fired-IsKept env [] tmr m t k there) active out.heap
              out.sized out.same out.spec in
          rw out.changed (returns (d, refl)))
  where
    called : TimerManager
    called = record m {
      m_timers = update m.m_timers tmr (some (action (env.outcome t.m_cb) t));
      fired = t.m_cb ∷ m.fired;
    }
