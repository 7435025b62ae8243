-- ===== src/Timer/Manager/Tests.antt =====
-- timer/Timer_manager.cpp: runs of the class, and its theorems at concrete inputs.
use terry.Base.{
  if◌then◌else◌, ℕ, zero, suc, ◌+◌, ◌-◌, ◌*◌, ◌≤◌, ◌<◌, ◌≡◌, refl, Bool, true, false, some, none,
  List, [], ◌∷◌, arith, Option, length, Run, ok, fault, out_of_fuel, Returns, returns, load, store,
  swap_cells,
}
use terry.Base.Int.{ℤ, pos, negsuc, ltb_ℤ}
use terry.Timer.Object.{
  TimeVal, Timer, change_timeval, new_timer, type_of_count, one_shot, set_index,
}
use terry.Timer.Heap.{
  add_timer_to_heap, adjust_heap, adjust_up, expire_at, root_expire, get_root_time,
}
use terry.Timer.Manager.{
  Env, TimerManager, expire_in, next_free, set_new_timeout, assign_index, add_and_get_index,
  allocate, expiry_after, add_timer, delete_timer, initialized, change_expire_time, expire_all,
}
use terry.Timer.Manager.Keeps.{IsConsistent, initialized-IsConsistent}
use terry.Timer.Manager.Add.{IsAdded, add_timer-IsAdded}
use terry.Timer.Manager.Remove.{IsDeleted, delete_timer-IsDeleted}
use terry.Timer.Manager.Expire.{IsExpireAll, expire_all-IsExpireAll}
use terry.Timer.Manager.Change.{IsChanged, change_expire_time-IsChanged}

abbrev at : ℕ → TimeVal
at sec = record { tv_sec = pos sec; tv_usec = pos 0 }

-- Every call succeeds, at the given second.
abbrev env_at : ℕ → Env
env_at sec = record { now = at sec; later = λ a. at sec; settime_ok = true; outcome = λ cb. pos 0 }

abbrev got : Run (TimerManager × Option ℕ) → TimerManager
got (ok r) = r.0
got fault = initialized
got out_of_fuel = initialized

IsConsistent-got :
    {m : TimerManager} {run : Run (TimerManager × Option ℕ)}
    → Returns (IsAdded m) run
    → IsConsistent (got run)
IsConsistent-got (returns good) = good.consistent

-- A timer that expires at second 105, five times.
abbrev one : TimerManager
one = got (add_timer (env_at 100) (at 5) 7 (pos 5) initialized)

one-IsConsistent : IsConsistent one
one-IsConsistent =
    IsConsistent-got
      (add_timer-IsAdded (env_at 100) initialized (at 5) 7 (pos 5) initialized-IsConsistent refl)

-- And one that expires at second 102, once.
abbrev two : TimerManager
two = got (add_timer (env_at 100) (at 2) 8 (pos 1) one)

two-IsConsistent : IsConsistent two
two-IsConsistent =
    IsConsistent-got (add_timer-IsAdded (env_at 100) one (at 2) 8 (pos 1) one-IsConsistent refl)

abbrev timer_1 : Timer
timer_1 = record {
  m_expire_time = 102_000_000;
  m_interval_time = some 2_000_000;
  m_cb = 8;
  m_timer_type = one_shot;
  m_last_times = pos 1;
  m_last_error = pos 0;
  m_index = some 2;
}

two_facts :
    (two.m_heap.m_root ≡ 1 ∷ 0 ∷ [])
    × (two.m_active_timer 2 ≡ some 1)
    × (two.m_active_timer 7 ≡ none)
    × (two.m_timers 1 ≡ some timer_1)
    × (get_root_time (expire_in two.m_timers) two.m_heap ≡ 102_000_000)
    × (change_timeval (at 103) ≡ 103_000_000)
    × (change_timeval (at 102) ≡ 102_000_000)
unfolding add_timer add_and_get_index allocate new_timer add_timer_to_heap adjust_heap initialized
    expire_at load root_expire set_new_timeout assign_index next_free adjust_up change_timeval
    expiry_after set_index swap_cells store get_root_time type_of_count terry.Base.Int.to_u64
    terry.Base.Int.◌+ℤ◌ terry.Base.Int.◌*ℤ◌ terry.Base.Int.◌-ℤ◌
two_facts = (refl, refl, refl, refl, refl, refl, refl)

add_timer-IsAdded_example : Returns (IsAdded one) (add_timer (env_at 100) (at 2) 8 (pos 1) one)
add_timer-IsAdded_example =
    add_timer-IsAdded (env_at 100) one (at 2) 8 (pos 1) one-IsConsistent refl

two_timers : length two.m_heap.m_root ≡ 2
two_timers = rw two_facts.0 refl

delete_timer-IsDeleted_example :
    Returns (IsDeleted 2 1 two.m_active_timer two.m_heap.m_root) (delete_timer (env_at 101) 2 two)
delete_timer-IsDeleted_example =
    delete_timer-IsDeleted (env_at 101) 2 1 two two-IsConsistent two_facts.1
      (omega (arith, two_timers))

change_expire_time-IsChanged_example :
    Returns
      (IsChanged (env_at 101) false (at 9) (pos 3) 1 timer_1 two)
      (change_expire_time (env_at 101) 2 false (at 9) (pos 3) two)
change_expire_time-IsChanged_example =
    change_expire_time-IsChanged (env_at 101) 2 1 false (at 9) (pos 3) two timer_1 two-IsConsistent
      two_facts.1 two_facts.3 (omega (arith, two_timers)) refl

expire_all-IsExpireAll_example :
    Returns (IsExpireAll (env_at 103) two) (expire_all (env_at 103) two)
expire_all-IsExpireAll_example =
    expire_all-IsExpireAll (env_at 103) two two-IsConsistent (omega (arith, two_timers))
      (omega (arith, two_facts.4, two_facts.5))

abbrev env_without_timerfd : Env
env_without_timerfd = record (env_at 100) { settime_ok = false }
