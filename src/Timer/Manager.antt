-- ===== src/Timer/Manager.antt =====
-- timer/Timer_manager.cpp and timer/Timer_manager.h: the class TimerManager.
-- A timer object lives at an address; `m_timers` is the memory of the timers, `none` where no
-- object is. The maps are functions. What a call takes from outside is its `Env`: the time, whether
-- `timerfd_settime` succeeds, the time that continue_timer reads for each timer, and what the
-- callbacks return. A callback does not call the manager, as the header demands.
pub mod Links
pub mod Keeps
pub mod Add
pub mod Steps
pub mod Remove
pub mod Serve
pub mod Times
pub mod Change
pub mod Expire
mod Tests
use terry.Base.{
  ℕ, zero, suc, ◌+◌, ◌-◌, ◌*◌, ◌/◌, ◌%◌, ◌≡◌, Bool, true, false, Option, none, some, List, [], ◌∷◌,
  ◌++◌, ltb, leb, ◌==◌, ◌&&◌, ◌||◌, not, if◌then◌else◌, length, Run, ok, fault, out_of_fuel, ◌>>=◌,
  ◌>>◌, check, or_fault, u64_mod,
}
use terry.Base.Int.{ℤ, pos, negsuc, ◌+ℤ◌, ◌-ℤ◌, ltb_ℤ}
pub use terry.Base.Maps.{update}
use terry.Timer.Object.{
  TimeVal, Timer, change_timeval, new_timer, action, set_timeout, set_interval_time, set_last_times,
  set_index, continue_timer,
}
use terry.Timer.Heap.{
  TimerHeap, add_timer_to_heap, get_root_time, get_and_remove_expire_timers, delete_timer_from_heap,
}

pub record Env : Type 0 where
  pub now : TimeVal
  pub later : ℕ → TimeVal
  pub settime_ok : Bool
  pub outcome : ℕ → ℤ

pub record TimerManager : Type 0 where
  pub m_timers : ℕ → Option Timer
  pub next_address : ℕ
  pub m_heap : TimerHeap
  pub m_active_timer : ℕ → Option ℕ
  pub m_next_index : ℕ
  -- What the timerfd was last set to: seconds and nanoseconds.
  pub armed : Option (ℕ × ℕ)
  -- The callbacks that have been called, the last one first.
  pub fired : List ℕ

-- The manager after a successful initialize.
unfoldable pub initialized : TimerManager
initialized = record {
  m_timers = λ a. none;
  next_address = 0;
  m_heap = record { m_root = []; m_heap_size = 0 };
  m_active_timer = λ i. none;
  m_next_index = 0;
  armed = none;
  fired = [];
}

abbrev pub expire_of_timer : Option Timer → ℕ
expire_of_timer none = 0
expire_of_timer (some t) = t.m_expire_time

-- get_expire_time of the timer at an address.
abbrev pub expire_in : (ℕ → Option Timer) → ℕ → ℕ
expire_in timers a = expire_of_timer (timers a)

-- The loop of add_and_get_index that looks for a free index, with the index that was last given.
unfoldable pub next_free : ℕ → (ℕ → Option ℕ) → ℕ → Run ℕ
next_free zero active i = out_of_fuel
next_free (suc fuel) active i = elim (active (i + 1)) [
  | none ↦ ok (i + 1)
  | some _ ↦ next_free fuel active (i + 1)
]

-- The two parts of `spec.it_value`.
unfoldable pub spec_of : ℕ → ℕ × ℕ
spec_of expire = (expire / 1_000_000, expire % 1_000_000 * 1000)

-- The result is whether the call succeeded: `true` for 0, `false` for -1.
unfoldable pub set_new_timeout : Env → TimerManager → TimerManager × Bool
set_new_timeout env m =
    if env.settime_ok
    then (record m { armed = some (spec_of (get_root_time (expire_in m.m_timers) m.m_heap)) }, true)
    else (m, false)

-- Give the timer at an address the next free index.
unfoldable pub assign_index : ℕ → TimerManager → Run (TimerManager × Option ℕ)
assign_index tmr m = do
  index ← next_free 2 m.m_active_timer m.m_next_index
  t ← or_fault (m.m_timers tmr)
  ok (
    record m {
      m_next_index = index;
      m_active_timer = update m.m_active_timer index (some tmr);
      m_timers = update m.m_timers tmr (some (set_index index t));
    },
    some index,
  )

-- The result is the index, or `none` for -1. Without an index the answer is 0.
unfoldable pub add_and_get_index : Env → ℕ → Bool → TimerManager → Run (TimerManager × Option ℕ)
add_and_get_index env tmr if_index m = do
  (heap, reset) ← add_timer_to_heap (expire_in m.m_timers) tmr m.m_heap
  let added = record m { m_heap = heap }
  let (set, success) = if reset then set_new_timeout env added else (added, true)
  if success then (if if_index then assign_index tmr set else ok (set, some 0)) else ok (set, none)

-- `new Timer(...)`: the object at a new address.
unfoldable pub allocate : Timer → TimerManager → TimerManager × ℕ
allocate t m = (
  record m {
    m_timers = update m.m_timers m.next_address (some t);
    next_address = suc m.next_address;
  },
  m.next_address,
)

-- The gap between the present and a given time; the branch without a borrow leaves the
-- microseconds of the gap unset.
unfoldable pub gap : TimeVal → TimeVal → ℤ × Option ℤ
gap tm now =
    if ltb_ℤ tm.tv_usec now.tv_usec
    then (tm.tv_sec -ℤ pos 1 -ℤ now.tv_sec, some (tm.tv_usec -ℤ now.tv_usec +ℤ pos 1_000_000))
    else (tm.tv_sec -ℤ now.tv_sec, none)

abbrev pub gap_interval : ℤ × Option ℤ → Option ℕ
gap_interval (sec, none) = none
gap_interval (sec, some usec) = some (change_timeval (record { tv_sec = sec; tv_usec = usec }))

-- add_timer with an absolute time.
unfoldable pub add_timer_at : Env → TimeVal → ℕ → TimerManager → Run (TimerManager × Option ℕ)
add_timer_at env tm cb m =
    if ltb_ℤ (gap tm env.now).0 (pos 0)
    then ok (m, none)
    else let (m', tmr) = allocate (new_timer tm (gap_interval (gap tm env.now)) cb (pos 1)) m in
      add_and_get_index env tmr true m'

-- add_timer with an absolute time in seconds.
unfoldable pub add_timer_at_second : Env → ℤ → ℕ → TimerManager → Run (TimerManager × Option ℕ)
add_timer_at_second env tmt cb m = add_timer_at env (record { tv_sec = tmt; tv_usec = pos 0 }) cb m

-- The time that lies an interval after `now`, with one carry at most.
unfoldable pub expiry_after : TimeVal → TimeVal → TimeVal
expiry_after now tv =
    let usec = now.tv_usec +ℤ tv.tv_usec in
    if ltb_ℤ usec (pos 1_000_000)
    then record { tv_sec = now.tv_sec +ℤ (tv.tv_sec +ℤ pos 0); tv_usec = usec }
    else record { tv_sec = now.tv_sec +ℤ (tv.tv_sec +ℤ pos 1); tv_usec = usec -ℤ pos 1_000_000 }

-- add_timer with a time relative to the present and a count.
unfoldable pub add_timer : Env → TimeVal → ℕ → ℤ → TimerManager → Run (TimerManager × Option ℕ)
add_timer env tv cb cnt m =
    if ltb_ℤ tv.tv_sec (pos 0) || ltb_ℤ tv.tv_usec (pos 0)
    then ok (m, none)
    else let (m', tmr) =
        allocate (new_timer (expiry_after env.now tv) (some (change_timeval tv)) cb cnt) m in
      add_and_get_index env tmr true m'

unfoldable pub get_timer_from_index : ℕ → TimerManager → Option ℕ
get_timer_from_index index m = m.m_active_timer index

-- The callback of the timer at an address is called.
unfoldable pub fire : Env → ℕ → TimerManager → Run TimerManager
fire env tmr m = do
  t ← or_fault (m.m_timers tmr)
  ok (record m {
    m_timers = update m.m_timers tmr (some (action (env.outcome t.m_cb) t));
    fired = t.m_cb ∷ m.fired;
  })

-- `delete tmr`
unfoldable pub free : ℕ → TimerManager → TimerManager
free tmr m = record m { m_timers = update m.m_timers tmr none }

-- The timer leaves the heap, and the timerfd is set if the first expiry has changed; a failure to
-- set it is only logged.
unfoldable pub leave_heap : Env → ℕ → TimerManager → Run TimerManager
leave_heap env tmr m = do
  (heap, reset) ← delete_timer_from_heap (expire_in m.m_timers) tmr m.m_heap
  let left = record m { m_heap = heap }
  ok (if reset then (set_new_timeout env left).0 else left)

-- `false` stands for -1.
unfoldable pub delete_timer : Env → ℕ → TimerManager → Run (TimerManager × Bool)
delete_timer env index m = elim (get_timer_from_index index m) [
  | none ↦ ok (m, false)
  | some tmr ↦ do
    m' ← leave_heap env tmr (record m { m_active_timer = update m.m_active_timer index none })
    ok (free tmr m', true)
]

unfoldable pub expire_now : Env → ℕ → TimerManager → Run (TimerManager × Bool)
expire_now env index m = elim (get_timer_from_index index m) [
  | none ↦ ok (m, false)
  | some tmr ↦ do m' ← fire env tmr m; ok (m', true)
]

unfoldable pub expire_now_and_delete : Env → ℕ → TimerManager → Run (TimerManager × Bool)
expire_now_and_delete env index m = elim (get_timer_from_index index m) [
  | none ↦ ok (m, false)
  | some tmr ↦ do
    m' ← fire env tmr m
    m'' ← leave_heap env tmr m'
    ok (free tmr (record m'' { m_active_timer = update m''.m_active_timer index none }), true)
]

-- The new times of a timer: an absolute expiry, or an interval from now with a count.
unfoldable pub retimed : Env → Bool → TimeVal → ℤ → Timer → Timer
retimed env absolute tv cnt t =
    if absolute
    then set_timeout tv t
    else set_last_times cnt (set_interval_time tv (set_timeout (expiry_after env.now tv) t))

-- The flag that delete_timer_from_heap returns is not used here.
unfoldable pub change_expire_time :
    Env → ℕ → Bool → TimeVal → ℤ → TimerManager → Run (TimerManager × Bool)
change_expire_time env index absolute tv cnt m =
    if ltb_ℤ tv.tv_sec (pos 0) || ltb_ℤ tv.tv_usec (pos 0)
    then ok (m, false)
    else elim (get_timer_from_index index m) [
      | none ↦ ok (m, false)
      | some tmr ↦ do
        (heap, _) ← delete_timer_from_heap (expire_in m.m_timers) tmr m.m_heap
        t ← or_fault (m.m_timers tmr)
        let changed = record m {
          m_heap = heap;
          m_timers = update m.m_timers tmr (some (retimed env absolute tv cnt t));
        }
        (m', index') ← add_and_get_index env tmr false changed
        ok (m', elim index' [ none ↦ false | some _ ↦ true ])
    ]

-- One round of the loop of expire_all.
unfoldable pub expire_one : Env → ℕ → TimerManager → Run TimerManager
expire_one env tmr m = do
  called ← fire env tmr m
  t ← or_fault (called.m_timers tmr)
  (t', more) ← continue_timer (env.later tmr) t
  let counted = record called { m_timers = update called.m_timers tmr (some t') }
  if more
      then (do
        (heap, _) ← add_timer_to_heap (expire_in counted.m_timers) tmr counted.m_heap
        ok (record counted { m_heap = heap }))
      else (do
        index ← or_fault t'.m_index
        ok (
            free tmr
              (record counted { m_active_timer = update counted.m_active_timer index none })))

unfoldable pub expire_list : Env → List ℕ → TimerManager → Run TimerManager
expire_list env [] m = ok m
expire_list env (tmr ∷ rest) m = expire_one env tmr m >>= expire_list env rest

unfoldable pub expire_all : Env → TimerManager → Run (TimerManager × Bool)
expire_all env m = do
  (heap, expired) ←
      get_and_remove_expire_timers (expire_in m.m_timers) (change_timeval env.now) m.m_heap
  check (not (length expired == 0))
  m' ← expire_list env expired (record m { m_heap = heap })
  if get_root_time (expire_in m'.m_timers) m'.m_heap == u64_mod - 1
      then ok (m', true)
      else ok (set_new_timeout env m')
