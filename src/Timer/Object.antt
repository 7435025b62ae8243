-- ===== src/Timer/Object.antt =====
-- timer/Timer.cpp and timer/Timer.h: the class Timer and the conversion of a `struct timeval`.
-- A callback is a number that names it; `outcome` is what calling it returns.
use terry.Base.{
  ℕ, ◌+◌, ◌%◌, Bool, true, false, Option, none, some, ltb, ◌==◌, if◌then◌else◌, u64_mod, Run, ok,
  ◌>>=◌, or_fault,
}
use terry.Base.Int.{ℤ, pos, negsuc, ◌+ℤ◌, ◌-ℤ◌, ◌*ℤ◌, ltb_ℤ, to_u64}

pub record TimeVal : Type 0 where
  pub tv_sec : ℤ
  pub tv_usec : ℤ

pub data TimerType : Type 0 where
  one_shot unlimit limited : TimerType

-- The interval is `none` while its value is indeterminate, and so is the index.
pub record Timer : Type 0 where
  pub m_expire_time : ℕ
  pub m_interval_time : Option ℕ
  pub m_cb : ℕ
  pub m_timer_type : TimerType
  pub m_last_times : ℤ
  pub m_last_error : ℤ
  pub m_index : Option ℕ

unfoldable pub change_timeval : TimeVal → ℕ
change_timeval tm = to_u64 (tm.tv_sec *ℤ pos 1_000_000 +ℤ tm.tv_usec)

-- The type and the count that the constructor and set_last_times derive from a count.
unfoldable pub type_of_count : ℤ → TimerType
type_of_count (pos n) = if n == 0 then unlimit else if ltb 1 n then limited else one_shot
type_of_count (negsuc n) = one_shot

unfoldable pub new_timer : TimeVal → Option ℕ → ℕ → ℤ → Timer
new_timer tm interval cb ct = record {
  m_expire_time = change_timeval tm;
  m_interval_time = interval;
  m_cb = cb;
  m_timer_type = type_of_count ct;
  m_last_times = elim (type_of_count ct) [ one_shot ↦ pos 1 | _ ↦ ct ];
  m_last_error = pos 0;
  m_index = none;
}

-- action, with what the callback returns.
unfoldable pub action : ℤ → Timer → Timer
action result t = record t { m_last_error = result }

unfoldable pub set_timeout : TimeVal → Timer → Timer
set_timeout tm t = record t { m_expire_time = change_timeval tm }

unfoldable pub set_interval_time : TimeVal → Timer → Timer
set_interval_time tm t = record t { m_interval_time = some (change_timeval tm) }

-- A count of 0 makes the timer unlimited and leaves the count as it is.
unfoldable pub set_last_times : ℤ → Timer → Timer
set_last_times cnt t = elim (type_of_count cnt) [
  | unlimit ↦ record t { m_timer_type = unlimit }
  | limited ↦ record t { m_timer_type = limited; m_last_times = cnt }
  | one_shot ↦ record t { m_timer_type = one_shot; m_last_times = pos 1 }
]

unfoldable pub set_index : ℕ → Timer → Timer
set_index index t = record t { m_index = some index }

-- The decision of continue_timer, with the count after it.
unfoldable pub counts_down : Timer → ℤ × Bool
counts_down t = elim t.m_timer_type [
  | unlimit ↦ (t.m_last_times, true)
  | _ ↦ (t.m_last_times -ℤ pos 1, ltb_ℤ (pos 0) (t.m_last_times -ℤ pos 1))
]

-- The time `now` is read only if the timer goes on.
unfoldable pub continue_timer : TimeVal → Timer → Run (Timer × Bool)
continue_timer now t =
    let (left, more) = counts_down t in
    let restart : Run (Timer × Bool) = do
      interval ← or_fault t.m_interval_time
      ok (
        record t { m_last_times = left; m_expire_time = (change_timeval now + interval) % u64_mod },
        true,
      )
    in if more then restart else ok (record t { m_last_times = left }, false)
