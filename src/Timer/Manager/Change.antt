-- ===== src/Timer/Manager/Change.antt =====
-- timer/Timer_manager.cpp: change_expire_time.
use terry.Base.{
  ap, ℕ, zero, suc, ◌≢◌, arith, ◌<◌, ◌≡◌, refl, inl, inr, Bool, true, false, some, none, [], ◌∷◌,
  Perm, Option, length, ok, Returns, returns, Returns-bind, Returns-if, Bool-cases,
}
use mathlib.Core.List.Perm
use terry.Timer.Manager.Times.{micros, expiry_after-micros}
use terry.Base.Int.{to_u64, ◌+ℤ◌, ℤ, pos, negsuc}
use terry.Timer.Object.{
  TimeVal, Timer, TimerType, one_shot, unlimit, limited, type_of_count, counts_down, change_timeval,
  set_timeout, set_interval_time, set_last_times,
}
use terry.Timer.Heap.{TimerHeap}
use terry.Timer.Heap.Contents.{IsSized, add_timer-perm, delete_timer-perm}
use terry.Timer.Manager.{
  Env, TimerManager, update, expire_in, set_new_timeout, add_and_get_index, expiry_after,
  get_timer_from_index, delete_timer, expire_now, expire_now_and_delete, retimed,
  change_expire_time,
}
use terry.Timer.Manager.Links.{IsLinked-perm, update_hit, update_miss}
use terry.Timer.Manager.Keeps.{is_sound, IsConsistent}
use terry.Timer.Manager.Add.{is_negative}
use terry.Timer.Manager.Steps.{touched-IsKept, set_new_timeout-armed}

-- The timer is put back: only the heap and the timerfd change, and the heap has one timer more.
record IsPut (tmr : ℕ) (m : TimerManager) (r : TimerManager × Option ℕ) : Type 0 where
  heap : TimerHeap
  spec : Option (ℕ × ℕ)
  changed : r.0 ≡ record m { m_heap = heap; armed = spec }
  sized : IsSized heap
  same : Perm heap.m_root (tmr ∷ m.m_heap.m_root)

add_and_get_index-IsPut :
    (env : Env) (tmr : ℕ) (m : TimerManager)
    → IsSized m.m_heap
    → Returns (IsPut tmr m) (add_and_get_index env tmr false m)
unfolding add_and_get_index
add_and_get_index-IsPut env tmr m sized =
    Returns-bind (add_timer-perm (expire_in m.m_timers) tmr m.m_heap sized)
      λ (h, reset) (sized', same). elim (Bool-cases reset) [
        | inl e ↦
            let (spec, set_to) = set_new_timeout-armed env (record m { m_heap = h }) in
            rw e (
              Returns-if (set_new_timeout env (record m { m_heap = h })).1
                (λ works.
                  returns (record {
                    heap = h;
                    spec = spec;
                    changed = set_to;
                    sized = sized';
                    same = same;
                  }))
                (λ fails. returns (record {
                  heap = h;
                  spec = spec;
                  changed = set_to;
                  sized = sized';
                  same = same;
                })))
        | inr e ↦ rw e (
            returns
              (record { heap = h; spec = m.armed; changed = refl; sized = sized'; same = same }))
      ]

set_last_times-keeps :
    (cnt : ℤ) (t : Timer)
    → ((set_last_times cnt t).m_index ≡ t.m_index)
      × ((set_last_times cnt t).m_interval_time ≡ t.m_interval_time)
unfolding set_last_times
set_last_times-keeps cnt t = by_type (type_of_count cnt) refl
  where
    by_type :
        (type : TimerType)
        → type_of_count cnt ≡ type
        → ((set_last_times cnt t).m_index ≡ t.m_index)
          × ((set_last_times cnt t).m_interval_time ≡ t.m_interval_time)
    by_type one_shot e = rw (e, set_last_times) (refl, refl)
    by_type unlimit e = rw (e, set_last_times) (refl, refl)
    by_type limited e = rw (e, set_last_times) (refl, refl)

retimed-index :
    (env : Env) (absolute : Bool) (tv : TimeVal) (cnt : ℤ) (t : Timer)
    → (retimed env absolute tv cnt t).m_index ≡ t.m_index
unfolding retimed set_timeout set_interval_time
retimed-index env true tv cnt t = refl
retimed-index env false tv cnt t = (set_last_times-keeps cnt _).0

interval_is_enough : (t : Timer) {n : ℕ} → t.m_interval_time ≡ some n → is_sound (some t) ≡ true
interval_is_enough t e = rw e refl

retimed_sound :
    (env : Env) (absolute : Bool) (tv : TimeVal) (cnt : ℤ) (t : Timer)
    → is_sound (some t) ≡ true
    → is_sound (some (retimed env absolute tv cnt t)) ≡ true
unfolding retimed set_timeout set_interval_time counts_down
retimed_sound env true tv cnt t sound = sound
retimed_sound env false tv cnt t sound =
    interval_is_enough
      (set_last_times cnt (set_interval_time tv (set_timeout (expiry_after env.now tv) t)))
      (set_last_times-keeps cnt (set_interval_time tv (set_timeout (expiry_after env.now tv) t))).1

-- The type and the count of a timer for a new count: 0 means without end, and leaves the count; above
-- 1 it is limited; and else it goes off once.
abbrev pub counted : ℤ → ℤ → TimerType × ℤ
counted old (pos zero) = (unlimit, old)
counted old (pos (suc zero)) = (one_shot, pos 1)
counted old (pos (suc (suc n))) = (limited, pos (suc (suc n)))
counted old (negsuc n) = (one_shot, pos 1)

-- The timer `t'` is `t` with an absolute expiry: only the expiry is another one.
pub record HasExpiry (tv : TimeVal) (t t' : Timer) : Type 0 where
  pub expiry : t'.m_expire_time ≡ to_u64 (micros tv)
  pub interval : t'.m_interval_time ≡ t.m_interval_time
  pub type : t'.m_timer_type ≡ t.m_timer_type
  pub times : t'.m_last_times ≡ t.m_last_times
  pub index : t'.m_index ≡ t.m_index
  pub callback : t'.m_cb ≡ t.m_cb

-- The timer `t'` is `t` with a time from `now` on, which is its interval too, and a count. Times are
-- numbers of microseconds, in 64 bits.
pub record HasInterval (now tv : TimeVal) (cnt : ℤ) (t t' : Timer) : Type 0 where
  pub expiry : t'.m_expire_time ≡ to_u64 (micros now +ℤ micros tv)
  pub interval : t'.m_interval_time ≡ some (to_u64 (micros tv))
  pub type : t'.m_timer_type ≡ (counted t.m_last_times cnt).0
  pub times : t'.m_last_times ≡ (counted t.m_last_times cnt).1
  pub index : t'.m_index ≡ t.m_index
  pub callback : t'.m_cb ≡ t.m_cb

abbrev pub HasTimes : Env → Bool → TimeVal → ℤ → Timer → Timer → Type 0
HasTimes env true tv cnt = HasExpiry tv
HasTimes env false tv cnt = HasInterval env.now tv cnt

retimed-HasTimes :
    (env : Env) (absolute : Bool) (tv : TimeVal) (cnt : ℤ) (t : Timer)
    → HasTimes env absolute tv cnt t (retimed env absolute tv cnt t)
unfolding retimed set_timeout set_interval_time set_last_times type_of_count change_timeval
retimed-HasTimes env true tv cnt t = record {
  expiry = refl;
  interval = refl;
  type = refl;
  times = refl;
  index = refl;
  callback = refl;
}
retimed-HasTimes env false tv (pos zero) t = record {
  expiry = ap to_u64 (expiry_after-micros env.now tv);
  interval = refl;
  type = refl;
  times = refl;
  index = refl;
  callback = refl;
}
retimed-HasTimes env false tv (pos (suc zero)) t = record {
  expiry = ap to_u64 (expiry_after-micros env.now tv);
  interval = refl;
  type = refl;
  times = refl;
  index = refl;
  callback = refl;
}
retimed-HasTimes env false tv (pos (suc (suc n))) t =
    let several : type_of_count (pos (suc (suc n))) ≡ limited = ground arith in
    rw (several, set_last_times)
      (record {
        expiry = ap to_u64 (expiry_after-micros env.now tv);
        interval = refl;
        type = refl;
        times = refl;
        index = refl;
        callback = refl;
      })
retimed-HasTimes env false tv (negsuc n) t = record {
  expiry = ap to_u64 (expiry_after-micros env.now tv);
  interval = refl;
  type = refl;
  times = refl;
  index = refl;
  callback = refl;
}

-- The manager is consistent, its map is as before, its heap holds the same timers, the other timers
-- are as before, and the timer has the new times.
pub record IsChanged (env : Env) (absolute : Bool) (tv : TimeVal) (cnt : ℤ) (tmr : ℕ) (t : Timer)
    (m : TimerManager) (r : TimerManager × Bool) : Type 0 where
  pub consistent : IsConsistent r.0
  pub active : r.0.m_active_timer ≡ m.m_active_timer
  pub same : Perm r.0.m_heap.m_root m.m_heap.m_root
  pub others : (a : ℕ) → a ≢ tmr → r.0.m_timers a ≡ m.m_timers a
  pub changed : Timer
  pub there : r.0.m_timers tmr ≡ some changed
  pub times : HasTimes env absolute tv cnt t changed

changed-IsConsistent :
    (tmr : ℕ) (m : TimerManager) (t t' : Timer)
    → IsConsistent m
    → m.m_timers tmr ≡ some t
    → t'.m_index ≡ t.m_index
    → is_sound (some t') ≡ true
    → (h : TimerHeap) (spec : Option (ℕ × ℕ)) → IsSized h
    → Perm h.m_root m.m_heap.m_root
    → IsConsistent
        (record m { m_timers = update m.m_timers tmr (some t'); m_heap = h; armed = spec })
changed-IsConsistent tmr m t t' k there same_index sound h spec sized same =
    let touched = touched-IsKept [] m tmr k t t' there same_index sound m.fired in
    record {
      sized = sized;
      linked = IsLinked-perm (Perm.symm same) touched.linked;
      sound = touched.sound;
    }

-- On a consistent manager that has a timer under the index, and at least two timers,
-- change_expire_time with a time that is not negative returns. With an absolute time the timer
-- expires then, and is else as before; with a relative one it expires so long after the present, has
-- the time as its interval, and has the type and the count that belong to the new count. The other
-- timers, the map, the heap's timers and the manager's consistency are as before, whether the timerfd
-- can be set or not.
pub change_expire_time-IsChanged :
    (env : Env) (index tmr : ℕ) (absolute : Bool) (tv : TimeVal) (cnt : ℤ) (m : TimerManager)
    (t : Timer)
    → IsConsistent m
    → m.m_active_timer index ≡ some tmr
    → m.m_timers tmr ≡ some t
    → 1 < length m.m_heap.m_root
    → is_negative tv ≡ false
    → Returns
        (IsChanged env absolute tv cnt tmr t m)
        (change_expire_time env index absolute tv cnt m)
unfolding change_expire_time get_timer_from_index
change_expire_time-IsChanged env index tmr absolute tv cnt m t k active there several valid =
    let t' = retimed env absolute tv cnt t in
    rw (valid, active, change_expire_time, get_timer_from_index)
      (Returns-bind
        (delete_timer-perm (expire_in m.m_timers) tmr m.m_heap k.sized
          (k.linked.back index tmr active) several)
        λ (h, _) (sized, out). rw there (
          Returns-bind
            (add_and_get_index-IsPut env tmr
              (record m { m_heap = h; m_timers = update m.m_timers tmr (some t') }) sized)
            λ (m', index') put. rw put.changed (
              returns (record {
                consistent =
                    changed-IsConsistent tmr m t t' k there (retimed-index env absolute tv cnt t)
                      (retimed_sound env absolute tv cnt t (rw there at (k.sound tmr))) put.heap
                      put.spec put.sized (Perm.trans put.same out);
                active = refl;
                same = Perm.trans put.same out;
                others = λ a ne. update_miss m.m_timers tmr (some t') a ne;
                changed = t';
                there = update_hit m.m_timers tmr (some t') tmr refl;
                times = retimed-HasTimes env absolute tv cnt t;
              }))))

-- An index that the map does not hold is answered with -1 by delete_timer, expire_now,
-- expire_now_and_delete and change_expire_time, and nothing changes.
pub missing-unchanged :
    (env : Env) (index : ℕ) (absolute : Bool) (tv : TimeVal) (cnt : ℤ) (m : TimerManager)
    → m.m_active_timer index ≡ none
    → (delete_timer env index m ≡ ok (m, false))
      × (expire_now env index m ≡ ok (m, false))
      × (expire_now_and_delete env index m ≡ ok (m, false))
      × (change_expire_time env index absolute tv cnt m ≡ ok (m, false))
unfolding delete_timer expire_now expire_now_and_delete change_expire_time get_timer_from_index
missing-unchanged env index absolute tv cnt m gone = (
  rw (gone, delete_timer) refl,
  rw (gone, expire_now) refl,
  rw (gone, expire_now_and_delete) refl,
  elim (Bool-cases (is_negative tv)) [
    | inl e ↦ rw e refl
    | inr e ↦ rw (e, gone, change_expire_time) refl
  ],
)
