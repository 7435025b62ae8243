-- ===== src/Timer/Manager/Add.antt =====
-- timer/Timer_manager.cpp: add_timer and add_and_get_index.
use terry.Base.{
  load, ℕ, zero, suc, ◌+◌, ◌-◌, ◌*◌, ◌/◌, ◌%◌, ◌≤◌, ◌<◌, ◌^◌, ◌≡◌, ◌≢◌, ◌↔◌, refl, sym, ap, ◌∙◌,
  ◌⊎◌, inl, inr, Bool, true, false, not, ◌||◌, some, none, List, [], ◌∷◌, ◌++◌, map, Perm, arith,
  ltb, leb, ◌==◌, if◌then◌else◌, ◌&&◌, Option, length, get_elem?, get_or, set, take, drop,
  replicate, length-append, length-take, length-drop, length-replicate, length-set,
  take-append-drop, get_elem?-set, get_elem?-take, get_elem?-inside, get_elem?-append,
  get_elem?-get_or, get_or-set, get_elem?-past, eq_of_get_elem?, Run, ok, fault, out_of_fuel, ◌>>=◌,
  ◌>>◌, check, or_fault, load, load-ok, store, store-ok, Returns, returns, Returns-bind,
  Returns-map, Returns-if, Returns-inv, sub64, sub32, u64_mod, u32_mod, Bool-cases, Option-cases,
  dec_lt, ℕ_discrete, ==_iff, ==_refl, ltb→lt, lt→ltb, ltb→ge, ge→ltb,
}
use mathlib.Core.List.Perm
use terry.Base.{length-perm}
use terry.Base.Int.{ℤ, pos, negsuc, ltb_ℤ}
use terry.Timer.Object.{
  TimeVal, Timer, change_timeval, type_of_count, counts_down, new_timer, set_index,
}
use terry.Timer.Heap.{
  add_timer_to_heap, adjust_heap, root_expire, expire_at, TimerHeap, get_root_time,
}
use terry.Timer.Heap.Contents.{IsSized, add_timer-perm}
use terry.Timer.Manager.{
  Env, TimerManager, spec_of, update, expire_in, next_free, set_new_timeout, assign_index,
  add_and_get_index, allocate, gap, gap_interval, expiry_after, add_timer_at, add_timer,
}
use terry.Timer.Manager.Links.{
  IsLinked-perm, IsLinked-index, IsLinked-insert, next-free, update_hit, update_miss,
}
use terry.Timer.Manager.Keeps.{index_of_timer, index_in, is_sound, IsConsistent, update_sound}

-- The timerfd is the only thing that set_new_timeout changes.
pub set_new_timeout-ok :
    (env : Env) (m : TimerManager)
    → env.settime_ok ≡ true
    → (spec : Option (ℕ × ℕ)) × (set_new_timeout env m ≡ (record m { armed = spec }, true))
unfolding set_new_timeout
set_new_timeout-ok env m e = (some (spec_of (get_root_time (expire_in m.m_timers) m.m_heap)), rw e)

next_free-free :
    (active : ℕ → Option ℕ) (i : ℕ) → active (i + 1) ≡ none → next_free 2 active i ≡ ok (i + 1)
unfolding next_free
next_free-free active i e = rw (e, next_free)

-- A call that gives the timer an index: the manager is consistent, the index is the next one, and
-- the map holds the new timer under it.
pub record IsAdded (m : TimerManager) (r : TimerManager × Option ℕ) : Type 0 where
  pub consistent : IsConsistent r.0
  pub result : r.1 ≡ some (m.m_next_index + 1)
  pub entry : r.0.m_active_timer (m.m_next_index + 1) ≡ some m.next_address
  pub others : (i : ℕ) → i ≢ m.m_next_index + 1 → r.0.m_active_timer i ≡ m.m_active_timer i
  pub heap : Perm r.0.m_heap.m_root (m.next_address ∷ m.m_heap.m_root)

module _ (m : TimerManager) (k : IsConsistent m) (t : Timer)
    (sound : is_sound (some t) ≡ true) where
  -- The manager once the timer's object is there and in the heap `h`, with the timerfd set.
  abbrev in_heap : TimerHeap → Option (ℕ × ℕ) → TimerManager
  in_heap h spec = record m {
    m_timers = update m.m_timers m.next_address (some t);
    next_address = suc m.next_address;
    m_heap = h;
    armed = spec;
  }

  indexed :
      (a : ℕ)
      → index_in
          (update
            (update m.m_timers m.next_address (some t))
            m.next_address
            (some (set_index (m.m_next_index + 1) t)))
          a
        ≡ update (index_in m.m_timers) m.next_address (some (m.m_next_index + 1)) a
  unfolding set_index
  indexed a = elim (Bool-cases (a == m.next_address)) [ inl e ↦ rw e | inr e ↦ rw e ]

  set_index_sound : is_sound (some (set_index (m.m_next_index + 1) t)) ≡ true
  unfolding set_index counts_down
  set_index_sound = sound

  assign_index-IsAdded :
      (h : TimerHeap) (spec : Option (ℕ × ℕ))
      → IsSized h
      → Perm h.m_root (m.next_address ∷ m.m_heap.m_root)
      → Returns (IsAdded m) (assign_index m.next_address (in_heap h spec))
  unfolding assign_index
  assign_index-IsAdded h spec sized same =
      let free_index =
        next_free-free m.m_active_timer m.m_next_index (next-free m.m_heap.m_root k.linked) in
      let there = update_hit m.m_timers m.next_address (some t) m.next_address refl in
      rw (free_index, there)
        (returns (record {
          consistent = record {
            sized = sized;
            linked =
                IsLinked-perm (Perm.symm same)
                  (IsLinked-index indexed (IsLinked-insert m.m_heap.m_root k.linked));
            sound =
                update_sound _ m.next_address _
                  (update_sound m.m_timers m.next_address (some t) k.sound sound) set_index_sound;
          };
          result = refl;
          entry = update_hit m.m_active_timer (m.m_next_index + 1) _ (m.m_next_index + 1) refl;
          others = λ i other. update_miss m.m_active_timer (m.m_next_index + 1) _ i other;
          heap = same;
        }))

  pub add_new-IsAdded :
      (env : Env)
      → env.settime_ok ≡ true
      → Returns (IsAdded m) (add_and_get_index env (allocate t m).1 true (allocate t m).0)
  unfolding add_and_get_index allocate
  add_new-IsAdded env works =
      Returns-bind (add_timer-perm _ m.next_address m.m_heap k.sized) λ (h, reset) (sized, same).
        elim (Bool-cases reset) [
          | inl first ↦
              let (spec, e) = set_new_timeout-ok env (in_heap h m.armed) works in
              rw (first, e) (assign_index-IsAdded h spec sized same)
          | inr later ↦ rw later (assign_index-IsAdded h m.armed sized same)
        ]

interval_is_sound :
    (tm : TimeVal) (interval cb : ℕ) (ct : ℤ)
    → is_sound (some (new_timer tm (some interval) cb ct)) ≡ true
unfolding new_timer
interval_is_sound tm interval cb ct = refl

one_shot_is_sound :
    (tm : TimeVal) (interval : Option ℕ) (cb : ℕ)
    → is_sound (some (new_timer tm interval cb (pos 1))) ≡ true
unfolding new_timer type_of_count counts_down terry.Base.Int.◌-ℤ◌
one_shot_is_sound tm none cb = refl
one_shot_is_sound tm (some n) cb = refl

-- What add_timer answers to a negative time, and what to another one.
abbrev pub is_negative : TimeVal → Bool
is_negative tv = ltb_ℤ tv.tv_sec (pos 0) || ltb_ℤ tv.tv_usec (pos 0)

-- On a consistent manager, where the timerfd can be set, add_timer with a relative time returns.
-- If a part of the time is negative, it answers -1 and changes nothing. Else it answers the next
-- index, the map holds the new timer under it and the old entries, the heap has one timer more,
-- and the manager is consistent.
pub add_timer-IsAdded :
    (env : Env) (m : TimerManager) (tv : TimeVal) (cb : ℕ) (cnt : ℤ)
    → IsConsistent m
    → env.settime_ok ≡ true
    → Returns
        (λ r. if is_negative tv then r ≡ (m, none) else IsAdded m r)
        (add_timer env tv cb cnt m)
unfolding add_timer
add_timer-IsAdded env m tv cb cnt k works = elim (Bool-cases (is_negative tv)) [
  | inl e ↦ rw e (returns refl)
  | inr e ↦ rw e (
      add_new-IsAdded m k (new_timer (expiry_after env.now tv) (some (change_timeval tv)) cb cnt)
        (interval_is_sound (expiry_after env.now tv) (change_timeval tv) cb cnt) env works)
]

-- On a consistent manager, where the timerfd can be set, add_timer with an absolute time returns.
-- If the second has passed, it answers -1 and changes nothing. Else it answers the next index, the
-- map holds the new timer under it and the old entries, the heap has one timer more, and the
-- manager is consistent.
pub add_timer_at-IsAdded :
    (env : Env) (m : TimerManager) (tm : TimeVal) (cb : ℕ)
    → IsConsistent m
    → env.settime_ok ≡ true
    → Returns
        (λ r. if ltb_ℤ (gap tm env.now).0 (pos 0) then r ≡ (m, none) else IsAdded m r)
        (add_timer_at env tm cb m)
unfolding add_timer_at
add_timer_at-IsAdded env m tm cb k works = elim (Bool-cases (ltb_ℤ (gap tm env.now).0 (pos 0))) [
  | inl e ↦ rw e (returns refl)
  | inr e ↦ rw e (
      add_new-IsAdded m k (new_timer tm (gap_interval (gap tm env.now)) cb (pos 1))
        (one_shot_is_sound tm (gap_interval (gap tm env.now)) cb) env works)
]

empty_heap :
    (expire : ℕ → ℕ) (tmr : ℕ)
    → add_timer_to_heap expire tmr (record { m_root = []; m_heap_size = 0 })
      ≡ ok (record { m_root = tmr ∷ []; m_heap_size = 1 }, true)
unfolding add_timer_to_heap adjust_heap root_expire expire_at load
empty_heap expire tmr = refl

-- Where the timerfd cannot be set, add_timer on a manager that has no timers answers -1, and yet
-- the new timer is in the heap, under no index.
pub add_timer-unlinked :
    (env : Env) (m : TimerManager) (tv : TimeVal) (cb : ℕ) (cnt : ℤ)
    → m.m_heap ≡ record { m_root = []; m_heap_size = 0 }
    → env.settime_ok ≡ false
    → is_negative tv ≡ false
    → Returns
        (λ r.
          (r.1 ≡ none)
          × (r.0.m_heap.m_root ≡ m.next_address ∷ [])
          × (r.0.m_active_timer ≡ m.m_active_timer)
          × (index_in r.0.m_timers m.next_address ≡ none))
        (add_timer env tv cb cnt m)
unfolding add_timer add_and_get_index allocate set_new_timeout new_timer
add_timer-unlinked env m tv cb cnt empty fails valid =
    let tmr = m.next_address in
    let t = new_timer (expiry_after env.now tv) (some (change_timeval tv)) cb cnt in
    rw (valid, empty, empty_heap (expire_in (update m.m_timers tmr (some t))) tmr, fails)
      (returns (refl, refl, refl, ap index_of_timer (update_hit m.m_timers tmr (some t) tmr refl)))
