-- ===== src/Timer/Manager/Steps.antt =====
-- timer/Timer_manager.cpp: what the operations that remove or call a timer share.
use terry.Base.{
  ℕ, ◌<◌, ◌≡◌, refl, inl, inr, true, some, none, List, ◌∷◌, ◌++◌, Perm, arith, Option, length, ok,
  Returns, returns, Returns-bind, Bool-cases, Option-cases, ℕ_discrete,
}
use mathlib.Core.List.{Mem}
use mathlib.Core.List.Perm
use terry.Base.Int.{ℤ}
use terry.Timer.Object.{Timer, counts_down, action}
use terry.Timer.Heap.{TimerHeap, get_root_time}
use terry.Timer.Heap.Contents.{IsSized, delete_timer-perm}
use terry.Timer.Manager.{
  Env, TimerManager, spec_of, update, expire_in, set_new_timeout, fire, leave_heap,
}
use terry.Timer.Manager.Links.{
  IsLinked-perm, IsLinked-index, IsLinked-remove, update_hit, update_miss,
}
use terry.Timer.Manager.Keeps.{index_of_timer, index_in, is_sound, IsKept, map_update, update_sound}

module _ (pending : List ℕ) (m : TimerManager) (a : ℕ) where
  -- A timer with new values but its old index.
  pub touched-IsKept :
      IsKept pending m
      → (t t' : Timer) → m.m_timers a ≡ some t
      → t'.m_index ≡ t.m_index
      → is_sound (some t') ≡ true
      → (fired : List ℕ)
      → IsKept pending (record m { m_timers = update m.m_timers a (some t'); fired = fired })
  touched-IsKept k t t' here same sound fired = record {
    sized = k.sized;
    linked = IsLinked-index indexed k.linked;
    sound = update_sound m.m_timers a (some t') k.sound sound;
  }
    where
      indexed : (x : ℕ) → index_in (update m.m_timers a (some t')) x ≡ index_in m.m_timers x
      indexed x = elim (ℕ_discrete x a) [
        | yes hit ↦ rw (update_hit m.m_timers a (some t') x hit, hit, here) same
        | no miss ↦ rw (update_miss m.m_timers a (some t') x miss)
      ]

  -- A timer is gone: its object, its entry of the map, and its place in the heap.
  pub gone-IsKept :
      (before : List ℕ)
      → IsKept before m
      → (i : ℕ) → index_in m.m_timers a ≡ some i
      → (h : TimerHeap) → IsSized h
      → Perm (a ∷ (pending ++ h.m_root)) (before ++ m.m_heap.m_root)
      → (spec : Option (ℕ × ℕ))
      → IsKept pending (record m {
        m_timers = update m.m_timers a none;
        m_heap = h;
        m_active_timer = update m.m_active_timer i none;
        armed = spec;
      })
  gone-IsKept before k i at h sized same spec = record {
    sized = sized;
    linked =
        IsLinked-index (map_update index_of_timer m.m_timers a none)
          (IsLinked-remove a i (pending ++ h.m_root) (IsLinked-perm (Perm.symm same) k.linked) at);
    sound = update_sound m.m_timers a none k.sound refl;
  }

-- A timer of several leaves the heap: only the heap and the timerfd change.
pub record IsOut (tmr : ℕ) (m m' : TimerManager) : Type 0 where
  pub heap : TimerHeap
  pub spec : Option (ℕ × ℕ)
  pub changed : m' ≡ record m { m_heap = heap; armed = spec }
  pub sized : IsSized heap
  pub same : Perm (tmr ∷ heap.m_root) m.m_heap.m_root

pub set_new_timeout-armed :
    (env : Env) (m : TimerManager)
    → (spec : Option (ℕ × ℕ)) × ((set_new_timeout env m).0 ≡ record m { armed = spec })
unfolding set_new_timeout
set_new_timeout-armed env m = elim (Bool-cases env.settime_ok) [
  | inl e ↦ (some (spec_of (get_root_time (expire_in m.m_timers) m.m_heap)), rw e)
  | inr e ↦ (m.armed, rw e)
]

pub leave_heap-IsOut :
    (env : Env) (tmr : ℕ) (m : TimerManager)
    → IsSized m.m_heap
    → Mem tmr m.m_heap.m_root
    → 1 < length m.m_heap.m_root
    → Returns (IsOut tmr m) (leave_heap env tmr m)
unfolding leave_heap
leave_heap-IsOut env tmr m sized there several =
    Returns-bind (delete_timer-perm (expire_in m.m_timers) tmr m.m_heap sized there several)
      λ (h, reset) (sized', same). elim (Bool-cases reset) [
        | inl e ↦
            let (spec, set_to) = set_new_timeout-armed env (record m { m_heap = h }) in
            rw e (
              returns
                (record { heap = h; spec = spec; changed = set_to; sized = sized'; same = same }))
        | inr e ↦ rw e (
            returns
              (record { heap = h; spec = m.armed; changed = refl; sized = sized'; same = same }))
      ]

-- A timer with an index has an object.
pub object_of :
    (timers : ℕ → Option Timer) (a i : ℕ)
    → index_in timers a ≡ some i
    → (t : Timer) × (timers a ≡ some t) × (t.m_index ≡ some i)
object_of timers a i e = elim (Option-cases (timers a)) [
  | inl missing ↦ absurd (ground arith)
  | inr (t, there) ↦ (t, there, rw there at e)
]

pub fire-ok :
    (env : Env) (tmr : ℕ) (m : TimerManager) (t : Timer)
    → m.m_timers tmr ≡ some t
    → fire env tmr m
      ≡ ok (record m {
        m_timers = update m.m_timers tmr (some (action (env.outcome t.m_cb) t));
        fired = t.m_cb ∷ m.fired;
      })
unfolding fire
fire-ok env tmr m t there = rw there

pub action-index : (outcome : ℤ) (t : Timer) → (action outcome t).m_index ≡ t.m_index
unfolding action
action-index outcome t = refl

action_sound :
    (outcome : ℤ) (t : Timer) → is_sound (some t) ≡ true → is_sound (some (action outcome t)) ≡ true
unfolding action counts_down
action_sound outcome t sound = sound

pub fired-IsKept :
    (env : Env) (pending : List ℕ) (tmr : ℕ) (m : TimerManager) (t : Timer)
    → IsKept pending m
    → m.m_timers tmr ≡ some t
    → IsKept pending (record m {
      m_timers = update m.m_timers tmr (some (action (env.outcome t.m_cb) t));
      fired = t.m_cb ∷ m.fired;
    })
fired-IsKept env pending tmr m t k there =
    touched-IsKept pending m tmr k t (action (env.outcome t.m_cb) t) there
      (action-index (env.outcome t.m_cb) t)
      (action_sound (env.outcome t.m_cb) t (rw there at (k.sound tmr))) (t.m_cb ∷ m.fired)
