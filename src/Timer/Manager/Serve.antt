-- ===== src/Timer/Manager/Serve.antt =====
-- timer/Timer_manager.cpp: one round of the loop of expire_all.
use terry.Base.{
  ℕ, suc, leb, ◌+◌, ◌%◌, ◌^◌, ap, Bool, false, ◌≡◌, ◌≢◌, refl, sym, ◌∙◌, inl, inr, true, some, none,
  List, ◌∷◌, Perm, arith, ◌==◌, Option, Returns, returns, Returns-bind, Bool-cases, Option-cases,
}
use mathlib.Core.Path.{fun_ext, subst}
use mathlib.Core.List.{Mem, mem-cons_self, mem-cons_of_mem}
use terry.Base.Int.{ℤ, pos, negsuc, ◌-ℤ◌, ltb_ℤ}
use mathlib.Core.List.Perm
use terry.Base.{middle-perm, or_fault-Returns}
use terry.Timer.Object.{
  TimeVal, Timer, TimerType, one_shot, unlimit, limited, change_timeval, counts_down, action,
  continue_timer,
}
use terry.Timer.Heap.{TimerHeap}
use terry.Timer.Heap.Contents.{IsSized, add_timer-perm}
use terry.Timer.Manager.{Env, TimerManager, update, expire_in, free, expire_one}
use terry.Timer.Manager.Links.{IsLinked-perm, update_hit, update_miss, owner_of-some}
use terry.Timer.Manager.Keeps.{index_in, is_sound, IsKept}
use terry.Timer.Manager.Steps.{touched-IsKept, gone-IsKept, fire-ok, fired-IsKept, action-index}

interval_of :
    (t : Timer)
    → is_sound (some t) ≡ true
    → (counts_down t).1 ≡ true
    → (n : ℕ) × (t.m_interval_time ≡ some n)
interval_of t sound more = elim (Option-cases t.m_interval_time) [
  | inl missing ↦ absurd (ground arith)
  | inr found ↦ found
]

-- A timer without end goes on, and else one whose callback is still to be called more than once.
abbrev pub goes_on : Timer → Bool
goes_on t = elim t.m_timer_type [ unlimit ↦ true | _ ↦ ltb_ℤ (pos 1) t.m_last_times ]

-- How often the callback is still to be called.
abbrev pub left_of : Timer → ℤ
left_of t = elim t.m_timer_type [ unlimit ↦ t.m_last_times | _ ↦ t.m_last_times -ℤ pos 1 ]

more_than_one : (n : ℤ) → ltb_ℤ (pos 0) (n -ℤ pos 1) ≡ ltb_ℤ (pos 1) n
unfolding ◌-ℤ◌
more_than_one (pos n) = elim (Bool-cases (leb (0 + 1) (n + 0))) [
  | inl e ↦ rw e (ground arith)
  | inr e ↦ rw e (ground arith)
]
more_than_one (negsuc n) =
    let below : leb (suc n + 1) (0 + 0) ≡ false = ground arith in rw below (ground arith)

counts_down_lem : (t : Timer) → counts_down t ≡ (left_of t, goes_on t)
unfolding counts_down
counts_down_lem t = by_type t.m_timer_type
  where
    by_type :
        (type : TimerType)
        → counts_down (record t { m_timer_type = type })
          ≡ (left_of (record t { m_timer_type = type }), goes_on (record t { m_timer_type = type }))
    by_type one_shot = ap (λ b. (t.m_last_times -ℤ pos 1, b)) (more_than_one t.m_last_times)
    by_type limited = ap (λ b. (t.m_last_times -ℤ pos 1, b)) (more_than_one t.m_last_times)
    by_type unlimit = refl

-- A timer that goes on is again in the heap: it expires its interval after the time that continue_timer
-- has read, and has one call less to go.
pub record IsAgain (env : Env) (t : Timer) (a : ℕ) (m : TimerManager) : Type 0 where
  pub interval : ℕ
  pub has_interval : t.m_interval_time ≡ some interval
  pub timer : Timer
  pub there : m.m_timers a ≡ some timer
  pub expiry : timer.m_expire_time ≡ (change_timeval (env.later a) + interval) % 2 ^ 64
  pub times : timer.m_last_times ≡ left_of t
  pub callback : timer.m_cb ≡ t.m_cb
  pub index : timer.m_index ≡ t.m_index
  pub inside : Mem a m.m_heap.m_root

-- What has become of the timer `t` at an address after its callback: it is in the heap again if it goes
-- on, and else deleted.
abbrev pub Settle : Bool → Env → Timer → ℕ → TimerManager → Type 0
Settle true env t a m = IsAgain env t a m
Settle false env t a m = m.m_timers a ≡ none

abbrev pub IsSettled : Env → Timer → ℕ → TimerManager → Type 0
IsSettled env t = Settle (goes_on t) env t

-- Only the object and the heap matter.
pub IsSettled-kept :
    (env : Env) (t : Timer) (a : ℕ) (m m' : TimerManager)
    → m'.m_timers a ≡ m.m_timers a
    → (Mem a m.m_heap.m_root → Mem a m'.m_heap.m_root)
    → IsSettled env t a m
    → IsSettled env t a m'
IsSettled-kept env t a m m' same stays = by_answer (goes_on t)
  where
    by_answer : (more : Bool) → Settle more env t a m → Settle more env t a m'
    by_answer true s = record {
      interval = s.interval;
      has_interval = s.has_interval;
      timer = s.timer;
      there = same ∙ s.there;
      expiry = s.expiry;
      times = s.times;
      callback = s.callback;
      index = s.index;
      inside = stays s.inside;
    }
    by_answer false s = same ∙ s

-- continue_timer returns on a sound timer, and leaves a sound timer with the same index.
continue_timer-ok :
    (now : TimeVal) (t : Timer)
    → is_sound (some t) ≡ true
    → Returns
        (λ r.
          (r.0.m_index ≡ t.m_index)
          × (r.0.m_cb ≡ t.m_cb)
          × (r.1 ≡ true → is_sound (some r.0) ≡ true)
          × (r.1 ≡ goes_on t)
          × (r.1 ≡ true
              → (n : ℕ) × (t.m_interval_time ≡ some n)
                × (r.0.m_expire_time ≡ (change_timeval now + n) % 2 ^ 64))
          × (r.0.m_last_times ≡ left_of t))
        (continue_timer now t)
unfolding continue_timer counts_down
continue_timer-ok now t sound =
    let lem = counts_down_lem t in
    let left : (counts_down t).0 ≡ left_of t = ap (λ (r : ℤ × Bool). r.0) lem in
    let going : (counts_down t).1 ≡ goes_on t = ap (λ (r : ℤ × Bool). r.1) lem in
    elim (Bool-cases (counts_down t).1) [
      | inl e ↦
          let (interval, there) = interval_of t sound e in
          let answer : true ≡ goes_on t = sym e ∙ going in
          rw (e, there)
            (returns (refl, refl, (λ _. refl), answer, (λ _. (interval, refl, refl)), left))
      | inr e ↦
          let answer : false ≡ goes_on t = sym e ∙ going in
          rw e (returns (refl, refl, (λ f. absurd cc), answer, (λ f. absurd cc), left))
    ]

update_twice : {A : Type 0} (f : ℕ → A) (k : ℕ) (v w : A) → update (update f k v) k w ≡ update f k w
update_twice f k v w = fun_ext λ x. elim (Bool-cases (x == k)) [ inl e ↦ rw e | inr e ↦ rw e ]

-- The callback of the timer at an address.
abbrev pub cb_of_timer : Option Timer → ℕ
cb_of_timer none = 0
cb_of_timer (some t) = t.m_cb

abbrev pub cb_in : (ℕ → Option Timer) → ℕ → ℕ
cb_in timers a = cb_of_timer (timers a)

-- The timer `tmr` has been called and is back in the heap or deleted.
pub record IsServed (env : Env) (pending : List ℕ) (tmr : ℕ) (t : Timer) (m m' : TimerManager)
    : Type 0 where
  pub kept : IsKept pending m'
  pub fired : m'.fired ≡ cb_in m.m_timers tmr ∷ m.fired
  pub others : (a : ℕ) → a ≢ tmr → m'.m_timers a ≡ m.m_timers a
  pub stays : (a : ℕ) → Mem a m.m_heap.m_root → Mem a m'.m_heap.m_root
  pub settled : IsSettled env t tmr m'

back_in_heap :
    (pending : List ℕ) (tmr : ℕ) (m : TimerManager) (h : TimerHeap)
    → IsKept (tmr ∷ pending) m
    → IsSized h
    → Perm h.m_root (tmr ∷ m.m_heap.m_root)
    → IsKept pending (record m { m_heap = h })
back_in_heap pending tmr m h k sized same = record {
  sized = sized;
  linked =
      IsLinked-perm
        (Perm.trans (Perm.symm (middle-perm pending m.m_heap.m_root tmr))
          (Perm.append_left pending (Perm.symm same)))
        k.linked;
  sound = k.sound;
}

module _ (env : Env) (pending : List ℕ) (tmr : ℕ) (m : TimerManager) (k : IsKept (tmr ∷ pending) m)
    (t : Timer) (there : m.m_timers tmr ≡ some t) where
  abbrev t₁ : Timer
  t₁ = action (env.outcome t.m_cb) t

  abbrev called : TimerManager
  called = record m { m_timers = update m.m_timers tmr (some t₁); fired = t.m_cb ∷ m.fired }

  called-IsKept : IsKept (tmr ∷ pending) called
  called-IsKept = fired-IsKept env (tmr ∷ pending) tmr m t k there

  called_at : update m.m_timers tmr (some t₁) tmr ≡ some t₁
  called_at = update_hit m.m_timers tmr (some t₁) tmr refl

  others_same :
      (v : Option Timer) (a : ℕ)
      → a ≢ tmr
      → update (update m.m_timers tmr (some t₁)) tmr v a ≡ m.m_timers a
  others_same v a ne =
      update_miss (update m.m_timers tmr (some t₁)) tmr v a ne
      ∙ update_miss m.m_timers tmr (some t₁) a ne

  IsServed-again :
      (t' : Timer)
      → t'.m_index ≡ t₁.m_index
      → is_sound (some t') ≡ true
      → t'.m_cb ≡ t.m_cb
      → true ≡ goes_on t
      → (n : ℕ) × (t.m_interval_time ≡ some n)
        × (t'.m_expire_time ≡ (change_timeval (env.later tmr) + n) % 2 ^ 64)
      → t'.m_last_times ≡ left_of t
      → (h : TimerHeap) → IsSized h
      → Perm h.m_root (tmr ∷ m.m_heap.m_root)
      → IsServed env pending tmr t m (record called {
        m_timers = update (update m.m_timers tmr (some t₁)) tmr (some t');
        m_heap = h;
      })
  IsServed-again t' same_index sound same_cb more (n, has, expiry) times h sized same = record {
    kept =
        back_in_heap pending tmr
          (record called { m_timers = update (update m.m_timers tmr (some t₁)) tmr (some t') }) h
          (touched-IsKept (tmr ∷ pending) called tmr called-IsKept t₁ t' called_at same_index sound
            called.fired)
          sized same;
    fired = rw there refl;
    others = others_same (some t');
    stays = λ a inside. (Perm.mem_iff same).1 (mem-cons_of_mem tmr inside);
    settled = rw (← more) (record {
      interval = n;
      has_interval = has;
      timer = t';
      there = update_hit (update m.m_timers tmr (some t₁)) tmr (some t') tmr refl;
      expiry = expiry;
      times = times;
      callback = same_cb;
      index = same_index ∙ action-index (env.outcome t.m_cb) t;
      inside = (Perm.mem_iff same).1 mem-cons_self;
    });
  }

  IsServed-last :
      (t' : Timer) (i : ℕ)
      → t₁.m_index ≡ some i
      → false ≡ goes_on t
      → IsServed env pending tmr t m (record called {
        m_timers = update (update (update m.m_timers tmr (some t₁)) tmr (some t')) tmr none;
        m_active_timer = update m.m_active_timer i none;
      })
  IsServed-last t' i at last =
      let gone : IsKept pending (record called {
        m_timers = update (update m.m_timers tmr (some t₁)) tmr none;
        m_active_timer = update m.m_active_timer i none;
      }) =
        gone-IsKept pending called tmr (tmr ∷ pending) called-IsKept i (rw called_at at) m.m_heap
          k.sized Perm.rfl m.armed in
      record {
        kept =
            subst
              (λ f.
                IsKept pending
                  (record called { m_timers = f; m_active_timer = update m.m_active_timer i none }))
              (sym (update_twice (update m.m_timers tmr (some t₁)) tmr (some t') none)) gone;
        fired = rw there refl;
        others = λ a ne.
            update_miss (update (update m.m_timers tmr (some t₁)) tmr (some t')) tmr none a ne
            ∙ others_same (some t') a ne;
        stays = λ a inside. inside;
        settled =
            rw (← last) (
              update_hit (update (update m.m_timers tmr (some t₁)) tmr (some t')) tmr none tmr
                refl);
      }

  pub expire_one-IsServed : Returns (IsServed env pending tmr t m) (expire_one env tmr m)
  unfolding expire_one free action
  expire_one-IsServed =
      let (i, at, _) =
        owner_of-some (index_in called.m_timers) m.m_active_timer tmr
          (called-IsKept.linked.live tmr mem-cons_self) in
      rw (fire-ok env tmr m t there, called_at)
        (Returns-bind
          (continue_timer-ok (env.later tmr) t₁ (rw called_at at (called-IsKept.sound tmr)))
          λ (t', more) (same_index, same_cb, sound, answer, expiry, times). elim (Bool-cases more) [
            | inl e ↦ rw e (
                Returns-bind
                  (add_timer-perm
                    (expire_in (update (update m.m_timers tmr (some t₁)) tmr (some t'))) tmr
                    m.m_heap k.sized)
                  λ (h, _) (sized, same). returns (
                    IsServed-again t' same_index (sound e) same_cb (sym e ∙ answer) (expiry e) times
                      h sized same))
            | inr e ↦ rw e (
                Returns-bind (or_fault-Returns t'.m_index (same_index ∙ rw called_at at at))
                  λ index named.
                    returns (IsServed-last t' index (sym same_index ∙ named) (sym e ∙ answer)))
          ])
