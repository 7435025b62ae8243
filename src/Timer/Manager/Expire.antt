-- ===== src/Timer/Manager/Expire.antt =====
-- timer/Timer_manager.cpp: expire_all.
use terry.Base.{
  ℕ, ◌≤◌, ◌<◌, ◌≡◌, refl, sym, ◌∙◌, inl, inr, Bool, true, false, List, [], ◌∷◌, ◌++◌, ◌≢◌, Perm,
  some, arith, ◌==◌, if◌then◌else◌, Option, length, ok, fault, Returns, returns, Returns-bind,
  Returns-map, Bool-cases,
}
use mathlib.Core.Path.{subst}
use mathlib.Core.Logic.Or
use mathlib.Core.List.{
  Mem, Nodup, Nodup-cons, mem-cons, mem-cons_self, mem-cons_of_mem, mem-append_left,
  mem-append_right, not-mem-nil,
}
use mathlib.Core.List.Nodup
use mathlib.Core.List.Perm
use terry.Base.{All, append-comm}
use terry.Timer.Object.{Timer, change_timeval}
use terry.Timer.Heap.{TimerHeap, get_root_time}
use terry.Timer.Manager.{Env, TimerManager, expire_in, set_new_timeout, expire_list, expire_all}
use terry.Timer.Manager.Links.{IsLinked-perm, owner_of-some}
use terry.Timer.Manager.Keeps.{index_in, IsKept, IsConsistent}
use terry.Timer.Heap.Expire.{IsExpired, get_and_remove-IsExpired}
use terry.Timer.Heap.Order.{key}
use terry.Timer.Heap.Late.{get_and_remove-late}
use terry.Timer.Manager.Steps.{set_new_timeout-armed, object_of}
use terry.Timer.Manager.Serve.{cb_in, IsSettled, IsSettled-kept, expire_one-IsServed}

-- The callbacks of a list of timers, called one after another.
abbrev pub calls : (ℕ → Option Timer) → List ℕ → List ℕ → List ℕ
calls timers [] fired = fired
calls timers (a ∷ rest) fired = calls timers rest (cb_in timers a ∷ fired)

calls-same :
    (timers others : ℕ → Option Timer) (list fired : List ℕ)
    → ((a : ℕ) → Mem a list → others a ≡ timers a)
    → calls others list fired ≡ calls timers list fired
calls-same timers others [] fired same = refl
calls-same timers others (a ∷ rest) fired same = rw (same a mem-cons_self) (
    calls-same timers others rest (cb_in timers a ∷ fired)
      λ b there. same b (mem-cons_of_mem a there))

-- Each timer of a list has been settled.
abbrev pub AreSettled : Env → TimerManager → TimerManager → List ℕ → Type 0
AreSettled env m m' = All (λ a. (t : Timer) → m.m_timers a ≡ some t → IsSettled env t a m')

-- The loop serves every timer of the list once, and leaves the others alone.
record IsAllServed (env : Env) (list : List ℕ) (m m' : TimerManager) : Type 0 where
  kept : IsConsistent m'
  fired : m'.fired ≡ calls m.m_timers list m.fired
  settled : AreSettled env m m' list
  others : (a : ℕ) → ¬ Mem a list → m'.m_timers a ≡ m.m_timers a
  stays : (a : ℕ) → Mem a m.m_heap.m_root → Mem a m'.m_heap.m_root

AreSettled-from :
    (env : Env) (m m₁ m' : TimerManager) (list : List ℕ)
    → ((a : ℕ) → Mem a list → m₁.m_timers a ≡ m.m_timers a)
    → AreSettled env m₁ m' list
    → AreSettled env m m' list
AreSettled-from env m m₁ m' [] same all = tt
AreSettled-from env m m₁ m' (a ∷ rest) same all = (
  (λ t there. all.0 t (same a mem-cons_self ∙ there)),
  AreSettled-from env m m₁ m' rest (λ b inside. same b (mem-cons_of_mem a inside)) all.1,
)

expire_list-IsAllServed :
    (env : Env) (list : List ℕ) (m : TimerManager)
    → IsKept list m
    → Returns (IsAllServed env list m) (expire_list env list m)
unfolding expire_list
expire_list-IsAllServed env [] m k = returns (record {
  kept = k;
  fired = refl;
  settled = tt;
  others = λ a _. refl;
  stays = λ a inside. inside;
})
expire_list-IsAllServed env (tmr ∷ rest) m k =
    let (i, at, _) =
      owner_of-some (index_in m.m_timers) m.m_active_timer tmr (k.linked.live tmr mem-cons_self) in
    let (t, there, _) = object_of m.m_timers tmr i at in
    let alone : ¬ Mem tmr rest =
      λ inside. (Nodup-cons.0 k.linked.nodup).0 (mem-append_left m.m_heap.m_root inside) in
    let apart : (a : ℕ) → Mem a rest → a ≢ tmr = λ a inside e. alone (rw e at inside) in
    Returns-bind (expire_one-IsServed env rest tmr m k t there) λ m₁ s.
      let same = λ (a : ℕ) (inside : Mem a rest). s.others a (apart a inside) in
      Returns-map (expire_list-IsAllServed env rest m₁ s.kept) λ m₂ all. record {
        kept = all.kept;
        fired =
            all.fired
            ∙ rw s.fired
                (calls-same m.m_timers m₁.m_timers rest (cb_in m.m_timers tmr ∷ m.fired) same);
        settled = (
          (λ t' there'.
              let one : t ≡ t' = (let e : some t ≡ some t' = sym there ∙ there' in cc) in
              subst (λ x. IsSettled env x tmr m₂) one
                (IsSettled-kept env t tmr m₁ m₂ (all.others tmr alone) (all.stays tmr) s.settled)),
          AreSettled-from env m m₁ m₂ rest same all.settled,
        );
        others = λ a outside.
            all.others a (λ inside. outside (mem-cons_of_mem tmr inside))
            ∙ s.others a (λ e. outside (subst (λ x. Mem x (tmr ∷ rest)) (sym e) mem-cons_self));
        stays = λ a inside. all.stays a (s.stays a inside);
      }

-- What expire_all does where the first timer has expired: `served` are the timers that it takes out of
-- the heap, and `waiting` those that it leaves there.
pub record IsExpireAll (env : Env) (m : TimerManager) (r : TimerManager × Bool) : Type 0 where
  pub consistent : IsConsistent r.0
  pub served : List ℕ
  pub waiting : List ℕ
  pub split : Perm (waiting ++ served) m.m_heap.m_root
  pub once : Nodup served
  pub some_served : 0 < length served
  pub expired : All (λ a. expire_in m.m_timers a < change_timeval env.now) served
  pub fired : r.0.fired ≡ calls m.m_timers served m.fired
  pub settled : AreSettled env m r.0 served
  pub untouched :
      (a : ℕ) → Mem a waiting → (r.0.m_timers a ≡ m.m_timers a) × Mem a r.0.m_heap.m_root

first_expiry :
    (expire : ℕ → ℕ) (h : TimerHeap)
    → 0 < length h.m_root
    → get_root_time expire h ≡ key expire h.m_root 0
unfolding get_root_time
first_expiry expire h p = from_list h.m_root p
  where
    from_list :
        (root : List ℕ)
        → 0 < length root
        → get_root_time expire (record { m_root = root; m_heap_size = h.m_heap_size })
          ≡ key expire root 0
    from_list [] p = absurd (omega arith)
    from_list (t ∷ root) p = refl

split_off :
    (list : List ℕ) (m : TimerManager) (h : TimerHeap) {expire : ℕ → ℕ} {tm : ℕ}
    → IsConsistent m
    → IsExpired expire tm m.m_heap (h, list)
    → IsKept list (record m { m_heap = h })
split_off list m h k x = record {
  sized = x.sized;
  linked = IsLinked-perm (Perm.trans (Perm.symm x.same) (append-comm h.m_root list)) k.linked;
  sound = k.sound;
}

armed_again :
    (m : TimerManager) (spec : Option (ℕ × ℕ))
    → IsConsistent m
    → IsConsistent (record m { armed = spec })
armed_again m spec k = record { sized = k.sized; linked = k.linked; sound = k.sound }

settled_armed :
    (env : Env) (m m' : TimerManager) (spec : Option (ℕ × ℕ)) (list : List ℕ)
    → AreSettled env m m' list
    → AreSettled env m (record m' { armed = spec }) list
settled_armed env m m' spec [] all = tt
settled_armed env m m' spec (a ∷ rest) all = (
  (λ t there.
      IsSettled-kept env t a m' (record m' { armed = spec }) refl (λ inside. inside)
        (all.0 t there)),
  settled_armed env m m' spec rest all.1,
)

Nodup-apart : (left right : List ℕ) → Nodup (left ++ right) → (a : ℕ) → Mem a left → ¬ Mem a right
Nodup-apart [] right n a l r = not-mem-nil l
Nodup-apart (x ∷ left) right n a l r =
    Or.elim (λ p q. absurd p) (mem-cons.0 l)
      (λ e. (Nodup-cons.0 n).0 (subst (λ y. Mem y (left ++ right)) e (mem-append_right left r)))
      (λ later. Nodup-apart left right (Nodup-cons.0 n).1 a later r)

-- The end of expire_all: the timerfd.
set_last :
    (env : Env) (m : TimerManager) (pass : Bool) (P : TimerManager × Bool → Type 0)
    → ((spec : Option (ℕ × ℕ)) (success : Bool) → P (record m { armed = spec }, success))
    → Returns P (if pass then ok (m, true) else ok (set_new_timeout env m))
set_last env m pass P all = elim (Bool-cases pass) [
  | inl e ↦ rw e (returns (all m.armed true))
  | inr e ↦
      let (spec, set_to) = set_new_timeout-armed env m in
      rw e (
        returns (
          subst (λ m'. P (m', (set_new_timeout env m).1)) (sym set_to)
            (all spec (set_new_timeout env m).1)))
]

-- On a consistent manager whose first timer has expired, expire_all returns. The timers of the heap
-- fall into those that it serves, one or more, and those that wait. Each one that it serves had expired;
-- their callbacks have been called once for each, one after another; one that goes on is in the heap
-- again, with its interval after the time that continue_timer has read and with one call less to go,
-- and one that does not is deleted. Those that wait are unchanged and still in the heap, and the
-- manager is consistent.
pub expire_all-IsExpireAll :
    (env : Env) (m : TimerManager)
    → IsConsistent m
    → 0 < length m.m_heap.m_root
    → get_root_time (expire_in m.m_timers) m.m_heap < change_timeval env.now
    → Returns (IsExpireAll env m) (expire_all env m)
unfolding expire_all
expire_all-IsExpireAll env m k some_timer early =
    Returns-bind
      (get_and_remove-IsExpired (expire_in m.m_timers) (change_timeval env.now) m.m_heap k.sized)
      λ (h, list) x.
        let e = first_expiry (expire_in m.m_timers) m.m_heap some_timer in
        let several : 0 < length list = x.begun (omega (arith, k.sized)) (omega (arith, e)) in
        let more : (length list == 0) ≡ false = ground arith in
        rw more (
          Returns-bind
            (expire_list-IsAllServed env list (record m { m_heap = h }) (split_off list m h k x))
            λ m' all. set_last env m' _ (IsExpireAll env m) λ spec success. record {
              consistent = armed_again m' spec all.kept;
              served = list;
              waiting = h.m_root;
              split = x.same;
              once = Nodup.of_append_left h.m_root (split_off list m h k x).linked.nodup;
              some_served = several;
              expired = x.expired;
              fired = all.fired;
              settled = settled_armed env m m' spec list all.settled;
              untouched = λ a inside. (
                all.others a (λ served.
                    Nodup-apart list h.m_root (split_off list m h k x).linked.nodup a served
                      inside),
                all.stays a inside,
              );
            })

-- timerfd wakes the manager at the first expiry or after it. On a consistent manager with a timer,
-- a call of expire_all at the very microsecond of the first expiry, or before it, fails its
-- `assert(!expire_list.empty())`.
pub expire_all-early :
    (env : Env) (m : TimerManager)
    → IsConsistent m
    → 0 < length m.m_heap.m_root
    → change_timeval env.now ≤ get_root_time (expire_in m.m_timers) m.m_heap
    → expire_all env m ≡ fault
unfolding expire_all
expire_all-early env m k some_timer late =
    let e = first_expiry (expire_in m.m_timers) m.m_heap some_timer in
    rw
      (get_and_remove-late (expire_in m.m_timers) (change_timeval env.now) m.m_heap k.sized
        (omega (arith, k.sized)) (omega (arith, e)))
      refl
