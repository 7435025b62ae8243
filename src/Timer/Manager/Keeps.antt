-- ===== src/Timer/Manager/Keeps.antt =====
-- timer/Timer_manager.cpp: the operations keep the map, the heap and the timer objects together.
use terry.Base.{
  ℕ, ◌≡◌, refl, inl, inr, Bool, true, not, some, none, List, [], ◌++◌, ◌==◌, Option, Bool-cases,
}
use terry.Timer.Object.{Timer, counts_down}
use terry.Timer.Heap.Contents.{IsSized}
use terry.Timer.Manager.{TimerManager, update, initialized}
use terry.Timer.Manager.Links.{IsLinked, IsLinked-empty}

abbrev pub index_of_timer : Option Timer → Option ℕ
index_of_timer none = none
index_of_timer (some t) = t.m_index

abbrev pub index_in : (ℕ → Option Timer) → ℕ → Option ℕ
index_in timers a = index_of_timer (timers a)

-- A timer that goes on has an interval.
abbrev pub is_sound : Option Timer → Bool
is_sound none = true
is_sound (some t) = elim t.m_interval_time [ some _ ↦ true | none ↦ not (counts_down t).1 ]

-- The timers of the heap and of `pending` are the live ones: each has an index under which the map
-- holds it, the map holds nothing else, and every given index is at most the last one.
pub record IsKept (pending : List ℕ) (m : TimerManager) : Type 0 where
  pub sized : IsSized m.m_heap
  pub linked :
      IsLinked
        (index_in m.m_timers)
        m.m_active_timer
        m.m_next_index
        m.next_address
        (pending ++ m.m_heap.m_root)
  pub sound : (a : ℕ) → is_sound (m.m_timers a) ≡ true

-- No call of expire_all is running.
abbrev pub IsConsistent : TimerManager → Type 0
IsConsistent = IsKept []

pub initialized-IsConsistent : IsConsistent initialized
unfolding initialized
initialized-IsConsistent = record { sized = refl; linked = IsLinked-empty; sound = λ a. refl }

-- A map of what an update holds.
pub map_update {ℓ κ} :
    {A : Type ℓ} {B : Type κ} (g : A → B) (f : ℕ → A) (k : ℕ) (v : A) (x : ℕ)
    → g (update f k v x) ≡ update (λ y. g (f y)) k (g v) x
map_update g f k v x = elim (Bool-cases (x == k)) [ inl e ↦ rw e | inr e ↦ rw e ]

pub update_sound :
    (timers : ℕ → Option Timer) (k : ℕ) (v : Option Timer)
    → ((a : ℕ) → is_sound (timers a) ≡ true)
    → is_sound v ≡ true
    → (a : ℕ) → is_sound (update timers k v a) ≡ true
update_sound timers k v all new a = elim (Bool-cases (a == k)) [
  | inl e ↦ rw e new
  | inr e ↦ rw e (all a)
]
