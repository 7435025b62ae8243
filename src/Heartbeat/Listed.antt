-- ===== src/Heartbeat/Listed.antt =====
-- Rubbish_cycler/MonitorServer/src/HB_manager.cpp: the list of agents when one is added or taken
-- out, and the maps in order when an entry is written.
use terry.Base.{
  ℕ, ◌≡◌, refl, sym, inl, inr, Bool, true, false, not, ◌&&◌, ◌||◌, List, [], ◌∷◌, ◌++◌, ◌==◌, arith,
  ==_iff, Bool-cases, Option-cases,
}
use terry.Base.Maps
use terry.Base.Maps.{Entries, IsAscending, update}
use terry.Heartbeat.{NodeInfo, BucketInfo, is_listed, unlist, set_limit, set_buckets}
use terry.Heartbeat.Consistent.{IsDistinct}

pub is_listed-append :
    (b a : ℕ) (list : List ℕ) → is_listed b (list ++ a ∷ []) ≡ is_listed b list || (a == b)
is_listed-append b a [] = ground arith
is_listed-append b a (x ∷ list) = ground (arith, is_listed-append b a list)

pub IsDistinct-append :
    (a : ℕ) (list : List ℕ)
    → is_listed a list ≡ false
    → IsDistinct list
    → IsDistinct (list ++ a ∷ [])
IsDistinct-append a [] h d = (refl, tt)
IsDistinct-append a (x ∷ list) h d =
    let fresh : is_listed x (list ++ a ∷ []) ≡ false = ground (arith, is_listed-append x a list) in
    (fresh, IsDistinct-append a list (ground arith) d.1)

and_true : (b : Bool) → b && true ≡ b
and_true true = refl
and_true false = refl

drop_head :
    (b x : ℕ) (list : List ℕ)
    → is_listed x list ≡ false
    → is_listed b list ≡ is_listed b (x ∷ list) && not (x == b)
drop_head b x list h = elim (Bool-cases (x == b)) [
  | inl here ↦ let same : x ≡ b = (==_iff x b).0 here in rw here (rw (← same) h)
  | inr other ↦ rw other (sym (and_true (is_listed b list)))
]

pub is_listed-unlist :
    (b a : ℕ) (list : List ℕ)
    → IsDistinct list
    → is_listed b (unlist a list) ≡ is_listed b list && not (a == b)
is_listed-unlist b a [] d = refl
is_listed-unlist b a (x ∷ list) d = elim (Bool-cases (x == a)) [
  | inl hit ↦ let same : x ≡ a = (==_iff x a).0 hit in rw hit (rw (← same) (drop_head b x list d.0))
  | inr miss ↦ rw miss (ground (arith, is_listed-unlist b a list d.1))
]

pub unlist-IsDistinct : (a : ℕ) (list : List ℕ) → IsDistinct list → IsDistinct (unlist a list)
unlist-IsDistinct a [] d = tt
unlist-IsDistinct a (x ∷ list) d = elim (Bool-cases (x == a)) [
  | inl hit ↦ rw hit d.1
  | inr miss ↦ rw miss (rw (is_listed-unlist x a list d.1, d.0) refl, unlist-IsDistinct a list d.1)
]

pub set_limit-IsAscending :
    (ip load : ℕ) (nodes : Entries NodeInfo)
    → IsAscending nodes
    → IsAscending (set_limit ip load nodes)
unfolding set_limit
set_limit-IsAscending ip load nodes h = elim (Option-cases (Maps.find ip nodes)) [
  | inl missing ↦ rw (missing, set_limit) (Maps.insert-IsAscending ip _ nodes h)
  | inr (info, found) ↦ rw (found, set_limit) (Maps.assign-IsAscending ip _ nodes h)
]

pub set_buckets-IsAscending :
    (ip : ℕ) (buckets : List BucketInfo) (nodes : Entries NodeInfo)
    → IsAscending nodes
    → IsAscending (set_buckets ip buckets nodes)
unfolding set_buckets
set_buckets-IsAscending ip buckets nodes h = elim (Option-cases (Maps.find ip nodes)) [
  | inl missing ↦ rw (missing, set_buckets) h
  | inr (info, found) ↦ rw (found, set_buckets) (Maps.assign-IsAscending ip _ nodes h)
]
