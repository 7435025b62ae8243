-- ===== src/Base/Maps.antt =====
-- `std::map` with unsigned keys: the entries in the order of their keys, as an iterator visits them.
use Prim.Native.Nat.{ℕ, ◌≤◌, ◌<◌}
use mathlib.Core.Path.{◌≡◌, refl}
use mathlib.Core.Logic.{◌≢◌, inl, inr}
use mathlib.Core.Bool.{false}
use mathlib.Core.List.{List, [], ◌∷◌}
use mathlib.Core.Option.{Option, none, some}
use native.Mathlib.Omega.{arith}
use terry.Base.Tests.{ltb, ◌==◌, if◌then◌else◌, Bool-cases, ==_iff}

-- A memory, or a map as a function, with a new value at one key.
abbrev pub update {ℓ} : {A : Type ℓ} → (ℕ → A) → ℕ → A → ℕ → A
update f k v x = if x == k then v else f x

module _ {ℓ} {A : Type ℓ} (f : ℕ → A) (k : ℕ) (v : A) (x : ℕ) where
  pub update_hit : x ≡ k → update f k v x ≡ v
  update_hit e = rw ((==_iff x k).1 e)

  pub update_miss : x ≢ k → update f k v x ≡ f x
  update_miss ne = let differ : (x == k) ≡ false = ground arith in rw differ

abbrev pub Entries {ℓ} : Type ℓ → Type ℓ
Entries V = List (ℕ × V)

module _ {ℓ} {V : Type ℓ} where
  -- `find`, and the value at the iterator unless it is the end.
  unfoldable pub find : ℕ → Entries V → Option V
  find k [] = none
  find k (e ∷ m) = if k == e.0 then some e.1 else find k m

  -- `insert`, which leaves an entry with the key alone.
  unfoldable pub insert : ℕ → V → Entries V → Entries V
  insert k v [] = (k, v) ∷ []
  insert k v (e ∷ m) =
      if ltb k e.0 then (k, v) ∷ e ∷ m else if k == e.0 then e ∷ m else e ∷ insert k v m

  -- A write through the iterator at the key.
  unfoldable pub assign : ℕ → V → Entries V → Entries V
  assign k v [] = []
  assign k v (e ∷ m) = if k == e.0 then (k, v) ∷ m else e ∷ assign k v m

  -- `erase` of the iterator at the key.
  unfoldable pub erase : ℕ → Entries V → Entries V
  erase k [] = []
  erase k (e ∷ m) = if k == e.0 then m else e ∷ erase k m

  -- `m[k]`, which makes an entry with the default value where there is none.
  unfoldable pub at : ℕ → V → Entries V → V × Entries V
  at k d m = elim (find k m) [ some v ↦ (v, m) | none ↦ (d, insert k d m) ]

  -- All keys are above a number.
  abbrev pub IsAbove : ℕ → Entries V → Type 0
  IsAbove k [] = Unit
  IsAbove k (e ∷ m) = (k < e.0) × IsAbove k m

  abbrev pub IsAscending : Entries V → Type 0
  IsAscending [] = Unit
  IsAscending (e ∷ m) = IsAbove e.0 m × IsAscending m

  IsAbove-lt : (j k : ℕ) (m : Entries V) → j < k → IsAbove k m → IsAbove j m
  IsAbove-lt j k [] h a = tt
  IsAbove-lt j k (e ∷ m) h a = (omega (arith, a.0), IsAbove-lt j k m h a.1)

  find_above : (j k : ℕ) (m : Entries V) → j ≤ k → IsAbove k m → find j m ≡ none
  unfolding find
  find_above j k [] h a = refl
  find_above j k (e ∷ m) h a = ground (arith, find_above j k m h a.1)

  insert-IsAbove :
      (j k : ℕ) (v : V) (m : Entries V) → j < k → IsAbove j m → IsAbove j (insert k v m)
  unfolding insert
  insert-IsAbove j k v [] h a = (h, tt)
  insert-IsAbove j k v (e ∷ m) h a = ground (arith, insert-IsAbove j k v m h a.1)

  assign-IsAbove : (j k : ℕ) (v : V) (m : Entries V) → IsAbove j m → IsAbove j (assign k v m)
  unfolding assign
  assign-IsAbove j k v [] a = tt
  assign-IsAbove j k v (e ∷ m) a = ground (arith, assign-IsAbove j k v m a.1)

  erase-IsAbove : (j k : ℕ) (m : Entries V) → IsAbove j m → IsAbove j (erase k m)
  unfolding erase
  erase-IsAbove j k [] a = tt
  erase-IsAbove j k (e ∷ m) a = ground (arith, erase-IsAbove j k m a.1)

  pub insert-IsAscending :
      (k : ℕ) (v : V) (m : Entries V) → IsAscending m → IsAscending (insert k v m)
  unfolding insert
  insert-IsAscending k v [] a = (tt, tt)
  insert-IsAscending k v (e ∷ m) a =
      ground (arith, insert-IsAscending k v m a.1, insert-IsAbove e.0 k v m, IsAbove-lt k e.0 m)

  pub assign-IsAscending :
      (k : ℕ) (v : V) (m : Entries V) → IsAscending m → IsAscending (assign k v m)
  unfolding assign
  assign-IsAscending k v [] a = tt
  assign-IsAscending k v (e ∷ m) a =
      ground (arith, assign-IsAscending k v m a.1, assign-IsAbove e.0 k v m)

  pub erase-IsAscending : (k : ℕ) (m : Entries V) → IsAscending m → IsAscending (erase k m)
  unfolding erase
  erase-IsAscending k [] a = tt
  erase-IsAscending k (e ∷ m) a = ground (arith, erase-IsAscending k m a.1, erase-IsAbove e.0 k m)

  pub find-insert :
      (k : ℕ) (v : V) (m : Entries V) → find k m ≡ none → find k (insert k v m) ≡ some v
  unfolding find insert
  find-insert k v [] h = ground arith
  find-insert k v (e ∷ m) h = ground (arith, find-insert k v m)

  pub find-insert_ne : (k j : ℕ) (v : V) (m : Entries V) → j ≢ k → find j (insert k v m) ≡ find j m
  unfolding find insert
  find-insert_ne k j v [] h = ground arith
  find-insert_ne k j v (e ∷ m) h = ground (arith, find-insert_ne k j v m h)

  pub find-assign :
      (k : ℕ) (v old : V) (m : Entries V) → find k m ≡ some old → find k (assign k v m) ≡ some v
  unfolding find assign
  find-assign k v old [] h = cc
  find-assign k v old (e ∷ m) h = ground (arith, find-assign k v old m)

  pub find-assign_ne : (k j : ℕ) (v : V) (m : Entries V) → j ≢ k → find j (assign k v m) ≡ find j m
  unfolding find assign
  find-assign_ne k j v [] h = refl
  find-assign_ne k j v (e ∷ m) h = ground (arith, find-assign_ne k j v m h)

  pub find-erase : (k : ℕ) (m : Entries V) → IsAscending m → find k (erase k m) ≡ none
  unfolding find erase
  find-erase k [] a = refl
  find-erase k (e ∷ m) a = elim (Bool-cases (k == e.0)) [
    | inl same ↦ rw same (find_above k e.0 m (omega (arith, (==_iff k e.0).0 same)) a.0)
    | inr other ↦ rw (other, other) (find-erase k m a.1)
  ]

  pub find-erase_ne : (k j : ℕ) (m : Entries V) → j ≢ k → find j (erase k m) ≡ find j m
  unfolding find erase
  find-erase_ne k j [] h = refl
  find-erase_ne k j (e ∷ m) h = ground (arith, find-erase_ne k j m h)

  pub erase_absent : (k : ℕ) (m : Entries V) → find k m ≡ none → erase k m ≡ m
  unfolding find erase
  erase_absent k [] h = refl
  erase_absent k (e ∷ m) h = ground (arith, erase_absent k m)

  pub at_found : (k : ℕ) (d v : V) (m : Entries V) → find k m ≡ some v → at k d m ≡ (v, m)
  unfolding at
  at_found k d v m h = rw (h, at) refl
