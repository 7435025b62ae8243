-- ===== src/Sorting/Select.antt =====
-- dymanicArray/sort.cpp: selectSort.
use terry.Base.{ℕ, suc, ◌≤◌, ◌<◌, ◌≡◌, Bool, List, Perm, get_elem?}
use mathlib.Core.List.Perm
use terry.Sorting.Order.{IsComparator, key}

module _ {A : Type 0} (comp : A → A → Bool) (rank : A → ℕ) (c : IsComparator comp rank) where
  -- The position of a least element from `start` to `n`.
  record IsLeast (start n : ℕ) (a : List A) (m : ℕ) : Type 0 where
    from : start ≤ m
    to : m < n
    least : (k : ℕ) → start ≤ k → k < n → key rank a m ≤ key rank a k

  -- The elements before `i` are where they belong.
  abbrev IsPlaced : ℕ → ℕ → List A → Type 0
  IsPlaced i n a = (j k : ℕ) → j ≤ k → k < n → j < i → key rank a j ≤ key rank a k

  -- The least element of the rest is exchanged with the one at `i`.
  record IsChosen (i n : ℕ) (a b : List A) : Type 0 where
    same : Perm b a
    placed : IsPlaced (suc i) n b
    past : (k : ℕ) → n ≤ k → get_elem? b k ≡ get_elem? a k
