-- ===== src/Sorting/Order.antt =====
-- dymanicArray/sort.cpp: what the comparison means, and when an array is sorted.
use terry.Base.{
  ℕ, ◌≤◌, ◌<◌, ◌≡◌, refl, ap, Bool, some, none, List, Perm, arith, ltb, ◌==◌, if◌then◌else◌, Option,
  length, get_elem?, set, get_elem?-set,
}
use mathlib.Core.List.Perm
use terry.Base.{exchange, get_elem?-exchange}

-- The ranks of the elements, by position.
abbrev pub rank_of : {A : Type 0} → (A → ℕ) → Option A → ℕ
rank_of rank none = 0
rank_of rank (some x) = rank x

-- `comp x y` says that `x` comes after `y`: its rank is greater.
abbrev pub IsComparator : {A : Type 0} → (A → A → Bool) → (A → ℕ) → Type 0
IsComparator comp rank = (x y : _) → comp x y ≡ ltb (rank y) (rank x)

module _ {A : Type 0} (rank : A → ℕ) where
  abbrev pub key : List A → ℕ → ℕ
  key a i = rank_of rank (get_elem? a i)

  -- The first `n` elements do not descend.
  abbrev pub IsSortedTo : ℕ → List A → Type 0
  IsSortedTo n a = (i j : ℕ) → i ≤ j → j < n → key a i ≤ key a j

  -- The array `b` is the array `a` after a sort of its first `n` elements.
  pub record IsSorted (n : ℕ) (a b : List A) : Type 0 where
    pub same : Perm b a
    pub sorted : IsSortedTo n b
    pub past : (c : ℕ) → n ≤ c → get_elem? b c ≡ get_elem? a c

  pub key-at : (a : List A) (i : ℕ) {x : A} → get_elem? a i ≡ some x → key a i ≡ rank x
  key-at a i e = ap (rank_of rank) e

  pub key-set :
      (a : List A) (i : ℕ) (v : A) (c : ℕ)
      → i < length a
      → key (set a i v) c ≡ (if i == c then rank v else key a c)
  key-set a i v c h = ground (arith, ap (rank_of rank) (get_elem?-set a i c v h))

  pub key-exchange :
      (a : List A) (i j : ℕ) (x y : A) (c : ℕ)
      → i < length a
      → j < length a
      → key (exchange a i j x y) c ≡ (if j == c then rank x else if i == c then rank y else key a c)
  key-exchange a i j x y c hi hj =
      ground (arith, ap (rank_of rank) (get_elem?-exchange a i j x y c hi hj))

  -- An array of less than two elements is sorted.
  pub short-IsSorted : (a : List A) (n : ℕ) → n < 2 → IsSorted n a a
  short-IsSorted a n h = record {
    same = Perm.rfl;
    sorted = λ i j p q. let e : i ≡ j = omega arith in rw e (omega arith);
    past = λ c p. refl;
  }
