-- ===== src/DynamicArray/View.antt =====
-- dymanicArray/dArray.cpp: the list that an array stands for, and its well-formedness.
use terry.Base.{
  ℕ, zero, suc, ◌+◌, ◌-◌, ◌≤◌, ◌≡◌, refl, ap, some, List, [], ◌∷◌, ◌++◌, arith, ltb, ◌==◌,
  if◌then◌else◌, Option, length, get_elem?, take,
}
use terry.DynamicArray.{DArray}

-- The list with `x` put in at position `i`, or at the end.
abbrev pub insert_at {ℓ} : {A : Type ℓ} → ℕ → A → List A → List A
insert_at zero x xs = x ∷ xs
insert_at (suc i) x [] = x ∷ []
insert_at (suc i) x (y ∷ xs) = y ∷ insert_at i x xs

-- The list without the element at position `i`.
abbrev pub delete_at {ℓ} : {A : Type ℓ} → ℕ → List A → List A
delete_at i [] = []
delete_at zero (x ∷ xs) = xs
delete_at (suc i) (x ∷ xs) = x ∷ delete_at i xs

module _ {ℓ} {A : Type ℓ} where
  -- The elements of the array, in order.
  abbrev pub contents : DArray A → List (Option A)
  contents d = take d.m_size d.p_base

-- The memory has as many cells as `m_length` says, and the elements fit.
pub record IsValid {A : Type 0} (d : DArray A) : Type 0 where
  pub cells : length d.p_base ≡ d.m_length
  pub fits : d.m_size ≤ d.m_length

module _ {A : Type 0} where
  pub get_elem?-insert_at :
      (i : ℕ) (x : A) (xs : List A) (j : ℕ)
      → i ≤ length xs
      → get_elem? (insert_at i x xs) j
        ≡ (if ltb j i then get_elem? xs j else if j == i then some x else get_elem? xs (j - 1))
  get_elem?-insert_at zero x xs zero h = ground arith
  get_elem?-insert_at zero x xs (suc j) h = ground arith
  get_elem?-insert_at (suc i) x [] j h = absurd (omega arith)
  get_elem?-insert_at (suc i) x (y ∷ xs) zero h = ground arith
  get_elem?-insert_at (suc i) x (y ∷ xs) (suc zero) h = ground (arith, get_elem?-insert_at i x xs 0)
  get_elem?-insert_at (suc i) x (y ∷ xs) (suc (suc j)) h =
      ground (arith, get_elem?-insert_at i x xs (suc j))

  -- Past the end is at the end.
  pub insert_at-past :
      (i : ℕ) (x : A) (xs : List A) → length xs ≤ i → insert_at i x xs ≡ insert_at (length xs) x xs
  insert_at-past zero x [] h = refl
  insert_at-past zero x (y ∷ xs) h = absurd (omega arith)
  insert_at-past (suc i) x [] h = refl
  insert_at-past (suc i) x (y ∷ xs) h = ap (◌∷◌ y) (insert_at-past i x xs (omega arith))

  pub insert_at-length : (x : A) (xs : List A) → insert_at (length xs) x xs ≡ xs ++ x ∷ []
  insert_at-length x [] = refl
  insert_at-length x (y ∷ xs) = ap (◌∷◌ y) (insert_at-length x xs)

  pub get_elem?-delete_at :
      (i : ℕ) (xs : List A) (j : ℕ)
      → get_elem? (delete_at i xs) j ≡ (if ltb j i then get_elem? xs j else get_elem? xs (j + 1))
  get_elem?-delete_at i [] j = ground arith
  get_elem?-delete_at zero (x ∷ xs) j = ground arith
  get_elem?-delete_at (suc i) (x ∷ xs) zero = ground arith
  get_elem?-delete_at (suc i) (x ∷ xs) (suc j) = ground (arith, get_elem?-delete_at i xs j)

  pub take_append : (n : ℕ) (xs ys : List A) → n ≤ length xs → take n (take n xs ++ ys) ≡ take n xs
  take_append zero xs ys h = refl
  take_append (suc n) [] ys h = absurd (omega arith)
  take_append (suc n) (x ∷ xs) ys h = ap (◌∷◌ x) (take_append n xs ys (omega arith))
