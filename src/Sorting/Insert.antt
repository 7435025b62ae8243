-- ===== src/Sorting/Insert.antt =====
-- dymanicArray/sort.cpp: insertSort.
use terry.Base.{
  ℕ, zero, suc, ◌+◌, ◌-◌, ◌≤◌, ◌<◌, ◌≡◌, ◌≢◌, refl, ◌∙◌, Bool, some, List, ◌∷◌, Perm, arith, ltb,
  length, get_elem?, set, length-set, get_elem?-set, get_elem?-inside, load-ok, store, store-ok,
  Returns, returns, Returns-bind, Returns-map, Returns-if, ltb→lt,
}
use mathlib.Core.List.Perm
use mathlib.Core.Path.{subst}
use terry.Base.{set-perm, traded-perm, length-perm}
use terry.Sorting.{insert_down, insert_rounds, insert_sort}
use terry.Sorting.Order.{IsComparator, key, IsSortedTo, IsSorted, key-at, key-set, short-IsSorted}

module _ {A : Type 0} (comp : A → A → Bool) (rank : A → ℕ) (c : IsComparator comp rank) where
  -- All is in order but the position `j`, where the element of rank `r` may go: nothing after it
  -- has a smaller rank.
  abbrev IsOpen : ℕ → ℕ → ℕ → List A → Type 0
  IsOpen n j r a =
      ((i k : ℕ) → i ≤ k → k < n → i ≢ j → k ≢ j → key rank a i ≤ key rank a k)
      × ((k : ℕ) → j < k → k < n → r ≤ key rank a k)

  closed :
      (n j : ℕ) (a : List A) (temp : A)
      → j < length a
      → IsOpen n j (rank temp) a
      → ((i : ℕ) → i < j → key rank a i ≤ rank temp)
      → IsSortedTo rank n (set a j temp)
  closed n j a temp h (apart, after) before i k p q =
      ground (arith, key-set rank a j temp i, key-set rank a j temp k, apart i k, after k, before i)

  shifted-IsOpen :
      (n j : ℕ) (a : List A) (temp y : A)
      → suc j < length a
      → get_elem? a j ≡ some y
      → rank temp ≤ rank y
      → IsOpen n (suc j) (rank temp) a
      → IsOpen n j (rank temp) (set a (suc j) y)
  shifted-IsOpen n j a temp y h e le (apart, after) =
      let at = key-at rank a j e in
      (
        λ i k p q ni nk. ground (
          arith,
          at,
          key-set rank a (suc j) y i,
          key-set rank a (suc j) y k,
          apart i k,
          apart i j,
          apart j k,
        ),
        λ k p q. ground (arith, at, key-set rank a (suc j) y k, after k),
      )

  -- What insert_down leaves, where `x` was at position `j`.
  pub record IsInserted (n j : ℕ) (a : List A) (x temp : A) (b : List A) : Type 0 where
    pub same : Perm (x ∷ b) (temp ∷ a)
    pub sorted : IsSortedTo rank n b
    pub past : (k : ℕ) → j < k → get_elem? b k ≡ get_elem? a k

  stored-IsInserted :
      (n j : ℕ) (a : List A) (x temp : A)
      → j < length a
      → get_elem? a j ≡ some x
      → IsOpen n j (rank temp) a
      → ((i : ℕ) → i < j → key rank a i ≤ rank temp)
      → Returns (IsInserted n j a x temp) (store a j temp)
  stored-IsInserted n j a x temp h e hole before = rw (store-ok a j temp h) (
      returns (record {
        same = set-perm a j x temp e;
        sorted = closed n j a temp h hole before;
        past = λ k p. ground (arith, get_elem?-set a j k temp h);
      }))

  pub insert_down-IsInserted :
      (n j : ℕ) (a : List A) (x temp : A)
      → j < length a
      → j < n
      → get_elem? a j ≡ some x
      → IsOpen n j (rank temp) a
      → Returns (IsInserted n j a x temp) (insert_down comp j a temp)
  unfolding insert_down
  insert_down-IsInserted n zero a x temp h q e hole =
      stored-IsInserted n zero a x temp h e hole (λ i p. absurd (omega arith))
  insert_down-IsInserted n (suc j) a x temp h q e hole =
      let (y, ey) = get_elem?-inside a j (omega arith) in
      let at = key-at rank a j ey in
      let a₁ = set a (suc j) y in
      rw (load-ok a j ey, store-ok a (suc j) y h)
        (Returns-if (comp temp y)
          (λ more.
            stored-IsInserted n (suc j) a x temp h e hole
              (λ i p. ground (arith, c temp y, at, hole.0 i j)))
          (λ less.
            Returns-map
              (insert_down-IsInserted n j a₁ y temp (omega (arith, length-set a (suc j) y))
                (omega arith) (ground (arith, get_elem?-set a (suc j) j y h))
                (shifted-IsOpen n j a temp y h ey (ground (arith, c temp y)) hole))
              λ b s. record {
                same = traded-perm a a₁ b x y temp s.same (set-perm a (suc j) x y e);
                sorted = s.sorted;
                past =
                    λ k p. s.past k (omega arith) ∙ ground (arith, get_elem?-set a (suc j) k y h);
              }))

  insert_rounds-IsSorted :
      (left i : ℕ) (a : List A)
      → suc (i + left) ≤ length a
      → IsSortedTo rank (suc i) a
      → Returns (IsSorted rank (suc (i + left)) a) (insert_rounds comp left a i)
  unfolding insert_rounds
  insert_rounds-IsSorted zero i a h sorted = returns (record {
    same = Perm.rfl;
    sorted = λ x y p q. sorted x y p (omega arith);
    past = λ k p. refl;
  })
  insert_rounds-IsSorted (suc left) i a h sorted =
      let (temp, e) = get_elem?-inside a (suc i) (omega arith) in
      rw (load-ok a (suc i) e) (
        Returns-bind
          (insert_down-IsInserted (suc (suc i)) (suc i) a temp temp (omega arith) (omega arith) e
            (λ x y p q nx ny. sorted x y p (omega arith), λ y p q. absurd (omega arith)))
          λ b s.
            let same = Perm.cons_inv s.same in
            Returns-map
              (insert_rounds-IsSorted left (suc i) b (omega (arith, length-perm same)) s.sorted)
              λ d t. record {
                same = Perm.trans t.same same;
                sorted = λ x y p q. t.sorted x y p (omega arith);
                past = λ k p. t.past k (omega arith) ∙ s.past k (omega arith);
              })

  -- With a comparison that says which of two elements has the greater rank, and at most as many
  -- elements as the memory has, insertSort returns. The first `n` elements are rearranged, they do
  -- not descend, and what follows them is as before.
  pub insert_sort_correct :
      (a : List A) (n : ℕ) → n ≤ length a → Returns (IsSorted rank n a) (insert_sort comp a n)
  unfolding insert_sort
  insert_sort_correct a n h =
      Returns-if (ltb n 2) (λ short. returns (short-IsSorted rank a n (ltb→lt n 2 short)))
        λ long.
          let e : suc (0 + (n - 1)) ≡ n = ground arith in
          let sorted =
            insert_rounds-IsSorted (n - 1) 0 a (ground arith)
              (short-IsSorted rank a 1 (omega arith)).sorted in
          subst (λ m. Returns (IsSorted rank m a) (insert_rounds comp (n - 1) a 0)) e sorted
