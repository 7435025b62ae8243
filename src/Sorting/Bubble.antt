-- ===== src/Sorting/Bubble.antt =====
-- dymanicArray/sort.cpp: bubbleSort.
use terry.Base.{
  ℕ, zero, suc, ◌+◌, ◌-◌, ◌≤◌, ◌<◌, ◌≡◌, refl, ap, ◌∙◌, Bool, true, false, some, List, Perm, arith,
  ltb, ◌==◌, if◌then◌else◌, length, get_elem?, get_elem?-inside, ok, ◌>>=◌, load-ok, Returns,
  returns, Returns-bind, Returns-map, Returns-if, dec_lt, ℕ_discrete, ltb→lt,
}
use mathlib.Core.List.Perm
use terry.Base.{swap_cells-ok, get_elem?-exchange, exchange-perm, length-perm}
use terry.Sorting.{swap, bubble_pass, bubble_rounds, bubble_sort}
use terry.Sorting.Order.{
  rank_of, IsComparator, key, IsSortedTo, IsSorted, key-at, key-exchange, short-IsSorted,
}

module _ {A : Type 0} (comp : A → A → Bool) (rank : A → ℕ) (c : IsComparator comp rank) where
  -- The first `n` elements do not descend from one to the next.
  abbrev IsCalm : ℕ → ℕ → List A → Type 0
  IsCalm j n a = (k : ℕ) → j ≤ k → k < n → key rank a k ≤ key rank a (suc k)

  -- None of the first elements, up to the position `n`, has a greater rank than `r`.
  abbrev IsBelow : ℕ → ℕ → List A → Type 0
  IsBelow r n a = (k : ℕ) → k ≤ n → key rank a k ≤ r

  -- What the rest of a pass from `j` to `n` does; the flag tells whether it has exchanged any two.
  record IsPassed (j n : ℕ) (flag : Bool) (a : List A) (r : List A × Bool) : Type 0 where
    same : Perm r.0 a
    top : IsBelow (key rank r.0 n) n r.0
    below : (m : ℕ) → IsBelow m n a → IsBelow m n r.0
    past : (k : ℕ) → n < k → get_elem? r.0 k ≡ get_elem? a k
    calm : r.1 ≡ false → (flag ≡ false) × (r.0 ≡ a) × IsCalm j n a

  -- One step of a pass.
  record IsStepped (j : ℕ) (flag : Bool) (a : List A) (r : List A × Bool) : Type 0 where
    same : Perm r.0 a
    top : IsBelow (key rank r.0 (suc j)) (suc j) r.0
    below : (m n : ℕ) → suc j ≤ n → IsBelow m n a → IsBelow m n r.0
    past : (k : ℕ) → suc j < k → get_elem? r.0 k ≡ get_elem? a k
    calm : r.1 ≡ false → (flag ≡ false) × (r.0 ≡ a) × (key rank a j ≤ key rank a (suc j))

  swapped-IsStepped :
      (j : ℕ) (flag : Bool) (a : List A) (x y : A)
      → suc j < length a
      → get_elem? a j ≡ some x
      → get_elem? a (suc j) ≡ some y
      → rank y < rank x
      → IsBelow (key rank a j) j a
      → Returns (IsStepped j flag a) (swap a j (suc j) >>= λ b. ok (b, true))
  unfolding swap
  swapped-IsStepped j flag a x y h ex ey less top =
      let apart : (j == suc j) ≡ false = ground arith in
      let inside : j < length a = omega arith in
      let at_x = key-at rank a j ex in
      let at_y = key-at rank a (suc j) ey in
      let at = λ (k : ℕ). key-exchange rank a j (suc j) x y k inside h in
      rw (apart, swap_cells-ok a j (suc j) x y inside h ex ey)
        (returns (record {
          same = exchange-perm a j (suc j) x y inside ex ey;
          top = λ k p. ground (arith, at_x, at k, at (suc j), top k);
          below = λ m n p q k r. ground (arith, at_x, at_y, at k, q k, q j, q (suc j));
          past = λ k p. ground (arith, get_elem?-exchange a j (suc j) x y k inside h);
          calm = λ f. absurd (ground arith);
        }))

  step-IsStepped :
      (j : ℕ) (flag : Bool) (a : List A) (x y : A)
      → suc j < length a
      → get_elem? a j ≡ some x
      → get_elem? a (suc j) ≡ some y
      → IsBelow (key rank a j) j a
      → Returns
          (IsStepped j flag a)
          (if comp x y then (swap a j (suc j) >>= λ b. ok (b, true)) else ok (a, flag))
  step-IsStepped j flag a x y h ex ey top =
      let at_x = key-at rank a j ex in
      let at_y = key-at rank a (suc j) ey in
      Returns-if (comp x y)
        (λ more. swapped-IsStepped j flag a x y h ex ey (ground (arith, c x y)) top)
        λ less.
          let le : key rank a j ≤ key rank a (suc j) = ground (arith, c x y, at_x, at_y) in
          returns (record {
            same = Perm.rfl;
            top = λ k p. ground (arith, top k, le);
            below = λ m n p q. q;
            past = λ k p. refl;
            calm = λ f. (f, refl, le);
          })

  pass-IsPassed :
      (j n : ℕ) (flag : Bool) (a : List A) (s : List A × Bool) (r : List A × Bool)
      → suc j ≤ n
      → IsStepped j flag a s
      → IsPassed (suc j) n s.1 s.0 r
      → IsPassed j n flag a r
  pass-IsPassed j n flag a s r h first rest = record {
    same = Perm.trans rest.same first.same;
    top = rest.top;
    below = λ m q. rest.below m (first.below m n h q);
    past = λ k p. rest.past k p ∙ first.past k (omega arith);
    calm = λ f.
        let (f₁, e₁, calm₁) = rest.calm f in
        let (f₂, e₂, le) = first.calm f₁ in
        (
          f₂,
          e₁ ∙ e₂,
          λ k p q. elim (ℕ_discrete k j) [
            | yes here ↦ rw here le
            | no later ↦ omega (
              arith,
              calm₁ k (omega arith) q,
              ap (λ z. key rank z k) e₂,
              ap (λ z. key rank z (suc k)) e₂,
            )
          ],
        );
  }

  bubble_pass-IsPassed :
      (left j n : ℕ) (flag : Bool) (a : List A)
      → j + left ≡ n
      → n < length a
      → IsBelow (key rank a j) j a
      → Returns (IsPassed j n flag a) (bubble_pass comp left a j flag)
  unfolding bubble_pass
  bubble_pass-IsPassed zero j n flag a e h top =
      let same : j ≡ n = omega arith in
      returns (record {
        same = Perm.rfl;
        top = rw same at top;
        below = λ m q. q;
        past = λ k p. refl;
        calm = λ f. (f, refl, λ k p q. absurd (omega arith));
      })
  bubble_pass-IsPassed (suc left) j n flag a e h top =
      let (x, ex) = get_elem?-inside a j (omega arith) in
      let (y, ey) = get_elem?-inside a (suc j) (omega arith) in
      rw (load-ok a j ex, load-ok a (suc j) ey)
        (Returns-bind (step-IsStepped j flag a x y (omega arith) ex ey top) λ s first.
          Returns-map
            (bubble_pass-IsPassed left (suc j) n s.1 s.0 (omega arith)
              (omega (arith, length-perm first.same)) first.top)
            λ r rest. pass-IsPassed j n flag a s r (omega arith) first rest)

  -- The elements from position `t` on are where they belong.
  abbrev IsTail : ℕ → ℕ → List A → Type 0
  IsTail t n a = (i k : ℕ) → i ≤ k → t ≤ k → k < n → key rank a i ≤ key rank a k

  calm_chain :
      (m : ℕ) (a : List A) (i k : ℕ) → IsCalm 0 m a → i ≤ k → k ≤ m → key rank a i ≤ key rank a k
  calm_chain m a i zero calm p q = let e : i ≡ zero = omega arith in rw e (omega arith)
  calm_chain m a i (suc k) calm p q = elim (ℕ_discrete i (suc k)) [
    | yes e ↦ rw e (omega arith)
    | no ne ↦ omega (
      arith,
      calm_chain m a i k calm (omega arith) (omega arith),
      calm k (omega arith) (omega arith),
    )
  ]

  calm-IsSortedTo : (m n : ℕ) (a : List A) → IsCalm 0 m a → IsTail (suc m) n a → IsSortedTo rank n a
  calm-IsSortedTo m n a calm tail i k p q = elim (dec_lt m k) [
    | yes after ↦ tail i k p after q
    | no inside ↦ calm_chain m a i k calm p (omega arith)
  ]

  passed-IsTail :
      (m n : ℕ) (a : List A) (r : List A × Bool) (flag : Bool)
      → IsPassed 0 m flag a r
      → IsTail (suc m) n a
      → IsTail m n r.0
  passed-IsTail m n a r flag s tail i k p q u =
      let at = λ (x : ℕ) (h : m < x). ap (rank_of rank) (s.past x h) in
      elim (ℕ_discrete m k) [
        | yes e ↦ rw e at (s.top i (omega arith))
        | no ne ↦ elim (dec_lt m i) [
          | yes high ↦ omega (arith, tail i k p (omega arith) u, at i high, at k (omega arith))
          | no low ↦ omega (
            arith,
            at k (omega arith),
            s.below (key rank a k) (λ x h. tail x k (omega arith) (omega arith) u) i (omega arith),
          )
        ]
      ]

  bubble_rounds-IsSorted :
      (left n : ℕ) (a : List A) (flag : Bool)
      → suc left ≤ n
      → n ≤ length a
      → IsTail (suc left) n a
      → (flag ≡ false → IsSortedTo rank n a)
      → Returns (IsSorted rank n a) (bubble_rounds comp left a flag)
  unfolding bubble_rounds
  bubble_rounds-IsSorted zero n a flag h q tail calm = returns (record {
    same = Perm.rfl;
    sorted = λ i k p u. elim (dec_lt 0 k) [
      | yes after ↦ tail i k p after u
      | no first ↦ let e : i ≡ k = omega arith in rw e (omega arith)
    ];
    past = λ k p. refl;
  })
  bubble_rounds-IsSorted (suc left) n a flag h q tail calm =
      Returns-if flag
        (λ on.
          Returns-bind
            (bubble_pass-IsPassed (suc left) 0 (suc left) false a (omega arith) (omega arith)
              λ k p. let e : k ≡ 0 = omega arith in rw e (omega arith))
            λ r s.
              let sorted : r.1 ≡ false → IsSortedTo rank n r.0 = λ f.
                let (_, e, calm₁) = s.calm f in rw e (calm-IsSortedTo (suc left) n a calm₁ tail) in
              Returns-map
                (bubble_rounds-IsSorted left n r.0 r.1 (omega arith)
                  (omega (arith, length-perm s.same)) (passed-IsTail (suc left) n a r false s tail)
                  sorted)
                λ d t. record {
                  same = Perm.trans t.same s.same;
                  sorted = t.sorted;
                  past = λ k p. t.past k p ∙ s.past k (omega arith);
                })
        (λ off. returns (record { same = Perm.rfl; sorted = calm off; past = λ k p. refl }))

  -- With a comparison that says which of two elements has the greater rank, and at most as many
  -- elements as the memory has, bubbleSort returns. The first `n` elements are rearranged, they do
  -- not descend, and what follows them is as before.
  pub bubble_sort_correct :
      (a : List A) (n : ℕ) → n ≤ length a → Returns (IsSorted rank n a) (bubble_sort comp a n)
  unfolding bubble_sort
  bubble_sort_correct a n h =
      Returns-if (ltb n 2) (λ short. returns (short-IsSorted rank a n (ltb→lt n 2 short)))
        λ long.
          let several : 2 ≤ n = ground arith in
          bubble_rounds-IsSorted (n - 1) n a true (omega arith) h
            (λ i k p q u. absurd (omega arith)) (λ f. absurd (ground arith))
