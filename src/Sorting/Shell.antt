-- ===== src/Sorting/Shell.antt =====
-- dymanicArray/sort.cpp: shellSort.
use terry.Base.{
  ℕ, zero, suc, ◌+◌, ◌*◌, ◌/◌, ◌≤◌, ◌<◌, ◌≡◌, refl, ◌∙◌, Bool, List, arith, ltb, length,
  get_elem?-inside, load-ok, Returns, returns, Returns-bind, Returns-map, Returns-if, ℕ_discrete,
  ltb→lt, ltb→ge,
}
use mathlib.Core.List.Perm
use terry.Base.{length-perm}
use terry.Sorting.{shell_chain, shell_chains, shell_rounds, shell_sort}
use terry.Sorting.Order.{IsComparator, IsSortedTo, IsSorted, short-IsSorted}
use terry.Sorting.Insert.{insert_down-IsInserted}
use terry.Sorting.Gaps.{IsMixed, shell_down-insert_down, shell_chains-IsMixed}

module _ {A : Type 0} (comp : A → A → Bool) (rank : A → ℕ) (c : IsComparator comp rank) where
  -- With the step 1 the loop over `i` is that of insertSort.
  last_chain-IsSorted :
      (fuel m n : ℕ) (a : List A)
      → fuel + m ≡ n + 2
      → m ≤ n + 1
      → n ≤ length a
      → IsSortedTo rank m a
      → Returns (IsSorted rank n a) (shell_chain comp fuel m 0 1 n a)
  unfolding shell_chain
  last_chain-IsSorted zero m n a f u h sorted = absurd (omega arith)
  last_chain-IsSorted (suc fuel) m n a f u h sorted =
      let here : 0 + m * 1 ≡ m = omega arith in
      rw (here, shell_down-insert_down comp m)
        (Returns-if (ltb m n)
          (λ inside.
            let p : m < n = ltb→lt _ _ inside in
            let (temp, e) = get_elem?-inside a m (omega arith) in
            rw (load-ok a m e) (
              Returns-bind
                (insert_down-IsInserted comp rank c (suc m) m a temp temp (omega arith)
                  (omega arith) e
                  (λ x y q r nx ny. sorted x y q (omega arith), λ y q r. absurd (omega arith)))
                λ b t.
                  let same = Perm.cons_inv t.same in
                  Returns-map
                    (last_chain-IsSorted fuel (suc m) n b (omega arith) (omega arith)
                      (omega (arith, length-perm same)) t.sorted)
                    λ d q. record {
                      same = Perm.trans q.same same;
                      sorted = q.sorted;
                      past = λ i r. q.past i r ∙ t.past i (omega arith);
                    }))
          (λ outside.
            let q : n ≤ m = ltb→ge m n outside in
            returns (record {
              same = Perm.rfl;
              sorted = λ x y r s. sorted x y r (omega arith);
              past = λ i r. refl;
            })))

  -- The round with the step 1 sorts.
  last_round :
      (n : ℕ) (a : List A)
      → n ≤ length a
      → Returns (IsSorted rank n a) (shell_chains comp 1 0 1 n a)
  unfolding shell_chains
  last_round n a h =
      Returns-bind
        (last_chain-IsSorted (n + 1) 1 n a (omega arith) (omega arith) h
          (short-IsSorted rank a 1 (omega arith)).sorted)
        λ b s. returns s

  round-IsMixed :
      (begin n : ℕ) (a : List A)
      → 0 < begin
      → n ≤ length a
      → Returns
          (λ b. IsMixed n a b × (begin ≡ 1 → IsSortedTo rank n b))
          (shell_chains comp begin 0 begin n a)
  round-IsMixed begin n a s h = elim (ℕ_discrete begin 1) [
    | yes one ↦ rw one (
        Returns-map (last_round n a h)
          λ b t. (record { same = t.same; past = t.past }, λ _. t.sorted))
    | no more ↦
        Returns-map (shell_chains-IsMixed comp begin 0 begin n a s h)
          λ b t. (t, λ one. absurd (more one))
  ]

  shell_rounds-IsSorted :
      (fuel begin n : ℕ) (a : List A)
      → begin < fuel
      → n ≤ length a
      → (begin ≡ 0 → IsSortedTo rank n a)
      → Returns (IsSorted rank n a) (shell_rounds comp fuel begin n a)
  unfolding shell_rounds
  shell_rounds-IsSorted zero begin n a f h done = absurd (omega arith)
  shell_rounds-IsSorted (suc fuel) begin n a f h done =
      Returns-if (ltb 0 begin)
        (λ on.
          let s : 0 < begin = ltb→lt _ _ on in
          Returns-bind (round-IsMixed begin n a s h) λ b (t, sorted).
            Returns-map
              (shell_rounds-IsSorted fuel (begin / 2) n b (omega arith)
                (omega (arith, length-perm t.same)) (λ half. sorted (omega arith)))
              λ d q. record {
                same = Perm.trans q.same t.same;
                sorted = q.sorted;
                past = λ i r. q.past i r ∙ t.past i r;
              })
        (λ off.
          returns (record { same = Perm.rfl; sorted = done (ground arith); past = λ i r. refl }))

  -- With a comparison that says which of two elements has the greater rank, and at most as many
  -- elements as the memory has, shellSort returns. The first `n` elements are rearranged, they do
  -- not descend, and what follows them is as before.
  pub shell_sort_correct :
      (a : List A) (n : ℕ) → n ≤ length a → Returns (IsSorted rank n a) (shell_sort comp a n)
  unfolding shell_sort
  shell_sort_correct a n h =
      Returns-if (ltb n 2) (λ short. returns (short-IsSorted rank a n (ltb→lt n 2 short)))
        λ long.
          let several : 2 ≤ n = ltb→ge n 2 long in
          shell_rounds-IsSorted n (n / 2) n a (omega arith) h (λ e. absurd (omega arith))
