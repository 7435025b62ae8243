-- ===== src/Sorting/Gaps.antt =====
-- dymanicArray/sort.cpp: the inner loops of shellSort, which only rearrange.
use terry.Base.{
  ℕ, zero, suc, ◌+◌, ◌*◌, ◌≤◌, ◌<◌, ◌≡◌, refl, ◌∙◌, Bool, some, List, ◌∷◌, Perm, arith, ltb, length,
  get_elem?, set, length-set, get_elem?-set, get_elem?-inside, load-ok, store, store-ok, Returns,
  returns, Returns-bind, Returns-map, Returns-if, ltb→lt,
}
use mathlib.Core.List.Perm
use terry.Base.{set-perm, traded-perm, length-perm}
use mathlib.Core.Path.{fun_ext}
use native.Mathlib.Nat.{suc-mul}
use terry.Sorting.{insert_down, shell_down, shell_chain, shell_chains}

-- The first `n` elements are rearranged.
pub record IsMixed {A : Type 0} (n : ℕ) (a b : List A) : Type 0 where
  pub same : Perm b a
  pub past : (c : ℕ) → n ≤ c → get_elem? b c ≡ get_elem? a c

module _ {A : Type 0} (n : ℕ) where
  IsMixed-trans : (a b c : List A) → IsMixed n a b → IsMixed n b c → IsMixed n a c
  IsMixed-trans a b c p q = record {
    same = Perm.trans q.same p.same;
    past = λ i h. q.past i h ∙ p.past i h;
  }

module _ {A : Type 0} (comp : A → A → Bool) where
  -- With the step 1 the inner loop is that of insertSort.
  pub shell_down-insert_down : (m : ℕ) → shell_down comp m 0 1 ≡ insert_down comp m
  unfolding shell_down insert_down
  shell_down-insert_down zero = refl
  shell_down-insert_down (suc m) =
      let here : 0 + suc m * 1 ≡ suc m = omega arith in
      let below : 0 + m * 1 ≡ m = omega arith in
      fun_ext λ array. fun_ext λ temp. rw (here, below, shell_down-insert_down m) refl

  -- What the inner loop leaves, where `x` was at the position of `m`.
  record IsShifted (n : ℕ) (a : List A) (x temp : A) (b : List A) : Type 0 where
    same : Perm (x ∷ b) (temp ∷ a)
    past : (c : ℕ) → n ≤ c → get_elem? b c ≡ get_elem? a c

  stored-IsShifted :
      (n i : ℕ) (a : List A) (x temp : A)
      → i < n
      → n ≤ length a
      → get_elem? a i ≡ some x
      → Returns (IsShifted n a x temp) (store a i temp)
  stored-IsShifted n i a x temp p h e = rw (store-ok a i temp (omega arith)) (
      returns (record {
        same = set-perm a i x temp e;
        past = λ c q. ground (arith, get_elem?-set a i c temp);
      }))

  shell_down-IsShifted :
      (m k begin n : ℕ) (a : List A) (x temp : A)
      → 0 < begin
      → k + m * begin < n
      → n ≤ length a
      → get_elem? a (k + m * begin) ≡ some x
      → Returns (IsShifted n a x temp) (shell_down comp m k begin a temp)
  unfolding shell_down
  shell_down-IsShifted zero k begin n a x temp s p h e =
      let here : k + 0 * begin ≡ k = omega arith in
      stored-IsShifted n k a x temp (omega arith) h (rw here at e)
  shell_down-IsShifted (suc m) k begin n a x temp s p h e =
      let i = k + suc m * begin in
      let j = k + m * begin in
      let step : i ≡ j + begin = grind arith in
      let (y, ey) = get_elem?-inside a j (omega arith) in
      rw (load-ok a j ey, store-ok a i y (omega arith))
        (Returns-if (comp temp y) (λ more. stored-IsShifted n i a x temp p h e)
          λ less.
            Returns-map
              (shell_down-IsShifted m k begin n (set a i y) y temp s (omega arith)
                (omega (arith, length-set a i y)) (ground (arith, get_elem?-set a i j y)))
              λ b t. record {
                same = traded-perm a (set a i y) b x y temp t.same (set-perm a i x y e);
                past = λ c q. t.past c q ∙ ground (arith, get_elem?-set a i c y);
              })

  mul_grows : (m b : ℕ) → 0 < b → m ≤ m * b
  mul_grows zero b h = omega arith
  mul_grows (suc m) b h = omega (arith, suc-mul m b, mul_grows m b h)

  shell_chain-IsMixed :
      (fuel m k begin n : ℕ) (a : List A)
      → fuel + m ≡ n + 2
      → m ≤ n + 1
      → 0 < begin
      → n ≤ length a
      → Returns (IsMixed n a) (shell_chain comp fuel m k begin n a)
  unfolding shell_chain
  shell_chain-IsMixed zero m k begin n a f u s h = absurd (omega arith)
  shell_chain-IsMixed (suc fuel) m k begin n a f u s h =
      Returns-if (ltb (k + m * begin) n)
        (λ inside.
          let p : k + m * begin < n = ltb→lt _ _ inside in
          let (temp, e) = get_elem?-inside a (k + m * begin) (omega arith) in
          rw (load-ok a (k + m * begin) e) (
            Returns-bind (shell_down-IsShifted m k begin n a temp temp s p h e) λ b t.
              let same = Perm.cons_inv t.same in
              Returns-map
                (shell_chain-IsMixed fuel (suc m) k begin n b (omega arith)
                  (omega (arith, mul_grows m begin s)) s (omega (arith, length-perm same)))
                λ c q. IsMixed-trans n a b c (record { same = same; past = t.past }) q))
        (λ outside. returns (record { same = Perm.rfl; past = λ c q. refl }))

  pub shell_chains-IsMixed :
      (left k begin n : ℕ) (a : List A)
      → 0 < begin
      → n ≤ length a
      → Returns (IsMixed n a) (shell_chains comp left k begin n a)
  unfolding shell_chains
  shell_chains-IsMixed zero k begin n a s h =
      returns (record { same = Perm.rfl; past = λ c q. refl })
  shell_chains-IsMixed (suc left) k begin n a s h =
      Returns-bind (shell_chain-IsMixed (n + 1) 1 k begin n a (omega arith) (omega arith) s h)
        λ b t.
          Returns-map
            (shell_chains-IsMixed left (suc k) begin n b s (omega (arith, length-perm t.same)))
            λ c q. IsMixed-trans n a b c t q
