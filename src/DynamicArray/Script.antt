-- ===== src/DynamicArray/Script.antt =====
use terry.Base.{
  ℕ, zero, suc, ◌+◌, ◌*◌, ◌≤◌, ◌<◌, ◌^◌, ◌≡◌, refl, sym, ap, ◌∙◌, some, List, [], ◌∷◌, ◌++◌, arith,
  Option, length, length-take, length-replicate, Run, ok, ◌>>=◌, Returns, returns, Returns-bind,
  Returns-map,
}
use native.Mathlib.Decide.{dec_lt}
use terry.DynamicArray.{DArray, Ret, new, d_insert, d_append, d_prepend, d_delete}
use terry.DynamicArray.View.{contents, IsValid, insert_at, insert_at-length, delete_at}
use terry.DynamicArray.Insert.{IsInserted, d_insert_correct}
use terry.DynamicArray.Remove.{d_delete_correct, d_delete-past}

-- The calls that change the elements.
pub data Op {ℓ} (A : Type ℓ) : Type ℓ where
  insert : ℕ → A → Op A
  delete : ℕ → Op A
  append prepend : A → Op A

module _ {ℓ} {A : Type ℓ} where
  unfoldable pub exec : Op A → DArray A → Run (DArray A)
  exec (insert i v) d = do (e, _) ← d_insert i v d; ok e
  exec (delete i) d = do (e, _, _) ← d_delete i d; ok e
  exec (append v) d = do (e, _) ← d_append v d; ok e
  exec (prepend v) d = do (e, _) ← d_prepend v d; ok e

  unfoldable pub exec_all : List (Op A) → DArray A → Run (DArray A)
  exec_all [] d = ok d
  exec_all (o ∷ os) d = exec o d >>= exec_all os

  -- The same call on a list.
  abbrev pub on_list : Op A → List (Option A) → List (Option A)
  on_list (insert i v) xs = insert_at i (some v) xs
  on_list (delete i) xs = delete_at i xs
  on_list (append v) xs = xs ++ some v ∷ []
  on_list (prepend v) xs = some v ∷ xs

  abbrev pub all_on_list : List (Op A) → List (Option A) → List (Option A)
  all_on_list [] xs = xs
  all_on_list (o ∷ os) xs = all_on_list os (on_list o xs)

module _ {A : Type 0} where
  -- The state after `n` calls on an array that began with `c` cells.
  pub record IsRunning (c n : ℕ) (d : DArray A) : Type 0 where
    pub valid : IsValid d
    pub spare : d.m_size < d.m_length
    pub count : d.m_size ≤ n
    pub capped : d.m_length ≤ c + 2 * n + 32

  after_insert :
      (c n i : ℕ) (v : A) (d : DArray A) (r : DArray A × Ret)
      → IsRunning c n d
      → IsInserted i v d r
      → IsRunning c (n + 1) r.0
  after_insert c n i v d r w s = record {
    valid = s.valid;
    spare = s.spare;
    count = omega (arith, s.size, w.count);
    capped = omega (arith, s.capped, w.capped, w.count);
  }

  delete_at-past : (i : ℕ) (xs : List (Option A)) → length xs ≤ i → delete_at i xs ≡ xs
  delete_at-past i [] h = refl
  delete_at-past zero (x ∷ xs) h = absurd (omega arith)
  delete_at-past (suc i) (x ∷ xs) h = ap (◌∷◌ x) (delete_at-past i xs (omega arith))

  insert_correct :
      (c n i : ℕ) (v : A) (d : DArray A)
      → c + 2 * n + 32 < 2 ^ 63
      → IsRunning c n d
      → Returns
          (λ r. IsRunning c (n + 1) r.0 × (contents r.0 ≡ insert_at i (some v) (contents d)))
          (d_insert i v d)
  insert_correct c n i v d h w =
      Returns-map (d_insert_correct i v d w.valid (omega (arith, w.capped)))
        λ r s. (after_insert c n i v d r w s, s.view)

  delete_correct :
      (c n i : ℕ) (d : DArray A)
      → IsRunning c n d
      → Returns
          (λ r. IsRunning c (n + 1) r.0 × (contents r.0 ≡ delete_at i (contents d)))
          (d_delete i d)
  delete_correct c n i d w = elim (dec_lt i d.m_size) [
    | yes inside ↦ Returns-map (d_delete_correct i d w.valid w.spare inside) λ r s. (
      record {
        valid = s.valid;
        spare = omega (arith, s.size, s.length_kept, w.spare);
        count = omega (arith, s.size, w.count);
        capped = omega (arith, s.length_kept, w.capped);
      },
      s.view,
    )
    | no past ↦ rw (d_delete-past i d (omega arith)) (
        returns (
          record {
            valid = w.valid;
            spare = w.spare;
            count = omega (arith, w.count);
            capped = omega (arith, w.capped);
          },
          sym (delete_at-past i (contents d) (omega (arith, length-take d.m_size d.p_base))),
        ))
  ]

  at_end :
      (v : A) (d : DArray A)
      → IsValid d
      → insert_at d.m_size (some v) (contents d) ≡ contents d ++ some v ∷ []
  at_end v d w =
      let full : length (contents d) ≡ d.m_size =
        omega (arith, length-take d.m_size d.p_base, w.cells, w.fits) in
      rw full at (insert_at-length (some v) (contents d))

  exec-on_list :
      (c n : ℕ) (o : Op A) (d : DArray A)
      → c + 2 * n + 32 < 2 ^ 63
      → IsRunning c n d
      → Returns (λ e. IsRunning c (n + 1) e × (contents e ≡ on_list o (contents d))) (exec o d)
  unfolding exec d_append d_prepend
  exec-on_list c n (insert i v) d h w = Returns-bind (insert_correct c n i v d h w) λ r s. returns s
  exec-on_list c n (delete i) d h w = Returns-bind (delete_correct c n i d w) λ r s. returns s
  exec-on_list c n (append v) d h w =
      Returns-bind (insert_correct c n d.m_size v d h w)
        λ r s. returns (s.0, s.1 ∙ at_end v d w.valid)
  exec-on_list c n (prepend v) d h w = Returns-bind (insert_correct c n 0 v d h w) λ r s. returns s

  exec_all-on_list :
      (c n : ℕ) (os : List (Op A)) (d : DArray A)
      → c + 2 * (n + length os) + 32 < 2 ^ 63
      → IsRunning c n d
      → Returns (λ e. IsValid e × (contents e ≡ all_on_list os (contents d))) (exec_all os d)
  unfolding exec_all
  exec_all-on_list c n [] d h w = returns (w.valid, refl)
  exec_all-on_list c n (o ∷ os) d h w = Returns-bind (exec-on_list c n o d (omega arith) w) λ e s.
      Returns-map (exec_all-on_list c (n + 1) os e (omega arith) s.0) λ f t. (t.0, rw (← s.1) t.1)

  new-IsRunning : (z : A) (c : ℕ) → 0 < c → IsRunning c 0 (new z c)
  unfolding new
  new-IsRunning z c h = record {
    valid = record { cells = length-replicate c (some z); fits = omega arith };
    spare = omega arith;
    count = omega arith;
    capped = omega arith;
  }

  -- On an array that is created with at least one cell, any sequence of insertions, deletions,
  -- appends and prepends of fewer than 2^60 calls stays within the memory, returns, and leaves the
  -- elements that the same calls leave on a list.
  pub exec_all-new :
      (z : A) (c : ℕ) (os : List (Op A))
      → 0 < c
      → c < 2 ^ 60
      → length os < 2 ^ 60
      → Returns (λ e. IsValid e × (contents e ≡ all_on_list os [])) (exec_all os (new z c))
  unfolding new
  exec_all-new z c os some_cell small few =
      exec_all-on_list c 0 os (new z c) (omega arith) (new-IsRunning z c some_cell)
