-- ===== src/Base/Swaps.antt =====
-- The exchange of two cells of an array, with what it keeps.
use mathlib.Core.Path.{◌≡◌}
use mathlib.Core.Logic.{∥∥₁_elim}
use mathlib.Core.List.{List, [], ◌∷◌, ◌++◌, Perm, Permᴰ, append-nil}
use mathlib.Core.List.Perm
use mathlib.Core.Option.{some}
use native.Mathlib.Nat.{ℕ_set}
use native.Mathlib.Omega.{arith}
use Prim.Native.Nat.{ℕ, zero, suc, ◌<◌}
use mathlib.Core.Path.{◌∙◌}
use terry.Base.Tests.{◌==◌, if◌then◌else◌}
use terry.Base.Lists.{length, get_elem?, set, length-set}
use terry.Base.Positions.{get_elem?-set}
use terry.Base.Outcome.{Run, ok, ◌>>=◌, load, store, load-ok, store-ok}

module _ {ℓ} {A : Type ℓ} where
  -- `temp = a[i]; a[i] = a[j]; a[j] = temp;`
  unfoldable pub swap_cells : List A → ℕ → ℕ → Run (List A)
  swap_cells a i j = do x ← load a i; y ← load a j; b ← store a i y; store b j x

  -- The array after the exchange of the values `x` at `i` and `y` at `j`.
  abbrev pub exchange : List A → ℕ → ℕ → A → A → List A
  exchange a i j x y = set (set a i y) j x

  pub swap_cells-ok :
      (a : List A) (i j : ℕ) (x y : A)
      → i < length a
      → j < length a
      → get_elem? a i ≡ some x
      → get_elem? a j ≡ some y
      → swap_cells a i j ≡ ok (exchange a i j x y)
  unfolding swap_cells
  swap_cells-ok a i j x y hi hj ex ey = rw (
    load-ok a i ex,
    load-ok a j ey,
    store-ok a i y hi,
    store-ok (set a i y) j x (omega (arith, length-set a i y)),
  )

  pub length-exchange : (a : List A) (i j : ℕ) (x y : A) → length (exchange a i j x y) ≡ length a
  length-exchange a i j x y = length-set (set a i y) j x ∙ length-set a i y

  -- A rearrangement has as many elements.
  Permᴰ-length : {xs ys : List A} → Permᴰ xs ys → length xs ≡ length ys
  Permᴰ-length (Permᴰ.trans first second) = omega (arith, Permᴰ-length first, Permᴰ-length second)
  Permᴰ-length (Permᴰ.swap x y) = omega arith
  Permᴰ-length (Permᴰ.cons x rest) = omega (arith, Permᴰ-length rest)
  Permᴰ-length Permᴰ.nil = omega arith

  pub length-perm : {xs ys : List A} → Perm xs ys → length xs ≡ length ys
  length-perm moved = ∥∥₁_elim moved (ℕ_set _ _) Permᴰ-length

  pub concat-perm : (a : List A) (x : A) → Perm (a ++ x ∷ []) (x ∷ a)
  concat-perm [] x = Perm.rfl
  concat-perm (y ∷ a) x = Perm.trans (Perm.cons y (concat-perm a x)) (Perm.swap x y a)

  pub middle-perm : (a b : List A) (x : A) → Perm (a ++ x ∷ b) (x ∷ (a ++ b))
  middle-perm [] b x = Perm.rfl
  middle-perm (y ∷ a) b x = Perm.trans (Perm.cons y (middle-perm a b x)) (Perm.swap x y (a ++ b))

  pub append-comm : (a b : List A) → Perm (a ++ b) (b ++ a)
  append-comm [] b = rw append-nil Perm.rfl
  append-comm (x ∷ a) b = Perm.trans (Perm.cons x (append-comm a b)) (Perm.symm (middle-perm b a x))

  -- A write trades the old value for the new one.
  pub set-perm :
      (a : List A) (i : ℕ) (x v : A) → get_elem? a i ≡ some x → Perm (x ∷ set a i v) (v ∷ a)
  set-perm [] i x v h = absurd (ground arith)
  set-perm (y ∷ a) zero x v h = let e : y ≡ x = cc in rw e (Perm.swap v x a)
  set-perm (y ∷ a) (suc i) x v h =
      Perm.trans (Perm.swap y x _) (Perm.trans (Perm.cons y (set-perm a i x v h)) (Perm.swap v y a))

  -- Two writes of which the second goes where the first read.
  pub traded-perm :
      (a a₁ b : List A) (x y temp : A)
      → Perm (y ∷ b) (temp ∷ a₁)
      → Perm (x ∷ a₁) (y ∷ a)
      → Perm (x ∷ b) (temp ∷ a)
  traded-perm a a₁ b x y temp p q = Perm.cons_inv (
      Perm.trans (Perm.swap x y b) (
        Perm.trans (Perm.cons x p)
          (Perm.trans (Perm.swap temp x a₁) (Perm.trans (Perm.cons temp q) (Perm.swap y temp a)))))

module _ {A : Type 0} where
  pub get_elem?-exchange :
      (a : List A) (i j : ℕ) (x y : A) (c : ℕ)
      → i < length a
      → j < length a
      → get_elem? (exchange a i j x y) c
        ≡ (if j == c then some x else if i == c then some y else get_elem? a c)
  get_elem?-exchange a i j x y c hi hj =
      ground (arith, length-set a i y, get_elem?-set (set a i y) j c x, get_elem?-set a i c y)

  pub exchange-perm :
      (a : List A) (i j : ℕ) (x y : A)
      → i < length a
      → get_elem? a i ≡ some x
      → get_elem? a j ≡ some y
      → Perm (exchange a i j x y) a
  exchange-perm a i j x y hi ex ey =
      let kept : get_elem? (set a i y) j ≡ some y = ground (arith, get_elem?-set a i j y) in
      Perm.cons_inv (Perm.trans (set-perm (set a i y) j y x kept) (set-perm a i x y ex))
