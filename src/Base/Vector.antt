-- ===== src/Base/Vector.antt =====
-- `std::vector` of plain data, with its memory: the cells up to the capacity, `none` where a cell is
-- indeterminate. `operator[]` is not checked against the size, so a cell between size and capacity
-- can be read and written; when the vector moves to larger memory, only the first `size` cells go
-- along.
use Prim.Native.Nat.{ℕ, ◌+◌, ◌-◌, ◌≤◌, ◌<◌}
use mathlib.Core.Path.{◌≡◌, refl, ap, ◌∙◌}
use mathlib.Core.List.{List, [], ◌++◌}
use mathlib.Core.Option.{Option, none, some}
use native.Mathlib.Omega.{arith}
use mathlib.Core.Bool.{true, false}
use terry.Base.Tests.{ltb, ◌==◌, if◌then◌else◌, ge→ltb, Option-cases}
use mathlib.Core.Logic.{◌≢◌, inl, inr}
use terry.Base.Lists.{length, get_elem?, set, take, replicate}
use native.Mathlib.Decide.{dec_lt}
use terry.Base.Positions.{get_elem?-set, get_elem?-past}
use terry.Base.Outcome.{Run, ok, fault, ◌>>=◌, or_fault, load, store, store-ok}

pub record Vector {ℓ} (A : Type ℓ) : Type ℓ where
  pub size : ℕ
  pub cells : List (Option A)

module _ {ℓ} {A : Type ℓ} where
  abbrev pub empty : Vector A
  empty = record { size = 0; cells = [] }

  abbrev pub capacity : Vector A → ℕ
  capacity v = length v.cells

  -- Memory for `n` elements.
  unfoldable pub moved : ℕ → Vector A → Vector A
  moved n v = record v { cells = take v.size v.cells ++ replicate (n - v.size) none }

  unfoldable pub reserve : ℕ → Vector A → Vector A
  reserve n v = if ltb (capacity v) n then moved n v else v

  -- `v[i]`
  unfoldable pub read : ℕ → Vector A → Run A
  read i v = load v.cells i >>= or_fault

  -- `v[i] = a`
  unfoldable pub write : ℕ → A → Vector A → Run (Vector A)
  write i a v = do cells ← store v.cells i (some a); ok (record v { cells = cells })

  -- A full vector doubles its memory.
  unfoldable pub push_back : A → Vector A → Run (Vector A)
  push_back a v =
      let room =
        if v.size == capacity v then moved (if v.size == 0 then 1 else v.size + v.size) v else v in
      do written ← write v.size a room; ok (record written { size = v.size + 1 })

  unfoldable pub clear : Vector A → Vector A
  clear v = record v { size = 0 }

  abbrev flat : Option (Option A) → Option A
  flat none = none
  flat (some o) = o

  -- The element in a cell of the memory.
  abbrev pub cell : Vector A → ℕ → Option A
  cell v i = flat (get_elem? v.cells i)

  pub read-ok : (i : ℕ) (v : Vector A) {a : A} → cell v i ≡ some a → read i v ≡ ok a
  unfolding read load
  read-ok i v {a} e = elim (Option-cases (get_elem? v.cells i)) [
    | inl out ↦ ground (arith, out, e)
    | inr (o, at) ↦ rw at (ground (arith, at, e))
  ]

  pub write-ok :
      (i : ℕ) (a : A) (v : Vector A)
      → i < capacity v
      → write i a v ≡ ok (record v { cells = set v.cells i (some a) })
  unfolding write
  write-ok i a v h = rw (store-ok v.cells i (some a) h) refl

  pub write-past : (i : ℕ) (a : A) (v : Vector A) → capacity v ≤ i → write i a v ≡ fault
  unfolding write store
  write-past i a v h = rw (ge→ltb i (capacity v) h) refl

  -- The vector after a write inside of its memory.
  abbrev pub written : ℕ → A → Vector A → Vector A
  written i a v = record v { cells = set v.cells i (some a) }

  pub cell-written_hit :
      (i : ℕ) (a : A) (v : Vector A) (j : ℕ)
      → i < capacity v
      → j ≡ i
      → cell (written i a v) j ≡ some a
  cell-written_hit i a v j h same =
      let e : (i == j) ≡ true = ground arith in
      ap flat {y = some (some a)} (get_elem?-set v.cells i j (some a) h ∙ rw e refl)

  pub cell-written_miss :
      (i : ℕ) (a : A) (v : Vector A) (j : ℕ)
      → i < capacity v
      → j ≢ i
      → cell (written i a v) j ≡ cell v j
  cell-written_miss i a v j h other =
      let e : (i == j) ≡ false = ground arith in
      ap flat {y = get_elem? v.cells j} (get_elem?-set v.cells i j (some a) h ∙ rw e refl)

  -- A cell that holds an element is inside of the memory.
  pub cell-inside : (v : Vector A) (i : ℕ) {a : A} → cell v i ≡ some a → i < capacity v
  cell-inside v i {a} e = elim (dec_lt i (capacity v)) [
    | yes inside ↦ inside
    | no outside ↦ absurd (ground (arith, get_elem?-past v.cells i (omega arith), e))
  ]
