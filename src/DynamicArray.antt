-- ===== src/DynamicArray.antt =====
-- dymanicArray/dArray.cpp and dymanicArray/dArray.h: the class DArray. The element type is a
-- parameter. A cell of the array's memory is `none` while its value is indeterminate. `new` throws
-- when it fails, so the branches for a null result cannot be taken and are left out.
pub mod Memory
pub mod Moves
pub mod View
pub mod Insert
pub mod Remove
pub mod Access
pub mod Script
mod Tests
use terry.Base.{
  ℕ, zero, suc, ◌+◌, ◌-◌, ◌/◌, ◌%◌, Bool, Option, none, some, List, ◌++◌, ltb, leb, ◌==◌,
  if◌then◌else◌, ◌&&◌, length, take, drop, replicate, Run, ok, fault, ◌>>=◌, ◌>>◌, check, load,
  store, u64_mod, sub64,
}
use Memory.{memcpy, shift_up, shift_down}

pub data Ret : Type 0 where
  failed succeed : Ret

pub record DArray {ℓ} (A : Type ℓ) : Type ℓ where
  pub p_base : List (Option A)
  pub m_length : ℕ
  pub m_size : ℕ

abbrev pub default_length : ℕ
default_length = 16

abbrev pub min_expand_length : ℕ
min_expand_length = 8

abbrev pub min_space : ℕ
min_space = 4

-- The length after an expansion: half as much again, or the default for a short array.
unfoldable pub expanded_length : ℕ → ℕ
expanded_length n = if ltb n min_expand_length then default_length else (n + n / 2) % u64_mod

module _ {ℓ} {A : Type ℓ} where
  -- The constructor of an empty array; `memset` clears its memory to `zero_elem`.
  unfoldable pub new : A → ℕ → DArray A
  new zero_elem size = record {
    p_base = replicate size (some zero_elem);
    m_length = size;
    m_size = 0;
  }

  -- The constructor that copies the first `valid_length` cells of an array.
  unfoldable pub new_from : List (Option A) → ℕ → Run (DArray A)
  new_from src valid_length = do
    base ← memcpy (replicate valid_length none) src valid_length
    ok (record { p_base = base; m_length = valid_length; m_size = valid_length })

  unfoldable pub need_expand : DArray A → Bool
  need_expand d = leb (sub64 d.m_length d.m_size) min_space

  unfoldable pub need_shrink : DArray A → Bool
  need_shrink d = leb (d.m_length / 4) (sub64 d.m_length d.m_size)

  unfoldable pub get_space_size : DArray A → ℕ
  get_space_size d = sub64 d.m_length d.m_size

  unfoldable pub d_expand : DArray A → Run (DArray A)
  d_expand d = do
    let len = expanded_length d.m_length
    base ← memcpy (replicate len none) d.p_base d.m_size
    ok (record d { p_base = base; m_length = len })

  unfoldable pub d_shrink : DArray A → Run (DArray A)
  d_shrink d =
      let len = sub64 d.m_length (get_space_size d / 2) in
      if leb len default_length then ok (record d { m_length = len }) else do
        base ← memcpy (replicate len none) d.p_base d.m_size
        ok (record d { p_base = base; m_length = len })

  -- The part of dInsert behind the expansion: the memory with the new element in it.
  unfoldable pub place : ℕ → A → DArray A → Run (List (Option A))
  place index v e =
      if leb e.m_size index
      then store e.p_base e.m_size (some v)
      else do (i, shifted) ← shift_up e.m_size index e.p_base; store shifted i (some v)

  unfoldable pub d_insert : ℕ → A → DArray A → Run (DArray A × Ret)
  d_insert index v d = do
    e ← if need_expand d then d_expand d else ok d
    b ← place index v e
    ok (record e { p_base = b; m_size = e.m_size + 1 }, succeed)

  unfoldable pub d_prepend : A → DArray A → Run (DArray A × Ret)
  d_prepend v d = d_insert 0 v d

  unfoldable pub d_append : A → DArray A → Run (DArray A × Ret)
  d_append v d = d_insert d.m_size v d

  -- The removed cell is what the caller's `value` receives. Shrinking is compiled out.
  unfoldable pub d_delete : ℕ → DArray A → Run (DArray A × Ret × Option (Option A))
  d_delete index d = if leb d.m_size index then ok (d, failed, none) else do
    v ← load d.p_base index
    b ← shift_down (d.m_size - index) index d.p_base
    ok (record d { p_base = b; m_size = d.m_size - 1 }, succeed, some v)

  unfoldable pub d_get_by_index : ℕ → DArray A → Run (Option A)
  d_get_by_index index d = check (ltb index d.m_size) >> load d.p_base index

  -- An index past the last element writes the last element, at `m_size - 1`.
  unfoldable pub d_set_by_index : ℕ → A → DArray A → Run (DArray A × Ret)
  d_set_by_index index v d = do
    check (ltb index d.m_length)
    b ← store d.p_base (if leb d.m_size index then sub64 d.m_size 1 else index) (some v)
    ok (record d { p_base = b }, succeed)

  unfoldable pub d_get_size : DArray A → ℕ
  d_get_size d = d.m_size

  unfoldable pub d_get_length : DArray A → ℕ
  d_get_length d = d.m_length

  -- The new memory is not cleared.
  unfoldable pub d_clear_and_resize : ℕ → DArray A → Run (DArray A × Ret)
  d_clear_and_resize size d = do
    check (ltb 0 size)
    ok (record { p_base = replicate size none; m_length = size; m_size = 0 }, succeed)

  -- The loop of dFind, with `n` elements left; a comparison reads one cell.
  unfoldable pub find_from : (Option A → Bool) → ℕ → ℕ → List (Option A) → Run ℕ
  find_from comp zero i base = ok i
  find_from comp (suc n) i base = do
    x ← load base i
    let rest = find_from comp n (i + 1) base
    if comp x then ok i else rest

  -- `i = -1` at the end is the largest `size_t`.
  unfoldable pub d_find : (Option A → Bool) → DArray A → Run ℕ
  d_find comp d = do
    i ← find_from comp d.m_size 0 d.p_base
    ok (if i == d.m_size then sub64 0 1 else i)

  -- dForeach: `visit` may change its context and the element.
  unfoldable pub foreach_from {κ} :
      {S : Type κ} (visit : S → Option A → S × Option A)
      → ℕ
      → ℕ
      → S
      → List (Option A)
      → Run (S × List (Option A))
  foreach_from visit zero i s base = ok (s, base)
  foreach_from visit (suc n) i s base = do
    x ← load base i
    let (s', y) = visit s x
    b ← store base i y
    foreach_from visit n (i + 1) s' b

  unfoldable pub d_foreach {κ} :
      {S : Type κ} (visit : S → Option A → S × Option A) → S → DArray A → Run (S × DArray A)
  d_foreach visit s d = do
    (s', b) ← foreach_from visit d.m_size 0 s d.p_base
    ok (s', record d { p_base = b })
