-- ===== src/DynamicArray/Memory.antt =====
-- dymanicArray/dArray.cpp: `memcpy` and the loops that move the cells of the array's memory.
use terry.Base.{
  ℕ, zero, suc, ◌+◌, List, ◌++◌, ltb, leb, if◌then◌else◌, ◌&&◌, length, take, drop, Run, ok, fault,
  ◌>>=◌, load, store,
}

module _ {ℓ} {A : Type ℓ} where
  -- `memcpy(dst, src, n * sizeof(tagElemType))`
  unfoldable pub memcpy : List A → List A → ℕ → Run (List A)
  memcpy dst src n =
      if leb n (length src) && leb n (length dst) then ok (take n src ++ drop n dst) else fault

  -- `for( ; i > index ; -- i) p_base[i] = p_base[i - 1];` with the final `i`
  unfoldable pub shift_up : ℕ → ℕ → List A → Run (ℕ × List A)
  shift_up zero index base = ok (0, base)
  shift_up (suc i) index base =
      let rest = (do x ← load base i; b ← store base (suc i) x; shift_up i index b) in
      if ltb index (suc i) then rest else ok (suc i, base)

  -- `for( ; i < m_size ; ++ i) p_base[i] = p_base[i + 1];` with `n` rounds left
  unfoldable pub shift_down : ℕ → ℕ → List A → Run (List A)
  shift_down zero i base = ok base
  shift_down (suc n) i base = do x ← load base (i + 1); b ← store base i x; shift_down n (i + 1) b
