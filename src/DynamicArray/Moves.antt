-- ===== src/DynamicArray/Moves.antt =====
-- dymanicArray/dArray.cpp: what the loops on the array's memory leave at each position.
use terry.Base.{
  ℕ, zero, suc, ◌+◌, ◌-◌, ◌≤◌, ◌<◌, ◌≡◌, refl, some, List, ◌++◌, arith, ltb, leb, if◌then◌else◌,
  ◌&&◌, length, get_elem?, set, take, drop, length-set, get_elem?-set, get_elem?-inside,
  get_elem?-past, load, fault, ok, load-ok, store-ok, Returns, returns, Returns-map, Returns-if,
}
use terry.DynamicArray.Memory.{memcpy, shift_up, shift_down}

module _ {A : Type 0} where
  -- `b` is `a` with the cells from `index` on moved up by one, as far as the cell `i`.
  pub record IsShiftedUp (index i : ℕ) (a : List A) (r : ℕ × List A) : Type 0 where
    pub final : r.0 ≡ index
    pub size : length r.1 ≡ length a
    pub cells :
        (j : ℕ)
        → get_elem? r.1 j ≡ (if ltb index j && leb j i then get_elem? a (j - 1) else get_elem? a j)

  step-IsShiftedUp :
      (index i : ℕ) (a : List A) (x : A) (r : ℕ × List A)
      → index < suc i
      → suc i < length a
      → get_elem? a i ≡ some x
      → IsShiftedUp index i (set a (suc i) x) r
      → IsShiftedUp index (suc i) a r
  step-IsShiftedUp index i a x r h p e s = record {
    final = s.final;
    size = omega (arith, s.size, length-set a (suc i) x);
    cells = λ j.
        ground (arith, s.cells j, get_elem?-set a (suc i) j x, get_elem?-set a (suc i) (j - 1) x);
  }

  pub shift_up-IsShiftedUp :
      (i index : ℕ) (a : List A)
      → index ≤ i
      → i < length a
      → Returns (IsShiftedUp index i a) (shift_up i index a)
  unfolding shift_up
  shift_up-IsShiftedUp zero index a h p =
      returns (record { final = omega arith; size = refl; cells = λ j. ground arith })
  shift_up-IsShiftedUp (suc i) index a h p =
      let (x, e) = get_elem?-inside a i (omega arith) in
      rw (load-ok a i e, store-ok a (suc i) x p)
        (Returns-if (ltb index (suc i))
          (λ more.
            Returns-map
              (shift_up-IsShiftedUp i index (set a (suc i) x) (ground arith)
                (omega (arith, length-set a (suc i) x)))
              λ r s. step-IsShiftedUp index i a x r (ground arith) p e s)
          (λ done.
            returns (record { final = ground arith; size = refl; cells = λ j. ground arith })))

  -- `b` is `a` with the `n` cells past `i` moved down by one.
  pub record IsShiftedDown (n i : ℕ) (a b : List A) : Type 0 where
    pub size : length b ≡ length a
    pub cells :
        (j : ℕ)
        → get_elem? b j ≡ (if leb i j && ltb j (i + n) then get_elem? a (j + 1) else get_elem? a j)

  step-IsShiftedDown :
      (n i : ℕ) (a b : List A) (x : A)
      → i < length a
      → get_elem? a (i + 1) ≡ some x
      → IsShiftedDown n (i + 1) (set a i x) b
      → IsShiftedDown (suc n) i a b
  step-IsShiftedDown n i a b x p e s = record {
    size = omega (arith, s.size, length-set a i x);
    cells = λ j. ground (arith, s.cells j, get_elem?-set a i j x, get_elem?-set a i (j + 1) x);
  }

  pub shift_down-IsShiftedDown :
      (n i : ℕ) (a : List A) → i + n < length a → Returns (IsShiftedDown n i a) (shift_down n i a)
  unfolding shift_down
  shift_down-IsShiftedDown zero i a p = returns (record { size = refl; cells = λ j. ground arith })
  shift_down-IsShiftedDown (suc n) i a p =
      let (x, e) = get_elem?-inside a (i + 1) (omega arith) in
      rw (load-ok a (i + 1) e, store-ok a i x (omega arith))
        (Returns-map
          (shift_down-IsShiftedDown n (i + 1) (set a i x) (omega (arith, length-set a i x)))
          λ b s. step-IsShiftedDown n i a b x (omega arith) e s)

  pub memcpy-ok :
      (dst src : List A) (n : ℕ)
      → n ≤ length src
      → n ≤ length dst
      → memcpy dst src n ≡ ok (take n src ++ drop n dst)
  unfolding memcpy
  memcpy-ok dst src n h k = ground arith

  -- A loop that gets as far as the last cell reads past it.
  pub shift_down-fault :
      (n i : ℕ) (a : List A) → i + suc n ≡ length a → shift_down (suc n) i a ≡ fault
  unfolding shift_down load
  shift_down-fault zero i a h = rw (get_elem?-past a (i + 1) (omega arith))
  shift_down-fault (suc n) i a h =
      let (x, e) = get_elem?-inside a (i + 1) (omega arith) in
      rw (e, store-ok a i x (omega arith))
        (shift_down-fault n (i + 1) (set a i x) (omega (arith, length-set a i x)))
