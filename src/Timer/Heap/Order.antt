-- ===== src/Timer/Heap/Order.antt =====
-- timer/Heap.cpp: the order of the heap, and what the exchange of two positions does to it.
use terry.Base.{
  ℕ, zero, suc, ◌≤◌, ◌<◌, ◌≡◌, ◌≢◌, List, Perm, arith, ◌==◌, if◌then◌else◌, length, get_elem?,
  get_or, set, length-set, get_elem?-get_or, get_or-set, ok, load-ok,
}
use terry.Base.{
  swap_cells, exchange, swap_cells-ok, length-exchange, exchange-perm, get_elem?-exchange,
}
use terry.Timer.Heap.{TimerHeap, parent, expire_at, get_root_time}

module _ (expire : ℕ → ℕ) where
  -- The expiry of the timer at a position.
  abbrev pub key : List ℕ → ℕ → ℕ
  key root i = expire (get_or root i 0)

  -- Each of the first `n` positions expires no earlier than its parent.
  abbrev pub IsHeapTo : ℕ → List ℕ → Type 0
  IsHeapTo n root = (c : ℕ) → 0 < c → c < n → key root (parent c) ≤ key root c

  pub expire_at-ok :
      (root : List ℕ) (i : ℕ) → i < length root → expire_at expire root i ≡ ok (key root i)
  unfolding expire_at
  expire_at-ok root i h = rw (load-ok root i (get_elem?-get_or root i 0 h))

  pub key-root : (h : TimerHeap) → 0 < length h.m_root → get_root_time expire h ≡ key h.m_root 0
  unfolding get_root_time
  key-root h p = ground arith

  root_least_below :
      (k n : ℕ) (root : List ℕ) (i : ℕ) → IsHeapTo n root → i < k → i < n → key root 0 ≤ key root i
  root_least_below zero n root i h f p = absurd (omega arith)
  root_least_below (suc k) n root i h f p =
      ground (arith, h i, root_least_below k n root (parent i) h)

  -- The root of the heap expires first.
  pub root_least :
      (n : ℕ) (root : List ℕ) (i : ℕ) → IsHeapTo n root → i < n → key root 0 ≤ key root i
  root_least n root i h p = root_least_below (suc i) n root i h (omega arith) p

-- The vector after `swap_element(m_root[i], m_root[j])`.
abbrev pub swapped : List ℕ → ℕ → ℕ → List ℕ
swapped root i j = exchange root i j (get_or root i 0) (get_or root j 0)

module _ (root : List ℕ) (i j : ℕ) (hi : i < length root) (hj : j < length root) where
  pub swap_cells-swapped : swap_cells root i j ≡ ok (swapped root i j)
  swap_cells-swapped =
      swap_cells-ok root i j _ _ hi hj (get_elem?-get_or root i 0 hi) (get_elem?-get_or root j 0 hj)

  pub length-swapped : length (swapped root i j) ≡ length root
  length-swapped = length-exchange root i j _ _

  pub swapped-perm : Perm (swapped root i j) root
  swapped-perm =
      exchange-perm root i j _ _ hi (get_elem?-get_or root i 0 hi) (get_elem?-get_or root j 0 hj)

  pub get_or-swapped :
      (c : ℕ)
      → get_or (swapped root i j) c 0
        ≡ (if j == c then get_or root i 0 else if i == c then get_or root j 0 else get_or root c 0)
  get_or-swapped c = ground (
    arith,
    length-set root i (get_or root j 0),
    get_or-set (set root i (get_or root j 0)) j c (get_or root i 0) 0,
    get_or-set root i c (get_or root j 0) 0,
  )

  pub get_elem?-swapped :
      (c : ℕ) → i ≢ c → j ≢ c → get_elem? (swapped root i j) c ≡ get_elem? root c
  get_elem?-swapped c ni nj =
      ground (arith, get_elem?-exchange root i j (get_or root i 0) (get_or root j 0) c)

  pub key-swapped :
      (expire : ℕ → ℕ) (c : ℕ)
      → key expire (swapped root i j) c ≡ (
          if j == c
          then key expire root i
          else if i == c
          then key expire root j
          else key expire root c)
  key-swapped expire c = ground (arith, get_or-swapped c)
