-- ===== src/Sorting.antt =====
-- dymanicArray/sort.cpp: selectSort, bubbleSort, insertSort and shellSort. The memory at `pArray` is a list,
-- `n` the count that the call is given, and `comp` the comparison that the caller passes. A loop
-- with a counter is a recursion on the rounds that are left. selectMostOne counts with an unsigned
-- int, so `n` is taken to be at most 2 ^ 32 there.
pub mod Order
pub mod Insert
pub mod Bubble
pub mod Select
pub mod Gaps
pub mod Shell
mod Tests
use terry.Base.{
  ℕ, zero, suc, ◌+◌, ◌*◌, ◌/◌, ◌-◌, out_of_fuel, Bool, true, false, List, ltb, ◌==◌, not,
  if◌then◌else◌, Run, ok, ◌>>=◌, load, store, swap_cells,
}

-- `swap(array + i, array + j)`
unfoldable pub swap {ℓ} : {A : Type ℓ} → List A → ℕ → ℕ → Run (List A)
swap array i j = if i == j then ok array else swap_cells array i j

module _ {A : Type 0} (comp : A → A → Bool) where
  -- The loop of selectMostOne, with `left` rounds to go: the position of the greatest element seen.
  unfoldable pub select_most : ℕ → List A → ℕ → ℕ → Run ℕ
  select_most zero array i max = ok max
  select_most (suc left) array i max = do
    best ← load array max
    here ← load array i
    select_most left array (suc i) (if comp best here then i else max)

  -- The loop of selectSort, with `left` rounds to go, so with that many elements from `i` on.
  unfoldable pub select_rounds : ℕ → List A → ℕ → Run (List A)
  select_rounds zero array i = ok array
  select_rounds (suc left) array i = do
    max ← select_most (suc left) array i i
    swapped ← swap array max i
    select_rounds left swapped (suc i)

  unfoldable pub select_sort : List A → ℕ → Run (List A)
  select_sort array n = if ltb n 2 then ok array else select_rounds n array 0

  -- The inner loop of bubbleSort, with `left` rounds to go.
  unfoldable pub bubble_pass : ℕ → List A → ℕ → Bool → Run (List A × Bool)
  bubble_pass zero array j flag = ok (array, flag)
  bubble_pass (suc left) array j flag = do
    first ← load array j
    second ← load array (suc j)
    (array', flag') ←
        if comp first second then (do b ← swap array j (suc j); ok (b, true)) else ok (array, flag)
    bubble_pass left array' (suc j) flag'

  -- The outer loop of bubbleSort: `left` is `n - 1 - i`.
  unfoldable pub bubble_rounds : ℕ → List A → Bool → Run (List A)
  bubble_rounds zero array flag = ok array
  bubble_rounds (suc left) array flag =
      let round : Run (List A) = do
        (array', flag') ← bubble_pass (suc left) array 0 false
        bubble_rounds left array' flag'
      in if flag then round else ok array

  unfoldable pub bubble_sort : List A → ℕ → Run (List A)
  bubble_sort array n = if ltb n 2 then ok array else bubble_rounds (n - 1) array true

  -- The inner loop of insertSort from position `j` down, and the store after it.
  unfoldable pub insert_down : ℕ → List A → A → Run (List A)
  insert_down zero array temp = store array 0 temp
  insert_down (suc j) array temp = do
    before ← load array j
    let shift = store array (suc j) before >>= λ b. insert_down j b temp
    if comp temp before then store array (suc j) temp else shift

  -- The outer loop of insertSort, with `left` rounds to go.
  unfoldable pub insert_rounds : ℕ → List A → ℕ → Run (List A)
  insert_rounds zero array i = ok array
  insert_rounds (suc left) array i = do
    temp ← load array (suc i)
    array' ← insert_down (suc i) array temp
    insert_rounds left array' (suc i)

  unfoldable pub insert_sort : List A → ℕ → Run (List A)
  insert_sort array n = if ltb n 2 then ok array else insert_rounds (n - 1) array 0

  -- The inner loop of shellSort from position `k + m * begin` down, and the store after it.
  unfoldable pub shell_down : ℕ → ℕ → ℕ → List A → A → Run (List A)
  shell_down zero k begin array temp = store array k temp
  shell_down (suc m) k begin array temp = do
    before ← load array (k + m * begin)
    let shift = store array (k + suc m * begin) before >>= λ b. shell_down m k begin b temp
    if comp temp before then store array (k + suc m * begin) temp else shift

  -- The loop over `i`, which is `k + m * begin`.
  unfoldable pub shell_chain : ℕ → ℕ → ℕ → ℕ → ℕ → List A → Run (List A)
  shell_chain zero m k begin n array = out_of_fuel
  shell_chain (suc fuel) m k begin n array =
      let insert : Run (List A) = do
        temp ← load array (k + m * begin)
        array' ← shell_down m k begin array temp
        shell_chain fuel (suc m) k begin n array'
      in if ltb (k + m * begin) n then insert else ok array

  -- The loop over `k`, with `left` rounds to go.
  unfoldable pub shell_chains : ℕ → ℕ → ℕ → ℕ → List A → Run (List A)
  shell_chains zero k begin n array = ok array
  shell_chains (suc left) k begin n array =
      shell_chain (n + 1) 1 k begin n array >>= shell_chains left (suc k) begin n

  -- The loop over `begin`.
  unfoldable pub shell_rounds : ℕ → ℕ → ℕ → List A → Run (List A)
  shell_rounds zero begin n array = out_of_fuel
  shell_rounds (suc fuel) begin n array =
      let round = shell_chains begin 0 begin n array >>= shell_rounds fuel (begin / 2) n in
      if ltb 0 begin then round else ok array

  unfoldable pub shell_sort : List A → ℕ → Run (List A)
  shell_sort array n = if ltb n 2 then ok array else shell_rounds n (n / 2) n array
