-- ===== src/Sorting/Tests.antt =====
-- dymanicArray/sort.cpp: runs of the sorts, and their theorems at a concrete input.
use terry.Base.{ℕ, ◌≡◌, refl, Bool, List, [], ◌∷◌, arith, ltb, ok, Returns, load, store, swap_cells}
use terry.Sorting.{
  swap, select_most, select_rounds, select_sort, bubble_pass, bubble_rounds, bubble_sort,
  insert_down, insert_rounds, insert_sort,
}
use terry.Sorting.Order.{IsSorted, IsComparator}
use terry.Sorting.Insert.{insert_sort_correct}
use terry.Sorting.Bubble.{bubble_sort_correct}
use terry.Sorting.{shell_down, shell_chain, shell_chains, shell_rounds, shell_sort}
use terry.Sorting.Shell.{shell_sort_correct}

-- The comparison of ints by their values.
abbrev greater : ℕ → ℕ → Bool
greater x y = ltb y x

abbrev value : ℕ → ℕ
value x = x

greater-IsComparator : IsComparator greater value
greater-IsComparator x y = refl

abbrev mixed : List ℕ
mixed = 5 ∷ 3 ∷ 8 ∷ 1 ∷ 4 ∷ 0 ∷ []

all_sorts :
    (insert_sort greater mixed 5 ≡ ok (1 ∷ 3 ∷ 4 ∷ 5 ∷ 8 ∷ 0 ∷ []))
    × (bubble_sort greater mixed 5 ≡ ok (1 ∷ 3 ∷ 4 ∷ 5 ∷ 8 ∷ 0 ∷ []))
    × (select_sort greater mixed 5 ≡ ok (1 ∷ 3 ∷ 4 ∷ 5 ∷ 8 ∷ 0 ∷ []))
unfolding swap select_most select_rounds select_sort bubble_pass bubble_rounds bubble_sort
    insert_down insert_rounds insert_sort load store swap_cells
all_sorts = (refl, refl, refl)

insert_sort_correct_example : Returns (IsSorted value 5 mixed) (insert_sort greater mixed 5)
insert_sort_correct_example =
    insert_sort_correct greater value greater-IsComparator mixed 5 (omega arith)

bubble_sort_correct_example : Returns (IsSorted value 5 mixed) (bubble_sort greater mixed 5)
bubble_sort_correct_example =
    bubble_sort_correct greater value greater-IsComparator mixed 5 (omega arith)

shell_run : shell_sort greater mixed 5 ≡ ok (1 ∷ 3 ∷ 4 ∷ 5 ∷ 8 ∷ 0 ∷ [])
unfolding shell_sort shell_rounds shell_chains shell_chain shell_down load store
shell_run = refl

shell_sort_correct_example : Returns (IsSorted value 5 mixed) (shell_sort greater mixed 5)
shell_sort_correct_example =
    shell_sort_correct greater value greater-IsComparator mixed 5 (omega arith)
