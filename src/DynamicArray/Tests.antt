-- ===== src/DynamicArray/Tests.antt =====
-- dymanicArray/dArray.cpp: runs of the class, and its theorems at concrete inputs.
use terry.Base.{
  ℕ, ◌≡◌, refl, List, [], ◌∷◌, some, none, arith, Option, Run, ok, fault, ◌>>=◌, load, store,
  Returns, ◌==◌, Bool, false,
}
use terry.DynamicArray.Memory.{memcpy, shift_up, shift_down}
use terry.DynamicArray.{
  DArray, new, new_from, need_expand, expanded_length, d_expand, place, d_insert, d_append,
  d_prepend, d_delete,
}
use terry.DynamicArray.View.{contents, IsValid}
use terry.DynamicArray.Insert.{IsInserted, d_insert_correct}
use terry.DynamicArray.Remove.{IsDeleted, d_delete_correct, new_from-d_delete}
use terry.DynamicArray.Script.{
  Op, insert, delete, append, prepend, exec_all, all_on_list, exec_all-new,
}

abbrev filled : Run (DArray ℕ)
filled = do
  (a, _) ← d_append 7 (new 0 2)
  (b, _) ← d_append 8 a
  (c, _) ← d_prepend 6 b
  (d, _) ← d_insert 1 9 c
  ok d

filled_runs : (filled >>= λ d. ok (contents d)) ≡ ok (some 6 ∷ some 9 ∷ some 7 ∷ some 8 ∷ [])
unfolding new d_append d_prepend d_insert place need_expand d_expand memcpy expanded_length shift_up
    load store
filled_runs = refl

abbrev triple : DArray ℕ
triple = record { p_base = some 4 ∷ some 5 ∷ some 6 ∷ some 0 ∷ none ∷ []; m_length = 5; m_size = 3 }

triple-IsValid : IsValid triple
triple-IsValid = omega arith

delete_runs : (d_delete 0 triple >>= λ r. ok (contents r.0)) ≡ ok (some 5 ∷ some 6 ∷ [])
unfolding d_delete shift_down load store
delete_runs = refl

calls : List (Op ℕ)
calls = append 1 ∷ prepend 2 ∷ insert 1 3 ∷ delete 0 ∷ delete 9 ∷ []

exec_all-new_example :
    Returns (λ e. IsValid e × (contents e ≡ all_on_list calls [])) (exec_all calls (new 0 1))
unfolding calls
exec_all-new_example = exec_all-new 0 1 calls (omega arith) (omega arith) (omega arith)

d_insert_correct_example : Returns (IsInserted 1 9 triple) (d_insert 1 9 triple)
d_insert_correct_example = d_insert_correct 1 9 triple triple-IsValid (omega arith)

d_delete_correct_example : Returns (IsDeleted 1 triple) (d_delete 1 triple)
d_delete_correct_example = d_delete_correct 1 triple triple-IsValid (omega arith) (omega arith)

abbrev is_six : Option ℕ → Bool
is_six none = false
is_six (some n) = n == 6

new_from-d_delete_example : (new_from {A = ℕ} (some 1 ∷ some 2 ∷ []) 2 >>= d_delete 0) ≡ fault
new_from-d_delete_example = new_from-d_delete (some 1 ∷ some 2 ∷ []) 2 0 (omega arith) (omega arith)
