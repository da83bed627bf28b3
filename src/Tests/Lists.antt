-- ===== src/Tests/Lists.antt =====
-- The theorems about src/list.c at concrete lists.
use spdy_test.Prelude.{ℕ, ◌≡◌, refl, List, [], ◌∷◌, some, arith, ltb, if◌then◌else◌}
use Prim.Native.Nat.{Ordering}
use mathlib.Core.List.{Perm}
use spdy_test.LinkedList.{
  list_sort, merge, merge_pass, sort_rounds, list_invert, invert_onto, list_add, list_add_tail,
  list_get_len, count_from,
}
use spdy_test.LinkedList.Merge.{IsOrder, IsSorted}
use spdy_test.LinkedList.Sorted.{list_sort_lem}

abbrev by_size : ℕ → ℕ → Ordering
by_size x y = if ltb x y then Ordering.lt else if ltb y x then Ordering.gt else Ordering.eq

by_size-IsOrder : IsOrder by_size
by_size-IsOrder = record { total = λ x y h e. ground arith; trans = λ x y z h k e. ground arith }

list_sort_lem_example :
    (r : List ℕ) × (list_sort by_size (3 ∷ 1 ∷ 2 ∷ 1 ∷ []) ≡ some r)
    × IsSorted by_size r
    × Perm r (3 ∷ 1 ∷ 2 ∷ 1 ∷ [])
list_sort_lem_example = list_sort_lem by_size by_size-IsOrder (3 ∷ 1 ∷ 2 ∷ 1 ∷ [])

five_sorted : list_sort by_size (5 ∷ 3 ∷ 4 ∷ 1 ∷ 2 ∷ []) ≡ some (1 ∷ 2 ∷ 3 ∷ 4 ∷ 5 ∷ [])
unfolding list_sort merge merge_pass sort_rounds
five_sorted = refl

inverted : list_invert {K = ℕ} (list_add_tail 3 (list_add 1 (2 ∷ []))) ≡ 3 ∷ 2 ∷ 1 ∷ []
unfolding list_invert invert_onto list_add list_add_tail
inverted = refl

counted : list_get_len {K = ℕ} (7 ∷ 8 ∷ []) ≡ 2
unfolding list_get_len count_from
counted = refl
