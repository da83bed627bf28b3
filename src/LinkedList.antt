-- ===== src/LinkedList.antt =====
-- The lists of src/list.c and src/list.h. A list head with the entries linked to it is the list of
-- its entries in order; the links themselves, which every operation keeps as a ring, are not in the
-- model. `cmp` is a parameter: `gt` is a positive answer.
pub mod Agreeing
pub mod Merge
pub mod Runs
pub mod Sorted
use spdy_test.Prelude.{
  ℕ, zero, suc, ◌+◌, ◌*◌, List, [], ◌∷◌, ◌++◌, Option, none, some, true, false, leb, length, take,
  drop,
}
use Prim.Native.Nat.{Ordering}

module _ {K : Type 0} where
  -- The loop of http2d_list_get_len.
  unfoldable pub count_from : ℕ → List K → ℕ
  count_from n [] = n
  count_from n (i ∷ entries) = count_from (n + 1) entries

  unfoldable pub list_get_len : List K → ℕ
  list_get_len head = count_from 0 head

  unfoldable pub list_add : K → List K → List K
  list_add new_entry head = new_entry ∷ head

  unfoldable pub list_add_tail : K → List K → List K
  list_add_tail new_entry head = head ++ (new_entry ∷ [])

  -- The loop of http2d_list_invert: the second list is `new_list`.
  unfoldable pub invert_onto : List K → List K → List K
  invert_onto [] new_list = new_list
  invert_onto (i ∷ head) new_list = invert_onto head (list_add i new_list)

  unfoldable pub list_invert : List K → List K
  list_invert head = invert_onto head []

  module _ (cmp : K → K → Ordering) where
    -- The inner loop: the runs at `p` and at `q`, of `psize` and of at most `qsize` entries.
    unfoldable pub merge : List K → List K → List K
    merge [] qs = qs
    merge (p ∷ ps) [] = p ∷ ps
    merge (p ∷ ps) (q ∷ qs) =
        let from_p = p ∷ merge ps (q ∷ qs) in
        let from_q = q ∷ merge (p ∷ ps) qs in elim (cmp p q) [ Ordering.gt ↦ from_q | _ ↦ from_p ]

    -- "while (p)": one pass over the list, and `nmerges`. The first argument bounds the rounds.
    unfoldable pub merge_pass : ℕ → ℕ → List K → List K × ℕ
    merge_pass fuel insize [] = ([], 0)
    merge_pass zero insize (p ∷ ps) = (p ∷ ps, 0)
    merge_pass (suc fuel) insize (p ∷ ps) =
        let list = p ∷ ps in
        let rest = merge_pass fuel insize (drop insize (drop insize list)) in
        (merge (take insize list) (take insize (drop insize list)) ++ rest.0, rest.1 + 1)

    -- "for (;;)": `none` means that the rounds did not suffice.
    unfoldable pub sort_rounds : ℕ → ℕ → List K → Option (List K)
    sort_rounds zero insize list = none
    sort_rounds (suc fuel) insize list =
        let (list', nmerges) = merge_pass (length list) insize list in
        let again = sort_rounds fuel (insize * 2) list' in
        elim (leb nmerges 1) [ true ↦ some list' | false ↦ again ]

    -- An empty list is merged as the list of its head, and stays empty.
    unfoldable pub list_sort : List K → Option (List K)
    list_sort list = sort_rounds (suc (length list)) 1 list
