-- ===== src/LinkedList/Sorted.antt =====
-- What http2d_list_sort of src/list.c does to a list, for a comparison that is an order.
use spdy_test.Prelude.{
  ℕ, zero, suc, ◌+◌, ◌*◌, ◌≤◌, ◌<◌, ◌≡◌, subst, ◌∙◌, inl, inr, List, [], ◌∷◌, Option, some, true,
  false, leb, leb→le, le→leb, Bool-cases, length, arith, take_of_length-le,
}
use spdy_test.LinkedList.{merge_pass, sort_rounds, list_sort}
use Prim.Native.Nat.{Ordering}
use mathlib.Core.List.{Perm}
use mathlib.Core.List.Perm
use spdy_test.LinkedList.Merge.{IsOrder, IsSorted}
use spdy_test.LinkedList.Runs.{
  Runs, Runs-take, merge_pass-perm, merge_pass-Runs, length-pass, merges_of_two, two_of_merges, run,
  done,
}

module _ {K : Type 0} (cmp : K → K → Ordering) where
  module _ (order : IsOrder cmp) where
    -- One round of "for (;;)" leaves runs of twice the size.
    round_lem :
        (size : ℕ) (l : List K)
        → 0 < size
        → Runs cmp size l
        → Runs cmp (size * 2) (merge_pass cmp (length l) size l).0
    round_lem size l pos runs = merge_pass-Runs cmp order (length l) size l (omega arith) pos runs

    IsSorted-last :
        (size : ℕ) (l : List K)
        → 0 < size
        → Runs cmp size l
        → (merge_pass cmp (length l) size l).1 ≤ 1
        → IsSorted cmp (merge_pass cmp (length l) size l).0
    IsSorted-last size l pos runs once =
        let fits = two_of_merges cmp (length l) size l (omega arith) pos once in
        let whole =
          take_of_length-le (size * 2) (merge_pass cmp (length l) size l).0
            (omega (arith, length-pass cmp (length l) size l (omega arith) pos)) in
        subst (IsSorted cmp) whole (Runs-take cmp (size * 2) (round_lem size l pos runs))

    abbrev Sorts : List K → Option (List K) → Type 0
    Sorts l found = (r : List K) × (found ≡ some r) × IsSorted cmp r × Perm r l

    last_round :
        (rounds size : ℕ) (l : List K)
        → leb (merge_pass cmp (length l) size l).1 1 ≡ true
        → sort_rounds cmp (suc rounds) size l ≡ some (merge_pass cmp (length l) size l).0
    unfolding sort_rounds
    last_round rounds size l last = ground arith

    next_round :
        (rounds size : ℕ) (l : List K)
        → leb (merge_pass cmp (length l) size l).1 1 ≡ false
        → sort_rounds cmp (suc rounds) size l
          ≡ sort_rounds cmp rounds (size * 2) (merge_pass cmp (length l) size l).0
    unfolding sort_rounds
    next_round rounds size l more = ground arith

    Sorts-last :
        (rounds size : ℕ) (l : List K)
        → 0 < size
        → Runs cmp size l
        → leb (merge_pass cmp (length l) size l).1 1 ≡ true
        → Sorts l (sort_rounds cmp (suc rounds) size l)
    Sorts-last rounds size l pos runs last = (
      (merge_pass cmp (length l) size l).0,
      last_round rounds size l last,
      IsSorted-last size l pos runs (leb→le _ _ last),
      merge_pass-perm cmp (length l) size l,
    )

    sort_rounds-Sorts :
        (rounds size : ℕ) (l : List K)
        → 0 < size
        → length l ≤ size + rounds
        → Runs cmp size l
        → Sorts l (sort_rounds cmp (suc rounds) size l)
    sort_rounds-Sorts zero size l pos enough runs =
        Sorts-last zero size l pos runs
          (le→leb _ _ (merges_of_two cmp (length l) size l (omega arith)))
    sort_rounds-Sorts (suc rounds) size l pos enough runs =
        elim (Bool-cases (leb (merge_pass cmp (length l) size l).1 1)) [
          | inl last ↦ Sorts-last (suc rounds) size l pos runs last
          | inr more ↦
              let round = merge_pass cmp (length l) size l in
              let same = length-pass cmp (length l) size l (omega arith) pos in
              let (r, found, sorted, perm) =
                sort_rounds-Sorts rounds (size * 2) (merge_pass cmp (length l) size l).0
                  (omega arith) (omega arith) (round_lem size l pos runs) in
              (
                r,
                next_round (suc rounds) size l more ∙ found,
                sorted,
                Perm.trans perm (merge_pass-perm cmp (length l) size l),
              )
        ]

    Runs-one : (l : List K) → Runs cmp 1 l
    Runs-one [] = done
    Runs-one (x ∷ l) = run (x ∷ l) (tt, tt) (Runs-one l)

    -- For a comparison that is total and transitive, the rounds of http2d_list_sort end, and
    -- leave a list whose entries are in order and are those of the list given, each as often.
    pub list_sort_lem :
        (l : List K) → (r : List K) × (list_sort cmp l ≡ some r) × IsSorted cmp r × Perm r l
    unfolding list_sort
    list_sort_lem l = sort_rounds-Sorts (length l) 1 l (omega arith) (omega arith) (Runs-one l)
