-- ===== src/LinkedList/Runs.antt =====
-- One pass of http2d_list_sort (src/list.c): it merges runs in pairs, into runs of twice the size.
use spdy_test.Prelude.{
  ℕ, zero, suc, ◌*◌, ◌≤◌, ◌<◌, ◌≡◌, refl, ap, subst, ◌∙◌, List, [], ◌∷◌, ◌++◌, length, take, drop,
  append-nil, arith, length-take, length-drop, length-append, take-append-drop, take_of_length-le,
  drop_of_length-le, take_length-append, drop_length-append, append_assoc,
}
use spdy_test.LinkedList.{merge, merge_pass}
use Prim.Native.Nat.{Ordering}
use mathlib.Core.List.{Perm}
use mathlib.Core.List.Perm
use Prim.Native.Nat.{min, ◌-◌}
use native.Mathlib.Decide.{dec_le}
use spdy_test.LinkedList.Merge.{IsOrder, IsSorted, merge-perm, merge-length, merge-IsSorted}

module _ {K : Type 0} (cmp : K → K → Ordering) where
  -- The list is cut into pieces of `size` entries, each of them sorted.
  pub data Runs (size : ℕ) : List K → Type 0 where
    done : Runs size []
    run : (l : List K) → IsSorted cmp (take size l) → Runs size (drop size l) → Runs size l

  pub Runs-take : (size : ℕ) {l : List K} → Runs size l → IsSorted cmp (take size l)
  Runs-take zero done = tt
  Runs-take (suc size) done = tt
  Runs-take size (run l sorted rest) = sorted

  Runs-drop : (size : ℕ) {l : List K} → Runs size l → Runs size (drop size l)
  Runs-drop zero done = done
  Runs-drop (suc size) done = done
  Runs-drop size (run l sorted rest) = rest

  -- The runs that one round of "while (p)" merges, and what it leaves for the next round.
  abbrev merged : ℕ → List K → List K
  merged size l = merge cmp (take size l) (take size (drop size l))

  abbrev after : ℕ → List K → List K
  after size l = drop size (drop size l)

  halves-append :
      (size : ℕ) (l : List K) → (take size l ++ take size (drop size l)) ++ after size l ≡ l
  halves-append size l =
      append_assoc (take size l) (take size (drop size l)) (after size l)
      ∙ ap (λ r. take size l ++ r) (take-append-drop size (drop size l))
      ∙ take-append-drop size l

  pub merge_pass-perm : (fuel size : ℕ) (l : List K) → Perm (merge_pass cmp fuel size l).0 l
  unfolding merge_pass
  merge_pass-perm fuel size [] = Perm.rfl
  merge_pass-perm zero size (x ∷ l) = Perm.rfl
  merge_pass-perm (suc fuel) size (x ∷ l) =
      let first = take size (x ∷ l) in
      let second = take size (drop size (x ∷ l)) in
      let pieces =
        Perm.append (merge-perm cmp first second)
          (merge_pass-perm fuel size (after size (x ∷ l))) in
      subst (λ whole. Perm (merge_pass cmp (suc fuel) size (x ∷ l)).0 whole)
        (halves-append size (x ∷ l)) pieces

  Runs-append :
      (size : ℕ) (m rest : List K)
      → IsSorted cmp m
      → length m ≡ size
      → Runs size rest
      → Runs size (m ++ rest)
  Runs-append size m rest sorted full runs =
      run (m ++ rest)
        (subst (λ n. IsSorted cmp (take n (m ++ rest))) full
          (rw (take_length-append m rest) sorted))
        (subst (λ n. Runs size (drop n (m ++ rest))) full (rw (drop_length-append m rest) runs))

  Runs-short : (size : ℕ) (m : List K) → IsSorted cmp m → length m ≤ size → Runs size m
  Runs-short size m sorted fits =
      run m (rw (take_of_length-le size m fits) sorted) (rw (drop_of_length-le size m fits) done)

  length-merged : (size : ℕ) (l : List K) → length (merged size l) ≡ min (size * 2) (length l)
  length-merged size l = omega (
    arith,
    merge-length cmp (take size l) (take size (drop size l)),
    length-take {0} size l,
    length-take {0} size (drop size l),
    length-drop {0} size l,
  )

  length-after : (size : ℕ) (l : List K) → length (after size l) ≡ length l - size * 2
  length-after size l = omega (arith, length-drop {0} size l, length-drop {0} size (drop size l))

  after_of_short : (size : ℕ) (l : List K) → length l ≤ size * 2 → after size l ≡ []
  after_of_short size l fits =
      drop_of_length-le size (drop size l) (omega (arith, length-drop {0} size l))

  module _ (order : IsOrder cmp) where
    pub merge_pass-Runs :
        (fuel size : ℕ) (l : List K)
        → length l ≤ fuel
        → 0 < size
        → Runs size l
        → Runs (size * 2) (merge_pass cmp fuel size l).0
    unfolding merge_pass
    merge_pass-Runs fuel size [] enough pos runs = done
    merge_pass-Runs zero size (x ∷ l) enough pos runs = absurd (omega arith)
    merge_pass-Runs (suc fuel) size (x ∷ l) enough pos runs =
        let list = x ∷ l in
        let next = Runs-drop size runs in
        let sorted =
          merge-IsSorted cmp order (take size list) (take size (drop size list))
            (Runs-take size runs) (Runs-take size next) in
        elim (dec_le (length list) (size * 2)) [
          | yes short ↦
              rw (after_of_short size list short, append-nil (merged size list))
                (Runs-short (size * 2) (merged size list) sorted
                  (omega (arith, length-merged size list)))
          | no long ↦
              Runs-append (size * 2) (merged size list) _ sorted
                (omega (arith, length-merged size list))
                (merge_pass-Runs fuel size (after size list) (omega (arith, length-after size list))
                  pos (Runs-drop size next))
        ]

  pub length-pass :
      (fuel size : ℕ) (l : List K)
      → length l ≤ fuel
      → 0 < size
      → length (merge_pass cmp fuel size l).0 ≡ length l
  unfolding merge_pass
  length-pass fuel size [] enough pos = refl
  length-pass zero size (x ∷ l) enough pos = refl
  length-pass (suc fuel) size (x ∷ l) enough pos =
      let left = length-after size (x ∷ l) in
      let rest = length-pass fuel size (after size (x ∷ l)) (omega arith) pos in
      omega (
        arith,
        length-append {0} (merged size (x ∷ l)) (merge_pass cmp fuel size (after size (x ∷ l))).0,
        length-merged size (x ∷ l),
      )

  merges_of_some :
      (fuel size : ℕ) (l : List K)
      → length l ≤ fuel
      → 0 < length l
      → 1 ≤ (merge_pass cmp fuel size l).1
  unfolding merge_pass
  merges_of_some fuel size [] enough more = absurd (omega arith)
  merges_of_some zero size (x ∷ l) enough more = absurd (omega arith)
  merges_of_some (suc fuel) size (x ∷ l) enough more = omega arith

  pub merges_of_two :
      (fuel size : ℕ) (l : List K) → length l ≤ size * 2 → (merge_pass cmp fuel size l).1 ≤ 1
  unfolding merge_pass
  merges_of_two fuel size [] short = omega arith
  merges_of_two zero size (x ∷ l) short = omega arith
  merges_of_two (suc fuel) size (x ∷ l) short = rw (after_of_short size (x ∷ l) short) (omega arith)

  pub two_of_merges :
      (fuel size : ℕ) (l : List K)
      → length l ≤ fuel
      → 0 < size
      → (merge_pass cmp fuel size l).1 ≤ 1
      → length l ≤ size * 2
  unfolding merge_pass
  two_of_merges fuel size [] enough pos once = omega arith
  two_of_merges zero size (x ∷ l) enough pos once = absurd (omega arith)
  two_of_merges (suc fuel) size (x ∷ l) enough pos once =
      elim (dec_le (length (x ∷ l)) (size * 2)) [
        | yes short ↦ short
        | no long ↦
            let left = length-after size (x ∷ l) in
            let again = merges_of_some fuel size (after size (x ∷ l)) (omega arith) (omega arith) in
            absurd (omega arith)
      ]
