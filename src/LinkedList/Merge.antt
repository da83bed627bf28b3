-- ===== src/LinkedList/Merge.antt =====
-- Orders, sorted lists, and the merge of http2d_list_sort (src/list.c).
use spdy_test.Prelude.{
  ◌+◌, ◌≡◌, ◌≢◌, refl, ◌⊎◌, inl, inr, List, [], ◌∷◌, ◌++◌, length, append-nil, arith,
}
use spdy_test.LinkedList.{merge}
use Prim.Native.Nat.{Ordering}
use mathlib.Core.List.{Perm, perm_middle}
use mathlib.Core.List.Perm

module _ {K : Type 0} (cmp : K → K → Ordering) where
  abbrev pub Le : K → K → Type 0
  Le a b = cmp a b ≢ Ordering.gt

  -- The comparison is total and transitive. Equal answers for different entries are possible.
  pub record IsOrder : Type 0 where
    pub total : (a b : K) → cmp a b ≡ Ordering.gt → Le b a
    pub trans : (a b c : K) → Le a b → Le b c → Le a c

  abbrev pub IsBelow : K → List K → Type 0
  IsBelow a [] = Unit {0}
  IsBelow a (x ∷ xs) = Le a x × IsBelow a xs

  abbrev pub IsSorted : List K → Type 0
  IsSorted [] = Unit {0}
  IsSorted (x ∷ xs) = IsBelow x xs × IsSorted xs

  Ordering-gt : (o : Ordering) → (o ≡ Ordering.gt) ⊎ (o ≢ Ordering.gt)
  Ordering-gt Ordering.lt = inr (λ e. cc)
  Ordering-gt Ordering.eq = inr (λ e. cc)
  Ordering-gt Ordering.gt = inl refl

  merge_left :
      (x y : K) (p q : List K) → Le x y → merge cmp (x ∷ p) (y ∷ q) ≡ x ∷ merge cmp p (y ∷ q)
  unfolding merge
  merge_left x y p q le = ground arith

  merge_right :
      (x y : K) (p q : List K)
      → cmp x y ≡ Ordering.gt
      → merge cmp (x ∷ p) (y ∷ q) ≡ y ∷ merge cmp (x ∷ p) q
  unfolding merge
  merge_right x y p q gt = ground arith

  pub merge-perm : (p q : List K) → Perm (merge cmp p q) (p ++ q)
  unfolding merge
  merge-perm [] q = Perm.rfl
  merge-perm (x ∷ p) [] = rw (append-nil p) Perm.rfl
  merge-perm (x ∷ p) (y ∷ q) = elim (Ordering-gt (cmp x y)) [
    | inl gt ↦
        rw (merge_right x y p q gt)
          (Perm.trans (Perm.cons y (merge-perm (x ∷ p) q)) (Perm.symm (perm_middle (x ∷ p) q)))
    | inr le ↦ rw (merge_left x y p q le) (Perm.cons x (merge-perm p (y ∷ q)))
  ]

  pub merge-length : (p q : List K) → length (merge cmp p q) ≡ length p + length q
  unfolding merge
  merge-length [] q = omega arith
  merge-length (x ∷ p) [] = omega arith
  merge-length (x ∷ p) (y ∷ q) = ground (arith, merge-length p (y ∷ q), merge-length (x ∷ p) q)

  IsBelow-merge : (a : K) (p q : List K) → IsBelow a p → IsBelow a q → IsBelow a (merge cmp p q)
  unfolding merge
  IsBelow-merge a [] q hp hq = hq
  IsBelow-merge a (x ∷ p) [] hp hq = hp
  IsBelow-merge a (x ∷ p) (y ∷ q) (hx, hp) (hy, hq) =
      ground (arith, IsBelow-merge a p (y ∷ q) hp (hy, hq), IsBelow-merge a (x ∷ p) q (hx, hp) hq)

  module _ (order : IsOrder) where
    IsBelow-trans : (a b : K) (l : List K) → Le a b → IsBelow b l → IsBelow a l
    IsBelow-trans a b [] h below = tt
    IsBelow-trans a b (x ∷ l) h (hx, below) = (order.trans a b x h hx, IsBelow-trans a b l h below)

    pub merge-IsSorted : (p q : List K) → IsSorted p → IsSorted q → IsSorted (merge cmp p q)
    unfolding merge
    merge-IsSorted [] q sp sq = sq
    merge-IsSorted (x ∷ p) [] sp sq = sp
    merge-IsSorted (x ∷ p) (y ∷ q) (bp, sp) (bq, sq) = elim (Ordering-gt (cmp x y)) [
      | inl gt ↦
          let le = order.total x y gt in
          rw (merge_right x y p q gt) (
            IsBelow-merge y (x ∷ p) q (le, IsBelow-trans y x p le bp) bq,
            merge-IsSorted (x ∷ p) q (bp, sp) sq,
          )
      | inr le ↦ rw (merge_left x y p q le) (
        IsBelow-merge x p (y ∷ q) bp (le, IsBelow-trans x y q le bq),
        merge-IsSorted p (y ∷ q) sp (bq, sq),
      )
    ]
