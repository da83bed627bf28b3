-- ===== src/LinkedList/Agreeing.antt =====
-- The sort of src/list.c looks at its comparison on the entries of its list only.
use spdy_test.Prelude.{ℕ, zero, suc, ◌*◌, ◌≡◌, refl, List, [], ◌∷◌, ◌++◌, length, take, drop, arith}
use Prim.Native.Nat.{Ordering}
use spdy_test.LinkedList.{merge, merge_pass, sort_rounds, list_sort}

module _ {K : Type 0} (P : K → Type 0) where
  abbrev pub AllOf : List K → Type 0
  AllOf [] = Unit {0}
  AllOf (x ∷ xs) = P x × AllOf xs

  AllOf-take : (n : ℕ) (xs : List K) → AllOf xs → AllOf (take n xs)
  AllOf-take zero xs h = tt
  AllOf-take (suc n) [] h = tt
  AllOf-take (suc n) (x ∷ xs) (p, h) = (p, AllOf-take n xs h)

  AllOf-drop : (n : ℕ) (xs : List K) → AllOf xs → AllOf (drop n xs)
  AllOf-drop zero xs h = h
  AllOf-drop (suc n) [] h = tt
  AllOf-drop (suc n) (x ∷ xs) (p, h) = AllOf-drop n xs h

  AllOf-append : (xs ys : List K) → AllOf xs → AllOf ys → AllOf (xs ++ ys)
  AllOf-append [] ys h k = k
  AllOf-append (x ∷ xs) ys (p, h) k = (p, AllOf-append xs ys h k)

  module _ (cmp : K → K → Ordering) where
    AllOf-merge : (ps qs : List K) → AllOf ps → AllOf qs → AllOf (merge cmp ps qs)
    unfolding merge
    AllOf-merge [] qs hp hq = hq
    AllOf-merge (p ∷ ps) [] hp hq = hp
    AllOf-merge (p ∷ ps) (q ∷ qs) (hp, hps) (hq, hqs) =
        ground (arith, AllOf-merge ps (q ∷ qs) hps (hq, hqs), AllOf-merge (p ∷ ps) qs (hp, hps) hqs)

    AllOf-merge_pass :
        (fuel insize : ℕ) (l : List K) → AllOf l → AllOf (merge_pass cmp fuel insize l).0
    unfolding merge_pass
    AllOf-merge_pass fuel insize [] h = tt
    AllOf-merge_pass zero insize (x ∷ l) h = h
    AllOf-merge_pass (suc fuel) insize (x ∷ l) h =
        let rest = AllOf-drop insize (x ∷ l) h in
        AllOf-append _ _
          (AllOf-merge (take insize (x ∷ l)) (take insize (drop insize (x ∷ l)))
            (AllOf-take insize (x ∷ l) h) (AllOf-take insize (drop insize (x ∷ l)) rest))
          (AllOf-merge_pass fuel insize (drop insize (drop insize (x ∷ l)))
            (AllOf-drop insize (drop insize (x ∷ l)) rest))

  module _ (cmp cmp' : K → K → Ordering) (agree : (a b : K) → P a → P b → cmp a b ≡ cmp' a b) where
    merge-same : (ps qs : List K) → AllOf ps → AllOf qs → merge cmp ps qs ≡ merge cmp' ps qs
    unfolding merge
    merge-same [] qs hp hq = refl
    merge-same (p ∷ ps) [] hp hq = refl
    merge-same (p ∷ ps) (q ∷ qs) (hp, hps) (hq, hqs) = ground (
      arith,
      agree p q hp hq,
      merge-same ps (q ∷ qs) hps (hq, hqs),
      merge-same (p ∷ ps) qs (hp, hps) hqs,
    )

    merge_pass-same :
        (fuel insize : ℕ) (l : List K)
        → AllOf l
        → merge_pass cmp fuel insize l ≡ merge_pass cmp' fuel insize l
    unfolding merge_pass
    merge_pass-same fuel insize [] h = refl
    merge_pass-same zero insize (x ∷ l) h = refl
    merge_pass-same (suc fuel) insize (x ∷ l) h =
        let rest = AllOf-drop insize (x ∷ l) h in
        let merged =
          merge-same (take insize (x ∷ l)) (take insize (drop insize (x ∷ l)))
            (AllOf-take insize (x ∷ l) h) (AllOf-take insize (drop insize (x ∷ l)) rest) in
        let further =
          merge_pass-same fuel insize (drop insize (drop insize (x ∷ l)))
            (AllOf-drop insize (drop insize (x ∷ l)) rest) in
        rw (merged, further) refl

    sort_rounds-same :
        (fuel insize : ℕ) (l : List K)
        → AllOf l
        → sort_rounds cmp fuel insize l ≡ sort_rounds cmp' fuel insize l
    unfolding sort_rounds
    sort_rounds-same zero insize l h = refl
    sort_rounds-same (suc fuel) insize l h =
        let pass = merge_pass-same (length l) insize l h in
        let again =
          sort_rounds-same fuel (insize * 2) (merge_pass cmp' (length l) insize l).0
            (AllOf-merge_pass cmp' (length l) insize l h) in
        ground (arith, pass, again)

    pub list_sort-same : (l : List K) → AllOf l → list_sort cmp l ≡ list_sort cmp' l
    unfolding list_sort
    list_sort-same l h = sort_rounds-same (suc (length l)) 1 l h
