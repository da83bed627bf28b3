-- ===== src/Avl/Lookup.antt =====
-- Lookups of src/avl_generic.c in a tree that node_add has left.
use spdy_test.Prelude.{
  List, [], ◌∷◌, ◌++◌, Option, none, some, ◌≡◌, ◌≢◌, refl, sym, ap, ◌∙◌, ◌⊎◌, inl, inr,
}
use Prim.Native.Nat.{Ordering}
use spdy_test.Ret.{Ret}
use spdy_test.Avl.{Tree, leaf, node, node_add, get}
use spdy_test.Avl.Order.{
  IsOrder, IsSorted, AllBelow, AllAbove, IsSorted-around, AllAbove-trans, AllBelow-trans,
}
use spdy_test.Avl.Balance.{IsAvl}
use spdy_test.Avl.Insert.{elements, Ordering-cases, node_add_lem}

-- What a comparison owes to its lookups.
pub record IsComparison {K : Type 0} (node_cmp : K → K → Ordering) : Type 0 where
  pub order : IsOrder node_cmp
  pub itself : (x : K) → node_cmp x x ≡ Ordering.eq
  pub flip_back : (x y : K) → node_cmp x y ≡ Ordering.lt → node_cmp y x ≡ Ordering.gt
  pub same : (x y z : K) → node_cmp x y ≡ Ordering.eq → node_cmp x z ≡ node_cmp y z

module _ {K : Type 0} (node_cmp : K → K → Ordering) where
  -- The first element that compares equal.
  unfoldable pub find : K → List K → Option K
  find key [] = none
  find key (x ∷ xs) =
      let rest = find key xs in
      elim (node_cmp key x) [ Ordering.lt ↦ rest | Ordering.eq ↦ some x | Ordering.gt ↦ rest ]

eq_or_not : (o : Ordering) → (o ≡ Ordering.eq) ⊎ (o ≢ Ordering.eq)
eq_or_not o = elim (Ordering-cases o) [
  | inl lt ↦ inr (λ e. cc)
  | inr (inl eq) ↦ inl eq
  | inr (inr gt) ↦ inr (λ e. cc)
]

module _ {K : Type 0} (node_cmp : K → K → Ordering) where
  pub find_equal :
      (key x : K) (xs : List K) → node_cmp key x ≡ Ordering.eq → find node_cmp key (x ∷ xs) ≡ some x
  unfolding find
  find_equal key x xs h = rw (h, find) refl

  find_other :
      (key x : K) (xs : List K)
      → node_cmp key x ≢ Ordering.eq
      → find node_cmp key (x ∷ xs) ≡ find node_cmp key xs
  unfolding find
  find_other key x xs h = elim (Ordering-cases (node_cmp key x)) [
    | inl lt ↦ rw (lt, find) refl
    | inr (inl eq) ↦ absurd (h eq)
    | inr (inr gt) ↦ rw (gt, find) refl
  ]

  -- An element that does not compare equal may stand anywhere.
  pub find_between :
      (key x : K) (xs ys : List K)
      → node_cmp key x ≢ Ordering.eq
      → find node_cmp key (xs ++ (x ∷ ys)) ≡ find node_cmp key (xs ++ ys)
  find_between key x [] ys h = find_other key x ys h
  find_between key x (z ∷ xs) ys h = elim (eq_or_not (node_cmp key z)) [
    | inl eq ↦ find_equal key z (xs ++ (x ∷ ys)) eq ∙ sym (find_equal key z (xs ++ ys) eq)
    | inr ne ↦
        find_other key z (xs ++ (x ∷ ys)) ne
        ∙ find_between key x xs ys h
        ∙ sym (find_other key z (xs ++ ys) ne)
  ]

  pub find-above : (key : K) (xs : List K) → AllAbove node_cmp key xs → find node_cmp key xs ≡ none
  find-above key [] h = unfold find in refl
  find-above key (x ∷ xs) (p, h) = find_other key x xs (λ e. cc) ∙ find-above key xs h

  find_up_to :
      (key : K) (xs ys : List K)
      → find node_cmp key ys ≡ none
      → find node_cmp key (xs ++ ys) ≡ find node_cmp key xs
  find_up_to key [] ys h = h ∙ unfold find in refl
  find_up_to key (x ∷ xs) ys h = elim (eq_or_not (node_cmp key x)) [
    | inl eq ↦ find_equal key x (xs ++ ys) eq ∙ sym (find_equal key x xs eq)
    | inr ne ↦
        find_other key x (xs ++ ys) ne ∙ find_up_to key xs ys h ∙ sym (find_other key x xs ne)
  ]

  module _ (cmp : IsComparison node_cmp) where
    pub find_past :
        (key : K) (xs ys : List K)
        → AllBelow node_cmp key xs
        → find node_cmp key (xs ++ ys) ≡ find node_cmp key ys
    find_past key [] ys h = refl
    find_past key (x ∷ xs) ys (p, h) =
        let gt = cmp.flip_back x key p in
        find_other key x (xs ++ ys) (λ e. cc) ∙ find_past key xs ys h

    pub AllBelow-same :
        (key k : K) (xs : List K)
        → node_cmp key k ≡ Ordering.eq
        → AllBelow node_cmp k xs
        → AllBelow node_cmp key xs
    AllBelow-same key k [] e h = tt
    AllBelow-same key k (x ∷ xs) e (p, h) =
        let gt : node_cmp key x ≡ Ordering.gt = cmp.same key k x e ∙ cmp.flip_back x k p in
        (cmp.order.flip key x gt, AllBelow-same key k xs e h)

    -- In a tree in order the lookup finds what a search of the nodes in order finds.
    pub get-eq-find :
        (t : Tree K) (key : K)
        → IsSorted node_cmp (elements t)
        → get node_cmp t key ≡ find node_cmp key (elements t)
    unfolding get elements
    get-eq-find leaf key h = unfold find in refl
    get-eq-find (node l k b r) key h =
        let (hl, below, above, hr) = IsSorted-around node_cmp (elements l) k (elements r) h in
        elim (Ordering-cases (node_cmp key k)) [
          | inl lt ↦
              let none_right : find node_cmp key (k ∷ elements r) ≡ none =
                find-above key (k ∷ elements r)
                  (lt, AllAbove-trans node_cmp cmp.order key k (elements r) lt above) in
              rw (lt, get)
                (get-eq-find l key hl
                  ∙ sym (find_up_to key (elements l) (k ∷ elements r) none_right))
          | inr (inl eq) ↦
              rw (eq, get)
                (sym (
                  find_past key (elements l) (k ∷ elements r)
                    (AllBelow-same key k (elements l) eq below)
                  ∙ find_equal key k (elements r) eq))
          | inr (inr gt) ↦
              let passed : AllBelow node_cmp key (elements l) =
                AllBelow-trans node_cmp cmp.order k key (elements l) (cmp.order.flip key k gt)
                  below in
              rw (gt, get)
                (get-eq-find r key hr
                  ∙ sym (
                      find_past key (elements l) (k ∷ elements r) passed
                      ∙ find_other key k (elements r) (λ e. cc)))
        ]

    -- For a comparison that is an order whose equal keys compare alike, and a balanced tree in order to
    -- which node_add adds a node: http2d_avl_generic_get then finds the new node under its key, and
    -- under every key that does not compare equal to it what it found before.
    pub get-node_add :
        (t t' : Tree K) (child key : K)
        → IsAvl t
        → IsSorted node_cmp (elements t)
        → node_add node_cmp t child ≡ (Ret.ok, t')
        → node_cmp key child ≢ Ordering.eq
        → (get node_cmp t' child ≡ some child) × (get node_cmp t' key ≡ get node_cmp t key)
    get-node_add t t' child key al h adds other = elim (node_add_lem cmp.order child t al h) [
      | inl (fails, present) ↦ absurd cc
      | inr (t2, adds2, al2, h2, i) ↦
          let e : t2 ≡ t' = ap (λ p. p.1) (sym adds2 ∙ adds) in
          let found : get node_cmp t2 child ≡ some child =
            get-eq-find t2 child h2
            ∙ ap (find node_cmp child) i.joined
            ∙ find_past child i.before (child ∷ i.after) i.below
            ∙ find_equal child child i.after (cmp.itself child) in
          let kept : get node_cmp t2 key ≡ get node_cmp t key =
            get-eq-find t2 key h2
            ∙ ap (find node_cmp key) i.joined
            ∙ find_between key child i.before i.after other
            ∙ ap (find node_cmp key) (sym i.split)
            ∙ sym (get-eq-find t key h) in
          (
            ap (λ x. get node_cmp x child) (sym e) ∙ found,
            ap (λ x. get node_cmp x key) (sym e) ∙ kept,
          )
    ]
