-- ===== src/Avl/Insert.antt =====
-- node_add of src/avl_generic.c: the tree stays balanced and in order, and has one node more.
use spdy_test.Prelude.{
  List, [], ◌∷◌, ◌++◌, Option, none, some, Bool, true, false, if◌then◌else◌, ◌≡◌, refl, sym, ap,
  ◌∙◌, ◌⊎◌, inl, inr, arith, subst, append_assoc,
}
use Prim.Native.Nat.{Ordering}
use spdy_test.Ret.{Ret}
use spdy_test.Buffer.Slice.{ℤ, pos}
use spdy_test.Avl.Int.{ltz}
use spdy_test.Avl.{
  Tree, leaf, node, height, rotate_left, rotate_right, node_balance, settle, on_left, on_right,
  add_below, node_add, balance_of, one, minus_one,
}
use spdy_test.Avl.Order.{
  IsOrder, IsSorted, IsInserted, IsPresent, AllAbove-append, AllBelow-append, IsSorted-around,
  AllAbove-trans, AllBelow-trans, IsSorted-insert,
}
use spdy_test.Avl.Balance.{IsAvl, Grows, Grows-on_left, Grows-on_right}

-- The nodes in order.
unfoldable pub elements : {K : Type 0} → Tree K → List K
elements leaf = []
elements (node l k b r) = elements l ++ (k ∷ elements r)

pub Ordering-cases : (o : Ordering) → (o ≡ Ordering.lt) ⊎ (o ≡ Ordering.eq) ⊎ (o ≡ Ordering.gt)
Ordering-cases Ordering.lt = inl refl
Ordering-cases Ordering.eq = inr (inl refl)
Ordering-cases Ordering.gt = inr (inr refl)

module _ {K : Type 0} where
  elements-rotate_left : (t : Tree K) → elements (rotate_left t) ≡ elements t
  unfolding elements rotate_left
  elements-rotate_left leaf = refl
  elements-rotate_left (node l k a leaf) = refl
  elements-rotate_left (node l k a (node m j b r)) =
      append_assoc (elements l) (k ∷ elements m) (j ∷ elements r)

  elements-rotate_right : (t : Tree K) → elements (rotate_right t) ≡ elements t
  unfolding elements rotate_right
  elements-rotate_right leaf = refl
  elements-rotate_right (node leaf k a r) = refl
  elements-rotate_right (node (node l j b m) k a r) =
      sym (append_assoc (elements l) (j ∷ elements m) (k ∷ elements r))

  elements-if :
      (c : Bool) (x y : Tree K) {xs : List K}
      → elements x ≡ xs
      → elements y ≡ xs
      → elements (if c then x else y) ≡ xs
  elements-if true x y h k = h
  elements-if false x y h k = k

  pub elements-node_balance : (t : Tree K) → elements (node_balance t) ≡ elements t
  unfolding node_balance elements
  elements-node_balance leaf = refl
  elements-node_balance (node l k b r) =
      let low = ltz (pos 0) (balance_of l) in
      let l' = if low then rotate_left l else l in
      let el : elements l' ≡ elements l =
        elements-if low (rotate_left l) l (elements-rotate_left l) refl in
      let high = ltz (balance_of r) (pos 0) in
      let r' = if high then rotate_right r else r in
      let er : elements r' ≡ elements r =
        elements-if high (rotate_right r) r (elements-rotate_right r) refl in
      let heavy_right = if ltz one b then rotate_left (node l k b r') else node l k b r in
      elements-if (ltz b minus_one) (rotate_right (node l' k b r)) heavy_right
        (elements-rotate_right (node l' k b r) ∙ ap (λ xs. xs ++ (k ∷ elements r)) el)
        (elements-if (ltz one b) (rotate_left (node l k b r')) (node l k b r)
          (elements-rotate_left (node l k b r') ∙ ap (λ xs. elements l ++ (k ∷ xs)) er) refl)

  elements-settle : (t : Tree K) → elements (settle t).0 ≡ elements t
  unfolding settle
  elements-settle t = ground (arith, elements-node_balance t)

  elements-on_left :
      (p : Tree K × Bool) (k : K) (b : ℤ) (r : Tree K)
      → elements (on_left p k b r).0 ≡ elements p.0 ++ (k ∷ elements r)
  unfolding elements
  elements-on_left (l, true) k b r = elements-settle (node l k _ r)
  elements-on_left (l, false) k b r = refl

  elements-on_right :
      (l : Tree K) (k : K) (b : ℤ) (p : Tree K × Bool)
      → elements (on_right l k b p).0 ≡ elements l ++ (k ∷ elements p.0)
  unfolding elements
  elements-on_right l k b (r, true) = elements-settle (node l k _ r)
  elements-on_right l k b (r, false) = refl

  Grows-leaf : (child : K) → Grows leaf (node leaf child (pos 0) leaf, true)
  unfolding height
  Grows-leaf child = (omega arith, refl, λ e lt. absurd (omega arith))

  -- The node whose place the descent finds.
  abbrev pub Adds : (K → K → Ordering) → K → Tree K → Option (Tree K × Bool) → Type 0
  Adds node_cmp child t r =
      ((p : Tree K × Bool) × (r ≡ some p)
        × Grows t p
        × IsInserted node_cmp child (elements t) (elements p.0))
      ⊎ ((r ≡ none) × IsPresent node_cmp child (elements t))

  module _ {node_cmp : K → K → Ordering} (order : IsOrder node_cmp) (child : K) where
    add_below_lem :
        (t : Tree K)
        → IsAvl t
        → IsSorted node_cmp (elements t)
        → Adds node_cmp child t (add_below node_cmp child t)
    unfolding add_below elements
    add_below_lem leaf al h = inl (
      (node leaf child (pos 0) leaf, true),
      refl,
      Grows-leaf child,
      record { before = []; after = []; split = refl; joined = refl; below = tt; above = tt },
    )
    add_below_lem (node l k b r) al h =
        let (sorted_l, below, above, sorted_r) =
          IsSorted-around node_cmp (elements l) k (elements r) h in
        elim (Ordering-cases (node_cmp child k)) [
          | inl less ↦ elim (add_below_lem l al.3 sorted_l) [
            | inl (p, e, g, i) ↦ inl (
              on_left p k b r,
              rw (less, add_below) (rw e refl),
              Grows-on_left l p.0 p.1 k b r al g,
              record {
                before = i.before;
                after = i.after ++ (k ∷ elements r);
                split =
                    ap (λ xs. xs ++ (k ∷ elements r)) i.split
                    ∙ append_assoc i.before i.after (k ∷ elements r);
                joined =
                    elements-on_left p k b r
                    ∙ ap (λ xs. xs ++ (k ∷ elements r)) i.joined
                    ∙ append_assoc i.before (child ∷ i.after) (k ∷ elements r);
                below = i.below;
                above =
                    AllAbove-append node_cmp child i.after (k ∷ elements r) i.above
                      (less, AllAbove-trans node_cmp order child k (elements r) less above);
              },
            )
            | inr (e, i) ↦ inr (
              rw (less, add_below) (rw e refl),
              record {
                before = i.before;
                member = i.member;
                after = i.after ++ (k ∷ elements r);
                split =
                    ap (λ xs. xs ++ (k ∷ elements r)) i.split
                    ∙ append_assoc i.before (i.member ∷ i.after) (k ∷ elements r);
                same = i.same;
              },
            )
          ]
          | inr (inl same) ↦ inr (
            rw (same, add_below) refl,
            record {
              before = elements l;
              member = k;
              after = elements r;
              split = refl;
              same = same;
            },
          )
          | inr (inr more) ↦ elim (add_below_lem r al.4 sorted_r) [
            | inl (p, e, g, i) ↦ inl (
              on_right l k b p,
              rw (more, add_below) (rw e refl),
              Grows-on_right l k b r p.0 p.1 al g,
              record {
                before = elements l ++ (k ∷ i.before);
                after = i.after;
                split =
                    ap (λ xs. elements l ++ (k ∷ xs)) i.split
                    ∙ sym (append_assoc (elements l) (k ∷ i.before) i.after);
                joined =
                    elements-on_right l k b p
                    ∙ ap (λ xs. elements l ++ (k ∷ xs)) i.joined
                    ∙ sym (append_assoc (elements l) (k ∷ i.before) (child ∷ i.after));
                below =
                    AllBelow-append node_cmp child (elements l) (k ∷ i.before)
                      (AllBelow-trans node_cmp order k child (elements l) (order.flip child k more)
                        below)
                      (order.flip child k more, i.below);
                above = i.above;
              },
            )
            | inr (e, i) ↦ inr (
              rw (more, add_below) (rw e refl),
              record {
                before = elements l ++ (k ∷ i.before);
                member = i.member;
                after = i.after;
                split =
                    ap (λ xs. elements l ++ (k ∷ xs)) i.split
                    ∙ sym (append_assoc (elements l) (k ∷ i.before) (i.member ∷ i.after));
                same = i.same;
              },
            )
          ]
        ]

    -- For a comparison that is an order, and a balanced tree whose nodes stand in that order, node_add
    -- either answers ret_error, leaves the tree alone, and the tree has a node that compares equal, or
    -- answers ret_ok with a balanced tree in order that has the new node between the old ones.
    pub node_add_lem :
        (t : Tree K)
        → IsAvl t
        → IsSorted node_cmp (elements t)
        → ((node_add node_cmp t child ≡ (Ret.error, t)) × IsPresent node_cmp child (elements t))
          ⊎ ((t' : Tree K) × (node_add node_cmp t child ≡ (Ret.ok, t'))
              × IsAvl t'
              × IsSorted node_cmp (elements t')
              × IsInserted node_cmp child (elements t) (elements t'))
    unfolding node_add
    node_add_lem t al h = elim (add_below_lem t al h) [
      | inl (p, e, g, i) ↦
          let old = subst (IsSorted node_cmp) i.split h in
          let new = IsSorted-insert node_cmp order i.before child i.after old i.below i.above in
          inr (p.0, rw (e, node_add) refl, g.0, subst (IsSorted node_cmp) (sym i.joined) new, i)
      | inr (e, i) ↦ inl (rw (e, node_add) refl, i)
    ]
