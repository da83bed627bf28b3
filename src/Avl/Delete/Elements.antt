-- ===== src/Avl/Delete/Elements.antt =====
-- http2d_avl_generic_del of src/avl_generic.c, against the list of the elements of the tree.
use spdy_test.Prelude.{
  List, ◌∷◌, ◌++◌, none, some, Bool, true, false, ◌≡◌, refl, sym, ap, ◌∙◌, ◌⊎◌, inl, inr, arith,
  append_assoc, append-nil,
}
use Prim.Native.Nat.{Ordering}
use spdy_test.Buffer.Slice.{ℤ}
use spdy_test.Avl.{Tree, leaf, node, get}
use spdy_test.Avl.Balance.{IsAvl}
use spdy_test.Avl.Insert.{elements, Ordering-cases, elements-node_balance}
use spdy_test.Avl.Delete.{restore, off_left, off_right, take_next, take_out, del_below}
use spdy_test.Avl.Delete.Balance.{Shrinks, Shrinks-off_left, Shrinks-off_right, Shrinks-take_out}

-- `member` compares equal to the key, and is taken from between its neighbours.
pub record IsRemoved {K : Type 0} (node_cmp : K → K → Ordering) (key member : K) (old new : List K)
    : Type 0 where
  pub before : List K
  pub after : List K
  pub split : old ≡ before ++ (member ∷ after)
  pub joined : new ≡ before ++ after
  pub same : node_cmp key member ≡ Ordering.eq

module _ {K : Type 0} where
  elements-restore : (t : Tree K) → elements (restore t).0 ≡ elements t
  unfolding restore
  elements-restore t = ground (arith, elements-node_balance t)

  elements-off_left :
      (p : Tree K × Bool) (k : K) (b : ℤ) (r : Tree K)
      → elements (off_left p k b r).0 ≡ elements p.0 ++ (k ∷ elements r)
  unfolding elements
  elements-off_left (l, true) k b r = elements-restore (node l k _ r)
  elements-off_left (l, false) k b r = refl

  elements-off_right :
      (l : Tree K) (k : K) (b : ℤ) (p : Tree K × Bool)
      → elements (off_right l k b p).0 ≡ elements l ++ (k ∷ elements p.0)
  unfolding elements
  elements-off_right l k b (r, true) = elements-restore (node l k _ r)
  elements-off_right l k b (r, false) = refl

  elements-take_next :
      (l : Tree K) (k : K) (b : ℤ) (r : Tree K)
      → elements (node l k b r) ≡ (take_next l k b r).0 ∷ elements (take_next l k b r).1.0
  unfolding elements take_next
  elements-take_next leaf k b r = refl
  elements-take_next (node a j c d) k b r =
      ap (λ xs. xs ++ (k ∷ elements r)) (elements-take_next a j c d)
      ∙ ap (λ xs. (take_next a j c d).0 ∷ xs) (sym (elements-off_left (take_next a j c d).1 k b r))

  elements-take_out :
      (l : Tree K) (b : ℤ) (r : Tree K) → elements (take_out l b r).0 ≡ elements l ++ elements r
  unfolding elements take_out
  elements-take_out leaf b r = refl
  elements-take_out (node a j c d) b leaf = sym (append-nil (elements a ++ (j ∷ elements d)))
  elements-take_out (node a j c d) b (node l k e r) =
      elements-off_right (node a j c d) (take_next l k e r).0 b (take_next l k e r).1
      ∙ ap (λ xs. elements (node a j c d) ++ xs) (sym (elements-take_next l k e r))

  module _ (node_cmp : K → K → Ordering) (key : K) where
    pub del_below_lem :
        (t : Tree K)
        → IsAvl t
        → ((m : K) × (p : Tree K × Bool) × (del_below node_cmp key t ≡ some (m, p))
            × Shrinks t p
            × IsRemoved node_cmp key m (elements t) (elements p.0))
          ⊎ (del_below node_cmp key t ≡ none)
    unfolding del_below elements
    del_below_lem leaf al = inr refl
    del_below_lem (node l k b r) al = elim (Ordering-cases (node_cmp key k)) [
      | inl less ↦ elim (del_below_lem l al.3) [
        | inr fails ↦ inr (rw (less, del_below) (rw fails refl))
        | inl (m, p, e, s, i) ↦ inl (
          m,
          off_left p k b r,
          rw (less, del_below) (rw e refl),
          Shrinks-off_left l p.0 p.1 k b r al s,
          record {
            before = i.before;
            after = i.after ++ (k ∷ elements r);
            split =
                ap (λ xs. xs ++ (k ∷ elements r)) i.split
                ∙ append_assoc i.before (m ∷ i.after) (k ∷ elements r);
            joined =
                elements-off_left p k b r
                ∙ ap (λ xs. xs ++ (k ∷ elements r)) i.joined
                ∙ append_assoc i.before i.after (k ∷ elements r);
            same = i.same;
          },
        )
      ]
      | inr (inl same) ↦ inl (
        k,
        take_out l b r,
        rw (same, del_below) refl,
        Shrinks-take_out l k b r al,
        record {
          before = elements l;
          after = elements r;
          split = refl;
          joined = elements-take_out l b r;
          same = same;
        },
      )
      | inr (inr more) ↦ elim (del_below_lem r al.4) [
        | inr fails ↦ inr (rw (more, del_below) (rw fails refl))
        | inl (m, p, e, s, i) ↦ inl (
          m,
          off_right l k b p,
          rw (more, del_below) (rw e refl),
          Shrinks-off_right l k b r p.0 p.1 al s,
          record {
            before = elements l ++ (k ∷ i.before);
            after = i.after;
            split =
                ap (λ xs. elements l ++ (k ∷ xs)) i.split
                ∙ sym (append_assoc (elements l) (k ∷ i.before) (m ∷ i.after));
            joined =
                elements-off_right l k b p
                ∙ ap (λ xs. elements l ++ (k ∷ xs)) i.joined
                ∙ sym (append_assoc (elements l) (k ∷ i.before) i.after);
            same = i.same;
          },
        )
      ]
    ]

    pub del_below-get : (t : Tree K) → del_below node_cmp key t ≡ none → get node_cmp t key ≡ none
    unfolding del_below get
    del_below-get leaf h = refl
    del_below-get (node l k b r) h = ground (arith, del_below-get l, del_below-get r)
