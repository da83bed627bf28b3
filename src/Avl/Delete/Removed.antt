-- ===== src/Avl/Delete/Removed.antt =====
-- http2d_avl_generic_del of src/avl_generic.c takes out the one node that compares equal.
use spdy_test.Prelude.{
  ◌+◌, List, [], ◌∷◌, ◌++◌, none, some, Bool, false, ◌≡◌, ◌≢◌, refl, sym, ap, subst, ◌∙◌, ◌⊎◌, inl,
  inr, arith, length, length-append,
}
use Prim.Native.Nat.{Ordering}
use spdy_test.Ret.{Ret}
use spdy_test.Avl.{Tree, get}
use spdy_test.Avl.Order.{IsSorted, AllAbove, IsSorted-around, AllAbove-append, AllAbove-split}
use spdy_test.Avl.Balance.{IsAvl}
use spdy_test.Avl.Insert.{elements}
use spdy_test.Avl.Lookup.{
  IsComparison, find, find_equal, find_between, find-above, find_past, AllBelow-same, get-eq-find,
}
use spdy_test.Avl.Delete.{avl_generic_del}
use spdy_test.Avl.Delete.Elements.{IsRemoved, del_below_lem, del_below-get}

module _ {K : Type 0} where
  IsSorted-remove :
      (node_cmp : K → K → Ordering) (xs : List K) (m : K) (ys : List K)
      → IsSorted node_cmp (xs ++ (m ∷ ys))
      → IsSorted node_cmp (xs ++ ys)
  IsSorted-remove node_cmp [] m ys (above, h) = h
  IsSorted-remove node_cmp (x ∷ xs) m ys (above, h) =
      let (a, b) = AllAbove-split node_cmp x xs (m ∷ ys) above in
      (AllAbove-append node_cmp x xs ys a b.1, IsSorted-remove node_cmp xs m ys h)

  module _ {node_cmp : K → K → Ordering} (cmp : IsComparison node_cmp) where
    AllAbove-same :
        (key m : K) (xs : List K)
        → node_cmp key m ≡ Ordering.eq
        → AllAbove node_cmp m xs
        → AllAbove node_cmp key xs
    AllAbove-same key m [] e h = tt
    AllAbove-same key m (x ∷ xs) e (p, h) = (cmp.same key m x e ∙ p, AllAbove-same key m xs e h)

    other_than_member :
        (key m other : K)
        → node_cmp key m ≡ Ordering.eq
        → node_cmp other key ≢ Ordering.eq
        → node_cmp other m ≢ Ordering.eq
    other_than_member key m other e h q =
        let back : node_cmp m key ≡ Ordering.eq = sym (cmp.same key m key e) ∙ cmp.itself key in
        h (cmp.same other m key q ∙ back)

    module _ (t t' : Tree K) (key m : K) (h : IsSorted node_cmp (elements t))
        (i : IsRemoved node_cmp key m (elements t) (elements t')) where
      around : IsSorted node_cmp (i.before ++ (m ∷ i.after))
      around = subst (IsSorted node_cmp) i.split h

      IsRemoved-IsSorted : IsSorted node_cmp (elements t')
      IsRemoved-IsSorted =
          subst (IsSorted node_cmp) (sym i.joined)
            (IsSorted-remove node_cmp i.before m i.after around)

      removed_get : get node_cmp t key ≡ some m
      removed_get =
          let (sorted_before, below, above, sorted_after) =
            IsSorted-around node_cmp i.before m i.after around in
          get-eq-find node_cmp cmp t key h
          ∙ ap (find node_cmp key) i.split
          ∙ find_past node_cmp cmp key i.before (m ∷ i.after)
              (AllBelow-same node_cmp cmp key m i.before i.same below)
          ∙ find_equal node_cmp key m i.after i.same

      removed_gone : get node_cmp t' key ≡ none
      removed_gone =
          let (sorted_before, below, above, sorted_after) =
            IsSorted-around node_cmp i.before m i.after around in
          get-eq-find node_cmp cmp t' key IsRemoved-IsSorted
          ∙ ap (find node_cmp key) i.joined
          ∙ find_past node_cmp cmp key i.before i.after
              (AllBelow-same node_cmp cmp key m i.before i.same below)
          ∙ find-above node_cmp key i.after (AllAbove-same key m i.after i.same above)

      removed_others :
          (other : K)
          → node_cmp other key ≢ Ordering.eq
          → get node_cmp t' other ≡ get node_cmp t other
      removed_others other ne =
          get-eq-find node_cmp cmp t' other IsRemoved-IsSorted
          ∙ ap (find node_cmp other) i.joined
          ∙ sym (
              find_between node_cmp other m i.before i.after
                (other_than_member key m other i.same ne))
          ∙ ap (find node_cmp other) (sym i.split)
          ∙ sym (get-eq-find node_cmp cmp t other h)

      length-removed : length (elements t) ≡ length (elements t') + 1
      length-removed = omega (
        arith,
        ap length i.split,
        ap length i.joined,
        length-append i.before (m ∷ i.after),
        length-append i.before i.after,
      )

    -- For a comparison that is an order whose equal keys compare alike, a balanced tree in order, and
    -- a key that node_is_empty does not reject: http2d_avl_generic_del either answers ret_not_found,
    -- leaves the tree alone, and the lookup finds nothing under the key, or answers ret_ok with the
    -- node that the lookup finds and a balanced tree in order that has one node less, in which the
    -- lookup finds nothing under the key and under every key that does not compare equal to it what
    -- it found before.
    pub avl_generic_del_lem :
        (node_is_empty : K → Bool) (t : Tree K) (key other : K)
        → node_is_empty key ≡ false
        → IsAvl t
        → IsSorted node_cmp (elements t)
        → node_cmp other key ≢ Ordering.eq
        → ((avl_generic_del node_cmp node_is_empty t key ≡ (Ret.not_found, none, t))
            × (get node_cmp t key ≡ none))
          ⊎ ((m : K) × (t' : Tree K) × (avl_generic_del node_cmp node_is_empty t key
                ≡ (Ret.ok, some m, t'))
              × (get node_cmp t key ≡ some m)
              × IsAvl t'
              × IsSorted node_cmp (elements t')
              × (length (elements t) ≡ length (elements t') + 1)
              × (get node_cmp t' key ≡ none)
              × (get node_cmp t' other ≡ get node_cmp t other))
    unfolding avl_generic_del
    avl_generic_del_lem node_is_empty t key other full al h ne =
        elim (del_below_lem node_cmp key t al) [
          | inr fails ↦
              inl (rw (full, avl_generic_del) (rw fails refl), del_below-get node_cmp key t fails)
          | inl (m, p, e, s, i) ↦ inr (
            m,
            p.0,
            rw (full, avl_generic_del) (rw e refl),
            removed_get t p.0 key m h i,
            s.0,
            IsRemoved-IsSorted t p.0 key m h i,
            length-removed t p.0 key m h i,
            removed_gone t p.0 key m h i,
            removed_others t p.0 key m h i other ne,
          )
        ]
