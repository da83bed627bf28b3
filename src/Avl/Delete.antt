-- ===== src/Avl/Delete.antt =====
-- http2d_avl_generic_del and http2d_avl_check of src/avl_generic.c.
pub mod Balance
pub mod Elements
pub mod Removed
use spdy_test.Prelude.{ℕ, Option, none, some, Bool, true, false, not, if◌then◌else◌}
use Prim.Native.Nat.{Ordering}
use spdy_test.Ret.{Ret}
use spdy_test.Buffer.Slice.{ℤ, pos, negsuc}
use spdy_test.Avl.Int.{◌+ℤ◌, ◌-ℤ◌, ltz, sub_ℕ}
use spdy_test.Avl.{Tree, leaf, node, node_balance, balance_of, one, minus_one, height}

module _ {K : Type 0} where
  -- One round of "restore balance": the node, and whether the loop goes on to the parent.
  unfoldable pub restore : Tree K → Tree K × Bool
  restore t =
      let t' =
        if ltz (balance_of t) minus_one
        then node_balance t
        else if ltz one (balance_of t)
        then node_balance t
        else t in
      (t', if ltz (balance_of t') (pos 0) then false else not (ltz (pos 0) (balance_of t')))

  -- The parent, behind the round of its left or right child: the child has lost a level.
  abbrev pub off_left : Tree K × Bool → K → ℤ → Tree K → Tree K × Bool
  off_left (l, go_on) k b r =
      if go_on then restore (node l k (b +ℤ one) r) else (node l k b r, false)

  abbrev pub off_right : Tree K → K → ℤ → Tree K × Bool → Tree K × Bool
  off_right l k b (r, go_on) =
      if go_on then restore (node l k (b -ℤ one) r) else (node l k b r, false)

  -- "find the immediately next node": the leftmost one of the subtree `node l k b r`, which is taken
  -- out, and the rest.
  unfoldable pub take_next : Tree K → K → ℤ → Tree K → K × (Tree K × Bool)
  take_next leaf k b r = (k, (r, true))
  take_next (node a j c d) k b r =
      let (next, rest) = take_next a j c d in (next, off_left rest k b r)

  -- The node is taken out of its place: "both children" puts the next node there.
  unfoldable pub take_out : Tree K → ℤ → Tree K → Tree K × Bool
  take_out leaf b r = (r, true)
  take_out (node a j c d) b leaf = (node a j c d, true)
  take_out (node a j c d) b (node l k e r) =
      let (next, rest) = take_next l k e r in off_right (node a j c d) next b rest

  module _ (node_cmp : K → K → Ordering) where
    -- The recursion keeps on its stack what the code keeps in `path`. `none` is a key that is not
    -- there; otherwise the node that is taken out, and the tree.
    unfoldable pub del_below : K → Tree K → Option (K × (Tree K × Bool))
    del_below key leaf = none
    del_below key (node l k b r) =
        let left = del_below key l in
        let right = del_below key r in
        elim (node_cmp key k) [
          | Ordering.lt ↦ elim left [ none ↦ none | some (m, p) ↦ some (m, off_left p k b r) ]
          | Ordering.gt ↦ elim right [ none ↦ none | some (m, p) ↦ some (m, off_right l k b p) ]
          | Ordering.eq ↦ some (k, take_out l b r)
        ]

    -- http2d_avl_generic_del, over `node_is_empty`: with the node that is freed, whose value the code
    -- answers.
    unfoldable pub avl_generic_del : (K → Bool) → Tree K → K → Ret × Option K × Tree K
    avl_generic_del node_is_empty root key =
        if node_is_empty key then (Ret.error, none, root) else elim (del_below key root) [
          | none ↦ (Ret.not_found, none, root)
          | some (m, p) ↦ (Ret.ok, some m, p.0)
        ]
