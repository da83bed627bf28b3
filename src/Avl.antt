-- ===== src/Avl.antt =====
-- The AVL trees of src/avl_generic.c: rotations, rebalancing, insertion, height and lookup. A child
-- that the flags `left_child` and `right_child` deny is `leaf`; the threads to the neighbours in
-- order, which the code keeps in such a pointer, follow from the shape and are not in the model.
-- `node_cmp` is a parameter.
pub mod Int
pub mod Balance
pub mod Order
pub mod Insert
pub mod Height
pub mod Lookup
pub mod Delete
use spdy_test.Prelude.{
  ℕ, ◌+◌, ◌<◌, List, [], ◌∷◌, Option, none, some, Bool, true, false, not, if◌then◌else◌, ltb,
}
use Prim.Native.Nat.{Ordering, max}
use spdy_test.Ret.{Ret}
use spdy_test.Buffer.Slice.{ℤ, pos, negsuc}
use Int.{◌+ℤ◌, ◌-ℤ◌, ltz, lez}

-- `http2d_avl_generic_node_t` with what its owner keeps in it.
pub data Tree (K : Type 0) : Type 0 where
  leaf : Tree K
  node : Tree K → K → ℤ → Tree K → Tree K

abbrev pub one : ℤ
one = pos 1

abbrev pub minus_one : ℤ
minus_one = negsuc 0

abbrev pub two : ℤ
two = pos 2

-- The balances that node_rotate_left gives to `node` and to `right`.
abbrev pub left_node : ℤ → ℤ → ℤ
left_node a_bal b_bal = if lez b_bal (pos 0) then a_bal -ℤ one else (a_bal -ℤ b_bal) -ℤ one

abbrev pub left_right : ℤ → ℤ → ℤ
left_right a_bal b_bal =
    if lez b_bal (pos 0)
    then (if lez one a_bal then b_bal -ℤ one else (a_bal +ℤ b_bal) -ℤ two)
    else if lez a_bal b_bal
    then a_bal -ℤ two
    else b_bal -ℤ one

-- The balances that node_rotate_right gives to `node` and to `left`.
abbrev pub right_node : ℤ → ℤ → ℤ
right_node a_bal b_bal = if lez b_bal (pos 0) then (a_bal -ℤ b_bal) +ℤ one else a_bal +ℤ one

abbrev pub right_left : ℤ → ℤ → ℤ
right_left a_bal b_bal =
    if lez b_bal (pos 0)
    then (if ltz a_bal b_bal then b_bal +ℤ one else a_bal +ℤ two)
    else if lez a_bal minus_one
    then b_bal +ℤ one
    else (a_bal +ℤ b_bal) +ℤ two

module _ {K : Type 0} where
  -- `node->balance`; a leaf has none.
  abbrev pub balance_of : Tree K → ℤ
  balance_of leaf = pos 0
  balance_of (node l k b r) = b

  -- Without a right child the code dereferences a thread: the tree is left as it is here.
  unfoldable pub rotate_left : Tree K → Tree K
  rotate_left leaf = leaf
  rotate_left (node l k a_bal leaf) = node l k a_bal leaf
  rotate_left (node l k a_bal (node m j b_bal r)) =
      node (node l k (left_node a_bal b_bal) m) j (left_right a_bal b_bal) r

  unfoldable pub rotate_right : Tree K → Tree K
  rotate_right leaf = leaf
  rotate_right (node leaf k a_bal r) = node leaf k a_bal r
  rotate_right (node (node l j b_bal m) k a_bal r) =
      node l j (right_left a_bal b_bal) (node m k (right_node a_bal b_bal) r)

  unfoldable pub node_balance : Tree K → Tree K
  node_balance leaf = leaf
  node_balance (node l k b r) =
      if ltz b minus_one
      then rotate_right (node (if ltz (pos 0) (balance_of l) then rotate_left l else l) k b r)
      else if ltz one b
      then rotate_left (node l k b (if ltz (balance_of r) (pos 0) then rotate_right r else r))
      else node l k b r

  -- node_height
  unfoldable pub height : Tree K → ℕ
  height leaf = 0
  height (node l k b r) = max (height l) (height r) + 1

  -- One round of "Rebalance the tree": the node, and whether the loop goes on to the parent.
  unfoldable pub settle : Tree K → Tree K × Bool
  settle t =
      let t' =
        if ltz (balance_of t) minus_one
        then node_balance t
        else if ltz one (balance_of t)
        then node_balance t
        else t in
      (t', if ltz (balance_of t') (pos 0) then true else ltz (pos 0) (balance_of t'))

  -- The parent, behind the round of its left or right child.
  abbrev pub on_left : Tree K × Bool → K → ℤ → Tree K → Tree K × Bool
  on_left (l, go_on) k b r = if go_on then settle (node l k (b -ℤ one) r) else (node l k b r, false)

  abbrev pub on_right : Tree K → K → ℤ → Tree K × Bool → Tree K × Bool
  on_right l k b (r, go_on) =
      if go_on then settle (node l k (b +ℤ one) r) else (node l k b r, false)

  module _ (node_cmp : K → K → Ordering) where
    -- node_add below the root: the recursion keeps on its stack what the code keeps in `path`.
    -- `none` is the node that is there already.
    unfoldable pub add_below : K → Tree K → Option (Tree K × Bool)
    add_below child leaf = some (node leaf child (pos 0) leaf, true)
    add_below child (node l k b r) =
        let left = add_below child l in
        let right = add_below child r in
        elim (node_cmp child k) [
          | Ordering.lt ↦ elim left [ none ↦ none | some t ↦ some (on_left t k b r) ]
          | Ordering.gt ↦ elim right [ none ↦ none | some t ↦ some (on_right l k b t) ]
          | Ordering.eq ↦ none
        ]

    -- The places of `path` that "Insert the node" of node_add writes to, in their order, from `idx` on:
    -- `path[0]` is set before. The rebalancing reads them backwards.
    unfoldable pub path_places : ℕ → K → Tree K → List ℕ
    path_places idx child leaf = []
    path_places idx child (node l k b r) =
        let left = path_places (idx + 1) child l in
        let right = path_places (idx + 1) child r in
        elim (node_cmp child k) [
          | Ordering.lt ↦ elim l [ leaf ↦ [] | node _ _ _ _ ↦ idx ∷ left ]
          | Ordering.gt ↦ elim r [ leaf ↦ [] | node _ _ _ _ ↦ idx ∷ right ]
          | Ordering.eq ↦ []
        ]

    unfoldable pub add_places : K → Tree K → List ℕ
    unfolding path_places
    add_places child root = 0 ∷ path_places 1 child root

    -- The new node is freed where the key is there already.
    unfoldable pub node_add : Tree K → K → Ret × Tree K
    node_add root child = elim (add_below child root) [
      | none ↦ (Ret.error, root)
      | some (t, go_on) ↦ (Ret.ok, t)
    ]

    -- http2d_avl_generic_get: `none` is ret_not_found.
    unfoldable pub get : Tree K → K → Option K
    get leaf key = none
    get (node l k b r) key = elim (node_cmp key k) [
      | Ordering.lt ↦ get l key
      | Ordering.gt ↦ get r key
      | Ordering.eq ↦ some k
    ]

    -- http2d_avl_generic_add and http2d_avl_generic_get, over `node_is_empty`.
    unfoldable pub avl_generic_add : (K → Bool) → Tree K → K → Ret × Tree K
    avl_generic_add node_is_empty root key =
        if node_is_empty key then (Ret.error, root) else node_add root key

    unfoldable pub avl_generic_get : (K → Bool) → Tree K → K → Ret × Option K
    avl_generic_get node_is_empty root key =
        if node_is_empty key
        then (Ret.error, none)
        else elim (get root key) [ none ↦ (Ret.not_found, none) | some k ↦ (Ret.ok, some k) ]
