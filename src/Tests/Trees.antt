-- ===== src/Tests/Trees.antt =====
-- The theorems about src/avl_generic.c at concrete trees.
use spdy_test.Prelude.{
  some, none, false, length, ◌+◌, ℕ, [], ◌∷◌, ◌≡◌, refl, ◌⊎◌, arith, ltb, if◌then◌else◌,
}
use Prim.Native.Nat.{Ordering}
use spdy_test.Ret.{Ret}
use spdy_test.Buffer.Slice.{pos}
use spdy_test.Avl.{
  Tree, leaf, node, height, node_add, get, add_below, settle, node_balance, rotate_left,
}
use spdy_test.Avl.Int.{◌+ℤ◌, ◌-ℤ◌}
use spdy_test.Avl.Lookup.{IsComparison, get-node_add}
use spdy_test.Avl.Balance.{IsAvl}
use spdy_test.Avl.Order.{IsOrder, IsSorted, IsInserted, IsPresent}
use spdy_test.Avl.Insert.{elements, node_add_lem}
use spdy_test.Avl.Delete.{avl_generic_del, del_below, off_right, take_out, restore}
use spdy_test.Avl.Delete.Removed.{avl_generic_del_lem}
use spdy_test.Avl.{add_places}
use spdy_test.Avl.Height.{AllUnder, add_places-under_max}

abbrev by_number : ℕ → ℕ → Ordering
by_number x y = if ltb x y then Ordering.lt else if ltb y x then Ordering.gt else Ordering.eq

by_number-IsOrder : IsOrder by_number
by_number-IsOrder = record { flip = λ x y h. ground arith; trans = λ x y z h k. ground arith }

-- 10, and 20 as its right child: 15 takes a double rotation.
abbrev two_nodes : Tree ℕ
two_nodes = node leaf 10 (pos 1) (node leaf 20 (pos 0) leaf)

two_nodes-IsAvl : IsAvl two_nodes
unfolding height
two_nodes-IsAvl = ground arith

node_add_lem_example :
    ((node_add by_number two_nodes 15 ≡ (Ret.error, two_nodes))
      × IsPresent by_number 15 (10 ∷ 20 ∷ []))
    ⊎ ((t' : Tree ℕ) × (node_add by_number two_nodes 15 ≡ (Ret.ok, t'))
        × IsAvl t'
        × IsSorted by_number (elements t')
        × IsInserted by_number 15 (10 ∷ 20 ∷ []) (elements t'))
unfolding elements
node_add_lem_example =
    node_add_lem by_number-IsOrder 15 two_nodes two_nodes-IsAvl ((refl, tt), (tt, tt))

add_places-under_max_example : AllUnder 45 (add_places by_number 15 two_nodes)
unfolding elements
add_places-under_max_example =
    add_places-under_max by_number two_nodes 15 two_nodes-IsAvl (omega arith)

fifteen_places : add_places by_number 15 two_nodes ≡ 0 ∷ 1 ∷ []
unfolding add_places
fifteen_places = refl

by_number-IsComparison : IsComparison by_number
by_number-IsComparison = record {
  order = by_number-IsOrder;
  itself = λ x. ground arith;
  flip_back = λ x y h. ground arith;
  same = λ x y z h. ground arith;
}

get-node_add_example :
    (get by_number (node (node leaf 10 (pos 0) leaf) 20 (pos 0) (node leaf 30 (pos 0) leaf)) 30
      ≡ some 30)
    × (get by_number (node (node leaf 10 (pos 0) leaf) 20 (pos 0) (node leaf 30 (pos 0) leaf)) 10
        ≡ get by_number two_nodes 10)
unfolding node_add elements add_below settle ◌+ℤ◌ node_balance rotate_left ◌-ℤ◌
get-node_add_example =
    get-node_add by_number by_number-IsComparison two_nodes
      (node (node leaf 10 (pos 0) leaf) 20 (pos 0) (node leaf 30 (pos 0) leaf)) 30 10
      two_nodes-IsAvl ((refl, tt), (tt, tt)) refl (λ e. cc)

avl_generic_del_lem_example :
    ((avl_generic_del by_number (λ k. false) two_nodes 20 ≡ (Ret.not_found, none, two_nodes))
      × (get by_number two_nodes 20 ≡ none))
    ⊎ ((m : ℕ) × (t' : Tree ℕ) × (avl_generic_del by_number (λ k. false) two_nodes 20
          ≡ (Ret.ok, some m, t'))
        × (get by_number two_nodes 20 ≡ some m)
        × IsAvl t'
        × IsSorted by_number (elements t')
        × (length (elements two_nodes) ≡ length (elements t') + 1)
        × (get by_number t' 20 ≡ none)
        × (get by_number t' 10 ≡ get by_number two_nodes 10))
unfolding elements
avl_generic_del_lem_example =
    avl_generic_del_lem by_number-IsComparison (λ k. false) two_nodes 20 10 refl two_nodes-IsAvl
      ((refl, tt), (tt, tt)) (λ e. cc)

last_removed :
    avl_generic_del by_number (λ k. false) two_nodes 20
    ≡ (Ret.ok, some 20, node leaf 10 (pos 0) leaf)
unfolding avl_generic_del del_below off_right take_out restore ◌-ℤ◌ ◌+ℤ◌ node_balance
last_removed = refl
