-- ===== src/ConfigNode/Added.antt =====
-- The tree of src/config_node.c as a finite map, and what http2d_config_node_add_buf does to it.
use spdy_test.Prelude.{ℕ, ◌≡◌, refl, List, [], ◌∷◌, Option, none, some, Bool, true, false, arith}
use spdy_test.CString.{same}
use spdy_test.CString.Same.{same_iff}
use spdy_test.ConfigNode.{Nodes, nil, node, is_empty, has_block, key_equal, set_val, add_steps}

-- Where every key has a first byte, so that no `strcmp` reads through NULL.
abbrev pub HasKeys : List (List ℕ) → Type 0
HasKeys [] = Unit {0}
HasKeys (k ∷ ks) = (is_empty k ≡ false) × HasKeys ks

abbrev pub IsNamed : Nodes → Type 0
IsNamed nil = Unit {0}
IsNamed (node key val child next) = (is_empty key ≡ false) × IsNamed child × IsNamed next

-- The value behind a path, if there is such a node: what a tree is as a finite map.
unfoldable pub lookup : List (List ℕ) → Nodes → Option (List ℕ)
lookup [] nodes = none
lookup (k ∷ ks) nil = none
lookup (k ∷ ks) (node key val child next) =
    let inner = lookup ks child in
    let behind = lookup (k ∷ ks) next in
    elim (same key k) [ true ↦ elim ks [ [] ↦ some val | k' ∷ ks' ↦ inner ] | false ↦ behind ]

-- How the path that is looked up stands to the one that is added.
pub data Compared : Type 0 where
  equal above apart : Compared

unfoldable pub compare_paths : List (List ℕ) → List (List ℕ) → Compared
compare_paths [] [] = equal
compare_paths [] (k ∷ ks) = above
compare_paths (k' ∷ ks') [] = apart
compare_paths (k' ∷ ks') (k ∷ ks) =
    let rest = compare_paths ks' ks in elim (same k k') [ true ↦ rest | false ↦ apart ]

abbrev pub or_empty : Option (List ℕ) → List ℕ
or_empty none = []
or_empty (some old) = old

abbrev pub value_after : Compared → List ℕ → Option (List ℕ) → Option (List ℕ)
value_after equal val old = some val
value_after above val old = some (or_empty old)
value_after apart val old = old

-- The loop that adds, where no key is NULL.
pub added : List (List ℕ) → List ℕ → Nodes → Nodes
added [] val nodes = nodes
added (k ∷ ks) val nil = node k (set_val ks val []) (added ks val nil) nil
added (k ∷ ks) val (node key old child next) =
    let inner = added ks val child in
    let behind = added (k ∷ ks) val next in
    elim (same key k) [
      | true ↦ node key (set_val ks val old) inner next
      | false ↦ node key old child behind
    ]

pub key_equal_lem :
    (seen : Bool) (key k : List ℕ)
    → is_empty key ≡ false
    → is_empty k ≡ false
    → key_equal seen key k ≡ some (same key k)
key_equal_lem seen [] k h h' = cc
key_equal_lem seen (c ∷ key) [] h h' = cc
key_equal_lem true (c ∷ key) (c' ∷ k) h h' = refl
key_equal_lem false (c ∷ key) (c' ∷ k) h h' = refl

pub add_steps_lem :
    (seen : Bool) (ks : List (List ℕ)) (val : List ℕ) (nodes : Nodes)
    → HasKeys ks
    → IsNamed nodes
    → add_steps seen ks val nodes ≡ some (added ks val nodes)
unfolding add_steps added
add_steps_lem seen [] val nodes keys named = refl
add_steps_lem seen (k ∷ ks) val nil (key_k, keys) named =
    rw (add_steps_lem (has_block seen k) ks val nil keys tt) refl
add_steps_lem seen (k ∷ ks) val (node key old child next) (key_k, keys)
      (named, named_child, named_next) =
    ground (
      arith,
      key_equal_lem seen key k named key_k,
      add_steps_lem (has_block seen k) ks val child keys named_child,
      add_steps_lem seen (k ∷ ks) val next (key_k, keys) named_next,
    )

pub added-IsNamed :
    (ks : List (List ℕ)) (val : List ℕ) (nodes : Nodes)
    → HasKeys ks
    → IsNamed nodes
    → IsNamed (added ks val nodes)
unfolding added
added-IsNamed [] val nodes keys named = named
added-IsNamed (k ∷ ks) val nil (key_k, keys) named = (key_k, added-IsNamed ks val nil keys tt, tt)
added-IsNamed (k ∷ ks) val (node key old child next) (key_k, keys)
      (named, named_child, named_next) =
    let inner = added-IsNamed ks val child keys named_child in
    let behind = added-IsNamed (k ∷ ks) val next (key_k, keys) named_next in ground arith

pub lookup-added :
    (k' : List ℕ) (ks' : List (List ℕ)) (k : List ℕ) (ks : List (List ℕ)) (val : List ℕ)
    (nodes : Nodes)
    → lookup (k' ∷ ks') (added (k ∷ ks) val nodes)
      ≡ value_after (compare_paths (k' ∷ ks') (k ∷ ks)) val (lookup (k' ∷ ks') nodes)
unfolding lookup added compare_paths
lookup-added k' [] k [] val nil = ground arith
lookup-added k' [] k (k2 ∷ ks) val nil = ground arith
lookup-added k' (k2' ∷ ks') k [] val nil = ground arith
lookup-added k' (k2' ∷ ks') k (k2 ∷ ks) val nil = ground (arith, lookup-added k2' ks' k2 ks val nil)
lookup-added k' [] k [] val (node key old child next) =
    ground (arith, same_iff key k, same_iff key k', same_iff k k', lookup-added k' [] k [] val next)
lookup-added k' [] k (k2 ∷ ks) val (node key old child next) =
    ground (
      arith,
      same_iff key k,
      same_iff key k',
      same_iff k k',
      lookup-added k' [] k (k2 ∷ ks) val next,
    )
lookup-added k' (k2' ∷ ks') k [] val (node key old child next) = ground (
  arith,
  same_iff key k,
  same_iff key k',
  same_iff k k',
  lookup-added k' (k2' ∷ ks') k [] val next,
)
lookup-added k' (k2' ∷ ks') k (k2 ∷ ks) val (node key old child next) = ground (
  arith,
  same_iff key k,
  same_iff key k',
  same_iff k k',
  lookup-added k2' ks' k2 ks val child,
  lookup-added k' (k2' ∷ ks') k (k2 ∷ ks) val next,
)
