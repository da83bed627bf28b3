-- ===== src/ConfigNode/Lookup.antt =====
-- What http2d_config_node_get and _read of src/config_node.c find in the tree.
use spdy_test.Prelude.{
  ℕ, ◌≡◌, refl, ap, ◌∙◌, inl, inr, List, [], ◌∷◌, Option, none, some, Bool, true, false, ◌>>=◌,
  arith, Bool-cases, Option-cases, subst,
}
use spdy_test.Ret.{Ret}
use spdy_test.CString.{same}
use spdy_test.ConfigNode.{Nodes, nil, node, Config, is_empty, has_block, search_child, get_steps}
use spdy_test.ConfigNode.Added.{HasKeys, IsNamed, lookup, key_equal_lem}

-- The first node of a list with that key.
first : List ℕ → Nodes → Option Config
first k nil = none
first k (node key val child next) =
    let behind = first k next in
    elim (same key k) [
      | true ↦ some (record { key = key; val = val; child = child })
      | false ↦ behind
    ]

search_child_lem :
    (seen : Bool) (k : List ℕ) (nodes : Nodes)
    → is_empty k ≡ false
    → IsNamed nodes
    → search_child seen k nodes ≡ some (first k nodes)
unfolding search_child first
search_child_lem seen k nil key_k named = refl
search_child_lem seen k (node key val child next) key_k (named, named_child, named_next) =
    ground
      (arith, key_equal_lem seen key k named key_k, search_child_lem seen k next key_k named_next)

first-IsNamed :
    (k : List ℕ) (nodes : Nodes) (c : Config)
    → first k nodes ≡ some c
    → IsNamed nodes
    → IsNamed c.child
unfolding first
first-IsNamed k nil c found named = cc
first-IsNamed k (node key val child next) c found (named, named_child, named_next) =
    elim (Bool-cases (same key k)) [
      | inl here ↦
          let child_is : child ≡ c.child = ground arith in subst IsNamed child_is named_child
      | inr behind ↦ first-IsNamed k next c (ground arith) named_next
    ]

abbrev value_of : Option Config → Option (List ℕ)
value_of none = none
value_of (some c) = some c.val

abbrev children_of : Option Config → Nodes
children_of none = nil
children_of (some c) = c.child

abbrev pub read_of : Option (Ret × Config) → List ℕ → Option (Ret × List ℕ)
read_of found buf =
    found >>= (λ r. elim r.0 [ Ret.ok ↦ some (Ret.ok, r.1.val) | failed ↦ some (failed, buf) ])

-- A path of two steps and more goes on below the first node of its first key.
lookup_one : (k : List ℕ) (nodes : Nodes) → lookup (k ∷ []) nodes ≡ value_of (first k nodes)
unfolding lookup first
lookup_one k nil = refl
lookup_one k (node key val child next) = ground (arith, lookup_one k next)

lookup_more :
    (k k2 : List ℕ) (ks : List (List ℕ)) (nodes : Nodes)
    → lookup (k ∷ k2 ∷ ks) nodes ≡ lookup (k2 ∷ ks) (children_of (first k nodes))
unfolding lookup first
lookup_more k k2 ks nil = refl
lookup_more k k2 ks (node key val child next) = ground (arith, lookup_more k k2 ks next)

-- What http2d_config_node_read makes of the entry.
abbrev pub answer : Option (List ℕ) → List ℕ → Ret × List ℕ
answer none buf = (Ret.not_found, buf)
answer (some val) buf = (Ret.ok, val)

module _ (seen : Bool) (k : List ℕ) (ks : List (List ℕ)) (conf : Config)
    (key_k : is_empty k ≡ false) (named : IsNamed conf.child) where
  step_found :
      (c : Config)
      → first k conf.child ≡ some c
      → get_steps seen (k ∷ ks) conf ≡ get_steps (has_block seen k) ks c
  unfolding get_steps
  step_found c found = ground (arith, search_child_lem seen k conf.child key_k named)

  step_not_found :
      first k conf.child ≡ none → get_steps seen (k ∷ ks) conf ≡ some (Ret.not_found, conf)
  unfolding get_steps
  step_not_found found = ground (arith, search_child_lem seen k conf.child key_k named)

lookup_not_found :
    (k : List ℕ) (ks : List (List ℕ)) (nodes : Nodes)
    → first k nodes ≡ none
    → lookup (k ∷ ks) nodes ≡ none
unfolding lookup
lookup_not_found k [] nodes found = lookup_one k nodes ∙ ap value_of found
lookup_not_found k (k2 ∷ ks) nodes found =
    lookup_more k k2 ks nodes ∙ ap (λ c. lookup (k2 ∷ ks) (children_of c)) found

get_done : (seen : Bool) (c : Config) → get_steps seen [] c ≡ some (Ret.ok, c)
unfolding get_steps
get_done seen c = refl

-- The steps of http2d_config_node_get find what the tree holds as a finite map.
pub read_steps_lem :
    (seen : Bool) (k : List ℕ) (ks : List (List ℕ)) (conf : Config) (buf : List ℕ)
    → HasKeys (k ∷ ks)
    → IsNamed conf.child
    → read_of (get_steps seen (k ∷ ks) conf) buf ≡ some (answer (lookup (k ∷ ks) conf.child) buf)
read_steps_lem seen k [] conf buf (key_k, keys) named = elim (Option-cases (first k conf.child)) [
  | inl absent ↦
      rw (step_not_found seen k [] conf key_k named absent, lookup_not_found k [] conf.child absent)
        refl
  | inr (c, found) ↦
      rw
        (
          step_found seen k [] conf key_k named c found,
          get_done (has_block seen k) c,
          lookup_one k conf.child,
          found,
        )
        refl
]
read_steps_lem seen k (k2 ∷ ks) conf buf (key_k, keys) named =
    elim (Option-cases (first k conf.child)) [
      | inl absent ↦
          rw
            (
              step_not_found seen k (k2 ∷ ks) conf key_k named absent,
              lookup_not_found k (k2 ∷ ks) conf.child absent,
            )
            refl
      | inr (c, found) ↦
          rw
            (
              step_found seen k (k2 ∷ ks) conf key_k named c found,
              lookup_more k k2 ks conf.child,
              found,
            )
            (read_steps_lem (has_block seen k) k2 ks c buf keys
              (first-IsNamed k conf.child c found named))
    ]
