-- ===== src/Avl/Height.antt =====
-- The `path` array of node_add in src/avl_generic.c has MAX_HEIGHT places: a balanced tree is not
-- higher before it has 2 ^ 23 - 1 nodes.
use spdy_test.Prelude.{
  ℕ, zero, suc, ◌+◌, ◌-◌, ◌*◌, ◌^◌, ◌<◌, ◌≤◌, List, [], ◌∷◌, ◌≡◌, refl, sym, ◌⊎◌, inl, inr, arith,
  length, length-append, subst,
}
use Prim.Native.Nat.{Ordering, max}
use native.Mathlib.Nat.{add-zero, add-suc}
use spdy_test.Avl.{Tree, leaf, node, height, path_places, add_places}
use spdy_test.Avl.Balance.{IsAvl}
use spdy_test.Avl.Insert.{elements}

-- `MAX_HEIGHT`
abbrev pub max_height : ℕ
max_height = 45

-- Two to the power of half the number.
nodes_for : ℕ → ℕ
nodes_for zero = 1
nodes_for (suc zero) = 1
nodes_for (suc (suc n)) = nodes_for n * 2

nodes_for_steps :
    (n : ℕ) → (nodes_for n ≤ nodes_for (suc n)) × (nodes_for (suc n) ≤ nodes_for n * 2)
unfolding nodes_for
nodes_for_steps zero = omega arith
nodes_for_steps (suc zero) = omega arith
nodes_for_steps (suc (suc n)) = omega (arith, nodes_for_steps n)

two_more : (n : ℕ) → nodes_for (suc (suc n)) ≤ nodes_for (suc n) + nodes_for n
unfolding nodes_for
two_more n = omega (arith, nodes_for_steps n)

nodes_for_46 : nodes_for 46 ≡ 2 ^ 23
unfolding nodes_for
nodes_for_46 = refl

three : (x y : ℕ) → x ≤ y + 1 → y ≤ x + 1 → (x ≡ y) ⊎ (x ≡ suc y) ⊎ (y ≡ suc x)
three x y h k = ground arith

le_or_lt : (x y : ℕ) → (x ≤ y) ⊎ (y < x)
le_or_lt x y = ground arith

nodes_for_mono : (n k : ℕ) → nodes_for n ≤ nodes_for (n + k)
nodes_for_mono n zero = rw add-zero (omega arith)
nodes_for_mono n (suc k) = rw add-suc (omega (arith, nodes_for_mono n k, nodes_for_steps (n + k)))

-- A node over two children whose heights differ by one at most.
nodes_for_node :
    (x y : ℕ) → x ≤ y + 1 → y ≤ x + 1 → nodes_for (max x y + 1) ≤ nodes_for x + nodes_for y
nodes_for_node x y h k = elim (three x y h k) [
  | inl e ↦
      let e' : max x y + 1 ≡ suc x = omega arith in
      subst (λ i. nodes_for i ≤ nodes_for x + nodes_for y) (sym e')
        (subst (λ i. nodes_for (suc x) ≤ nodes_for x + nodes_for i) e
          (omega (arith, nodes_for_steps x)))
  | inr (inl e) ↦
      let e' : max x y + 1 ≡ suc (suc y) = omega arith in
      subst (λ i. nodes_for i ≤ nodes_for x + nodes_for y) (sym e')
        (subst (λ i. nodes_for (suc (suc y)) ≤ nodes_for i + nodes_for y) (sym e) (two_more y))
  | inr (inr e) ↦
      let e' : max x y + 1 ≡ suc (suc x) = omega arith in
      subst (λ i. nodes_for i ≤ nodes_for x + nodes_for y) (sym e')
        (subst (λ i. nodes_for (suc (suc x)) ≤ nodes_for x + nodes_for i) (sym e)
          (omega (arith, two_more x)))
]

height-nodes : {K : Type 0} (t : Tree K) → IsAvl t → nodes_for (height t) ≤ length (elements t) + 1
unfolding height elements
height-nodes leaf al = unfold nodes_for in omega arith
height-nodes (node l k b r) (diff, up, down, al, ar) = omega (
  arith,
  nodes_for_node (height l) (height r) (omega arith) (omega arith),
  height-nodes l al,
  height-nodes r ar,
  length-append (elements l) (k ∷ elements r),
)

height-le-max_height :
    {K : Type 0} (t : Tree K) → IsAvl t → length (elements t) + 1 < 2 ^ 23 → height t ≤ max_height
height-le-max_height t al few = elim (le_or_lt (height t) max_height) [
  | inl le ↦ le
  | inr lt ↦
      let e : 46 + (height t - 46) ≡ height t = omega arith in
      let high : nodes_for 46 ≤ nodes_for (height t) =
        subst (λ n. nodes_for 46 ≤ nodes_for n) e (nodes_for_mono 46 (height t - 46)) in
      absurd (omega (arith, high, nodes_for_46, height-nodes t al))
]

abbrev pub AllUnder : ℕ → List ℕ → Type 0
AllUnder n [] = Unit {0}
AllUnder n (p ∷ ps) = (p < n) × AllUnder n ps

module _ {K : Type 0} (node_cmp : K → K → Ordering) where
  places_lem :
      (idx n : ℕ) (child : K) (t : Tree K)
      → idx + height t ≤ n + 1
      → AllUnder n (path_places node_cmp idx child t)
  unfolding path_places height
  places_lem idx n child leaf h = tt
  places_lem idx n child (node leaf k b leaf) h = ground arith
  places_lem idx n child (node leaf k b (node rl rk rb rr)) h =
      ground (arith, places_lem (idx + 1) n child (node rl rk rb rr))
  places_lem idx n child (node (node ll lk lb lr) k b leaf) h =
      ground (arith, places_lem (idx + 1) n child (node ll lk lb lr))
  places_lem idx n child (node (node ll lk lb lr) k b (node rl rk rb rr)) h = ground (
    arith,
    places_lem (idx + 1) n child (node ll lk lb lr),
    places_lem (idx + 1) n child (node rl rk rb rr),
  )

  -- In a balanced tree of fewer than 2 ^ 23 - 1 nodes, node_add writes to no place of `path` from
  -- MAX_HEIGHT on, whatever the key.
  pub add_places-under_max :
      (t : Tree K) (child : K)
      → IsAvl t
      → length (elements t) + 1 < 2 ^ 23
      → AllUnder max_height (add_places node_cmp child t)
  unfolding add_places
  add_places-under_max t child al few =
      let low = height-le-max_height t al few in
      (omega arith, places_lem 1 max_height child t (omega arith))
