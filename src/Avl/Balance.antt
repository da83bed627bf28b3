-- ===== src/Avl/Balance.antt =====
-- Insertion into the trees of src/avl_generic.c keeps them balanced.
use spdy_test.Prelude.{
  ℕ, zero, suc, ◌+◌, ◌<◌, ◌≤◌, Bool, true, false, if◌then◌else◌, ◌≡◌, refl, arith,
}
use spdy_test.Buffer.Slice.{ℤ, pos, negsuc}
use spdy_test.Avl.Int.{pos_part, neg_part, ◌+ℤ◌, ◌-ℤ◌, IsDiff}
use spdy_test.Avl.{
  Tree, leaf, node, height, rotate_left, rotate_right, node_balance, settle, on_left, on_right,
  balance_of,
}

-- Right balances, each of them -1, 0 or 1.
abbrev pub IsAvl : {K : Type 0} → Tree K → Type 0
IsAvl leaf = Unit
IsAvl (node l k b r) =
    IsDiff b (height l) (height r) × (pos_part b ≤ 1) × (neg_part b ≤ 1) × IsAvl l × IsAvl r

abbrev pub IsTilted : {K : Type 0} → Tree K → Type 0
IsTilted t = 0 < pos_part (balance_of t) + neg_part (balance_of t)

-- What rebalancing a node leaves, whose higher child has the height `h`.
abbrev Levels : {K : Type 0} → Tree K → ℕ → Type 0
Levels t h = IsAvl t × (height t ≡ h) × (balance_of t ≡ pos 0)

module _ {K : Type 0} where
  heavy_left :
      (l : Tree K) (k : K) (r : Tree K)
      → IsAvl l
      → IsAvl r
      → height l ≡ height r + 2
      → IsTilted l
      → Levels (node_balance (node l k (negsuc 1) r)) (height l)
  unfolding node_balance rotate_left rotate_right height ◌+ℤ◌ ◌-ℤ◌
  heavy_left leaf k r al ar h t = absurd (omega arith)
  heavy_left (node a j (negsuc zero) c) k r al ar h t = ground arith
  heavy_left (node a j (negsuc (suc n)) c) k r al ar h t = absurd (omega arith)
  heavy_left (node a j (pos zero) c) k r al ar h t = absurd (omega arith)
  heavy_left (node a j (pos (suc zero)) leaf) k r al ar h t = absurd (omega arith)
  heavy_left (node a j (pos (suc zero)) (node m i (pos zero) n)) k r al ar h t = ground arith
  heavy_left (node a j (pos (suc zero)) (node m i (pos (suc zero)) n)) k r al ar h t = ground arith
  heavy_left (node a j (pos (suc zero)) (node m i (pos (suc (suc q))) n)) k r al ar h t =
      absurd (omega arith)
  heavy_left (node a j (pos (suc zero)) (node m i (negsuc zero) n)) k r al ar h t = ground arith
  heavy_left (node a j (pos (suc zero)) (node m i (negsuc (suc q)) n)) k r al ar h t =
      absurd (omega arith)
  heavy_left (node a j (pos (suc (suc q))) c) k r al ar h t = absurd (omega arith)

  heavy_right :
      (l : Tree K) (k : K) (r : Tree K)
      → IsAvl l
      → IsAvl r
      → height r ≡ height l + 2
      → IsTilted r
      → Levels (node_balance (node l k (pos 2) r)) (height r)
  unfolding node_balance rotate_left rotate_right height ◌+ℤ◌ ◌-ℤ◌
  heavy_right l k leaf al ar h t = absurd (omega arith)
  heavy_right l k (node a j (pos (suc zero)) c) al ar h t = ground arith
  heavy_right l k (node a j (pos (suc (suc n))) c) al ar h t = absurd (omega arith)
  heavy_right l k (node a j (pos zero) c) al ar h t = absurd (omega arith)
  heavy_right l k (node leaf j (negsuc zero) c) al ar h t = absurd (omega arith)
  heavy_right l k (node (node m i (pos zero) n) j (negsuc zero) c) al ar h t = ground arith
  heavy_right l k (node (node m i (pos (suc zero)) n) j (negsuc zero) c) al ar h t = ground arith
  heavy_right l k (node (node m i (pos (suc (suc q))) n) j (negsuc zero) c) al ar h t =
      absurd (omega arith)
  heavy_right l k (node (node m i (negsuc zero) n) j (negsuc zero) c) al ar h t = ground arith
  heavy_right l k (node (node m i (negsuc (suc q)) n) j (negsuc zero) c) al ar h t =
      absurd (omega arith)
  heavy_right l k (node a j (negsuc (suc q)) c) al ar h t = absurd (omega arith)

-- What one insertion leaves of a tree: the height grows by one exactly where the loop goes on, and a
-- tree that grew leans to a side, but for a single node.
abbrev pub Grows : {K : Type 0} → Tree K → Tree K × Bool → Type 0
Grows t (t', go_on) =
    IsAvl t'
    × (height t' ≡ height t + (if go_on then 1 else 0))
    × (go_on ≡ true → 1 < height t' → IsTilted t')

module _ {K : Type 0} where
  pub Grows-on_left :
      (l l' : Tree K) (go_on : Bool) (k : K) (b : ℤ) (r : Tree K)
      → IsAvl (node l k b r)
      → Grows l (l', go_on)
      → Grows (node l k b r) (on_left (l', go_on) k b r)
  unfolding settle height ◌-ℤ◌
  Grows-on_left l l' false k b r al (al', h, tilt) = (ground arith, ground arith, λ e. cc)
  Grows-on_left l l' true k (pos zero) r al (al', h, tilt) =
      (ground arith, ground arith, λ e lt. omega arith)
  Grows-on_left l l' true k (pos (suc zero)) r al (al', h, tilt) =
      (ground arith, ground arith, λ e. cc)
  Grows-on_left l l' true k (pos (suc (suc q))) r al g = absurd (omega arith)
  Grows-on_left l l' true k (negsuc zero) r al (al', h, tilt) =
      let (at, ht, bt) = heavy_left l' k r al' al.4 (omega arith) (tilt refl (omega arith)) in
      rw bt (at, omega (arith, ht), λ e. cc)
  Grows-on_left l l' true k (negsuc (suc q)) r al g = absurd (omega arith)

  pub Grows-on_right :
      (l : Tree K) (k : K) (b : ℤ) (r r' : Tree K) (go_on : Bool)
      → IsAvl (node l k b r)
      → Grows r (r', go_on)
      → Grows (node l k b r) (on_right l k b (r', go_on))
  unfolding settle height ◌+ℤ◌
  Grows-on_right l k b r r' false al (ar', h, tilt) = (ground arith, ground arith, λ e. cc)
  Grows-on_right l k (pos zero) r r' true al (ar', h, tilt) =
      (ground arith, ground arith, λ e lt. omega arith)
  Grows-on_right l k (negsuc zero) r r' true al (ar', h, tilt) =
      (ground arith, ground arith, λ e. cc)
  Grows-on_right l k (negsuc (suc q)) r r' true al g = absurd (omega arith)
  Grows-on_right l k (pos (suc zero)) r r' true al (ar', h, tilt) =
      let (at, ht, bt) = heavy_right l k r' al.3 ar' (omega arith) (tilt refl (omega arith)) in
      rw bt (at, omega (arith, ht), λ e. cc)
  Grows-on_right l k (pos (suc (suc q))) r r' true al g = absurd (omega arith)
