-- ===== src/Avl/Delete/Balance.antt =====
-- A deletion from the trees of src/avl_generic.c keeps them balanced.
use spdy_test.Prelude.{ℕ, zero, suc, ◌+◌, Bool, true, false, not, if◌then◌else◌, ◌≡◌, arith}
use spdy_test.Buffer.Slice.{ℤ, pos, negsuc}
use spdy_test.Avl.Int.{◌+ℤ◌, ◌-ℤ◌, ltz}
use spdy_test.Avl.{Tree, leaf, node, height, rotate_left, rotate_right, node_balance, balance_of}
use spdy_test.Avl.Balance.{IsAvl}
use spdy_test.Avl.Delete.{restore, off_left, off_right, take_next, take_out}

-- What one deletion leaves of a tree: the height falls by one exactly where the loop goes on.
abbrev pub Shrinks : {K : Type 0} → Tree K → Tree K × Bool → Type 0
Shrinks t (t', go_on) = IsAvl t' × (height t ≡ height t' + (if go_on then 1 else 0))

-- What rebalancing leaves of a node whose higher child has the height `h`.
abbrev Restored : {K : Type 0} → Tree K → ℕ → Type 0
Restored t h =
    IsAvl t
    × (h + 1
        ≡ height t
          + (if (if ltz (balance_of t) (pos 0) then false else not (ltz (pos 0) (balance_of t)))
              then 1
              else 0))

module _ {K : Type 0} where
  light_right :
      (l : Tree K) (k : K) (r : Tree K)
      → IsAvl l
      → IsAvl r
      → height l ≡ height r + 2
      → Restored (node_balance (node l k (negsuc 1) r)) (height l)
  unfolding node_balance rotate_left rotate_right height ◌+ℤ◌ ◌-ℤ◌
  light_right leaf k r al ar h = absurd (omega arith)
  light_right (node a j (negsuc zero) c) k r al ar h = ground arith
  light_right (node a j (negsuc (suc n)) c) k r al ar h = absurd (omega arith)
  light_right (node a j (pos zero) c) k r al ar h = ground arith
  light_right (node a j (pos (suc zero)) leaf) k r al ar h = absurd (omega arith)
  light_right (node a j (pos (suc zero)) (node m i (pos zero) n)) k r al ar h = ground arith
  light_right (node a j (pos (suc zero)) (node m i (pos (suc zero)) n)) k r al ar h = ground arith
  light_right (node a j (pos (suc zero)) (node m i (pos (suc (suc q))) n)) k r al ar h =
      absurd (omega arith)
  light_right (node a j (pos (suc zero)) (node m i (negsuc zero) n)) k r al ar h = ground arith
  light_right (node a j (pos (suc zero)) (node m i (negsuc (suc q)) n)) k r al ar h =
      absurd (omega arith)
  light_right (node a j (pos (suc (suc q))) c) k r al ar h = absurd (omega arith)

  light_left :
      (l : Tree K) (k : K) (r : Tree K)
      → IsAvl l
      → IsAvl r
      → height r ≡ height l + 2
      → Restored (node_balance (node l k (pos 2) r)) (height r)
  unfolding node_balance rotate_left rotate_right height ◌+ℤ◌ ◌-ℤ◌
  light_left l k leaf al ar h = absurd (omega arith)
  light_left l k (node a j (pos (suc zero)) c) al ar h = ground arith
  light_left l k (node a j (pos (suc (suc n))) c) al ar h = absurd (omega arith)
  light_left l k (node a j (pos zero) c) al ar h = ground arith
  light_left l k (node leaf j (negsuc zero) c) al ar h = absurd (omega arith)
  light_left l k (node (node m i (pos zero) n) j (negsuc zero) c) al ar h = ground arith
  light_left l k (node (node m i (pos (suc zero)) n) j (negsuc zero) c) al ar h = ground arith
  light_left l k (node (node m i (pos (suc (suc q))) n) j (negsuc zero) c) al ar h =
      absurd (omega arith)
  light_left l k (node (node m i (negsuc zero) n) j (negsuc zero) c) al ar h = ground arith
  light_left l k (node (node m i (negsuc (suc q)) n) j (negsuc zero) c) al ar h =
      absurd (omega arith)
  light_left l k (node a j (negsuc (suc q)) c) al ar h = absurd (omega arith)

  pub Shrinks-off_left :
      (l l' : Tree K) (go_on : Bool) (k : K) (b : ℤ) (r : Tree K)
      → IsAvl (node l k b r)
      → Shrinks l (l', go_on)
      → Shrinks (node l k b r) (off_left (l', go_on) k b r)
  unfolding restore height ◌+ℤ◌
  Shrinks-off_left l l' false k b r al (al', h) = (ground arith, ground arith)
  Shrinks-off_left l l' true k (pos zero) r al (al', h) = (ground arith, ground arith)
  Shrinks-off_left l l' true k (negsuc zero) r al (al', h) = (ground arith, ground arith)
  Shrinks-off_left l l' true k (negsuc (suc q)) r al g = absurd (omega arith)
  Shrinks-off_left l l' true k (pos (suc zero)) r al (al', h) =
      let (at, ht) = light_left l' k r al' al.4 (omega arith) in (at, ground (arith, ht))
  Shrinks-off_left l l' true k (pos (suc (suc q))) r al g = absurd (omega arith)

  pub Shrinks-off_right :
      (l : Tree K) (k : K) (b : ℤ) (r r' : Tree K) (go_on : Bool)
      → IsAvl (node l k b r)
      → Shrinks r (r', go_on)
      → Shrinks (node l k b r) (off_right l k b (r', go_on))
  unfolding restore height ◌-ℤ◌
  Shrinks-off_right l k b r r' false al (ar', h) = (ground arith, ground arith)
  Shrinks-off_right l k (pos zero) r r' true al (ar', h) = (ground arith, ground arith)
  Shrinks-off_right l k (pos (suc zero)) r r' true al (ar', h) = (ground arith, ground arith)
  Shrinks-off_right l k (pos (suc (suc q))) r r' true al g = absurd (omega arith)
  Shrinks-off_right l k (negsuc zero) r r' true al (ar', h) =
      let (at, ht) = light_right l k r' al.3 ar' (omega arith) in (at, ground (arith, ht))
  Shrinks-off_right l k (negsuc (suc q)) r r' true al g = absurd (omega arith)

  pub Shrinks-take_next :
      (l : Tree K) (k : K) (b : ℤ) (r : Tree K)
      → IsAvl (node l k b r)
      → Shrinks (node l k b r) (take_next l k b r).1
  unfolding take_next height
  Shrinks-take_next leaf k b r al = (al.4, omega arith)
  Shrinks-take_next (node a j c d) k b r al =
      let (next, (l', go_on)) = take_next a j c d in
      Shrinks-off_left (node a j c d) (take_next a j c d).1.0 (take_next a j c d).1.1 k b r al
        (Shrinks-take_next a j c d al.3)

  pub Shrinks-take_out :
      (l : Tree K) (k : K) (b : ℤ) (r : Tree K)
      → IsAvl (node l k b r)
      → Shrinks (node l k b r) (take_out l b r)
  unfolding take_out height
  Shrinks-take_out leaf k b r al = (al.4, omega arith)
  Shrinks-take_out (node a j c d) k b leaf al = (al.3, omega arith)
  Shrinks-take_out (node a j c d) k b (node l i e r) al =
      Shrinks-off_right (node a j c d) (take_next l i e r).0 b (node l i e r)
        (take_next l i e r).1.0 (take_next l i e r).1.1 al (Shrinks-take_next l i e r al.4)
