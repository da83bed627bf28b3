-- ===== src/Avl/Order.antt =====
-- Lists in the order of a comparison such as `node_cmp` of src/avl_generic.c.
use spdy_test.Prelude.{List, [], ◌∷◌, ◌++◌, ◌≡◌}
use Prim.Native.Nat.{Ordering}

-- What a comparison owes its callers.
pub record IsOrder {K : Type 0} (node_cmp : K → K → Ordering) : Type 0 where
  pub flip : (x y : K) → node_cmp x y ≡ Ordering.gt → node_cmp y x ≡ Ordering.lt
  pub trans :
      (x y z : K)
      → node_cmp x y ≡ Ordering.lt
      → node_cmp y z ≡ Ordering.lt
      → node_cmp x z ≡ Ordering.lt

module _ {K : Type 0} (node_cmp : K → K → Ordering) where
  abbrev pub AllBelow : K → List K → Type 0
  AllBelow x [] = Unit
  AllBelow x (y ∷ ys) = (node_cmp y x ≡ Ordering.lt) × AllBelow x ys

  abbrev pub AllAbove : K → List K → Type 0
  AllAbove x [] = Unit
  AllAbove x (y ∷ ys) = (node_cmp x y ≡ Ordering.lt) × AllAbove x ys

  abbrev pub IsSorted : List K → Type 0
  IsSorted [] = Unit
  IsSorted (x ∷ xs) = AllAbove x xs × IsSorted xs

  -- `child` put between what is below it and what is above it.
  pub record IsInserted (child : K) (old new : List K) : Type 0 where
    pub before : List K
    pub after : List K
    pub split : old ≡ before ++ after
    pub joined : new ≡ before ++ (child ∷ after)
    pub below : AllBelow child before
    pub above : AllAbove child after

  -- A member that the comparison does not tell from `child`.
  pub record IsPresent (child : K) (old : List K) : Type 0 where
    pub before : List K
    pub member : K
    pub after : List K
    pub split : old ≡ before ++ (member ∷ after)
    pub same : node_cmp child member ≡ Ordering.eq

module _ {K : Type 0} (node_cmp : K → K → Ordering) where
  pub AllAbove-append :
      (x : K) (xs ys : List K)
      → AllAbove node_cmp x xs
      → AllAbove node_cmp x ys
      → AllAbove node_cmp x (xs ++ ys)
  AllAbove-append x [] ys h k = k
  AllAbove-append x (z ∷ xs) ys (p, h) k = (p, AllAbove-append x xs ys h k)

  pub AllBelow-append :
      (x : K) (xs ys : List K)
      → AllBelow node_cmp x xs
      → AllBelow node_cmp x ys
      → AllBelow node_cmp x (xs ++ ys)
  AllBelow-append x [] ys h k = k
  AllBelow-append x (z ∷ xs) ys (p, h) k = (p, AllBelow-append x xs ys h k)

  pub AllAbove-split :
      (x : K) (xs ys : List K)
      → AllAbove node_cmp x (xs ++ ys)
      → AllAbove node_cmp x xs × AllAbove node_cmp x ys
  AllAbove-split x [] ys h = (tt, h)
  AllAbove-split x (z ∷ xs) ys (p, h) = let (a, b) = AllAbove-split x xs ys h in ((p, a), b)

  -- The parts of a sorted list around one of its members.
  pub IsSorted-around :
      (xs : List K) (k : K) (ys : List K)
      → IsSorted node_cmp (xs ++ (k ∷ ys))
      → IsSorted node_cmp xs
        × AllBelow node_cmp k xs
        × AllAbove node_cmp k ys
        × IsSorted node_cmp ys
  IsSorted-around [] k ys (above, h) = (tt, tt, above, h)
  IsSorted-around (x ∷ xs) k ys (above, h) =
      let (sorted, below, above', rest) = IsSorted-around xs k ys h in
      let (a, b) = AllAbove-split x xs (k ∷ ys) above in ((a, sorted), (b.0, below), above', rest)

  module _ (order : IsOrder node_cmp) where
    pub AllAbove-trans :
        (x y : K) (ys : List K)
        → node_cmp x y ≡ Ordering.lt
        → AllAbove node_cmp y ys
        → AllAbove node_cmp x ys
    AllAbove-trans x y [] h k = tt
    AllAbove-trans x y (z ∷ ys) h (p, k) = (order.trans x y z h p, AllAbove-trans x y ys h k)

    pub AllBelow-trans :
        (x y : K) (xs : List K)
        → node_cmp x y ≡ Ordering.lt
        → AllBelow node_cmp x xs
        → AllBelow node_cmp y xs
    AllBelow-trans x y [] h k = tt
    AllBelow-trans x y (z ∷ xs) h (p, k) = (order.trans z x y p h, AllBelow-trans x y xs h k)

    pub IsSorted-insert :
        (xs : List K) (k : K) (ys : List K)
        → IsSorted node_cmp (xs ++ ys)
        → AllBelow node_cmp k xs
        → AllAbove node_cmp k ys
        → IsSorted node_cmp (xs ++ (k ∷ ys))
    IsSorted-insert [] k ys h below above = (above, h)
    IsSorted-insert (x ∷ xs) k ys (first, h) (p, below) above =
        let (a, b) = AllAbove-split x xs ys first in
        (AllAbove-append x xs (k ∷ ys) a (p, b), IsSorted-insert xs k ys h below above)
