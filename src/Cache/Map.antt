-- ===== src/Cache/Map.antt =====
-- The lookup table and the lists of src/cache.c: an association list for the AVL tree, and lists of
-- keys for the intrusive lists.
use spdy_test.Prelude.{
  ℕ, ◌+◌, ◌≤◌, List, [], ◌∷◌, Option, none, some, Bool, true, false, ◌||◌, ◌==◌, if◌then◌else◌, ◌≡◌,
  refl, arith, length,
}

-- http2d_avl_get, a change of the object that is found, and http2d_avl_del.
unfoldable pub find {ℓ} : {A : Type ℓ} → List (ℕ × A) → ℕ → Option A
find [] k = none
find ((j, e) ∷ m) k = if j == k then some e else find m k

unfoldable pub change {ℓ} : {A : Type ℓ} → (A → A) → ℕ → List (ℕ × A) → List (ℕ × A)
change f k [] = []
change f k ((j, e) ∷ m) = (j, if j == k then f e else e) ∷ change f k m

unfoldable pub erase {ℓ} : {A : Type ℓ} → ℕ → List (ℕ × A) → List (ℕ × A)
erase k [] = []
erase k ((j, e) ∷ m) = if j == k then erase k m else ((j, e) ∷ erase k m)

abbrev pub mem : ℕ → List ℕ → Bool
mem k [] = false
mem k (x ∷ xs) = x == k || mem k xs

-- http2d_list_del
unfoldable pub remove : ℕ → List ℕ → List ℕ
remove k [] = []
remove k (x ∷ xs) = if x == k then xs else x ∷ remove k xs

-- `list.prev`, the oldest entry.
unfoldable pub last : List ℕ → Option ℕ
last [] = none
last (x ∷ []) = some x
last (x ∷ y ∷ xs) = last (y ∷ xs)

abbrev pub map_option {ℓ} : {A : Type ℓ} → (A → A) → Option A → Option A
map_option f none = none
map_option f (some a) = some (f a)

module _ {ℓ} {A : Type ℓ} where
  pub find-change :
      (f : A → A) (j : ℕ) (m : List (ℕ × A)) (k : ℕ)
      → find (change f j m) k ≡ (if j == k then map_option f (find m k) else find m k)
  unfolding find change
  find-change f j [] k = ground arith
  find-change f j ((i, e) ∷ m) k = ground (arith, find-change f j m k)

  pub find-erase :
      (j : ℕ) (m : List (ℕ × A)) (k : ℕ) → find (erase j m) k ≡ (if j == k then none else find m k)
  unfolding find erase
  find-erase j [] k = ground arith
  find-erase j ((i, e) ∷ m) k = ground (arith, find-erase j m k)

pub mem-remove : (k j : ℕ) (xs : List ℕ) → (j == k) ≡ false → mem k (remove j xs) ≡ mem k xs
unfolding remove
mem-remove k j [] h = refl
mem-remove k j (x ∷ xs) h = ground (arith, mem-remove k j xs h)

pub length-remove : (k : ℕ) (xs : List ℕ) → mem k xs ≡ true → length (remove k xs) + 1 ≡ length xs
unfolding remove
length-remove k [] h = cc
length-remove k (x ∷ xs) h = ground (arith, length-remove k xs)

pub mem-last : (xs : List ℕ) {k : ℕ} → last xs ≡ some k → mem k xs ≡ true
unfolding last
mem-last [] h = cc
mem-last (x ∷ []) h = ground arith
mem-last (x ∷ y ∷ xs) h = ground (arith, mem-last (y ∷ xs) h)

-- A list with an entry has an oldest one.
pub last-some : (xs : List ℕ) → 1 ≤ length xs → (k : ℕ) × (last xs ≡ some k)
unfolding last
last-some [] h = absurd (omega arith)
last-some (x ∷ []) h = (x, refl)
last-some (x ∷ y ∷ xs) h = last-some (y ∷ xs) (omega arith)

pub last-none : (xs : List ℕ) → last xs ≡ none → length xs ≡ 0
unfolding last
last-none [] h = refl
last-none (x ∷ []) h = cc
last-none (x ∷ y ∷ xs) h = cc (last-none (y ∷ xs) h)

pub last_empty : (xs : List ℕ) → length xs ≡ 0 → last xs ≡ none
unfolding last
last_empty [] h = refl
last_empty (x ∷ xs) h = absurd (omega arith)
