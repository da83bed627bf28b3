-- ===== src/Buffer/Mem.antt =====
-- Blocks of memory, as the C library gives them to src/buffer.c: reads and writes inside a block,
-- and (re)allocation, which may fail and whose fresh bytes are arbitrary.
use spdy_test.Prelude.{
  ℕ, zero, suc, ◌+◌, ◌-◌, ◌≤◌, List, [], ◌∷◌, ◌++◌, Option, none, some, Bool, leb, if◌then◌else◌,
  length, take, drop, ◌≡◌, refl, ap, arith, length-append, length-take, le→leb, take_of_length-le,
}

-- What malloc and realloc do at one call: whether a request of `n` bytes is met, and which bytes
-- stand in memory that was not written yet.
pub record Alloc : Type 0 where
  pub grant : ℕ → Bool
  pub fill : ℕ → ℕ

-- `n` fresh bytes from index `i` on.
abbrev pub fresh : (ℕ → ℕ) → ℕ → ℕ → List ℕ
fresh fill i zero = []
fresh fill i (suc n) = fill i ∷ fresh fill (suc i) n

-- The bytes that a pointer gives access to.
abbrev pub bytes : Option (List ℕ) → List ℕ
bytes none = []
bytes (some m) = m

-- `realloc (old, n)`, and `malloc (n)` where `old` is NULL: the old bytes stay, as far as they fit.
unfoldable pub realloc : Alloc → Option (List ℕ) → ℕ → Option (List ℕ)
realloc a old n =
    if a.grant n
    then some (take n (bytes old) ++ fresh a.fill (length (bytes old)) (n - length (bytes old)))
    else none

-- `n` bytes at `off`, as the source of a memcpy.
unfoldable pub slice : List ℕ → ℕ → ℕ → Option (List ℕ)
slice m off n = if leb (off + n) (length m) then some (take n (drop off m)) else none

-- memcpy of `src` to `off`.
unfoldable pub blit : List ℕ → ℕ → List ℕ → Option (List ℕ)
blit m off src =
    if leb (off + length src) (length m)
    then some (take off m ++ (src ++ drop (off + length src) m))
    else none

length-fresh : (fill : ℕ → ℕ) (i n : ℕ) → length (fresh fill i n) ≡ n
length-fresh fill i zero = refl
length-fresh fill i (suc n) = ap suc (length-fresh fill (suc i) n)

-- Growing a block keeps its bytes in front.
pub realloc-grow :
    (a : Alloc) (old : Option (List ℕ)) (n : ℕ) {m : List ℕ}
    → length (bytes old) ≤ n
    → realloc a old n ≡ some m
    → (rest : List ℕ) × (m ≡ bytes old ++ rest) × (length m ≡ n)
unfolding realloc
realloc-grow a old n h e = (
  fresh a.fill (length (bytes old)) (n - length (bytes old)),
  ground (arith, take_of_length-le n (bytes old)),
  ground (
    arith,
    length-append (take n (bytes old)) (fresh a.fill (length (bytes old)) (n - length (bytes old))),
    length-take n (bytes old),
    length-fresh a.fill (length (bytes old)) (n - length (bytes old)),
  ),
)

pub slice_lem :
    (m : List ℕ) (off n : ℕ) → off + n ≤ length m → slice m off n ≡ some (take n (drop off m))
unfolding slice
slice_lem m off n h = rw (le→leb _ _ h)

pub blit_lem :
    (m : List ℕ) (off : ℕ) (src : List ℕ)
    → off + length src ≤ length m
    → blit m off src ≡ some (take off m ++ (src ++ drop (off + length src) m))
unfolding blit
blit_lem m off src h = rw (le→leb _ _ h)
