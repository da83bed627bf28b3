-- ===== src/Buffer/Edit.antt =====
-- The operations of src/buffer.c that shorten a buffer or change it in place.
use spdy_test.Prelude.{
  ℕ, ◌+◌, ◌-◌, ◌^◌, List, [], ◌∷◌, Option, none, some, leb, ◌==◌, if◌then◌else◌, ◌>>=◌,
}
use Prim.Native.Nat.{min}
use spdy_test.Ret.{Ret}
use spdy_test.Buffer.{Buffer, u32, clean}
use spdy_test.Buffer.Mem.{slice, blit}

-- What `clean` answers where the code returns ret_ok after it.
abbrev pub cleaned : Buffer → Option (Ret × Buffer)
cleaned b = do b' ← clean b; some (Ret.ok, b')

-- The bytes from `pos` on, the terminator among them, go to the front.
unfoldable pub move_to_begin : Buffer → ℕ → Option (Ret × Buffer)
move_to_begin b pos = if leb b.len pos then cleaned b else do
  m ← b.buf
  rest ← slice m pos (b.len - pos + 1)
  m' ← blit m 0 rest
  some (Ret.ok, record b { buf = some m'; len = b.len - pos })

unfoldable pub drop_ending : Buffer → ℕ → Option (Ret × Buffer)
drop_ending b num_chars = elim b.buf [
  | none ↦ some (Ret.ok, b)
  | some m ↦ do
    let num = min num_chars b.len
    m' ← blit m (b.len - num) (0 ∷ [])
    some (Ret.ok, record b { buf = some m'; len = b.len - num })
]

-- `begin` and `end` are the offsets of the chunk; what follows it, the terminator among it, moves
-- down. A length that the pointer difference makes negative is an access outside the block.
unfoldable pub remove_chunk : Buffer → ℕ → ℕ → Option (Ret × Buffer)
remove_chunk b from len = if len == b.len then cleaned b else do
  m ← b.buf
  let begin = from
  let end = begin + len
  rest ← (if leb end b.len then slice m end (b.len - end + 1) else none)
  m' ← blit m begin rest
  some (Ret.ok, record b { buf = some m'; len = u32 (b.len + 2 ^ 32 - len) })

-- The loop over the `i`th byte for `i < len`, as one pass over these bytes.
unfoldable pub swap_in : ℕ → ℕ → List ℕ → List ℕ
swap_in x y [] = []
swap_in x y (c ∷ cs) = (if c == x then y else c) ∷ swap_in x y cs

unfoldable pub swap_chars : Buffer → ℕ → ℕ → Option (Ret × Buffer)
unfolding swap_in
swap_chars b x y = elim b.buf [
  | none ↦ some (Ret.ok, b)
  | some m ↦ do
    cs ← slice m 0 b.len
    m' ← blit m 0 (swap_in x y cs)
    some (Ret.ok, record b { buf = some m' })
]
