-- ===== src/Buffer/Text.antt =====
-- The operations of src/buffer.c on the text that a buffer holds: http2d_buffer_trim, to_lowcase,
-- insert, insert_buffer, is_ending, end_char and cmp_buf.
pub mod Trim
pub mod Insert
use spdy_test.Prelude.{
  ℕ, zero, suc, ◌+◌, ◌-◌, ◌^◌, List, [], ◌∷◌, Option, none, some, Bool, true, false, ◌&&◌, ◌||◌,
  not, ltb, leb, ◌==◌, if◌then◌else◌, ◌>>=◌, length, get_elem?, drop,
}
use spdy_test.Ret.{Ret}
use spdy_test.Buffer.{Buffer, u32, size_t, ensure_size}
use spdy_test.Buffer.Mem.{Alloc, bytes, slice, blit}
use spdy_test.Buffer.Slice.{ℤ, pos, negsuc}

abbrev pub is_blank : ℕ → Bool
is_blank c = c == b' ' || (c == 9 || (c == 13 || c == 10))

-- The loop over `s`: the number of blanks in front.
unfoldable pub count_blanks : List ℕ → ℕ
count_blanks [] = 0
count_blanks (c ∷ cs) = if is_blank c then suc (count_blanks cs) else 0

-- The loop over `e`, from the last byte on down; the first argument is the rounds left.
unfoldable pub count_end : ℕ → List ℕ → ℕ → Option ℕ
count_end zero text e = some e
count_end (suc n) text e = do
  c ← get_elem? text (length text - (e + 1))
  let rest = count_end n text (e + 1)
  if is_blank c then rest else some e

-- The string, as the loops read it.
abbrev pub text_of : Buffer → Option (List ℕ)
text_of b = slice (bytes b.buf) 0 b.len

-- The memmove of `len` bytes at `s` to the front, and the terminator.
unfoldable pub keep_middle : Buffer → ℕ → ℕ → Option (Ret × Buffer)
keep_middle b s len = do
  m ← b.buf
  middle ← slice m s len
  m' ← blit m 0 middle
  m'' ← blit m' len (0 ∷ [])
  some (Ret.ok, record b { buf = some m''; len = len })

unfoldable pub trim : Buffer → Option (Ret × Buffer)
trim b = if b.len == 0 then some (Ret.ok, b) else do
  text ← text_of b
  let s = count_blanks text
  e ← count_end (b.len - s) text 0
  keep_middle b s (b.len - (s + e))

unfoldable pub to_lower : ℕ → ℕ
to_lower c = if leb b'A' c && leb c b'Z' then c + (b'a' - b'A') else c

-- The loop of `to_lowcase`, as one pass.
unfoldable pub lowered : List ℕ → List ℕ
lowered [] = []
lowered (c ∷ cs) = to_lower c ∷ lowered cs

unfoldable pub to_lowcase : Buffer → Option (Ret × Buffer)
to_lowcase b = if b.len == 0 then some (Ret.ok, b) else do
  m ← b.buf
  text ← slice m 0 b.len
  m' ← blit m 0 (lowered text)
  some (Ret.ok, record b { buf = some m' })

-- Behind the growth. An offset past the end makes the memmove's length wrap: an access outside.
unfoldable pub insert_at : Buffer → List ℕ → ℕ → Option (Ret × Buffer)
insert_at b txt at = do
  m ← b.buf
  rest ← (if leb at b.len then slice m at (b.len - at) else none)
  m1 ← blit m (at + length txt) rest
  m2 ← blit m1 at txt
  m3 ← blit m2 (u32 (b.len + length txt)) (0 ∷ [])
  some (Ret.ok, record b { buf = some m3; len = u32 (b.len + length txt) })

-- The answer of http2d_buffer_ensure_size is not looked at.
unfoldable pub insert : Alloc → Buffer → List ℕ → ℕ → Option (Ret × Buffer)
insert a b txt at = insert_at (ensure_size a b (size_t (b.len + length txt + 1))).1 txt at

unfoldable pub insert_buffer : Alloc → Buffer → Buffer → ℕ → Option (Ret × Buffer)
insert_buffer a b src at = do txt ← slice (bytes src.buf) 0 src.len; insert a b txt at

-- The last byte; 0 stands for an empty buffer.
unfoldable pub end_char : Buffer → Option ℕ
end_char b = elim b.buf [
  | none ↦ some 0
  | some m ↦ if b.len == 0 then some 0 else get_elem? m (b.len - 1)
]

unfoldable pub is_ending : Buffer → ℕ → Option Bool
is_ending b c =
    if b.len == 0 then some false else do d ← get_elem? (bytes b.buf) (b.len - 1); some (d == c)

-- strncmp of `n` bytes, up to a NUL: the sign of the first difference. The bytes are unsigned.
unfoldable pub strncmp : ℕ → List ℕ → List ℕ → Option ℤ
strncmp zero xs ys = some (pos 0)
strncmp (suc n) [] ys = none
strncmp (suc n) (x ∷ xs) [] = none
strncmp (suc n) (x ∷ xs) (y ∷ ys) =
    let rest = strncmp n xs ys in
    if ltb x y
    then some (negsuc 0)
    else if ltb y x
    then some (pos 1)
    else if x == 0
    then some (pos 0)
    else rest

-- The difference of two lengths, which `cuint_t` holds.
unfoldable pub cmp_buf : Buffer → Buffer → Option ℤ
cmp_buf b second =
    if ltb second.len b.len
    then some (pos (b.len - second.len))
    else if ltb b.len second.len
    then some (negsuc (second.len - b.len - 1))
    else strncmp second.len (bytes b.buf) (bytes second.buf)
