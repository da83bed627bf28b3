-- ===== src/Codec.antt =====
-- What the encoders and decoders of src/buffer.c share: bytes, hexadecimal digits, and the ways in
-- which they write to a buffer. A read goes through `char`, so a byte above 127 is negative there.
pub mod Output
pub mod Hex
pub mod Base64
pub mod Utf8
pub mod Uri
pub mod Number
pub mod Html
use spdy_test.Prelude.{
  ℕ, ◌+◌, ◌-◌, ◌<◌, List, [], ◌∷◌, Option, none, some, Bool, true, false, ◌&&◌, ltb, leb,
  if◌then◌else◌, ◌>>=◌, length,
}
use spdy_test.Buffer.{Buffer, u32, store}
use spdy_test.Buffer.Mem.{bytes, slice, blit}

abbrev pub AreBytes : List ℕ → Type 0
AreBytes [] = Unit
AreBytes (x ∷ xs) = (x < 256) × AreBytes xs

-- `TO_HEX`
abbrev pub to_hex : ℕ → ℕ
to_hex c = if ltb 9 c then c + b'a' - 10 else c + b'0'

-- The value of a hexadecimal digit; `none` is the -1 of the tables.
abbrev pub hex_value : ℕ → Option ℕ
hex_value c =
    if leb b'0' c && leb c b'9'
    then some (c - b'0')
    else if leb b'A' c && leb c b'F'
    then some (c - b'A' + 10)
    else if leb b'a' c && leb c b'f'
    then some (c - b'a' + 10)
    else none

-- The string that a buffer holds, as its readers see it.
abbrev pub string_of : Buffer → Option (List ℕ)
string_of b = slice (bytes b.buf) 0 b.len

-- Writes `txt` over the front of the block, and the terminator behind `k` bytes, which is the new
-- length.
abbrev pub rewrite : Buffer → List ℕ → ℕ → Option Buffer
rewrite b txt k = do
  m ← b.buf
  m' ← blit m 0 txt
  m'' ← blit m' k (0 ∷ [])
  some (record b { buf = some m''; len = k })

-- Writes `txt` and a terminator behind the string.
abbrev pub extend : Buffer → List ℕ → Option Buffer
extend b txt = store b b.len txt (length txt)
