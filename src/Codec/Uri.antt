-- ===== src/Codec/Uri.antt =====
-- The percent escapes of src/buffer.c: escape_with_table with its three tables, and
-- http2d_buffer_unescape_uri. The source and the target of an escape are two buffers.
pub mod Escaped
pub mod Writes
pub mod Unescaped
pub mod RoundTrip
use spdy_test.Prelude.{
  ℕ, zero, suc, ◌+◌, ◌-◌, ◌*◌, ◌/◌, ◌%◌, ◌^◌, List, [], ◌∷◌, ◌++◌, Option, none, some, Bool, true,
  false, ◌&&◌, ltb, ◌==◌, if◌then◌else◌, ◌>>=◌, length, get_elem?, drop,
}
use spdy_test.Ret.{Ret}
use spdy_test.Buffer.{Buffer, u32, ensure_addlen}
use spdy_test.Buffer.Mem.{Alloc, slice, blit}
use spdy_test.Codec.{to_hex, hex_value}
use spdy_test.Codec.Utf8.{utf8_width}

-- `is_char_escaped[c >> 5] & (1 << (c & 0x1f))`. The tables have a word for each byte.
unfoldable pub is_char_escaped : List ℕ → ℕ → Bool
is_char_escaped table c = elim (get_elem? table (c / 32)) [
  | none ↦ false
  | some word ↦ word / 2 ^ (c % 32) % 2 == 1
]

-- What the counting loop adds for a character.
unfoldable pub count_char : List ℕ → List ℕ → ℕ
count_char table [] = 0
count_char table (c ∷ []) = if is_char_escaped table c then 1 else 0
count_char table (c ∷ d ∷ cs) = 0

-- What the converting loop writes for it.
unfoldable pub escape_char : List ℕ → List ℕ → List ℕ
escape_char table [] = []
escape_char table (c ∷ []) =
    if is_char_escaped table c then b'%' ∷ to_hex (c / 16) ∷ to_hex (c % 16) ∷ [] else c ∷ []
escape_char table (c ∷ d ∷ cs) = c ∷ d ∷ cs

-- The two `do` loops, over the block from `s` on: `left` is `end - s`. The first argument bounds
-- the rounds.
unfoldable pub count_loop : ℕ → List ℕ → List ℕ → ℕ → Option ℕ
count_loop zero table s left = none
count_loop (suc fuel) table s left = do
  k ← utf8_width s
  char ← slice s 0 k
  let rest = count_loop fuel table (drop k s) (left - k)
  if ltb k left
      then (do n ← rest; some (count_char table char + n))
      else some (count_char table char)

unfoldable pub escape_loop : ℕ → List ℕ → List ℕ → ℕ → Option (List ℕ)
escape_loop zero table s left = none
escape_loop (suc fuel) table s left = do
  k ← utf8_width s
  char ← slice s 0 k
  let rest = escape_loop fuel table (drop k s) (left - k)
  if ltb k left
      then (do out ← rest; some (escape_char table char ++ out))
      else some (escape_char table char)

-- The answer of http2d_buffer_ensure_addlen is not looked at.
unfoldable pub escape_with_table : Alloc → Buffer → Buffer → List ℕ → Option (Ret × Buffer)
escape_with_table a b src table = elim src.buf [
  | none ↦ some (Ret.error, b)
  | some s ↦ do
    n_escape ← count_loop (suc src.len) table s src.len
    let sized = (ensure_addlen a b (u32 (src.len + n_escape * 3))).1
    out ← escape_loop (suc src.len) table s src.len
    m ← sized.buf
    m' ← blit m sized.len out
    m'' ← blit m' (sized.len + length out) (0 ∷ [])
    some (Ret.ok, record sized { buf = some m''; len = u32 (sized.len + src.len + n_escape * 2) })
]

-- The words that stand for the bytes from 128 on are the same in the three tables.
abbrev pub high_words : List ℕ
high_words = 0xffffffff ∷ 0xffffffff ∷ 0xffffffff ∷ 0xffffffff ∷ []

abbrev pub uri_table : List ℕ
uri_table = 0xffffffff ∷ 0x80000029 ∷ 0x00000000 ∷ 0x80000000 ∷ high_words

abbrev pub uri_delims_table : List ℕ
uri_delims_table = 0xffffffff ∷ 0x84000029 ∷ 0x28000001 ∷ 0x80000000 ∷ high_words

abbrev pub arg_table : List ℕ
arg_table = 0xffffffff ∷ 0x88000869 ∷ 0x00000000 ∷ 0x80000000 ∷ high_words

unfoldable pub escape_uri : Alloc → Buffer → Buffer → Option (Ret × Buffer)
escape_uri a b src = escape_with_table a b src uri_table

unfoldable pub escape_uri_delims : Alloc → Buffer → Buffer → Option (Ret × Buffer)
escape_uri_delims a b src = escape_with_table a b src uri_delims_table

unfoldable pub escape_arg : Alloc → Buffer → Buffer → Option (Ret × Buffer)
escape_arg a b src = escape_with_table a b src arg_table

-- `isxdigit (c1) && isxdigit (c2)`, and `hex2dec_m2`.
unfoldable pub hex_pair : ℕ → ℕ → Option ℕ
hex_pair c1 c2 = do high ← hex_value c1; low ← hex_value c2; some (high * 16 + low)

-- "Replace null bytes (%00) with spaces".
abbrev pub nul_to_space : ℕ → ℕ
nul_to_space c = if c == 0 then b' ' else c

-- The loop up to the NUL: the bytes written at `ptgt`, and `len`. The target never passes the
-- source.
unfoldable pub unescape_loop : List ℕ → ℕ → List ℕ → List ℕ × ℕ
unescape_loop [] len out = (out, len)
unescape_loop (c ∷ []) len out = (out ++ (c ∷ []), len)
unescape_loop (c ∷ d ∷ []) len out = (out ++ (c ∷ d ∷ []), len)
unescape_loop (c ∷ d ∷ e ∷ cs) len out =
    let kept = unescape_loop (d ∷ e ∷ cs) len (out ++ (c ∷ [])) in
    let escape = λ (v : ℕ). unescape_loop cs (len - 2) (out ++ (nul_to_space v ∷ [])) in
    if c == b'%' then elim (hex_pair d e) [ none ↦ kept | some v ↦ escape v ] else kept

-- The string up to the first NUL.
unfoldable pub c_string : List ℕ → List ℕ
c_string [] = []
c_string (c ∷ cs) = if c == 0 then [] else c ∷ c_string cs

-- `strchr`, as an offset.
unfoldable pub index_of : ℕ → List ℕ → Option ℕ
index_of x [] = none
index_of x (c ∷ cs) = if c == x then some 0 else do i ← index_of x cs; some (suc i)

unfoldable pub unescape_uri : Buffer → Option (Ret × Buffer)
unescape_uri b = elim b.buf [
  | none ↦ some (Ret.error, b)
  | some m ↦ do
    m1 ← blit m b.len (0 ∷ [])
    let text = c_string m1
    elim (index_of b'%' text) [
      | none ↦ some (Ret.ok, record b { buf = some m1 })
      | some psrc ↦ do
        let (out, len) = unescape_loop (drop psrc text) b.len []
        m2 ← blit m1 psrc out
        m3 ← blit m2 (psrc + length out) (0 ∷ [])
        some (Ret.ok, record b { buf = some m3; len = len })
    ]
]
