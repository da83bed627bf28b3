-- ===== src/Codec/Html.antt =====
-- http2d_buffer_add_escape_html and http2d_buffer_escape_html of src/buffer.c. The source and the
-- target are two buffers; the source may get a terminator, so it is a result too.
pub mod Safe
pub mod Texts
pub mod Writes
use spdy_test.Prelude.{
  ℕ, suc, ◌+◌, ◌-◌, List, [], ◌∷◌, ◌++◌, Option, none, some, Bool, ◌||◌, ◌==◌, if◌then◌else◌, ◌>>=◌,
  length, take, drop,
}
use spdy_test.Ret.{Ret}
use spdy_test.Buffer.{Buffer, u32, size_t, ensure_addlen, add_buffer, clean}
use spdy_test.Buffer.Mem.{Alloc, blit}
use spdy_test.Codec.Uri.{c_string}

-- What `strpbrk` looks for.
abbrev pub is_special : ℕ → Bool
is_special c = c == b'<' || (c == b'>' || (c == b'&' || c == b'"'))

unfoldable pub find_special : List ℕ → Option ℕ
find_special [] = none
find_special (c ∷ cs) = if is_special c then some 0 else do i ← find_special cs; some (suc i)

-- The two `switch` statements: the characters that are counted, and those that are written.
unfoldable pub html_extra : ℕ → ℕ
html_extra c =
    if c == b'<' || c == b'>'
    then 3
    else if c == b'&'
    then 4
    else if c == b'"'
    then 5
    else if c == b'#' || c == b'\''
    then 4
    else 0

unfoldable pub html_entity : ℕ → List ℕ
html_entity c =
    if c == b'<'
    then b'&' ∷ b'l' ∷ b't' ∷ b';' ∷ []
    else if c == b'>'
    then b'&' ∷ b'g' ∷ b't' ∷ b';' ∷ []
    else if c == b'&'
    then b'&' ∷ b'a' ∷ b'm' ∷ b'p' ∷ b';' ∷ []
    else if c == b'"'
    then b'&' ∷ b'q' ∷ b'u' ∷ b'o' ∷ b't' ∷ b';' ∷ []
    else if c == b'#'
    then b'&' ∷ b'#' ∷ b'3' ∷ b'5' ∷ b';' ∷ []
    else if c == b'\''
    then b'&' ∷ b'#' ∷ b'3' ∷ b'9' ∷ b';' ∷ []
    else c ∷ []

-- The two loops from `p0` to the NUL.
unfoldable pub extra_of : List ℕ → ℕ
extra_of [] = 0
extra_of (c ∷ cs) = html_extra c + extra_of cs

unfoldable pub entities : List ℕ → List ℕ
entities [] = []
entities (c ∷ cs) = html_entity c ++ entities cs

module _ (a : Alloc) where
  -- Behind "Ensure there is proper buffer size": the two copies, and the new length.
  unfoldable pub copy_escaped : Buffer → List ℕ → ℕ → ℕ → Option (Ret × Buffer)
  copy_escaped b text len0 added = do
    m ← b.buf
    m' ← blit m b.len (take len0 text)
    m'' ← blit m' (b.len + len0) (entities (drop len0 text))
    m3 ← blit m'' (u32 (b.len + added)) (0 ∷ [])
    some (Ret.ok, record b { buf = some m3; len = u32 (b.len + added) })

  unfoldable pub copy_grown : Ret × Buffer → List ℕ → ℕ → ℕ → Option (Ret × Buffer)
  copy_grown (r, sized) text len0 added = elim r [
    | Ret.ok ↦ copy_escaped sized text len0 added
    | other ↦ some (other, sized)
  ]

  unfoldable pub escape_from : Buffer → ℕ → List ℕ → ℕ → Option (Ret × Buffer)
  escape_from b src_len text len0 =
      let extra = size_t (extra_of (drop len0 text)) in
      if length text == src_len
      then copy_grown (ensure_addlen a b (size_t (src_len + extra + 1))) text len0 (src_len + extra)
      else some (Ret.error, b)

  -- "Verify if string has to be escaped", and what follows.
  unfoldable pub escape_text : Buffer → Buffer → List ℕ → Option (Ret × Buffer)
  escape_text b src text = elim (find_special text) [
    | none ↦ add_buffer a b src
    | some len0 ↦ escape_from b src.len text len0
  ]

  unfoldable pub add_escape_html : Buffer → Buffer → Option (Ret × Buffer × Buffer)
  add_escape_html b src = elim src.buf [
    | none ↦ some (Ret.error, b, src)
    | some m ↦ do
      s ← blit m src.len (0 ∷ [])
      let src' = record src { buf = some s }
      result ← escape_text b src' (c_string s)
      some (result.0, result.1, src')
  ]

  unfoldable pub escape_html : Buffer → Buffer → Option (Ret × Buffer × Buffer)
  escape_html b src = do b' ← clean b; add_escape_html b' src
