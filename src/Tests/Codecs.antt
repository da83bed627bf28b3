-- ===== src/Tests/Codecs.antt =====
-- The theorems about the encodings of src/buffer.c at concrete buffers.
use spdy_test.Prelude.{ℕ, List, [], ◌∷◌, some, true, ◌≡◌, refl, inr, inl, arith, length}
use spdy_test.Ret.{Ret}
use spdy_test.Buffer.{Buffer, init, ensure_size, ensure_addlen}
use spdy_test.Buffer.Mem.{Alloc, realloc}
use spdy_test.Buffer.Space.{contents, IsValid}
use spdy_test.Buffer.Adds.{Holds, Appends}
use spdy_test.Buffer.Slice.{negsuc}
use spdy_test.Codec.Base64.{b64_digits, encode_base64, decode_base64}
use spdy_test.Codec.Base64.RoundTrip.{decode_base64-encode_base64}
use spdy_test.Codec.Uri.{is_char_escaped, count_char, uri_table, escape_with_table, unescape_uri}
use spdy_test.Codec.Uri.Escaped.{counted}
use spdy_test.Codec.Uri.RoundTrip.{unescape_uri-escape}
use spdy_test.Codec.Number.{add_long10, add_llong10}
use spdy_test.Codec.Number.Reads.{AppendsSigned, signed_numbers}
use spdy_test.Codec.Html.{add_escape_html}
use spdy_test.Codec.Html.Safe.{IsSafe}
use spdy_test.Codec.Html.Texts.{IsHtml}
use spdy_test.Codec.Html.Writes.{add_escape_html_lem}

abbrev generous : Alloc
generous = record { grant = λ n. true; fill = λ i. 170 }

-- "a b%" in a block of six bytes.
abbrev text : Buffer
text = record { buf = some (97 ∷ 32 ∷ 98 ∷ 37 ∷ 0 ∷ 7 ∷ []); size = 6; len = 4 }

-- "#<'#" in a block of five bytes.
abbrev quoted : Buffer
quoted = record { buf = some (35 ∷ 60 ∷ 39 ∷ 35 ∷ 0 ∷ []); size = 5; len = 4 }

quoted-IsValid : IsValid quoted
quoted-IsValid = omega arith

text-IsValid : IsValid text
text-IsValid = omega arith

init-IsValid : IsValid init
init-IsValid = record { sized = refl; room = inr (refl, refl, refl); small = omega arith }

decode_base64-encode_base64_example :
    (mid : Buffer) × (result : Buffer) × (encode_base64 generous text init ≡ some (Ret.ok, mid))
    × Holds (b64_digits (contents text)) mid
    × (length (contents mid) ≡ 8)
    × (decode_base64 mid ≡ some (Ret.ok, result))
    × Holds (contents text) result
unfolding ensure_size realloc
decode_base64-encode_base64_example =
    decode_base64-encode_base64 generous text init text-IsValid init-IsValid (omega arith) refl
      (omega arith)

unescape_uri-escape_example :
    (mid : Buffer) × (result : Buffer) × (escape_with_table generous init text uri_table
      ≡ some (Ret.ok, mid))
    × (unescape_uri mid ≡ some (Ret.ok, result))
    × Holds (contents text) result
unfolding ensure_addlen ensure_size realloc counted is_char_escaped count_char
unescape_uri-escape_example =
    unescape_uri-escape generous init text uri_table (97 ∷ [])
      ((32 ∷ []) ∷ (98 ∷ []) ∷ (37 ∷ []) ∷ []) init-IsValid refl text-IsValid refl refl
      (omega arith) (omega arith) refl

signed_numbers_example :
    AppendsSigned init (negsuc 41) (add_long10 generous init 0xffffffffffffffd6)
    × AppendsSigned init (negsuc 41) (add_llong10 generous init 0xffffffffffffffd6)
signed_numbers_example =
    signed_numbers generous init init-IsValid (omega arith) (negsuc 41) (omega arith)

add_escape_html_lem_example :
    (r : Ret × Buffer) × (src' : Buffer) × (html : List ℕ) × (add_escape_html generous init quoted
      ≡ some (r.0, r.1, src'))
    × IsHtml (contents quoted) html
    × Appends init html (some r)
    × IsSafe html
    × Holds (contents quoted) src'
add_escape_html_lem_example =
    add_escape_html_lem generous init quoted init-IsValid (inl refl) quoted-IsValid
      (35 ∷ 60 ∷ 39 ∷ 35 ∷ 0 ∷ []) refl (omega arith) (omega arith)
