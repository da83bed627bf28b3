-- ===== src/Header.antt =====
-- The request header of src/header.c. Its five buffers stand for the strings that they hold: the
-- operations of `Buffer` append to and clear these, as long as memory is granted.
pub mod Fields
use Prim.Native.String.{String}
use Prim.Native.Char.{code}
use spdy_test.Prelude.{ℕ, ◌+◌, List, [], ◌∷◌, Bool, true, false, ◌&&◌, leb, ◌==◌, if◌then◌else◌}

-- The bytes of a string literal.
abbrev pub codes : String → List ℕ
codes String.[] = []
codes (String.◌∷◌ c s) = code c ∷ codes s

-- `http2d_header_t`
pub record Header : Type 0 where
  pub method : List ℕ
  pub path : List ℕ
  pub version : List ℕ
  pub host : List ℕ
  pub scheme : List ℕ

-- `http2d_header_init`; `http2d_header_mrproper` and `http2d_header_clean` leave the same strings.
abbrev pub init : Header
init = record { method = []; path = []; version = []; host = []; scheme = [] }

abbrev pub clean : Header → Header
clean hdr = init

-- tolower of the C locale
abbrev pub to_lower : ℕ → ℕ
to_lower c = if leb b'A' c && leb c b'Z' then c + 32 else c

-- Equal lengths, and strncasecmp over them is 0. The literals hold no NUL, at which it would stop.
unfoldable pub eq_nocase : List ℕ → List ℕ → Bool
eq_nocase [] [] = true
eq_nocase [] (y ∷ ys) = false
eq_nocase (x ∷ xs) [] = false
eq_nocase (x ∷ xs) (y ∷ ys) = to_lower x == to_lower y && eq_nocase xs ys

abbrev pub path_name : List ℕ
path_name = codes "path"

abbrev pub method_name : List ℕ
method_name = codes "method"

abbrev pub scheme_name : List ℕ
scheme_name = codes "scheme"

abbrev pub version_name : List ℕ
version_name = codes "version"

abbrev pub host_name : List ℕ
host_name = codes "host"

-- The ladder of SPDY_CMP; the last branch reports and changes nothing.
unfoldable pub add_special : Header → List ℕ → List ℕ → Header
unfolding eq_nocase
add_special hdr name val =
    if eq_nocase name path_name
    then record hdr { path = val }
    else if eq_nocase name method_name
    then record hdr { method = val }
    else if eq_nocase name scheme_name
    then record hdr { scheme = val }
    else if eq_nocase name version_name
    then record hdr { version = val }
    else if eq_nocase name host_name
    then record hdr { host = val }
    else hdr

-- http2d_header_add_header always answers ret_ok. With `key_len` 0 no comparison can succeed,
-- whatever byte `key[0]` reads.
unfoldable pub add_header : Header → List ℕ → List ℕ → Header
unfolding add_special
add_header hdr [] val = hdr
add_header hdr (c ∷ name) val = if c == b':' then add_special hdr name val else hdr
