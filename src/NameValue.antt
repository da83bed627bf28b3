-- ===== src/NameValue.antt =====
-- Name/value header blocks: how request-spdy.c writes them (src/request-spdy.c) and how they are
-- laid out (the SYN_STREAM diagram of src/spdy.h), with a reference reader.
pub mod RoundTrip
use spdy_test.Prelude.{
  ℕ, zero, suc, ◌+◌, ◌/◌, ◌%◌, ◌^◌, List, [], ◌∷◌, ◌++◌, Option, none, some, ◌>>=◌, length, take,
  drop, leb, if◌then◌else◌,
}
use spdy_test.Spdy.{read_uint32}

-- htonl of a 32-bit number, as the four bytes that are copied.
abbrev pub htonl : ℕ → List ℕ
htonl n = (n / 2 ^ 24 % 256) ∷ (n / 2 ^ 16 % 256) ∷ (n / 2 ^ 8 % 256) ∷ (n % 256) ∷ []

-- The bytes that req_spdy_header_add appends for one header.
abbrev pub entry : List ℕ → List ℕ → List ℕ
entry key val = htonl (length key) ++ (key ++ (htonl (length val) ++ val))

unfoldable pub entries : List (List ℕ × List ℕ) → List ℕ
entries [] = []
entries ((key, val) ∷ pairs) = entry key val ++ entries pairs

-- A length and as many bytes from position `pos` on: the bytes, and the position behind them.
unfoldable pub read_string : List ℕ → ℕ → Option (List ℕ × ℕ)
read_string block pos = do
  n ← read_uint32 block pos
  (if leb (pos + 4 + n) (length block)
      then some (take n (drop (pos + 4) block), pos + 4 + n)
      else none)

-- The reference reader of `n` pairs.
unfoldable pub read_pairs : ℕ → List ℕ → ℕ → Option (List (List ℕ × List ℕ))
read_pairs zero block pos = some []
read_pairs (suc n) block pos = do
  (key, pos1) ← read_string block pos
  (val, pos2) ← read_string block pos1
  rest ← read_pairs n block pos2
  some ((key, val) ∷ rest)

-- A whole block: the number of pairs, then the pairs.
unfoldable pub read_block : List ℕ → Option (List (List ℕ × List ℕ))
read_block block = do n ← read_uint32 block 0; read_pairs n block 4
