-- ===== src/Codec/Hex.antt =====
-- http2d_buffer_encode_hex and http2d_buffer_decode_hex of src/buffer.c.
pub mod RoundTrip
use spdy_test.Prelude.{
  ℕ, ◌+◌, ◌*◌, ◌/◌, ◌%◌, List, [], ◌∷◌, ◌++◌, Option, none, some, ◌>>=◌, length, take, drop,
}
use spdy_test.Ret.{Ret}
use spdy_test.Buffer.{Buffer, u32, ensure_size, clean}
use spdy_test.Buffer.Mem.{Alloc}
use spdy_test.Codec.{to_hex, hex_value, string_of, rewrite, extend}

-- The loop of the encoder: two digits for each byte.
unfoldable pub hex_digits : List ℕ → List ℕ
hex_digits [] = []
hex_digits (x ∷ xs) = to_hex (x / 16 % 16) ∷ to_hex (x % 16) ∷ hex_digits xs

-- The answer of http2d_buffer_ensure_size is not looked at.
unfoldable pub encode_hex : Alloc → Buffer → Buffer → Option (Ret × Buffer)
encode_hex a b encoded = do
  text ← string_of b
  let (r, sized) = ensure_size a encoded (u32 (b.len * 2 + 1))
  empty ← clean sized
  result ← extend empty (hex_digits text)
  some (Ret.ok, result)

-- The loop of the decoder, up to the first pair that is no number. The table is read at the low seven
-- bits. Each byte is written to a position that was read before, so the loop reads the old string.
unfoldable pub decoded_pairs : List ℕ → List ℕ
decoded_pairs [] = []
decoded_pairs (x ∷ []) = []
decoded_pairs (x ∷ y ∷ xs) =
    let rest = decoded_pairs xs in
    elim (hex_value (x % 128)) [
      | none ↦ []
      | some high ↦ elim (hex_value (y % 128)) [ none ↦ [] | some low ↦ (high * 16 + low) ∷ rest ]
    ]

-- The length is halved in any case.
unfoldable pub decode_hex : Buffer → Option (Ret × Buffer)
decode_hex b = do
  text ← string_of b
  result ← rewrite b (decoded_pairs text) (b.len / 2)
  some (Ret.ok, result)
