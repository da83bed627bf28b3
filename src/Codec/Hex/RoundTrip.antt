-- ===== src/Codec/Hex/RoundTrip.antt =====
-- Decoding what http2d_buffer_encode_hex of src/buffer.c wrote.
use spdy_test.Prelude.{
  ℕ, ◌+◌, ◌*◌, ◌/◌, ◌%◌, ◌^◌, ◌<◌, List, [], ◌∷◌, ◌++◌, some, ◌≡◌, refl, sym, ap, subst, ◌∙◌, arith,
  length,
}
use spdy_test.Ret.{Ret}
use spdy_test.Buffer.{Buffer, u32, ensure_size, clean}
use spdy_test.Buffer.Mem.{Alloc}
use spdy_test.Buffer.Space.{contents, IsValid}
use spdy_test.Buffer.Adds.{Holds}
use spdy_test.Buffer.Edits.{block_facts, length-contents}
use spdy_test.Buffer.Emptied.{emptied}
use spdy_test.Codec.{AreBytes, to_hex, hex_value, string_of, rewrite, extend}
use spdy_test.Codec.Output.{string_of_lem, extend_lem, rewrite_whole, extend-block}
use spdy_test.Codec.Hex.{hex_digits, encode_hex, decoded_pairs, decode_hex}

length-hex_digits : (xs : List ℕ) → length (hex_digits xs) ≡ length xs * 2
unfolding hex_digits
length-hex_digits [] = refl
length-hex_digits (x ∷ xs) = omega (arith, length-hex_digits xs)

hex_value-to_hex : (n : ℕ) → n < 16 → hex_value (to_hex n % 128) ≡ some n
hex_value-to_hex n h = ground arith

decoded_pairs-hex_digits : (xs : List ℕ) → AreBytes xs → decoded_pairs (hex_digits xs) ≡ xs
unfolding hex_digits decoded_pairs
decoded_pairs-hex_digits [] h = refl
decoded_pairs-hex_digits (x ∷ xs) (small, h) = ground (
  arith,
  hex_value-to_hex (x / 16 % 16),
  hex_value-to_hex (x % 16),
  decoded_pairs-hex_digits xs h,
)

module _ (a : Alloc) (b encoded : Buffer) where
  encode_hex_run :
      {text : List ℕ} {empty result : Buffer}
      → string_of b ≡ some text
      → clean (ensure_size a encoded (u32 (b.len * 2 + 1))).1 ≡ some empty
      → extend empty (hex_digits text) ≡ some result
      → encode_hex a b encoded ≡ some (Ret.ok, result)
  unfolding encode_hex
  encode_hex_run reads cleans extends = rw (reads, cleans) (rw extends)

  decode_hex_run :
      {text : List ℕ} {result : Buffer}
      → string_of b ≡ some text
      → rewrite b (decoded_pairs text) (b.len / 2) ≡ some result
      → decode_hex b ≡ some (Ret.ok, result)
  unfolding decode_hex
  decode_hex_run reads writes = rw reads (rw writes)

module _ (a : Alloc) (b encoded : Buffer) (v : IsValid b) (v' : IsValid encoded)
    (small : b.len * 2 + 1 < 2 ^ 31) (ok : (ensure_size a encoded (b.len * 2 + 1)).0 ≡ Ret.ok) where
  encode_hex_lem :
      (result : Buffer) × (encode_hex a b encoded ≡ some (Ret.ok, result))
      × Holds (hex_digits (contents b)) result
      × ((m : List ℕ) × (result.buf ≡ some m))
  encode_hex_lem =
      let n = b.len * 2 + 1 in
      let e : n ≡ u32 n = omega arith in
      let (empty, cleans, holds, len_0, room) = emptied a encoded v' n small ok in
      let digits = hex_digits (contents b) in
      let l : length digits ≡ b.len * 2 =
        omega (arith, length-hex_digits (contents b), length-contents b v) in
      let (result, extends, held) = extend_lem empty holds.valid digits (omega arith) in
      let cleans' : clean (ensure_size a encoded (u32 n)).1 ≡ some empty =
        subst (λ k. clean (ensure_size a encoded k).1 ≡ some empty) e cleans in
      (
        result,
        encode_hex_run a b encoded (string_of_lem b v) cleans' extends,
        subst (λ xs. Holds (xs ++ digits) result) holds.holds held,
        extend-block empty digits extends,
      )

  -- Between valid buffers, the first one of bytes and its length below 2 ^ 30, and where the memory
  -- is granted, http2d_buffer_encode_hex writes two digits for each byte, and
  -- http2d_buffer_decode_hex makes the old string of them again.
  decode_hex-encode_hex :
      AreBytes (contents b)
      → (mid : Buffer) × (result : Buffer) × (encode_hex a b encoded ≡ some (Ret.ok, mid))
        × Holds (hex_digits (contents b)) mid
        × (decode_hex mid ≡ some (Ret.ok, result))
        × Holds (contents b) result
  decode_hex-encode_hex small_bytes =
      let (mid, encodes, h, (m, at)) = encode_hex_lem in
      let digits = hex_digits (contents b) in
      let l : length digits ≡ length (contents b) * 2 = length-hex_digits (contents b) in
      let l' : length (contents mid) ≡ length digits = ap length h.holds in
      let back : decoded_pairs (contents mid) ≡ contents b =
        ap decoded_pairs h.holds ∙ decoded_pairs-hex_digits (contents b) small_bytes in
      let half : length (contents b) ≡ mid.len / 2 = omega (arith, length-contents mid h.valid) in
      let (sized, lt) = block_facts mid m h.valid at in
      let (result, writes, held) =
        rewrite_whole mid h.valid (contents b) at (omega (arith, length-contents mid h.valid)) in
      let writes' : rewrite mid (decoded_pairs (contents mid)) (mid.len / 2) ≡ some result =
        ap (λ xs. rewrite mid xs (mid.len / 2)) back
        ∙ ap (rewrite mid (contents b)) (sym half)
        ∙ writes in
      (
        mid,
        result,
        encodes,
        h,
        decode_hex_run a mid encoded (string_of_lem mid h.valid) writes',
        held,
      )
