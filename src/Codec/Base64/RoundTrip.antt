-- ===== src/Codec/Base64/RoundTrip.antt =====
-- Decoding what http2d_buffer_encode_base64 of src/buffer.c wrote.
use spdy_test.Prelude.{
  ℕ, ◌+◌, ◌*◌, ◌/◌, ◌%◌, ◌^◌, ◌<◌, List, [], ◌∷◌, ◌++◌, some, ◌≡◌, refl, ap, subst, ◌∙◌, arith,
  length, false, leb, ◌>>=◌,
}
use spdy_test.Ret.{Ret}
use spdy_test.Buffer.{Buffer, ensure_size, clean}
use spdy_test.Buffer.Mem.{Alloc}
use spdy_test.Buffer.Space.{contents, IsValid}
use spdy_test.Buffer.Adds.{Holds}
use spdy_test.Buffer.Edits.{block_facts, length-contents}
use spdy_test.Buffer.Emptied.{emptied}
use spdy_test.Codec.{AreBytes, string_of, rewrite}
use spdy_test.Codec.Output.{string_of_lem, rewrite_sized}
use spdy_test.Codec.Base64.{
  b64_digit, b64_value, b64_digits, b64_emit, next_phase, decode_loop, encoded_size, encode_base64,
  decode_base64,
}
use spdy_test.Codec.Base64.Loop.{decoded, decode_loop-eq-decoded}

b64_digit_bound : (n : ℕ) → n < 64 → leb 128 (b64_digit n) ≡ false
unfolding b64_digit
b64_digit_bound n h = ground arith

b64_value-b64_digit : (n : ℕ) → n < 64 → b64_value (b64_digit n) ≡ some n
unfolding b64_digit b64_value
b64_value-b64_digit n h = ground arith

-- One digit in the decoder.
decoded-b64_digit :
    (n : ℕ) (cs : List ℕ) (phase prev_d : ℕ)
    → n < 64
    → decoded (b64_digit n ∷ cs) phase prev_d
      ≡ (do rest ← decoded cs (next_phase phase) n; some (b64_emit phase prev_d n ++ rest))
unfolding decoded
decoded-b64_digit n cs phase prev_d h = rw (b64_digit_bound n h, b64_value-b64_digit n h) refl

decoded_pad :
    (cs : List ℕ) (phase prev_d : ℕ) → decoded (b'=' ∷ cs) phase prev_d ≡ decoded cs phase prev_d
unfolding decoded b64_value
decoded_pad cs phase prev_d = refl

decoded-b64_digits :
    (xs : List ℕ) (prev_d : ℕ) → AreBytes xs → decoded (b64_digits xs) 0 prev_d ≡ some xs
unfolding b64_digits b64_emit next_phase
decoded-b64_digits [] prev_d h = unfold decoded in refl
decoded-b64_digits (a ∷ []) prev_d (ha, h) =
    let y = a % 4 * 16 in
    rw
      (
        decoded-b64_digit (a / 4) (b64_digit y ∷ b'=' ∷ b'=' ∷ []) 0 prev_d (omega arith),
        decoded-b64_digit y (b'=' ∷ b'=' ∷ []) 1 (a / 4) (omega arith),
      )
      (unfold decoded b64_value in ap (λ i. some (i ∷ [])) (omega arith))
decoded-b64_digits (a ∷ b ∷ []) prev_d (ha, (hb, h)) =
    let y = a % 4 * 16 + b / 16 in
    let z = b % 16 * 4 in
    rw
      (
        decoded-b64_digit (a / 4) (b64_digit y ∷ b64_digit z ∷ b'=' ∷ []) 0 prev_d (omega arith),
        decoded-b64_digit y (b64_digit z ∷ b'=' ∷ []) 1 (a / 4) (omega arith),
        decoded-b64_digit z (b'=' ∷ []) 2 y (omega arith),
      )
      (unfold decoded b64_value in ground arith)
decoded-b64_digits (a ∷ b ∷ c ∷ xs) prev_d (ha, (hb, (hc, h))) =
    let y = a % 4 * 16 + b / 16 in
    let z = b % 16 * 4 + c / 64 in
    let w = c % 64 in
    let rest = b64_digits xs in
    rw
      (
        decoded-b64_digit (a / 4) (b64_digit y ∷ b64_digit z ∷ b64_digit w ∷ rest) 0 prev_d
            (omega arith),
        decoded-b64_digit y (b64_digit z ∷ b64_digit w ∷ rest) 1 (a / 4) (omega arith),
        decoded-b64_digit z (b64_digit w ∷ rest) 2 y (omega arith),
        decoded-b64_digit w rest 3 z (omega arith),
        decoded-b64_digits xs w h,
      )
      (ground arith)

length-b64_digits : (xs : List ℕ) → length (b64_digits xs) ≡ (length xs + 2) / 3 * 4
unfolding b64_digits
length-b64_digits [] = refl
length-b64_digits (a ∷ []) = refl
length-b64_digits (a ∷ b ∷ []) = refl
length-b64_digits (a ∷ b ∷ c ∷ xs) = omega (arith, length-b64_digits xs)

module _ (a : Alloc) (b encoded : Buffer) where
  encode_base64_run :
      {empty result : Buffer} {text : List ℕ}
      → (ensure_size a encoded (encoded_size b.len)).0 ≡ Ret.ok
      → clean (ensure_size a encoded (encoded_size b.len)).1 ≡ some empty
      → string_of b ≡ some text
      → rewrite empty (b64_digits text) (length (b64_digits text)) ≡ some result
      → encode_base64 a b encoded ≡ some (Ret.ok, result)
  unfolding encode_base64
  encode_base64_run ok cleans reads writes = rw (ok, encode_base64) (rw (cleans, reads) (rw writes))

decode_base64_run :
    (b : Buffer) {text out : List ℕ} {result : Buffer}
    → string_of b ≡ some text
    → decode_loop text 0 0 [] [] ≡ some out
    → rewrite b out (length out) ≡ some result
    → decode_base64 b ≡ some (Ret.ok, result)
unfolding decode_base64
decode_base64_run b reads decodes writes = rw reads (rw decodes (rw writes))

module _ (a : Alloc) (b encoded : Buffer) (v : IsValid b) (v' : IsValid encoded)
    (small : b.len < 2 ^ 29)
    (ok : (ensure_size a encoded ((b.len + 4) * 4 / 3 + 1)).0 ≡ Ret.ok) where
  pub encode_base64_lem :
      (result : Buffer) × (encode_base64 a b encoded ≡ some (Ret.ok, result))
      × Holds (b64_digits (contents b)) result
      × ((m : List ℕ) × (result.buf ≡ some m))
  encode_base64_lem =
      let n = (b.len + 4) * 4 / 3 + 1 in
      let e : n ≡ encoded_size b.len = omega arith in
      let (empty, cleans, holds, len_0, room) = emptied a encoded v' n (omega arith) ok in
      let digits = b64_digits (contents b) in
      let l : length digits ≡ (length (contents b) + 2) / 3 * 4 = length-b64_digits (contents b) in
      let l' : length (contents b) ≡ b.len = length-contents b v in
      let (result, writes, held, block) = rewrite_sized empty digits holds.valid (omega arith) in
      let (ok', cleans') : ((ensure_size a encoded (encoded_size b.len)).0 ≡ Ret.ok)
          × (clean (ensure_size a encoded (encoded_size b.len)).1 ≡ some empty) =
        subst
          (λ k.
            ((ensure_size a encoded k).0 ≡ Ret.ok)
            × (clean (ensure_size a encoded k).1 ≡ some empty))
          e (ok, cleans) in
      (result, encode_base64_run a b encoded ok' cleans' (string_of_lem b v) writes, held, block)

  -- Between valid buffers, the first one of bytes and its length below 2 ^ 29, and where the memory
  -- is granted, http2d_buffer_encode_base64 writes the digits and the padding, four for each three
  -- bytes begun, and http2d_buffer_decode_base64 makes the old string of them again.
  pub decode_base64-encode_base64 :
      AreBytes (contents b)
      → (mid : Buffer) × (result : Buffer) × (encode_base64 a b encoded ≡ some (Ret.ok, mid))
        × Holds (b64_digits (contents b)) mid
        × (length (contents mid) ≡ (length (contents b) + 2) / 3 * 4)
        × (decode_base64 mid ≡ some (Ret.ok, result))
        × Holds (contents b) result
  decode_base64-encode_base64 are_bytes =
      let (mid, encodes, h, (m, at)) = encode_base64_lem in
      let back : decoded (contents mid) 0 0 ≡ some (contents b) =
        ap (λ xs. decoded xs 0 0) h.holds ∙ decoded-b64_digits (contents b) 0 are_bytes in
      let l : length (contents mid) ≡ (length (contents b) + 2) / 3 * 4 =
        ap length h.holds ∙ length-b64_digits (contents b) in
      let (sized, lt) = block_facts mid m h.valid at in
      let (result, writes, held, block) =
        rewrite_sized mid (contents b) h.valid (omega (arith, length-contents mid h.valid)) in
      (
        mid,
        result,
        encodes,
        h,
        l,
        decode_base64_run mid (string_of_lem mid h.valid)
            (decode_loop-eq-decoded (contents mid) 0 0 [] [] back) writes,
        held,
      )
