-- ===== src/Codec/Base64.antt =====
-- http2d_buffer_encode_base64 and http2d_buffer_decode_base64 of src/buffer.c.
pub mod Loop
pub mod RoundTrip
use spdy_test.Prelude.{
  ℕ, ◌+◌, ◌-◌, ◌*◌, ◌/◌, ◌%◌, List, [], ◌∷◌, ◌++◌, Option, none, some, ◌&&◌, ltb, leb, ◌==◌,
  if◌then◌else◌, ◌>>=◌, length,
}
use spdy_test.Ret.{Ret}
use spdy_test.Buffer.{Buffer, u32, ensure_size, clean}
use spdy_test.Buffer.Mem.{Alloc}
use spdy_test.Codec.{string_of, rewrite}

-- `base64tab`
unfoldable pub b64_digit : ℕ → ℕ
b64_digit n =
    if ltb n 26
    then n + b'A'
    else if ltb n 52
    then n - 26 + b'a'
    else if ltb n 62
    then n - 52 + b'0'
    else if n == 62
    then b'+'
    else b'/'

-- `b64_decode_tab`: `none` is its -1.
unfoldable pub b64_value : ℕ → Option ℕ
b64_value c =
    if c == b'+'
    then some 62
    else if c == b'/'
    then some 63
    else if leb b'0' c && leb c b'9'
    then some (c - b'0' + 52)
    else if leb b'A' c && leb c b'Z'
    then some (c - b'A')
    else if leb b'a' c && leb c b'z'
    then some (c - b'a' + 26)
    else none

-- The four digits of three bytes, with the padding behind them.
unfoldable pub b64_digits : List ℕ → List ℕ
b64_digits [] = []
b64_digits (a ∷ []) = b64_digit (a / 4) ∷ b64_digit (a % 4 * 16) ∷ b'=' ∷ b'=' ∷ []
b64_digits (a ∷ b ∷ []) =
    b64_digit (a / 4) ∷ b64_digit (a % 4 * 16 + b / 16) ∷ b64_digit (b % 16 * 4) ∷ b'=' ∷ []
b64_digits (a ∷ b ∷ c ∷ xs) =
    b64_digit (a / 4)
    ∷ b64_digit (a % 4 * 16 + b / 16)
    ∷ b64_digit (b % 16 * 4 + c / 64)
    ∷ b64_digit (c % 64)
    ∷ b64_digits xs

-- The size asked for, in `cuint_t`.
abbrev pub encoded_size : ℕ → ℕ
encoded_size len = u32 (u32 (u32 (len + 4) * 4) / 3 + 1)

unfoldable pub encode_base64 : Alloc → Buffer → Buffer → Option (Ret × Buffer)
encode_base64 a b encoded =
    let (r, sized) = ensure_size a encoded (encoded_size b.len) in
    elim r [
      | Ret.ok ↦ do
        empty ← clean sized
        text ← string_of b
        let out = b64_digits text
        result ← rewrite empty out (length out)
        some (Ret.ok, result)
      | other ↦ some (other, sized)
    ]

-- What the `switch (phase)` appends to `space`.
unfoldable pub b64_emit : ℕ → ℕ → ℕ → List ℕ
b64_emit phase prev_d d =
    if phase == 1
    then (prev_d * 4 + d / 16 % 4) ∷ []
    else if phase == 2
    then (prev_d % 16 * 16 + d / 4 % 16) ∷ []
    else if phase == 3
    then (prev_d % 4 * 64 + d) ∷ []
    else []

unfoldable pub next_phase : ℕ → ℕ
next_phase phase = if phase == 3 then 0 else phase + 1

-- The loop. `space` collects up to 127 bytes, `out` is what was copied to the front of the buffer;
-- that is always a part which the loop has read. The table is indexed by a `char`: a byte above 127
-- is an access outside it.
unfoldable pub decode_loop : List ℕ → ℕ → ℕ → List ℕ → List ℕ → Option (List ℕ)
decode_loop [] phase prev_d space out = some (out ++ space)
decode_loop (c ∷ cs) phase prev_d space out = if leb 128 c then none else elim (b64_value c) [
  | none ↦ decode_loop cs phase prev_d space out
  | some d ↦
      let space' = space ++ b64_emit phase prev_d d in
      let flushed = decode_loop cs (next_phase phase) d [] (out ++ space') in
      let kept = decode_loop cs (next_phase phase) d space' out in
      if length space' == 127 then flushed else kept
]

unfoldable pub decode_base64 : Buffer → Option (Ret × Buffer)
decode_base64 b = do
  text ← string_of b
  out ← decode_loop text 0 0 [] []
  result ← rewrite b out (length out)
  some (Ret.ok, result)
