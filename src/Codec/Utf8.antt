-- ===== src/Codec/Utf8.antt =====
-- utf8_get_next_char and http2d_buffer_get_utf8_len of src/buffer.c.
pub mod Chars
use spdy_test.Prelude.{
  ℕ, zero, suc, ◌+◌, ◌-◌, ◌/◌, List, [], ◌∷◌, Option, none, some, ltb, ◌==◌, if◌then◌else◌, ◌>>=◌,
  drop,
}
use spdy_test.Ret.{Ret}
use spdy_test.Buffer.{Buffer}

-- How many of the next `n` bytes stand before a NUL.
unfoldable pub more : ℕ → List ℕ → Option ℕ
more zero s = some 0
more (suc n) [] = none
more (suc n) (c ∷ cs) = if c == 0 then some 0 else do k ← more n cs; some (suc k)

-- How far utf8_get_next_char moves on from a string. Bytes behind the block are not read.
unfoldable pub utf8_width : List ℕ → Option ℕ
unfolding more
utf8_width [] = none
utf8_width (c ∷ cs) = do
  k ←
      (if c / 32 == 6
        then more 1 cs
        else if c / 16 == 14
        then more 2 cs
        else if c / 8 == 30
        then more 3 cs
        else some 0)
  some (suc k)

-- The `do` loop: `left` is `end - p`. The first argument bounds its rounds.
unfoldable pub utf8_loop : ℕ → List ℕ → ℕ → Option ℕ
utf8_loop zero s left = none
utf8_loop (suc fuel) s left = do
  k ← utf8_width s
  let rest = utf8_loop fuel (drop k s) (left - k)
  if ltb k left then (do n ← rest; some (suc n)) else some 1

unfoldable pub get_utf8_len : Buffer → Option (Ret × ℕ)
get_utf8_len b = elim b.buf [
  | none ↦ some (Ret.ok, 0)
  | some m ↦
      if b.len == 0 then some (Ret.ok, 0) else do n ← utf8_loop b.len m b.len; some (Ret.ok, n)
]
