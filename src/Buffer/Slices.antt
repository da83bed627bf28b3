-- ===== src/Buffer/Slices.antt =====
-- What http2d_buffer_add_buffer_slice of src/buffer.c copies, for each sign of its arguments.
use spdy_test.Prelude.{
  ℕ, zero, suc, ◌+◌, ◌-◌, ◌^◌, ◌≤◌, ◌<◌, some, false, ◌≡◌, arith, ltb, ◌==◌, length, take, drop,
  take-drop-take, length-take, ◌≢◌,
}
use spdy_test.Ret.{Ret}
use spdy_test.Buffer.{Buffer}
use spdy_test.Buffer.Mem.{Alloc, bytes, slice_lem}
use spdy_test.Buffer.Space.{contents, IsValid}
use spdy_test.Buffer.Adds.{IsTerminated, Appends, add-Appends}
use spdy_test.Buffer.Slice.{ℤ, pos, negsuc, pos_begin, pos_end, copy_between, add_buffer_slice}

module _ (a : Alloc) (b b2 : Buffer) (v : IsValid b) (t : IsTerminated b) (v2 : IsValid b2) where
  copy_between_lem :
      (from to : ℕ)
      → from ≤ to
      → to ≤ b2.len
      → b.len + b2.len + 17 < 2 ^ 31
      → Appends b (take (to - from) (drop from (contents b2))) (copy_between a b b2 from (pos to))
  unfolding copy_between
  copy_between_lem from to o i h =
      let m = bytes b2.buf in
      let txt = take (to - from) (drop from m) in
      let e : take (to - from) (drop from (contents b2)) ≡ txt =
        take-drop-take (to - from) from b2.len m (omega arith) in
      let past : ltb b2.len to ≡ false = ground arith in
      let back : ltb to from ≡ false = ground arith in
      let l : length txt ≤ b2.len = omega (arith, length-take (to - from) (drop from m)) in
      rw (e, past, back, slice_lem m from (to - from) (omega arith))
        (add-Appends a b v t txt (omega arith))

  -- Between valid buffers, the first one terminated, with the sum of their lengths and 17 below
  -- 2 ^ 31 and `0 <= begin <= end`, `0 < end`, `end` at most the length of the source,
  -- http2d_buffer_add_buffer_slice either answers ret_nomem and leaves the buffer alone, or answers
  -- ret_ok with a valid, terminated buffer to which the bytes from `begin` up to `end` are appended.
  pub slice_forward :
      (begin end : ℕ)
      → begin ≤ end
      → 0 < end
      → end ≤ b2.len
      → b.len + b2.len + 17 < 2 ^ 31
      → Appends b
          (take (end - begin) (drop begin (contents b2)))
          (add_buffer_slice a b b2 (pos begin) (pos end))
  unfolding add_buffer_slice pos_end pos_begin
  slice_forward begin zero o p i h = absurd (omega arith)
  slice_forward begin (suc end) o p i h =
      let full : (b2.len == 0) ≡ false = ground arith in
      let at : ltb b2.len begin ≡ false = ground arith in
      rw (full, at) (copy_between_lem begin (suc end) o i h)

-- A negative `end` that is not HTTP2D_BUF_SLIDE_NONE copies nothing, whatever `begin` is.
pub slice_negative_end :
    (a : Alloc) (b b2 : Buffer) (begin : ℤ) (n : ℕ)
    → n + 1 ≢ 2 ^ 31
    → add_buffer_slice a b b2 begin (negsuc n) ≡ some (Ret.ok, b)
unfolding add_buffer_slice pos_end pos_begin copy_between
slice_negative_end a b b2 begin n h = ground arith

-- A negative `begin` that is not HTTP2D_BUF_SLIDE_NONE and whose magnitude is below the length of
-- the source copies nothing, whatever `end` is.
pub slice_negative_begin :
    (a : Alloc) (b b2 : Buffer) (n : ℕ) (end : ℤ)
    → n + 1 ≢ 2 ^ 31
    → n + 1 < b2.len
    → add_buffer_slice a b b2 (negsuc n) end ≡ some (Ret.ok, b)
unfolding add_buffer_slice pos_end pos_begin copy_between
slice_negative_begin a b b2 n end h k = ground arith

-- http2d_buffer_add_buffer_slice between valid buffers, the first one terminated, with the sum of
-- their lengths and 17 below 2 ^ 31. With `0 <= begin <= end`, `0 < end` and `end` at most the length
-- of the source, it either answers ret_nomem and leaves the buffer alone, or answers ret_ok with a
-- valid, terminated buffer to which the bytes from `begin` up to `end` are appended. With a negative
-- `end` that is not HTTP2D_BUF_SLIDE_NONE, whatever `begin` is, and with a negative `begin` that is
-- not HTTP2D_BUF_SLIDE_NONE and whose magnitude is below the length of the source, whatever `end`
-- is, it answers ret_ok and copies nothing.
pub add_buffer_slice_lem :
    (a : Alloc) (b b2 : Buffer) (begin end k n : ℕ) (other_begin other_end : ℤ)
    → IsValid b
    → IsTerminated b
    → IsValid b2
    → b.len + b2.len + 17 < 2 ^ 31
    → (begin ≤ end) × (0 < end) × (end ≤ b2.len)
    → k + 1 ≢ 2 ^ 31
    → (n + 1 ≢ 2 ^ 31) × (n + 1 < b2.len)
    → Appends b
        (take (end - begin) (drop begin (contents b2)))
        (add_buffer_slice a b b2 (pos begin) (pos end))
      × (add_buffer_slice a b b2 other_begin (negsuc k) ≡ some (Ret.ok, b))
      × (add_buffer_slice a b b2 (negsuc n) other_end ≡ some (Ret.ok, b))
add_buffer_slice_lem a b b2 begin end k n other_begin other_end v t v2 small (le, full, inside)
      given_end (given_begin, below) =
    (
      slice_forward a b b2 v t v2 begin end le full inside small,
      slice_negative_end a b b2 other_begin k given_end,
      slice_negative_begin a b b2 n other_end given_begin below,
    )
