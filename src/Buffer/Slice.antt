-- ===== src/Buffer/Slice.antt =====
-- http2d_buffer_add_buffer_slice of src/buffer.c. Its `ssize_t` arguments are integers.
use spdy_test.Prelude.{
  ℕ, zero, suc, ◌+◌, ◌-◌, ◌^◌, Option, none, some, Bool, false, ltb, ◌==◌, ◌||◌, if◌then◌else◌,
  ◌>>=◌,
}
use spdy_test.Ret.{Ret}
use spdy_test.Buffer.{Buffer, add}
use spdy_test.Buffer.Mem.{Alloc, bytes, slice}

-- `negsuc n` is -(n + 1).
pub data ℤ : Type 0 where
  pos : ℕ → ℤ
  negsuc : ℕ → ℤ

-- `HTTP2D_BUF_SLIDE_NONE`, which is INT_MIN.
abbrev pub is_slide_none : ℤ → Bool
is_slide_none (pos n) = false
is_slide_none (negsuc n) = n + 1 == 2 ^ 31

-- "Check the end": `none` is the return in its last branch. `end > 0` fails at 0 too, where
-- `-end > len` fails as well.
unfoldable pub pos_end : ℕ → ℤ → Option ℤ
pos_end len (pos zero) = none
pos_end len (pos (suc n)) = some (pos (suc n))
pos_end len (negsuc n) =
    if is_slide_none (negsuc n)
    then some (pos len)
    else if ltb len (n + 1)
    then some (negsuc (n + 1 - len - 1))
    else none

-- "Check the beginning"; `len - begin` adds where `begin` is negative.
unfoldable pub pos_begin : ℕ → ℤ → ℕ
pos_begin len (pos n) = if ltb len n then len else n
pos_begin len (negsuc n) =
    if is_slide_none (negsuc n) then 0 else if ltb (n + 1) len then len + (n + 1) else 0

module _ (a : Alloc) where
  -- "Sanity check", and the copy of the bytes between the two positions.
  unfoldable pub copy_between : Buffer → Buffer → ℕ → ℤ → Option (Ret × Buffer)
  copy_between b b2 from (negsuc n) = some (Ret.ok, b)
  copy_between b b2 from (pos to) =
      if ltb b2.len to || ltb to from
      then some (Ret.ok, b)
      else do txt ← slice (bytes b2.buf) from (to - from); add a b txt

  unfoldable pub add_buffer_slice : Buffer → Buffer → ℤ → ℤ → Option (Ret × Buffer)
  add_buffer_slice b b2 begin end =
      if b2.len == 0 then some (Ret.ok, b) else elim (pos_end b2.len end) [
        | none ↦ some (Ret.ok, b)
        | some to ↦ copy_between b b2 (pos_begin b2.len begin) to
      ]
