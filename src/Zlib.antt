-- ===== src/Zlib.antt =====
-- The loops of src/spdy-zlib.c over zlib, which is a parameter.
pub mod Loops
use spdy_test.Prelude.{
  ℕ, zero, suc, List, [], ◌∷◌, ◌++◌, Option, none, some, Bool, ◌==◌, if◌then◌else◌, length,
}
use spdy_test.Ret.{Ret}

-- The answers of zlib that the code tells apart; `z_other` is any other one.
pub data Code : Type 0 where
  z_ok z_stream_end z_need_dict z_buf_error z_data_error z_stream_error z_other : Code

-- zlib: one call of inflate (into a chunk of SPDY_ZLIB_CHUNK bytes) or of deflate (into `room`
-- bytes) takes input and gives the input left, and the output of that call. `inflate_end` and
-- `deflate_end` are what inflateEnd and deflateEnd leave of a stream.
pub record Zlib : Type 1 where
  pub Stream : Type 0
  pub inflate : Stream → List ℕ → Code × Stream × List ℕ × List ℕ
  pub inflate_end : Stream → Stream
  pub set_dictionary : Stream → Code × Stream
  pub deflate : Stream → List ℕ → ℕ → Code × Stream × List ℕ × List ℕ
  pub deflate_end : Stream → Stream

module _ (zlib : Zlib) where
  open zlib use {Stream, inflate, inflate_end, set_dictionary, deflate, deflate_end}

  -- http2d_spdy_zlib_inflate: the answer, the stream, and what was added to `unpacked`. The loop
  -- takes fuel; `none` says that it ran out.
  unfoldable pub spdy_zlib_inflate : ℕ → Stream → List ℕ → List ℕ → Option (Ret × Stream × List ℕ)
  spdy_zlib_inflate zero zst input unpacked = none
  spdy_zlib_inflate (suc fuel) zst input unpacked =
      let (r, zst', rest, out) = inflate zst input in
      let (r2, zst2) = set_dictionary zst' in
      let more = spdy_zlib_inflate fuel zst' rest (unpacked ++ out) in
      let again = spdy_zlib_inflate fuel zst2 rest unpacked in
      let failed = some (Ret.error, inflate_end zst', unpacked) in
      elim r [
        | Code.z_ok ↦ if length rest == 0 then some (Ret.ok, zst', unpacked ++ out) else more
        | Code.z_stream_end ↦ some (Ret.ok, zst', unpacked)
        | Code.z_need_dict ↦ elim r2 [ Code.z_ok ↦ again | _ ↦ some (Ret.error, zst2, unpacked) ]
        | Code.z_buf_error ↦ failed
        | Code.z_data_error ↦ failed
        | Code.z_stream_error ↦ failed
        | Code.z_other ↦ some (Ret.error, zst', unpacked)
      ]

  -- The loop of http2d_spdy_zlib_deflate, which goes on while `avail_out` is 0; `room` is
  -- sizeof (tmp).
  unfoldable pub deflate_loop : ℕ → ℕ → Stream → List ℕ → List ℕ → Option (Ret × Stream × List ℕ)
  deflate_loop zero room zst input packed = none
  deflate_loop (suc fuel) room zst input packed =
      let (re, zst', rest, out) = deflate zst input room in
      let packed' = packed ++ out in
      let ended = deflate_end zst' in
      let full = length out == room in
      let more = deflate_loop fuel room zst' rest packed' in
      let more_ended = deflate_loop fuel room ended rest packed' in
      elim re [
        | Code.z_ok ↦ if full then more else some (Ret.ok, zst', packed')
        | Code.z_stream_end ↦ if full then more_ended else some (Ret.ok, ended, packed')
        | _ ↦ some (Ret.error, zst', packed)
      ]

  unfoldable pub spdy_zlib_deflate : ℕ → Stream → List ℕ → List ℕ → Option (Ret × Stream × List ℕ)
  spdy_zlib_deflate fuel zst buf packed = deflate_loop fuel (length buf) zst buf packed
