-- ===== src/Zlib/Loops.antt =====
-- Termination and results of the loops of src/spdy-zlib.c.
use spdy_test.Prelude.{
  ℕ, zero, suc, ◌+◌, ◌*◌, ◌<◌, Bool, false, true, length, List, [], ◌++◌, none, some, ◌≡◌, ◌≢◌,
  arith,
}
use spdy_test.Ret.{Ret}
use spdy_test.Zlib.{Zlib, Code, spdy_zlib_inflate}

-- `SPDY_ZLIB_CHUNK`
abbrev pub chunk : ℕ
chunk = 16384

-- What zlib's manual says of inflate: `left` is how many bytes of output the input still stands for,
-- and `waits` says whether the stream still waits for its dictionary. A call that answers Z_OK stops
-- for the end of its input or for a full chunk, which takes the dictionary; a stream waits once at
-- most.
pub record IsZlib (zlib : Zlib) (left : zlib.Stream → List ℕ → ℕ) (waits : zlib.Stream → Bool)
    : Type 0 where
  pub given :
      (zst : zlib.Stream) (input : List ℕ)
      → (zlib.inflate zst input).0 ≡ Code.z_ok
      → left zst input
        ≡ length (zlib.inflate zst input).3
          + left (zlib.inflate zst input).1 (zlib.inflate zst input).2
  pub filled :
      (zst : zlib.Stream) (input : List ℕ)
      → (zlib.inflate zst input).0 ≡ Code.z_ok
      → (zlib.inflate zst input).2 ≢ []
      → length (zlib.inflate zst input).3 ≡ chunk
  pub ready :
      (zst : zlib.Stream) (input : List ℕ)
      → (zlib.inflate zst input).0 ≡ Code.z_ok
      → (zlib.inflate zst input).2 ≢ []
      → waits (zlib.inflate zst input).1 ≡ false
  pub asked :
      (zst : zlib.Stream) (input : List ℕ)
      → (zlib.inflate zst input).0 ≡ Code.z_need_dict
      → waits zst ≡ true
  pub answered :
      (zst : zlib.Stream) (input : List ℕ)
      → (zlib.inflate zst input).0 ≡ Code.z_need_dict
      → (zlib.set_dictionary (zlib.inflate zst input).1).0 ≡ Code.z_ok
      → (waits (zlib.set_dictionary (zlib.inflate zst input).1).1 ≡ false)
        × (left (zlib.set_dictionary (zlib.inflate zst input).1).1 (zlib.inflate zst input).2
            ≡ left zst input)

module _ (zlib : Zlib) where
  open zlib use {Stream, inflate, set_dictionary, deflate}

  module _ (left : Stream → List ℕ → ℕ) (waits : Stream → Bool) (z : IsZlib zlib left waits) where
    -- The rounds of a stream that does not wait: each but the last fills a chunk.
    ready_returns :
        (n : ℕ) (zst : Stream) (input unpacked : List ℕ)
        → waits zst ≡ false
        → left zst input < n * chunk
        → spdy_zlib_inflate zlib n zst input unpacked ≢ none
    unfolding spdy_zlib_inflate
    ready_returns zero zst input unpacked w h = absurd (omega arith)
    ready_returns (suc n) zst input unpacked w h = ground (
      arith,
      z.given zst input,
      z.filled zst input,
      z.ready zst input,
      z.asked zst input,
      ready_returns n (inflate zst input).1 (inflate zst input).2
          (unpacked ++ (inflate zst input).3),
    )

    -- For a zlib that does as its manual says, on an input that stands for fewer than `n` chunks of
    -- output, `n` rounds of the loop of http2d_spdy_zlib_inflate are enough, and one more where the
    -- stream may still wait for its dictionary: the loop returns.
    pub spdy_zlib_inflate_returns :
        (n : ℕ) (zst : Stream) (input unpacked : List ℕ)
        → left zst input < n * chunk
        → spdy_zlib_inflate zlib (suc n) zst input unpacked ≢ none
    unfolding spdy_zlib_inflate
    spdy_zlib_inflate_returns n zst input unpacked h = ground (
      arith,
      z.given zst input,
      z.filled zst input,
      z.ready zst input,
      z.answered zst input,
      ready_returns n (inflate zst input).1 (inflate zst input).2
          (unpacked ++ (inflate zst input).3),
      ready_returns n (set_dictionary (inflate zst input).1).1 (inflate zst input).2 unpacked,
    )

  -- Where inflate answers Z_STREAM_END, http2d_spdy_zlib_inflate answers ret_ok and leaves `unpacked`
  -- as it was before that call: the output of the call is not in it.
  inflate_drops_last_output :
      (fuel : ℕ) (zst : Stream) (input unpacked : List ℕ)
      → (inflate zst input).0 ≡ Code.z_stream_end
      → spdy_zlib_inflate zlib (suc fuel) zst input unpacked
        ≡ some (Ret.ok, (inflate zst input).1, unpacked)
  unfolding spdy_zlib_inflate
  inflate_drops_last_output fuel zst input unpacked h = rw (h, spdy_zlib_inflate)
