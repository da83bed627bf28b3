-- ===== src/Spdy/RoundTrip.antt =====
-- What the writers of src/spdy.c put into a buffer, read_ctrl and the masks read back.
use spdy_test.Prelude.{
  ℕ, ◌+◌, ◌*◌, ◌/◌, ◌%◌, ◌^◌, ◌<◌, List, [], ◌∷◌, ◌++◌, some, ◌≡◌, refl, ◌∙◌, arith, length,
  get_elem?, get_elem?-append_add, get_elem?-append_zero,
}
use native.Mathlib.Nat.{add_assoc}
use spdy_test.Spdy.{
  Ctrl, read_uint32, read_ctrl, write_ctrl, write_syn_reply, write_data, spdy_mask_stream_id,
  spdy_mask_length, spdy_syn_reply,
}

-- Reading behind a prefix is reading what follows it.
pub read_ctrl-append : (pre xs : List ℕ) → read_ctrl (pre ++ xs) (length pre) ≡ read_ctrl xs 0
unfolding read_ctrl
read_ctrl-append pre xs = simp (add_assoc, get_elem?-append_add, get_elem?-append_zero)

module _ (b0 b1 b2 b3 b4 b5 b6 b7 : ℕ) (rest : List ℕ) where
  abbrev array : List ℕ
  array = b0 ∷ b1 ∷ b2 ∷ b3 ∷ b4 ∷ b5 ∷ b6 ∷ b7 ∷ rest

  write_ctrl_read :
      (frame_type flags len : ℕ)
      → frame_type < 2 ^ 16
      → read_ctrl (write_ctrl array frame_type flags len) 0
        ≡ some (record { version = 3; type = frame_type; flags = flags; length = len % 2 ^ 24 })
  unfolding read_ctrl write_ctrl
  write_ctrl_read frame_type flags len h = ground arith

  -- http2d_spdy_read_ctrl reads back what http2d_spdy_write_ctrl put into an array of at least
  -- eight bytes, behind any bytes `pre`: version 3, the type where it is below 2 ^ 16, the flags and
  -- the low 24 bits of the length.
  pub read_ctrl-write_ctrl :
      (pre : List ℕ) (frame_type flags len : ℕ)
      → frame_type < 2 ^ 16
      → read_ctrl (pre ++ write_ctrl array frame_type flags len) (length pre)
        ≡ some (record { version = 3; type = frame_type; flags = flags; length = len % 2 ^ 24 })
  read_ctrl-write_ctrl pre frame_type flags len h =
      read_ctrl-append pre (write_ctrl array frame_type flags len)
      ∙ write_ctrl_read frame_type flags len h

  -- In an array of bytes that begins with 128 and 3, http2d_spdy_read_ctrl finds version 3, and
  -- http2d_spdy_write_ctrl of the fields it finds into the same array leaves the array as it is.
  write_ctrl-read_ctrl :
      {c : Ctrl}
      → b0 ≡ 128
      → b1 ≡ 3
      → (b2 < 256) × (b3 < 256) × (b4 < 256) × (b5 < 256) × (b6 < 256) × (b7 < 256)
      → read_ctrl array 0 ≡ some c
      → (c.version ≡ 3) × (write_ctrl array c.type c.flags c.length ≡ array)
  unfolding read_ctrl write_ctrl
  write_ctrl-read_ctrl e0 e1 h r = ground arith

  -- For a stream id below 2 ^ 32, the header that http2d_spdy_write_data puts into an array of at
  -- least eight bytes holds the low 31 bits of the id behind a clear control bit, the flags, and the
  -- low 24 bits of the length.
  pub write_data_lem :
      (id flags len : ℕ)
      → id < 2 ^ 32
      → (b : ℕ) × (get_elem? (write_data array id flags len) 0 ≡ some b)
        × (b < 128)
        × (read_uint32 (write_data array id flags len) 0 ≡ some (spdy_mask_stream_id id))
        × (get_elem? (write_data array id flags len) 4 ≡ some flags)
        × (n : ℕ) × (read_uint32 (write_data array id flags len) 4 ≡ some n)
        × (spdy_mask_length n ≡ len % 2 ^ 24)
  unfolding write_data read_uint32
  write_data_lem id flags len h = (
    id / 2 ^ 24 % 256 % 128,
    refl,
    omega arith,
    ground arith,
    refl,
    flags * 2 ^ 24 + len / 2 ^ 16 % 256 * 2 ^ 16 + len / 2 ^ 8 % 256 * 2 ^ 8 + len % 256,
    refl,
    omega arith,
  )

  -- For a stream id below 2 ^ 31, http2d_spdy_read_ctrl reads the header of a data frame as a
  -- control frame, with the upper half of the id as its version and the lower half as its type.
  read_ctrl-write_data :
      (id flags len : ℕ)
      → id < 2 ^ 31
      → read_ctrl (write_data array id flags len) 0
        ≡ some (record {
          version = id / 2 ^ 16;
          type = id % 2 ^ 16;
          flags = flags;
          length = len % 2 ^ 24;
        })
  unfolding read_ctrl write_data
  read_ctrl-write_data id flags len h = ground arith

-- http2d_spdy_write_syn_reply on an array of twelve bytes, with a headers length whose sum with 4
-- stays below 2 ^ 24, writes a control frame of version 3 that http2d_spdy_read_ctrl reads as a
-- SYN_REPLY with the flags and that sum as its length, then the low 31 bits of the stream id.
pub write_syn_reply_lem :
    (b0 b1 b2 b3 b4 b5 b6 b7 b8 b9 b10 b11 : ℕ) (id flags headers_length : ℕ)
    → headers_length + 4 < 2 ^ 24
    → (read_ctrl
          (write_syn_reply
            (b0 ∷ b1 ∷ b2 ∷ b3 ∷ b4 ∷ b5 ∷ b6 ∷ b7 ∷ b8 ∷ b9 ∷ b10 ∷ b11 ∷ [])
            id
            flags
            headers_length)
          0
        ≡ some (record {
          version = 3;
          type = spdy_syn_reply;
          flags = flags;
          length = headers_length + 4;
        }))
      × (read_uint32
            (write_syn_reply
              (b0 ∷ b1 ∷ b2 ∷ b3 ∷ b4 ∷ b5 ∷ b6 ∷ b7 ∷ b8 ∷ b9 ∷ b10 ∷ b11 ∷ [])
              id
              flags
              headers_length)
            8
          ≡ some (spdy_mask_stream_id id))
unfolding read_ctrl write_syn_reply read_uint32
write_syn_reply_lem b0 b1 b2 b3 b4 b5 b6 b7 b8 b9 b10 b11 id flags headers_length h =
    (ground arith, ground arith)
