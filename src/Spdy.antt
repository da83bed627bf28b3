-- ===== src/Spdy.antt =====
-- The frame headers of src/spdy.c. Bytes are numbers below 256, arrays are lists of them.
pub mod RoundTrip
pub mod Range
use spdy_test.Prelude.{
  ℕ, zero, suc, ◌+◌, ◌*◌, ◌/◌, ◌%◌, ◌^◌, List, [], ◌∷◌, Option, some, ◌>>=◌, get_elem?,
}

-- A write into an array at a constant index; the arrays are 8 and 12 bytes long.
abbrev pub set : List ℕ → ℕ → ℕ → List ℕ
set [] i v = []
set (x ∷ xs) zero v = v ∷ xs
set (x ∷ xs) (suc i) v = x ∷ set xs i v

-- memcpy and ntohs; `none` is a read past the end.
unfoldable pub read_uint16 : List ℕ → ℕ → Option ℕ
read_uint16 bytes pos = do
  hi ← get_elem? bytes pos
  lo ← get_elem? bytes (pos + 1)
  some (hi * 256 + lo)

-- memcpy and ntohl
unfoldable pub read_uint32 : List ℕ → ℕ → Option ℕ
read_uint32 bytes pos = do
  b0 ← get_elem? bytes pos
  b1 ← get_elem? bytes (pos + 1)
  b2 ← get_elem? bytes (pos + 2)
  b3 ← get_elem? bytes (pos + 3)
  some (b0 * 2 ^ 24 + b1 * 2 ^ 16 + b2 * 2 ^ 8 + b3)

-- htons and memcpy
unfoldable pub write_uint16 : List ℕ → ℕ → ℕ → List ℕ
write_uint16 buf i n = set (set buf i (n / 256 % 256)) (i + 1) (n % 256)

-- htonl and memcpy
unfoldable pub write_uint32 : List ℕ → ℕ → ℕ → List ℕ
write_uint32 buf i n =
    set
      (set (set (set buf i (n / 2 ^ 24 % 256)) (i + 1) (n / 2 ^ 16 % 256)) (i + 2)
        (n / 2 ^ 8 % 256))
      (i + 3) (n % 256)

-- `http2d_spdy_ctrl_t`
pub record Ctrl : Type 0 where
  pub version : ℕ
  pub type : ℕ
  pub flags : ℕ
  pub length : ℕ

-- The masks 0x7fffffff, 0xffffff and 0x7fff keep the low 31, 24 and 15 bits.
abbrev pub spdy_mask_stream_id : ℕ → ℕ
spdy_mask_stream_id n = n % 2 ^ 31

abbrev pub spdy_mask_length : ℕ → ℕ
spdy_mask_length n = n % 2 ^ 24

abbrev pub spdy_mask_version : ℕ → ℕ
spdy_mask_version n = n % 2 ^ 15

abbrev pub spdy_version : ℕ
spdy_version = 3

-- `http2d_spdy_frame_type_t`
abbrev pub spdy_syn_stream : ℕ
spdy_syn_stream = 1

abbrev pub spdy_syn_reply : ℕ
spdy_syn_reply = 2

abbrev pub spdy_rst_stream : ℕ
spdy_rst_stream = 3

abbrev pub spdy_goaway : ℕ
spdy_goaway = 7

abbrev pub spdy_frame_head_length : ℕ
spdy_frame_head_length = 8

unfoldable pub read_ctrl : List ℕ → ℕ → Option Ctrl
unfolding read_uint16 read_uint32
read_ctrl buf pos = do
  version ← read_uint16 buf pos
  type ← read_uint16 buf (pos + 2)
  flags ← get_elem? buf (pos + 4)
  length ← read_uint32 buf (pos + 4)
  some (record {
    version = spdy_mask_version version;
    type = type;
    flags = flags;
    length = spdy_mask_length length;
  })

-- `b |= 1 << 7` and `b &= ~(1 << 7)` on a byte.
abbrev pub set_top_bit : ℕ → ℕ
set_top_bit b = b % 128 + 128

abbrev pub clear_top_bit : ℕ → ℕ
clear_top_bit b = b % 128

-- Changes the byte at `i`.
abbrev pub modify : List ℕ → ℕ → (ℕ → ℕ) → List ℕ
modify [] i f = []
modify (x ∷ xs) zero f = f x ∷ xs
modify (x ∷ xs) (suc i) f = x ∷ modify xs i f

unfoldable pub write_ctrl : List ℕ → ℕ → ℕ → ℕ → List ℕ
unfolding write_uint16 write_uint32
write_ctrl buf frame_type flags length =
    let buf1 = modify (write_uint16 buf 0 spdy_version) 0 set_top_bit in
    let buf2 = write_uint16 buf1 2 frame_type in set (write_uint32 buf2 4 length) 4 flags

unfoldable pub write_syn_reply : List ℕ → ℕ → ℕ → ℕ → List ℕ
unfolding write_ctrl write_uint32
write_syn_reply buf id flags headers_length =
    let buf1 = write_ctrl buf spdy_syn_reply flags ((headers_length + 4) % 2 ^ 32) in
    modify (write_uint32 buf1 8 id) 8 clear_top_bit

unfoldable pub write_data : List ℕ → ℕ → ℕ → ℕ → List ℕ
unfolding write_uint32
write_data buf id flags length =
    let buf1 = modify (write_uint32 buf 0 id) 0 clear_top_bit in
    set (write_uint32 buf1 4 length) 4 flags
