-- ===== src/Codec/Number.antt =====
-- The functions of src/buffer.c that write a number: http2d_buffer_add_long10, add_llong10,
-- add_ulong10, add_ullong10, add_ulong16, add_ullong16, add_uint16be and add_uint32be.
-- `long` and `long long` are 64 bits wide; a signed argument is its bit pattern.
pub mod Digits
pub mod Reads
use spdy_test.Prelude.{
  ℕ, zero, suc, ◌+◌, ◌-◌, ◌/◌, ◌%◌, ◌^◌, List, [], ◌∷◌, Option, none, some, ltb, leb, ◌==◌,
  if◌then◌else◌, ◌>>=◌, length,
}
use spdy_test.Ret.{Ret}
use spdy_test.Buffer.{Buffer, u32, store, realloc_new_bufsize, add}
use spdy_test.Buffer.Mem.{Alloc}
use spdy_test.Codec.{to_hex}

-- `IOS_NUMBUF`
abbrev pub ios_numbuf : ℕ
ios_numbuf = 64

-- The digits' `do` loop, from the end of `szOutBuf` on. `i` is the index before the decrement: at 0
-- the write is outside the array. TO_HEX of a decimal digit adds b'0'.
unfoldable pub digit_loop : ℕ → ℕ → ℕ → List ℕ → Option (List ℕ)
digit_loop base zero num out = none
digit_loop base (suc i) num out =
    let out' = to_hex (num % base) ∷ out in
    let rest = digit_loop base i (num / base) out' in if num / base == 0 then some out' else rest

-- "Verify free space in buffer and if needed then enlarge it."
unfoldable pub digits_room : Alloc → Buffer → ℕ → Ret × Buffer
digits_room a b newlen = if leb b.size newlen then realloc_new_bufsize a b newlen else (Ret.ok, b)

-- "Copy including '\0'", a strcpy.
unfoldable pub add_digits : Alloc → Buffer → List ℕ → Option (Ret × Buffer)
add_digits a b txt =
    let newlen = u32 (b.len + length txt) in
    let (r, b1) = digits_room a b newlen in
    elim r [
      | Ret.ok ↦ do b2 ← store b1 b1.len txt (length txt); some (Ret.ok, b2)
      | _ ↦ some (Ret.nomem, b1)
    ]

-- The sign is written in any case, so there has to be room for it.
unfoldable pub signed_digits : ℕ → Option (List ℕ)
signed_digits num =
    let negative = leb (2 ^ 63) num in
    let num' = if negative then (2 ^ 64 - num) % 2 ^ 64 else num in
    do
      txt ← digit_loop 10 (ios_numbuf - 1) num' []
      if ltb (length txt) (ios_numbuf - 1)
          then some (if negative then b'-' ∷ txt else txt)
          else none

module _ (a : Alloc) (b : Buffer) (num : ℕ) where
  unfoldable pub add_long10 : Option (Ret × Buffer)
  add_long10 = do txt ← signed_digits num; add_digits a b txt

  unfoldable pub add_llong10 : Option (Ret × Buffer)
  add_llong10 = do txt ← signed_digits num; add_digits a b txt

  unfoldable pub add_ulong10 : Option (Ret × Buffer)
  add_ulong10 = do txt ← digit_loop 10 (ios_numbuf - 1) num []; add_digits a b txt

  unfoldable pub add_ullong10 : Option (Ret × Buffer)
  add_ullong10 = do txt ← digit_loop 10 (ios_numbuf - 1) num []; add_digits a b txt

  unfoldable pub add_ulong16 : Option (Ret × Buffer)
  add_ulong16 = do txt ← digit_loop 16 (ios_numbuf - 1) num []; add_digits a b txt

  unfoldable pub add_ullong16 : Option (Ret × Buffer)
  add_ullong16 = do txt ← digit_loop 16 (ios_numbuf - 1) num []; add_digits a b txt

  -- htons and htonl leave the bytes in network order.
  unfoldable pub add_uint16be : Option (Ret × Buffer)
  add_uint16be = add a b (num / 2 ^ 8 % 2 ^ 8 ∷ num % 2 ^ 8 ∷ [])

  unfoldable pub add_uint32be : Option (Ret × Buffer)
  add_uint32be =
      add a b (num / 2 ^ 24 % 2 ^ 8 ∷ num / 2 ^ 16 % 2 ^ 8 ∷ num / 2 ^ 8 % 2 ^ 8 ∷ num % 2 ^ 8 ∷ [])
