-- ===== src/Buffer.antt =====
-- The growing byte buffer of src/buffer.c: a block of memory, its size, and the length in use.
-- The children are about the byte string that a valid buffer holds.
pub mod Mem
pub mod Edit
pub mod Slice
pub mod Space
pub mod Adds
pub mod Prepend
pub mod Edits
pub mod InPlace
pub mod Slices
pub mod Emptied
pub mod Text
pub mod Replace
use spdy_test.Prelude.{
  ℕ, zero, suc, ◌+◌, ◌-◌, ◌%◌, ◌^◌, List, [], ◌∷◌, ◌++◌, Option, none, some, ltb, leb, ◌||◌,
  if◌then◌else◌, ◌>>=◌, length, replicate,
}
use spdy_test.Ret.{Ret}
use Mem.{Alloc, bytes, realloc, slice, blit}

-- `http2d_buffer_t`. `none` is the NULL pointer; `some m` is the block that `buf` points at.
pub record Buffer : Type 0 where
  pub buf : Option (List ℕ)
  pub size : ℕ
  pub len : ℕ

-- `cuint_t` is 32 bits wide, `size_t` 64.
abbrev pub u32 : ℕ → ℕ
u32 n = n % 2 ^ 32

abbrev pub size_t : ℕ → ℕ
size_t n = n % 2 ^ 64

-- `REALLOC_EXTRA_SIZE`
abbrev pub realloc_extra_size : ℕ
realloc_extra_size = 16

-- `HTTP2D_BUF_INIT`, and what `http2d_buffer_init` and `http2d_buffer_mrproper` leave.
abbrev pub init : Buffer
init = record { buf = none; size = 0; len = 0 }

-- A buffer over a constant string with its terminator.
abbrev pub fake : List ℕ → Buffer
fake str = record { buf = some (str ++ (0 ∷ [])); size = u32 (length str + 1); len = length str }

abbrev pub mrproper : Buffer → Buffer
mrproper b = record { buf = none; size = 0; len = 0 }

pub clean : Buffer → Option Buffer
clean b = elim b.buf [
  | none ↦ some (record b { len = 0 })
  | some m ↦ do m' ← blit m 0 (0 ∷ []); some (record b { buf = some m'; len = 0 })
]

pub swap_buffers : Buffer → Buffer → Buffer × Buffer
swap_buffers b second =
    let tmp = b in
    (
      record { buf = second.buf; size = second.size; len = second.len },
      record { buf = tmp.buf; size = tmp.size; len = tmp.len },
    )

module _ (a : Alloc) where
  -- The new buffer is `none` where malloc fails.
  pub dup : Buffer → Option (Ret × Option Buffer)
  dup b = elim (realloc a none (u32 (b.len + 1))) [
    | none ↦ some (Ret.nomem, none)
    | some n ↦ do
      m ← b.buf
      txt ← slice m 0 (b.len + 1)
      n' ← blit n 0 txt
      some (Ret.ok, some (record { buf = some n'; size = u32 (b.len + 1); len = b.len }))
  ]

  pub realloc_inc_bufsize : Buffer → ℕ → Ret × Buffer
  realloc_inc_bufsize b incsize =
      let newsize = size_t (b.size + incsize + realloc_extra_size + 1) in
      elim (realloc a b.buf newsize) [
        | none ↦ (Ret.nomem, b)
        | some pbuf ↦ (Ret.ok, record b { buf = some pbuf; size = u32 newsize })
      ]

  pub realloc_new_bufsize : Buffer → ℕ → Ret × Buffer
  realloc_new_bufsize b newsize =
      let newsize' = size_t (newsize + (realloc_extra_size + 1)) in
      elim (realloc a b.buf newsize') [
        | none ↦ (Ret.nomem, b)
        | some pbuf ↦ (Ret.ok, record b { buf = some pbuf; size = u32 newsize' })
      ]

-- `int available = buf->size - buf->len`, as the bit pattern of the 32-bit difference.
abbrev pub available : Buffer → ℕ
available b = u32 (b.size + 2 ^ 32 - b.len)

-- `size - available` in `size_t`, where the `int` is sign-extended.
abbrev pub size_sub_int : ℕ → ℕ → ℕ
size_sub_int size n =
    if ltb n (2 ^ 31) then size_t (size + 2 ^ 64 - n) else size_t (size + (2 ^ 32 - n))

-- Copies `txt` over the bytes at `off`, counts `n` more bytes, and writes the terminator.
abbrev pub store : Buffer → ℕ → List ℕ → ℕ → Option Buffer
store b off txt n = do
  m ← b.buf
  m' ← blit m off txt
  let len' = u32 (b.len + n)
  m'' ← blit m' len' (0 ∷ [])
  some (record b { buf = some m''; len = len' })

abbrev pub store_char : Buffer → ℕ → Option (Ret × Buffer)
store_char b c = do b' ← store b b.len (c ∷ []) 1; some (Ret.ok, b')

module _ (a : Alloc) where
  -- The test and the growth that `add` and `prepend` begin with.
  pub make_room : Buffer → ℕ → Ret × Buffer
  unfolding realloc_inc_bufsize
  make_room b size =
      if ltb (available b) (size_t (size + 1))
      then realloc_inc_bufsize a b (size_sub_int size (available b))
      else (Ret.ok, b)

  -- The list is the `size` bytes that `txt` points at.
  pub add : Buffer → List ℕ → Option (Ret × Buffer)
  add b [] = some (Ret.ok, b)
  add b (x ∷ txt) =
      let size = length (x ∷ txt) in
      let (r, b1) = make_room b size in
      elim r [
        | Ret.ok ↦ do b2 ← store b1 b1.len (x ∷ txt) size; some (Ret.ok, b2)
        | _ ↦ some (Ret.nomem, b1)
      ]

  pub add_buffer : Buffer → Buffer → Option (Ret × Buffer)
  add_buffer b b2 = do txt ← slice (bytes b2.buf) 0 b2.len; add b txt

  pub add_char : Buffer → ℕ → Option (Ret × Buffer)
  add_char b c =
      if ltb (u32 (b.len + 1)) b.size
      then store_char b c
      else let (r, b1) = realloc_inc_bufsize a b 1 in
        elim r [ Ret.ok ↦ store_char b1 c | _ ↦ some (Ret.nomem, b1) ]

  -- The same for the `int num` of `add_char_n`: `free < num + 1` compares signed numbers, and a
  -- negative `free` has its top bit set.
  pub make_room_int : Buffer → ℕ → Ret × Buffer
  make_room_int b num =
      if leb (2 ^ 31) (available b) || ltb (available b) (num + 1)
      then realloc_inc_bufsize a b (size_sub_int num (available b))
      else (Ret.ok, b)

  -- `num` is positive; for any other the code returns at once, as at 0.
  pub add_char_n : Buffer → ℕ → ℕ → Option (Ret × Buffer)
  add_char_n b c zero = some (Ret.ok, b)
  add_char_n b c (suc n) =
      let num = suc n in
      let (r, b1) = make_room_int b num in
      elim r [
        | Ret.ok ↦ do b2 ← store b1 b1.len (replicate num c) num; some (Ret.ok, b2)
        | _ ↦ some (Ret.nomem, b1)
      ]

  pub prepend : Buffer → List ℕ → Option (Ret × Buffer)
  prepend b txt =
      let size = length txt in
      let (r, b1) = make_room b size in
      elim r [
        | Ret.ok ↦ do
          m ← b1.buf
          old ← slice m 0 b1.len
          moved ← blit m size old
          b2 ← store (record b1 { buf = some moved }) 0 txt size
          some (Ret.ok, b2)
        | _ ↦ some (Ret.nomem, b1)
      ]

  unfoldable pub ensure_size : Buffer → ℕ → Ret × Buffer
  ensure_size b size = if leb size b.size then (Ret.ok, b) else elim (realloc a b.buf size) [
    | none ↦ (Ret.nomem, b)
    | some pbuf ↦ (Ret.ok, record b { buf = some pbuf; size = u32 size })
  ]

  unfoldable pub ensure_addlen : Buffer → ℕ → Ret × Buffer
  ensure_addlen b addlen =
      if ltb (size_t (b.len + addlen)) b.size
      then (Ret.ok, b)
      else ensure_size b (size_t (b.len + addlen + 1))
