-- ===== src/Buffer/Space.antt =====
-- Valid buffers, the bytes that they hold, and the memory that realloc_inc_bufsize and its siblings
-- of src/buffer.c obtain.
use spdy_test.Prelude.{
  ℕ, ◌+◌, ◌-◌, ◌^◌, ◌≤◌, ◌<◌, List, none, some, ◌≡◌, refl, sym, ap, ◌∙◌, ◌⊎◌, inl, inr, arith, ltb,
  leb, Bool-cases, Option-cases, length, take, take-append_le,
}
use spdy_test.Ret.{Ret}
use spdy_test.Buffer.{
  Buffer, u32, size_t, available, size_sub_int, make_room, realloc_inc_bufsize, realloc_new_bufsize,
  ensure_size,
}
use spdy_test.Buffer.Mem.{Alloc, bytes, realloc, realloc-grow}

-- The string that a buffer holds.
abbrev pub contents : Buffer → List ℕ
contents b = take b.len (bytes b.buf)

-- The block has the recorded size, and room for a terminator unless there is no block.
pub record IsValid (b : Buffer) : Type 0 where
  pub sized : length (bytes b.buf) ≡ b.size
  pub room : (b.len < b.size) ⊎ ((b.len ≡ 0) × (b.size ≡ 0) × (b.buf ≡ none))
  pub small : b.size < 2 ^ 31

-- `b1` holds what `b` holds, in a block with room for `n` bytes more and the terminator.
pub record IsGrown (b : Buffer) (n : ℕ) (b1 : Buffer) : Type 0 where
  pub block : List ℕ
  pub at_block : b1.buf ≡ some block
  pub sized : length block ≡ b1.size
  pub len_kept : b1.len ≡ b.len
  pub kept : take b.len block ≡ contents b
  pub room : b.len + n < b1.size
  pub small : b1.size < 2 ^ 31

-- The growth either fails and leaves the buffer alone, or gives the room asked for.
abbrev pub Grows : Buffer → ℕ → Ret × Buffer → Type 0
Grows b n r = (r ≡ (Ret.nomem, b)) ⊎ ((b1 : Buffer) × (r ≡ (Ret.ok, b1)) × IsGrown b n b1)

module _ (a : Alloc) (b : Buffer) (v : IsValid b) where
  IsGrown-by_realloc :
      (n newsize : ℕ) {m : List ℕ}
      → realloc a b.buf newsize ≡ some m
      → b.size ≤ newsize
      → b.len + n < newsize
      → newsize < 2 ^ 31
      → IsGrown b n (record b { buf = some m; size = newsize })
  IsGrown-by_realloc n newsize {m} e ge more lt =
      let (rest, split, sized) = realloc-grow a b.buf newsize (omega arith) e in
      record {
        block = m;
        at_block = refl;
        sized = sized;
        len_kept = refl;
        kept = ap (take b.len) split ∙ take-append_le b.len (bytes b.buf) rest (omega arith);
        room = more;
        small = lt;
      }

  pub realloc_inc_bufsize_lem :
      (i n : ℕ)
      → b.size + i + 17 < 2 ^ 31
      → b.len + n < b.size + i + 17
      → Grows b n (realloc_inc_bufsize a b i)
  unfolding realloc_inc_bufsize
  realloc_inc_bufsize_lem i n h more =
      elim (Option-cases (realloc a b.buf (size_t (b.size + i + 16 + 1)))) [
        | inl fails ↦ inl (rw (fails, realloc_inc_bufsize))
        | inr (m, got) ↦
            let e : size_t (b.size + i + 16 + 1) ≡ b.size + i + 17 = omega arith in
            let e' : u32 (size_t (b.size + i + 16 + 1)) ≡ b.size + i + 17 = omega arith in
            inr (
              record b { buf = some m; size = b.size + i + 17 },
              rw (got, realloc_inc_bufsize)
                  (ap (λ s. (Ret.ok, record b { buf = some m; size = s })) e'),
              IsGrown-by_realloc n (b.size + i + 17) (rw e at got) (omega arith) more h,
            )
      ]

  pub realloc_new_bufsize_lem :
      (n : ℕ)
      → b.size ≤ b.len + n
      → b.len + n + 17 < 2 ^ 31
      → Grows b n (realloc_new_bufsize a b (b.len + n))
  unfolding realloc_new_bufsize
  realloc_new_bufsize_lem n short h =
      elim (Option-cases (realloc a b.buf (size_t (b.len + n + (16 + 1))))) [
        | inl fails ↦ inl (rw (fails, realloc_new_bufsize))
        | inr (m, got) ↦
            let e : size_t (b.len + n + (16 + 1)) ≡ b.len + n + 17 = omega arith in
            let e' : u32 (size_t (b.len + n + (16 + 1))) ≡ b.len + n + 17 = omega arith in
            inr (
              record b { buf = some m; size = b.len + n + 17 },
              rw (got, realloc_new_bufsize)
                  (ap (λ s. (Ret.ok, record b { buf = some m; size = s })) e'),
              IsGrown-by_realloc n (b.len + n + 17) (rw e at got) (omega arith) (omega arith) h,
            )
      ]

  -- A buffer with room already is its own growth.
  pub IsGrown-in_place : (n : ℕ) → b.len + n < b.size → IsGrown b n b
  IsGrown-in_place n h = elim (Option-cases b.buf) [
    | inl null ↦ absurd (ground (arith, v.sized, ap bytes null))
    | inr (m, at) ↦ record {
      block = m;
      at_block = at;
      sized = ap (λ o. length (bytes o)) (sym at) ∙ v.sized;
      len_kept = refl;
      kept = ap (λ o. take b.len (bytes o)) (sym at);
      room = h;
      small = v.small;
    }
  ]

  pub incsize_lem :
      (n : ℕ)
      → b.size - b.len < n + 1
      → n < 2 ^ 31
      → size_sub_int n (available b) ≡ n - (b.size - b.len)
  incsize_lem n h k = ground arith

  pub make_room_lem : (n : ℕ) → b.len + n + 17 < 2 ^ 31 → Grows b n (make_room a b n)
  unfolding make_room
  make_room_lem n h = elim (Bool-cases (ltb (available b) (size_t (n + 1)))) [
    | inl short ↦
        let few : b.size - b.len < n + 1 = ground arith in
        rw (short, incsize_lem n few (omega arith))
          (realloc_inc_bufsize_lem (n - (b.size - b.len)) n (omega arith) (omega arith))
    | inr enough ↦ rw enough (inr (b, refl, IsGrown-in_place n (ground arith)))
  ]

  pub ensure_size_lem :
      (n : ℕ) → n < 2 ^ 31 → b.len < n → Grows b (n - b.len - 1) (ensure_size a b n)
  unfolding ensure_size
  ensure_size_lem n h more = elim (Bool-cases (leb n b.size)) [
    | inl enough ↦ rw enough (inr (b, refl, IsGrown-in_place (n - b.len - 1) (ground arith)))
    | inr short ↦ elim (Option-cases (realloc a b.buf n)) [
      | inl fails ↦ inl (rw (short, fails))
      | inr (m, got) ↦
          let e : u32 n ≡ n = omega arith in
          inr (
            record b { buf = some m; size = n },
            rw (short, got) (ap (λ s. (Ret.ok, record b { buf = some m; size = s })) e),
            IsGrown-by_realloc (n - b.len - 1) n got (ground arith) (omega arith) h,
          )
    ]
  ]
