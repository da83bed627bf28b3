-- ===== src/Buffer/Emptied.antt =====
-- http2d_buffer_ensure_size and http2d_buffer_clean of src/buffer.c, as the encoders call them.
use spdy_test.Prelude.{
  ℕ, ◌+◌, ◌≤◌, ◌<◌, ◌^◌, [], some, ◌≡◌, refl, sym, ap, ◌∙◌, ◌⊎◌, inl, inr, arith, leb, ltb,
  Bool-cases, Option-cases, subst, length, take, take-append_le,
}
use spdy_test.Ret.{Ret}
use spdy_test.Buffer.{Buffer, clean, ensure_size, ensure_addlen, u32, size_t}
use spdy_test.Buffer.Mem.{Alloc, bytes, realloc, blit, realloc-grow}
use spdy_test.Buffer.Space.{contents, IsValid}
use spdy_test.Buffer.Adds.{Holds}
use spdy_test.Buffer.Edits.{clean_lem}

clean_keeps : (b : Buffer) {b' : Buffer} → clean b ≡ some b' → (b'.len ≡ 0) × (b'.size ≡ b.size)
unfolding clean blit
clean_keeps b h = ground arith

module _ (a : Alloc) (b : Buffer) (v : IsValid b) where
  -- A granted http2d_buffer_ensure_size leaves a valid buffer of that size with the same string.
  pub ensured :
      (n : ℕ)
      → n < 2 ^ 31
      → (ensure_size a b n).0 ≡ Ret.ok
      → IsValid (ensure_size a b n).1
        × (n ≤ (ensure_size a b n).1.size)
        × ((ensure_size a b n).1.len ≡ b.len)
        × (contents (ensure_size a b n).1 ≡ contents b)
  unfolding ensure_size
  ensured n small ok = elim (Bool-cases (leb n b.size)) [
    | inl enough ↦ rw (enough, ensure_size) (v, ground arith, refl, refl)
    | inr short ↦ elim (Option-cases (realloc a b.buf n)) [
      | inl fails ↦ absurd (ground (arith, fails, short))
      | inr (m, got) ↦
          let e : u32 n ≡ n = omega arith in
          let (rest, split, sized) = realloc-grow a b.buf n (ground (arith, v.sized, short)) got in
          let le : b.len ≤ length (bytes b.buf) = ground (arith, v.sized, v.room) in
          let grown = record b { buf = some m; size = n } in
          let valid : IsValid grown = record {
            sized = sized;
            room = inl (ground (arith, v.room, short));
            small = small;
          } in
          let same : ensure_size a b n ≡ (Ret.ok, grown) =
            rw (short, ensure_size)
              (rw got (ap (λ s. (Ret.ok, record b { buf = some m; size = s })) e)) in
          subst
            (λ r. IsValid r.1 × (n ≤ r.1.size) × (r.1.len ≡ b.len) × (contents r.1 ≡ contents b))
            (sym same)
            (
              valid,
              omega arith,
              refl,
              ap (take b.len) split ∙ take-append_le b.len (bytes b.buf) rest le,
            )
    ]
  ]

  -- A granted http2d_buffer_ensure_addlen leaves room for `n` bytes and the terminator.
  pub ensured_addlen :
      (n : ℕ)
      → b.len + n + 1 < 2 ^ 31
      → (ensure_addlen a b n).0 ≡ Ret.ok
      → IsValid (ensure_addlen a b n).1
        × (b.len + n < (ensure_addlen a b n).1.size)
        × ((ensure_addlen a b n).1.len ≡ b.len)
        × (contents (ensure_addlen a b n).1 ≡ contents b)
  unfolding ensure_addlen
  ensured_addlen n small ok =
      let e : size_t (b.len + n) ≡ b.len + n = omega arith in
      let e' : size_t (b.len + n + 1) ≡ b.len + n + 1 = omega arith in
      elim (Bool-cases (ltb (size_t (b.len + n)) b.size)) [
        | inl enough ↦ rw (enough, ensure_addlen) (v, ground arith, refl, refl)
        | inr short ↦
            let same : ensure_addlen a b n ≡ ensure_size a b (b.len + n + 1) =
              rw (short, ensure_addlen) (ap (ensure_size a b) e') in
            let (valid, room, l, kept) =
              ensured (b.len + n + 1) (omega arith) (ap (λ r. r.0) (sym same) ∙ ok) in
            subst
              (λ r.
                IsValid r.1
                × (b.len + n < r.1.size)
                × (r.1.len ≡ b.len)
                × (contents r.1 ≡ contents b))
              (sym same) (valid, omega arith, l, kept)
      ]

  -- http2d_buffer_ensure_size of `n` bytes, then http2d_buffer_clean: an empty buffer of `n` bytes.
  pub emptied :
      (n : ℕ)
      → n < 2 ^ 31
      → (ensure_size a b n).0 ≡ Ret.ok
      → (b' : Buffer) × (clean (ensure_size a b n).1 ≡ some b')
        × Holds [] b'
        × (b'.len ≡ 0)
        × (n ≤ b'.size)
  emptied n small ok =
      let (valid, room, l, same) = ensured n small ok in
      let (b', cleans, holds) = clean_lem (ensure_size a b n).1 valid in
      let (none_left, size_kept) = clean_keeps (ensure_size a b n).1 cleans in
      (b', cleans, holds, none_left, omega arith)

  -- Granted or not.
  pub ensure_addlen_cases :
      (n : ℕ) → (ensure_addlen a b n ≡ (Ret.nomem, b)) ⊎ ((ensure_addlen a b n).0 ≡ Ret.ok)
  unfolding ensure_addlen ensure_size
  ensure_addlen_cases n = ground arith
