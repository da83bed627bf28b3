-- ===== src/Buffer/InPlace.antt =====
-- http2d_buffer_drop_ending, http2d_buffer_remove_chunk and http2d_buffer_swap_chars of
-- src/buffer.c against the string that the buffer holds.
use Prim.Native.Nat.{min}
use spdy_test.Prelude.{
  ℕ, suc, ◌+◌, ◌-◌, ◌≤◌, ◌^◌, List, [], ◌∷◌, ◌++◌, some, ◌≡◌, ◌≢◌, refl, sym, ap, subst, ◌∙◌, inr,
  inl, arith, ◌==◌, Bool-cases, Option-cases, le→leb, length, take, drop, take-take,
  take_of_length-le, take_length-append, get_elem?-drop, get_elem?, get_elem?-append_ge,
  drop_of_length-le, length-take,
}
use spdy_test.Ret.{Ret}
use spdy_test.Buffer.{Buffer, u32}
use spdy_test.Buffer.Mem.{bytes, slice_lem, blit_lem}
use spdy_test.Buffer.Space.{contents, IsValid}
use spdy_test.Buffer.Adds.{IsTerminated, Holds, written, length-written, terminated_at}
use spdy_test.Buffer.Edit.{move_to_begin, drop_ending, remove_chunk, swap_in, swap_chars}
use spdy_test.Buffer.Edits.{
  block_facts, null_facts, edited, cleaned_lem, shifted, length-contents, length-rest,
  move_to_begin_lem, rest_of, terminator,
}

module _ (b : Buffer) (v : IsValid b) (t : IsTerminated b) where
  -- On a valid, terminated buffer, http2d_buffer_drop_ending answers ret_ok and leaves a valid,
  -- terminated buffer without the last `n` bytes, and an empty one where it held fewer.
  pub drop_ending_lem :
      (n : ℕ)
      → (b' : Buffer) × (drop_ending b n ≡ some (Ret.ok, b'))
        × Holds (take (b.len - min n b.len) (contents b)) b'
  unfolding drop_ending
  drop_ending_lem n = elim (Option-cases b.buf) [
    | inl null ↦
        let k = b.len - min n b.len in
        (
          b,
          rw null,
          record {
            valid = v;
            holds = sym (
                take_of_length-le k (contents b)
                  (omega (arith, length-contents b v, null_facts b v null)));
            terminated = t;
          },
        )
    | inr (m, at) ↦
        let k = b.len - min n b.len in
        let (sized, lt) = block_facts b m v at in
        let m' = written m k (0 ∷ []) in
        let (kept, zero_at) = terminated_at m k (omega arith) in
        let e : take k m' ≡ take k (contents b) =
          kept
          ∙ sym (take-take k b.len m (omega arith))
          ∙ ap (λ p. take k (take b.len (bytes p))) (sym at) in
        (
          record b { buf = some m'; len = k },
          rw (at, blit_lem m k (0 ∷ []) (omega arith)),
          subst (λ xs. Holds xs (record b { buf = some m'; len = k })) e
              (edited b m' k v (length-written m k (0 ∷ []) (omega arith) ∙ sized) (omega arith)
                zero_at),
        )
  ]

  -- On a valid, terminated buffer, http2d_buffer_remove_chunk of a chunk inside the string answers
  -- ret_ok and leaves a valid, terminated buffer with the bytes before and after the chunk.
  pub remove_chunk_lem :
      (from n : ℕ)
      → from + n ≤ b.len
      → (b' : Buffer) × (remove_chunk b from n ≡ some (Ret.ok, b'))
        × Holds (take from (contents b) ++ drop (from + n) (contents b)) b'
  unfolding remove_chunk
  remove_chunk_lem from n h = elim (Bool-cases (n == b.len)) [
    | inl whole ↦
        let e : take from (contents b) ++ drop (from + n) (contents b) ≡ [] =
          let zero_from : from ≡ 0 = ground arith in
          ap (λ k. take k (contents b) ++ drop (k + n) (contents b)) zero_from
          ∙ drop_of_length-le (0 + n) (contents b) (ground (arith, length-contents b v)) in
        let (b', cleans, h) =
          cleaned_lem b v (take from (contents b) ++ drop (from + n) (contents b)) e in
        (b', rw whole cleans, h)
    | inr part ↦ elim (Option-cases b.buf) [
      | inl null ↦ absurd (ground (arith, null_facts b v null))
      | inr (m, at) ↦
          let (sized, lt) = block_facts b m v at in
          let rest = rest_of m (from + n) b.len in
          let l : length rest ≡ b.len - (from + n) + 1 =
            length-rest m from (from + n) b.len (omega arith) h lt in
          let e : from + (b.len - (from + n)) ≡ u32 (b.len + 2 ^ 32 - n) = omega (arith, v.small) in
          (
            record b { buf = some (written m from rest); len = u32 (b.len + 2 ^ 32 - n) },
            rw (part, remove_chunk)
                (rw (
                  at,
                  le→leb _ _ h,
                  slice_lem m (from + n) (b.len - (from + n) + 1) (omega arith),
                  blit_lem m from rest (omega arith),
                )),
            subst
                (λ k.
                  Holds (take from (contents b) ++ drop (from + n) (contents b))
                    (record b { buf = some (written m from rest); len = k }))
                e (shifted b v t m from (from + n) at (omega arith) h),
          )
    ]
  ]

-- Two texts of the same length: where the first has an `x`, the second has a `y`, and every other byte
-- is the same.
abbrev pub IsSwapped : ℕ → ℕ → List ℕ → List ℕ → Type 0
IsSwapped x y [] [] = Unit {0}
IsSwapped x y [] (d ∷ ds) = ⊥
IsSwapped x y (c ∷ cs) [] = ⊥
IsSwapped x y (c ∷ cs) (d ∷ ds) = (c ≡ x → d ≡ y) × (c ≢ x → d ≡ c) × IsSwapped x y cs ds

IsSwapped-swap_in : (x y : ℕ) (cs : List ℕ) → IsSwapped x y cs (swap_in x y cs)
unfolding swap_in
IsSwapped-swap_in x y [] = tt
IsSwapped-swap_in x y (c ∷ cs) = (λ e. ground arith, λ n. ground arith, IsSwapped-swap_in x y cs)

length-swap_in : (x y : ℕ) (cs : List ℕ) → length (swap_in x y cs) ≡ length cs
unfolding swap_in
length-swap_in x y [] = refl
length-swap_in x y (c ∷ cs) = ap suc (length-swap_in x y cs)

module _ (b : Buffer) (v : IsValid b) (t : IsTerminated b) where
  -- On a valid, terminated buffer, http2d_buffer_swap_chars answers ret_ok and leaves a valid,
  -- terminated buffer in whose string every `x` is a `y` and every other byte is the same.
  pub swap_chars_lem :
      (x y : ℕ)
      → (b' : Buffer) × (swap_chars b x y ≡ some (Ret.ok, b')) × Holds (swap_in x y (contents b)) b'
  unfolding swap_chars
  swap_chars_lem x y = elim (Option-cases b.buf) [
    | inl null ↦
        let no_bytes : contents b ≡ [] =
          ap (λ o. take b.len (bytes o)) null ∙ take_of_length-le b.len [] (omega arith) in
        (
          b,
          rw null,
          record { valid = v; holds = no_bytes ∙ ap (swap_in x y) (sym no_bytes); terminated = t },
        )
    | inr (m, at) ↦
        let (sized, lt) = block_facts b m v at in
        let cs = take b.len m in
        let new = swap_in x y cs in
        let l : length new ≡ b.len = omega (arith, length-swap_in x y cs, length-take b.len m) in
        let m' = written m 0 new in
        let front : take b.len m' ≡ new =
          ap (λ k. take k m') (sym l) ∙ take_length-append new (drop (0 + length new) m) in
        let zero_at : get_elem? m' b.len ≡ some 0 =
          get_elem?-append_ge b.len new (drop (0 + length new) m) (omega arith)
          ∙ get_elem?-drop (b.len - length new) (0 + length new) m
          ∙ ap (get_elem? m) (omega arith)
          ∙ terminator b v t at in
        let e : new ≡ swap_in x y (contents b) =
          ap (λ o. swap_in x y (take b.len (bytes o))) (sym at) in
        (
          record b { buf = some m' },
          rw (at, slice_lem m 0 b.len (omega arith), blit_lem m 0 new (omega arith)),
          subst (λ xs. Holds xs (record b { buf = some m' })) (front ∙ e)
              (edited b m' b.len v (length-written m 0 new (omega arith) ∙ sized) (omega arith)
                zero_at),
        )
  ]

  -- On a valid, terminated buffer, each edit in place answers ret_ok and leaves a valid, terminated
  -- buffer: http2d_buffer_move_to_begin with the bytes from `pos` on, and none where it held fewer;
  -- http2d_buffer_drop_ending without the last `n` bytes, and empty where it held fewer;
  -- http2d_buffer_remove_chunk of a chunk inside the string with the bytes before and after it;
  -- http2d_buffer_swap_chars with a string of the same length, a `y` in place of every `x` and every
  -- other byte as it was.
  pub edits_lem :
      (pos n from k x y : ℕ)
      → from + k ≤ b.len
      → ((b' : Buffer) × (move_to_begin b pos ≡ some (Ret.ok, b'))
          × Holds (drop pos (contents b)) b')
        × ((b' : Buffer) × (drop_ending b n ≡ some (Ret.ok, b'))
            × Holds (take (b.len - min n b.len) (contents b)) b')
        × ((b' : Buffer) × (remove_chunk b from k ≡ some (Ret.ok, b'))
            × Holds (take from (contents b) ++ drop (from + k) (contents b)) b')
        × ((b' : Buffer) × (new : List ℕ) × (swap_chars b x y ≡ some (Ret.ok, b'))
            × IsSwapped x y (contents b) new
            × Holds new b')
  edits_lem pos n from k x y inside =
      let (swapped, swaps, held) = swap_chars_lem x y in
      (
        move_to_begin_lem b v t pos,
        drop_ending_lem b v t n,
        remove_chunk_lem b v t from k inside,
        (swapped, swap_in x y (contents b), swaps, IsSwapped-swap_in x y (contents b), held),
      )
