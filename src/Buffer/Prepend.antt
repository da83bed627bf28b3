-- ===== src/Buffer/Prepend.antt =====
-- http2d_buffer_prepend, http2d_buffer_add_char, http2d_buffer_add_char_n and
-- http2d_buffer_add_buffer of src/buffer.c against the string that the buffer holds.
use spdy_test.Prelude.{
  ℕ, zero, suc, ◌+◌, ◌^◌, ◌≤◌, ◌<◌, List, [], ◌∷◌, ◌++◌, some, ◌≡◌, refl, sym, ap, subst, ◌∙◌, ◌⊎◌,
  inl, inr, arith, ltb, Bool-cases, length, take, drop, replicate, append_assoc, append-nil,
  length-append, length-take, length-replicate, take_length-append, drop_length-append,
}
use spdy_test.Ret.{Ret}
use spdy_test.Buffer.{
  Buffer, u32, store, make_room, make_room_int, add, add_buffer, add_char, add_char_n, prepend,
}
use spdy_test.Buffer.Mem.{Alloc, bytes, slice_lem, blit_lem}
use spdy_test.Buffer.Space.{
  contents, IsValid, make_room_lem, realloc_inc_bufsize_lem, IsGrown-in_place,
}
use spdy_test.Buffer.Adds.{
  IsTerminated, Holds, Appends, written, length-written, store_lem, store_append, add-Appends,
}

-- Moving `len` bytes up by `n`, then writing `n` bytes at the front.
prepended :
    (m : List ℕ) (len : ℕ) (txt : List ℕ)
    → len + length txt ≤ length m
    → take (len + length txt) (written (written m (length txt) (take len m)) 0 txt)
      ≡ txt ++ take len m
prepended m len txt h =
    let n = length txt in
    let old = take len m in
    let rest = drop (n + length old) m in
    let front : length (take n m) ≡ n = omega (arith, length-take n m) in
    let moved : drop n (written m n old) ≡ old ++ rest =
      ap (λ i. drop i (written m n old)) (sym front)
      ∙ drop_length-append (take n m) (old ++ rest) in
    let whole : len + n ≡ length (txt ++ old) =
      omega (arith, length-append txt old, length-take len m) in
    ap (λ i. take (len + n) (txt ++ drop i (written m n old))) (omega arith)
    ∙ ap (λ xs. take (len + n) (txt ++ xs)) moved
    ∙ ap (λ i. take i (txt ++ (old ++ rest))) whole
    ∙ ap (take (length (txt ++ old))) (sym (append_assoc txt old rest))
    ∙ take_length-append (txt ++ old) rest

module _ (a : Alloc) (b : Buffer) (v : IsValid b) (t : IsTerminated b) where
  -- On a valid, terminated buffer, http2d_buffer_prepend of a text whose length keeps the sum of
  -- both lengths and 17 below 2 ^ 31 either answers ret_nomem and leaves the buffer alone, or
  -- answers ret_ok with a valid, terminated buffer that holds the text followed by the old string.
  pub prepend_lem :
      (txt : List ℕ)
      → b.len + length txt + 17 < 2 ^ 31
      → (prepend a b txt ≡ some (Ret.nomem, b))
        ⊎ ((b' : Buffer) × (prepend a b txt ≡ some (Ret.ok, b')) × Holds (txt ++ contents b) b')
  unfolding prepend
  prepend_lem txt h = elim (make_room_lem a b v (length txt) h) [
    | inl fails ↦ inl (rw (fails, prepend) (rw fails))
    | inr (b1, grows, g) ↦
        let n = length txt in
        let old = take b1.len g.block in
        let moved = written g.block n old in
        let l : length old ≡ b1.len = omega (arith, length-take b1.len g.block) in
        let same : length moved ≡ length g.block = length-written g.block n old (omega arith) in
        let (b2, stores, holds) =
          store_lem (record b1 { buf = some moved }) moved 0 txt n refl (omega arith)
            (same ∙ g.sized) (omega arith) g.small in
        let holds' : take (b1.len + n) (written moved 0 txt) ≡ txt ++ contents b =
          prepended g.block b1.len txt (omega arith)
          ∙ ap (λ k. txt ++ take k g.block) g.len_kept
          ∙ ap (λ xs. txt ++ xs) g.kept in
        inr (
          b2,
          rw (grows, prepend)
              (rw (
                grows,
                g.at_block,
                slice_lem g.block 0 b1.len (omega arith),
                blit_lem g.block n old (omega arith),
                stores,
              )),
          subst (λ xs. Holds xs b2) holds' holds,
        )
  ]

  -- On a valid, terminated buffer, http2d_buffer_add_buffer of a valid buffer, with the sum of both
  -- lengths and 17 below 2 ^ 31, either answers ret_nomem and leaves the buffer alone, or answers
  -- ret_ok with a valid, terminated buffer that holds the one string followed by the other.
  pub add_buffer-Appends :
      (b2 : Buffer)
      → IsValid b2
      → b.len + b2.len + 17 < 2 ^ 31
      → Appends b (contents b2) (add_buffer a b b2)
  unfolding add_buffer
  add_buffer-Appends b2 v2 h =
      let l : length (contents b2) ≡ b2.len = omega (arith, length-take b2.len (bytes b2.buf)) in
      rw (slice_lem (bytes b2.buf) 0 b2.len (omega arith))
        (add-Appends a b v t (contents b2) (omega arith))

  -- On a valid, terminated buffer whose length and 19 stay below 2 ^ 31, http2d_buffer_add_char
  -- either answers ret_nomem and leaves the buffer alone, or answers ret_ok with a valid, terminated
  -- buffer that holds the old string followed by the character, on both of its paths.
  pub add_char-Appends : (c : ℕ) → b.len + 19 < 2 ^ 31 → Appends b (c ∷ []) (add_char a b c)
  unfolding add_char
  add_char-Appends c h = elim (Bool-cases (ltb (u32 (b.len + 1)) b.size)) [
    | inl fast ↦
        let (b2, stores, holds) =
          store_append b b (c ∷ []) v (IsGrown-in_place a b v 1 (ground arith)) in
        inr (b2, rw (fast, stores), holds)
    | inr slow ↦ elim (realloc_inc_bufsize_lem a b v 1 1 (ground arith) (omega arith)) [
      | inl fails ↦ inl (rw (slow, fails) (rw fails))
      | inr (b1, grows, g) ↦
          let (b2, stores, holds) = store_append b b1 (c ∷ []) v g in
          inr (b2, rw (slow, grows) (rw (grows, stores)), holds)
    ]
  ]

  make_room_int-eq-make_room : (n : ℕ) → n < 2 ^ 31 → make_room_int a b n ≡ make_room a b n
  unfolding make_room_int make_room
  make_room_int-eq-make_room n h = ground arith

  -- On a valid, terminated buffer, http2d_buffer_add_char_n of `n` characters, with the sum of the
  -- length, `n` and 17 below 2 ^ 31, either answers ret_nomem and leaves the buffer alone, or answers
  -- ret_ok with a valid, terminated buffer that holds the old string and `n` times the character.
  pub add_char_n-Appends :
      (c n : ℕ) → b.len + n + 17 < 2 ^ 31 → Appends b (replicate n c) (add_char_n a b c n)
  unfolding add_char_n
  add_char_n-Appends c zero h =
      inr (b, refl, record { valid = v; holds = sym (append-nil (contents b)); terminated = t })
  add_char_n-Appends c (suc n) h =
      let txt = replicate (suc n) c in
      let l : length txt ≡ suc n = length-replicate (suc n) c in
      let e : make_room_int a b (suc n) ≡ make_room a b (length txt) =
        make_room_int-eq-make_room (suc n) (omega arith) ∙ ap (make_room a b) (sym l) in
      elim (make_room_lem a b v (length txt) (omega arith)) [
        | inl fails ↦ inl (rw (e, fails, add_char_n) (rw (e, fails)))
        | inr (b1, grows, g) ↦
            let (b2, stores, holds) = store_append b b1 txt v g in
            let stores' : store b1 b1.len txt (suc n) ≡ some b2 =
              ap (store b1 b1.len txt) (sym l) ∙ stores in
            inr (b2, rw (e, grows, add_char_n) (rw (e, grows, stores')), holds)
      ]

  -- On a valid, terminated buffer, http2d_buffer_add of a text, http2d_buffer_prepend of it,
  -- http2d_buffer_add_buffer of a valid buffer, http2d_buffer_add_char and http2d_buffer_add_char_n,
  -- with the sum of the buffer's length, of what is added and of 17 (18 for the one character) below
  -- 2 ^ 31, each either answer ret_nomem and leave the buffer alone, or answer ret_ok with a valid,
  -- terminated buffer that holds the text in front of the old string in the case of the prepend, and
  -- else the old string followed by the text, the other buffer's string, the character, or `n`
  -- characters.
  pub adds_lem :
      (txt : List ℕ) (b2 : Buffer) (c n : ℕ)
      → IsValid b2
      → b.len + length txt + 17 < 2 ^ 31
      → b.len + b2.len + 17 < 2 ^ 31
      → b.len + 19 < 2 ^ 31
      → b.len + n + 17 < 2 ^ 31
      → Appends b txt (add a b txt)
        × ((prepend a b txt ≡ some (Ret.nomem, b))
            ⊎ ((b' : Buffer) × (prepend a b txt ≡ some (Ret.ok, b'))
                × Holds (txt ++ contents b) b'))
        × Appends b (contents b2) (add_buffer a b b2)
        × Appends b (c ∷ []) (add_char a b c)
        × Appends b (replicate n c) (add_char_n a b c n)
  adds_lem txt b2 c n v2 text_fits buffer_fits char_fits chars_fit = (
    add-Appends a b v t txt text_fits,
    prepend_lem txt text_fits,
    add_buffer-Appends b2 v2 buffer_fits,
    add_char-Appends c char_fits,
    add_char_n-Appends c n chars_fit,
  )
