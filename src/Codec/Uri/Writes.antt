-- ===== src/Codec/Uri/Writes.antt =====
-- escape_with_table of src/buffer.c on buffers: what it appends, and the length that it counts.
use spdy_test.Prelude.{
  ℕ, suc, ◌+◌, ◌*◌, ◌<◌, ◌≤◌, ◌^◌, List, [], ◌∷◌, ◌++◌, some, ◌≡◌, sym, ap, ◌∙◌, arith, length,
  take, drop, take-append-drop, subst,
}
use spdy_test.Ret.{Ret}
use spdy_test.Buffer.{Buffer, ensure_addlen, u32}
use spdy_test.Buffer.Mem.{Alloc, bytes, blit}
use spdy_test.Buffer.Space.{contents, IsValid}
use spdy_test.Buffer.Adds.{Holds}
use spdy_test.Buffer.Edits.{length-contents}
use spdy_test.Buffer.Emptied.{ensured_addlen}
use spdy_test.Codec.Output.{appended, block_of_size}
use spdy_test.Codec.Utf8.Chars.{AreChars, text_of, text-pos, length-text_of}
use spdy_test.Codec.Uri.{count_char, count_loop, escape_loop, escape_with_table}
use spdy_test.Codec.Uri.Escaped.{escaped, counted, loops_lem, length-escaped}

counted-le-length : (table : List ℕ) (cs : List (List ℕ)) → counted table cs ≤ length cs
unfolding counted count_char
counted-le-length table [] = omega arith
counted-le-length table ([] ∷ cs) = omega (arith, counted-le-length table cs)
counted-le-length table ((x ∷ []) ∷ cs) = ground (arith, counted-le-length table cs)
counted-le-length table ((x ∷ y ∷ xs) ∷ cs) = omega (arith, counted-le-length table cs)

module _ (a : Alloc) (b src : Buffer) (table : List ℕ) where
  escape_run :
      {s m m' m'' out : List ℕ} {n k : ℕ} {sized : Buffer}
      → src.buf ≡ some s
      → count_loop (suc src.len) table s src.len ≡ some n
      → escape_loop (suc src.len) table s src.len ≡ some out
      → (ensure_addlen a b (u32 (src.len + n * 3))).1 ≡ sized
      → sized.buf ≡ some m
      → blit m sized.len out ≡ some m'
      → blit m' (sized.len + length out) (0 ∷ []) ≡ some m''
      → u32 (sized.len + src.len + n * 2) ≡ k
      → escape_with_table a b src table ≡ some (Ret.ok, record sized { buf = some m''; len = k })
  unfolding escape_with_table
  escape_run at counts escapes grows block writes ends e =
      rw at (rw counts (rw (grows, escapes) (rw block (rw writes (rw (ends, e))))))

  module _ (v : IsValid b) (vs : IsValid src) (c : List ℕ) (cs : List (List ℕ))
      (holds : contents src ≡ text_of (c ∷ cs)) (h : AreChars (c ∷ cs))
      (small : b.len + src.len * 4 + 1 < 2 ^ 31)
      (ok : (ensure_addlen a b (src.len + counted table (c ∷ cs) * 3)).0 ≡ Ret.ok) where
    -- Where the target and the source are valid, the source holds well-formed UTF-8 with at least
    -- one character and no NUL, the lengths are small enough and the memory is granted,
    -- escape_with_table answers ret_ok with a valid, terminated buffer to which the characters are
    -- appended, the single bytes that the table names as a percent sign and two digits.
    pub escape_with_table_lem :
        (b' : Buffer) × (escape_with_table a b src table ≡ some (Ret.ok, b'))
        × Holds (contents b ++ escaped table (c ∷ cs)) b'
    escape_with_table_lem =
        let l : length (text_of (c ∷ cs)) ≡ src.len =
          ap length (sym holds) ∙ length-contents src vs in
        let few : counted table (c ∷ cs) ≤ src.len =
          omega (arith, counted-le-length table (c ∷ cs), length-text_of (c ∷ cs) h) in
        let pos : 0 < src.len = omega (arith, text-pos c cs h) in
        let n = counted table (c ∷ cs) in
        let out = escaped table (c ∷ cs) in
        let lo : length out ≡ src.len + n * 2 = omega (arith, length-escaped table (c ∷ cs)) in
        let (s, at) = block_of_size src vs (omega (arith, vs.room)) in
        let split : text_of (c ∷ cs) ++ drop src.len s ≡ s =
          ap (λ xs. xs ++ drop src.len s) (sym holds ∙ ap (λ o. take src.len (bytes o)) at)
          ∙ take-append-drop src.len s in
        let (counts, escapes) =
          loops_lem table c cs (drop src.len s) (suc src.len) h
            (omega (arith, length-text_of (c ∷ cs) h)) in
        let e : u32 (src.len + n * 3) ≡ src.len + n * 3 = omega arith in
        let (valid, room, len_kept, kept) =
          ensured_addlen a b v (src.len + n * 3) (omega arith) ok in
        let sized = (ensure_addlen a b (src.len + n * 3)).1 in
        let (m, block) = block_of_size sized valid (omega arith) in
        let (m', m'', writes, ends, held) = appended sized m out valid block (omega arith) in
        let e' : u32 (sized.len + src.len + n * 2) ≡ sized.len + length out =
          omega (arith, small) in
        (
          record sized { buf = some m''; len = sized.len + length out },
          escape_run at
              (subst (λ xs. count_loop (suc src.len) table xs src.len ≡ some n) split
                (ap (count_loop (suc src.len) table (text_of (c ∷ cs) ++ drop src.len s)) (sym l)
                  ∙ counts))
              (subst (λ xs. escape_loop (suc src.len) table xs src.len ≡ some out) split
                (ap (escape_loop (suc src.len) table (text_of (c ∷ cs) ++ drop src.len s)) (sym l)
                  ∙ escapes))
              (ap (λ k. (ensure_addlen a b k).1) e) block writes ends e',
          subst
              (λ xs.
                Holds (xs ++ out) (record sized { buf = some m''; len = sized.len + length out }))
              kept held,
        )
