-- ===== src/Codec/Uri/Escaped.antt =====
-- What escape_with_table of src/buffer.c writes for a text of well-formed characters.
use spdy_test.Prelude.{
  ℕ, zero, suc, ◌+◌, ◌-◌, ◌*◌, ◌<◌, List, [], ◌∷◌, ◌++◌, some, ◌≡◌, refl, sym, ap, ◌∙◌, arith, ltb,
  ◌>>=◌, length, true, false, drop_length-append, take_length-append, length-append, append-nil,
}
use spdy_test.Buffer.Mem.{slice, slice_lem}
use spdy_test.Codec.Utf8.Chars.{IsChar, AreChars, text_of, utf8_width_lem, text_append, text-pos}
use spdy_test.Codec.Uri.{count_char, escape_char, count_loop, escape_loop}

unfoldable pub escaped : List ℕ → List (List ℕ) → List ℕ
escaped table [] = []
escaped table (c ∷ cs) = escape_char table c ++ escaped table cs

unfoldable pub counted : List ℕ → List (List ℕ) → ℕ
counted table [] = 0
counted table (c ∷ cs) = count_char table c + counted table cs

slice_front : (c rest : List ℕ) → slice (c ++ rest) 0 (length c) ≡ some c
slice_front c rest =
    slice_lem (c ++ rest) 0 (length c) (omega (arith, length-append c rest))
    ∙ ap some (take_length-append c rest)

module _ (table c rest : List ℕ) (fuel : ℕ) (h : IsChar c) where
  count_loop_last : count_loop (suc fuel) table (c ++ rest) (length c) ≡ some (count_char table c)
  unfolding count_loop
  count_loop_last =
      let stop : ltb (length c) (length c) ≡ false = ground arith in
      rw (utf8_width_lem c rest h) (rw (slice_front c rest) (rw stop))

  escape_loop_last :
      escape_loop (suc fuel) table (c ++ rest) (length c) ≡ some (escape_char table c)
  unfolding escape_loop
  escape_loop_last =
      let stop : ltb (length c) (length c) ≡ false = ground arith in
      rw (utf8_width_lem c rest h) (rw (slice_front c rest) (rw stop))

  module _ (n : ℕ) (pos : 0 < n) where
    count_loop_next :
        count_loop (suc fuel) table (c ++ rest) (length c + n)
        ≡ (do k ← count_loop fuel table rest n; some (count_char table c + k))
    unfolding count_loop
    count_loop_next =
        let go : ltb (length c) (length c + n) ≡ true = ground arith in
        let e : length c + n - length c ≡ n = omega arith in
        rw (utf8_width_lem c rest h)
          (rw (slice_front c rest) (rw (go, e, drop_length-append c rest) refl))

    escape_loop_next :
        escape_loop (suc fuel) table (c ++ rest) (length c + n)
        ≡ (do out ← escape_loop fuel table rest n; some (escape_char table c ++ out))
    unfolding escape_loop
    escape_loop_next =
        let go : ltb (length c) (length c + n) ≡ true = ground arith in
        let e : length c + n - length c ≡ n = omega arith in
        rw (utf8_width_lem c rest h)
          (rw (slice_front c rest) (rw (go, e, drop_length-append c rest) refl))

pub loops_lem :
    (table c : List ℕ) (cs : List (List ℕ)) (rest : List ℕ) (fuel : ℕ)
    → AreChars (c ∷ cs)
    → length cs < fuel
    → (count_loop fuel table (text_of (c ∷ cs) ++ rest) (length (text_of (c ∷ cs)))
        ≡ some (counted table (c ∷ cs)))
      × (escape_loop fuel table (text_of (c ∷ cs) ++ rest) (length (text_of (c ∷ cs)))
          ≡ some (escaped table (c ∷ cs)))
unfolding counted escaped
loops_lem table c cs rest zero h lt = absurd (omega arith)
loops_lem table c [] rest (suc fuel) (h, hs) lt =
    let e : count_char table c ≡ count_char table c + 0 = omega arith in
    rw append-nil (
      count_loop_last table c rest fuel h ∙ ap some e,
      escape_loop_last table c rest fuel h ∙ ap some (sym (append-nil (escape_char table c))),
    )
loops_lem table c (d ∷ cs) rest (suc fuel) (h, hs) lt =
    let (counts, escapes) = loops_lem table d cs rest fuel hs (omega arith) in
    let n = length (text_of (d ∷ cs)) in
    let pos : 0 < n = text-pos d cs hs in
    rw (text_append c (d ∷ cs) rest, length-append c (text_of (d ∷ cs)))
      (
        count_loop_next table c (text_of (d ∷ cs) ++ rest) fuel h n pos
            ∙ ap (λ o. o >>= λ k. some (count_char table c + k)) counts,
        escape_loop_next table c (text_of (d ∷ cs) ++ rest) fuel h n pos
            ∙ ap (λ o. o >>= λ out. some (escape_char table c ++ out)) escapes,
      )

length-escape_char :
    (table c : List ℕ) → length (escape_char table c) ≡ length c + count_char table c * 2
unfolding escape_char count_char
length-escape_char table [] = refl
length-escape_char table (c ∷ []) = ground arith
length-escape_char table (c ∷ d ∷ cs) = omega arith

-- Two bytes more for each character that is escaped.
pub length-escaped :
    (table : List ℕ) (cs : List (List ℕ))
    → length (escaped table cs) ≡ length (text_of cs) + counted table cs * 2
unfolding escaped counted
length-escaped table [] = refl
length-escaped table (c ∷ cs) = omega (
  arith,
  length-escaped table cs,
  length-escape_char table c,
  length-append (escape_char table c) (escaped table cs),
  length-append c (text_of cs),
)
