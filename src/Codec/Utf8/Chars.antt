-- ===== src/Codec/Utf8/Chars.antt =====
-- Texts of well-formed characters, as utf8_get_next_char of src/buffer.c steps through them.
use spdy_test.Prelude.{
  ℕ, zero, suc, ◌+◌, ◌-◌, ◌<◌, ◌≤◌, List, [], ◌∷◌, ◌++◌, some, ◌≡◌, refl, sym, ap, ◌∙◌, inl, inr,
  arith, ltb, ◌==◌, ◌>>=◌, length, drop, Option-cases, true, false, drop_length-append,
  length-append, append_assoc, append-nil, take, take-append-drop,
}
use spdy_test.Ret.{Ret}
use spdy_test.Buffer.{Buffer}
use spdy_test.Buffer.Mem.{bytes}
use spdy_test.Buffer.Space.{contents, IsValid}
use spdy_test.Buffer.Edits.{length-contents}
use spdy_test.Codec.Utf8.{utf8_width, utf8_loop, get_utf8_len}

abbrev pub IsTail : ℕ → Type 0
IsTail c = (128 ≤ c) × (c < 192)

-- One character: an ASCII byte other than NUL, or a lead byte with the bytes that it calls for.
abbrev pub IsChar : List ℕ → Type 0
IsChar [] = ⊥
IsChar (a ∷ []) = (0 < a) × (a < 128)
IsChar (a ∷ b ∷ []) = (192 ≤ a) × (a < 224) × IsTail b
IsChar (a ∷ b ∷ c ∷ []) = (224 ≤ a) × (a < 240) × IsTail b × IsTail c
IsChar (a ∷ b ∷ c ∷ d ∷ []) = (240 ≤ a) × (a < 248) × IsTail b × IsTail c × IsTail d
IsChar (a ∷ b ∷ c ∷ d ∷ e ∷ xs) = ⊥

abbrev pub AreChars : List (List ℕ) → Type 0
AreChars [] = Unit
AreChars (c ∷ cs) = IsChar c × AreChars cs

abbrev pub text_of : List (List ℕ) → List ℕ
text_of [] = []
text_of (c ∷ cs) = c ++ text_of cs

pub utf8_width_lem : (c rest : List ℕ) → IsChar c → utf8_width (c ++ rest) ≡ some (length c)
unfolding utf8_width
utf8_width_lem [] rest h = absurd h
utf8_width_lem (a ∷ []) rest h = ground arith
utf8_width_lem (a ∷ b ∷ []) rest h = ground arith
utf8_width_lem (a ∷ b ∷ c ∷ []) rest h = ground arith
utf8_width_lem (a ∷ b ∷ c ∷ d ∷ []) rest h = ground arith
utf8_width_lem (a ∷ b ∷ c ∷ d ∷ e ∷ xs) rest h = absurd h

pub IsChar-length : (c : List ℕ) → IsChar c → 0 < length c
IsChar-length [] h = absurd h
IsChar-length (a ∷ xs) h = omega arith

-- The list that a loop sees behind one character.
pub text_append :
    (c : List ℕ) (cs : List (List ℕ)) (rest : List ℕ)
    → text_of (c ∷ cs) ++ rest ≡ c ++ (text_of cs ++ rest)
text_append c cs rest = append_assoc c (text_of cs) rest

pub text-pos : (c : List ℕ) (cs : List (List ℕ)) → AreChars (c ∷ cs) → 0 < length (text_of (c ∷ cs))
text-pos c cs h = omega (arith, IsChar-length c h.0, length-append c (text_of cs))

module _ (c rest : List ℕ) (fuel : ℕ) (h : IsChar c) where
  utf8_loop_last : utf8_loop (suc fuel) (c ++ rest) (length c) ≡ some 1
  unfolding utf8_loop
  utf8_loop_last =
      let stop : ltb (length c) (length c) ≡ false = ground arith in
      rw (utf8_width_lem c rest h) (rw stop)

  utf8_loop_next :
      (n : ℕ)
      → 0 < n
      → utf8_loop (suc fuel) (c ++ rest) (length c + n)
        ≡ (do k ← utf8_loop fuel rest n; some (suc k))
  unfolding utf8_loop
  utf8_loop_next n pos =
      let go : ltb (length c) (length c + n) ≡ true = ground arith in
      let e : length c + n - length c ≡ n = omega arith in
      rw (utf8_width_lem c rest h) (rw (go, e, drop_length-append c rest) refl)

utf8_loop_lem :
    (c : List ℕ) (cs : List (List ℕ)) (rest : List ℕ) (fuel : ℕ)
    → AreChars (c ∷ cs)
    → length cs < fuel
    → utf8_loop fuel (text_of (c ∷ cs) ++ rest) (length (text_of (c ∷ cs))) ≡ some (suc (length cs))
utf8_loop_lem c [] rest (suc fuel) (h, hs) lt = rw append-nil (utf8_loop_last c rest fuel h)
utf8_loop_lem c (d ∷ cs) rest (suc fuel) (h, hs) lt =
    rw (text_append c (d ∷ cs) rest, length-append c (text_of (d ∷ cs)))
      (utf8_loop_next c (text_of (d ∷ cs) ++ rest) fuel h (length (text_of (d ∷ cs)))
          (text-pos d cs hs)
        ∙ ap (λ o. o >>= λ k. some (suc k)) (utf8_loop_lem d cs rest fuel hs (omega arith)))
utf8_loop_lem c cs rest zero h lt = absurd (omega arith)

pub length-text_of : (cs : List (List ℕ)) → AreChars cs → length cs ≤ length (text_of cs)
length-text_of [] h = omega arith
length-text_of (c ∷ cs) (h, hs) =
    omega (arith, length-text_of cs hs, IsChar-length c h, length-append c (text_of cs))

-- For a valid buffer that holds well-formed UTF-8 with no NUL among its characters,
-- http2d_buffer_get_utf8_len answers ret_ok and the number of characters.
pub get_utf8_len_lem :
    (b : Buffer) (cs : List (List ℕ))
    → IsValid b
    → contents b ≡ text_of cs
    → AreChars cs
    → get_utf8_len b ≡ some (Ret.ok, length cs)
unfolding get_utf8_len
get_utf8_len_lem b [] v holds h =
    let l : b.len ≡ 0 = omega (arith, length-contents b v, ap length holds) in ground (arith, l)
get_utf8_len_lem b (c ∷ cs) v holds h =
    let l : b.len ≡ length (text_of (c ∷ cs)) =
      omega (arith, length-contents b v, ap length holds) in
    let p : (b.len == 0) ≡ false = ground (arith, text-pos c cs h) in
    elim (Option-cases b.buf) [
      | inl null ↦
          absurd (omega (arith, text-pos c cs h, v.sized, v.room, ap (λ o. length (bytes o)) null))
      | inr (m, at) ↦
          let split : m ≡ text_of (c ∷ cs) ++ drop b.len m =
            sym (take-append-drop b.len m)
            ∙ ap (λ xs. xs ++ drop b.len m) (ap (λ o. take b.len (bytes o)) (sym at) ∙ holds) in
          let e : utf8_loop b.len m b.len ≡ some (suc (length cs)) =
            ap (λ xs. utf8_loop b.len xs b.len) split
            ∙ ap (utf8_loop b.len (text_of (c ∷ cs) ++ drop b.len m)) l
            ∙ utf8_loop_lem c cs (drop b.len m) b.len h
                (omega (arith, length-text_of (c ∷ cs) h)) in
          rw at (rw p (rw e))
    ]
