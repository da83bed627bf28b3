-- ===== src/Codec/Uri/RoundTrip.antt =====
-- Unescaping what escape_with_table of src/buffer.c wrote.
use spdy_test.Prelude.{
  ℕ, ◌+◌, ◌*◌, ◌/◌, ◌%◌, ◌<◌, ◌≤◌, ◌^◌, List, [], ◌∷◌, ◌++◌, some, ◌≡◌, refl, sym, ap, ◌∙◌, inl,
  inr, arith, ◌==◌, length, Bool-cases, true, false, subst,
}
use spdy_test.Ret.{Ret}
use spdy_test.Buffer.{Buffer, ensure_addlen}
use spdy_test.Buffer.Mem.{Alloc}
use spdy_test.Buffer.Space.{contents, IsValid}
use spdy_test.Buffer.Adds.{Holds}
use spdy_test.Buffer.Edits.{length-contents}
use spdy_test.Codec.{to_hex}
use spdy_test.Codec.Output.{block_of_size}
use spdy_test.Codec.Utf8.Chars.{IsChar, AreChars, text_of, text-pos}
use spdy_test.Codec.Uri.{
  is_char_escaped, escape_char, escape_with_table, hex_pair, nul_to_space, unescape_uri,
}
use spdy_test.Codec.Uri.Escaped.{escaped, counted, length-escaped}
use spdy_test.Codec.Uri.Writes.{escape_with_table_lem}
use spdy_test.Codec.Uri.Unescaped.{
  unescaped, unescaped_other, HasNoNul, HasNoNul-append, unescape_uri_lem,
}

hex_pair-to_hex : (c : ℕ) → c < 256 → hex_pair (to_hex (c / 16)) (to_hex (c % 16)) ≡ some c
unfolding hex_pair
hex_pair-to_hex c h = ground arith

unescaped_percent :
    (d e v : ℕ) (cs : List ℕ)
    → hex_pair d e ≡ some v
    → unescaped (b'%' ∷ d ∷ e ∷ cs) ≡ nul_to_space v ∷ unescaped cs
unfolding unescaped
unescaped_percent d e v cs h = rw h refl

unescaped_high : (c : ℕ) (cs : List ℕ) → 128 ≤ c → unescaped (c ∷ cs) ≡ c ∷ unescaped cs
unescaped_high c cs h = unescaped_other c cs (ground arith)

module _ (table : List ℕ) (percent : is_char_escaped table b'%' ≡ true) where
  other_than_percent : (c : ℕ) → is_char_escaped table c ≡ false → (c == b'%') ≡ false
  other_than_percent c h = elim (Bool-cases (c == b'%')) [
    | inl same ↦
        let e : c ≡ b'%' = ground arith in
        absurd (ground (arith, percent, ap (is_char_escaped table) e))
    | inr other ↦ other
  ]

  unescaped-escape_char :
      (c rest : List ℕ) → IsChar c → unescaped (escape_char table c ++ rest) ≡ c ++ unescaped rest
  unfolding escape_char
  unescaped-escape_char [] rest h = absurd h
  unescaped-escape_char (a ∷ []) rest h = elim (Bool-cases (is_char_escaped table a)) [
    | inl yes_it ↦
        let e : nul_to_space a ≡ a = ground arith in
        rw yes_it (
          unescaped_percent (to_hex (a / 16)) (to_hex (a % 16)) a rest
            (hex_pair-to_hex a (omega arith))
          ∙ ap (λ x. x ∷ unescaped rest) e)
    | inr other ↦
        let e : (a == b'%') ≡ false = other_than_percent a other in
        rw other (unescaped_other a rest e)
  ]
  unescaped-escape_char (a ∷ b ∷ []) rest h =
      unescaped_high a (b ∷ rest) (omega arith) ∙ ap (◌∷◌ a) (unescaped_high b rest (omega arith))
  unescaped-escape_char (a ∷ b ∷ c ∷ []) rest h = rw (
    unescaped_high a (b ∷ c ∷ rest) (omega arith),
    unescaped_high b (c ∷ rest) (omega arith),
    unescaped_high c rest (omega arith),
  )
  unescaped-escape_char (a ∷ b ∷ c ∷ d ∷ []) rest h = rw (
    unescaped_high a (b ∷ c ∷ d ∷ rest) (omega arith),
    unescaped_high b (c ∷ d ∷ rest) (omega arith),
    unescaped_high c (d ∷ rest) (omega arith),
    unescaped_high d rest (omega arith),
  )
  unescaped-escape_char (a ∷ b ∷ c ∷ d ∷ e ∷ xs) rest h = absurd h

  unescaped-escaped : (cs : List (List ℕ)) → AreChars cs → unescaped (escaped table cs) ≡ text_of cs
  unfolding escaped
  unescaped-escaped [] h = unfold unescaped in refl
  unescaped-escaped (c ∷ cs) (h, hs) =
      unescaped-escape_char c (escaped table cs) h ∙ ap (λ xs. c ++ xs) (unescaped-escaped cs hs)

escape_char-HasNoNul : (table c : List ℕ) → IsChar c → HasNoNul (escape_char table c)
unfolding escape_char
escape_char-HasNoNul table [] h = absurd h
escape_char-HasNoNul table (a ∷ []) h = ground arith
escape_char-HasNoNul table (a ∷ b ∷ []) h = omega arith
escape_char-HasNoNul table (a ∷ b ∷ c ∷ []) h = omega arith
escape_char-HasNoNul table (a ∷ b ∷ c ∷ d ∷ []) h = omega arith
escape_char-HasNoNul table (a ∷ b ∷ c ∷ d ∷ e ∷ xs) h = absurd h

escaped-HasNoNul : (table : List ℕ) (cs : List (List ℕ)) → AreChars cs → HasNoNul (escaped table cs)
unfolding escaped
escaped-HasNoNul table [] h = tt
escaped-HasNoNul table (c ∷ cs) (h, hs) =
    HasNoNul-append (escape_char table c) (escaped table cs) (escape_char-HasNoNul table c h)
      (escaped-HasNoNul table cs hs)

-- Of a valid source that holds one or more well-formed UTF-8 characters, none of them NUL, and for a
-- valid, empty target, a table that escapes the percent sign, a length whose fourfold and one stay
-- below 2 ^ 31, and memory that is granted: escape_with_table answers ret_ok, and
-- http2d_buffer_unescape_uri of what it wrote answers ret_ok with a valid, terminated buffer that
-- holds the source's string again.
pub unescape_uri-escape :
    (a : Alloc) (b src : Buffer) (table : List ℕ) (c : List ℕ) (cs : List (List ℕ))
    → IsValid b
    → contents b ≡ []
    → IsValid src
    → is_char_escaped table b'%' ≡ true
    → contents src ≡ text_of (c ∷ cs)
    → AreChars (c ∷ cs)
    → b.len + src.len * 4 + 1 < 2 ^ 31
    → (ensure_addlen a b (src.len + counted table (c ∷ cs) * 3)).0 ≡ Ret.ok
    → (mid : Buffer) × (result : Buffer) × (escape_with_table a b src table ≡ some (Ret.ok, mid))
      × (unescape_uri mid ≡ some (Ret.ok, result))
      × Holds (contents src) result
unescape_uri-escape a b src table c cs v empty vs percent holds h small ok =
    let (mid, escapes, held) = escape_with_table_lem a b src table v vs c cs holds h small ok in
    let text = escaped table (c ∷ cs) in
    let same : contents mid ≡ text = held.holds ∙ ap (λ xs. xs ++ text) empty in
    let full : 0 < mid.size = omega (
      arith,
      held.valid.room,
      length-contents mid held.valid,
      ap length same,
      length-escaped table (c ∷ cs),
      text-pos c cs h,
    ) in
    let (m, at) = block_of_size mid held.valid full in
    let (result, unescapes, kept) =
      unescape_uri_lem mid m held.valid at
        (subst HasNoNul (sym same) (escaped-HasNoNul table (c ∷ cs) h)) in
    (
      mid,
      result,
      escapes,
      unescapes,
      subst (λ xs. Holds xs result)
          (ap unescaped same ∙ unescaped-escaped table percent (c ∷ cs) h ∙ sym holds) kept,
    )
