-- ===== src/Codec/Html/Writes.antt =====
-- What http2d_buffer_add_escape_html of src/buffer.c appends.
use spdy_test.Prelude.{
  ℕ, ◌+◌, ◌-◌, ◌*◌, ◌<◌, ◌≤◌, ◌^◌, List, [], ◌∷◌, ◌++◌, some, ◌==◌, length, take, drop, ◌≡◌, refl,
  sym, ap, ◌∙◌, inl, inr, arith, true, Option-cases, length-append, length-take, length-drop, subst,
}
use spdy_test.Ret.{Ret}
use spdy_test.Buffer.{Buffer, u32, size_t, ensure_addlen, add_buffer}
use spdy_test.Buffer.Mem.{Alloc, blit, blit_lem}
use spdy_test.Buffer.Space.{contents, IsValid}
use spdy_test.Buffer.Adds.{Holds, IsTerminated, Appends, written, length-written}
use spdy_test.Buffer.Prepend.{add_buffer-Appends}
use spdy_test.Buffer.Edits.{length-contents, block_facts}
use spdy_test.Buffer.Emptied.{ensured_addlen, ensure_addlen_cases}
use spdy_test.Codec.Output.{appended, block_of_size, written-written}
use spdy_test.Codec.Uri.{c_string}
use spdy_test.Codec.Uri.Unescaped.{HasNoNul, terminated_source}
use spdy_test.Codec.Html.{
  find_special, extra_of, entities, copy_escaped, copy_grown, escape_from, escape_text,
  add_escape_html,
}
use spdy_test.Codec.Html.Texts.{IsHtml, IsHtml-html_text}
use spdy_test.Codec.Html.Safe.{
  html_text, length-entities, extra_of_bound, IsSafe, find_special-some, html_text_same,
  html_text_from, html_text-IsSafe,
}

copy_run :
    (a : Alloc) (b : Buffer) (text : List ℕ) (i added : ℕ) {m m' m'' m3 : List ℕ} {k : ℕ}
    → b.buf ≡ some m
    → blit m b.len (take i text) ≡ some m'
    → blit m' (b.len + i) (entities (drop i text)) ≡ some m''
    → u32 (b.len + added) ≡ k
    → blit m'' k (0 ∷ []) ≡ some m3
    → copy_escaped a b text i added ≡ some (Ret.ok, record b { buf = some m3; len = k })
unfolding copy_escaped
copy_run a b text i added at first second e ends = rw at (rw first (rw second (rw e (rw ends))))

module _ (a : Alloc) (b : Buffer) (v : IsValid b) where
  -- Two copies next to each other append both.
  copy_escaped_lem :
      (text : List ℕ) (i added : ℕ)
      → i ≤ length text
      → length text + extra_of (drop i text) ≡ added
      → b.len + added < b.size
      → (b' : Buffer) × (copy_escaped a b text i added ≡ some (Ret.ok, b'))
        × Holds (contents b ++ (take i text ++ entities (drop i text))) b'
  copy_escaped_lem text i added le sum fits =
      let xs = take i text in
      let ys = entities (drop i text) in
      let lx : length xs ≡ i = omega (arith, length-take i text) in
      let ly : length ys ≡ added - i =
        omega (arith, length-entities (drop i text), length-drop i text) in
      let (m, at) = block_of_size b v (omega arith) in
      let (sized, lt) = block_facts b m v at in
      let l : length (xs ++ ys) ≡ added = omega (arith, length-append xs ys) in
      let first : blit m b.len xs ≡ some (written m b.len xs) = blit_lem m b.len xs (omega arith) in
      let m' = written m b.len xs in
      let l' : length m' ≡ length m = length-written m b.len xs (omega arith) in
      let (both, m3, writes, ends, held) = appended b m (xs ++ ys) v at (omega arith) in
      let second : blit m' (b.len + i) ys ≡ some both =
        ap (λ k. blit m' (b.len + k) ys) (sym lx)
        ∙ blit_lem m' (b.len + length xs) ys (omega arith)
        ∙ ap some (written-written m b.len xs ys (omega arith))
        ∙ sym (blit_lem m b.len (xs ++ ys) (omega arith))
        ∙ writes in
      let e : u32 (b.len + added) ≡ b.len + length (xs ++ ys) = omega (arith, v.small) in
      (
        record b { buf = some m3; len = b.len + length (xs ++ ys) },
        copy_run a b text i added at first second e ends,
        held,
      )

module _ (a : Alloc) (b : Buffer) (v : IsValid b) where
  escape_from_run :
      (text : List ℕ) (i : ℕ) {n : ℕ} {r : Ret × Buffer}
      → size_t (extra_of (drop i text)) ≡ extra_of (drop i text)
      → size_t (length text + extra_of (drop i text) + 1) ≡ n
      → ensure_addlen a b n ≡ r
      → escape_from a b (length text) text i
        ≡ copy_grown a r text i (length text + extra_of (drop i text))
  unfolding escape_from
  escape_from_run text i e0 e grows =
      let same : (length text == length text) ≡ true = ground arith in
      rw same (rw e0 (rw e (rw grows refl)))

  escape_from_lem :
      (text : List ℕ) (i : ℕ)
      → i ≤ length text
      → b.len + length text * 6 + 2 < 2 ^ 31
      → Appends b (take i text ++ entities (drop i text)) (escape_from a b (length text) text i)
  unfolding copy_grown
  escape_from_lem text i le small =
      let extra = extra_of (drop i text) in
      let few : extra ≤ length text * 5 =
        omega (arith, extra_of_bound (drop i text), length-drop i text) in
      let n = length text + extra + 1 in
      let e0 : size_t extra ≡ extra = omega arith in
      let e : size_t n ≡ n = omega arith in
      elim (ensure_addlen_cases a b v n) [
        | inl fails ↦ inl (escape_from_run text i e0 e fails)
        | inr ok ↦
            let sized = (ensure_addlen a b n).1 in
            let grows : ensure_addlen a b n ≡ (Ret.ok, sized) = ap (λ r. (r, sized)) ok in
            let (valid, room, len_kept, kept) = ensured_addlen a b v n (omega arith) ok in
            let (b', copies, held) =
              copy_escaped_lem a sized valid text i (length text + extra) le refl (omega arith) in
            inr (
              b',
              escape_from_run text i e0 e grows ∙ copies,
              subst (λ xs. Holds (xs ++ (take i text ++ entities (drop i text))) b') kept held,
            )
      ]

  module _ (t : IsTerminated b) where
    escape_text_lem :
        (src : Buffer) (text : List ℕ)
        → IsValid src
        → contents src ≡ text
        → src.len ≡ length text
        → b.len + length text * 6 + 17 < 2 ^ 31
        → Appends b (html_text text) (escape_text a b src text)
    unfolding escape_text
    escape_text_lem src text vs holds l small = elim (Option-cases (find_special text)) [
      | inl fails ↦
          rw (fails, escape_text, html_text_same text fails)
            (subst (λ xs. Appends b xs (add_buffer a b src)) holds
              (add_buffer-Appends a b v t src vs (omega arith)))
      | inr (i, found) ↦
          rw (found, escape_text, html_text_from text found, l)
            (escape_from_lem text i (find_special-some text found).1 (omega arith))
    ]

-- The end of http2d_buffer_add_escape_html.
add_escape_html_run :
    (a : Alloc) (b src : Buffer) {m s text : List ℕ} {r : Ret × Buffer}
    → src.buf ≡ some m
    → blit m src.len (0 ∷ []) ≡ some s
    → c_string s ≡ text
    → escape_text a b (record src { buf = some s }) text ≡ some r
    → add_escape_html a b src ≡ some (r.0, r.1, record src { buf = some s })
unfolding add_escape_html
add_escape_html_run a b src at ends cuts escapes = rw at (rw ends (rw cuts (rw escapes refl)))

module _ (a : Alloc) (b src : Buffer) (v : IsValid b) (t : IsTerminated b) (vs : IsValid src)
    (m : List ℕ) (at : src.buf ≡ some m) (h : HasNoNul (contents src))
    (small : b.len + src.len * 6 + 17 < 2 ^ 31) where
  -- On a valid, terminated buffer and a valid source that has a block and no NUL in its string, with
  -- the length, six times the source's length and 17 below 2 ^ 31, http2d_buffer_add_escape_html either
  -- answers ret_nomem and leaves the buffer alone, or answers ret_ok with a valid, terminated buffer
  -- that has a text behind the old string: the source's up to its first `<`, `>`, `&` or `"`, and from
  -- there on the source's with "&lt;", "&gt;", "&amp;", "&quot;", "&#35;" and "&#39;" in place of every
  -- `<`, `>`, `&`, `"`, `#` and `'`. In that text there is no `<`, no `>` and no `"`, and the source
  -- still holds its string.
  pub add_escape_html_lem :
      (r : Ret × Buffer) × (src' : Buffer) × (html : List ℕ) × (add_escape_html a b src
        ≡ some (r.0, r.1, src'))
      × IsHtml (contents src) html
      × Appends b html (some r)
      × IsSafe html
      × Holds (contents src) src'
  add_escape_html_lem =
      let (s, ends, cuts, held) = terminated_source src m vs at h in
      let src' = record src { buf = some s } in
      let text = contents src in
      let l : src.len ≡ length text = omega (arith, length-contents src vs) in
      let safe = html_text-IsSafe text in
      elim (escape_text_lem a b v t src' text held.valid held.holds l (omega arith)) [
        | inl fails ↦ (
          (Ret.nomem, b),
          src',
          html_text text,
          add_escape_html_run a b src at ends cuts fails,
          IsHtml-html_text text,
          inl refl,
          safe,
          held,
        )
        | inr (b', writes, appends) ↦ (
          (Ret.ok, b'),
          src',
          html_text text,
          add_escape_html_run a b src at ends cuts writes,
          IsHtml-html_text text,
          inr (b', refl, appends),
          safe,
          held,
        )
      ]
