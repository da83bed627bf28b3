-- ===== src/Buffer/Replace/Replaced.antt =====
-- What http2d_buffer_replace_string of src/buffer.c makes of the string in a buffer.
use spdy_test.Prelude.{
  ℕ, ◌+◌, ◌-◌, ◌*◌, ◌^◌, ◌≤◌, ◌<◌, ◌≡◌, ◌≢◌, refl, sym, ap, subst, ◌∙◌, ◌⊎◌, inl, inr, List, [],
  ◌∷◌, ◌++◌, Option, none, some, false, ◌==◌, length, take, get_elem?, get_elem?-append,
  drop_of_length-le, arith, append-nil, length-append, Option-cases, take_length-append,
}
use native.Mathlib.Nat.{mul-add}
use native.Mathlib.Decide.{ℕ_discrete}
use spdy_test.Ret.{Ret}
use spdy_test.Buffer.{Buffer, u32}
use spdy_test.Buffer.Mem.{Alloc, bytes, realloc, realloc-grow, blit, blit_lem}
use spdy_test.Buffer.Space.{IsValid}
use spdy_test.Buffer.Adds.{Holds}
use spdy_test.Buffer.Edit.{cleaned}
use spdy_test.Buffer.Edits.{cleaned_lem}
use spdy_test.Buffer.Replace.{
  cut, join, c_string, is_empty, result_length, below_one, build, replace_string,
}
use spdy_test.Buffer.Replace.Pieces.{AreFree, cut_cons, join-cut, cut-AreFree}

-- A text without the terminator inside.
abbrev pub HasNoNul : List ℕ → Type 0
HasNoNul [] = Unit {0}
HasNoNul (c ∷ s) = ((c == 0) ≡ false) × HasNoNul s

c_string_lem : (text rest : List ℕ) → HasNoNul text → c_string (text ++ (0 ∷ rest)) ≡ some text
unfolding c_string
c_string_lem [] rest clean = refl
c_string_lem (c ∷ text) rest (h, clean) = ground (arith, c_string_lem text rest clean)

total : List (List ℕ) → ℕ
total [] = 0
total (p ∷ ps) = length p + total ps

length-join :
    (t : List ℕ) (p : List ℕ) (ps : List (List ℕ))
    → length (join t (p ∷ ps)) ≡ total (p ∷ ps) + length ps * length t
unfolding join total
length-join t p [] = omega arith
length-join t p (q ∷ ps) = omega (
  arith,
  length-append {0} p (t ++ join t (q ∷ ps)),
  length-append {0} t (join t (q ∷ ps)),
  length-join t q ps,
)

wraps :
    (sum n sub repl : ℕ)
    → sub ≤ 2 ^ 31
    → sum + n * repl < 2 ^ 31
    → u32 (sum + n * sub + n * (2 ^ 32 + repl - sub)) ≡ sum + n * repl
wraps sum n sub repl h fits =
    let k = 2 ^ 32 + repl - sub in
    let split : k + sub ≡ 2 ^ 32 + repl = omega arith in
    omega (
      arith,
      ap (λ (m : ℕ). n * m) split,
      mul-add n (2 ^ 32 + repl - sub) sub,
      mul-add n (2 ^ 32) repl,
    )

-- A block with a text and its terminator at the front.
block-Holds :
    (text : List ℕ)
    → length text + 1 < 2 ^ 31
    → Holds text
        (record { buf = some (text ++ (0 ∷ [])); size = length text + 1; len = length text })
block-Holds text small = record {
  valid = record { sized = length-append text (0 ∷ []); room = inl (omega arith); small = small };
  holds = take_length-append text (0 ∷ []);
  terminated = inr (get_elem?-append text 0 []);
}

-- The whole of a fresh block is written.
all_written :
    (m text : List ℕ)
    → length m ≡ length text + 1
    → blit m 0 (text ++ (0 ∷ [])) ≡ some (text ++ (0 ∷ []))
all_written m text sized =
    let size = length-append text (0 ∷ []) in
    blit_lem m 0 (text ++ (0 ∷ [])) (omega arith)
    ∙ ap (λ r. some ((text ++ (0 ∷ [])) ++ r))
        (drop_of_length-le (0 + length (text ++ (0 ∷ []))) m (omega arith))
    ∙ ap some (append-nil (text ++ (0 ∷ [])))

-- A fresh block that takes the text and its terminator.
abbrev pub Built : List ℕ → Buffer → Option (Ret × Buffer) → Type 0
Built text b r =
    (r ≡ some (Ret.nomem, b)) ⊎ ((b' : Buffer) × (r ≡ some (Ret.ok, b')) × Holds text b')

build_lem :
    (a : Alloc) (b : Buffer) (text : List ℕ)
    → length text + 1 < 2 ^ 31
    → Built text b (build a b text (length text))
unfolding build
build_lem a b text small = elim (Option-cases (realloc a none (length text + 1))) [
  | inl fails ↦ inl (rw (build, fails) refl)
  | inr (m, got) ↦
      let (rest, split, sized) = realloc-grow a none (length text + 1) (omega arith) got in
      inr (
        record { buf = some (text ++ (0 ∷ [])); size = length text + 1; len = length text },
        rw (build, got, all_written m text sized) refl,
        block-Holds text small,
      )
]

join_one : (t u : List ℕ) (ps : List (List ℕ)) → length ps - 1 ≡ 0 → join t ps ≡ join u ps
unfolding join
join_one t u [] h = refl
join_one t u (p ∷ []) h = refl
join_one t u (p ∷ q ∷ ps) h = absurd (omega arith)

nil_of_length : (xs : List ℕ) → length xs ≡ 0 → xs ≡ []
nil_of_length [] h = refl
nil_of_length (x ∷ xs) h = absurd (omega arith)

module _ (a : Alloc) (b : Buffer) (text rest sub repl : List ℕ) (v : IsValid b)
    (at : b.buf ≡ some (text ++ (0 ∷ rest))) (size : b.len ≡ length text) (clean : HasNoNul text)
    (some_sub : is_empty sub ≡ false) where
  abbrev pieces : List (List ℕ)
  pieces = cut sub 0 text

  text_read : c_string (text ++ (0 ∷ rest)) ≡ some text
  text_read = c_string_lem text rest clean

  unchanged : Holds text b
  unchanged = record {
    valid = v;
    holds =
        ap (λ o. take b.len (bytes o)) at
        ∙ ap (λ n. take n (text ++ (0 ∷ rest))) size
        ∙ take_length-append text (0 ∷ rest);
    terminated = inr (
        ap (λ o. get_elem? (bytes o) b.len) at
        ∙ ap (get_elem? (text ++ (0 ∷ rest))) size
        ∙ get_elem?-append text 0 rest);
  }

  none_found : length pieces - 1 ≡ 0 → replace_string a b sub repl ≡ some (Ret.ok, b)
  unfolding replace_string
  none_found none_left = ground (arith, text_read)

  emptied :
      length pieces - 1 ≢ 0
      → result_length b sub repl (length pieces - 1) ≡ 0
      → replace_string a b sub repl ≡ cleaned b
  unfolding replace_string
  emptied found nothing = ground (arith, text_read)

  rebuilt :
      (len' : ℕ)
      → length pieces - 1 ≢ 0
      → result_length b sub repl (length pieces - 1) ≡ len'
      → below_one len' ≡ false
      → replace_string a b sub repl ≡ build a b (join repl pieces) len'
  unfolding replace_string
  rebuilt len' found count more = ground (arith, text_read)

  -- The number of occurrences, and the length that the first loop counts.
  counted :
      length sub ≤ 2 ^ 31
      → length (join repl pieces) < 2 ^ 31
      → result_length b sub repl (length pieces - 1) ≡ length (join repl pieces)
  counted small fits =
      let (p, ps, cut_in) = cut_cons sub 0 text in
      let n = length ps in
      let step = 2 ^ 32 + length repl - length sub in
      let number : length pieces - 1 ≡ length ps = omega (arith, ap (length {A = List ℕ}) cut_in) in
      let old : length text ≡ total (p ∷ ps) + length ps * length sub =
        ap length (sym (join-cut sub 0 text some_sub))
        ∙ ap (λ c. length (join sub c)) cut_in
        ∙ length-join sub p ps in
      let new : length (join repl pieces) ≡ total (p ∷ ps) + length ps * length repl =
        ap (λ c. length (join repl c)) cut_in ∙ length-join repl p ps in
      ap (λ m. u32 (b.len + m * step)) number
      ∙ ap (λ l. u32 (l + n * step)) (size ∙ old)
      ∙ wraps (total (p ∷ ps)) (length ps) (length sub) (length repl) small (omega arith)
      ∙ sym new

  -- On a valid buffer with a text that has no NUL inside, for a text to look for that is not
  -- empty and a result below 2 GB: http2d_buffer_replace_string cuts the text into pieces that have
  -- the text to look for between them and not inside, and either answers ret_nomem and leaves the
  -- buffer alone or answers ret_ok and leaves a valid, terminated buffer with the replacement
  -- between the same pieces.
  pub replace_string_lem :
      length sub ≤ 2 ^ 31
      → length (join repl pieces) + 1 < 2 ^ 31
      → (join sub pieces ≡ text)
        × AreFree sub pieces
        × Built (join repl pieces) b (replace_string a b sub repl)
  replace_string_lem small fits =
      let (p, ps, cut_in) = cut_cons sub 0 text in
      let old = join-cut sub 0 text some_sub in
      let new = join repl pieces in
      let count = counted small (omega arith) in
      (
        old,
        cut-AreFree sub 0 text some_sub,
        elim (ℕ_discrete (length pieces - 1) 0) [
          | yes no_piece ↦ inr (
            b,
            none_found no_piece,
            subst (λ xs. Holds xs b) (sym (join_one repl sub pieces no_piece ∙ old)) unchanged,
          )
          | no found ↦ elim (ℕ_discrete (length (join repl pieces)) 0) [
            | yes nothing ↦
                let (b', cleans, h) =
                  cleaned_lem b v (join repl pieces) (nil_of_length (join repl pieces) nothing) in
                inr (b', emptied found (count ∙ nothing) ∙ cleans, h)
            | no more ↦
                subst (Built (join repl pieces) b)
                  (sym (rebuilt (length (join repl pieces)) found count (ground arith)))
                  (build_lem a b (join repl pieces) fits)
          ]
        ],
      )
