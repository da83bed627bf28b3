-- ===== src/Codec/Uri/Unescaped.antt =====
-- What http2d_buffer_unescape_uri of src/buffer.c makes of a string with no NUL.
use spdy_test.Prelude.{
  ℕ, suc, ◌+◌, ◌-◌, ◌<◌, ◌≤◌, List, [], ◌∷◌, ◌++◌, none, some, ◌≡◌, refl, sym, ap, ◌∙◌, inl, inr,
  arith, ◌==◌, if◌then◌else◌, length, take, drop, subst, Bool-cases, Option-cases, append_assoc,
  append-nil, length-drop, false, ◌>>=◌,
}
use spdy_test.Ret.{Ret}
use spdy_test.Buffer.{Buffer}
use spdy_test.Buffer.Mem.{bytes, blit, blit_lem}
use spdy_test.Buffer.Space.{contents, IsValid}
use spdy_test.Buffer.Adds.{Holds, written, length-written, terminated_at}
use spdy_test.Buffer.Edits.{length-contents, block_facts, edited}
use spdy_test.Codec.Output.{overwritten}
use spdy_test.Codec.Uri.{hex_pair, nul_to_space, unescape_loop, c_string, index_of, unescape_uri}

-- Each percent sign with two digits behind it becomes the byte that they spell, a NUL a space.
unfoldable pub unescaped : List ℕ → List ℕ
unescaped [] = []
unescaped (c ∷ []) = c ∷ []
unescaped (c ∷ d ∷ []) = c ∷ d ∷ []
unescaped (c ∷ d ∷ e ∷ cs) =
    let kept = c ∷ unescaped (d ∷ e ∷ cs) in
    let rest = unescaped cs in
    if c == b'%' then elim (hex_pair d e) [ none ↦ kept | some v ↦ nul_to_space v ∷ rest ] else kept

pub unescaped_other :
    (c : ℕ) (cs : List ℕ) → (c == b'%') ≡ false → unescaped (c ∷ cs) ≡ c ∷ unescaped cs
unfolding unescaped
unescaped_other c [] h = refl
unescaped_other c (d ∷ []) h = refl
unescaped_other c (d ∷ e ∷ cs) h = rw h

regroup :
    {p : List ℕ × ℕ} (out : List ℕ) (c : ℕ) (rest : List ℕ) {n n' : ℕ}
    → p ≡ ((out ++ (c ∷ [])) ++ rest, n)
    → n ≡ n'
    → p ≡ (out ++ (c ∷ rest), n')
regroup out c rest {n} h e =
    h ∙ ap (λ xs. (xs, n)) (append_assoc out (c ∷ []) rest) ∙ ap (λ k. (out ++ (c ∷ rest), k)) e

unescaped_loop_lem :
    (cs : List ℕ) (len : ℕ) (out : List ℕ)
    → length cs ≤ len
    → (unescape_loop cs len out ≡ (out ++ unescaped cs, len + length (unescaped cs) - length cs))
      × (length (unescaped cs) ≤ length cs)
unfolding unescape_loop unescaped
unescaped_loop_lem [] len out h = (
  ap (λ xs. (xs, len)) (sym (append-nil out)) ∙ ap (λ n. (out ++ [], n)) (omega arith),
  omega arith,
)
unescaped_loop_lem (c ∷ []) len out h = (ap (λ n. (out ++ (c ∷ []), n)) (omega arith), omega arith)
unescaped_loop_lem (c ∷ d ∷ []) len out h =
    (ap (λ n. (out ++ (c ∷ d ∷ []), n)) (omega arith), omega arith)
unescaped_loop_lem (c ∷ d ∷ e ∷ cs) len out h =
    let (kept, less) = unescaped_loop_lem (d ∷ e ∷ cs) len (out ++ (c ∷ [])) (omega arith) in
    elim (Bool-cases (c == b'%')) [
      | inr other ↦
          rw other (regroup out c (unescaped (d ∷ e ∷ cs)) kept (omega arith), omega arith)
      | inl percent ↦ elim (Option-cases (hex_pair d e)) [
        | inl fails ↦
            rw percent
              (rw fails (regroup out c (unescaped (d ∷ e ∷ cs)) kept (omega arith), omega arith))
        | inr (v, digits) ↦
            let (rest, less') =
              unescaped_loop_lem cs (len - 2) (out ++ (nul_to_space v ∷ [])) (omega arith) in
            rw percent (
              rw digits
                (regroup out (nul_to_space v) (unescaped cs) rest (omega arith), omega arith))
      ]
    ]

-- No percent sign: nothing changes.
index_of-none : (xs : List ℕ) → index_of b'%' xs ≡ none → unescaped xs ≡ xs
unfolding index_of
index_of-none [] h = unfold unescaped in refl
index_of-none (c ∷ xs) h = elim (Bool-cases (c == b'%')) [
  | inl percent ↦ absurd (ground arith)
  | inr other ↦
      unescaped_other c xs other
      ∙ ap (◌∷◌ c) (index_of-none xs (ground (arith, Option-cases (index_of b'%' xs))))
]

-- The bytes before the first one stay.
index_of-some :
    (xs : List ℕ) {i : ℕ}
    → index_of b'%' xs ≡ some i
    → (i ≤ length xs) × (unescaped xs ≡ take i xs ++ unescaped (drop i xs))
unfolding index_of
index_of-some [] h = absurd (ground arith)
index_of-some (c ∷ xs) {i} h = elim (Bool-cases (c == b'%')) [
  | inl percent ↦
      let e : 0 ≡ i = ground arith in
      (omega arith, ap (λ k. take k (c ∷ xs) ++ unescaped (drop k (c ∷ xs))) e)
  | inr other ↦ elim (Option-cases (index_of b'%' xs)) [
    | inl fails ↦ absurd (ground (arith, fails))
    | inr (k, found) ↦
        let (le, split) = index_of-some xs found in
        let e : suc k ≡ i = ground (arith, found) in
        (
          omega arith,
          unescaped_other c xs other
              ∙ ap (◌∷◌ c) split
              ∙ ap (λ k. take k (c ∷ xs) ++ unescaped (drop k (c ∷ xs))) e,
        )
  ]
]

-- No byte is zero.
abbrev pub HasNoNul : List ℕ → Type 0
HasNoNul [] = Unit
HasNoNul (c ∷ cs) = (0 < c) × HasNoNul cs

pub HasNoNul-append : (xs ys : List ℕ) → HasNoNul xs → HasNoNul ys → HasNoNul (xs ++ ys)
HasNoNul-append [] ys h k = k
HasNoNul-append (x ∷ xs) ys (pos, h) k = (pos, HasNoNul-append xs ys h k)

c_string_lem : (xs rest : List ℕ) → HasNoNul xs → c_string (xs ++ (0 ∷ rest)) ≡ xs
unfolding c_string
c_string_lem [] rest h = refl
c_string_lem (c ∷ xs) rest (pos, h) =
    let e : (c == 0) ≡ false = ground arith in rw e (ap (◌∷◌ c) (c_string_lem xs rest h))

-- "Verify string termination": the block with a NUL behind the string.
pub terminated_source :
    (b : Buffer) (m : List ℕ)
    → IsValid b
    → b.buf ≡ some m
    → HasNoNul (contents b)
    → (m1 : List ℕ) × (blit m b.len (0 ∷ []) ≡ some m1)
      × (c_string m1 ≡ contents b)
      × Holds (contents b) (record b { buf = some m1 })
terminated_source b m v at h =
    let (sized, lt) = block_facts b m v at in
    let k = b.len in
    let m1 = written m k (0 ∷ []) in
    let split : m1 ≡ contents b ++ (0 ∷ drop (k + 1) m) =
      ap (λ o. take k (bytes o) ++ (0 ∷ drop (k + 1) m)) (sym at) in
    let l : length m1 ≡ b.size = length-written m k (0 ∷ []) (omega arith) ∙ sized in
    let (kept, zero_at) = terminated_at m k lt in
    let same : take k m1 ≡ contents b = kept ∙ ap (λ o. take k (bytes o)) (sym at) in
    (
      m1,
      blit_lem m k (0 ∷ []) (omega arith),
      ap c_string split ∙ c_string_lem (contents b) (drop (k + 1) m) h,
      subst (λ xs. Holds xs (record b { buf = some m1 })) same
          (edited b m1 k v l (omega arith) zero_at),
    )

module _ (b : Buffer) {m m1 : List ℕ} (at : b.buf ≡ some m)
    (terminates : blit m b.len (0 ∷ []) ≡ some m1) where
  unescape_uri_same :
      index_of b'%' (c_string m1) ≡ none
      → unescape_uri b ≡ some (Ret.ok, record b { buf = some m1 })
  unfolding unescape_uri
  unescape_uri_same fails = rw at (rw terminates (rw (fails, ◌>>=◌)))

  unescape_uri_run :
      {m2 m3 out : List ℕ} {psrc len : ℕ}
      → index_of b'%' (c_string m1) ≡ some psrc
      → unescape_loop (drop psrc (c_string m1)) b.len [] ≡ (out, len)
      → blit m1 psrc out ≡ some m2
      → blit m2 (psrc + length out) (0 ∷ []) ≡ some m3
      → unescape_uri b ≡ some (Ret.ok, record b { buf = some m3; len = len })
  unfolding unescape_uri
  unescape_uri_run found loops writes ends =
      rw at (rw terminates (rw (found, ◌>>=◌) (rw loops (rw writes (rw ends)))))

-- A valid buffer with a block is unescaped in place.
pub unescape_uri_lem :
    (b : Buffer) (m : List ℕ)
    → IsValid b
    → b.buf ≡ some m
    → HasNoNul (contents b)
    → (b' : Buffer) × (unescape_uri b ≡ some (Ret.ok, b')) × Holds (unescaped (contents b)) b'
unescape_uri_lem b m v at h =
    let xs = contents b in
    let (m1, terminates, text, h1) = terminated_source b m v at h in
    let b1 = record b { buf = some m1 } in
    elim (Option-cases (index_of b'%' xs)) [
      | inl fails ↦ (
        b1,
        unescape_uri_same b at terminates (ap (index_of b'%') text ∙ fails),
        subst (λ ys. Holds ys b1) (sym (index_of-none xs fails)) h1,
      )
      | inr (psrc, found) ↦
          let (le, parts) = index_of-some xs found in
          let rest = drop psrc xs in
          let lx : length xs ≡ b.len = length-contents b v in
          let lr : length rest ≡ b.len - psrc = omega (arith, length-drop psrc xs) in
          let (loops, less) = unescaped_loop_lem rest b.len [] (omega arith) in
          let out = unescaped rest in
          let (sized, lt) = block_facts b1 m1 h1.valid refl in
          let e : b.len + length out - length rest ≡ psrc + length out = omega arith in
          let (m2, m3, writes, ends, held) =
            overwritten b1 m1 psrc out h1.valid refl (omega arith) (omega arith) in
          (
            record b { buf = some m3; len = psrc + length out },
            unescape_uri_run b {m1 = m1} at terminates {m2 = m2} {m3 = m3}
                (ap (index_of b'%') text ∙ found)
                (ap (λ ys. unescape_loop (drop psrc ys) b.len []) text
                  ∙ loops
                  ∙ ap (λ n. (out, n)) e)
                writes ends,
            subst (λ ys. Holds ys (record b { buf = some m3; len = psrc + length out }))
                (ap (λ ys. take psrc ys ++ out) h1.holds ∙ sym parts) held,
          )
    ]
