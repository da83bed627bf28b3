-- ===== src/Codec/Html/Safe.antt =====
-- The text that http2d_buffer_add_escape_html of src/buffer.c writes, and its length.
use spdy_test.Prelude.{
  ℕ, suc, ◌+◌, ◌*◌, ◌≤◌, List, [], ◌∷◌, ◌++◌, none, some, length, take, drop, ◌≡◌, ◌≢◌, refl, sym,
  inl, inr, arith, Bool-cases, Option-cases, length-append, subst,
}
use spdy_test.Codec.Html.{is_special, find_special, html_extra, html_entity, extra_of, entities}

-- The escaped text: it stays as it is up to the first of the four characters.
unfoldable pub html_text : List ℕ → List ℕ
html_text xs = elim (find_special xs) [
  | none ↦ xs
  | some len0 ↦ take len0 xs ++ entities (drop len0 xs)
]

length-html_entity : (c : ℕ) → length (html_entity c) ≡ 1 + html_extra c
unfolding html_entity html_extra
length-html_entity c = ground arith

pub length-entities : (xs : List ℕ) → length (entities xs) ≡ length xs + extra_of xs
unfolding entities extra_of
length-entities [] = refl
length-entities (c ∷ cs) =
    omega
      (arith, length-entities cs, length-html_entity c, length-append (html_entity c) (entities cs))

html_extra_bound : (c : ℕ) → html_extra c ≤ 5
unfolding html_extra
html_extra_bound c = ground arith

pub extra_of_bound : (xs : List ℕ) → extra_of xs ≤ length xs * 5
unfolding extra_of
extra_of_bound [] = omega arith
extra_of_bound (c ∷ cs) = omega (arith, extra_of_bound cs, html_extra_bound c)

-- No byte that could open or close a tag or a quoted value.
abbrev pub IsSafe : List ℕ → Type 0
IsSafe [] = Unit
IsSafe (c ∷ cs) = (c ≢ b'<') × (c ≢ b'>') × (c ≢ b'"') × IsSafe cs

IsSafe-append : (xs ys : List ℕ) → IsSafe xs → IsSafe ys → IsSafe (xs ++ ys)
IsSafe-append [] ys h k = k
IsSafe-append (x ∷ xs) ys (p, q, r, h) k = (p, q, r, IsSafe-append xs ys h k)

html_entity-IsSafe : (c : ℕ) → IsSafe (html_entity c)
unfolding html_entity
html_entity-IsSafe c = ground arith

entities-IsSafe : (xs : List ℕ) → IsSafe (entities xs)
unfolding entities
entities-IsSafe [] = tt
entities-IsSafe (c ∷ cs) =
    IsSafe-append (html_entity c) (entities cs) (html_entity-IsSafe c) (entities-IsSafe cs)

find_special-none : (xs : List ℕ) → find_special xs ≡ none → IsSafe xs
unfolding find_special
find_special-none [] h = tt
find_special-none (c ∷ cs) h = elim (Bool-cases (is_special c)) [
  | inl special ↦ absurd (ground arith)
  | inr plain ↦
      let rest = find_special-none cs (ground (arith, Option-cases (find_special cs))) in
      (ground arith, ground arith, ground arith, rest)
]

pub find_special-some :
    (xs : List ℕ) {i : ℕ} → find_special xs ≡ some i → IsSafe (take i xs) × (i ≤ length xs)
unfolding find_special
find_special-some [] h = absurd (ground arith)
find_special-some (c ∷ cs) {i} h = elim (Bool-cases (is_special c)) [
  | inl special ↦
      let e : 0 ≡ i = ground arith in (subst (λ k. IsSafe (take k (c ∷ cs))) e tt, omega arith)
  | inr plain ↦ elim (Option-cases (find_special cs)) [
    | inl fails ↦ absurd (ground (arith, fails))
    | inr (k, found) ↦
        let (safe, le) = find_special-some cs found in
        let e : suc k ≡ i = ground (arith, found) in
        (
          subst (λ n. IsSafe (take n (c ∷ cs))) e (ground arith, ground arith, ground arith, safe),
          omega arith,
        )
  ]
]

module _ (xs : List ℕ) where
  pub html_text_same : find_special xs ≡ none → html_text xs ≡ xs
  unfolding html_text
  html_text_same fails = rw (fails, html_text)

  pub html_text_from :
      {i : ℕ} → find_special xs ≡ some i → html_text xs ≡ take i xs ++ entities (drop i xs)
  unfolding html_text
  html_text_from found = rw (found, html_text)

  pub html_text-IsSafe : IsSafe (html_text xs)
  html_text-IsSafe = elim (Option-cases (find_special xs)) [
    | inl fails ↦ subst IsSafe (sym (html_text_same fails)) (find_special-none xs fails)
    | inr (i, found) ↦ subst IsSafe (sym (html_text_from found)) (
        IsSafe-append (take i xs) (entities (drop i xs)) (find_special-some xs found).0
          (entities-IsSafe (drop i xs)))
  ]
