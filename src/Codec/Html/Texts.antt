-- ===== src/Codec/Html/Texts.antt =====
-- Texts and what http2d_buffer_add_escape_html of src/buffer.c is to make of them.
use spdy_test.Prelude.{
  ℕ, suc, List, [], ◌∷◌, ◌++◌, none, some, ◌≡◌, ◌≢◌, refl, ap, subst, inl, inr, ◌⊎◌, arith, ◌==◌,
  Bool-cases, Option-cases, take, drop, ◌∙◌,
}
use spdy_test.Header.{codes}
use spdy_test.Codec.Html.{is_special, find_special, html_entity, entities}
use spdy_test.Codec.Html.Safe.{html_text, html_text_same, html_text_from}

-- A character that is written as it is.
abbrev pub IsPlain : ℕ → Type 0
IsPlain c = (c ≢ 60) × (c ≢ 62) × (c ≢ 38) × (c ≢ 34) × (c ≢ 35) × (c ≢ 39)

-- A character, and what stands for it.
pub data Entity : ℕ → List ℕ → Type 0 where
  plain : (c : ℕ) (text : List ℕ) → IsPlain c → text ≡ c ∷ [] → Entity c text
  less : (c : ℕ) (text : List ℕ) → c ≡ 60 → text ≡ codes "&lt;" → Entity c text
  greater : (c : ℕ) (text : List ℕ) → c ≡ 62 → text ≡ codes "&gt;" → Entity c text
  ampersand : (c : ℕ) (text : List ℕ) → c ≡ 38 → text ≡ codes "&amp;" → Entity c text
  quote : (c : ℕ) (text : List ℕ) → c ≡ 34 → text ≡ codes "&quot;" → Entity c text
  hash : (c : ℕ) (text : List ℕ) → c ≡ 35 → text ≡ codes "&#35;" → Entity c text
  apostrophe : (c : ℕ) (text : List ℕ) → c ≡ 39 → text ≡ codes "&#39;" → Entity c text

-- Every character of a text in turn.
pub data Escaped : List ℕ → List ℕ → Type 0 where
  done : Escaped [] []
  char :
      (c : ℕ) (text : List ℕ) {cs texts : List ℕ}
      → Entity c text
      → Escaped cs texts
      → Escaped (c ∷ cs) (text ++ texts)

-- None of the four characters that have to be escaped.
abbrev pub HasNoSpecial : List ℕ → Type 0
HasNoSpecial [] = Unit {0}
HasNoSpecial (c ∷ cs) = (c ≢ 60) × (c ≢ 62) × (c ≢ 38) × (c ≢ 34) × HasNoSpecial cs

abbrev pub StartsSpecial : List ℕ → Type 0
StartsSpecial [] = Unit {0}
StartsSpecial (c ∷ cs) = (c ≡ 60) ⊎ (c ≡ 62) ⊎ (c ≡ 38) ⊎ (c ≡ 34)

-- A text is the same up to the first of the four characters; from there on each character stands
-- for itself or is replaced, a hash and an apostrophe too.
pub record IsHtml (text html : List ℕ) : Type 0 where
  pub front : List ℕ
  pub back : List ℕ
  pub behind : List ℕ
  pub text_split : text ≡ front ++ back
  pub html_split : html ≡ front ++ behind
  pub plain : HasNoSpecial front
  pub starts : StartsSpecial back
  pub escaped : Escaped back behind

html_entity-Entity : (c : ℕ) → Entity c (html_entity c)
unfolding html_entity
html_entity-Entity c = elim (Bool-cases (c == 60)) [
  | inl e ↦ Entity.less c _ (ground arith) (ground arith)
  | inr n1 ↦ elim (Bool-cases (c == 62)) [
    | inl e ↦ Entity.greater c _ (ground arith) (ground arith)
    | inr n2 ↦ elim (Bool-cases (c == 38)) [
      | inl e ↦ Entity.ampersand c _ (ground arith) (ground arith)
      | inr n3 ↦ elim (Bool-cases (c == 34)) [
        | inl e ↦ Entity.quote c _ (ground arith) (ground arith)
        | inr n4 ↦ elim (Bool-cases (c == 35)) [
          | inl e ↦ Entity.hash c _ (ground arith) (ground arith)
          | inr n5 ↦ elim (Bool-cases (c == 39)) [
            | inl e ↦ Entity.apostrophe c _ (ground arith) (ground arith)
            | inr n6 ↦ Entity.plain c _ (ground arith) (ground arith)
          ]
        ]
      ]
    ]
  ]
]

entities-Escaped : (xs : List ℕ) → Escaped xs (entities xs)
unfolding entities
entities-Escaped [] = done
entities-Escaped (c ∷ cs) = char c (html_entity c) (html_entity-Entity c) (entities-Escaped cs)

no_special : (xs : List ℕ) → find_special xs ≡ none → HasNoSpecial xs
unfolding find_special
no_special [] h = tt
no_special (c ∷ cs) h = elim (Bool-cases (is_special c)) [
  | inl special ↦ absurd (ground arith)
  | inr not_special ↦
      let rest = no_special cs (ground (arith, Option-cases (find_special cs))) in
      (ground arith, ground arith, ground arith, ground arith, rest)
]

first_special :
    (xs : List ℕ) (i : ℕ)
    → find_special xs ≡ some i
    → (xs ≡ take i xs ++ drop i xs) × HasNoSpecial (take i xs) × StartsSpecial (drop i xs)
unfolding find_special
first_special [] i h = absurd (ground arith)
first_special (c ∷ cs) i h = elim (Bool-cases (is_special c)) [
  | inl special ↦
      let at : 0 ≡ i = ground arith in
      subst
        (λ k.
          (c ∷ cs ≡ take k (c ∷ cs) ++ drop k (c ∷ cs))
          × HasNoSpecial (take k (c ∷ cs))
          × StartsSpecial (drop k (c ∷ cs)))
        at (refl, tt, ground arith)
  | inr not_special ↦ elim (Option-cases (find_special cs)) [
    | inl fails ↦ absurd (ground (arith, fails))
    | inr (k, found) ↦
        let (split, none_in, starts) = first_special cs k found in
        let at : suc k ≡ i = ground (arith, found) in
        subst
          (λ n.
            (c ∷ cs ≡ take n (c ∷ cs) ++ drop n (c ∷ cs))
            × HasNoSpecial (take n (c ∷ cs))
            × StartsSpecial (drop n (c ∷ cs)))
          at
          (
            ap (λ r. c ∷ r) split,
            (ground arith, ground arith, ground arith, ground arith, none_in),
            starts,
          )
  ]
]

append_none : (xs : List ℕ) → xs ≡ xs ++ []
append_none [] = refl
append_none (x ∷ xs) = ap (λ r. x ∷ r) (append_none xs)

pub IsHtml-html_text : (xs : List ℕ) → IsHtml xs (html_text xs)
IsHtml-html_text xs = elim (Option-cases (find_special xs)) [
  | inl fails ↦ record {
    front = xs;
    back = [];
    behind = [];
    text_split = append_none xs;
    html_split = html_text_same xs fails ∙ append_none xs;
    plain = no_special xs fails;
    starts = tt;
    escaped = done;
  }
  | inr (i, found) ↦
      let (split, none_in, starts) = first_special xs i found in
      record {
        front = take i xs;
        back = drop i xs;
        behind = entities (drop i xs);
        text_split = split;
        html_split = html_text_from xs found;
        plain = none_in;
        starts = starts;
        escaped = entities-Escaped (drop i xs);
      }
]
