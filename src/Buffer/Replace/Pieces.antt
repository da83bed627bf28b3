-- ===== src/Buffer/Replace/Pieces.antt =====
-- The pieces of a text between the occurrences of another, as the loops of src/buffer.c find them.
use spdy_test.Prelude.{
  ℕ, zero, suc, ◌-◌, ◌≡◌, refl, sym, ap, subst, ◌∙◌, List, [], ◌∷◌, ◌++◌, none, true, false, length,
  drop, arith, Bool-cases, inl, inr,
}
use spdy_test.CString.{begins, strstr, in_first}
use spdy_test.Buffer.Replace.{cut, join, is_empty}

-- No piece has the text inside.
abbrev pub AreFree : List ℕ → List (List ℕ) → Type 0
AreFree t [] = Unit {0}
AreFree t (p ∷ ps) = (strstr p t ≡ none) × AreFree t ps

abbrev first : List (List ℕ) → List ℕ
first [] = []
first (p ∷ ps) = p

begins-append : (t p r : List ℕ) → begins t p ≡ true → begins t (p ++ r) ≡ true
unfolding begins
begins-append [] p r h = refl
begins-append (c ∷ t) [] r h = cc
begins-append (c ∷ t) (x ∷ p) r h = ground (arith, begins-append t p r)

begins_split : (t s : List ℕ) → begins t s ≡ true → t ++ drop (length t) s ≡ s
unfolding begins
begins_split [] s h = refl
begins_split (c ∷ t) [] h = cc
begins_split (c ∷ t) (x ∷ s) h = ground (arith, begins_split t s)

-- There is a first piece.
pub cut_cons :
    (t : List ℕ) (n : ℕ) (s : List ℕ) → (p : List ℕ) × (ps : List (List ℕ)) × (cut t n s ≡ p ∷ ps)
unfolding cut
cut_cons t n [] = ([], [], refl)
cut_cons t (suc n) (c ∷ s) = cut_cons t n s
cut_cons t zero (c ∷ s) = elim (Bool-cases (begins t (c ∷ s))) [
  | inl hit ↦ ([], cut t (length t - 1) s, ground arith)
  | inr miss ↦ let (p, ps, e) = cut_cons t zero s in (c ∷ p, ps, ground arith)
]

first_prefix : (t s : List ℕ) → (r : List ℕ) × (first (cut t zero s) ++ r ≡ s)
unfolding cut
first_prefix t [] = ([], refl)
first_prefix t (c ∷ s) = elim (Bool-cases (begins t (c ∷ s))) [
  | inl hit ↦ (c ∷ s, ground arith)
  | inr miss ↦
      let (r, e) = first_prefix t s in let (p, ps, pieces) = cut_cons t zero s in (r, ground arith)
]

join-in_first :
    (t : List ℕ) (c : ℕ) (p : List ℕ) (ps : List (List ℕ))
    → join t (in_first c (p ∷ ps)) ≡ c ∷ join t (p ∷ ps)
unfolding join
join-in_first t c p [] = refl
join-in_first t c p (q ∷ ps) = refl

join-hit :
    (t : List ℕ) (c : ℕ) (s : List ℕ)
    → is_empty t ≡ false
    → begins t (c ∷ s) ≡ true
    → join t (cut t (length t - 1) s) ≡ drop (length t - 1) s
    → join t ([] ∷ cut t (length t - 1) s) ≡ c ∷ s
unfolding join
join-hit [] c s some_t hit rest = cc
join-hit (x ∷ t) c s some_t hit rest =
    let (p, ps, pieces) = cut_cons (x ∷ t) (length (x ∷ t) - 1) s in
    let one_less : length (x ∷ t) - 1 ≡ length t = omega arith in
    let behind : join (x ∷ t) (p ∷ ps) ≡ drop (length t) s =
      ap (join (x ∷ t)) (sym pieces) ∙ rest ∙ ap (λ n. drop n s) one_less in
    rw pieces (ap (λ r. (x ∷ t) ++ r) behind ∙ begins_split (x ∷ t) (c ∷ s) hit)

free_nil : (t : List ℕ) → is_empty t ≡ false → strstr [] t ≡ none
unfolding strstr begins
free_nil [] some_t = cc
free_nil (c ∷ t) some_t = refl

free_cons :
    (t : List ℕ) (c : ℕ) (p : List ℕ)
    → begins t (c ∷ p) ≡ false
    → strstr p t ≡ none
    → strstr (c ∷ p) t ≡ none
unfolding strstr
free_cons t c p miss free = ground arith

begins_less : (t p r : List ℕ) → begins t (p ++ r) ≡ false → begins t p ≡ false
begins_less t p r miss = elim (Bool-cases (begins t p)) [
  | inl hit ↦ absurd (ground (arith, begins-append t p r))
  | inr h ↦ h
]

-- With the text itself between them, the pieces are the whole again.
pub join-cut :
    (t : List ℕ) (n : ℕ) (s : List ℕ) → is_empty t ≡ false → join t (cut t n s) ≡ drop n s
unfolding cut join
join-cut t zero [] some_t = refl
join-cut t (suc n) [] some_t = refl
join-cut t (suc n) (c ∷ s) some_t = join-cut t n s some_t
join-cut t zero (c ∷ s) some_t = elim (Bool-cases (begins t (c ∷ s))) [
  | inl hit ↦ rw hit (join-hit t c s some_t hit (join-cut t (length t - 1) s some_t))
  | inr miss ↦
      let (p, ps, pieces) = cut_cons t zero s in
      rw (miss, pieces)
        (join-in_first t c p ps ∙ ap (◌∷◌ c) (ap (join t) (sym pieces) ∙ join-cut t zero s some_t))
]

-- No occurrence is left inside a piece.
pub cut-AreFree : (t : List ℕ) (n : ℕ) (s : List ℕ) → is_empty t ≡ false → AreFree t (cut t n s)
unfolding cut
cut-AreFree t zero [] some_t = (free_nil t some_t, tt)
cut-AreFree t (suc n) [] some_t = (free_nil t some_t, tt)
cut-AreFree t (suc n) (c ∷ s) some_t = cut-AreFree t n s some_t
cut-AreFree t zero (c ∷ s) some_t = elim (Bool-cases (begins t (c ∷ s))) [
  | inl hit ↦ rw hit (free_nil t some_t, cut-AreFree t (length t - 1) s some_t)
  | inr miss ↦
      let (p, ps, pieces) = cut_cons t zero s in
      let (r, whole) = first_prefix t s in
      let is_first : first (cut t zero s) ≡ p = ap first pieces in
      let (free, rest) = subst (AreFree t) pieces (cut-AreFree t zero s some_t) in
      rw (miss, pieces) (free_cons t c p (begins_less t (c ∷ p) r (ground arith)) free, rest)
]
