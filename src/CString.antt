-- ===== src/CString.antt =====
-- What the sources use of C's string functions. A C string is the list of its bytes in front of the
-- terminator, as `unsigned char`; a pointer into it is what stands in front of it and behind it.
pub mod Same
use spdy_test.Prelude.{
  ℕ, ◌+◌, ◌-◌, ◌*◌, ◌%◌, ◌^◌, List, [], ◌∷◌, Option, none, some, Bool, true, false, ◌&&◌, ◌||◌, ltb,
  leb, ◌==◌, if◌then◌else◌, length, drop,
}

-- The place of the first byte that passes the test: what is in front of it, the byte and the rest.
abbrev pub Place : Type 0
Place = List ℕ × ℕ × List ℕ

abbrev pub in_front : ℕ → Place → Place
in_front c (before, found, behind) = (c ∷ before, found, behind)

unfoldable pub find : (ℕ → Bool) → List ℕ → Option Place
find test [] = none
find test (c ∷ s) =
    let rest = find test s in
    elim (test c) [
      | true ↦ some ([], c, s)
      | false ↦ elim rest [ none ↦ none | some place ↦ some (in_front c place) ]
    ]

unfoldable pub strchr : List ℕ → ℕ → Option Place
unfolding find
strchr s c = find (λ x. x == c) s

-- Whether `strchr` is not NULL.
unfoldable pub has : List ℕ → ℕ → Bool
has [] c = false
has (x ∷ s) c = x == c || has s c

-- `strcmp (a, b) == 0`, and `memcmp` of blocks of one size.
unfoldable pub same : List ℕ → List ℕ → Bool
same [] [] = true
same [] (y ∷ ys) = false
same (x ∷ xs) [] = false
same (x ∷ xs) (y ∷ ys) = x == y && same xs ys

abbrev pub is_space : ℕ → Bool
is_space c = c == 32 || leb 9 c && leb c 13

abbrev pub is_digit : ℕ → Bool
is_digit c = leb b'0' c && leb c b'9'

-- The digits at the front of the text, behind the number `n`.
unfoldable pub digits : ℕ → List ℕ → ℕ
digits n [] = n
digits n (c ∷ s) =
    let rest = digits (n * 10 + (c - b'0')) s in elim (is_digit c) [ true ↦ rest | false ↦ n ]

-- A number of type `long` as its sign and its size, and whether `errno` is ERANGE.
pub record Long : Type 0 where
  pub negative : Bool
  pub size : ℕ
  pub out_of_range : Bool

abbrev long_of : Bool → ℕ → Long
long_of negative n =
    let bound = if negative then 2 ^ 63 else 2 ^ 63 - 1 in
    if ltb bound n
    then record { negative = negative; size = bound; out_of_range = true }
    else record { negative = negative; size = n; out_of_range = false }

unfoldable pub signed : List ℕ → Long
unfolding digits
signed [] = long_of false 0
signed (c ∷ s) =
    if c == b'-'
    then long_of true (digits 0 s)
    else if c == b'+'
    then long_of false (digits 0 s)
    else long_of false (digits 0 (c ∷ s))

-- strtol (text, NULL, 10)
unfoldable pub strtol : List ℕ → Long
unfolding signed digits
strtol [] = signed []
strtol (c ∷ s) = let rest = strtol s in elim (is_space c) [ true ↦ rest | false ↦ signed (c ∷ s) ]

-- The bits of an `int` that a `long` is cut down to.
abbrev pub int_of : Long → ℕ
int_of l = if l.negative then (2 ^ 64 - l.size) % 2 ^ 32 else l.size % 2 ^ 32

-- atoi: `strtol` without a look at `errno`.
unfoldable pub libc_atoi : List ℕ → ℕ
unfolding strtol
libc_atoi text = int_of (strtol text)

-- The pieces of a text between the bytes that pass the test, in order: one at least.
abbrev pub in_first : ℕ → List (List ℕ) → List (List ℕ)
in_first c [] = (c ∷ []) ∷ []
in_first c (k ∷ ks) = (c ∷ k) ∷ ks

unfoldable pub split : (ℕ → Bool) → List ℕ → List (List ℕ)
split test [] = [] ∷ []
split test (c ∷ s) = let rest = split test s in if test c then [] ∷ rest else in_first c rest

-- Whether the text begins with another, and `strstr`: what is in front of the first occurrence and
-- what is behind it.
unfoldable pub begins : List ℕ → List ℕ → Bool
begins [] s = true
begins (c ∷ t) [] = false
begins (c ∷ t) (x ∷ s) = c == x && begins t s

unfoldable pub strstr : List ℕ → List ℕ → Option (List ℕ × List ℕ)
unfolding begins
strstr [] text = if begins text [] then some ([], []) else none
strstr (c ∷ s) text =
    let rest = strstr s text in
    if begins text (c ∷ s)
    then some ([], drop (length text) (c ∷ s))
    else elim rest [ none ↦ none | some (before, behind) ↦ some (c ∷ before, behind) ]

-- Skips spaces at the front, and at the end.
unfoldable pub skip_spaces : List ℕ → List ℕ
skip_spaces [] = []
skip_spaces (c ∷ s) = let rest = skip_spaces s in if c == 32 then rest else c ∷ s

unfoldable pub cut_spaces : List ℕ → List ℕ
cut_spaces [] = []
cut_spaces (c ∷ s) =
    let rest = cut_spaces s in elim rest [ [] ↦ if c == 32 then [] else c ∷ [] | d ∷ t ↦ c ∷ d ∷ t ]

-- `tolower`, and where `strncasecmp` of two texts of one length is 0.
abbrev pub to_lower : ℕ → ℕ
to_lower c = if leb b'A' c && leb c b'Z' then c + 32 else c

unfoldable pub same_nocase : List ℕ → List ℕ → Bool
same_nocase [] [] = true
same_nocase [] (y ∷ ys) = false
same_nocase (x ∷ xs) [] = false
same_nocase (x ∷ xs) (y ∷ ys) = to_lower x == to_lower y && same_nocase xs ys
