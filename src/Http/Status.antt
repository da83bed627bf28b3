-- ===== src/Http/Status.antt =====
-- The codes in the status lines of src/http.c.
use spdy_test.Prelude.{
  ℕ, ◌+◌, ◌-◌, ◌*◌, List, [], ◌∷◌, ◌≡◌, refl, arith, Option, none, some, ◌==◌, Bool, true, false,
  ◌&&◌,
}
use spdy_test.Ret.{Ret}
use spdy_test.Header.{codes}
use spdy_test.Http.{switch_code, code_entries, copy_entries, http_code_to_string}

-- The number that the first three characters of a status line spell, before a space.
pub spelled_code : List ℕ → Option ℕ
spelled_code (a ∷ b ∷ c ∷ s ∷ rest) = elim (s == b' ') [
  | true ↦ some ((a - b'0') * 100 + (b - b'0') * 10 + (c - b'0'))
  | false ↦ none
]
spelled_code _ = none

all_spelled : List (ℕ × List ℕ) → Bool
all_spelled [] = true
all_spelled ((c, str) ∷ entries) =
    elim (spelled_code str) [ none ↦ false | some n ↦ n == c ] && all_spelled entries

switch_code-spelled :
    (code : ℕ) (entries : List (ℕ × List ℕ)) (unknown : List ℕ)
    → all_spelled entries ≡ true
    → (switch_code code entries unknown).0 ≡ Ret.ok
    → spelled_code (switch_code code entries unknown).1 ≡ some code
unfolding switch_code all_spelled
switch_code-spelled code [] unknown h e = cc
switch_code-spelled code ((c, str) ∷ entries) unknown h e =
    ground (arith, switch_code-spelled code entries unknown)

code_entries_spelled : all_spelled code_entries ≡ true
unfolding all_spelled spelled_code
code_entries_spelled = refl

copy_entries_spelled : all_spelled copy_entries ≡ true
unfolding all_spelled spelled_code
copy_entries_spelled = refl

-- Where http2d_http_code_to_string answers ret_ok, its string begins with the three digits of the
-- code and a space.
pub http_code_to_string_spelled :
    (code : ℕ)
    → (http_code_to_string code).0 ≡ Ret.ok
    → spelled_code (http_code_to_string code).1 ≡ some code
unfolding http_code_to_string
http_code_to_string_spelled code =
    switch_code-spelled code code_entries (codes "500 Unknown error") code_entries_spelled
