-- ===== src/Http/Method/RoundTrip.antt =====
-- The texts of the methods of src/http.c, written and read.
use spdy_test.Prelude.{
  ℕ, ◌^◌, ◌≡◌, ◌≢◌, refl, sym, ap, subst, ◌∙◌, List, [], ◌∷◌, Bool, true, false, ◌&&◌, ◌||◌, ◌==◌,
  arith, Bool-cases, inl, inr,
}
use spdy_test.Ret.{Ret}
use spdy_test.CString.{same_nocase}
use spdy_test.Http.Method.{
  method_entries, entry_text, method_to_string, method_names, named_method, string_to_method,
}

abbrev pub http_purge : ℕ
http_purge = 2 ^ 33

abbrev is_ok : Ret → Bool
is_ok Ret.ok = true
is_ok other = false

same_nocase_trans :
    (s t u : List ℕ) → same_nocase s t ≡ true → same_nocase t u ≡ true → same_nocase s u ≡ true
unfolding same_nocase
same_nocase_trans [] [] u h k = k
same_nocase_trans [] (y ∷ t) u h k = cc
same_nocase_trans (x ∷ s) [] u h k = cc
same_nocase_trans (x ∷ s) (y ∷ t) [] h k = cc
same_nocase_trans (x ∷ s) (y ∷ t) (z ∷ u) h k = ground (arith, same_nocase_trans s t u)

-- Every name stands for a method whose text is that name, but for the case.
abbrev spelled : List ℕ → ℕ → Bool
spelled name m =
    (m == http_purge) || (is_ok (method_to_string m).0 && same_nocase name (method_to_string m).1)

all_spelled : List (List ℕ × ℕ) → Bool
all_spelled [] = true
all_spelled ((name, m) ∷ names) = spelled name m && all_spelled names

names_spelled : all_spelled method_names ≡ true
unfolding all_spelled method_to_string same_nocase
names_spelled = refl

spelled_lem :
    (name : List ℕ) (m : ℕ)
    → spelled name m ≡ true
    → m ≢ http_purge
    → (string : List ℕ) → same_nocase string name ≡ true
    → (is_ok (method_to_string m).0 ≡ true) × (same_nocase string (method_to_string m).1 ≡ true)
spelled_lem name m h other string hit =
    ground (arith, same_nocase_trans string name (method_to_string m).1)

-- Every text of a method is read as that method.
all_read : List (ℕ × List ℕ) → Bool
all_read [] = true
all_read ((m, str) ∷ entries) =
    (is_ok (string_to_method str).0 && ((string_to_method str).1 == m)) && all_read entries

entries_read : all_read method_entries ≡ true
unfolding all_read string_to_method
entries_read = refl

is_ok_lem : (r : Ret) → is_ok r ≡ true → r ≡ Ret.ok
is_ok_lem Ret.ok h = refl
is_ok_lem Ret.no_sys h = cc
is_ok_lem Ret.nomem h = cc
is_ok_lem Ret.deny h = cc
is_ok_lem Ret.error h = cc
is_ok_lem Ret.eof h = cc
is_ok_lem Ret.eof_have_data h = cc
is_ok_lem Ret.not_found h = cc
is_ok_lem Ret.file_not_found h = cc
is_ok_lem Ret.eagain h = cc
is_ok_lem Ret.ok_and_sent h = cc

named_method_lem :
    (names : List (List ℕ × ℕ)) (string : List ℕ) (m : ℕ)
    → all_spelled names ≡ true
    → named_method names string ≡ (Ret.ok, m)
    → m ≢ http_purge
    → (is_ok (method_to_string m).0 ≡ true) × (same_nocase string (method_to_string m).1 ≡ true)
unfolding named_method all_spelled
named_method_lem [] string m all named other = cc
named_method_lem ((name, k) ∷ names) string m all named other =
    elim (Bool-cases (same_nocase string name)) [
      | inl hit ↦
          let is_k : k ≡ m = ground arith in
          subst
            (λ j.
              (is_ok (method_to_string j).0 ≡ true)
              × (same_nocase string (method_to_string j).1 ≡ true))
            is_k (spelled_lem name k (ground arith) (λ e. other (sym is_k ∙ e)) string hit)
      | inr miss ↦ named_method_lem names string m (ground arith) (ground arith) other
    ]

read_as :
    (r : Ret × ℕ) (k m : ℕ) → (is_ok r.0 && (r.1 == k)) ≡ true → (k == m) ≡ true → r ≡ (Ret.ok, m)
read_as (ret, n) k m h e = ground (arith, is_ok_lem ret)

entry_text_lem :
    (entries : List (ℕ × List ℕ)) (m : ℕ)
    → all_read entries ≡ true
    → is_ok (entry_text entries m).0 ≡ true
    → string_to_method (entry_text entries m).1 ≡ (Ret.ok, m)
unfolding entry_text all_read
entry_text_lem [] m all found = cc
entry_text_lem ((k, str) ∷ entries) m all found = elim (Bool-cases (k == m)) [
  | inl hit ↦
      let read : string_to_method str ≡ (Ret.ok, m) =
        read_as (string_to_method str) k m (ground arith) hit in
      rw hit read
  | inr miss ↦ ground (arith, entry_text_lem entries m)
]

text_read :
    (m : ℕ)
    → is_ok (method_to_string m).0 ≡ true
    → string_to_method (method_to_string m).1 ≡ (Ret.ok, m)
unfolding method_to_string
text_read m found = entry_text_lem method_entries m entries_read found

-- A text that http2d_http_string_to_method accepts, in whatever case, stands for a method whose
-- text, by http2d_http_method_to_string, is the same but for the case and is read as that method
-- again. The method PURGE, which has no text, is left out.
pub method_round_trip :
    (string : List ℕ) (m : ℕ)
    → string_to_method string ≡ (Ret.ok, m)
    → m ≢ http_purge
    → (text : List ℕ) × (method_to_string m ≡ (Ret.ok, text))
      × (same_nocase string text ≡ true)
      × (string_to_method text ≡ (Ret.ok, m))
unfolding string_to_method
method_round_trip string m named other =
    let (found, alike) = named_method_lem method_names string m names_spelled named other in
    (
      (method_to_string m).1,
      ap (λ r. (r, (method_to_string m).1)) (is_ok_lem _ found),
      alike,
      text_read m found,
    )
