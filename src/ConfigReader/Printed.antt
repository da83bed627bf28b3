-- ===== src/ConfigReader/Printed.antt =====
-- Texts of entries, "key = value" on a line each, and what the parser of src/config_reader.c makes
-- of them.
use spdy_test.Prelude.{
  ℕ, ◌≡◌, refl, ◌∙◌, List, [], ◌∷◌, ◌++◌, Option, some, Bool, true, false, ◌||◌, leb, ◌==◌, ◌>>=◌,
  length, length-append, arith,
}
use spdy_test.Ret.{Ret}
use spdy_test.CString.{split, begins, strstr, skip_spaces, cut_spaces}
use spdy_test.ConfigNode.{Config, config_node_add_buf}
use spdy_test.ConfigReader.Checked.{IsUnordered, BelowUnordered, IsChecked, finish_lem}
use spdy_test.ConfigReader.{
  is_eol, skip_whites, equal_text, key_and_val, is_comment, read_line, read_lines, finish,
  parse_string,
}

abbrev pub is_white : ℕ → Bool
is_white c = c == 32 || c == 9 || is_eol c

abbrev pub is_nul : ℕ → Bool
is_nul c = c == 0

abbrev pub None : (ℕ → Bool) → List ℕ → Type 0
None test [] = Unit {0}
None test (c ∷ s) = (test c ≡ false) × None test s

abbrev pub is_nil : List ℕ → Bool
is_nil [] = true
is_nil (c ∷ s) = false

-- A key without blanks that does not look like a comment, and a value on one line with no spaces at
-- its ends. A C string has no NUL inside.
pub record IsEntry (key val : List ℕ) : Type 0 where
  pub key_some : is_nil key ≡ false
  pub key_plain : None is_white key
  pub no_comment : is_comment key ≡ false
  pub val_some : is_nil val ≡ false
  pub one_line : None is_eol val
  pub no_nul : None is_nul key × None is_nul val
  pub no_space : (skip_spaces val ≡ val) × (cut_spaces val ≡ val)

abbrev pub AreEntries : List (List ℕ × List ℕ) → Type 0
AreEntries [] = Unit {0}
AreEntries (e ∷ es) = IsEntry e.0 e.1 × AreEntries es

abbrev pub print_entry : List ℕ × List ℕ → List ℕ
print_entry e = e.0 ++ (equal_text ++ e.1)

pub print : List (List ℕ × List ℕ) → List ℕ
print [] = []
print (e ∷ es) = print_entry e ++ (10 ∷ print es)

split-line :
    (test : ℕ → Bool) (line rest : List ℕ) (c : ℕ)
    → None test line
    → test c ≡ true
    → split test (line ++ (c ∷ rest)) ≡ line ∷ split test rest
unfolding split
split-line test [] rest c absent eol = ground arith
split-line test (x ∷ line) rest c (other, absent) eol =
    ground (arith, split-line test line rest c absent eol)

None-append : (test : ℕ → Bool) (s t : List ℕ) → None test s → None test t → None test (s ++ t)
None-append test [] t hs ht = ht
None-append test (c ∷ s) t (h, hs) ht = (h, None-append test s t hs ht)

key_one_line : (key : List ℕ) → None is_white key → None is_eol key
key_one_line [] plain = tt
key_one_line (c ∷ key) (h, plain) = (ground arith, key_one_line key plain)

strstr-key :
    (key val : List ℕ)
    → None is_white key
    → strstr (key ++ (equal_text ++ val)) equal_text ≡ some (key, val)
unfolding strstr begins
strstr-key [] val plain = refl
strstr-key (c ∷ key) val (h, plain) = ground (arith, strstr-key key val plain)

cut_spaces-key : (key : List ℕ) → None is_white key → cut_spaces key ≡ key
unfolding cut_spaces
cut_spaces-key [] plain = refl
cut_spaces-key (c ∷ []) (h, plain) = ground arith
cut_spaces-key (c ∷ d ∷ key) (h, plain) = rw (cut_spaces-key (d ∷ key) plain) refl

key_and_val-print :
    (key val : List ℕ) → IsEntry key val → key_and_val (print_entry (key, val)) ≡ some (key, val)
unfolding key_and_val
key_and_val-print key val entry =
    ground (
      arith,
      strstr-key key val entry.key_plain,
      cut_spaces-key key entry.key_plain,
      entry.no_space,
    )

skip_whites-print :
    (key val : List ℕ)
    → IsEntry key val
    → skip_whites (print_entry (key, val)) ≡ print_entry (key, val)
unfolding skip_whites
skip_whites-print [] val entry = absurd (cc)
skip_whites-print (c ∷ key) val entry = ground (arith, entry.key_plain.0)

length-print :
    (key val : List ℕ) → IsEntry key val → leb (length (print_entry (key, val))) 4 ≡ false
length-print [] val entry = absurd (cc)
length-print (c ∷ key) [] entry = absurd (cc)
length-print (c ∷ key) (d ∷ val) entry =
    ground (arith, length-append {0} key (equal_text ++ (d ∷ val)))

comment-print : (key val : List ℕ) → IsEntry key val → is_comment (print_entry (key, val)) ≡ false
comment-print [] val entry = absurd (cc)
comment-print (c ∷ key) val entry = entry.no_comment

module _ (parse : Config → List ℕ → Option (Ret × Config)) where
  -- The entries are added one by one, up to the first that is refused.
  unfoldable pub add_entries : Config → List (List ℕ × List ℕ) → Option (Ret × Config)
  add_entries conf [] = some (Ret.ok, conf)
  add_entries conf (e ∷ es) = config_node_add_buf parse conf e.0 e.1 >>= (λ r.
      let rest = add_entries r.1 es in elim r.0 [ Ret.ok ↦ rest | failed ↦ some (Ret.error, r.1) ])

  read_line-print :
      (conf : Config) (key val : List ℕ)
      → IsEntry key val
      → read_line parse conf (print_entry (key, val)) ≡ config_node_add_buf parse conf key val
  unfolding read_line
  read_line-print conf key val entry = ground (
    arith,
    length-print key val entry,
    comment-print key val entry,
    key_and_val-print key val entry,
  )

  -- The line of an entry is added, and the rest of the lines is read if it was accepted.
  read_lines-line :
      (conf : Config) (key val : List ℕ) (lines : List (List ℕ))
      → IsEntry key val
      → read_lines parse conf (print_entry (key, val) ∷ lines) ≡ (
          config_node_add_buf parse conf key val >>= (λ r.
            let rest = read_lines parse r.1 lines in
            elim r.0 [ Ret.ok ↦ rest | failed ↦ some (Ret.error, r.1) ]))
  unfolding read_lines
  read_lines-line conf key val lines entry =
      rw (skip_whites-print key val entry, read_line-print conf key val entry) refl

  read_no_line : (conf : Config) → read_lines parse conf (split is_eol []) ≡ some (Ret.ok, conf)
  unfolding read_lines split read_line skip_whites
  read_no_line conf = refl

  read_lines-print :
      (conf : Config) (es : List (List ℕ × List ℕ))
      → AreEntries es
      → read_lines parse conf (split is_eol (print es)) ≡ add_entries conf es
  unfolding print add_entries
  read_lines-print conf [] entries = read_no_line conf
  read_lines-print conf ((key, val) ∷ es) (entry, entries) =
      let one_line =
        None-append is_eol key (equal_text ++ val) (key_one_line key entry.key_plain)
          (refl, (refl, (refl, entry.one_line))) in
      let line = split-line is_eol (print_entry (key, val)) (print es) 10 one_line refl in
      rw (line, read_lines-line conf key val (split is_eol (print es)) entry)
        (λ i. config_node_add_buf parse conf key val >>= (λ r.
          let rest = read_lines-print r.1 es entries i in
          elim r.0 [ Ret.ok ↦ rest | failed ↦ some (Ret.error, r.1) ]))

  parse_entries :
      (conf : Config) (es : List (List ℕ × List ℕ))
      → AreEntries es
      → parse_string parse conf (print es) ≡ (
          add_entries conf es
          >>= (λ r. elim r.0 [ Ret.ok ↦ finish r.1 | failed ↦ some (failed, r.1) ]))
  unfolding parse_string
  parse_entries conf es entries = rw (read_lines-print conf es entries) refl

  -- For texts that were printed from entries, "key = value" on a line each, where the keys have no
  -- blanks and do not begin with a hash, the values are on one line and have no spaces at their ends,
  -- and neither is empty or has a NUL: where the entries can all be added to the tree in their order,
  -- and every list of the tree that comes out of it has a key that is no number, so that nothing is
  -- sorted, the parser leaves that tree and answers ret_ok, or ret_error if two keys at the top are
  -- equal without regard to case; where one of the entries is refused, the parse ends there with
  -- ret_error.
  pub parse_string-print :
      (conf conf1 conf2 : Config) (es bad : List (List ℕ × List ℕ))
      → AreEntries es
      → AreEntries bad
      → add_entries conf es ≡ some (Ret.ok, conf1)
      → IsUnordered conf1.child × BelowUnordered conf1.child
      → add_entries conf bad ≡ some (Ret.error, conf2)
      → ((answer : Ret) × (parse_string parse conf (print es) ≡ some (answer, conf1))
          × IsChecked conf1 answer)
        × (parse_string parse conf (print bad) ≡ some (Ret.error, conf2))
  parse_string-print conf conf1 conf2 es bad entries bad_entries accepted (level, below) refused =
      let (answer, finishes, checked) = finish_lem conf1 level below in
      (
        (answer, parse_entries conf es entries ∙ rw accepted finishes, checked),
        parse_entries conf bad bad_entries ∙ rw refused refl,
      )
