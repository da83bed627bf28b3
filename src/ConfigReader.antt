-- ===== src/ConfigReader.antt =====
-- The parser of configuration texts of src/config_reader.c. A text is a C string: it has no NUL
-- inside. Files and directories, which do_include reads, are a parameter.
pub mod Checked
pub mod Printed
pub mod Sorted
use spdy_test.Prelude.{
  ℕ, zero, suc, ◌+◌, ◌-◌, ◌^◌, ◌%◌, List, [], ◌∷◌, ◌++◌, Option, none, some, Bool, true, false, not,
  ◌&&◌, ◌||◌, ltb, leb, ◌==◌, if◌then◌else◌, ◌>>=◌, length,
}
use Prim.Native.Nat.{Ordering}
use spdy_test.Ret.{Ret}
use spdy_test.CString.{split, strstr, strtol, int_of, skip_spaces, cut_spaces, same_nocase}
use spdy_test.LinkedList.{list_sort}
use spdy_test.ConfigNode.{Nodes, nil, node, Config, is_empty, config_node_add_buf}

-- "Look for the EOL": the first of the two that `strchr` finds.
abbrev pub is_eol : ℕ → Bool
is_eol c = c == 10 || c == 13

-- "Skip whites at the begining": of one line, as an empty one is skipped for its length.
unfoldable pub skip_whites : List ℕ → List ℕ
skip_whites [] = []
skip_whites (c ∷ s) = let rest = skip_whites s in if c == 32 || c == 9 then rest else c ∷ s

abbrev pub equal_text : List ℕ
equal_text = 32 ∷ b'=' ∷ 32 ∷ []

-- The key and the value of a line.
unfoldable pub key_and_val : List ℕ → Option (List ℕ × List ℕ)
unfolding strstr cut_spaces skip_spaces
key_and_val line = elim (strstr line equal_text) [
  | none ↦ none
  | some (before, behind) ↦ some (cut_spaces before, cut_spaces (skip_spaces behind))
]

abbrev pub is_comment : List ℕ → Bool
is_comment [] = false
is_comment (c ∷ s) = c == b'#'

module _ (parse : Config → List ℕ → Option (Ret × Config)) where
  -- "Read the line."
  unfoldable pub read_line : Config → List ℕ → Option (Ret × Config)
  unfolding key_and_val config_node_add_buf
  read_line conf line =
      if leb (length line) 4
      then some (Ret.ok, conf)
      else if is_comment line
      then some (Ret.ok, conf)
      else elim (key_and_val line) [
        | none ↦ some (Ret.error, conf)
        | some (key, val) ↦ config_node_add_buf parse conf key val
      ]

  -- The `do` loop: an answer other than ret_ok is "goto error".
  unfoldable pub read_lines : Config → List (List ℕ) → Option (Ret × Config)
  unfolding read_line skip_whites
  read_lines conf [] = some (Ret.ok, conf)
  read_lines conf (line ∷ lines) = read_line conf (skip_whites line) >>= (λ r.
      let rest = read_lines r.1 lines in
      elim r.0 [ Ret.ok ↦ rest | failed ↦ some (Ret.error, r.1) ])

-- cmp_num: the bits of the difference of two `int`, which may wrap around, by their sign.
abbrev pub sign_of : ℕ → Ordering
sign_of d = if d == 0 then Ordering.eq else if ltb d (2 ^ 31) then Ordering.gt else Ordering.lt

unfoldable pub cmp_num : Config → Config → Ordering
unfolding strtol
cmp_num a b = sign_of ((int_of (strtol b.key) + 2 ^ 32 - int_of (strtol a.key)) % 2 ^ 32)

unfoldable pub to_list : Nodes → List Config
to_list nil = []
to_list (node key val child next) = record { key = key; val = val; child = child } ∷ to_list next

unfoldable pub of_list : List Config → Nodes
of_list [] = nil
of_list (c ∷ l) = node c.key c.val c.child (of_list l)

-- "Are all numbers": a key that reads as 0 ends the loop, since `errno = EINVAL` assigns. A key with
-- no block is read through NULL.
unfoldable pub all_num : Nodes → Option Bool
unfolding strtol
all_num nil = some true
all_num (node key val child next) =
    let rest = all_num next in
    if is_empty key then none else if int_of (strtol key) == 0 then some false else rest

-- "Reorder entries"
unfoldable pub sort_level : Nodes → Option Nodes
unfolding all_num to_list of_list cmp_num list_sort
sort_level nodes = all_num nodes >>= (λ numbers. elim numbers [
  | true ↦ list_sort cmp_num (to_list nodes) >>= (λ sorted. some (of_list sorted))
  | false ↦ some nodes
])

-- "Iterate through the children": each of them is sorted in the same way. Sorting a list changes
-- nothing below its nodes, so that the order of the two does not matter.
unfoldable pub sort_below : Nodes → Option Nodes
unfolding sort_level
sort_below nil = some nil
sort_below (node key val child next) =
    let inner = sort_below child in
    let behind = sort_below next in
    inner >>= (λ below.
      sort_level below >>= (λ child'. behind >>= (λ next'. some (node key val child' next'))))

unfoldable pub sort_lists : Config → Option (Ret × Config)
unfolding sort_below
sort_lists conf = do
  below ← sort_below conf.child
  child ← sort_level below
  some (Ret.ok, record conf { child = child })

-- check_config_node_sanity: whether two children have the same key but for the case. The test is
-- symmetric, so that each pair is looked at once.
unfoldable pub clashes_with : List ℕ → Nodes → Bool
unfolding same_nocase
clashes_with k nil = false
clashes_with k (node key val child next) = same_nocase k key || clashes_with k next

unfoldable pub has_clash : Nodes → Bool
unfolding clashes_with
has_clash nil = false
has_clash (node key val child next) = clashes_with key next || has_clash next

unfoldable pub check_config_node_sanity : Config → Ret
unfolding has_clash
check_config_node_sanity conf = if has_clash conf.child then Ret.error else Ret.ok

-- What follows the loop.
unfoldable pub finish : Config → Option (Ret × Config)
unfolding sort_lists check_config_node_sanity
finish conf = sort_lists conf >>= (λ r. elim r.0 [
  | Ret.ok ↦ some (check_config_node_sanity r.1, r.1)
  | failed ↦ some (failed, r.1)
])

unfoldable pub parse_string :
    (Config → List ℕ → Option (Ret × Config)) → Config → List ℕ → Option (Ret × Config)
unfolding read_lines finish split
parse_string parse conf buf =
    read_lines parse conf (split is_eol buf)
    >>= (λ r. elim r.0 [ Ret.ok ↦ finish r.1 | failed ↦ some (failed, r.1) ])
