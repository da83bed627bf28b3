-- ===== src/ConfigReader/Checked.antt =====
-- What follows the lines in the parser of src/config_reader.c: entries that are not all numbers keep
-- their order, and keys that clash are found.
use spdy_test.Prelude.{ℕ, ◌≡◌, refl, List, some, true, false, ◌⊎◌, inl, inr, arith, Bool-cases}
use spdy_test.Ret.{Ret}
use spdy_test.CString.{strtol, int_of, same_nocase}
use spdy_test.LinkedList.{merge_pass, sort_rounds, list_sort}
use spdy_test.ConfigNode.{Nodes, nil, node, Config, is_empty}
use spdy_test.ConfigReader.{
  all_num, sort_level, sort_below, sort_lists, clashes_with, has_clash, check_config_node_sanity,
  finish,
}

-- Some key of a list is no number: strtol reads it as 0. No key up to there is empty.
abbrev pub HasWord : Nodes → Type 0
HasWord nil = ⊥
HasWord (node key val child next) =
    (is_empty key ≡ false) × ((int_of (strtol key) ≡ 0) ⊎ HasWord next)

abbrev pub IsUnordered : Nodes → Type 0
IsUnordered nil = Unit {0}
IsUnordered (node key val child next) = HasWord (node key val child next)

-- So are the children of every node, at every depth.
abbrev pub BelowUnordered : Nodes → Type 0
BelowUnordered nil = Unit {0}
BelowUnordered (node key val child next) =
    IsUnordered child × BelowUnordered child × BelowUnordered next

-- No two keys of a list are equal without regard to case.
abbrev pub IsFree : List ℕ → Nodes → Type 0
IsFree k nil = Unit {0}
IsFree k (node key val child next) = (same_nocase k key ≡ false) × IsFree k next

abbrev pub HasNoClash : Nodes → Type 0
HasNoClash nil = Unit {0}
HasNoClash (node key val child next) = IsFree key next × HasNoClash next

all_num_word : (nodes : Nodes) → HasWord nodes → all_num nodes ≡ some false
unfolding all_num
all_num_word nil h = absurd h
all_num_word (node key val child next) (some_key, inl word) = ground arith
all_num_word (node key val child next) (some_key, inr later) =
    ground (arith, all_num_word next later)

sort_level_lem : (nodes : Nodes) → IsUnordered nodes → sort_level nodes ≡ some nodes
unfolding sort_level list_sort sort_rounds merge_pass
sort_level_lem nil h = refl
sort_level_lem (node key val child next) h = rw (all_num_word (node key val child next) h) refl

pub sort_below_lem : (nodes : Nodes) → BelowUnordered nodes → sort_below nodes ≡ some nodes
unfolding sort_below
sort_below_lem nil h = refl
sort_below_lem (node key val child next) (level, below, behind) =
    rw (sort_below_lem child below, sort_below_lem next behind, sort_level_lem child level) refl

IsFree-clashes_with :
    (k : List ℕ) (nodes : Nodes)
    → ((clashes_with k nodes ≡ false) × IsFree k nodes)
      ⊎ ((clashes_with k nodes ≡ true) × (IsFree k nodes → ⊥))
unfolding clashes_with
IsFree-clashes_with k nil = inl (refl, tt)
IsFree-clashes_with k (node key val child next) = elim (Bool-cases (same_nocase k key)) [
  | inl same ↦ inr (ground arith, λ h. cc)
  | inr other ↦ elim (IsFree-clashes_with k next) [
    | inl (none_in, free) ↦ inl (ground arith, (other, free))
    | inr (found, clash) ↦ inr (ground arith, λ h. clash h.1)
  ]
]

HasNoClash-has_clash :
    (nodes : Nodes)
    → ((has_clash nodes ≡ false) × HasNoClash nodes)
      ⊎ ((has_clash nodes ≡ true) × (HasNoClash nodes → ⊥))
unfolding has_clash
HasNoClash-has_clash nil = inl (refl, tt)
HasNoClash-has_clash (node key val child next) = elim (IsFree-clashes_with key next) [
  | inr (found, clash) ↦ inr (ground arith, λ h. clash h.0)
  | inl (none_in, free) ↦ elim (HasNoClash-has_clash next) [
    | inl (no_more, rest) ↦ inl (ground arith, (free, rest))
    | inr (found, clash) ↦ inr (ground arith, λ h. clash h.1)
  ]
]

-- The answer of a parse whose entries were all accepted.
abbrev pub IsChecked : Config → Ret → Type 0
IsChecked conf answer =
    ((answer ≡ Ret.ok) × HasNoClash conf.child)
    ⊎ ((answer ≡ Ret.error) × (HasNoClash conf.child → ⊥))

pub finish_lem :
    (conf : Config)
    → IsUnordered conf.child
    → BelowUnordered conf.child
    → (answer : Ret) × (finish conf ≡ some (answer, conf)) × IsChecked conf answer
unfolding finish sort_lists check_config_node_sanity
finish_lem conf level below =
    let sorts = sort_below_lem conf.child below in
    let top = sort_level_lem conf.child level in
    elim (HasNoClash-has_clash conf.child) [
      | inl (no_clash, free) ↦ (Ret.ok, ground (arith, sorts, top, no_clash), inl (refl, free))
      | inr (clash, found) ↦ (Ret.error, ground (arith, sorts, top, clash), inr (refl, found))
    ]
