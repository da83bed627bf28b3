-- ===== src/ConfigReader/Sorted.antt =====
-- Entries whose keys are numbers, in the order that sort_lists of src/config_reader.c gives them.
use spdy_test.Prelude.{
  ℕ, ◌^◌, ◌<◌, ◌≤◌, ◌≡◌, ◌≢◌, refl, sym, ap, subst, ◌∙◌, List, [], ◌∷◌, some, true, false, ◌==◌,
  ltb, if◌then◌else◌, arith,
}
use Prim.Native.Nat.{Ordering}
use mathlib.Core.List.{Perm}
use spdy_test.Ret.{Ret}
use spdy_test.CString.{strtol, int_of}
use spdy_test.LinkedList.{list_sort}
use spdy_test.LinkedList.Agreeing.{AllOf, list_sort-same}
use spdy_test.LinkedList.Merge.{IsOrder, IsBelow, IsSorted}
use spdy_test.LinkedList.Sorted.{list_sort_lem}
use spdy_test.ConfigNode.{Nodes, nil, node, Config, is_empty}
use spdy_test.ConfigReader.{all_num, sort_level, sort_below, sort_lists, cmp_num, to_list, of_list}
use spdy_test.ConfigReader.Checked.{BelowUnordered, sort_below_lem}

-- The number that a key stands for.
abbrev pub number_of : Config → ℕ
number_of c = int_of (strtol c.key)

-- Every key of a list is a number from 1 to 2 ^ 31 - 1.
abbrev pub HasNumbers : Nodes → Type 0
HasNumbers nil = Unit {0}
HasNumbers (node key val child next) =
    (is_empty key ≡ false)
    × (int_of (strtol key) ≢ 0)
    × (int_of (strtol key) < 2 ^ 31)
    × HasNumbers next

-- The entries of a list in turn.
pub entries_of : Nodes → List Config
entries_of nil = []
entries_of (node key val child next) =
    record { key = key; val = val; child = child } ∷ entries_of next

-- No number is larger than one in front of it.
abbrev pub AreUnder : ℕ → List Config → Type 0
AreUnder n [] = Unit {0}
AreUnder n (c ∷ l) = (number_of c ≤ n) × AreUnder n l

abbrev pub IsDescending : List Config → Type 0
IsDescending [] = Unit {0}
IsDescending (c ∷ l) = AreUnder (number_of c) l × IsDescending l

abbrev IsSmall : Config → Type 0
IsSmall c = number_of c < 2 ^ 31

-- The comparison of the numbers, with no wrap-around.
by_number : Config → Config → Ordering
by_number a b =
    if number_of a == number_of b
    then Ordering.eq
    else if ltb (number_of a) (number_of b)
    then Ordering.gt
    else Ordering.lt

cmp_num-by_number : (a b : Config) → IsSmall a → IsSmall b → cmp_num a b ≡ by_number a b
unfolding cmp_num by_number
cmp_num-by_number a b ha hb = ground arith

by_number_le : (a b : Config) → by_number a b ≢ Ordering.gt → number_of b ≤ number_of a
unfolding by_number
by_number_le a b h = ground arith

by_number-IsOrder : IsOrder by_number
unfolding by_number
by_number-IsOrder = record { total = λ a b h. ground arith; trans = λ a b c h k. ground arith }

IsBelow-AreUnder : (a : Config) (l : List Config) → IsBelow by_number a l → AreUnder (number_of a) l
IsBelow-AreUnder a [] h = tt
IsBelow-AreUnder a (c ∷ l) (le, h) = (by_number_le a c le, IsBelow-AreUnder a l h)

IsSorted-IsDescending : (l : List Config) → IsSorted by_number l → IsDescending l
IsSorted-IsDescending [] h = tt
IsSorted-IsDescending (c ∷ l) (below, h) = (IsBelow-AreUnder c l below, IsSorted-IsDescending l h)

all_num_numbers : (nodes : Nodes) → HasNumbers nodes → all_num nodes ≡ some true
unfolding all_num
all_num_numbers nil h = refl
all_num_numbers (node key val child next) (some_key, number, small, h) =
    ground (arith, all_num_numbers next h)

all-IsSmall : (nodes : Nodes) → HasNumbers nodes → AllOf IsSmall (to_list nodes)
unfolding to_list
all-IsSmall nil h = tt
all-IsSmall (node key val child next) (some_key, number, small, h) = (small, all-IsSmall next h)

to_list-entries_of : (nodes : Nodes) → to_list nodes ≡ entries_of nodes
unfolding to_list entries_of
to_list-entries_of nil = refl
to_list-entries_of (node key val child next) =
    let entry : Config = record { key = key; val = val; child = child } in
    ap (λ l. entry ∷ l) (to_list-entries_of next)

entries_of-of_list : (l : List Config) → entries_of (of_list l) ≡ l
unfolding entries_of of_list
entries_of-of_list [] = refl
entries_of-of_list (c ∷ l) = ap (λ r. c ∷ r) (entries_of-of_list l)

sort_level_run :
    (nodes : Nodes) {sorted : List Config}
    → all_num nodes ≡ some true
    → list_sort cmp_num (to_list nodes) ≡ some sorted
    → sort_level nodes ≡ some (of_list sorted)
unfolding sort_level
sort_level_run nodes numbers sorts = rw numbers (rw sorts refl)

sort_lists_run :
    (conf : Config) {child : Nodes}
    → sort_below conf.child ≡ some conf.child
    → sort_level conf.child ≡ some child
    → sort_lists conf ≡ some (Ret.ok, record conf { child = child })
unfolding sort_lists
sort_lists_run conf below level = rw below (rw level refl)

-- Where the keys of all children of a node read as numbers from 1 to 2 ^ 31 - 1, and every list below
-- them has a key that is no number, so that nothing is sorted there: sort_lists ends, answers ret_ok,
-- and leaves the node with the same children, each as often, in the order of their numbers with the
-- largest first.
pub sort_lists-IsDescending :
    (conf : Config)
    → HasNumbers conf.child
    → BelowUnordered conf.child
    → (conf' : Config) × (sort_lists conf ≡ some (Ret.ok, conf'))
      × (conf'.key ≡ conf.key)
      × (conf'.val ≡ conf.val)
      × IsDescending (entries_of conf'.child)
      × Perm (entries_of conf'.child) (entries_of conf.child)
sort_lists-IsDescending conf numbers below =
    let entries = to_list conf.child in
    let (sorted, sorts, ordered, perm) = list_sort_lem by_number by_number-IsOrder entries in
    let same =
      list_sort-same IsSmall cmp_num by_number cmp_num-by_number entries
        (all-IsSmall conf.child numbers) in
    let level = sort_level_run conf.child (all_num_numbers conf.child numbers) (same ∙ sorts) in
    let back = entries_of-of_list sorted in
    (
      record conf { child = of_list sorted },
      sort_lists_run conf (sort_below_lem conf.child below) level,
      refl,
      refl,
      subst IsDescending (sym back) (IsSorted-IsDescending sorted ordered),
      subst (λ l. Perm l (entries_of conf.child)) (sym back)
          (subst (Perm sorted) (to_list-entries_of conf.child) perm),
    )
