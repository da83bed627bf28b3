-- ===== src/ConfigNode.antt =====
-- The tree of configuration entries of src/config_node.c. The text of a buffer is a list of bytes,
-- and a buffer that was never written to has no block: `strcmp` of such a one is a read through
-- NULL, which is `none`. The parser of included files is a parameter.
pub mod Added
pub mod Lookup
pub mod Reads
pub mod Values
use spdy_test.Prelude.{
  ℕ, zero, suc, List, [], ◌∷◌, ◌++◌, Option, none, some, Bool, true, false, not, ◌&&◌, ◌||◌, ◌==◌,
  if◌then◌else◌, ◌>>=◌,
}
use spdy_test.Ret.{Ret}
use spdy_test.CString.{Place, find, strchr, same, split, strtol, Long}
use spdy_test.Util.Atoi.{atoi}

-- A list of nodes: the first with its key, its value and its children, and those behind it.
pub data Nodes : Type 0 where
  nil : Nodes
  node : (key val : List ℕ) (child next : Nodes) → Nodes

-- `http2d_config_node_t`
pub record Config : Type 0 where
  pub key : List ℕ
  pub val : List ℕ
  pub child : Nodes

abbrev pub config_node_init : Config
config_node_init = record { key = []; val = []; child = nil }

abbrev pub is_empty : List ℕ → Bool
is_empty [] = true
is_empty (c ∷ s) = false

-- "Extract current child": the steps of the loop through a key, in order.
unfoldable pub key_steps : List ℕ → List (List ℕ)
unfolding split
key_steps key = split (λ c. c == b'!') key

-- Whether `tmp` has a block, once the step `k` was added to it.
abbrev pub has_block : Bool → List ℕ → Bool
has_block seen k = seen || not (is_empty k)

-- The `strcmp` of search_child.
abbrev pub key_equal : Bool → List ℕ → List ℕ → Option Bool
key_equal seen key k = if is_empty key || not (has_block seen k) then none else some (same key k)

unfoldable pub search_child : Bool → List ℕ → Nodes → Option (Option Config)
unfolding same
search_child seen k nil = some none
search_child seen k (node key val child next) =
    let behind = search_child seen k next in
    key_equal seen key k >>= (λ found. elim found [
      | true ↦ some (some (record { key = key; val = val; child = child }))
      | false ↦ behind
    ])

-- The value that a node has behind the step: the last step sets it.
abbrev pub set_val : List (List ℕ) → List ℕ → List ℕ → List ℕ
set_val [] val old = val
set_val (k ∷ ks) val old = old

-- The loop of http2d_config_node_add_buf: search_child, and add_new_child behind the last entry.
unfoldable pub add_steps : Bool → List (List ℕ) → List ℕ → Nodes → Option Nodes
unfolding same
add_steps seen [] val nodes = some nodes
add_steps seen (k ∷ ks) val nil = do
  child ← add_steps (has_block seen k) ks val nil
  some (node k (set_val ks val []) child nil)
add_steps seen (k ∷ ks) val (node key old child next) =
    let inner = add_steps (has_block seen k) ks val child in
    let behind = add_steps seen (k ∷ ks) val next in
    key_equal seen key k >>= (λ found. elim found [
      | true ↦ inner >>= (λ child'. some (node key (set_val ks val old) child' next))
      | false ↦ behind >>= (λ next'. some (node key old child next'))
    ])

-- "include" and "try_include".
abbrev pub include_text : List ℕ
include_text = b'i' ∷ b'n' ∷ b'c' ∷ b'l' ∷ b'u' ∷ b'd' ∷ b'e' ∷ []

abbrev pub try_include_text : List ℕ
try_include_text = b't' ∷ b'r' ∷ b'y' ∷ b'_' ∷ include_text

unfoldable pub add_key : Config → List ℕ → List ℕ → Option (Ret × Config)
unfolding add_steps key_steps
add_key conf key val = do
  child ← add_steps false (key_steps key) val conf.child
  some (Ret.ok, record conf { child = child })

unfoldable pub config_node_add_buf :
    (Config → List ℕ → Option (Ret × Config)) → Config → List ℕ → List ℕ → Option (Ret × Config)
unfolding same
config_node_add_buf parse conf key val =
    if same key include_text
    then parse conf val
    else if same key try_include_text
    then parse conf val >>= (λ parsed. add_key parsed.1 key val)
    else add_key conf key val

-- The loop of http2d_config_node_get.
unfoldable pub get_steps : Bool → List (List ℕ) → Config → Option (Ret × Config)
unfolding search_child
get_steps seen [] current = some (Ret.ok, current)
get_steps seen (k ∷ ks) current = search_child seen k current.child >>= (λ found. elim found [
  | none ↦ some (Ret.not_found, current)
  | some child ↦ get_steps (has_block seen k) ks child
])

unfoldable pub config_node_get : Config → List ℕ → Option (Ret × Config)
unfolding get_steps key_steps
config_node_get conf key = get_steps false (key_steps key) conf

-- "foreach", until `func` answers other than ret_ok.
unfoldable pub config_node_while : {S : Type 0} → (Config → S → Ret × S) → S → Nodes → Ret × S
config_node_while func param nil = (Ret.ok, param)
config_node_while func param (node key val child next) =
    let (ret, param') = func (record { key = key; val = val; child = child }) param in
    let rest = config_node_while func param' next in
    elim ret [ Ret.ok ↦ rest | failed ↦ (failed, param') ]

-- The values of an entry: `answer` of it, where there is one.
abbrev pub on_entry : {A : Type 0} → Config → List ℕ → A → (Config → Ret × A) → Option (Ret × A)
on_entry conf key default answer =
    config_node_get conf key
    >>= (λ found. elim found.0 [ Ret.ok ↦ some (answer found.1) | failed ↦ some (failed, default) ])

unfoldable pub config_node_read : Config → List ℕ → List ℕ → Option (Ret × List ℕ)
unfolding config_node_get
config_node_read conf key buf = on_entry conf key buf (λ entry. (Ret.ok, entry.val))

unfoldable pub config_node_copy : Config → List ℕ → List ℕ → Option (Ret × List ℕ)
unfolding config_node_get
config_node_copy conf key buf = on_entry conf key buf (λ entry. (Ret.ok, buf ++ entry.val))

unfoldable pub config_node_read_int : Config → List ℕ → ℕ → Option (Ret × ℕ)
unfolding config_node_get atoi
config_node_read_int conf key num = on_entry conf key num λ entry.
    if is_empty entry.val
    then (Ret.not_found, num)
    else let (ret, value) = atoi entry.val num in
      elim ret [ Ret.ok ↦ (Ret.ok, value) | failed ↦ (Ret.error, value) ]

-- `atol`
unfoldable pub config_node_read_long : Config → List ℕ → Long → Option (Ret × Long)
unfolding config_node_get strtol
config_node_read_long conf key num =
    on_entry conf key num
      λ entry. if is_empty entry.val then (Ret.not_found, num) else (Ret.ok, strtol entry.val)

unfoldable pub config_node_read_bool : Config → List ℕ → Bool → Option (Ret × Bool)
unfolding config_node_read_int
config_node_read_bool conf key val = config_node_read_int conf key 0 >>= (λ read. elim read.0 [
  | Ret.ok ↦ some (Ret.ok, not (read.1 == 0))
  | failed ↦ some (failed, val)
])
