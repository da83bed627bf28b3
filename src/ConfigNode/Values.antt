-- ===== src/ConfigNode/Values.antt =====
-- http2d_config_node_read_path, _read_list and _convert_list of src/config_node.c. They write to the
-- value of the entry: a path gets its slash, and a list is cut at its commas for a while. Where no
-- key is given, the node itself is read.
use spdy_test.Prelude.{
  ℕ, List, [], ◌∷◌, ◌++◌, Option, none, some, Bool, false, ◌==◌, if◌then◌else◌, ◌>>=◌, ◌≡◌, refl,
  arith, append-nil, append_assoc, ◌∙◌, sym, ap,
}
use spdy_test.Ret.{Ret}
use spdy_test.CString.{split, skip_spaces}
use spdy_test.LinkedList.{list_add_tail}
use spdy_test.ConfigNode.{Config, is_empty, key_steps, add_steps, config_node_get}

-- The value of an entry that is there, written in place.
unfoldable pub write_val : Config → Option (List ℕ) → List ℕ → Option Config
unfolding add_steps key_steps
write_val conf none val = some (record conf { val = val })
write_val conf (some key) val = do
  child ← add_steps false (key_steps key) val conf.child
  some (record conf { child = child })

-- The entry that a function is about.
unfoldable pub entry_at : Config → Option (List ℕ) → Option (Ret × Config)
unfolding config_node_get
entry_at conf none = some (Ret.ok, conf)
entry_at conf (some key) = config_node_get conf key

abbrev pub ends_with : ℕ → List ℕ → Bool
ends_with c [] = false
ends_with c (x ∷ []) = x == c
ends_with c (x ∷ y ∷ s) = ends_with c (y ∷ s)

-- The path, and the tree with the slash in it.
unfoldable pub config_node_read_path :
    Config → Option (List ℕ) → List ℕ → Option (Ret × List ℕ × Config)
unfolding entry_at write_val
config_node_read_path conf key buf = do
  found ← entry_at conf key
  let val = found.1.val
  let path = if ends_with b'/' val then val else val ++ (b'/' ∷ [])
  let slashed = write_val conf key path >>= (λ conf'. some (Ret.ok, path, conf'))
  let read = if is_empty val then some (Ret.not_found, buf, conf) else slashed
  elim found.0 [ Ret.ok ↦ read | failed ↦ some (failed, buf, conf) ]

module _ {S : Type 0} (func : List ℕ → S → Ret × S) where
  -- The `for` loop over the pieces between the commas, behind the text `front`: with what the value
  -- is cut down to, where it stays cut.
  unfoldable pub list_loop : List ℕ → List (List ℕ) → S → Ret × S × Option (List ℕ)
  unfolding skip_spaces
  list_loop front [] param = (Ret.ok, param, none)
  list_loop front (item ∷ []) param =
      let (ret, param') = func (skip_spaces item) param in (ret, param', none)
  list_loop front (item ∷ next ∷ items) param =
      let (ret, param') = func (skip_spaces item) param in
      let rest = list_loop (front ++ (item ++ (b',' ∷ []))) (next ∷ items) param' in
      elim ret [ Ret.ok ↦ rest | failed ↦ (failed, param', some (front ++ item)) ]

  unfoldable pub config_node_read_list : Config → Option (List ℕ) → S → Option (Ret × S × Config)
  unfolding entry_at list_loop split write_val
  config_node_read_list conf key param = do
    found ← entry_at conf key
    let val = found.1.val
    let (ret, param', cut) = list_loop [] (split (λ c. c == b',') val) param
    let left = elim cut as (λ x. Option Config) [
      | none ↦ some conf
      | some text ↦ write_val conf key text
    ]
    let looped = left >>= (λ conf'. some (ret, param', conf'))
    let read = if is_empty val then some (Ret.not_found, param, conf) else looped
    elim found.0 [ Ret.ok ↦ read | failed ↦ some (failed, param, conf) ]

unfoldable pub convert_to_list_step : List ℕ → List (List ℕ) → Ret × List (List ℕ)
unfolding list_add_tail
convert_to_list_step entry list = (Ret.ok, list_add_tail entry list)

unfoldable pub config_node_convert_list :
    Config → Option (List ℕ) → List (List ℕ) → Option (Ret × List (List ℕ) × Config)
unfolding config_node_read_list convert_to_list_step
config_node_convert_list conf key list = config_node_read_list convert_to_list_step conf key list

-- The pieces, with their leading spaces skipped.
abbrev pub trimmed_items : List (List ℕ) → List (List ℕ)
trimmed_items [] = []
trimmed_items (item ∷ items) = skip_spaces item ∷ trimmed_items items

-- The conversion takes over every piece, and leaves the value whole.
convert_loop :
    (front : List ℕ) (items : List (List ℕ)) (list : List (List ℕ))
    → list_loop convert_to_list_step front items list ≡ (Ret.ok, list ++ trimmed_items items, none)
unfolding list_loop convert_to_list_step
convert_loop front [] list = ap (λ l. (Ret.ok, l, none)) (sym (append-nil list))
convert_loop front (item ∷ []) list = refl
convert_loop front (item ∷ next ∷ items) list =
    convert_loop (front ++ (item ++ (b',' ∷ []))) (next ∷ items)
      (list_add_tail (skip_spaces item) list)
    ∙ ap (λ l. (Ret.ok, l, none))
        (append_assoc list (skip_spaces item ∷ []) (trimmed_items (next ∷ items)))

-- http2d_config_node_convert_list of a node's own value that is not empty.
convert_list_lem :
    (conf : Config) (list : List (List ℕ))
    → is_empty conf.val ≡ false
    → config_node_convert_list conf none list
      ≡ some (Ret.ok, list ++ trimmed_items (split (λ c. c == b',') conf.val), conf)
unfolding config_node_convert_list config_node_read_list
convert_list_lem conf list some_val =
    ground (arith, convert_loop [] (split (λ c. c == b',') conf.val) list)
