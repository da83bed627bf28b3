-- ===== src/ConfigNode/Reads.antt =====
-- http2d_config_node_read behind http2d_config_node_add_buf, of src/config_node.c.
use spdy_test.Prelude.{
  ℕ, ◌≡◌, refl, List, [], ◌∷◌, Option, some, Bool, false, arith, ◌==◌, ap, ◌∙◌, subst, Bool-cases,
  inl, inr,
}
use spdy_test.Ret.{Ret}
use spdy_test.CString.{same, split}
use spdy_test.ConfigNode.{
  Nodes, Config, config_node_read, config_node_add_buf, add_key, key_steps, include_text,
  try_include_text, get_steps,
}
use spdy_test.ConfigNode.Lookup.{answer, read_steps_lem, read_of}
use spdy_test.ConfigNode.Added.{
  HasKeys, IsNamed, lookup, compare_paths, value_after, added, add_steps_lem, added-IsNamed,
  lookup-added,
}

-- A key has a first step.
pub split_cons :
    (test : ℕ → Bool) (s : List ℕ) → (k : List ℕ) × (ks : List (List ℕ)) × (split test s ≡ k ∷ ks)
unfolding split
split_cons test [] = ([], [], refl)
split_cons test (c ∷ s) = elim (Bool-cases (test c)) [
  | inl sep ↦ ([], split test s, ground arith)
  | inr plain ↦ let (k, ks, steps) = split_cons test s in (c ∷ k, ks, ground arith)
]

key_steps_cons : (key : List ℕ) → (k : List ℕ) × (ks : List (List ℕ)) × (key_steps key ≡ k ∷ ks)
unfolding key_steps
key_steps_cons key = split_cons (λ c. c == b'!') key

read_path :
    (path : List (List ℕ)) (k : List ℕ) (ks : List (List ℕ)) (conf : Config) (buf : List ℕ)
    → path ≡ k ∷ ks
    → HasKeys path
    → IsNamed conf.child
    → read_of (get_steps false path conf) buf ≡ some (answer (lookup path conf.child) buf)
read_path path k ks conf buf steps keys named =
    rw steps (read_steps_lem false k ks conf buf (subst HasKeys steps keys) named)

config_node_read_lem :
    (conf : Config) (key buf : List ℕ)
    → HasKeys (key_steps key)
    → IsNamed conf.child
    → config_node_read conf key buf ≡ some (answer (lookup (key_steps key) conf.child) buf)
unfolding config_node_read
config_node_read_lem conf key buf keys named =
    let (k, ks, steps) = key_steps_cons key in
    read_path (key_steps key) k ks conf buf steps keys named

lookup_path :
    (path path' : List (List ℕ)) (k : List ℕ) (ks : List (List ℕ)) (k' : List ℕ)
    (ks' : List (List ℕ)) (val : List ℕ) (nodes : Nodes)
    → path ≡ k ∷ ks
    → path' ≡ k' ∷ ks'
    → lookup path' (added path val nodes)
      ≡ value_after (compare_paths path' path) val (lookup path' nodes)
lookup_path path path' k ks k' ks' val nodes e e' = rw (e, e') (lookup-added k' ks' k ks val nodes)

module _ (parse : Config → List ℕ → Option (Ret × Config)) where
  add_buf_lem :
      (conf : Config) (key val : List ℕ)
      → same key include_text ≡ false
      → same key try_include_text ≡ false
      → HasKeys (key_steps key)
      → IsNamed conf.child
      → config_node_add_buf parse conf key val
        ≡ some (Ret.ok, record conf { child = added (key_steps key) val conf.child })
  unfolding config_node_add_buf add_key
  add_buf_lem conf key val plain plain' keys named =
      ground (arith, add_steps_lem false (key_steps key) val conf.child keys named)

  -- An entry whose key is neither "include" nor "try_include" is added with ret_ok, and a key that
  -- is read from then on gives its value if it is the same path, the empty text if it is a part
  -- of the path that was not there before, and otherwise what it gave before. No step of either
  -- key is empty, and no key in the tree is.
  pub read-add_buf :
      (conf : Config) (key val key' buf : List ℕ)
      → same key include_text ≡ false
      → same key try_include_text ≡ false
      → HasKeys (key_steps key)
      → HasKeys (key_steps key')
      → IsNamed conf.child
      → (conf' : Config) × (old : Option (List ℕ)) × (config_node_add_buf parse conf key val
          ≡ some (Ret.ok, conf'))
        × IsNamed conf'.child
        × (config_node_read conf key' buf ≡ some (answer old buf))
        × (config_node_read conf' key' buf
            ≡ some
                (answer (value_after (compare_paths (key_steps key') (key_steps key)) val old) buf))
  read-add_buf conf key val key' buf plain plain' keys keys' named =
      let path = key_steps key in
      let conf' : Config = record conf { child = added path val conf.child } in
      let named' = added-IsNamed path val conf.child keys named in
      let (k, ks, steps) = key_steps_cons key in
      let (k', ks', steps') = key_steps_cons key' in
      let value = lookup_path path (key_steps key') k ks k' ks' val conf.child steps steps' in
      (
        conf',
        lookup (key_steps key') conf.child,
        add_buf_lem conf key val plain plain' keys named,
        named',
        config_node_read_lem conf key' buf keys' named,
        config_node_read_lem conf' key' buf keys' named' ∙ ap (λ o. some (answer o buf)) value,
      )
