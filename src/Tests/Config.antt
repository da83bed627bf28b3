-- ===== src/Tests/Config.antt =====
-- The theorems about src/access.c, src/config_node.c and src/config_reader.c at concrete inputs.
use spdy_test.Prelude.{
  ℕ, ◌≡◌, ◌↔◌, ◌⊎◌, refl, inl, List, [], ◌∷◌, ◌++◌, Option, none, some, arith, take, replicate,
  if◌then◌else◌,
}
use spdy_test.Ret.{Ret}
use spdy_test.CString.{same, has, strtol, find, skip_spaces, cut_spaces}
use spdy_test.Access.{Family, Access, no_ip, ipv4, ipv6, access_init, ip_match, inet, is_v4_mapped}
use spdy_test.Access.Parse.{
  access_add, access_add_subnet, is_slash, parse_ip, parse_netmask, pton, family_of, length_mask,
}
use spdy_test.Access.Netmask.{bits}
use spdy_test.Access.Match.{IsNetwork}
use spdy_test.Access.Added.{access_add_lem}
use spdy_test.Access.Refused.{access_add_subnet_refused}
use spdy_test.ConfigNode.{
  nil, node, Config, config_node_init, add_key, config_node_add_buf, config_node_read, key_steps,
}
use spdy_test.ConfigNode.Lookup.{answer}
use spdy_test.ConfigNode.Added.{compare_paths, value_after, IsNamed}
use spdy_test.ConfigNode.Reads.{read-add_buf}
use spdy_test.ConfigReader.{parse_string, sort_lists}
use spdy_test.ConfigReader.Sorted.{IsDescending, entries_of, sort_lists-IsDescending}
use mathlib.Core.List.{Perm}
use spdy_test.ConfigReader.Checked.{IsChecked}
use spdy_test.Header.{codes}
use spdy_test.ConfigReader.Printed.{add_entries, print, parse_string-print}

-- "10.0.0.0", and a parser that knows this address only.
abbrev ten : List ℕ
ten = b'1' ∷ b'0' ∷ b'.' ∷ b'0' ∷ b'.' ∷ b'0' ∷ b'.' ∷ b'0' ∷ []

abbrev only_ten : Family → List ℕ → Option (List ℕ)
only_ten ipv4 text = if same text ten then some (10 ∷ 0 ∷ 0 ∷ 0 ∷ []) else none
only_ten ipv6 text = none

-- The mask "8".
ten-IsNetwork : IsNetwork ipv4 ten (b'8' ∷ []) (10 ∷ 0 ∷ 0 ∷ 0 ∷ []) 8
unfolding has strtol is_v4_mapped
ten-IsNetwork = record {
  looks = (refl, refl, omega arith);
  no_slash = (refl, refl);
  size = refl;
  are_bytes = omega arith;
  not_mapped = refl;
  plain = (refl, refl, omega arith);
  number = refl;
  bound = omega arith;
}

ten_parsed : only_ten ipv4 ten ≡ some (10 ∷ 0 ∷ 0 ∷ 0 ∷ [])
unfolding same
ten_parsed = refl

abbrev no_names : List ℕ → Ret × List ℕ
no_names name = (Ret.not_found, [])

abbrev no_text : ℕ → Ret × List ℕ
no_text address = (Ret.error, [])

access_add_lem_example :
    (entry' : Access) × (access_add only_ten Ret.ok no_names no_text ipv4 access_init
        (ten ++ b'/' ∷ b'8' ∷ [])
      ≡ some (Ret.ok, entry'))
    × ((ip_match entry' (inet (10 ∷ 1 ∷ 2 ∷ 3 ∷ [])) ≡ Ret.ok) ↔ (
        (take 8 (bits (10 ∷ 1 ∷ 2 ∷ 3 ∷ [])) ≡ take 8 (bits (10 ∷ 0 ∷ 0 ∷ 0 ∷ [])))
        ⊎ (ip_match access_init (inet (10 ∷ 1 ∷ 2 ∷ 3 ∷ [])) ≡ Ret.ok)))
access_add_lem_example =
    access_add_lem only_ten ipv4 ipv4 ten (b'8' ∷ []) (10 ∷ 0 ∷ 0 ∷ 0 ∷ []) 8 ten-IsNetwork
      ten_parsed Ret.ok no_names no_text access_init (10 ∷ 1 ∷ 2 ∷ 3 ∷ []) refl (omega arith)

-- "10.0.0.0/33" is refused.
abbrev long_mask : List ℕ
long_mask = ten ++ b'/' ∷ b'3' ∷ b'3' ∷ []

long_mask_found : find is_slash long_mask ≡ some (ten, b'/', b'3' ∷ b'3' ∷ [])
unfolding find
long_mask_found = refl

-- What stays in the list.
abbrev ten_linked : Access
ten_linked = record access_init {
  list_subnets =
      record { base = record { family = ipv4; ip = 10 ∷ replicate 15 0 }; mask = no_ip } ∷ [];
}

long_mask_refused :
    access_add_subnet only_ten ipv4 access_init long_mask ≡ some (Ret.error, ten_linked)
unfolding access_add_subnet parse_ip parse_netmask pton family_of length_mask has same strtol
    is_v4_mapped
long_mask_refused = refl

access_add_subnet_refused_example : ip_match ten_linked (inet (8 ∷ 8 ∷ 8 ∷ 8 ∷ [])) ≡ Ret.ok
unfolding family_of
access_add_subnet_refused_example =
    access_add_subnet_refused only_ten ipv4 access_init long_mask ten (b'3' ∷ b'3' ∷ []) b'/'
      Ret.error ten_linked long_mask_found long_mask_refused (λ e. cc) (8 ∷ 8 ∷ 8 ∷ 8 ∷ [])

-- No file is included.
abbrev no_files : Config → List ℕ → Option (Ret × Config)
no_files conf path = some (Ret.error, conf)

-- The keys "a!b" and "a".
abbrev inner_key : List ℕ
inner_key = b'a' ∷ b'!' ∷ b'b' ∷ []

read-add_buf_example :
    (conf' : Config) × (old : Option (List ℕ)) × (config_node_add_buf no_files config_node_init
        inner_key
        (b'x' ∷ [])
      ≡ some (Ret.ok, conf'))
    × IsNamed conf'.child
    × (config_node_read config_node_init (b'a' ∷ []) [] ≡ some (answer old []))
    × (config_node_read conf' (b'a' ∷ []) []
        ≡ some (
            answer
              (value_after
                (compare_paths (key_steps (b'a' ∷ [])) (key_steps inner_key))
                (b'x' ∷ [])
                old)
              []))
unfolding key_steps same
read-add_buf_example =
    read-add_buf no_files config_node_init inner_key (b'x' ∷ []) (b'a' ∷ []) [] refl refl
      (refl, (refl, tt)) (refl, tt) tt

-- "port = 8080" and "include = x", as entries.
abbrev port : List ℕ
port = codes "port"

abbrev eighty : List ℕ
eighty = codes "8080"

abbrev port_entry : List (List ℕ × List ℕ)
port_entry = (port, eighty) ∷ []

abbrev include_entry : List (List ℕ × List ℕ)
include_entry = (codes "include", codes "x") ∷ []

abbrev with_port : Config
with_port = record config_node_init { child = node port eighty nil nil }

port_added : add_entries no_files config_node_init port_entry ≡ some (Ret.ok, with_port)
unfolding add_entries config_node_add_buf add_key
port_added = refl

include_refused :
    add_entries no_files config_node_init include_entry ≡ some (Ret.error, config_node_init)
unfolding add_entries config_node_add_buf add_key
include_refused = refl

parse_string-print_example :
    ((answer : Ret) × (parse_string no_files config_node_init (print port_entry)
        ≡ some (answer, with_port))
      × IsChecked with_port answer)
    × (parse_string no_files config_node_init (print include_entry)
        ≡ some (Ret.error, config_node_init))
unfolding skip_spaces cut_spaces strtol
parse_string-print_example =
    parse_string-print no_files config_node_init with_port config_node_init port_entry include_entry
      (
        record {
          key_some = refl;
          key_plain = (refl, (refl, (refl, (refl, tt))));
          no_comment = refl;
          val_some = refl;
          one_line = (refl, (refl, (refl, (refl, tt))));
          no_nul = ((refl, (refl, (refl, (refl, tt)))), (refl, (refl, (refl, (refl, tt)))));
          no_space = (refl, refl);
        },
        tt,
      )
      (
        record {
          key_some = refl;
          key_plain = (refl, (refl, (refl, (refl, (refl, (refl, (refl, tt)))))));
          no_comment = refl;
          val_some = refl;
          one_line = (refl, tt);
          no_nul = ((refl, (refl, (refl, (refl, (refl, (refl, (refl, tt))))))), (refl, tt));
          no_space = (refl, refl);
        },
        tt,
      )
      port_added ((refl, inl refl), (tt, tt, tt)) include_refused

-- The keys "1" and "20".
abbrev numbered : Config
numbered = record config_node_init {
  child = node (codes "1") (codes "a") nil (node (codes "20") (codes "b") nil nil);
}

sort_lists-IsDescending_example :
    (conf' : Config) × (sort_lists numbered ≡ some (Ret.ok, conf'))
    × (conf'.key ≡ [])
    × (conf'.val ≡ [])
    × IsDescending (entries_of conf'.child)
    × Perm (entries_of conf'.child) (entries_of numbered.child)
unfolding strtol
sort_lists-IsDescending_example =
    sort_lists-IsDescending numbered
      (
        refl,
        (λ e. absurd (omega arith)),
        omega arith,
        (refl, (λ e. absurd (omega arith)), omega arith, tt),
      )
      (tt, tt, (tt, tt, tt))
