-- ===== src/Tests/Texts.antt =====
-- The theorems about the texts of src/http.c and src/util.c, and vectors, at concrete values.
use spdy_test.Prelude.{ℕ, ◌^◌, List, [], ◌∷◌, ◌≡◌, refl, true, arith, some, none}
use spdy_test.Ret.{Ret}
use spdy_test.CString.{same_nocase, has, libc_atoi}
use spdy_test.Util.Host.{parse_host, string_is_ipv6}
use spdy_test.Util.Host.Parsed.{parse_host_lem}
use spdy_test.Util.Iovec.{iovec_skip_sent, iovec_was_sent}
use spdy_test.Util.Iovec.Skipped.{gathered, iovec_skip_sent_lem}
use spdy_test.ConfigNode.{nil}
use spdy_test.ConfigNode.Values.{config_node_convert_list, config_node_read_path}
use spdy_test.Header.{codes}
use spdy_test.Http.Method.{method_to_string, string_to_method}
use spdy_test.Http.Method.RoundTrip.{method_round_trip}

mixed_read : string_to_method (codes "PropFind") ≡ (Ret.ok, 2 ^ 14)
unfolding string_to_method
mixed_read = refl

method_round_trip_example :
    (text : List ℕ) × (method_to_string (2 ^ 14) ≡ (Ret.ok, text))
    × (same_nocase (codes "PropFind") text ≡ true)
    × (string_to_method text ≡ (Ret.ok, 2 ^ 14))
method_round_trip_example =
    method_round_trip (codes "PropFind") (2 ^ 14) mixed_read (λ e. absurd (omega arith))

-- "a:80" and "[::1]:80".
parse_host_lem_example :
    (parse_host (codes "a:80") [] 443 ≡ (Ret.ok, codes "a", libc_atoi (codes "80")))
    × (parse_host (codes "[::1]:80") [] 443 ≡ (Ret.ok, codes "::1", libc_atoi (codes "80")))
unfolding has
parse_host_lem_example =
    parse_host_lem (codes "a") (codes "::1") (codes "80") [] 443 refl refl refl refl

port_read : libc_atoi (codes "80") ≡ 80
unfolding libc_atoi
port_read = refl

two_colons : string_is_ipv6 (codes "a:b:c") ≡ true
unfolding string_is_ipv6
two_colons = refl

-- Three bytes were sent, two of them from the second vector.
iovec_skip_sent_lem_example :
    (iovec_was_sent ((1 ∷ []) ∷ (2 ∷ 3 ∷ 4 ∷ []) ∷ (5 ∷ 6 ∷ 7 ∷ []) ∷ []) 3 ≡ Ret.eagain)
    × (gathered (iovec_skip_sent ((1 ∷ []) ∷ (2 ∷ 3 ∷ 4 ∷ []) ∷ (5 ∷ 6 ∷ 7 ∷ []) ∷ []) 3)
        ≡ 4 ∷ 5 ∷ 6 ∷ 7 ∷ [])
    × (gathered (iovec_skip_sent ((1 ∷ []) ∷ (2 ∷ 3 ∷ 4 ∷ []) ∷ (8 ∷ 9 ∷ []) ∷ []) 3) ≡ 4 ∷ [])
unfolding gathered
iovec_skip_sent_lem_example =
    iovec_skip_sent_lem ((1 ∷ []) ∷ []) (2 ∷ 3 ∷ 4 ∷ []) 2 (omega arith) ((5 ∷ 6 ∷ 7 ∷ []) ∷ [])
      (8 ∷ 9 ∷ []) (omega arith) (omega arith)

list_converted :
    config_node_convert_list (record { key = []; val = codes "a, b,c"; child = nil }) none []
    ≡ some (
      Ret.ok,
      codes "a" ∷ codes "b" ∷ codes "c" ∷ [],
      record { key = []; val = codes "a, b,c"; child = nil },
    )
unfolding config_node_convert_list
list_converted = refl

path_slashed :
    config_node_read_path (record { key = []; val = codes "/x"; child = nil }) none []
    ≡ some (Ret.ok, codes "/x/", record { key = []; val = codes "/x/"; child = nil })
unfolding config_node_read_path
path_slashed = refl
