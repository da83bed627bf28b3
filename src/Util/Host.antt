-- ===== src/Util/Host.antt =====
-- http2d_parse_host, http2d_string_is_ipv6, http2d_split_arguments and strsep of src/util.c, on the
-- string in a buffer.
pub mod Parsed
use spdy_test.Prelude.{
  ℕ, ◌+◌, ◌-◌, List, [], ◌∷◌, ◌++◌, Option, none, some, Bool, true, false, ◌==◌, if◌then◌else◌,
  length, drop,
}
use spdy_test.Ret.{Ret}
use spdy_test.CString.{find, strchr, has, libc_atoi}

-- `strrchr`: what is in front of the last place of a byte, and what is behind it.
unfoldable pub strrchr : List ℕ → ℕ → Option (List ℕ × List ℕ)
strrchr [] c = none
strrchr (x ∷ s) c =
    let later = strrchr s c in
    elim later [
      | none ↦ if x == c then some ([], s) else none
      | some (before, behind) ↦ some (x ∷ before, behind)
    ]

abbrev pub starts_with : ℕ → List ℕ → Bool
starts_with c [] = false
starts_with c (x ∷ s) = x == c

-- "[IPv6]:port", behind the test for the bracket: the bracket and the colon must be next to each
-- other.
unfoldable pub parse_bracketed : List ℕ → List ℕ → ℕ → Ret × List ℕ × ℕ
unfolding strrchr libc_atoi
parse_bracketed buf host port = elim (strrchr buf b']') [
  | none ↦ (Ret.error, host, port)
  | some (before, behind) ↦
      if starts_with b':' behind
      then (Ret.ok, host ++ drop 1 before, libc_atoi (drop 1 behind))
      else (Ret.error, host, port)
]

-- With the buffer `host` and `*port`, an unsigned 32-bit number.
unfoldable pub parse_host : List ℕ → List ℕ → ℕ → Ret × List ℕ × ℕ
unfolding strchr has parse_bracketed libc_atoi
parse_host buf host port = elim (strchr buf b':') [
  | none ↦ (Ret.ok, host ++ buf, port)
  | some (before, colon, behind) ↦
      if has behind b':'
      then (if starts_with b'[' buf
          then parse_bracketed buf host port
          else (Ret.ok, host ++ buf, port))
      else (Ret.ok, host ++ before, libc_atoi behind)
]

-- The loop with `colons`: 1 from the second on.
unfoldable pub is_ipv6_loop : ℕ → List ℕ → Bool
is_ipv6_loop colons [] = false
is_ipv6_loop colons (c ∷ ip) =
    let more = is_ipv6_loop (colons + 1) ip in
    let same = is_ipv6_loop colons ip in
    if c == b':' then (if colons + 1 == 2 then true else more) else same

unfoldable pub string_is_ipv6 : List ℕ → Bool
unfolding is_ipv6_loop
string_is_ipv6 ip = is_ipv6_loop 0 ip

-- The arguments, and their length up to the end of the request.
unfoldable pub split_arguments : List ℕ → ℕ → Ret × Option (List ℕ) × ℕ
unfolding strchr
split_arguments request init_pos = elim (strchr (drop init_pos request) b'?') [
  | none ↦ (Ret.ok, none, 0)
  | some (before, mark, arguments) ↦ (Ret.ok, some arguments, length arguments)
]

-- The token, and `*str`: NULL behind the last one.
unfoldable pub strsep : Option (List ℕ) → List ℕ → Option (List ℕ) × Option (List ℕ)
unfolding find has
strsep none delims = (none, none)
strsep (some str) delims = elim (find (λ c. has delims c) str) [
  | none ↦ (some str, none)
  | some (token, delim, rest) ↦ (some token, some rest)
]
