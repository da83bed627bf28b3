-- ===== src/Util/HeaderEnd.antt =====
-- http2d_find_header_end_cstr and http2d_find_header_end of src/util.c: where a request header ends.
pub mod Lines
use spdy_test.Prelude.{
  ℕ, zero, suc, ◌+◌, ◌-◌, ◌*◌, List, [], ◌∷◌, Option, none, some, Bool, true, false, ◌&&◌, ◌||◌,
  ◌==◌, if◌then◌else◌, ◌>>=◌,
}
use Prim.Native.Nat.{min}
use spdy_test.Buffer.{Buffer}
use spdy_test.Buffer.Mem.{slice}

-- `MAX_HEADER_LEN`, `CHR_CR` and `CHR_LF`
abbrev pub max_header_len : ℕ
max_header_len = 16 * 1024

abbrev pub chr_cr : ℕ
chr_cr = 13

abbrev pub chr_lf : ℕ
chr_lf = 10

-- ret_ok with `*end` as an offset and `*sep_len`, ret_error, and ret_not_found.
pub data HeaderEnd : Type 0 where
  found : ℕ → ℕ → HeaderEnd
  broken : HeaderEnd
  missing : HeaderEnd

-- Where `p` stands: in the outer loop, or in the inner one with `begin`, `cr_n` and `lf_n`.
pub data Place : Type 0 where
  outside : Place
  inside : ℕ → ℕ → ℕ → Place

-- The inner loop starts at the first CR or LF with both counts at 0.
abbrev pub run_begin : Place → ℕ → ℕ
run_begin outside p = p
run_begin (inside begin cr_n lf_n) p = begin

abbrev pub run_cr : Place → ℕ
run_cr outside = 0
run_cr (inside begin cr_n lf_n) = cr_n

abbrev pub run_lf : Place → ℕ
run_lf outside = 0
run_lf (inside begin cr_n lf_n) = lf_n

-- "the two forbidden situations"
abbrev pub is_forbidden : ℕ → ℕ → Bool
is_forbidden cr_n lf_n = (cr_n == 1 && lf_n == 2) || (cr_n == 2 && lf_n == 0)

-- Both loops over the bytes from `p` on, of which there are `fin - p`. The byte at which the inner
-- loop breaks is passed over by the `p++` of the outer one.
unfoldable pub scan : List ℕ → ℕ → Place → HeaderEnd
scan [] p place = missing
scan (c ∷ cs) p place =
    let begin = run_begin place p in
    let cr_n = run_cr place in
    let lf_n = run_lf place in
    let after_lf = scan cs (p + 1) (inside begin cr_n (lf_n + 1)) in
    let after_cr = scan cs (p + 1) (inside begin (cr_n + 1) lf_n) in
    let after = scan cs (p + 1) outside in
    if c == chr_lf
    then (if lf_n + 1 == 2
        then found begin (p - begin + 1)
        else if is_forbidden cr_n (lf_n + 1)
        then broken
        else after_lf)
    else if c == chr_cr
    then (if is_forbidden (cr_n + 1) lf_n then broken else after_cr)
    else after

unfoldable pub find_header_end_cstr : Option (List ℕ) → ℕ → Option HeaderEnd
find_header_end_cstr c_str c_len = elim c_str [
  | none ↦ some missing
  | some m ↦
      if c_len == 0
      then some missing
      else do text ← slice m 0 (min c_len max_header_len); some (scan text 0 outside)
]

unfoldable pub find_header_end : Buffer → Option HeaderEnd
find_header_end b = find_header_end_cstr b.buf b.len
