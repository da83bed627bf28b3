-- ===== src/Util/Host/Parsed.antt =====
-- Hosts with ports, as http2d_parse_host of src/util.c reads them.
use spdy_test.Prelude.{
  ℕ, ◌≡◌, refl, List, [], ◌∷◌, ◌++◌, none, some, true, false, ◌||◌, ◌==◌, arith, Bool-cases, inl,
  inr,
}
use spdy_test.Ret.{Ret}
use spdy_test.CString.{strchr, has, libc_atoi, in_front}
use spdy_test.Util.Host.{strrchr, parse_bracketed, parse_host}

strchr-at : (c : ℕ) (h d : List ℕ) → has h c ≡ false → strchr (h ++ (c ∷ d)) c ≡ some (h, c, d)
unfolding strchr has
strchr-at c [] d h = ground arith
strchr-at c (x ∷ h) d absent = ground (arith, strchr-at c h d)

strrchr_absent : (c : ℕ) (d : List ℕ) → has d c ≡ false → strrchr d c ≡ none
unfolding strrchr has
strrchr_absent c [] h = refl
strrchr_absent c (x ∷ d) h = ground (arith, strrchr_absent c d)

strrchr-at : (c : ℕ) (h d : List ℕ) → has d c ≡ false → strrchr (h ++ (c ∷ d)) c ≡ some (h, d)
unfolding strrchr
strrchr-at c [] d absent = ground (arith, strrchr_absent c d absent)
strrchr-at c (x ∷ h) d absent = ground (arith, strrchr-at c h d absent)

has-append : (c : ℕ) (xs ys : List ℕ) → has (xs ++ ys) c ≡ (has xs c || has ys c)
unfolding has
has-append c [] ys = refl
has-append c (x ∷ xs) ys = ground (arith, has-append c xs ys)

-- A byte that stands in both of two texts is found in the first, and again behind that place.
strchr_twice :
    (c : ℕ) (s t : List ℕ)
    → has s c ≡ true
    → has t c ≡ true
    → (place : List ℕ × ℕ × List ℕ) × (strchr (s ++ t) c ≡ some place) × (has place.2 c ≡ true)
unfolding strchr has
strchr_twice c [] t here more = cc
strchr_twice c (x ∷ s) t here more = elim (Bool-cases (x == c)) [
  | inl hit ↦ (([], x, s ++ t), ground arith, ground (arith, has-append c s t))
  | inr miss ↦
      let (place, found, again) = strchr_twice c s t (ground arith) more in
      (in_front x place, ground (arith, found), again)
]

parse_plain :
    (h d host : List ℕ) (port : ℕ)
    → has h b':' ≡ false
    → has d b':' ≡ false
    → parse_host (h ++ (b':' ∷ d)) host port ≡ (Ret.ok, host ++ h, libc_atoi d)
unfolding parse_host
parse_plain h d host port no_colon one_colon = ground (arith, strchr-at b':' h d no_colon)

bracketed_lem :
    (h d host : List ℕ) (port : ℕ)
    → has d b']' ≡ false
    → parse_bracketed (b'[' ∷ (h ++ (b']' ∷ b':' ∷ d))) host port ≡ (Ret.ok, host ++ h, libc_atoi d)
unfolding parse_bracketed has
bracketed_lem h d host port absent = ground (arith, strrchr-at b']' h (b':' ∷ d) absent)

parse_brackets :
    (address d host : List ℕ) (port : ℕ)
    → has address b':' ≡ true
    → has d b']' ≡ false
    → parse_host (b'[' ∷ (address ++ (b']' ∷ b':' ∷ d))) host port
      ≡ (Ret.ok, host ++ address, libc_atoi d)
unfolding parse_host has
parse_brackets address d host port colons absent =
    let (place, found, again) = strchr_twice b':' (b'[' ∷ address) (b']' ∷ b':' ∷ d) colons refl in
    ground (arith, found, again, bracketed_lem address d host port absent)

-- A host without a colon and a bracketed address that has one at least, each with a colon and a port
-- behind it that has neither a colon nor a closing bracket: http2d_parse_host answers ret_ok, adds
-- the host, or the address without its brackets, to the buffer, and sets the port to the number.
pub parse_host_lem :
    (h address d host : List ℕ) (port : ℕ)
    → has h b':' ≡ false
    → has address b':' ≡ true
    → has d b':' ≡ false
    → has d b']' ≡ false
    → (parse_host (h ++ (b':' ∷ d)) host port ≡ (Ret.ok, host ++ h, libc_atoi d))
      × (parse_host (b'[' ∷ (address ++ (b']' ∷ b':' ∷ d))) host port
          ≡ (Ret.ok, host ++ address, libc_atoi d))
parse_host_lem h address d host port no_colon colons one_colon absent =
    (parse_plain h d host port no_colon one_colon, parse_brackets address d host port colons absent)
