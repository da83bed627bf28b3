-- ===== src/Codec/Number/Digits.antt =====
-- The digit loops of src/buffer.c: they stay inside their array, and what they write reads back.
use spdy_test.Prelude.{
  ℕ, zero, suc, ◌+◌, ◌*◌, ◌/◌, ◌%◌, ◌^◌, ◌<◌, ◌≤◌, List, [], ◌∷◌, Option, some, ◌≡◌, refl, sym, ap,
  ◌∙◌, inl, inr, arith, ◌==◌, ◌>>=◌, length, Bool-cases, true,
}
use native.Mathlib.Numerals.{unary_clauses}
use spdy_test.Codec.{to_hex, hex_value}
use spdy_test.Codec.Number.{digit_loop}

-- The number that digits spell behind one already read.
unfoldable pub read_digits : ℕ → ℕ → List ℕ → Option ℕ
read_digits base num [] = some num
read_digits base num (c ∷ cs) = do d ← hex_value c; read_digits base (num * base + d) cs

pow_suc : (i : ℕ) → 8 ^ suc i ≡ 8 ^ i * 8
pow_suc i = simp unary_clauses refl

hex_value-to_hex : (d : ℕ) → d < 16 → hex_value (to_hex d) ≡ some d
hex_value-to_hex d h = ground arith

module _ (base num : ℕ) (lo : 8 ≤ base) (hi : base ≤ 16) where
  quotient_lem : (i : ℕ) → num < 8 ^ suc i → num / base < 8 ^ i
  quotient_lem i h = grind (arith, pow_suc i)

  remainder_lem : num % base < 16
  remainder_lem = grind arith

  parts_lem : num / base * base + num % base ≡ num
  parts_lem = grind arith

  read_step :
      (before : ℕ) (out : List ℕ)
      → before * base + num % base ≡ num
      → read_digits base before (to_hex (num % base) ∷ out) ≡ read_digits base num out
  unfolding read_digits
  read_step before out e =
      rw (hex_value-to_hex (num % base) remainder_lem) (ap (λ k. read_digits base k out) e)

-- With `num` below `8 ^ i` the loop takes at most `i + 1` rounds, and the result reads back.
pub digit_loop_lem :
    (base i fuel num : ℕ) (out : List ℕ)
    → i ≤ fuel
    → 8 ≤ base
    → base ≤ 16
    → num < 8 ^ i
    → (txt : List ℕ) × (digit_loop base (suc fuel) num out ≡ some txt)
      × (length txt ≤ suc i + length out)
      × (length out < length txt)
      × (read_digits base 0 txt ≡ read_digits base num out)
unfolding digit_loop
digit_loop_lem base zero fuel num out le lo hi h =
    let e : num ≡ 0 = omega arith in
    let z : num / base ≡ 0 = grind arith in
    let done : (num / base == 0) ≡ true = ground arith in
    let last : 0 * base + num % base ≡ num = grind arith in
    (
      to_hex (num % base) ∷ out,
      rw done,
      omega arith,
      omega arith,
      read_step base num lo hi 0 out last,
    )
digit_loop_lem base (suc i) zero num out le lo hi h = absurd (omega arith)
digit_loop_lem base (suc i) (suc fuel) num out le lo hi h = elim (Bool-cases (num / base == 0)) [
  | inl done ↦
      let z : num / base ≡ 0 = ground arith in
      let last : 0 * base + num % base ≡ num =
        ap (λ q. q * base + num % base) (sym z) ∙ parts_lem base num lo hi in
      (
        to_hex (num % base) ∷ out,
        rw done,
        omega arith,
        omega arith,
        read_step base num lo hi 0 out last,
      )
  | inr more ↦
      let out' = to_hex (num % base) ∷ out in
      let (txt, loops, short, more_of, reads) =
        digit_loop_lem base i fuel (num / base) out' (omega arith) lo hi
          (quotient_lem base num lo hi i h) in
      (
        txt,
        rw more loops,
        omega arith,
        omega arith,
        reads ∙ read_step base num lo hi (num / base) out (parts_lem base num lo hi),
      )
]
