-- ===== src/Access/Netmask.antt =====
-- What the mask of a given length is, bit by bit: `mask4` and `mask6` of src/access.c.
use spdy_test.Prelude.{
  ℕ, zero, suc, ◌+◌, ◌-◌, ◌*◌, ◌/◌, ◌%◌, ◌^◌, ◌≤◌, ◌<◌, ◌≡◌, refl, sym, ap, subst, ◌∙◌, ◌↔◌, List,
  [], ◌∷◌, ◌++◌, Bool, true, false, ◌&&◌, ◌==◌, length, take, arith, append-nil, take-append_ge,
  take-append_le, length-take,
}
use Prim.Native.Nat.{bit_and, min}
use spdy_test.CString.{same}
use spdy_test.CString.Same.{same→eq}
use spdy_test.Codec.{AreBytes}
use spdy_test.Access.{same_masked, no_ip}
use spdy_test.Access.Parse.{mask4, mask6, word_bytes}
use native.Mathlib.Decide.{dec_le}

-- The bits of an address, the highest of each byte first.
abbrev pub byte_bits : ℕ → List ℕ
byte_bits x =
    x / 128 % 2
    ∷ x / 64 % 2
    ∷ x / 32 % 2
    ∷ x / 16 % 2
    ∷ x / 8 % 2
    ∷ x / 4 % 2
    ∷ x / 2 % 2
    ∷ x % 2
    ∷ []

unfoldable pub bits : List ℕ → List ℕ
bits [] = []
bits (x ∷ xs) = byte_bits x ++ bits xs

-- A byte whose `n` highest bits are set, and a mask of `num` bits on `size` bytes.
abbrev high : ℕ → ℕ
high n = 256 - 2 ^ (8 - n)

unfoldable pub prefix_mask : ℕ → ℕ → List ℕ
prefix_mask num zero = []
prefix_mask num (suc size) = high (min 8 num) ∷ prefix_mask (num - 8) size

-- Whether a test passes at every number under a bound, and what that says of one of them.
passes : (ℕ → Bool) → ℕ → Bool
passes test zero = true
passes test (suc bound) = test bound && passes test bound

passes_at :
    (test : ℕ → Bool) (bound : ℕ) → passes test bound ≡ true → (i : ℕ) → i < bound → test i ≡ true
unfolding passes
passes_at test zero all i small = absurd (omega arith)
passes_at test (suc bound) all i small = elim (dec_le bound i) [
  | yes last ↦ let here : bound ≡ i = omega arith in subst (λ k. test k ≡ true) here (ground arith)
  | no under ↦ passes_at test bound (ground arith) i (omega arith)
]

==→eq : (a b : ℕ) → (a == b) ≡ true → a ≡ b
==→eq a b h = ground arith

eq→== : (a b : ℕ) → a ≡ b → (a == b) ≡ true
eq→== a b h = ground arith

and-true : (a b : Bool) → (a && b) ≡ true → (a ≡ true) × (b ≡ true)
and-true true b h = (refl, h)
and-true false b h = cc

true-and : (a b : Bool) → a ≡ true → b ≡ true → (a && b) ≡ true
true-and true b ha hb = hb
true-and false b ha hb = ha

-- The masks that the code builds are those, each length checked by evaluation.
mask4_table : passes (λ num. same (mask4 num) (prefix_mask num 4)) 33 ≡ true
unfolding passes same mask4 prefix_mask word_bytes
mask4_table = refl

mask6_table : passes (λ num. same (mask6 num no_ip) (prefix_mask num 16)) 128 ≡ true
unfolding passes same mask6 prefix_mask
mask6_table = refl

pub mask4_lem : (num : ℕ) → num ≤ 32 → mask4 num ≡ prefix_mask num 4
mask4_lem num h =
    same→eq _ _ (passes_at (λ n. same (mask4 n) (prefix_mask n 4)) 33 mask4_table num (omega arith))

pub mask6_lem : (num : ℕ) → num < 128 → mask6 num no_ip ≡ prefix_mask num 16
mask6_lem num h =
    same→eq _ _ (passes_at (λ n. same (mask6 n no_ip) (prefix_mask n 16)) 128 mask6_table num h)

-- Bits by their weight in a byte.
weigh : ℕ → List ℕ → ℕ
weigh w [] = 0
weigh w (b ∷ bs) = b * w + weigh (w / 2) bs

-- A test of every number of set bits on every byte.
abbrev on_bytes : (ℕ → ℕ → Bool) → Bool
on_bytes p = passes (λ n. passes (p n) 256) 9

on_bytes_lem : (p : ℕ → ℕ → Bool) (n x : ℕ) → on_bytes p ≡ true → n ≤ 8 → x < 256 → p n x ≡ true
on_bytes_lem p n x h small byte =
    passes_at (p n) 256 (passes_at (λ k. passes (p k) 256) 9 h n (omega arith)) x byte

weigh_table : on_bytes (λ n x. weigh 128 (take n (byte_bits x)) == bit_and x (high n)) ≡ true
unfolding passes weigh
weigh_table = refl

masked_table :
    on_bytes (λ n x. same (take n (byte_bits (bit_and x (high n)))) (take n (byte_bits x))) ≡ true
unfolding passes same
masked_table = refl

weigh_lem : (n x : ℕ) → n ≤ 8 → x < 256 → weigh 128 (take n (byte_bits x)) ≡ bit_and x (high n)
weigh_lem n x small byte = ==→eq _ _ (
    on_bytes_lem (λ k y. weigh 128 (take k (byte_bits y)) == bit_and y (high k)) n x weigh_table
      small byte)

masked_lem :
    (n x : ℕ) → n ≤ 8 → x < 256 → take n (byte_bits (bit_and x (high n))) ≡ take n (byte_bits x)
masked_lem n x small byte = same→eq _ _ (
    on_bytes_lem (λ k y. same (take k (byte_bits (bit_and y (high k)))) (take k (byte_bits y))) n x
      masked_table small byte)

-- One byte: the masked bytes agree exactly where the first bits do.
byte_lem :
    (n x y : ℕ)
    → n ≤ 8
    → x < 256
    → y < 256
    → (bit_and x (high n) ≡ bit_and y (high n)) ↔ (take n (byte_bits x) ≡ take n (byte_bits y))
byte_lem n x y small hx hy = (
  λ e. sym (masked_lem n x small hx) ∙ ap (λ z. take n (byte_bits z)) e ∙ masked_lem n y small hy,
  λ e. sym (weigh_lem n x small hx) ∙ ap (weigh 128) e ∙ weigh_lem n y small hy,
)

-- The first `num` bits of an address, by bytes.
take-bits :
    (num x : ℕ) (xs : List ℕ)
    → take num (bits (x ∷ xs)) ≡ take (min 8 num) (byte_bits x) ++ take (num - 8) (bits xs)
unfolding bits
take-bits num x xs = elim (dec_le 8 num) [
  | yes h ↦
      let all : min 8 num ≡ 8 = omega arith in rw all (take-append_ge num (byte_bits x) (bits xs) h)
  | no h ↦
      let all : min 8 num ≡ num = omega arith in
      let none_left : num - 8 ≡ 0 = omega arith in
      rw (all, none_left)
        (take-append_le num (byte_bits x) (bits xs) (omega arith)
          ∙ sym (append-nil (take num (byte_bits x))))
]

byte_table : passes (λ x. weigh 128 (byte_bits x) == x) 256 ≡ true
unfolding passes weigh
byte_table = refl

byte_bits_inj : (x y : ℕ) → x < 256 → y < 256 → byte_bits x ≡ byte_bits y → x ≡ y
byte_bits_inj x y hx hy e =
    let value = λ (z : ℕ) (h : z < 256).
      ==→eq (weigh 128 (byte_bits z)) z
        (passes_at (λ x. weigh 128 (byte_bits x) == x) 256 byte_table z h) in
    sym (value x hx) ∙ ap (weigh 128) e ∙ value y hy

append_inj :
    (us vs cs ds : List ℕ) → length us ≡ length vs → us ++ cs ≡ vs ++ ds → (us ≡ vs) × (cs ≡ ds)
append_inj [] [] cs ds sizes e = (refl, e)
append_inj [] (v ∷ vs) cs ds sizes e = absurd (omega arith)
append_inj (u ∷ us) [] cs ds sizes e = absurd (omega arith)
append_inj (u ∷ us) (v ∷ vs) cs ds sizes e =
    let rest = append_inj us vs cs ds (omega arith) (cc) in (cc, rest.1)

split_bits :
    (num x y : ℕ) (xs ys : List ℕ)
    → take num (bits (x ∷ xs)) ≡ take num (bits (y ∷ ys))
    → (take (min 8 num) (byte_bits x) ≡ take (min 8 num) (byte_bits y))
      × (take (num - 8) (bits xs) ≡ take (num - 8) (bits ys))
split_bits num x y xs ys e =
    append_inj (take (min 8 num) (byte_bits x)) (take (min 8 num) (byte_bits y)) _ _
      (length-take (min 8 num) (byte_bits x) ∙ sym (length-take (min 8 num) (byte_bits y)))
      (sym (take-bits num x xs) ∙ e ∙ take-bits num y ys)

join_bits :
    (num x y : ℕ) (xs ys : List ℕ)
    → take (min 8 num) (byte_bits x) ≡ take (min 8 num) (byte_bits y)
    → take (num - 8) (bits xs) ≡ take (num - 8) (bits ys)
    → take num (bits (x ∷ xs)) ≡ take num (bits (y ∷ ys))
join_bits num x y xs ys first rest = rw (take-bits num x xs, take-bits num y ys, first, rest) refl

-- Addresses agree under a mask of `num` bits exactly where their first `num` bits are the same.
pub same_masked_lem :
    (num : ℕ) (xs ys : List ℕ)
    → length xs ≡ length ys
    → AreBytes xs
    → AreBytes ys
    → (same_masked xs ys (prefix_mask num (length xs)) ≡ true)
      ↔ (take num (bits xs) ≡ take num (bits ys))
unfolding same_masked prefix_mask
same_masked_lem num [] [] sizes bx by = (λ _. refl, λ _. refl)
same_masked_lem num [] (y ∷ ys) sizes bx by = absurd (omega arith)
same_masked_lem num (x ∷ xs) [] sizes bx by = absurd (omega arith)
same_masked_lem num (x ∷ xs) (y ∷ ys) sizes (hx, bx) (hy, by) =
    let first = byte_lem (min 8 num) x y (omega arith) hx hy in
    let rest = same_masked_lem (num - 8) xs ys (omega arith) bx by in
    (
      λ h.
          join_bits num x y xs ys (first.0 (==→eq _ _ (and-true _ _ h).0))
            (rest.0 (and-true _ _ h).1),
      λ e.
          let (e1, e2) = split_bits num x y xs ys e in
          true-and _ _ (eq→== _ _ (first.1 e1)) (rest.1 e2),
    )

-- All bits of an address tell it from any other.
pub bits_inj :
    (xs ys : List ℕ)
    → length xs ≡ length ys
    → AreBytes xs
    → AreBytes ys
    → take (8 * length xs) (bits xs) ≡ take (8 * length xs) (bits ys)
    → xs ≡ ys
bits_inj [] [] sizes bx by e = refl
bits_inj [] (y ∷ ys) sizes bx by e = absurd (omega arith)
bits_inj (x ∷ xs) [] sizes bx by e = absurd (omega arith)
bits_inj (x ∷ xs) (y ∷ ys) sizes (hx, bx) (hy, by) e =
    let (first, rest) = split_bits (8 * suc (length xs)) x y xs ys e in
    let eight : min 8 (8 * suc (length xs)) ≡ 8 = omega arith in
    let more : 8 * suc (length xs) - 8 ≡ 8 * length xs = omega arith in
    let heads =
      byte_bits_inj x y hx hy
        (subst (λ n. take n (byte_bits x) ≡ take n (byte_bits y)) eight first) in
    let tails =
      bits_inj xs ys (omega arith) bx by
        (subst (λ n. take n (bits xs) ≡ take n (bits ys)) more rest) in
    cc
