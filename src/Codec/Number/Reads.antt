-- ===== src/Codec/Number/Reads.antt =====
-- The number functions of src/buffer.c on buffers: what they append reads back as the number.
use spdy_test.Prelude.{
  ℕ, zero, suc, ◌+◌, ◌-◌, ◌%◌, ◌^◌, ◌<◌, ◌≤◌, List, [], ◌∷◌, Option, none, some, ◌≡◌, refl, ap, ◌∙◌,
  inl, inr, arith, ◌==◌, if◌then◌else◌, ◌>>=◌, length, Bool-cases, leb, ltb, true, false,
}
use spdy_test.Ret.{Ret}
use spdy_test.Buffer.{Buffer, u32}
use spdy_test.Buffer.Mem.{Alloc}
use spdy_test.Buffer.Space.{IsValid, Grows, IsGrown-in_place, realloc_new_bufsize_lem}
use spdy_test.Buffer.Adds.{Appends, store_append}
use spdy_test.Buffer.Slice.{ℤ, pos, negsuc}
use spdy_test.Codec.Number.{
  ios_numbuf, digit_loop, digits_room, add_digits, signed_digits, add_long10, add_llong10,
  add_ulong10, add_ullong10, add_ulong16, add_ullong16,
}
use spdy_test.Codec.Number.Digits.{read_digits, digit_loop_lem}

-- What an unsigned function promises in a base.
abbrev pub AppendsNumber : Buffer → ℕ → ℕ → Option (Ret × Buffer) → Type 0
AppendsNumber b base num r =
    (txt : List ℕ) × (read_digits base 0 txt ≡ some num)
    × (length txt < ios_numbuf)
    × Appends b txt r

module _ (a : Alloc) (b : Buffer) (v : IsValid b) where
  digits_room_lem : (n : ℕ) → b.len + n + 17 < 2 ^ 31 → Grows b n (digits_room a b (b.len + n))
  unfolding digits_room
  digits_room_lem n h = elim (Bool-cases (leb b.size (b.len + n))) [
    | inr enough ↦ rw enough (inr (b, refl, IsGrown-in_place a b v n (ground arith)))
    | inl short ↦ rw short (realloc_new_bufsize_lem a b v n (ground arith) h)
  ]

  add_digits_lem :
      (txt : List ℕ) → b.len + length txt + 17 < 2 ^ 31 → Appends b txt (add_digits a b txt)
  unfolding add_digits
  add_digits_lem txt h =
      let n = length txt in
      let e : digits_room a b (u32 (b.len + n)) ≡ digits_room a b (b.len + n) =
        ap (digits_room a b) (omega arith) in
      elim (digits_room_lem n h) [
        | inl fails ↦ inl (let f = e ∙ fails in rw (f, add_digits) (rw f))
        | inr (b1, grows, g) ↦
            let f = e ∙ grows in
            let (b2, stores, holds) = store_append b b1 txt v g in
            inr (b2, rw (f, add_digits) (rw (f, stores)), holds)
      ]

  unsigned_lem :
      (base num : ℕ)
      → 8 ≤ base
      → base ≤ 16
      → num < 2 ^ 64
      → b.len + 80 < 2 ^ 31
      → AppendsNumber b base num
          (do txt ← digit_loop base (ios_numbuf - 1) num []; add_digits a b txt)
  unsigned_lem base num lo hi bound room =
      let (txt, loops, short, some_of, reads) =
        digit_loop_lem base 22 62 num [] (omega arith) lo hi (omega arith) in
      (
        txt,
        reads ∙ unfold read_digits in refl,
        omega arith,
        rw loops (add_digits_lem txt (omega arith)),
      )

-- The bit pattern of a signed number, and the numbers that have one.
abbrev pub word : ℤ → ℕ
word (pos n) = n
word (negsuc n) = 2 ^ 64 - (n + 1)

abbrev pub IsLong : ℤ → Type 0
IsLong (pos n) = n < 2 ^ 63
IsLong (negsuc n) = n < 2 ^ 63

abbrev pub negative : ℕ → ℤ
negative zero = pos 0
negative (suc n) = negsuc n

-- The number that a text with an optional sign spells.
unfoldable pub read_signed : List ℕ → Option ℤ
read_signed [] = none
read_signed (c ∷ cs) =
    if c == b'-'
    then (do n ← read_digits 10 0 cs; some (negative n))
    else do n ← read_digits 10 0 (c ∷ cs); some (pos n)

read_signed_pos :
    (txt : List ℕ) (n : ℕ)
    → 0 < length txt
    → read_digits 10 0 txt ≡ some n
    → read_signed txt ≡ some (pos n)
unfolding read_signed
read_signed_pos [] n h reads = absurd (omega arith)
read_signed_pos (c ∷ cs) n h reads = elim (Bool-cases (c == b'-')) [
  | inl minus ↦ absurd (unfold read_digits in ground arith)
  | inr other ↦ rw other (rw reads)
]

read_signed_neg :
    (txt : List ℕ) (n : ℕ)
    → read_digits 10 0 txt ≡ some (suc n)
    → read_signed (b'-' ∷ txt) ≡ some (negsuc n)
unfolding read_signed
read_signed_neg txt n reads = rw reads

signed_digits_lem :
    (z : ℤ)
    → IsLong z
    → (txt : List ℕ) × (signed_digits (word z) ≡ some txt)
      × (read_signed txt ≡ some z)
      × (length txt ≤ ios_numbuf)
unfolding signed_digits
signed_digits_lem (pos n) h =
    let (txt, loops, short, some_of, reads) =
      digit_loop_lem 10 22 62 n [] (omega arith) (omega arith) (omega arith) (omega arith) in
    let e : leb (2 ^ 63) n ≡ false = ground arith in
    let fits : ltb (length txt) 63 ≡ true = ground arith in
    (
      txt,
      rw e (rw loops (rw fits)),
      read_signed_pos txt n (omega arith) (reads ∙ unfold read_digits in refl),
      omega arith,
    )
signed_digits_lem (negsuc n) h =
    let num = 2 ^ 64 - (n + 1) in
    let (txt, loops, short, some_of, reads) =
      digit_loop_lem 10 22 62 (n + 1) [] (omega arith) (omega arith) (omega arith) (omega arith) in
    let e : leb (2 ^ 63) num ≡ true = ground arith in
    let e' : (2 ^ 64 - num) % 2 ^ 64 ≡ n + 1 = omega arith in
    let fits : ltb (length txt) 63 ≡ true = ground arith in
    (
      b'-' ∷ txt,
      rw e (rw e' (rw loops (rw fits))),
      read_signed_neg txt n (reads ∙ unfold read_digits in ap some (omega arith)),
      omega arith,
    )

-- What a signed function promises.
abbrev pub AppendsSigned : Buffer → ℤ → Option (Ret × Buffer) → Type 0
AppendsSigned b z r =
    (txt : List ℕ) × (read_signed txt ≡ some z) × (length txt ≤ ios_numbuf) × Appends b txt r

module _ (a : Alloc) (b : Buffer) (v : IsValid b) (room : b.len + 81 < 2 ^ 31) where
  -- On a valid buffer whose length and 81 stay below 2 ^ 31, http2d_buffer_add_ulong10,
  -- add_ullong10, add_ulong16 and add_ullong16 of any 64-bit number write at most 63 digits, so never
  -- before their array, and either answer ret_nomem and leave the buffer alone, or append digits that
  -- read back as the number in base 10 or 16.
  unsigned_numbers :
      (num : ℕ)
      → num < 2 ^ 64
      → AppendsNumber b 10 num (add_ulong10 a b num)
        × AppendsNumber b 10 num (add_ullong10 a b num)
        × AppendsNumber b 16 num (add_ulong16 a b num)
        × AppendsNumber b 16 num (add_ullong16 a b num)
  unfolding add_ulong10 add_ullong10 add_ulong16 add_ullong16
  unsigned_numbers num bound =
      let ten = unsigned_lem a b v 10 num (omega arith) (omega arith) bound (omega arith) in
      let sixteen = unsigned_lem a b v 16 num (omega arith) (omega arith) bound (omega arith) in
      (ten, ten, sixteen, sixteen)

  -- On a valid buffer whose length and 81 stay below 2 ^ 31, http2d_buffer_add_long10 and
  -- add_llong10 of any signed 64-bit number, the lowest one too, either answer ret_nomem and leave the
  -- buffer alone, or append a text of at most 64 bytes that reads back as the number.
  pub signed_numbers :
      (z : ℤ)
      → IsLong z
      → AppendsSigned b z (add_long10 a b (word z)) × AppendsSigned b z (add_llong10 a b (word z))
  unfolding add_long10 add_llong10
  signed_numbers z long =
      let (txt, writes, reads, short) = signed_digits_lem z long in
      let appends : Appends b txt (do t ← signed_digits (word z); add_digits a b t) =
        rw writes (add_digits_lem a b v txt (omega arith)) in
      ((txt, reads, short, appends), (txt, reads, short, appends))
