-- ===== src/Buffer/Text/Trim.antt =====
-- http2d_buffer_trim of src/buffer.c takes the blanks off both ends, and nothing else.
use spdy_test.Prelude.{
  ℕ, zero, suc, ◌+◌, ◌-◌, ◌<◌, ◌≤◌, List, [], ◌∷◌, some, ◌≡◌, refl, sym, ap, ◌∙◌, inl, inr, arith,
  true, false, ◌==◌, length, take, drop, get_elem?, get_elem?_in_range, Bool-cases, subst,
  drop_of_length-le, length-take, length-drop, take-drop-take,
}
use spdy_test.Ret.{Ret}
use spdy_test.Buffer.{Buffer}
use spdy_test.Buffer.Mem.{bytes, slice, slice_lem, blit}
use spdy_test.Buffer.Space.{contents, IsValid}
use spdy_test.Buffer.Adds.{Holds, IsTerminated}
use spdy_test.Buffer.Edits.{block_facts, length-contents}
use spdy_test.Codec.Output.{overwritten, block_of_size}
use spdy_test.Buffer.Text.{is_blank, count_blanks, count_end, keep_middle, text_of, trim}

abbrev pub AreBlanks : List ℕ → Type 0
AreBlanks [] = Unit
AreBlanks (c ∷ cs) = (is_blank c ≡ true) × AreBlanks cs

-- Blanks as far as the first byte that is none.
count_blanks_lem :
    (text : List ℕ)
    → (count_blanks text ≤ length text)
      × AreBlanks (take (count_blanks text) text)
      × ((c : ℕ) → get_elem? text (count_blanks text) ≡ some c → is_blank c ≡ false)
unfolding count_blanks
count_blanks_lem [] = (omega arith, tt, λ c h. absurd (ground arith))
count_blanks_lem (c ∷ cs) = elim (Bool-cases (is_blank c)) [
  | inl blank ↦
      let (le, blanks, stops) = count_blanks_lem cs in
      rw blank (omega arith, (blank, blanks), stops)
  | inr other ↦ rw other (
    omega arith,
    tt,
    λ d h. let e : c ≡ d = ground arith in subst (λ x. is_blank x ≡ false) e other,
  )
]

drop-cons :
    (text : List ℕ) (k : ℕ) {c : ℕ}
    → get_elem? text k ≡ some c
    → drop k text ≡ c ∷ drop (suc k) text
drop-cons [] k h = absurd (ground arith)
drop-cons (x ∷ text) zero h = ap (λ o. o ∷ text) (ground arith)
drop-cons (x ∷ text) (suc k) h = drop-cons text k h

-- From the last byte on down.
count_end_lem :
    (n : ℕ) (text : List ℕ) (e : ℕ)
    → e + n ≤ length text
    → AreBlanks (drop (length text - e) text)
    → (e' : ℕ) × (count_end n text e ≡ some e')
      × (e ≤ e')
      × (e' ≤ e + n)
      × AreBlanks (drop (length text - e') text)
      × ((c : ℕ)
          → e' < e + n
          → get_elem? text (length text - (e' + 1)) ≡ some c
          → is_blank c ≡ false)
unfolding count_end
count_end_lem zero text e le blanks =
    (e, refl, omega arith, omega arith, blanks, λ c lt h. absurd (omega arith))
count_end_lem (suc n) text e le blanks =
    let (c, at) = get_elem?_in_range text (length text - (e + 1)) (omega arith) in
    let one : suc (length text - (e + 1)) ≡ length text - e = omega arith in
    let split : drop (length text - (e + 1)) text ≡ c ∷ drop (length text - e) text =
      drop-cons text (length text - (e + 1)) at ∙ ap (λ k. c ∷ drop k text) one in
    elim (Bool-cases (is_blank c)) [
      | inl blank ↦
          let (e', ends, lo, hi, blanks', stops) =
            count_end_lem n text (e + 1) (omega arith)
              (subst AreBlanks (sym split) (blank, blanks)) in
          (
            e',
            rw at (rw blank ends),
            omega arith,
            omega arith,
            blanks',
            λ d lt h. stops d (omega arith) h,
          )
      | inr other ↦ (
        e,
        rw at (rw other refl),
        omega arith,
        omega arith,
        blanks,
        λ d lt h. let e' : c ≡ d = ground (arith, at) in subst (λ x. is_blank x ≡ false) e' other,
      )
    ]

keep_middle_run :
    (b : Buffer) (s n : ℕ) {m middle m' m'' : List ℕ}
    → b.buf ≡ some m
    → slice m s n ≡ some middle
    → blit m 0 middle ≡ some m'
    → blit m' n (0 ∷ []) ≡ some m''
    → keep_middle b s n ≡ some (Ret.ok, record b { buf = some m''; len = n })
unfolding keep_middle
keep_middle_run b s n at reads writes ends = rw at (rw reads (rw writes (rw ends)))

keep_middle_lem :
    (b : Buffer) (s n : ℕ)
    → IsValid b
    → s + n ≤ b.len
    → 0 < b.len
    → (b' : Buffer) × (keep_middle b s n ≡ some (Ret.ok, b'))
      × Holds (take n (drop s (contents b))) b'
keep_middle_lem b s n v le full =
    let (m, at) = block_of_size b v (omega (arith, v.room)) in
    let (sized, lt) = block_facts b m v at in
    let middle = take n (drop s m) in
    let l : length middle ≡ n = omega (arith, length-take n (drop s m), length-drop s m) in
    let same : middle ≡ take n (drop s (contents b)) =
      sym (take-drop-take n s b.len m le)
      ∙ ap (λ o. take n (drop s (take b.len (bytes o)))) (sym at) in
    let (m', m'', writes, ends, held) = overwritten b m 0 middle v at (omega arith) (omega arith) in
    let e : 0 + length middle ≡ n = omega arith in
    let ends' : blit m' n (0 ∷ []) ≡ some m'' = ap (λ k. blit m' k (0 ∷ [])) (sym e) ∙ ends in
    (
      record b { buf = some m''; len = n },
      keep_middle_run b s n at (slice_lem m s n (omega arith)) writes ends',
      subst (λ xs. Holds xs (record b { buf = some m''; len = n })) same
          (subst (λ k. Holds middle (record b { buf = some m''; len = k })) e held),
    )

-- What a trimmed string is: the old one without a front and an end of blanks, and with no blank at
-- its own ends.
pub record IsTrimmed (xs : List ℕ) (ys : List ℕ) : Type 0 where
  pub front : ℕ
  pub back : ℕ
  pub inside : front + back ≤ length xs
  pub kept : ys ≡ take (length xs - (front + back)) (drop front xs)
  pub front_blank : AreBlanks (take front xs)
  pub back_blank : AreBlanks (drop (length xs - back) xs)
  pub starts : (c : ℕ) → get_elem? xs front ≡ some c → is_blank c ≡ false
  pub ends :
      (c : ℕ)
      → front + back < length xs
      → get_elem? xs (length xs - (back + 1)) ≡ some c
      → is_blank c ≡ false

IsTrimmed-nil : IsTrimmed [] []
IsTrimmed-nil = record {
  front = 0;
  back = 0;
  inside = omega arith;
  kept = refl;
  front_blank = tt;
  back_blank = tt;
  starts = λ c h. absurd (ground arith);
  ends = λ c lt h. absurd (ground arith);
}

trim_run :
    (b : Buffer) {xs : List ℕ} {e : ℕ}
    → (b.len == 0) ≡ false
    → text_of b ≡ some xs
    → count_end (b.len - count_blanks xs) xs 0 ≡ some e
    → trim b ≡ keep_middle b (count_blanks xs) (b.len - (count_blanks xs + e))
unfolding trim
trim_run b full reads counts = rw full (rw reads (rw counts refl))

-- On a valid, terminated buffer http2d_buffer_trim answers ret_ok and leaves a valid, terminated
-- buffer whose string is the old one without blanks in front of it and behind it, and neither begins
-- nor ends with a blank.
trim_lem :
    (b : Buffer)
    → IsValid b
    → IsTerminated b
    → (b' : Buffer) × (ys : List ℕ) × (trim b ≡ some (Ret.ok, b'))
      × Holds ys b'
      × IsTrimmed (contents b) ys
unfolding trim
trim_lem b v t = elim (Bool-cases (b.len == 0)) [
  | inl empty ↦
      let none_used : b.len ≡ 0 = ground arith in
      let z : contents b ≡ [] = ap (λ k. take k (bytes b.buf)) none_used in
      (
        b,
        [],
        rw empty,
        record { valid = v; holds = z; terminated = t },
        subst (λ xs. IsTrimmed xs []) (sym z) IsTrimmed-nil,
      )
  | inr full ↦
      let xs = contents b in
      let l : length xs ≡ b.len = length-contents b v in
      let s = count_blanks xs in
      let (le, front_blank, starts) = count_blanks_lem xs in
      let none_yet : drop (length xs - 0) xs ≡ [] =
        drop_of_length-le (length xs - 0) xs (omega arith) in
      let (e, counts, lo, hi, back_blank, stops) =
        count_end_lem (b.len - s) xs 0 (omega arith) (subst AreBlanks (sym none_yet) tt) in
      let (b', keeps, held) =
        keep_middle_lem b s (b.len - (s + e)) v (omega arith) (ground arith) in
      let n : b.len - (s + e) ≡ length xs - (s + e) = omega arith in
      (
        b',
        take (b.len - (s + e)) (drop s xs),
        trim_run b full (slice_lem (bytes b.buf) 0 b.len (omega (arith, v.sized, v.room))) counts
            ∙ keeps,
        held,
        record {
          front = s;
          back = e;
          inside = omega arith;
          kept = ap (λ k. take k (drop s xs)) n;
          front_blank = front_blank;
          back_blank = back_blank;
          starts = starts;
          ends = λ c lt h. stops c (omega arith) h;
        },
      )
]
