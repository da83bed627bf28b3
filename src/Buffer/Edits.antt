-- ===== src/Buffer/Edits.antt =====
-- The operations of `Edit` against the string that the buffer holds.
use spdy_test.Prelude.{
  ℕ, ◌+◌, ◌-◌, ◌≤◌, ◌<◌, List, [], ◌∷◌, ◌++◌, none, some, ◌≡◌, refl, sym, ap, ◌∙◌, inl, inr, arith,
  subst, leb, leb→le, Bool-cases, Option-cases, length, take, drop, get_elem?, length-take,
  length-drop, take-append_le, take-take, take-append_add, drop-take, drop_of_length-le,
  get_elem?-take, get_elem?-drop, get_elem?-append_lt, get_elem?-append_ge,
}
use spdy_test.Ret.{Ret}
use spdy_test.Buffer.{Buffer, clean}
use spdy_test.Buffer.Mem.{bytes, slice_lem, blit_lem}
use spdy_test.Buffer.Space.{contents, IsValid}
use spdy_test.Buffer.Adds.{IsTerminated, Holds, written, length-written}
use spdy_test.Buffer.Edit.{cleaned, move_to_begin}

-- What stands from `end` to the terminator, which is at `len`.
abbrev pub rest_of : List ℕ → ℕ → ℕ → List ℕ
rest_of m end len = take (len - end + 1) (drop end m)

-- Moving what stands from `end` to the terminator down to `begin`.
module _ (m : List ℕ) (begin end len : ℕ) (ordered : begin ≤ end) (inside : end ≤ len)
    (fits : len < length m) where
  pub length-rest : length (rest_of m end len) ≡ len - end + 1
  length-rest = omega (arith, length-take (len - end + 1) (drop end m), length-drop end m)

  front : length (take begin m) ≡ begin
  front = omega (arith, length-take begin m)

  moved_string :
      take (begin + (len - end)) (written m begin (rest_of m end len))
      ≡ take begin (take len m) ++ drop end (take len m)
  moved_string =
      let rest = rest_of m end len in
      take-append_add (take begin m) (rest ++ drop (begin + length rest) m) begin (len - end) front
      ∙ ap (λ xs. take begin m ++ xs)
          (take-append_le (len - end) rest (drop (begin + length rest) m)
              (omega (arith, length-rest))
            ∙ take-take (len - end) (len - end + 1) (drop end m) (omega arith)
            ∙ sym (drop-take end len m))
      ∙ ap (λ xs. xs ++ drop end (take len m)) (sym (take-take begin len m (omega arith)))

  moved_end :
      get_elem? (written m begin (rest_of m end len)) (begin + (len - end)) ≡ get_elem? m len
  moved_end =
      let rest = rest_of m end len in
      get_elem?-append_ge (begin + (len - end)) (take begin m)
        (rest ++ drop (begin + length rest) m) (omega (arith, front))
      ∙ ap (get_elem? (rest ++ drop (begin + length rest) m)) (omega (arith, front))
      ∙ get_elem?-append_lt (len - end) rest (drop (begin + length rest) m)
          (omega (arith, length-rest))
      ∙ get_elem?-take (len - end) (len - end + 1) (drop end m) (omega arith)
      ∙ get_elem?-drop (len - end) end m
      ∙ ap (get_elem? m) (omega arith)

-- A valid buffer with a block is shorter than it, and one without is empty.
pub block_facts :
    (b : Buffer) (m : List ℕ)
    → IsValid b
    → b.buf ≡ some m
    → (length m ≡ b.size) × (b.len < length m)
block_facts b m v at =
    let e : length (bytes b.buf) ≡ length m = ap (λ o. length (bytes o)) at in
    let lt : b.len < b.size = ground (arith, v.room) in (sym e ∙ v.sized, omega (arith, v.sized))

pub null_facts : (b : Buffer) → IsValid b → b.buf ≡ none → (b.len ≡ 0) × (b.size ≡ 0)
null_facts b v null =
    let e : length (bytes b.buf) ≡ 0 = ap (λ o. length (bytes o)) null in omega arith

-- A block edited in place holds what stands before its terminator.
pub edited :
    (b : Buffer) (m : List ℕ) (k : ℕ)
    → IsValid b
    → length m ≡ b.size
    → k < b.size
    → get_elem? m k ≡ some 0
    → Holds (take k m) (record b { buf = some m; len = k })
edited b m k v sized lt zero_at = record {
  valid = record { sized = sized; room = inl lt; small = v.small };
  holds = refl;
  terminated = inr zero_at;
}

module _ (b : Buffer) (v : IsValid b) where
  -- http2d_buffer_clean empties a buffer and keeps its block.
  pub clean_lem : (b' : Buffer) × (clean b ≡ some b') × Holds [] b'
  unfolding clean
  clean_lem = elim (Option-cases b.buf) [
    | inl null ↦ (
      record b { len = 0 },
      rw null,
      record {
        valid = record {
          sized = v.sized;
          room = inr (refl, (null_facts b v null).1, null);
          small = v.small;
        };
        holds = refl;
        terminated = inl null;
      },
    )
    | inr (m, at) ↦
        let (sized, lt) = block_facts b m v at in
        let m' = written m 0 (0 ∷ []) in
        (
          record b { buf = some m'; len = 0 },
          rw (at, blit_lem m 0 (0 ∷ []) (omega arith)),
          edited b m' 0 v (length-written m 0 (0 ∷ []) (omega arith) ∙ sized) (omega arith) refl,
        )
  ]

  pub length-contents : length (contents b) ≡ b.len
  length-contents = omega (arith, length-take b.len (bytes b.buf))

  pub cleaned_lem :
      (xs : List ℕ) → xs ≡ [] → (b' : Buffer) × (cleaned b ≡ some (Ret.ok, b')) × Holds xs b'
  cleaned_lem xs e =
      let (b', cleans, h) = clean_lem in (b', rw cleans, subst (λ xs. Holds xs b') (sym e) h)

  module _ (t : IsTerminated b) where
    pub terminator : {m : List ℕ} → b.buf ≡ some m → get_elem? m b.len ≡ some 0
    terminator at = elim t [
      | inl null ↦ cc
      | inr zero_at ↦ ap (λ o. get_elem? (bytes o) b.len) (sym at) ∙ zero_at
    ]

    -- The bytes from `end` on, moved down to `begin`.
    pub shifted :
        (m : List ℕ) (begin end : ℕ)
        → b.buf ≡ some m
        → begin ≤ end
        → end ≤ b.len
        → Holds (take begin (contents b) ++ drop end (contents b)) (record b {
          buf = some (written m begin (rest_of m end b.len));
          len = begin + (b.len - end);
        })
    shifted m begin end at o i =
        let (sized, lt) = block_facts b m v at in
        let rest = rest_of m end b.len in
        let l : length rest ≡ b.len - end + 1 = length-rest m begin end b.len o i lt in
        let same : take b.len m ≡ contents b = ap (λ p. take b.len (bytes p)) (sym at) in
        let e : take (begin + (b.len - end)) (written m begin rest)
            ≡ take begin (contents b) ++ drop end (contents b) =
          moved_string m begin end b.len o i lt ∙ ap (λ xs. take begin xs ++ drop end xs) same in
        subst
          (λ xs.
            Holds xs (record b { buf = some (written m begin rest); len = begin + (b.len - end) }))
          e
          (edited b (written m begin rest) (begin + (b.len - end)) v
            (length-written m begin rest (omega arith) ∙ sized) (omega arith)
            (moved_end m begin end b.len o i lt ∙ terminator at))

    -- On a valid, terminated buffer, http2d_buffer_move_to_begin answers ret_ok and leaves a valid,
    -- terminated buffer with the bytes from `pos` on, which are none where `pos` is past the end.
    pub move_to_begin_lem :
        (pos : ℕ)
        → (b' : Buffer) × (move_to_begin b pos ≡ some (Ret.ok, b'))
          × Holds (drop pos (contents b)) b'
    unfolding move_to_begin
    move_to_begin_lem pos = elim (Bool-cases (leb b.len pos)) [
      | inl past ↦
          let le : length (contents b) ≤ pos =
            omega (arith, length-contents, leb→le b.len pos past) in
          let (b', cleans, h) =
            cleaned_lem (drop pos (contents b)) (drop_of_length-le pos (contents b) le) in
          (b', rw past cleans, h)
      | inr before ↦ elim (Option-cases b.buf) [
        | inl null ↦ absurd (ground (arith, null_facts b v null))
        | inr (m, at) ↦
            let (sized, lt) = block_facts b m v at in
            let in_string : pos < b.len = ground arith in
            let rest = rest_of m pos b.len in
            let l : length rest ≡ b.len - pos + 1 =
              length-rest m 0 pos b.len (omega arith) (omega arith) lt in
            let e : 0 + (b.len - pos) ≡ b.len - pos = omega arith in
            (
              record b { buf = some (written m 0 rest); len = b.len - pos },
              rw (before, move_to_begin)
                  (rw (
                    at,
                    slice_lem m pos (b.len - pos + 1) (omega arith),
                    blit_lem m 0 rest (omega arith),
                  )),
              subst
                  (λ k.
                    Holds (drop pos (contents b))
                      (record b { buf = some (written m 0 rest); len = k }))
                  e (shifted m 0 pos at (omega arith) (omega arith)),
            )
      ]
    ]
