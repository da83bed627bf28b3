-- ===== src/Buffer/Text/Insert.antt =====
-- http2d_buffer_insert and http2d_buffer_to_lowcase of src/buffer.c.
use spdy_test.Prelude.{
  ℕ, ◌+◌, ◌-◌, ◌^◌, ◌<◌, ◌≤◌, List, [], ◌∷◌, ◌++◌, some, ◌≡◌, sym, ap, ◌∙◌, arith, true, leb,
  le→leb, length, take, drop, subst, length-take, length-drop, take-append_le, take-take, drop-take,
  append_assoc, length-append, take_length-append, drop_length-append,
}
use spdy_test.Ret.{Ret}
use spdy_test.Buffer.{Buffer, u32, size_t, ensure_size}
use spdy_test.Buffer.Mem.{Alloc, bytes, slice, slice_lem, blit, blit_lem}
use spdy_test.Buffer.Space.{contents, IsValid}
use spdy_test.Buffer.Adds.{Holds, written, length-written, terminated_at}
use spdy_test.Buffer.Edits.{block_facts, edited}
use spdy_test.Buffer.Emptied.{ensured}
use spdy_test.Codec.Output.{block_of_size}
use spdy_test.Buffer.Text.{insert_at, insert}

insert_at_run :
    (b : Buffer) (txt : List ℕ) (at : ℕ) {m rest m1 m2 m3 : List ℕ} {k : ℕ}
    → b.buf ≡ some m
    → leb at b.len ≡ true
    → slice m at (b.len - at) ≡ some rest
    → blit m (at + length txt) rest ≡ some m1
    → blit m1 at txt ≡ some m2
    → u32 (b.len + length txt) ≡ k
    → blit m2 k (0 ∷ []) ≡ some m3
    → insert_at b txt at ≡ some (Ret.ok, record b { buf = some m3; len = k })
unfolding insert_at
insert_at_run b txt at block inside reads moves writes e ends =
    rw block (rw inside (rw reads (rw moves (rw writes (rw (e, ends))))))

-- The two writes: what stood at `at` moves up by the length of the text, and the text comes there.
module _ (m txt : List ℕ) (at len : ℕ) (inside : at ≤ len)
    (fits : len + length txt < length m) where
  rest : List ℕ
  rest = take (len - at) (drop at m)

  moved : List ℕ
  unfolding rest
  moved = written m (at + length txt) rest

  length-rest : length rest ≡ len - at
  unfolding rest
  length-rest = omega (arith, length-take (len - at) (drop at m), length-drop at m)

  length-moved : length moved ≡ length m
  unfolding moved
  length-moved = length-written m (at + length txt) rest (omega (arith, length-rest))

  inserted_text :
      take (len + length txt) (written moved at txt)
      ≡ take at (take len m) ++ (txt ++ drop at (take len m))
  unfolding moved rest
  inserted_text =
      let n = length txt in
      let front = take (at + n) m in
      let tail = drop (at + n + length rest) m in
      let l : length front ≡ at + n = omega (arith, length-take (at + n) m) in
      let before : take at moved ≡ take at m =
        take-append_le at front (rest ++ tail) (omega arith)
        ∙ take-take at (at + n) m (omega arith) in
      let behind : drop (at + n) moved ≡ rest ++ tail =
        ap (λ i. drop i moved) (sym l) ∙ drop_length-append front (rest ++ tail) in
      let whole : length (take at m ++ (txt ++ rest)) ≡ len + n = omega (
        arith,
        length-append (take at m) (txt ++ rest),
        length-append txt rest,
        length-take at m,
        length-rest,
      ) in
      ap (λ xs. take (len + n) (xs ++ (txt ++ drop (at + n) moved))) before
      ∙ ap (λ xs. take (len + n) (take at m ++ (txt ++ xs))) behind
      ∙ ap (λ xs. take (len + n) (take at m ++ xs)) (sym (append_assoc txt rest tail))
      ∙ ap (take (len + n)) (sym (append_assoc (take at m) (txt ++ rest) tail))
      ∙ ap (λ i. take i ((take at m ++ (txt ++ rest)) ++ tail)) (sym whole)
      ∙ take_length-append (take at m ++ (txt ++ rest)) tail
      ∙ ap (λ xs. xs ++ (txt ++ rest)) (sym (take-take at len m inside))
      ∙ ap (λ xs. take at (take len m) ++ (txt ++ xs)) (sym (drop-take at len m))

-- Where there is room.
insert_at_lem :
    (b : Buffer) (txt : List ℕ) (at : ℕ)
    → IsValid b
    → at ≤ b.len
    → b.len + length txt < b.size
    → (b' : Buffer) × (insert_at b txt at ≡ some (Ret.ok, b'))
      × Holds (take at (contents b) ++ (txt ++ drop at (contents b))) b'
unfolding rest moved
insert_at_lem b txt at v inside fits =
    let (m, block) = block_of_size b v (omega arith) in
    let (sized, lt) = block_facts b m v block in
    let n = length txt in
    let k = b.len + n in
    let roomy : b.len + n < length m = omega arith in
    let m1 = moved m txt at b.len inside roomy in
    let l1 : length m1 ≡ length m = length-moved m txt at b.len inside roomy in
    let m2 = written m1 at txt in
    let l2 : length m2 ≡ length m1 = length-written m1 at txt (omega arith) in
    let m3 = written m2 k (0 ∷ []) in
    let (kept, zero_at) = terminated_at m2 k (omega arith) in
    let l3 : length m3 ≡ b.size = length-written m2 k (0 ∷ []) (omega arith) ∙ l2 ∙ l1 ∙ sized in
    let e : take k m3 ≡ take at (contents b) ++ (txt ++ drop at (contents b)) =
      kept
      ∙ inserted_text m txt at b.len inside roomy
      ∙ ap (λ o. take at (take b.len (bytes o)) ++ (txt ++ drop at (take b.len (bytes o))))
          (sym block) in
    (
      record b { buf = some m3; len = k },
      insert_at_run b txt at block (le→leb at b.len inside)
          (slice_lem m at (b.len - at) (omega arith))
          (blit_lem m (at + n) (rest m txt at b.len inside roomy)
            (omega (arith, length-rest m txt at b.len inside roomy)))
          (blit_lem m1 at txt (omega arith)) (omega (arith, v.small))
          (blit_lem m2 k (0 ∷ []) (omega arith)),
      subst (λ xs. Holds xs (record b { buf = some m3; len = k })) e
          (edited b m3 k v l3 (omega arith) zero_at),
    )

-- On a valid buffer, with the offset inside the string and the memory granted.
pub insert_lem :
    (a : Alloc) (b : Buffer) (txt : List ℕ) (at : ℕ)
    → IsValid b
    → at ≤ b.len
    → b.len + length txt + 1 < 2 ^ 31
    → (ensure_size a b (b.len + length txt + 1)).0 ≡ Ret.ok
    → (b' : Buffer) × (insert a b txt at ≡ some (Ret.ok, b'))
      × Holds (take at (contents b) ++ (txt ++ drop at (contents b))) b'
unfolding insert
insert_lem a b txt at v inside small ok =
    let n = b.len + length txt + 1 in
    let sized = (ensure_size a b n).1 in
    let (valid, room, len_kept, kept) = ensured a b v n small ok in
    let (b', inserts, held) = insert_at_lem sized txt at valid (omega arith) (omega arith) in
    let e : size_t n ≡ n = omega arith in
    (
      b',
      ap (λ k. insert_at (ensure_size a b k).1 txt at) e ∙ inserts,
      subst (λ xs. Holds (take at xs ++ (txt ++ drop at xs)) b') kept held,
    )
