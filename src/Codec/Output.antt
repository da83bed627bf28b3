-- ===== src/Codec/Output.antt =====
-- The ways in which the encoders and decoders of src/buffer.c write to a buffer, against the string
-- that the buffer holds.
use spdy_test.Prelude.{
  ℕ, ◌+◌, ◌-◌, ◌≤◌, ◌<◌, List, [], ◌∷◌, ◌++◌, some, ◌≡◌, sym, ap, subst, ◌∙◌, inl, inr, arith, true,
  length, take, drop, Option-cases, length-take, take-take, drop-append_ge, drop-drop,
  length-append, append_assoc, take_length-append,
}
use spdy_test.Buffer.{Buffer}
use spdy_test.Buffer.Mem.{bytes, slice_lem, blit, blit_lem}
use spdy_test.Buffer.Space.{contents, IsValid, IsGrown-in_place}
use spdy_test.Buffer.Adds.{
  Holds, written, length-written, take-written, store_append, terminated_at,
}
use spdy_test.Buffer.Edits.{block_facts, null_facts, edited}
use spdy_test.Codec.{rewrite, extend, string_of}

module _ (b : Buffer) (v : IsValid b) where
  pub string_of_lem : string_of b ≡ some (contents b)
  string_of_lem = slice_lem (bytes b.buf) 0 b.len (omega (arith, v.sized, v.room))

  pub rewrite_lem :
      {m : List ℕ} (txt : List ℕ) (k : ℕ)
      → b.buf ≡ some m
      → length txt ≤ length m
      → k < length m
      → (b' : Buffer) × (rewrite b txt k ≡ some b') × Holds (take k (txt ++ drop (length txt) m)) b'
  rewrite_lem {m} txt k at fits short =
      let (sized, lt) = block_facts b m v at in
      let m' = written m 0 txt in
      let same : length m' ≡ length m = length-written m 0 txt (omega arith) in
      let (kept, zero_at) = terminated_at m' k (omega arith) in
      let m'' = written m' k (0 ∷ []) in
      let l : length m'' ≡ b.size = length-written m' k (0 ∷ []) (omega arith) ∙ same ∙ sized in
      (
        record b { buf = some m''; len = k },
        rw (at, blit_lem m 0 txt (omega arith), blit_lem m' k (0 ∷ []) (omega arith)),
        subst (λ xs. Holds xs (record b { buf = some m''; len = k }))
            (kept ∙ ap (λ i. take k (txt ++ drop i m)) (omega arith))
            (edited b m'' k v l (omega arith) zero_at),
      )

  -- Where all of `txt` is kept, that is what the buffer holds.
  pub rewrite_whole :
      {m : List ℕ} (txt : List ℕ)
      → b.buf ≡ some m
      → length txt < length m
      → (b' : Buffer) × (rewrite b txt (length txt) ≡ some b') × Holds txt b'
  rewrite_whole {m} txt at fits =
      let (b', e, h) = rewrite_lem txt (length txt) at (omega arith) fits in
      (b', e, subst (λ xs. Holds xs b') (take_length-append txt (drop (length txt) m)) h)

  pub extend_lem :
      (txt : List ℕ)
      → b.len + length txt < b.size
      → (b' : Buffer) × (extend b txt ≡ some b') × Holds (contents b ++ txt) b'
  extend_lem txt fits =
      store_append b b txt v
        (IsGrown-in_place (record { grant = λ n. true; fill = λ i. 0 }) b v (length txt) fits)

-- Only a buffer with a block is written to, and it keeps one.
pub extend-block :
    (b : Buffer) (txt : List ℕ) {b' : Buffer}
    → extend b txt ≡ some b'
    → (m : List ℕ) × (b'.buf ≡ some m)
extend-block b txt {b'} h = elim (Option-cases b'.buf) [
  | inl null ↦ absurd (unfold blit in ground arith)
  | inr found ↦ found
]

pub rewrite-block :
    (b : Buffer) (txt : List ℕ) (k : ℕ) {b' : Buffer}
    → rewrite b txt k ≡ some b'
    → (m : List ℕ) × (b'.buf ≡ some m)
rewrite-block b txt k {b'} h = elim (Option-cases b'.buf) [
  | inl null ↦ absurd (unfold blit in ground arith)
  | inr found ↦ found
]

pub block_of_size : (b : Buffer) → IsValid b → 0 < b.size → (m : List ℕ) × (b.buf ≡ some m)
block_of_size b v h = elim (Option-cases b.buf) [
  | inl null ↦ absurd (omega (arith, null_facts b v null))
  | inr found ↦ found
]

-- All of `txt`, where there is room for it and the terminator.
pub rewrite_sized :
    (b : Buffer) (txt : List ℕ)
    → IsValid b
    → length txt < b.size
    → (b' : Buffer) × (rewrite b txt (length txt) ≡ some b')
      × Holds txt b'
      × ((m : List ℕ) × (b'.buf ≡ some m))
rewrite_sized b txt v fits =
    let (m, at) = block_of_size b v (omega arith) in
    let (sized, lt) = block_facts b m v at in
    let (b', writes, held) = rewrite_whole b v txt at (omega arith) in
    (b', writes, held, rewrite-block b txt (length txt) writes)

-- The two writes of `txt` at `k` inside the string: its bytes, and the terminator behind them.
pub overwritten :
    (b : Buffer) (m : List ℕ) (k : ℕ) (txt : List ℕ)
    → IsValid b
    → b.buf ≡ some m
    → k ≤ b.len
    → k + length txt < b.size
    → (m' : List ℕ) × (m'' : List ℕ) × (blit m k txt ≡ some m')
      × (blit m' (k + length txt) (0 ∷ []) ≡ some m'')
      × Holds (take k (contents b) ++ txt) (record b { buf = some m''; len = k + length txt })
overwritten b m k txt v at inside fits =
    let (sized, lt) = block_facts b m v at in
    let end = k + length txt in
    let m' = written m k txt in
    let same : length m' ≡ length m = length-written m k txt (omega arith) in
    let (kept, zero_at) = terminated_at m' end (omega arith) in
    let m'' = written m' end (0 ∷ []) in
    let l : length m'' ≡ b.size = length-written m' end (0 ∷ []) (omega arith) ∙ same ∙ sized in
    let e : take end m'' ≡ take k (contents b) ++ txt =
      kept
      ∙ take-written m k txt (omega arith)
      ∙ ap (λ xs. xs ++ txt)
          (sym (take-take k b.len m inside) ∙ ap (λ o. take k (take b.len (bytes o))) (sym at)) in
    (
      m',
      m'',
      blit_lem m k txt (omega arith),
      blit_lem m' end (0 ∷ []) (omega arith),
      subst (λ xs. Holds xs (record b { buf = some m''; len = end })) e
          (edited b m'' end v l fits zero_at),
    )

-- At the end of the string they append.
pub appended :
    (b : Buffer) (m txt : List ℕ)
    → IsValid b
    → b.buf ≡ some m
    → b.len + length txt < b.size
    → (m' : List ℕ) × (m'' : List ℕ) × (blit m b.len txt ≡ some m')
      × (blit m' (b.len + length txt) (0 ∷ []) ≡ some m'')
      × Holds (contents b ++ txt) (record b { buf = some m''; len = b.len + length txt })
appended b m txt v at fits =
    let (m', m'', writes, ends, held) = overwritten b m b.len txt v at (omega arith) fits in
    let whole : take b.len (contents b) ≡ contents b =
      take-take b.len b.len (bytes b.buf) (omega arith) in
    (
      m',
      m'',
      writes,
      ends,
      subst (λ xs. Holds (xs ++ txt) (record b { buf = some m''; len = b.len + length txt })) whole
          held,
    )

-- A second write right behind the first is one write of both.
pub written-written :
    (m : List ℕ) (k : ℕ) (xs ys : List ℕ)
    → k + length xs + length ys ≤ length m
    → written (written m k xs) (k + length xs) ys ≡ written m k (xs ++ ys)
written-written m k xs ys h =
    let n = length xs in
    let front : length (take k m) ≡ k = omega (arith, length-take k m) in
    let behind = drop (k + n) m in
    let e : drop (k + n + length ys) (written m k xs) ≡ drop (k + length (xs ++ ys)) m =
      drop-append_ge (k + n + length ys) (take k m) (xs ++ behind) (omega arith)
      ∙ drop-append_ge (k + n + length ys - length (take k m)) xs behind (omega arith)
      ∙ drop-drop (k + n + length ys - length (take k m) - n) (k + n) m
      ∙ ap (λ i. drop i m) (omega (arith, length-append xs ys)) in
    let e' : take (k + n) (written m k xs) ≡ take k m ++ xs = take-written m k xs (omega arith) in
    ap (λ us. us ++ (ys ++ drop (k + n + length ys) (written m k xs))) e'
    ∙ ap (λ us. (take k m ++ xs) ++ (ys ++ us)) e
    ∙ append_assoc (take k m) xs (ys ++ drop (k + length (xs ++ ys)) m)
    ∙ ap (λ us. take k m ++ us) (sym (append_assoc xs ys (drop (k + length (xs ++ ys)) m)))
