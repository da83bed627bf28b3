-- ===== src/Buffer/Adds.antt =====
-- The operations of src/buffer.c that lengthen a buffer, against the string that it holds.
use spdy_test.Prelude.{
  ℕ, ◌+◌, ◌^◌, ◌≤◌, ◌<◌, List, [], ◌∷◌, ◌++◌, Option, none, some, ◌≡◌, refl, sym, ap, subst, ◌∙◌,
  ◌⊎◌, inl, inr, arith, length, take, drop, get_elem?, append_assoc, append-nil, length-append,
  length-take, length-drop, take_length-append, get_elem?-append,
}
use spdy_test.Ret.{Ret}
use spdy_test.Buffer.{Buffer, u32, store, add}
use spdy_test.Buffer.Mem.{Alloc, bytes, blit_lem}
use spdy_test.Buffer.Space.{contents, IsValid, IsGrown, make_room_lem}

-- The NUL that C strings end in; a buffer with no block needs none.
abbrev pub IsTerminated : Buffer → Type 0
IsTerminated b = (b.buf ≡ none) ⊎ (get_elem? (bytes b.buf) b.len ≡ some 0)

-- A valid buffer that holds `xs`, with a terminator behind it.
pub record Holds (xs : List ℕ) (b : Buffer) : Type 0 where
  pub valid : IsValid b
  pub holds : contents b ≡ xs
  pub terminated : IsTerminated b

-- What a memcpy of `txt` to `off` makes of a block.
abbrev pub written : List ℕ → ℕ → List ℕ → List ℕ
written m off txt = take off m ++ (txt ++ drop (off + length txt) m)

pub length-written :
    (m : List ℕ) (off : ℕ) (txt : List ℕ)
    → off + length txt ≤ length m
    → length (written m off txt) ≡ length m
length-written m off txt h = omega (
  arith,
  length-append (take off m) (txt ++ drop (off + length txt) m),
  length-append txt (drop (off + length txt) m),
  length-take off m,
  length-drop (off + length txt) m,
)

-- A terminator at `k` keeps the `k` bytes before it.
pub terminated_at :
    (m : List ℕ) (k : ℕ)
    → k < length m
    → (take k (written m k (0 ∷ [])) ≡ take k m) × (get_elem? (written m k (0 ∷ [])) k ≡ some 0)
terminated_at m k h =
    let e : length (take k m) ≡ k = omega (arith, length-take k m) in
    (
      ap (λ i. take i (written m k (0 ∷ []))) (sym e) ∙ take_length-append (take k m) _,
      ap (get_elem? (written m k (0 ∷ []))) (sym e)
          ∙ get_elem?-append (take k m) 0 (drop (k + 1) m),
    )

pub store_lem :
    (b : Buffer) (m : List ℕ) (off : ℕ) (txt : List ℕ) (n : ℕ)
    → b.buf ≡ some m
    → off + length txt ≤ length m
    → length m ≡ b.size
    → b.len + n < b.size
    → b.size < 2 ^ 31
    → (b' : Buffer) × (store b off txt n ≡ some b')
      × Holds (take (b.len + n) (written m off txt)) b'
store_lem b m off txt n at fits sized room small =
    let k = b.len + n in
    let m' = written m off txt in
    let same : length m' ≡ length m = length-written m off txt fits in
    let e : u32 (b.len + n) ≡ k = omega arith in
    let (kept, zero_at) = terminated_at m' k (omega arith) in
    (
      record b { buf = some (written m' k (0 ∷ [])); len = k },
      rw (at, blit_lem m off txt fits, e, blit_lem m' k (0 ∷ []) (omega arith)),
      record {
        valid = record {
          sized = length-written m' k (0 ∷ []) (omega arith) ∙ same ∙ sized;
          room = inl room;
          small = small;
        };
        holds = kept;
        terminated = inr zero_at;
      },
    )

-- Bytes written at `k` follow the first `k` bytes.
pub take-written :
    (m : List ℕ) (k : ℕ) (txt : List ℕ)
    → k ≤ length m
    → take (k + length txt) (written m k txt) ≡ take k m ++ txt
take-written m k txt h =
    let rest = drop (k + length txt) m in
    let e : length (take k m ++ txt) ≡ k + length txt =
      omega (arith, length-append (take k m) txt, length-take k m) in
    ap (λ i. take i (written m k txt)) (sym e)
    ∙ ap (take (length (take k m ++ txt))) (sym (append_assoc (take k m) txt rest))
    ∙ take_length-append (take k m ++ txt) rest

-- Storing behind the string that a grown buffer holds appends.
pub store_append :
    (b b1 : Buffer) (txt : List ℕ)
    → IsValid b
    → IsGrown b (length txt) b1
    → (b2 : Buffer) × (store b1 b1.len txt (length txt) ≡ some b2) × Holds (contents b ++ txt) b2
store_append b b1 txt v g =
    let n = length txt in
    let e : length g.block ≡ b1.size = g.sized in
    let (b2, stores, h) =
      store_lem b1 g.block b1.len txt n g.at_block (omega arith) e (omega arith) g.small in
    let same : take (b1.len + n) (written g.block b1.len txt) ≡ contents b ++ txt =
      take-written g.block b1.len txt (omega arith)
      ∙ ap (λ k. take k g.block ++ txt) g.len_kept
      ∙ ap (λ xs. xs ++ txt) g.kept in
    (b2, stores, subst (λ xs. Holds xs b2) same h)

-- Adding fails for want of memory and changes nothing, or appends the text.
abbrev pub Appends : Buffer → List ℕ → Option (Ret × Buffer) → Type 0
Appends b txt r =
    (r ≡ some (Ret.nomem, b))
    ⊎ ((b' : Buffer) × (r ≡ some (Ret.ok, b')) × Holds (contents b ++ txt) b')

module _ (a : Alloc) (b : Buffer) (v : IsValid b) (t : IsTerminated b) where
  -- On a valid, terminated buffer, http2d_buffer_add of a text whose length keeps the sum of both
  -- lengths and 17 below 2 ^ 31 either answers ret_nomem and leaves the buffer alone, or answers
  -- ret_ok with a valid, terminated buffer that holds the old string followed by the text.
  pub add-Appends : (txt : List ℕ) → b.len + length txt + 17 < 2 ^ 31 → Appends b txt (add a b txt)
  unfolding add
  add-Appends [] h =
      inr (b, refl, record { valid = v; holds = sym (append-nil (contents b)); terminated = t })
  add-Appends (x ∷ txt) h = elim (make_room_lem a b v (length (x ∷ txt)) h) [
    | inl fails ↦ inl (rw (fails, add) (rw fails))
    | inr (b1, grows, g) ↦
        let (b2, stores, holds) = store_append b b1 (x ∷ txt) v g in
        inr (b2, rw (grows, add) (rw (grows, stores)), holds)
  ]
