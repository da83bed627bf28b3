-- ===== src/Buffer/Replace.antt =====
-- http2d_buffer_replace_string and http2d_buffer_substitute_string of src/buffer.c.
pub mod Pieces
pub mod Replaced
use spdy_test.Prelude.{
  ℕ, zero, suc, ◌+◌, ◌-◌, ◌*◌, ◌^◌, List, [], ◌∷◌, ◌++◌, Option, none, some, Bool, true, false,
  ◌||◌, ltb, leb, ◌==◌, if◌then◌else◌, ◌>>=◌, length,
}
use spdy_test.Ret.{Ret}
use spdy_test.CString.{begins, in_first}
use spdy_test.Buffer.{Buffer, u32, size_t, ensure_size}
use spdy_test.Buffer.Edit.{cleaned}
use spdy_test.Buffer.Mem.{Alloc, bytes, realloc, slice, blit}

-- The string at the front of a block, up to its terminator: what `strstr` and `strlen` read.
unfoldable pub c_string : List ℕ → Option (List ℕ)
c_string [] = none
c_string (c ∷ m) =
    let rest = c_string m in
    if c == 0 then some [] else elim rest [ none ↦ none | some s ↦ some (c ∷ s) ]

-- The loops over the occurrences: what stands in front of each, and what stands behind the last.
-- The second argument counts the bytes of an occurrence that are still to be passed.
unfoldable pub cut : List ℕ → ℕ → List ℕ → List (List ℕ)
cut substring n [] = [] ∷ []
cut substring (suc n) (c ∷ s) = cut substring n s
cut substring zero (c ∷ s) =
    let behind = cut substring (length substring - 1) s in
    let further = cut substring zero s in
    if begins substring (c ∷ s) then [] ∷ behind else in_first c further

-- The second of the loops: every piece, with the replacement between them.
unfoldable pub join : List ℕ → List (List ℕ) → List ℕ
join replacement [] = []
join replacement (p ∷ []) = p
join replacement (p ∷ q ∷ ps) = p ++ (replacement ++ join replacement (q ∷ ps))

-- `result_length`, an `int`: the first of the loops adds the difference at each occurrence.
abbrev pub result_length : Buffer → List ℕ → List ℕ → ℕ → ℕ
result_length b substring replacement n =
    u32 (b.len + n * (2 ^ 32 + length replacement - length substring))

-- Where an `int` is less than 1.
abbrev pub below_one : ℕ → Bool
below_one n = n == 0 || leb (2 ^ 31) n

abbrev pub is_empty : List ℕ → Bool
is_empty [] = true
is_empty (c ∷ s) = false

-- "Take the new memory chunk", and what follows it.
unfoldable pub build : Alloc → Buffer → List ℕ → ℕ → Option (Ret × Buffer)
build a b text len' = elim (realloc a none (len' + 1)) [
  | none ↦ some (Ret.nomem, b)
  | some result ↦
      blit result 0 (text ++ (0 ∷ []))
      >>= (λ result'. some (Ret.ok, record { buf = some result'; size = len' + 1; len = len' }))
]

-- A NULL replacement of length 0 is the empty one.
unfoldable pub replace_string : Alloc → Buffer → List ℕ → List ℕ → Option (Ret × Buffer)
unfolding c_string cut join build
replace_string a b substring replacement = elim b.buf [
  | none ↦ some (Ret.deny, b)
  | some m ↦ if is_empty substring then some (Ret.deny, b) else do
    text ← c_string m
    let pieces = cut substring 0 text
    let n = length pieces - 1
    let len' = result_length b substring replacement n
    let emptied = cleaned b
    let built = build a b (join replacement pieces) len'
    if n == 0 then some (Ret.ok, b) else if below_one len' then emptied else built
]

-- What is written behind the last occurrence goes up to the end of the source, by its length.
unfoldable pub substitute_string : Alloc → Buffer → Buffer → List ℕ → List ℕ → Option (Ret × Buffer)
unfolding c_string cut join ensure_size
substitute_string a bufsrc bufdst substring replacement = elim bufsrc.buf [
  | none ↦ some (Ret.deny, bufdst)
  | some src ↦ elim bufdst.buf [
    | none ↦ some (Ret.deny, bufdst)
    | some dst ↦ if is_empty substring then some (Ret.deny, bufdst) else do
      dst' ← blit dst 0 (0 ∷ [])
      text ← c_string src
      let reset : Buffer = record { buf = some dst'; size = bufdst.size; len = 0 }
      let pieces = cut substring 0 text
      let n = length pieces - 1
      let len' = result_length bufsrc substring replacement n
      let grown = (ensure_size a reset (len' + 2)).1
      let built = do
        past ←
            (if leb (length text) bufsrc.len
              then slice src (length text) (bufsrc.len - length text)
              else none)
        r ← blit (bytes grown.buf) 0 (join replacement pieces ++ (past ++ (0 ∷ [])))
        some (Ret.ok, record grown { buf = some r; len = len' })
      let empty = some (Ret.ok, reset)
      if n == 0 then some (Ret.not_found, reset) else if below_one len' then empty else built
  ]
]
