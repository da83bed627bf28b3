-- ===== src/NameValue/RoundTrip.antt =====
-- Reading blocks that were written pair by pair.
use spdy_test.Prelude.{
  ℕ, ◌+◌, ◌^◌, ◌<◌, ◌≤◌, List, [], ◌∷◌, ◌++◌, some, ◌≡◌, refl, sym, ap, ◌∙◌, arith, le→leb, length,
  take, drop, get_elem?-append_add, get_elem?-append_zero, length-append, append_assoc,
  drop_length-append, take_length-append,
}
use spdy_test.Spdy.{read_uint32}
use spdy_test.NameValue.{htonl, entry, entries, read_string, read_pairs, read_block}

pub read_uint32-append : (pre xs : List ℕ) → read_uint32 (pre ++ xs) (length pre) ≡ read_uint32 xs 0
unfolding read_uint32
read_uint32-append pre xs = simp (get_elem?-append_add, get_elem?-append_zero)

-- ntohl undoes htonl.
pub read_uint32-htonl : (n : ℕ) (xs : List ℕ) → n < 2 ^ 32 → read_uint32 (htonl n ++ xs) 0 ≡ some n
unfolding read_uint32
read_uint32-htonl n xs h = ground arith

pub read_string-append :
    (pre s rest : List ℕ)
    → length s < 2 ^ 32
    → read_string (pre ++ (htonl (length s) ++ (s ++ rest))) (length pre)
      ≡ some (s, length pre + 4 + length s)
unfolding read_string
read_string-append pre s rest h =
    let n = length s in
    let tail = s ++ rest in
    let block = pre ++ (htonl n ++ tail) in
    let p : length (pre ++ htonl n) ≡ length pre + 4 = omega (arith, length-append pre (htonl n)) in
    let l : length pre + 4 + n ≤ length block =
      omega (arith, length-append pre (htonl n ++ tail), length-append s rest) in
    let d : drop (length pre + 4) block ≡ tail =
      ap (λ xs. drop (length pre + 4) xs) (sym (append_assoc pre (htonl n) tail))
      ∙ ap (λ k. drop k ((pre ++ htonl n) ++ tail)) (sym p)
      ∙ drop_length-append (pre ++ htonl n) tail in
    rw (read_uint32-append pre (htonl n ++ tail) ∙ read_uint32-htonl n tail h, le→leb _ _ l)
      (ap (λ xs. some (xs, length pre + 4 + n)) (ap (take n) d ∙ take_length-append s rest))

-- Every name and value has a length that four bytes can hold.
abbrev pub IsShort : List (List ℕ × List ℕ) → Type 0
IsShort [] = Unit
IsShort ((key, val) ∷ pairs) = (length key < 2 ^ 32) × (length val < 2 ^ 32) × IsShort pairs

pub read_pairs-entries :
    (pre : List ℕ) (pairs : List (List ℕ × List ℕ)) (rest : List ℕ)
    → IsShort pairs
    → read_pairs (length pairs) (pre ++ (entries pairs ++ rest)) (length pre) ≡ some pairs
unfolding read_pairs entries
read_pairs-entries pre [] rest h = refl
read_pairs-entries pre ((key, val) ∷ pairs) rest h =
    let k = length key in
    let tail = entries pairs ++ rest in
    let block = pre ++ ((entry key val ++ entries pairs) ++ rest) in
    let pre1 = pre ++ (htonl k ++ key) in
    let pre2 = pre1 ++ (htonl (length val) ++ val) in
    let p1 : length pre1 ≡ length pre + 4 + k =
      omega (arith, length-append pre (htonl k ++ key), length-append (htonl k) key) in
    let p2 : length pre2 ≡ length pre + 4 + k + 4 + length val = omega (
      arith,
      length-append pre1 (htonl (length val) ++ val),
      length-append (htonl (length val)) val,
    ) in
    let e1 : block ≡ pre ++ (htonl k ++ (key ++ (htonl (length val) ++ (val ++ tail)))) =
      simp append_assoc in
    let e2 : block ≡ pre1 ++ (htonl (length val) ++ (val ++ tail)) = simp append_assoc in
    let e3 : block ≡ pre2 ++ tail = simp append_assoc in
    let r1 : read_string block (length pre) ≡ some (key, length pre + 4 + k) =
      ap (λ xs. read_string xs (length pre)) e1 ∙ read_string-append pre key _ h.0 in
    let r2 : read_string block (length pre + 4 + k)
        ≡ some (val, length pre + 4 + k + 4 + length val) =
      ap (read_string block) (sym p1)
      ∙ ap (λ xs. read_string xs (length pre1)) e2
      ∙ read_string-append pre1 val tail h.1
      ∙ ap (λ n. some (val, n + 4 + length val)) p1 in
    let r3 : read_pairs (length pairs) block (length pre + 4 + k + 4 + length val) ≡ some pairs =
      ap (read_pairs (length pairs) block) (sym p2)
      ∙ ap (λ xs. read_pairs (length pairs) xs (length pre2)) e3
      ∙ read_pairs-entries pre2 pairs rest h.2 in
    rw r1 (rw r2 (rw r3))

-- The reference reader finds in a block, whatever follows it, the pairs that were written to it
-- behind their number, where the number and every length fit into four bytes.
pub read_block-entries :
    (pairs : List (List ℕ × List ℕ)) (rest : List ℕ)
    → length pairs < 2 ^ 32
    → IsShort pairs
    → read_block (htonl (length pairs) ++ (entries pairs ++ rest)) ≡ some pairs
unfolding read_block
read_block-entries pairs rest l h =
    rw (read_uint32-htonl (length pairs) (entries pairs ++ rest) l)
      (read_pairs-entries (htonl (length pairs)) pairs rest h)
