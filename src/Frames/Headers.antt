-- ===== src/Frames/Headers.antt =====
-- What read_name_value of src/connection-spdy.c stores of a header block.
use spdy_test.Prelude.{
  ℕ, zero, suc, ◌+◌, ◌^◌, ◌<◌, ◌≤◌, List, [], ◌∷◌, ◌++◌, some, ◌≡◌, refl, sym, ap, ◌∙◌, arith,
  le→leb, length, take, drop, append_assoc, length-append, drop_length-append, take_length-append,
}
use spdy_test.Ret.{Ret}
use spdy_test.Header.{Header, add_header}
use spdy_test.Header.Fields.{add_header-add_header}
use spdy_test.Spdy.{read_uint32}
use spdy_test.NameValue.{htonl, entry, entries}
use spdy_test.NameValue.RoundTrip.{read_uint32-append, read_uint32-htonl}
use spdy_test.Zlib.{Zlib, spdy_zlib_inflate}
use spdy_test.Frames.{returns, span, read_entry, read_entries, rounds, read_name_value}

span_lem :
    (pre s rest : List ℕ) (p n : ℕ)
    → length pre ≡ p
    → length s ≡ n
    → span (pre ++ (s ++ rest)) p n ≡ returns s
unfolding span
span_lem pre s rest p n e l =
    let block = pre ++ (s ++ rest) in
    let fits : p + n ≤ length block =
      omega (arith, length-append pre (s ++ rest), length-append s rest) in
    let d : drop p block ≡ s ++ rest =
      ap (λ k. drop k block) (sym e) ∙ drop_length-append pre (s ++ rest) in
    rw (le→leb _ _ fits) (
      ap (λ xs. returns (take n xs)) d
      ∙ ap (λ k. returns (take k (s ++ rest))) (sym l)
      ∙ ap returns (take_length-append s rest))

-- An entry behind `pre` is read and stored.
pub read_entry-entry :
    (pre key val rest : List ℕ) (header : Header)
    → length key < 2 ^ 31
    → length val < 2 ^ 31
    → read_entry (pre ++ (entry key val ++ rest)) (length pre) header
      ≡ returns (add_header header key val)
unfolding read_entry
read_entry-entry pre key val rest header h k =
    let p = length pre in
    let lk = length key in
    let lv = length val in
    let tmp = pre ++ (entry key val ++ rest) in
    let pre1 = pre ++ htonl lk in
    let pre2 = pre ++ (htonl lk ++ key) in
    let pre3 = pre ++ (htonl lk ++ (key ++ htonl lv)) in
    let e : tmp ≡ pre ++ (htonl lk ++ (key ++ (htonl lv ++ (val ++ rest)))) = simp append_assoc in
    let e1 : tmp ≡ pre1 ++ (key ++ (htonl lv ++ (val ++ rest))) = simp append_assoc in
    let e2 : tmp ≡ pre2 ++ (htonl lv ++ (val ++ rest)) = simp append_assoc in
    let e3 : tmp ≡ pre3 ++ (val ++ rest) = simp append_assoc in
    let l1 : length pre1 ≡ p + 4 = omega (arith, length-append pre (htonl lk)) in
    let l2 : length pre2 ≡ p + 4 + lk =
      omega (arith, length-append pre (htonl lk ++ key), length-append (htonl lk) key) in
    let l3 : length pre3 ≡ p + 4 + lk + 4 = omega (
      arith,
      length-append pre (htonl lk ++ (key ++ htonl lv)),
      length-append (htonl lk) (key ++ htonl lv),
      length-append key (htonl lv),
    ) in
    let r1 : read_uint32 tmp p ≡ some lk =
      ap (λ xs. read_uint32 xs p) e
      ∙ read_uint32-append pre _
      ∙ read_uint32-htonl lk _ (omega arith) in
    let r2 : read_uint32 tmp (p + 4 + lk) ≡ some lv =
      ap (read_uint32 tmp) (sym l2)
      ∙ ap (λ xs. read_uint32 xs (length pre2)) e2
      ∙ read_uint32-append pre2 _
      ∙ read_uint32-htonl lv _ (omega arith) in
    let s1 : span tmp (p + 4) lk ≡ returns key =
      ap (λ xs. span xs (p + 4) lk) e1 ∙ span_lem pre1 key _ (p + 4) lk l1 refl in
    let s2 : span tmp (p + 4 + lk + 4) lv ≡ returns val =
      ap (λ xs. span xs (p + 4 + lk + 4) lv) e3
      ∙ span_lem pre3 val rest (p + 4 + lk + 4) lv l3 refl in
    rw r1 (rw r2 (rw s1 (rw s2)))

-- The loop stores the entry at `p` in every round, and storing it again changes nothing.
read_entries-entry :
    (n : ℕ) (pre key val rest : List ℕ) (header : Header)
    → length key < 2 ^ 31
    → length val < 2 ^ 31
    → read_entries (suc n) (pre ++ (entry key val ++ rest)) (length pre) header
      ≡ returns (add_header header key val)
unfolding read_entries
read_entries-entry zero pre key val rest header h k =
    rw (read_entry-entry pre key val rest header h k)
read_entries-entry (suc n) pre key val rest header h k =
    rw (read_entry-entry pre key val rest header h k) (
      read_entries-entry n pre key val rest (add_header header key val) h k
      ∙ ap returns (add_header-add_header header key val val))

-- The block's first pair is the one that is stored.
pub name_value_first_lem :
    (zlib : Zlib) (fuel : ℕ) (zst : zlib.Stream) {zst' : zlib.Stream} (buf : List ℕ) (pos : ℕ)
    (header : Header) (key val : List ℕ) (pairs : List (List ℕ × List ℕ)) (rest : List ℕ)
    → length key < 2 ^ 31
    → length val < 2 ^ 31
    → length pairs + 1 < 2 ^ 31
    → spdy_zlib_inflate zlib fuel zst (drop pos buf) []
      ≡ some (Ret.ok, zst', htonl (length pairs + 1) ++ (entries ((key, val) ∷ pairs) ++ rest))
    → read_name_value zlib fuel zst buf pos header
      ≡ returns (Ret.ok, zst', add_header header key val)
unfolding read_name_value entries
name_value_first_lem zlib fuel zst {zst'} buf pos header key val pairs rest h k l unpacked =
    let n = length pairs in
    let tail = entry key val ++ (entries pairs ++ rest) in
    let tmp = htonl (n + 1) ++ ((entry key val ++ entries pairs) ++ rest) in
    let e : tmp ≡ htonl (n + 1) ++ tail =
      ap (λ xs. htonl (n + 1) ++ xs) (append_assoc (entry key val) (entries pairs) rest) in
    let num : read_uint32 tmp 0 ≡ some (n + 1) = read_uint32-htonl (n + 1) _ (omega arith) in
    let few : rounds (n + 1) ≡ suc n = ground arith in
    let all : read_entries (rounds (n + 1)) tmp 4 header ≡ returns (add_header header key val) =
      ap (λ r. read_entries r tmp 4 header) few
      ∙ ap (λ xs. read_entries (suc n) xs 4 header) e
      ∙ read_entries-entry n (htonl (n + 1)) key val (entries pairs ++ rest) header h k in
    rw unpacked (rw num (rw all))
