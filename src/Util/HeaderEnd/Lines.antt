-- ===== src/Util/HeaderEnd/Lines.antt =====
-- Where http2d_find_header_end of src/util.c stops in a header made of lines.
use spdy_test.Prelude.{
  ℕ, ◌+◌, ◌-◌, ◌<◌, ◌≤◌, List, [], ◌∷◌, ◌++◌, some, ◌≡◌, ◌≢◌, refl, sym, ap, ◌∙◌, arith, false,
  ◌==◌, length, take, append_assoc, length-append, take-take, take-append_ge,
}
use Prim.Native.Nat.{min}
use spdy_test.Buffer.{Buffer}
use spdy_test.Buffer.Mem.{bytes, slice_lem}
use spdy_test.Buffer.Space.{contents, IsValid}
use spdy_test.Buffer.Edits.{block_facts, length-contents}
use spdy_test.Codec.Output.{block_of_size}
use spdy_test.Util.HeaderEnd.{
  max_header_len, find_header_end, find_header_end_cstr, found, Place, outside, inside, scan,
  chr_cr, chr_lf,
}

-- A line has no CR and no LF, and it is not empty.
abbrev pub IsPlain : List ℕ → Type 0
IsPlain [] = Unit
IsPlain (c ∷ cs) = (c ≢ chr_cr) × (c ≢ chr_lf) × IsPlain cs

abbrev pub IsLine : List ℕ → Type 0
IsLine line = (0 < length line) × IsPlain line

abbrev pub AreLines : List (List ℕ) → Type 0
AreLines [] = Unit
AreLines (l ∷ ls) = IsLine l × AreLines ls

abbrev pub crlf : List ℕ
crlf = chr_cr ∷ chr_lf ∷ []

-- Every line with its CRLF.
abbrev pub header_text : List (List ℕ) → List ℕ
header_text [] = []
header_text (l ∷ ls) = l ++ (crlf ++ header_text ls)

scan_other :
    (c : ℕ) (cs : List ℕ) (p : ℕ) (place : Place)
    → c ≢ chr_cr
    → c ≢ chr_lf
    → scan (c ∷ cs) p place ≡ scan cs (p + 1) outside
unfolding scan
scan_other c cs p place h k = ground arith

-- The bytes of a line end the inner loop, or are passed over by the outer one.
scan_plain :
    (line rest : List ℕ) (p : ℕ) (place : Place)
    → 0 < length line
    → IsPlain line
    → scan (line ++ rest) p place ≡ scan rest (p + length line) outside
scan_plain [] rest p place pos h = absurd (omega arith)
scan_plain (c ∷ []) rest p place pos (a, b, h) = scan_other c rest p place a b
scan_plain (c ∷ d ∷ line) rest p place pos (a, b, h) =
    let e : p + 1 + length (d ∷ line) ≡ p + length (c ∷ d ∷ line) = omega arith in
    scan_other c ((d ∷ line) ++ rest) p place a b
    ∙ scan_plain (d ∷ line) rest (p + 1) outside (omega arith) h
    ∙ ap (λ k. scan rest k outside) e

scan-crlf :
    (rest : List ℕ) (p : ℕ) → scan (crlf ++ rest) p outside ≡ scan rest (p + 1 + 1) (inside p 1 1)
unfolding scan
scan-crlf rest p = refl

scan_blank :
    (rest : List ℕ) (p begin : ℕ)
    → begin ≤ p
    → scan (crlf ++ rest) p (inside begin 1 1) ≡ found begin (p + 2 - begin)
unfolding scan
scan_blank rest p begin le = ap (found begin) (omega arith)

-- Where the last line ends, from a place behind which stands a line.
scan_lines :
    (lines : List (List ℕ)) (rest : List ℕ) (p begin : ℕ)
    → AreLines lines
    → begin + 2 ≡ p
    → scan (header_text lines ++ (crlf ++ rest)) p (inside begin 1 1)
      ≡ found (begin + length (header_text lines)) 4
scan_lines [] rest p begin h e =
    scan_blank rest p begin (omega arith)
    ∙ (let e' : begin ≡ begin + 0 = omega arith in
        let f : p + 2 - begin ≡ 4 = omega arith in ap (found begin) f ∙ ap (λ k. found k 4) e')
scan_lines (l ∷ ls) rest p begin ((pos, plain), hs) e =
    let behind = header_text ls ++ (crlf ++ rest) in
    let split : header_text (l ∷ ls) ++ (crlf ++ rest) ≡ l ++ (crlf ++ behind) =
      append_assoc l (crlf ++ header_text ls) (crlf ++ rest) in
    let n : p + length l + length (header_text ls) ≡ begin + length (header_text (l ∷ ls)) =
      omega (arith, length-append l (crlf ++ header_text ls)) in
    ap (λ xs. scan xs p (inside begin 1 1)) split
    ∙ scan_plain l (crlf ++ behind) p (inside begin 1 1) pos plain
    ∙ scan-crlf behind (p + length l)
    ∙ scan_lines ls rest (p + length l + 1 + 1) (p + length l) hs (omega arith)
    ∙ ap (λ k. found k 4) n

scan_header :
    (l : List ℕ) (ls : List (List ℕ)) (rest : List ℕ)
    → AreLines (l ∷ ls)
    → scan (header_text (l ∷ ls) ++ (crlf ++ rest)) 0 outside
      ≡ found (length (header_text (l ∷ ls)) - 2) 4
scan_header l ls rest ((pos, plain), hs) =
    let behind = header_text ls ++ (crlf ++ rest) in
    let n : 0 + length l + length (header_text ls) ≡ length (header_text (l ∷ ls)) - 2 =
      omega (arith, length-append l (crlf ++ header_text ls)) in
    ap (λ xs. scan xs 0 outside) (append_assoc l (crlf ++ header_text ls) (crlf ++ rest))
    ∙ scan_plain l (crlf ++ behind) 0 outside pos plain
    ∙ scan-crlf behind (0 + length l)
    ∙ scan_lines ls rest (0 + length l + 1 + 1) (0 + length l) hs (omega arith)
    ∙ ap (λ k. found k 4) n

-- For a valid buffer that begins with one or more lines, each with its CRLF, and an empty line, all
-- of it within MAX_HEADER_LEN, http2d_find_header_end answers ret_ok with the end of the last line
-- and a separator of four bytes, whatever follows.
pub find_header_end_lem :
    (b : Buffer) (l : List ℕ) (ls : List (List ℕ)) (body : List ℕ)
    → IsValid b
    → contents b ≡ header_text (l ∷ ls) ++ (crlf ++ body)
    → AreLines (l ∷ ls)
    → length (header_text (l ∷ ls)) + 2 ≤ max_header_len
    → find_header_end b ≡ some (found (length (header_text (l ∷ ls)) - 2) 4)
unfolding find_header_end find_header_end_cstr
find_header_end_lem b l ls body v holds h fits =
    let header = header_text (l ∷ ls) ++ crlf in
    let n = min b.len max_header_len in
    let split : contents b ≡ header ++ body =
      holds ∙ sym (append_assoc (header_text (l ∷ ls)) crlf body) in
    let lh : length header ≡ length (header_text (l ∷ ls)) + 2 =
      omega (arith, length-append (header_text (l ∷ ls)) crlf) in
    let lb : b.len ≡ length header + length body =
      sym (length-contents b v) ∙ ap length split ∙ length-append header body in
    let full : (b.len == 0) ≡ false = ground (arith, lb, lh) in
    let (m, at) = block_of_size b v (omega (arith, v.room)) in
    let (sized, lt) = block_facts b m v at in
    let e : take n m ≡ header_text (l ∷ ls) ++ (crlf ++ take (n - length header) body) =
      sym (take-take n b.len m (omega arith))
      ∙ ap (λ o. take n (take b.len (bytes o))) (sym at)
      ∙ ap (take n) split
      ∙ take-append_ge n header body (omega arith)
      ∙ append_assoc (header_text (l ∷ ls)) crlf (take (n - length header) body) in
    rw at (
      rw full (
        rw (slice_lem m 0 n (omega arith)) (
          ap some
            (ap (λ xs. scan xs 0 outside) e ∙ scan_header l ls (take (n - length header) body) h))))
