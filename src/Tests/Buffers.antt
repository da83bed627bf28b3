-- ===== src/Tests/Buffers.antt =====
-- The theorems about src/buffer.c at concrete buffers.
use spdy_test.Prelude.{ℕ, List, [], ◌∷◌, some, true, ◌≡◌, refl, ◌⊎◌, inl, inr, arith, replicate}
use spdy_test.Ret.{Ret}
use spdy_test.Buffer.{Buffer, init, add, add_char, add_char_n, add_buffer, prepend}
use spdy_test.CString.{begins}
use spdy_test.Buffer.Mem.{Alloc, realloc, blit}
use spdy_test.Buffer.Replace.{cut, join, replace_string}
use spdy_test.Buffer.Replace.Pieces.{AreFree}
use spdy_test.Buffer.Replace.Replaced.{Built, replace_string_lem}
use spdy_test.Buffer.Space.{IsValid}
use spdy_test.Buffer.Adds.{IsTerminated, Holds, Appends}
use spdy_test.Buffer.Prepend.{adds_lem}
use spdy_test.Buffer.Edit.{move_to_begin, drop_ending, remove_chunk, swap_chars}
use spdy_test.Buffer.InPlace.{IsSwapped, edits_lem}
use spdy_test.Buffer.Slice.{pos, negsuc, add_buffer_slice}
use spdy_test.Buffer.Slices.{add_buffer_slice_lem}

-- An allocator that meets every request, with arbitrary bytes.
abbrev generous : Alloc
generous = record { grant = λ n. true; fill = λ i. 170 }

-- "abcd" in a block of six bytes.
abbrev abcd : Buffer
abcd = record { buf = some (97 ∷ 98 ∷ 99 ∷ 100 ∷ 0 ∷ 7 ∷ []); size = 6; len = 4 }

abcd-IsValid : IsValid abcd
abcd-IsValid = omega arith

abcd-IsTerminated : IsTerminated abcd
abcd-IsTerminated = inr refl

init-IsValid : IsValid init
init-IsValid = record { sized = refl; room = inr (refl, refl, refl); small = omega arith }

adds_lem_example :
    Appends init (101 ∷ 102 ∷ []) (add generous init (101 ∷ 102 ∷ []))
    × ((prepend generous init (101 ∷ 102 ∷ []) ≡ some (Ret.nomem, init))
        ⊎ ((b' : Buffer) × (prepend generous init (101 ∷ 102 ∷ []) ≡ some (Ret.ok, b'))
            × Holds (101 ∷ 102 ∷ []) b'))
    × Appends init (97 ∷ 98 ∷ 99 ∷ 100 ∷ []) (add_buffer generous init abcd)
    × Appends init (32 ∷ []) (add_char generous init 32)
    × Appends init (replicate 3 32) (add_char_n generous init 32 3)
adds_lem_example =
    adds_lem generous init init-IsValid (inl refl) (101 ∷ 102 ∷ []) abcd 32 3 abcd-IsValid
      (omega arith) (omega arith) (omega arith) (omega arith)

edits_lem_example :
    ((b' : Buffer) × (move_to_begin abcd 3 ≡ some (Ret.ok, b')) × Holds (100 ∷ []) b')
    × ((b' : Buffer) × (drop_ending abcd 3 ≡ some (Ret.ok, b')) × Holds (97 ∷ []) b')
    × ((b' : Buffer) × (remove_chunk abcd 1 2 ≡ some (Ret.ok, b')) × Holds (97 ∷ 100 ∷ []) b')
    × ((b' : Buffer) × (new : List ℕ) × (swap_chars abcd 98 120 ≡ some (Ret.ok, b'))
        × IsSwapped 98 120 (97 ∷ 98 ∷ 99 ∷ 100 ∷ []) new
        × Holds new b')
edits_lem_example = edits_lem abcd abcd-IsValid abcd-IsTerminated 3 3 1 2 98 120 (omega arith)

add_buffer_slice_lem_example :
    Appends init (98 ∷ 99 ∷ []) (add_buffer_slice generous init abcd (pos 1) (pos 3))
    × (add_buffer_slice generous init abcd (pos 0) (negsuc 0) ≡ some (Ret.ok, init))
    × (add_buffer_slice generous init abcd (negsuc 1) (pos 4) ≡ some (Ret.ok, init))
add_buffer_slice_lem_example =
    add_buffer_slice_lem generous init abcd 1 3 0 1 (pos 0) (pos 4) init-IsValid (inl refl)
      abcd-IsValid (omega arith) (omega arith) (omega arith) (omega arith)

-- "bc" is replaced by "x" in "abcd".
replaced :
    replace_string generous abcd (98 ∷ 99 ∷ []) (120 ∷ [])
    ≡ some (Ret.ok, record { buf = some (97 ∷ 120 ∷ 100 ∷ 0 ∷ []); size = 4; len = 3 })
unfolding replace_string begins realloc blit
replaced = refl

replace_string_lem_example :
    (join (98 ∷ 99 ∷ []) (cut (98 ∷ 99 ∷ []) 0 (97 ∷ 98 ∷ 99 ∷ 100 ∷ [])) ≡ 97 ∷ 98 ∷ 99 ∷ 100 ∷ [])
    × AreFree (98 ∷ 99 ∷ []) (cut (98 ∷ 99 ∷ []) 0 (97 ∷ 98 ∷ 99 ∷ 100 ∷ []))
    × Built
        (join (120 ∷ []) (cut (98 ∷ 99 ∷ []) 0 (97 ∷ 98 ∷ 99 ∷ 100 ∷ [])))
        abcd
        (replace_string generous abcd (98 ∷ 99 ∷ []) (120 ∷ []))
unfolding cut join begins
replace_string_lem_example =
    replace_string_lem generous abcd (97 ∷ 98 ∷ 99 ∷ 100 ∷ []) (7 ∷ []) (98 ∷ 99 ∷ []) (120 ∷ [])
      abcd-IsValid refl refl (refl, (refl, (refl, (refl, tt)))) refl (omega arith) (omega arith)
