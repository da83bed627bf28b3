-- ===== src/Tests/Wire.antt =====
-- The theorems about src/spdy.c, header blocks, src/header.c, src/http.c and src/spdy-zlib.c at
-- concrete inputs.
use spdy_test.Prelude.{
  ℕ, ◌<◌, List, [], ◌∷◌, ◌++◌, some, none, ◌≡◌, ◌≢◌, arith, length, Bool, true, false, take, drop,
  refl, ◌+◌, length-take, length-drop,
}
use spdy_test.Spdy.{read_ctrl, write_ctrl}
use spdy_test.Spdy.RoundTrip.{read_ctrl-write_ctrl}
use spdy_test.Header.{codes}
use spdy_test.NameValue.{htonl, entries, read_block}
use spdy_test.NameValue.RoundTrip.{read_block-entries}
use spdy_test.Zlib.{Zlib, Code, spdy_zlib_inflate}
use spdy_test.Zlib.Loops.{chunk, IsZlib, spdy_zlib_inflate_returns}

abbrev blank : List ℕ
blank = 0 ∷ 0 ∷ 0 ∷ 0 ∷ 0 ∷ 0 ∷ 0 ∷ 0 ∷ []

read_ctrl-write_ctrl_example :
    read_ctrl (9 ∷ 9 ∷ write_ctrl blank 7 0 8) 2
    ≡ some (record { version = 3; type = 7; flags = 0; length = 8 })
read_ctrl-write_ctrl_example =
    read_ctrl-write_ctrl 0 0 0 0 0 0 0 0 [] (9 ∷ 9 ∷ []) 7 0 8 (omega arith)

abbrev two_pairs : List (List ℕ × List ℕ)
two_pairs = (codes ":path", codes "/") ∷ (codes ":method", codes "GET") ∷ []

read_block-entries_example :
    read_block (htonl 2 ++ (entries two_pairs ++ (1 ∷ []))) ≡ some two_pairs
read_block-entries_example = read_block-entries two_pairs (1 ∷ []) (omega arith) (omega arith)

-- A stream that asks for its dictionary, and then gives the input as it is, a chunk at a time.
abbrev stored : Bool → List ℕ → Code × Bool × List ℕ × List ℕ
stored true input = (Code.z_need_dict, true, input, [])
stored false input = (Code.z_ok, false, drop chunk input, take chunk input)

abbrev chunk_wise : Zlib
chunk_wise = record {
  Stream = Bool;
  inflate = stored;
  inflate_end = λ z. z;
  set_dictionary = λ z. (Code.z_ok, false);
  deflate = λ z input room. (Code.z_ok, z, [], input);
  deflate_end = λ z. z;
}

chunk_wise_given :
    (z : Bool) (input : List ℕ)
    → (stored z input).0 ≡ Code.z_ok
    → length input ≡ length (stored z input).3 + length (stored z input).2
chunk_wise_given true input h = cc
chunk_wise_given false input h = omega (arith, length-take chunk input, length-drop chunk input)

some_left : (xs : List ℕ) → xs ≢ [] → 0 < length xs
some_left [] h = absurd (h refl)
some_left (x ∷ xs) h = omega arith

chunk_wise_filled :
    (z : Bool) (input : List ℕ)
    → (stored z input).0 ≡ Code.z_ok
    → (stored z input).2 ≢ []
    → length (stored z input).3 ≡ chunk
chunk_wise_filled true input h k = cc
chunk_wise_filled false input h k =
    omega (arith, some_left (drop chunk input) k, length-take chunk input, length-drop chunk input)

chunk_wise_ready :
    (z : Bool) (input : List ℕ)
    → (stored z input).0 ≡ Code.z_ok
    → (stored z input).2 ≢ []
    → (stored z input).1 ≡ false
chunk_wise_ready true input h k = cc
chunk_wise_ready false input h k = refl

chunk_wise_asked : (z : Bool) (input : List ℕ) → (stored z input).0 ≡ Code.z_need_dict → z ≡ true
chunk_wise_asked true input h = refl
chunk_wise_asked false input h = cc

chunk_wise_answered :
    (z : Bool) (input : List ℕ)
    → (stored z input).0 ≡ Code.z_need_dict
    → ◌≡◌ {A = Code} Code.z_ok Code.z_ok
    → (◌≡◌ {A = Bool} false false) × (length (stored z input).2 ≡ length input)
chunk_wise_answered true input h k = (refl, refl)
chunk_wise_answered false input h k = cc

chunk_wise-IsZlib : IsZlib chunk_wise (λ z input. length input) (λ z. z)
chunk_wise-IsZlib = record {
  given = chunk_wise_given;
  filled = chunk_wise_filled;
  ready = chunk_wise_ready;
  asked = chunk_wise_asked;
  answered = chunk_wise_answered;
}

spdy_zlib_inflate_returns_example : spdy_zlib_inflate chunk_wise 2 true (7 ∷ 8 ∷ 9 ∷ []) [] ≢ none
spdy_zlib_inflate_returns_example =
    spdy_zlib_inflate_returns chunk_wise (λ z input. length input) (λ z. z) chunk_wise-IsZlib 1 true
      (7 ∷ 8 ∷ 9 ∷ []) [] (omega arith)
