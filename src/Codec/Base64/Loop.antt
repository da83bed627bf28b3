-- ===== src/Codec/Base64/Loop.antt =====
-- The decoder's loop of src/buffer.c without its 127-byte chunks.
use spdy_test.Prelude.{
  ℕ, List, [], ◌∷◌, ◌++◌, Option, none, some, ◌≡◌, ap, ◌∙◌, inl, inr, arith, leb, ◌==◌,
  if◌then◌else◌, length, Bool-cases, Option-cases, append_assoc, append-nil, ◌>>=◌,
}
use spdy_test.Codec.Base64.{b64_value, b64_emit, next_phase, decode_loop}

-- What the loop decodes from a phase and the value before.
unfoldable pub decoded : List ℕ → ℕ → ℕ → Option (List ℕ)
decoded [] phase prev_d = some []
decoded (c ∷ cs) phase prev_d = if leb 128 c then none else elim (b64_value c) [
  | none ↦ decoded cs phase prev_d
  | some d ↦ do rest ← decoded cs (next_phase phase) d; some (b64_emit phase prev_d d ++ rest)
]

pub decode_loop-eq-decoded :
    (cs : List ℕ) (phase prev_d : ℕ) (space out : List ℕ) {xs : List ℕ}
    → decoded cs phase prev_d ≡ some xs
    → decode_loop cs phase prev_d space out ≡ some (out ++ (space ++ xs))
unfolding decode_loop decoded
decode_loop-eq-decoded [] phase prev_d space out h =
    ground (arith, append-nil space, ap (λ (o : List ℕ). out ++ (space ++ o)))
decode_loop-eq-decoded (c ∷ cs) phase prev_d space out {xs} h = elim (Bool-cases (leb 128 c)) [
  | inl outside ↦ absurd (ground arith)
  | inr inside ↦ elim (Option-cases (b64_value c)) [
    | inl skip ↦
        rw (inside, skip)
          (decode_loop-eq-decoded cs phase prev_d space out (ground (arith, skip, inside)))
    | inr (d, digit) ↦ elim (Option-cases (decoded cs (next_phase phase) d)) [
      | inl fails ↦ absurd (ground (arith, digit, inside, fails))
      | inr (rest, ends) ↦
          let e = b64_emit phase prev_d d in
          let split : xs ≡ e ++ rest = ground (arith, digit, inside, ends) in
          elim (Bool-cases (length (space ++ e) == 127)) [
            | inl full ↦
                rw (inside, digit)
                  (rw (full, split)
                    (decode_loop-eq-decoded cs (next_phase phase) d [] (out ++ (space ++ e)) ends
                      ∙ ap some (
                          append_assoc out (space ++ e) rest
                          ∙ ap (λ o. out ++ o) (append_assoc space e rest))))
            | inr room ↦
                rw (inside, digit)
                  (rw (room, split)
                    (decode_loop-eq-decoded cs (next_phase phase) d (space ++ e) out ends
                      ∙ ap (λ o. some (out ++ o)) (append_assoc space e rest)))
          ]
    ]
  ]
]
