-- ===== src/Util/Iovec/Skipped.antt =====
-- What http2d_iovec_skip_sent of src/util.c leaves to be sent.
use spdy_test.Prelude.{
  ℕ, ◌+◌, ◌-◌, ◌≤◌, ◌<◌, ◌≡◌, refl, sym, ap, ◌∙◌, List, [], ◌∷◌, ◌++◌, true, false, ltb, length,
  drop, arith, append-nil, append_assoc, length-append, drop-append_ge, subst, zero, suc,
  Bool-cases, inl, inr,
}
use spdy_test.Ret.{Ret}
use spdy_test.Util.Iovec.{skip_loop, iovec_skip_sent, was_sent_loop, iovec_was_sent}

-- The bytes of the vectors, one after the other.
unfoldable pub gathered : List (List ℕ) → List ℕ
gathered [] = []
gathered (v ∷ vs) = v ++ gathered vs

abbrev pub AllLonger : ℕ → List (List ℕ) → Type 0
AllLonger n [] = Unit {0}
AllLonger n (v ∷ vs) = (n < length v) × AllLonger n vs

-- Behind the first vector that is kept, those that are longer than what was sent of it stay.
kept_lem :
    (total sent : ℕ) (vs : List (List ℕ))
    → total ≤ sent
    → AllLonger (sent - total) vs
    → skip_loop true total sent vs ≡ vs
unfolding skip_loop
kept_lem total sent [] h longer = refl
kept_lem total sent (v ∷ vs) h (l, longer) = ground (arith, kept_lem total sent vs h longer)

-- Vectors that were sent whole are passed.
passed_lem :
    (gone : List (List ℕ)) (total sent : ℕ) (vs : List (List ℕ))
    → total + length (gathered gone) ≤ sent
    → skip_loop false total sent (gone ++ vs)
      ≡ skip_loop false (total + length (gathered gone)) sent vs
unfolding skip_loop gathered
passed_lem [] total sent vs h = ap (λ t. skip_loop false t sent vs) (omega arith)
passed_lem (v ∷ gone) total sent vs h =
    let size = length-append v (gathered gone) in
    let whole : total + length (v ++ gathered gone) ≡ total + length v + length (gathered gone) =
      omega arith in
    let rest = passed_lem gone (total + length v) sent vs (omega arith) in
    rw whole (ground (arith, rest))

-- The vector that was sent in part keeps the rest of its bytes.
part_lem :
    (total sent : ℕ) (v : List ℕ) (vs : List (List ℕ))
    → total ≤ sent
    → sent < total + length v
    → skip_loop false total sent (v ∷ vs) ≡ drop (sent - total) v ∷ skip_loop true total sent vs
unfolding skip_loop
part_lem total sent v vs h k = ground arith

drop_inside : (n : ℕ) (xs ys : List ℕ) → n ≤ length xs → drop n (xs ++ ys) ≡ drop n xs ++ ys
drop_inside zero xs ys h = refl
drop_inside (suc n) [] ys h = absurd (omega arith)
drop_inside (suc n) (x ∷ xs) ys h = drop_inside n xs ys (omega arith)

gathered-append : (us vs : List (List ℕ)) → gathered (us ++ vs) ≡ gathered us ++ gathered vs
unfolding gathered
gathered-append [] vs = refl
gathered-append (u ∷ us) vs =
    ap (λ r. u ++ r) (gathered-append us vs) ∙ sym (append_assoc u (gathered us) (gathered vs))

gathered_rest :
    (gone : List (List ℕ)) (v : List ℕ) (vs : List (List ℕ)) (n : ℕ)
    → n ≤ length v
    → drop (length (gathered gone) + n) (gathered (gone ++ (v ∷ vs))) ≡ drop n v ++ gathered vs
unfolding gathered
gathered_rest gone v vs n h =
    ap (drop (length (gathered gone) + n)) (gathered-append gone (v ∷ vs))
    ∙ drop-append_ge (length (gathered gone) + n) (gathered gone) (v ++ gathered vs) (omega arith)
    ∙ ap (λ k. drop k (v ++ gathered vs)) (omega arith)
    ∙ drop_inside n v (gathered vs) h

was_sent_lem :
    (total sent : ℕ) (vs : List (List ℕ))
    → total ≤ sent
    → sent < total + length (gathered vs)
    → was_sent_loop total sent vs ≡ Ret.eagain
unfolding was_sent_loop gathered
was_sent_lem total sent [] h k = absurd (omega arith)
was_sent_lem total sent (v ∷ vs) h k =
    let size = length-append v (gathered vs) in
    elim (Bool-cases (ltb sent (total + length v))) [
      | inl more ↦ rw more refl
      | inr less ↦ rw less (was_sent_lem (total + length v) sent vs (ground arith) (omega arith))
    ]

module _ (gone : List (List ℕ)) (v : List ℕ) (n : ℕ) (part : n < length v) where
  abbrev sent : ℕ
  sent = length (gathered gone) + n

  skipped :
      (vs : List (List ℕ))
      → iovec_skip_sent (gone ++ (v ∷ vs)) sent
        ≡ drop n v ∷ skip_loop true (length (gathered gone)) sent vs
  unfolding iovec_skip_sent
  skipped vs =
      let start : 0 + length (gathered gone) ≡ length (gathered gone) = omega arith in
      let some_of : sent - length (gathered gone) ≡ n = omega arith in
      passed_lem gone 0 sent (v ∷ vs) (omega arith)
      ∙ ap (λ t. skip_loop false t sent (v ∷ vs)) start
      ∙ part_lem (length (gathered gone)) sent v vs (omega arith) (omega arith)
      ∙ ap (λ k. drop k v ∷ skip_loop true (length (gathered gone)) sent vs) some_of

  lost_lem :
      (w : List ℕ) → length w ≤ n → skip_loop true (length (gathered gone)) sent (w ∷ []) ≡ []
  unfolding skip_loop
  lost_lem w short = ground arith

  -- Where the vectors `gone` and `n` bytes of the next, `v`, were sent, but not all of it:
  -- http2d_iovec_was_sent answers ret_eagain; if all vectors behind `v` are longer than `n`,
  -- http2d_iovec_skip_sent leaves the bytes that were not sent, in order; but if a single vector of
  -- at most `n` bytes stands behind `v`, it is lost.
  pub iovec_skip_sent_lem :
      (vs : List (List ℕ)) (w : List ℕ)
      → AllLonger n vs
      → length w ≤ n
      → (iovec_was_sent (gone ++ (v ∷ vs)) sent ≡ Ret.eagain)
        × (gathered (iovec_skip_sent (gone ++ (v ∷ vs)) sent)
            ≡ drop sent (gathered (gone ++ (v ∷ vs))))
        × (gathered (iovec_skip_sent (gone ++ (v ∷ w ∷ [])) sent) ≡ drop n v)
  unfolding gathered iovec_was_sent
  iovec_skip_sent_lem vs w longer short =
      let some_of : n ≡ sent - length (gathered gone) = omega arith in
      let kept =
        kept_lem (length (gathered gone)) sent vs (omega arith)
          (subst (λ k. AllLonger k vs) some_of longer) in
      let size = ap length (gathered-append gone (v ∷ vs)) in
      let sizes = length-append (gathered gone) (v ++ gathered vs) in
      let tail = length-append v (gathered vs) in
      (
        was_sent_lem 0 sent (gone ++ (v ∷ vs)) (omega arith) (omega arith),
        ap gathered (skipped vs ∙ ap (λ r. drop n v ∷ r) kept)
            ∙ sym (gathered_rest gone v vs n (omega arith)),
        ap gathered (skipped (w ∷ []) ∙ ap (λ r. drop n v ∷ r) (lost_lem w short))
            ∙ append-nil (drop n v),
      )
