-- ===== src/Util/Iovec.antt =====
-- http2d_iovec_skip_sent and http2d_iovec_was_sent of src/util.c. A vector is the bytes that it
-- points at.
pub mod Skipped
use spdy_test.Prelude.{
  ℕ, ◌+◌, ◌-◌, List, [], ◌∷◌, Bool, true, false, ltb, leb, if◌then◌else◌, length, drop,
}
use spdy_test.Ret.{Ret}

-- The loop, with `j > 0` and `total`: what stands in `dest`.
unfoldable pub skip_loop : Bool → ℕ → ℕ → List (List ℕ) → List (List ℕ)
skip_loop some_in total sent [] = []
skip_loop some_in total sent (v ∷ orig) =
    let passed = skip_loop some_in (total + length v) sent orig in
    let further = skip_loop true total sent orig in
    if leb (total + length v) sent
    then passed
    else if some_in
    then v ∷ further
    else drop (sent - total) v ∷ further

unfoldable pub iovec_skip_sent : List (List ℕ) → ℕ → List (List ℕ)
unfolding skip_loop
iovec_skip_sent orig sent = skip_loop false 0 sent orig

unfoldable pub was_sent_loop : ℕ → ℕ → List (List ℕ) → Ret
was_sent_loop total sent [] = Ret.ok
was_sent_loop total sent (v ∷ orig) =
    let rest = was_sent_loop (total + length v) sent orig in
    if ltb sent (total + length v) then Ret.eagain else rest

unfoldable pub iovec_was_sent : List (List ℕ) → ℕ → Ret
unfolding was_sent_loop
iovec_was_sent orig sent = was_sent_loop 0 sent orig
