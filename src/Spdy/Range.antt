-- ===== src/Spdy/Range.antt =====
-- Which reads of src/spdy.c stay inside the bytes at hand.
use spdy_test.Prelude.{
  ℕ, ◌+◌, ◌*◌, ◌^◌, ◌≤◌, ◌<◌, List, none, some, ◌≡◌, arith, length, get_elem?_in_range,
  get_elem?_past,
}
use spdy_test.Spdy.{read_uint16, read_uint32, read_ctrl}

pub read_uint32_in_range :
    (xs : List ℕ) (pos : ℕ) → pos + 4 ≤ length xs → (n : ℕ) × (read_uint32 xs pos ≡ some n)
unfolding read_uint32
read_uint32_in_range xs pos h =
    let (b0, e0) = get_elem?_in_range xs pos (omega arith) in
    let (b1, e1) = get_elem?_in_range xs (pos + 1) (omega arith) in
    let (b2, e2) = get_elem?_in_range xs (pos + 2) (omega arith) in
    let (b3, e3) = get_elem?_in_range xs (pos + 3) (omega arith) in
    (b0 * 2 ^ 24 + b1 * 2 ^ 16 + b2 * 2 ^ 8 + b3, rw (e0, e1, e2, e3))

pub read_uint32_past : (xs : List ℕ) (pos : ℕ) → length xs < pos + 4 → read_uint32 xs pos ≡ none
unfolding read_uint32
read_uint32_past xs pos h = ground (arith, get_elem?_past xs (pos + 3))

pub read_ctrl_past : (xs : List ℕ) (pos : ℕ) → length xs ≤ pos → read_ctrl xs pos ≡ none
unfolding read_ctrl read_uint16
read_ctrl_past xs pos h = rw (get_elem?_past xs pos h)
