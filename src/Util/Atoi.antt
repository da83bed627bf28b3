-- ===== src/Util/Atoi.antt =====
-- http2d_atoi and http2d_atob of src/util.c. An `int` is its 32 bits.
use spdy_test.Prelude.{ℕ, List, Bool, not, ◌==◌, if◌then◌else◌}
use spdy_test.Ret.{Ret}
use spdy_test.CString.{strtol, int_of}

-- The result, and what is then in `*ret_value`.
unfoldable pub atoi : List ℕ → ℕ → Ret × ℕ
unfolding strtol
atoi str ret_value =
    let tmp = strtol str in
    if tmp.out_of_range then (Ret.error, ret_value) else (Ret.ok, int_of tmp)

unfoldable pub atob : List ℕ → Bool → Ret × Bool
unfolding atoi
atob str ret_value =
    let (ret, tmp) = atoi str 0 in
    elim ret [ Ret.ok ↦ (Ret.ok, not (tmp == 0)) | failed ↦ (failed, ret_value) ]
