-- ===== src/Ret.antt =====
-- The return codes that every operation of the server shares (src/common.h, `ret_t`).
pub data Ret : Type 0 where
  no_sys nomem deny error ok eof eof_have_data not_found file_not_found eagain ok_and_sent : Ret
