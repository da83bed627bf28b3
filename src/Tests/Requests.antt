-- ===== src/Tests/Requests.antt =====
-- The theorems about src/request-spdy.c at a concrete connection.
use spdy_test.Prelude.{ℕ, List, ◌++◌, [], ◌∷◌, some, none, true, ◌≢◌, ◌≡◌, arith, false}
use spdy_test.Ret.{Ret}
use spdy_test.Http.{Application}
use spdy_test.Zlib.{Zlib, Code, spdy_zlib_deflate, deflate_loop}
use spdy_test.Conn.{Request, Conn, ConnPhase, new_request}
use spdy_test.Output.{process_requests, do_write, swap_write_buffers}
use spdy_test.Output.Order.{pending, do_write_order}
use spdy_test.Output.Served.{process_requests_twice}

-- A stream that stores.
abbrev pub storing : Zlib
storing = record {
  Stream = ℕ;
  inflate = λ z input. (Code.z_ok, z, [], input);
  inflate_end = λ z. z;
  set_dictionary = λ z. (Code.z_ok, z);
  deflate = λ z input room. (Code.z_ok, z, [], input);
  deflate_end = λ z. z;
}

abbrev pub quiet : Conn ℕ
quiet = record {
  id = 5;
  going_away = false;
  phase = ConnPhase.io;
  is_tls = false;
  application = Application.http11;
  requests = [];
  zst_inflate = 0;
  zst_deflate = 0;
  buffer_read = [];
  buffer_write = 1 ∷ 2 ∷ [];
  buffer_write_ssl = [];
  freed = false;
}

storing_returns :
    (zst c : ℕ) (block : List ℕ) → spdy_zlib_deflate storing 2 zst (c ∷ block) [] ≢ none
unfolding spdy_zlib_deflate deflate_loop
storing_returns zst c block h = ground arith

process_requests_twice_example :
    (reqs' : List Request) × (conn' : Conn ℕ) × (process_requests storing 2
        (new_request ∷ new_request ∷ [])
        quiet
      ≡ some (reqs', conn'))
    × (process_requests storing 2 reqs' conn' ≡ some ([], conn'))
process_requests_twice_example =
    process_requests_twice storing 2 storing_returns (new_request ∷ new_request ∷ []) quiet

-- A TLS connection whose second buffer is empty, and a socket that takes one byte.
abbrev tls : Conn ℕ
tls = record quiet { is_tls = true }

abbrev slow : List ℕ → Ret × ℕ
slow [] = (Ret.ok, 0)
slow (x ∷ xs) = (Ret.ok, 1)

do_write_order_example :
    (rest : List ℕ) × (1 ∷ 2 ∷ [] ≡ (1 ∷ 2 ∷ []) ++ rest) × (pending (do_write slow tls).1 ≡ 2 ∷ [])
unfolding swap_write_buffers
do_write_order_example = do_write_order tls slow (omega arith)
