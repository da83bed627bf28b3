-- ===== src/Conn.antt =====
-- The state of a SPDY connection and of its requests (src/connection.h, src/connection-spdy.h,
-- src/request.h, src/request-spdy.h). Buffers stand for the strings that they hold.
use spdy_test.Prelude.{ℕ, List, [], ◌∷◌, Bool, false, ◌||◌}
use spdy_test.Header
use spdy_test.Header.{Header}
use spdy_test.Http.{Application}

-- `http2d_request_spdy_phase_t`
pub data RequestPhase : Type 0 where
  nothing process_header setup_request init reading_post add_headers stepping : RequestPhase

-- `http2d_request_spdy_t`: `block` is its buffer `header`. `freed` records that the object was
-- given back to the allocator; the code has no such field.
pub record Request : Type 0 where
  pub header : Header
  pub phase : RequestPhase
  pub error_code : ℕ
  pub block : List ℕ
  pub header_num : ℕ
  pub freed : Bool

-- `http2d_connection_spdy_phase_t`
pub data ConnPhase : Type 0 where
  handshake io shutdown linger_read : ConnPhase

-- `http2d_connection_spdy_t` with its base, over the type of zlib streams. `freed` as above.
pub record Conn (Stream : Type 0) : Type 0 where
  pub id : ℕ
  pub going_away : Bool
  pub phase : ConnPhase
  pub is_tls : Bool
  pub application : Application
  pub requests : List Request
  pub zst_inflate : Stream
  pub zst_deflate : Stream
  pub buffer_read : List ℕ
  pub buffer_write : List ℕ
  pub buffer_write_ssl : List ℕ
  pub freed : Bool

-- `http2d_request_init_base` and `http2d_request_spdy_new`; the code is http_internal_error.
abbrev pub new_request : Request
new_request = record {
  header = Header.init;
  phase = RequestPhase.nothing;
  error_code = 500;
  block = [];
  header_num = 0;
  freed = false;
}

-- Whether a request that was freed is still linked.
abbrev pub any_freed : List Request → Bool
any_freed [] = false
any_freed (req ∷ reqs) = req.freed || any_freed reqs
