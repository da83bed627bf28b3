-- ===== src/Request.antt =====
-- The requests of a SPDY connection (src/request-spdy.c, and the calls that src/request.c passes on
-- to it). Each function returns the request, and the connection where it writes to it.
pub mod Layout
pub mod Reply
use spdy_test.Prelude.{ℕ, ◌+◌, List, [], ◌∷◌, ◌++◌, Option, none, some, ◌>>=◌, length, replicate}
use spdy_test.Ret.{Ret}
use spdy_test.Header.{codes}
use spdy_test.Http.{http_code_to_string, http_version_to_string}
use spdy_test.Spdy.{write_syn_reply, write_data}
use spdy_test.NameValue.{htonl, entry}
use spdy_test.Zlib.{Zlib, spdy_zlib_deflate}
use spdy_test.Conn.{Request, RequestPhase, Conn}

-- req_spdy_header_add
unfoldable pub header_add : Request → List ℕ → List ℕ → Request
header_add req key val = record req {
  block = req.block ++ entry key val;
  header_num = req.header_num + 1;
}

-- http2d_request_header_add_common; PACKAGE_NAME is "HTTP2d".
unfoldable pub header_add_common : Request → Request
unfolding header_add
header_add_common req = header_add req (codes "server") (codes "HTTP2d")

-- One of the two parts of req_spdy_header_base: the string is added unless it is empty or unknown.
abbrev pub add_known : Request → List ℕ → Ret × List ℕ → Ret × Request
add_known req key (Ret.ok, []) = (Ret.error, req)
add_known req key (Ret.ok, c ∷ str) = (Ret.ok, header_add req key (c ∷ str))
add_known req key (r, str) = (Ret.error, req)

abbrev pub payload : List ℕ
payload = codes "Hello World!!!!!!!!!" ++ (10 ∷ [])

module _ {Stream : Type 0} where
  unfoldable pub header_base : Request → Conn Stream → Ret × Request
  header_base req conn =
      let (r, req1) = add_known req (codes ":status") (http_code_to_string req.error_code) in
      elim r [
        | Ret.ok ↦ add_known req1 (codes ":version") (http_version_to_string conn.application)
        | _ ↦ (Ret.error, req1)
      ]

  -- `TEMP_hello_world`: a data frame with SPDY_CTRL_FLAG_FIN.
  unfoldable pub hello_world : Conn Stream → Conn Stream
  hello_world conn =
      let ctrl = write_data (replicate 8 0) conn.id 1 (length payload) in
      record conn { buffer_write = (conn.buffer_write ++ ctrl) ++ payload }

module _ (zlib : Zlib) (fuel : ℕ) where
  open zlib use {Stream}

  -- What req_spdy_header_finish adds to `buffer_write`; the answer of the deflation is not looked
  -- at. `none` is a deflation that does not end.
  unfoldable pub header_finish : Request → Conn Stream → Option (Request × Conn Stream)
  header_finish req conn = do
    let block = htonl req.header_num ++ req.block
    (r, zst, tmp) ← spdy_zlib_deflate zlib fuel conn.zst_deflate block []
    let ctrl = write_syn_reply (replicate 12 0) conn.id 0 (length tmp)
    some (
      record req { block = [] },
      record conn { zst_deflate = zst; buffer_write = (conn.buffer_write ++ ctrl) ++ tmp },
    )

  -- The work of phase_spdy_add_headers, whose parts' answers are not looked at.
  unfoldable pub add_headers : Request → Conn Stream → Option (Ret × Request × Conn Stream)
  add_headers req conn = do
    let req1 = record req { phase = RequestPhase.add_headers; error_code = 200 }
    let req2 = (header_base req1 conn).1
    (req3, conn1) ← header_finish (header_add_common req2) conn
    some (Ret.ok, record req3 { phase = RequestPhase.stepping }, hello_world conn1)

  -- req_spdy_step: the phases before `add_headers` fall through to it.
  unfoldable pub step : Request → Conn Stream → Option (Ret × Request × Conn Stream)
  step req conn = elim req.phase [
    | RequestPhase.stepping ↦ some (Ret.eof, req, conn)
    | _ ↦ add_headers req conn
  ]
