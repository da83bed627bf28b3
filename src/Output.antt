-- ===== src/Output.antt =====
-- The writing side of a connection: _http2d_connection_do_write of src/connection.c, and the loop
-- over the requests in do_io of src/connection-spdy.c.
pub mod Order
pub mod Served
use spdy_test.Prelude.{
  ℕ, List, [], ◌∷◌, ◌++◌, Option, some, Bool, true, false, not, ◌&&◌, if◌then◌else◌, ◌>>=◌, drop,
}
use spdy_test.Ret.{Ret}
use spdy_test.Zlib.{Zlib}
use spdy_test.Conn.{Request, Conn}
use spdy_test.Request.{step}

-- http2d_buffer_is_empty
abbrev pub is_empty : List ℕ → Bool
is_empty [] = true
is_empty (x ∷ xs) = false

-- What _http2d_connection_do_write makes of the answer of the socket.
abbrev pub write_ret : Ret → Ret
write_ret Ret.ok = Ret.ok
write_ret Ret.eof = Ret.eof
write_ret Ret.eagain = Ret.eagain
write_ret r = Ret.error

module _ {Stream : Type 0} where
  -- "We keep two 'write' buffers": with TLS the buffers are swapped when the one that is handed to
  -- the socket is empty and the other one is not.
  unfoldable pub swap_write_buffers : Conn Stream → Conn Stream
  swap_write_buffers conn =
      if not (is_empty conn.buffer_write) && is_empty conn.buffer_write_ssl
      then record conn {
        buffer_write = conn.buffer_write_ssl;
        buffer_write_ssl = conn.buffer_write;
      }
      else conn

  -- `write` is http2d_socket_write_buf: its answer for a buffer, and how many bytes it wrote.
  -- http2d_buffer_move_to_begin drops these.
  unfoldable pub do_write : (List ℕ → Ret × ℕ) → Conn Stream → Ret × Conn Stream
  do_write write conn =
      let swapped = swap_write_buffers conn in
      let (ret_ssl, written_ssl) = write swapped.buffer_write_ssl in
      let (ret, written) = write conn.buffer_write in
      if conn.is_tls
      then (
        write_ret ret_ssl,
        record swapped { buffer_write_ssl = drop written_ssl swapped.buffer_write_ssl },
      )
      else (write_ret ret, record conn { buffer_write = drop written conn.buffer_write })

-- "Process requests" of do_io: a request that answers ret_eof is taken off the list and freed.
module _ (zlib : Zlib) (fuel : ℕ) where
  open zlib use {Stream}

  unfoldable pub process_requests : List Request → Conn Stream → Option (List Request × Conn Stream)
  process_requests [] conn = some ([], conn)
  process_requests (req ∷ reqs) conn = do
    (ret, req', conn1) ← step zlib fuel req conn
    (reqs', conn2) ← process_requests reqs conn1
    some (elim ret [ Ret.eof ↦ (reqs', conn2) | _ ↦ (req' ∷ reqs', conn2) ])
