-- ===== src/Socket/Write.antt =====
-- http2d_socket_write of src/socket.c and _http2d_socket_ssl_write of src/socket-ssl.c.
use spdy_test.Prelude.{ℕ, zero, suc, List, [], ◌∷◌, Option, none, some, true, ◌==◌, if◌then◌else◌}
use spdy_test.Ret.{Ret}
use spdy_test.Socket.{Socket, Errno, SslError, Wanted, ev_none, ev_read, ev_write, closed_by}

-- One call of send or SSL_write: the number of bytes that it took, or its error.
pub data WriteAnswer : Type 0 where
  sent : ℕ → WriteAnswer
  failed : Errno → WriteAnswer
  ssl_failed : SslError → Errno → WriteAnswer

pub record Written : Type 0 where
  pub ret : Ret
  pub socket : Socket
  pub count : ℕ
  pub wanted : Wanted
  pub later : List WriteAnswer

-- "Error handling" of http2d_socket_write.
abbrev pub write_errno : Socket → Errno → Ret × Socket × Wanted
write_errno s Errno.eagain = (Ret.eagain, s, ev_write)
write_errno s Errno.epipe = (Ret.error, record s { closed = true }, ev_none)
write_errno s Errno.econnreset = (Ret.error, record s { closed = true }, ev_none)
write_errno s Errno.enotconn = (Ret.error, record s { closed = true }, ev_none)
write_errno s _ = (Ret.error, s, ev_none)

unfoldable pub plain_write : Socket → List WriteAnswer → Option Written
plain_write s [] = none
plain_write s (sent zero ∷ later) =
    some (record { ret = Ret.eagain; socket = s; count = 0; wanted = ev_write; later = later })
plain_write s (sent (suc n) ∷ later) =
    some (record { ret = Ret.ok; socket = s; count = suc n; wanted = ev_none; later = later })
plain_write s (failed Errno.eintr ∷ later) = plain_write s later
plain_write s (failed e ∷ later) =
    let (r, s', wanted) = write_errno s e in
    some (record { ret = r; socket = s'; count = 0; wanted = wanted; later = later })
plain_write s (ssl_failed re e ∷ later) = none

-- Behind a failed SSL_write.
abbrev pub ssl_write_error : SslError → Errno → Ret × Wanted
ssl_write_error SslError.want_read e = (Ret.eagain, ev_read)
ssl_write_error SslError.want_write e = (Ret.eagain, ev_write)
ssl_write_error SslError.syscall Errno.eagain = (Ret.eagain, ev_none)
ssl_write_error SslError.syscall Errno.enotconn = (Ret.eof, ev_none)
ssl_write_error SslError.syscall Errno.epipe = (Ret.eof, ev_none)
ssl_write_error SslError.syscall Errno.econnreset = (Ret.eof, ev_none)
ssl_write_error _ e = (Ret.error, ev_none)

-- SSL_write takes all of the buffer or nothing.
unfoldable pub ssl_write : Socket → ℕ → List WriteAnswer → Option Written
ssl_write s buf_len [] = none
ssl_write s buf_len (sent zero ∷ later) = some (record {
  ret = Ret.eof;
  socket = closed_by Ret.eof s;
  count = 0;
  wanted = ev_none;
  later = later;
})
ssl_write s buf_len (sent (suc n) ∷ later) = some (
    if suc n == buf_len
    then record { ret = Ret.ok; socket = s; count = buf_len; wanted = ev_none; later = later }
    else record { ret = Ret.error; socket = s; count = 0; wanted = ev_none; later = later })
ssl_write s buf_len (ssl_failed re e ∷ later) =
    let (r, wanted) = ssl_write_error re e in
    some (record { ret = r; socket = closed_by r s; count = 0; wanted = wanted; later = later })
ssl_write s buf_len (failed e ∷ later) = none

-- For an address that is not NULL: there must be something to send.
unfoldable pub socket_write : Socket → ℕ → List WriteAnswer → Option Written
socket_write s buf_len answers =
    if buf_len == 0
    then some (record { ret = Ret.error; socket = s; count = 0; wanted = ev_none; later = answers })
    else if s.is_tls
    then ssl_write s buf_len answers
    else plain_write s answers
