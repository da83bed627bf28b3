-- ===== src/Socket.antt =====
-- Reads and writes of src/socket.c and src/socket-ssl.c, and what src/connection.c makes of them.
-- The kernel and OpenSSL are the list of their answers, in the order of the calls.
pub mod Reads
pub mod Linger
pub mod Write
pub mod Writev
use spdy_test.Prelude.{
  ℕ, zero, suc, ◌+◌, ◌-◌, ◌<◌, ◌≤◌, List, [], ◌∷◌, Option, none, some, Bool, true, false, not, ◌&&◌,
  ltb, leb, ◌==◌, if◌then◌else◌, ◌>>=◌, length,
}
use spdy_test.Ret.{Ret}
use spdy_test.Buffer.{Buffer, u32, size_t, ensure_size}
use spdy_test.Buffer.Mem.{Alloc, bytes, slice, blit}

-- The values of `errno` that the code tells apart; EWOULDBLOCK is EAGAIN.
pub data Errno : Type 0 where
  eintr eagain epipe econnreset enotconn etimedout ehostunreach other : Errno

-- What SSL_get_error answers.
pub data SslError : Type 0 where
  want_read want_write zero_return ssl syscall other : SslError

-- `EV_READ`, `EV_WRITE`, and a `wanted_io` that was not set.
pub data Wanted : Type 0 where
  ev_none ev_read ev_write : Wanted

-- One call of recv or SSL_read: the bytes that it put at the address given, or its error.
pub data ReadAnswer : Type 0 where
  received : List ℕ → ReadAnswer
  failed : Errno → ReadAnswer
  ssl_failed : SslError → Errno → ReadAnswer

-- `http2d_socket_t`, as far as reads and writes use it.
pub record Socket : Type 0 where
  pub is_tls : Bool
  pub closed : Bool

-- What a read leaves: its code, the socket, the bytes read, `wanted_io`, and the answers to come.
pub record Read : Type 0 where
  pub ret : Ret
  pub socket : Socket
  pub got : List ℕ
  pub wanted : Wanted
  pub later : List ReadAnswer

-- "Error handling" of http2d_socket_read.
abbrev pub read_errno : Socket → Errno → Ret × Socket × Wanted
read_errno s Errno.eagain = (Ret.eagain, s, ev_read)
read_errno s Errno.epipe = (Ret.error, record s { closed = true }, ev_none)
read_errno s Errno.enotconn = (Ret.error, record s { closed = true }, ev_none)
read_errno s Errno.econnreset = (Ret.error, record s { closed = true }, ev_none)
read_errno s _ = (Ret.error, s, ev_none)

-- _http2d_socket_ssl_read, behind a failed SSL_read.
abbrev pub ssl_read_error : SslError → Errno → Ret × Wanted
ssl_read_error SslError.want_read e = (Ret.eagain, ev_read)
ssl_read_error SslError.want_write e = (Ret.eagain, ev_write)
ssl_read_error SslError.zero_return e = (Ret.eof, ev_none)
ssl_read_error SslError.syscall Errno.eagain = (Ret.eagain, ev_none)
ssl_read_error SslError.syscall Errno.epipe = (Ret.eof, ev_none)
ssl_read_error SslError.syscall Errno.econnreset = (Ret.eof, ev_none)
ssl_read_error _ e = (Ret.error, ev_none)

-- http2d_socket_read sets `closed` where the SSL read answers ret_eof.
abbrev pub closed_by : Ret → Socket → Socket
closed_by Ret.eof s = record s { closed = true }
closed_by r s = s

-- The plain read, with the loop over EINTR. `none` means that the answers ran out.
unfoldable pub plain_read : Socket → List ReadAnswer → Option Read
plain_read s [] = none
plain_read s (received [] ∷ later) = some (record {
  ret = Ret.eof;
  socket = record s { closed = true };
  got = [];
  wanted = ev_none;
  later = later;
})
plain_read s (received (x ∷ xs) ∷ later) =
    some (record { ret = Ret.ok; socket = s; got = x ∷ xs; wanted = ev_none; later = later })
plain_read s (failed Errno.eintr ∷ later) = plain_read s later
plain_read s (failed e ∷ later) =
    let (r, s', wanted) = read_errno s e in
    some (record { ret = r; socket = s'; got = []; wanted = wanted; later = later })
plain_read s (ssl_failed re e ∷ later) = none

unfoldable pub ssl_read : Socket → List ReadAnswer → Option Read
ssl_read s [] = none
ssl_read s (received [] ∷ later) = some (record {
  ret = Ret.eof;
  socket = closed_by Ret.eof s;
  got = [];
  wanted = ev_none;
  later = later;
})
ssl_read s (received (x ∷ xs) ∷ later) =
    some (record { ret = Ret.ok; socket = s; got = x ∷ xs; wanted = ev_none; later = later })
ssl_read s (ssl_failed re e ∷ later) =
    let (r, wanted) = ssl_read_error re e in
    some (record { ret = r; socket = closed_by r s; got = []; wanted = wanted; later = later })
ssl_read s (failed e ∷ later) = none

-- http2d_socket_read for an address that is not NULL and a positive size.
unfoldable pub socket_read : Socket → List ReadAnswer → Option Read
socket_read s answers =
    if s.closed
    then some (record { ret = Ret.eof; socket = s; got = []; wanted = ev_none; later = answers })
    else if s.is_tls
    then ssl_read s answers
    else plain_read s answers

-- `ret < ret_ok`
abbrev pub is_failure : Ret → Bool
is_failure Ret.no_sys = true
is_failure Ret.nomem = true
is_failure Ret.deny = true
is_failure Ret.error = true
is_failure r = false

-- http2d_socket_read_buf, behind the read: the bytes stand behind the string, and the terminator
-- behind them.
unfoldable pub receive : Buffer → List ℕ → Option Buffer
receive b [] = some b
receive b (x ∷ xs) = do
  m ← b.buf
  m' ← blit m b.len (x ∷ xs)
  m'' ← blit m' (u32 (b.len + length (x ∷ xs))) (0 ∷ [])
  some (record b { buf = some m''; len = u32 (b.len + length (x ∷ xs)) })

-- Behind http2d_buffer_ensure_size: a failure answers before the socket is read.
unfoldable pub read_grown : Ret × Buffer → Socket → List ReadAnswer → Option (Read × Buffer)
read_grown (r, sized) s answers =
    if is_failure r
    then some (record { ret = r; socket = s; got = []; wanted = ev_none; later = answers }, sized)
    else do done ← socket_read s answers; b' ← receive sized done.got; some (done, b')

unfoldable pub socket_read_buf :
    Alloc → Socket → Buffer → ℕ → List ReadAnswer → Option (Read × Buffer)
socket_read_buf a s b count answers =
    read_grown (ensure_size a b (size_t (b.len + count + 2))) s answers

-- `RET_UNKNOWN` only reports: _http2d_connection_do_read then answers ret_ok.
abbrev pub do_read_ret : Ret → Ret
do_read_ret Ret.eof = Ret.eof
do_read_ret Ret.eagain = Ret.eagain
do_read_ret r = Ret.ok

unfoldable pub do_read : Alloc → Socket → Buffer → List ReadAnswer → Option (Ret × Read × Buffer)
do_read a s b answers = do
  (r, b') ← socket_read_buf a s b 16382 answers
  some (do_read_ret r.ret, r, b')

-- What _http2d_connection_do_linger_read answers, with its socket and the answers to come.
abbrev pub Lingered : Type 0
Lingered = Ret × Socket × List ReadAnswer

-- The `switch` of its loop: `go_on` is the test behind `continue`, `again` the next round.
unfoldable pub linger_switch :
    Ret → Bool → Option Lingered → Socket → List ReadAnswer → Option Lingered
linger_switch Ret.eof go_on again s later = some (Ret.eof, s, later)
linger_switch Ret.error go_on again s later = some (Ret.error, s, later)
linger_switch Ret.eagain go_on again s later = some (Ret.eagain, s, later)
linger_switch Ret.ok go_on again s later = if go_on then again else some (Ret.eof, s, later)
linger_switch r go_on again s later = some (Ret.error, s, later)

-- The first argument is `retries`, which the code starts at 2. Each round reads at most 511 bytes,
-- to nowhere.
unfoldable pub linger_loop : ℕ → Socket → List ReadAnswer → Option Lingered
linger_loop zero s answers = none
linger_loop (suc retries) s answers = do
  r ← socket_read s answers
  let again = linger_loop retries r.socket r.later
  linger_switch r.ret (leb (512 - 2) (length r.got) && ltb 0 retries) again r.socket r.later

unfoldable pub do_linger_read : Socket → List ReadAnswer → Option Lingered
do_linger_read s answers = linger_loop 2 s answers
