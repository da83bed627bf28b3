-- ===== src/Tests/Sockets.antt =====
-- The theorems about src/socket.c, src/connection.c and src/util.c at concrete inputs.
use spdy_test.Prelude.{◌+◌, ◌≤◌, List, [], ◌∷◌, some, true, false, ◌≡◌, refl, ◌⊎◌, arith}
use spdy_test.Ret.{Ret}
use spdy_test.Buffer.{Buffer, ensure_size}
use spdy_test.Buffer.Mem.{Alloc, realloc}
use spdy_test.Buffer.Space.{contents, IsValid}
use spdy_test.Socket.{
  Socket, Errno, ReadAnswer, received, failed, Read, ev_none, plain_read, socket_read,
  socket_read_buf, do_linger_read,
}
use spdy_test.Socket.Reads.{socket_read_buf_lem}
use spdy_test.Socket.Linger.{settled, do_linger_read_lem}
use spdy_test.Util.HeaderEnd.{find_header_end, found}
use spdy_test.Util.HeaderEnd.Lines.{find_header_end_lem}

abbrev generous : Alloc
generous = record { grant = λ n. true; fill = λ i. 170 }

-- "a", an empty line, and "b", in a block of eight bytes.
abbrev header : Buffer
header = record { buf = some (97 ∷ 13 ∷ 10 ∷ 13 ∷ 10 ∷ 98 ∷ 0 ∷ 0 ∷ []); size = 8; len = 6 }

header-IsValid : IsValid header
header-IsValid = omega arith

abbrev plain : Socket
plain = record { is_tls = false; closed = false }

abbrev read_two : Read
read_two = record { ret = Ret.ok; socket = plain; got = 7 ∷ 8 ∷ []; wanted = ev_none; later = [] }

socket_read_buf_lem_example :
    (b' : Buffer) × (socket_read_buf generous plain header 16
        (failed Errno.eintr ∷ received (7 ∷ 8 ∷ []) ∷ [])
      ≡ some (read_two, b'))
    × IsValid b'
    × (contents b' ≡ 97 ∷ 13 ∷ 10 ∷ 13 ∷ 10 ∷ 98 ∷ 7 ∷ 8 ∷ [])
unfolding socket_read plain_read ensure_size realloc
socket_read_buf_lem_example =
    socket_read_buf_lem generous plain header 16 (failed Errno.eintr ∷ received (7 ∷ 8 ∷ []) ∷ [])
      header-IsValid (omega arith) {r = read_two} refl (omega arith) refl

do_linger_read_lem_example :
    (r : Ret) × (s' : Socket) × (later : List ReadAnswer) × (do_linger_read plain
        (failed Errno.eagain ∷ received [] ∷ [])
      ≡ some (r, s', later))
    × ((r ≡ Ret.eof) ⊎ (r ≡ Ret.error) ⊎ (r ≡ Ret.eagain))
    × (2 ≤ 2 + settled later)
unfolding settled
do_linger_read_lem_example =
    do_linger_read_lem plain (failed Errno.eagain ∷ received [] ∷ []) refl tt (omega arith)

find_header_end_lem_example : find_header_end header ≡ some (found 1 4)
find_header_end_lem_example =
    find_header_end_lem header (97 ∷ []) [] (98 ∷ []) header-IsValid refl (omega arith)
      (omega arith)
