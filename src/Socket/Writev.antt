-- ===== src/Socket/Writev.antt =====
-- http2d_socket_writev of src/socket.c, for vectors whose addresses are not NULL.
use spdy_test.Prelude.{
  ℕ, zero, suc, ◌+◌, List, [], ◌∷◌, Option, none, some, Bool, true, false, ◌||◌, ltb, ◌==◌,
  if◌then◌else◌, ◌>>=◌, length,
}
use spdy_test.Ret.{Ret}
use spdy_test.Socket.{Socket, Errno, Wanted, ev_none}
use spdy_test.Socket.Write.{WriteAnswer, sent, failed, ssl_failed, Written, socket_write}

-- "Find out whether there was something to send or not."
unfoldable pub something : List (List ℕ) → Bool
something [] = false
something (v ∷ vector) = ltb 0 (length v) || something vector

-- The errors of writev; `wanted_io` is left alone.
abbrev pub writev_errno : Socket → Errno → Ret × Socket
writev_errno s Errno.eagain = (Ret.eagain, s)
writev_errno s Errno.epipe = (Ret.error, record s { closed = true })
writev_errno s Errno.enotconn = (Ret.error, record s { closed = true })
writev_errno s Errno.econnreset = (Ret.error, record s { closed = true })
writev_errno s _ = (Ret.error, s)

unfoldable pub plain_writev : Socket → List (List ℕ) → List WriteAnswer → Option Written
unfolding something
plain_writev s vector [] = none
plain_writev s vector (sent zero ∷ later) =
    let ret = if something vector then Ret.eagain else Ret.ok in
    some (record { ret = ret; socket = s; count = 0; wanted = ev_none; later = later })
plain_writev s vector (sent (suc n) ∷ later) =
    some (record { ret = Ret.ok; socket = s; count = suc n; wanted = ev_none; later = later })
plain_writev s vector (failed Errno.eintr ∷ later) = plain_writev s vector later
plain_writev s vector (failed e ∷ later) =
    let (r, s') = writev_errno s e in
    some (record { ret = r; socket = s'; count = 0; wanted = ev_none; later = later })
plain_writev s vector (ssl_failed re e ∷ later) = none

-- The loop for TLS: `count` is `*pcnt_written`.
unfoldable pub tls_writev : Socket → ℕ → Wanted → List (List ℕ) → List WriteAnswer → Option Written
unfolding socket_write
tls_writev s count wanted [] answers =
    some (record { ret = Ret.ok; socket = s; count = count; wanted = wanted; later = answers })
tls_writev s count wanted ([] ∷ vector) answers = tls_writev s count wanted vector answers
tls_writev s count wanted ((c ∷ v) ∷ vector) answers =
    socket_write s (length (c ∷ v)) answers >>= (λ w.
      let further = tls_writev w.socket (count + w.count) w.wanted vector w.later in
      let unfinished = some (record w { count = count + w.count }) in
      let refused = some (record w { count = count }) in
      elim w.ret [
        | Ret.ok ↦ if w.count == length (c ∷ v) then further else unfinished
        | other ↦ refused
      ])

unfoldable pub socket_writev : Socket → List (List ℕ) → List WriteAnswer → Option Written
unfolding plain_writev tls_writev
socket_writev s [] answers =
    some (record { ret = Ret.error; socket = s; count = 0; wanted = ev_none; later = answers })
socket_writev s (v ∷ vector) answers =
    if s.is_tls
    then tls_writev s 0 ev_none (v ∷ vector) answers
    else plain_writev s (v ∷ vector) answers
