-- ===== src/Step/Serves.antt =====
-- One step of a connection from the bytes read to the bytes written.
use spdy_test.Prelude.{
  ℕ, ◌+◌, ◌^◌, ◌<◌, ◌≤◌, List, [], ◌∷◌, ◌++◌, some, ◌≡◌, ◌≢◌, refl, arith, false, length,
}
use spdy_test.Ret.{Ret}
use spdy_test.Header
use spdy_test.Http.{Application}
use spdy_test.Spdy.{Ctrl, read_ctrl, read_uint32}
use spdy_test.Zlib.{Zlib}
use spdy_test.Conn.{Request, Conn, ConnPhase}
use spdy_test.Output.{is_empty}
use spdy_test.Step.{Answers, io_process, do_io, io_step, conn_spdy_step}

pub is_empty_of : (xs : List ℕ) → 0 < length xs → is_empty xs ≡ false
is_empty_of [] h = absurd (omega arith)
is_empty_of (x ∷ xs) h = refl

module _ (zlib : Zlib) (fuel : ℕ) where
  open zlib use {Stream}

  module _ (rounds : ℕ) (answers : Answers) where
    pub after_read :
        (conn : Conn Stream)
        → answers.read.ret ≡ Ret.ok
        → do_io zlib fuel rounds answers conn
          ≡ io_process zlib fuel rounds answers
              (record conn { buffer_read = conn.buffer_read ++ answers.read.got })
    unfolding do_io
    after_read conn got = ground (arith, got)

    pub in_io :
        (conn : Conn Stream)
        → conn.phase ≡ ConnPhase.io
        → conn_spdy_step zlib fuel rounds answers conn ≡ io_step zlib fuel rounds answers conn
    unfolding conn_spdy_step
    in_io conn phase = ground (arith, phase)

-- The read buffer behind the read.
abbrev pub buffer_of : {Stream : Type 0} → Answers → Conn Stream → List ℕ
buffer_of answers conn = conn.buffer_read ++ answers.read.got

-- A connection in its phase for input and output, without TLS, whose protocol is known, with no
-- request and no GOAWAY so far.
abbrev pub IsIdle : {Stream : Type 0} → Conn Stream → Type 0
IsIdle conn =
    (conn.phase ≡ ConnPhase.io)
    × (conn.is_tls ≡ false)
    × (conn.going_away ≡ false)
    × (conn.requests ≡ [])
    × (conn.application ≢ Application.unknown)

-- The read buffer holds exactly one SYN_STREAM frame of version 3.
abbrev pub IsSynStream : List ℕ → Ctrl → ℕ → Type 0
IsSynStream buf ctrl sid =
    (length buf < 2 ^ 31)
    × (read_ctrl buf 0 ≡ some ctrl)
    × ((ctrl.version ≡ 3) × (ctrl.type ≡ 1))
    × ((10 ≤ ctrl.length) × (ctrl.length + 8 ≡ length buf))
    × (read_uint32 buf 8 ≡ some sid)
