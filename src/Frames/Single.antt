-- ===== src/Frames/Single.antt =====
-- What spdy_process_buffer (src/connection-spdy.c) makes of each kind of frame.
use spdy_test.Prelude.{ℕ, suc, ◌+◌, ◌^◌, ◌≤◌, ◌<◌, List, [], some, ◌≡◌, arith, true, length}
use spdy_test.Ret.{Ret}
use spdy_test.Spdy.{Ctrl, read_ctrl}
use spdy_test.Spdy.Range.{read_uint32_in_range}
use spdy_test.Zlib.{Zlib}
use spdy_test.Conn.{Conn, ConnPhase}
use spdy_test.Frames.{returns, overrun, dispatch, handle_rst_stream, handle_goaway, process_buffer}
use spdy_test.Frames.Loop.{buffer_single, buffer_stale}

module _ (zlib : Zlib) (fuel : ℕ) (conn : Conn zlib.Stream) (buf : List ℕ) (ctrl : Ctrl) (pos : ℕ)
    (inside : pos + 8 ≤ length buf) where
  dispatch_rst :
      ctrl.type ≡ 3
      → dispatch zlib fuel conn buf ctrl pos ≡ returns (Ret.ok, conn, pos + ctrl.length)
  unfolding dispatch handle_rst_stream
  dispatch_rst t = ground (
    arith,
    read_uint32_in_range buf pos (omega arith),
    read_uint32_in_range buf (pos + 4) (omega arith),
  )

  dispatch_goaway :
      ctrl.type ≡ 7
      → dispatch zlib fuel conn buf ctrl pos
        ≡ returns (
          Ret.ok,
          record conn { phase = ConnPhase.shutdown; going_away = true },
          pos + ctrl.length,
        )
  unfolding dispatch handle_goaway
  dispatch_goaway t = ground (
    arith,
    read_uint32_in_range buf pos (omega arith),
    read_uint32_in_range buf (pos + 4) (omega arith),
  )

-- The read buffer of `conn` begins with a frame of version 3 whose body has at least 8 bytes.
module _ (zlib : Zlib) (fuel n : ℕ) (conn : Conn zlib.Stream) (ctrl : Ctrl)
    (small : length conn.buffer_read < 2 ^ 31) (header : read_ctrl conn.buffer_read 0 ≡ some ctrl)
    (version : ctrl.version ≡ 3) (body : 8 ≤ ctrl.length) where
  -- Where the read buffer, shorter than 2 ^ 31, holds exactly one RST_STREAM frame of version 3 with
  -- a body of at least 8 bytes, spdy_process_buffer answers ret_ok, empties the buffer, and changes
  -- nothing else of the connection: the stream is not reset.
  pub buffer_rst_stream :
      ctrl.type ≡ 3
      → ctrl.length + 8 ≡ length conn.buffer_read
      → process_buffer zlib fuel (suc (suc n)) conn
        ≡ returns (Ret.ok, record conn { buffer_read = [] })
  buffer_rst_stream t whole =
      buffer_single zlib fuel n conn ctrl (omega arith) small header version (omega arith)
        (dispatch_rst zlib fuel conn conn.buffer_read ctrl 8 (omega arith) t) (omega arith)

  -- Where the read buffer, shorter than 2 ^ 31, holds exactly one GOAWAY frame of version 3 with a
  -- body of at least 8 bytes, spdy_process_buffer answers ret_ok, empties the buffer, marks the
  -- connection as going away and puts it into phase_conn_spdy_shutdown.
  pub buffer_goaway :
      ctrl.type ≡ 7
      → ctrl.length + 8 ≡ length conn.buffer_read
      → process_buffer zlib fuel (suc (suc n)) conn
        ≡ returns (
          Ret.ok,
          record conn { phase = ConnPhase.shutdown; going_away = true; buffer_read = [] },
        )
  buffer_goaway t whole =
      buffer_single zlib fuel n conn ctrl (omega arith) small header version (omega arith)
        (dispatch_goaway zlib fuel conn conn.buffer_read ctrl 8 (omega arith) t) (omega arith)

  -- Where the read buffer, shorter than 2 ^ 31, begins with a RST_STREAM frame of version 3 with a
  -- body of at least 8 bytes, and more than 8 bytes follow, but no more than the frame has,
  -- spdy_process_buffer reads past the bytes of the buffer.
  pub buffer_second_frame :
      ctrl.type ≡ 3
      → ctrl.length + 8 + 8 < length conn.buffer_read
      → length conn.buffer_read ≤ (ctrl.length + 8) + (ctrl.length + 8)
      → process_buffer zlib fuel (suc (suc n)) conn ≡ overrun
  buffer_second_frame t more short =
      buffer_stale zlib fuel n conn ctrl (omega arith) small header version (omega arith)
        (dispatch_rst zlib fuel conn conn.buffer_read ctrl 8 (omega arith) t) (omega arith)
        (omega arith)
