-- ===== src/Step.antt =====
-- The step machine of a SPDY connection: do_io and conn_spdy_step of src/connection-spdy.c.
pub mod Serves
pub mod Freed
pub mod Follows
pub mod Phases
use spdy_test.Prelude.{ℕ, List, [], ◌∷◌, ◌++◌, Bool, true, false, ◌&&◌, if◌then◌else◌}
use spdy_test.Ret.{Ret}
use spdy_test.Zlib.{Zlib}
use spdy_test.Conn.{Request, Conn, ConnPhase, any_freed}
use spdy_test.Frames.{Run, returns, overrun, loops, ◌>>=◌, process_buffer}
use spdy_test.Output.{is_empty, do_write, process_requests}
use spdy_test.Socket.{Read, Wanted, ev_none, ev_read, ev_write, do_read_ret}

-- What a step asks of the thread: http2d_connection_move_to_polling, http2d_thread_recycle_conn.
pub data Action : Type 0 where
  polls : Wanted → Action
  recycles : Action

-- The answers of one step: _http2d_socket_ssl_init, http2d_socket_read_buf, http2d_socket_write_buf
-- with `wanted_io` behind it, http2d_socket_shutdown, and _http2d_connection_do_linger_read, where
-- `ev_none` is the -1 that `wanted_io` starts with.
pub record Answers : Type 0 where
  pub handshake : Ret × Wanted
  pub read : Read
  pub write : List ℕ → Ret × ℕ
  pub wanted : Wanted
  pub shut : Ret
  pub linger : Ret × Wanted

-- "if (wanted_io != 0)"
abbrev pub poll : Wanted → List Action
poll ev_none = []
poll ev_read = polls ev_read ∷ []
poll ev_write = polls ev_write ∷ []

-- What a step returns: its code, what it asked for, and the connection.
abbrev pub Stepped : Type 0 → Type 0
Stepped Stream = Ret × List Action × Conn Stream

module _ {Stream : Type 0} (answers : Answers) where
  -- From the label `write` on.
  unfoldable pub io_write : List Action → Conn Stream → Stepped Stream
  io_write asked conn =
      let (ret, conn') = do_write answers.write conn in
      if is_empty conn.buffer_write && is_empty conn.buffer_write_ssl
      then (Ret.ok, asked, conn)
      else elim ret [
        | Ret.eagain ↦ (Ret.ok, asked ++ poll answers.wanted, conn')
        | Ret.eof ↦ (Ret.ok, asked ++ (recycles ∷ []), conn')
        | _ ↦ (Ret.ok, asked, conn')
      ]

  unfoldable pub linger_step : List Action → Conn Stream → Stepped Stream
  linger_step asked conn =
      let (ret, wanted) = answers.linger in
      elim ret [
        | Ret.eagain ↦ elim wanted [
          | ev_none ↦ (Ret.error, asked, conn)
          | w ↦ (Ret.ok, asked ++ (polls w ∷ []), conn)
        ]
        | _ ↦ (Ret.eof, asked, conn)
      ]

  -- With _http2d_connection_do_shutdown.
  unfoldable pub shutdown_step : List Action → Conn Stream → Stepped Stream
  shutdown_step asked conn =
      let down = record conn { is_tls = false } in
      elim answers.shut [
        | Ret.ok ↦ linger_step asked (record down { phase = ConnPhase.shutdown })
        | _ ↦ (Ret.error, asked, down)
      ]

module _ (zlib : Zlib) (fuel rounds : ℕ) (answers : Answers) where
  open zlib use {Stream}

  -- From "Process requests" on. The requests of a connection that was recycled are stepped too; a
  -- request that was freed and is still linked is read there.
  unfoldable pub io_requests : List Action → Conn Stream → Run (Stepped Stream)
  io_requests asked conn = if any_freed conn.requests then overrun else do
    (reqs, conn') ← loops (process_requests zlib fuel conn.requests conn)
    returns (io_write answers asked (record conn' { requests = reqs }))

  -- From "Process what's in the buffer" on.
  unfoldable pub io_process : Conn Stream → Run (Stepped Stream)
  io_process conn = if is_empty conn.buffer_read then io_requests [] conn else do
    (ret, conn') ← process_buffer zlib fuel rounds conn
    elim ret [
      | Ret.ok ↦ io_requests [] conn'
      | Ret.error ↦ io_requests (recycles ∷ []) conn'
      | _ ↦ returns (io_write answers [] conn')
    ]

  -- The read appends what it got; see Socket.do_read for the buffer itself.
  unfoldable pub do_io : Conn Stream → Run (Stepped Stream)
  do_io conn =
      let read = record conn { buffer_read = conn.buffer_read ++ answers.read.got } in
      let rest = io_process read in
      elim (do_read_ret answers.read.ret) [
        | Ret.eagain ↦ returns (Ret.ok, poll answers.read.wanted, read)
        | Ret.eof ↦ returns (Ret.ok, recycles ∷ [], read)
        | _ ↦ rest
      ]

  unfoldable pub io_step : Conn Stream → Run (Stepped Stream)
  io_step conn = do
    (ret, asked, conn') ← do_io conn
    elim ret [
      | Ret.ok ↦ returns (Ret.ok, asked, conn')
      | Ret.eagain ↦ returns (Ret.ok, asked, conn')
      | Ret.eof ↦ returns (shutdown_step answers asked conn')
      | _ ↦ returns (Ret.error, asked, conn')
    ]

  unfoldable pub handshake_step : Conn Stream → Run (Stepped Stream)
  handshake_step conn =
      let rest = io_step (record conn { phase = ConnPhase.io }) in
      let (ret, wanted) = answers.handshake in
      if conn.is_tls
      then elim ret [
        | Ret.ok ↦ rest
        | Ret.eof ↦ returns (Ret.eof, [], conn)
        | Ret.eagain ↦ returns (Ret.ok, poll wanted, conn)
        | _ ↦ returns (Ret.error, [], conn)
      ]
      else rest

  unfoldable pub conn_spdy_step : Conn Stream → Run (Stepped Stream)
  conn_spdy_step conn = elim conn.phase [
    | ConnPhase.handshake ↦ handshake_step conn
    | ConnPhase.io ↦ io_step conn
    | ConnPhase.shutdown ↦ returns (shutdown_step answers [] conn)
    | ConnPhase.linger_read ↦ returns (linger_step answers [] conn)
  ]
