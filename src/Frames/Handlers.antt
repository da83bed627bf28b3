-- ===== src/Frames/Handlers.antt =====
-- What a frame does to the requests and the phase of its connection (src/connection-spdy.c).
use spdy_test.Prelude.{
  ℕ, ◌+◌, ◌≤◌, List, [], ◌∷◌, ◌≡◌, arith, Option-cases, ◌⊎◌, inl, inr, true, false, length,
}
use spdy_test.Ret.{Ret}
use spdy_test.Spdy.{Ctrl, read_ctrl}
use spdy_test.Zlib.{Zlib}
use spdy_test.Conn.{Request, Conn, any_freed}
use spdy_test.Frames.{
  returns, handle_syn_stream, handle_goaway, handle_rst_stream, dispatch, process_frame,
}

-- The requests behind the first.
abbrev pub behind : List Request → List Request
behind [] = []
behind (req ∷ reqs) = reqs

-- What a frame that is answered with ret_ok may change: the requests are the same, or one is linked in
-- front of them; none is freed, the writing side is as it was, and after a GOAWAY nothing is added and
-- nothing is taken back.
pub record Progress {Stream : Type 0} (conn conn' : Conn Stream) : Type 0 where
  pub live : any_freed conn'.requests ≡ any_freed conn.requests
  pub kept :
      (conn'.requests ≡ conn.requests)
      ⊎ ((behind conn'.requests ≡ conn.requests)
          × (length conn'.requests ≡ length conn.requests + 1))
  pub write_kept : conn'.buffer_write ≡ conn.buffer_write
  pub away :
      (conn.going_away ≡ false) ⊎ ((conn'.going_away ≡ true) × (conn'.requests ≡ conn.requests))

module _ (zlib : Zlib) (fuel : ℕ) where
  open zlib use {Stream}

  module _ (conn : Conn Stream) {conn' : Conn Stream} (buf : List ℕ) (ctrl : Ctrl) (pos : ℕ)
      {pos' : ℕ} where
    syn_stream_ok :
        handle_syn_stream zlib fuel conn buf ctrl pos ≡ returns (Ret.ok, conn', pos')
        → Progress conn conn' × (pos ≤ pos')
    unfolding handle_syn_stream
    syn_stream_ok h = ground arith

    goaway_ok :
        handle_goaway conn buf ctrl pos ≡ returns (Ret.ok, conn', pos')
        → Progress conn conn' × (pos ≤ pos')
    unfolding handle_goaway
    goaway_ok h = ground arith

    rst_stream_ok :
        handle_rst_stream conn buf ctrl pos ≡ returns (Ret.ok, conn', pos')
        → Progress conn conn' × (pos ≤ pos')
    unfolding handle_rst_stream
    rst_stream_ok h = ground arith

    dispatch_ok :
        dispatch zlib fuel conn buf ctrl pos ≡ returns (Ret.ok, conn', pos')
        → Progress conn conn' × (pos ≤ pos')
    unfolding dispatch
    dispatch_ok h = ground (arith, syn_stream_ok, goaway_ok, rst_stream_ok)

  -- Where spdy_process_frame answers ret_ok, `pos` has not gone back, the requests of the connection
  -- are the same, in their order and unchanged, or the same behind one that was linked in front, no
  -- request was freed, the write buffer is as it was, and a connection that was going away is still
  -- going away and has the same requests.
  pub process_frame_ok :
      (conn : Conn Stream) {conn' : Conn Stream} (buf : List ℕ) (pos : ℕ) {pos' : ℕ}
      → process_frame zlib fuel conn buf pos ≡ returns (Ret.ok, conn', pos')
      → Progress conn conn' × (pos ≤ pos')
  unfolding process_frame
  process_frame_ok conn {conn'} buf pos {pos'} h = elim (Option-cases (read_ctrl buf pos)) [
    | inl past ↦ ground arith
    | inr (ctrl, at) ↦
        ground (arith, dispatch_ok conn {conn' = conn'} buf ctrl (pos + 8) {pos' = pos'})
  ]
