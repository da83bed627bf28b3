-- ===== src/Step/Follows.antt =====
-- What the parts of do_io of src/connection-spdy.c do to the phase of the connection.
use spdy_test.Prelude.{
  ℕ, zero, suc, ◌+◌, List, [], ◌∷◌, ◌≡◌, refl, arith, some, Option-cases, ◌⊎◌, inl, inr, drop,
}
use spdy_test.Ret.{Ret}
use spdy_test.Spdy.{Ctrl, read_ctrl}
use spdy_test.Zlib.{Zlib}
use spdy_test.Conn.{Request, Conn, ConnPhase}
use spdy_test.Request.{step, add_headers, header_finish, hello_world}
use spdy_test.Frames.{
  Run, returns, overrun, exited, stuck, handle_syn_stream, handle_goaway, handle_rst_stream,
  dispatch, process_frame, process_loop, process_buffer,
}
use spdy_test.Output.{do_write, swap_write_buffers, process_requests}
use spdy_test.Step.{Action, Answers, io_write}

-- A connection stays in its phase, or goes over to its shutdown.
abbrev pub Follows : {Stream : Type 0} → Conn Stream → Conn Stream → Type 0
Follows conn conn' = (conn'.phase ≡ conn.phase) ⊎ (conn'.phase ≡ ConnPhase.shutdown)

module _ (zlib : Zlib) (fuel : ℕ) where
  open zlib use {Stream}

  module _ (conn : Conn Stream) {conn' : Conn Stream} (buf : List ℕ) (ctrl : Ctrl) (pos : ℕ)
      {r : Ret} {pos' : ℕ} where
    syn_stream_phase :
        handle_syn_stream zlib fuel conn buf ctrl pos ≡ returns (r, conn', pos')
        → Follows conn conn'
    unfolding handle_syn_stream
    syn_stream_phase h = ground arith

    goaway_phase : handle_goaway conn buf ctrl pos ≡ returns (r, conn', pos') → Follows conn conn'
    unfolding handle_goaway
    goaway_phase h = ground arith

    rst_stream_phase :
        handle_rst_stream conn buf ctrl pos ≡ returns (r, conn', pos') → Follows conn conn'
    unfolding handle_rst_stream
    rst_stream_phase h = ground arith

    dispatch_phase :
        dispatch zlib fuel conn buf ctrl pos ≡ returns (r, conn', pos') → Follows conn conn'
    unfolding dispatch
    dispatch_phase h = ground (arith, syn_stream_phase, goaway_phase, rst_stream_phase)

  process_frame_phase :
      (conn : Conn Stream) {conn' : Conn Stream} (buf : List ℕ) (pos : ℕ) {r : Ret} {pos' : ℕ}
      → process_frame zlib fuel conn buf pos ≡ returns (r, conn', pos')
      → Follows conn conn'
  unfolding process_frame
  process_frame_phase conn {conn'} buf pos {r} {pos'} h = elim (Option-cases (read_ctrl buf pos)) [
    | inl past ↦ ground arith
    | inr (ctrl, at) ↦
        ground (arith, dispatch_phase conn {conn' = conn'} buf ctrl (pos + 8) {r = r} {pos' = pos'})
  ]

  step_phase :
      (req : Request) (conn : Conn Stream) {r : Ret} {req' : Request} {conn' : Conn Stream}
      → step zlib fuel req conn ≡ some (r, req', conn')
      → conn'.phase ≡ conn.phase
  unfolding step add_headers header_finish hello_world
  step_phase req conn h = ground arith

pub io_write_phase :
    {Stream : Type 0} (answers : Answers) (asked : List Action) (conn : Conn Stream)
    → ((io_write answers asked conn).0 ≡ Ret.ok)
      × ((io_write answers asked conn).2.phase ≡ conn.phase)
unfolding io_write do_write swap_write_buffers
io_write_phase answers asked conn = ground arith

pub Run-cases :
    {A : Type 0} (x : Run A)
    → ((a : A) × (x ≡ returns a)) ⊎ (x ≡ overrun) ⊎ (x ≡ exited) ⊎ (x ≡ stuck)
Run-cases (returns a) = inl (a, refl)
Run-cases overrun = inr (inl refl)
Run-cases exited = inr (inr (inl refl))
Run-cases stuck = inr (inr (inr refl))

module _ (zlib : Zlib) (fuel : ℕ) where
  open zlib use {Stream}

  pub requests_phase :
      (reqs : List Request) (conn : Conn Stream) {reqs' : List Request} {conn' : Conn Stream}
      → process_requests zlib fuel reqs conn ≡ some (reqs', conn')
      → conn'.phase ≡ conn.phase
  unfolding process_requests
  requests_phase [] conn h = ground arith
  requests_phase (req ∷ reqs) conn {reqs'} {conn'} h =
      elim (Option-cases (step zlib fuel req conn)) [
        | inl never ↦ absurd (ground (arith, never))
        | inr ((r, req1, conn1), e) ↦ elim (Option-cases (process_requests zlib fuel reqs conn1)) [
          | inl never ↦ absurd (ground (arith, e, never))
          | inr ((reqs2, conn2), e2) ↦
              let first = step_phase zlib fuel req conn e in
              let rest = requests_phase reqs conn1 e2 in ground (arith, e, e2, first, rest)
        ]
      ]

  loop_phase :
      (n : ℕ) (ret : Ret) (conn : Conn Stream) (buf : List ℕ) (pos : ℕ) {r : Ret}
      {conn' : Conn Stream} {left : List ℕ}
      → process_loop zlib fuel n ret conn buf pos ≡ returns (r, conn', left)
      → Follows conn conn'
  unfolding process_loop
  loop_phase zero ret conn buf pos h = absurd cc
  loop_phase (suc n) ret conn buf pos {r} {conn'} {left} h =
      elim (Run-cases (process_frame zlib fuel conn buf pos)) [
        | inl ((r', c, p), e) ↦
            let first = process_frame_phase zlib fuel conn buf pos e in
            let rest = loop_phase n Ret.ok c (drop p buf) p {r = r} {conn' = conn'} {left = left} in
            ground (arith, e, first, rest)
        | inr never ↦ ground (arith, never)
      ]

  pub buffer_phase :
      (n : ℕ) (conn : Conn Stream) {r : Ret} {conn' : Conn Stream}
      → process_buffer zlib fuel n conn ≡ returns (r, conn')
      → Follows conn conn'
  unfolding process_buffer
  buffer_phase n conn {r} {conn'} h =
      elim (Run-cases (process_loop zlib fuel n Ret.ok conn conn.buffer_read 0)) [
        | inl ((r', c, left), e) ↦
            let first = loop_phase n Ret.ok conn conn.buffer_read 0 e in ground (arith, e, first)
        | inr never ↦ ground (arith, never)
      ]
