-- ===== src/Step/Phases.antt =====
-- The phases of a SPDY connection over conn_spdy_step of src/connection-spdy.c.
use spdy_test.Prelude.{ℕ, List, [], ◌∷◌, ◌++◌, ◌≡◌, ◌≢◌, ◌≤◌, arith, Option-cases, ◌⊎◌, inl, inr}
use spdy_test.Ret.{Ret}
use spdy_test.Zlib.{Zlib}
use spdy_test.Conn.{Conn, ConnPhase}
use spdy_test.Frames.{returns, process_buffer}
use spdy_test.Output.{process_requests}
use spdy_test.Step.{
  Action, recycles, Answers, io_requests, io_process, do_io, linger_step, shutdown_step, io_step,
  handshake_step, conn_spdy_step,
}
use spdy_test.Step.Follows.{Follows, io_write_phase, Run-cases, requests_phase, buffer_phase}

-- The answer of do_io, and its phase.
abbrev Ends : {Stream : Type 0} → Conn Stream → Ret → Conn Stream → Type 0
Ends conn r conn' = (r ≡ Ret.ok) × Follows conn conn'

module _ (zlib : Zlib) (fuel rounds : ℕ) (answers : Answers) where
  open zlib use {Stream}

  io_requests-Ends :
      (asked : List Action) (conn : Conn Stream) {r : Ret} {asked' : List Action}
      {conn' : Conn Stream}
      → io_requests zlib fuel rounds answers asked conn ≡ returns (r, asked', conn')
      → Ends conn r conn'
  unfolding io_requests
  io_requests-Ends asked conn {r} {asked'} {conn'} h =
      elim (Option-cases (process_requests zlib fuel conn.requests conn)) [
        | inl never ↦ absurd (ground (arith, never))
        | inr ((reqs, c), e) ↦
            let first = requests_phase zlib fuel conn.requests conn e in
            let last = io_write_phase answers asked (record c { requests = reqs }) in
            ground (arith, e, first, last)
      ]

  io_process-Ends :
      (conn : Conn Stream) {r : Ret} {asked' : List Action} {conn' : Conn Stream}
      → io_process zlib fuel rounds answers conn ≡ returns (r, asked', conn')
      → Ends conn r conn'
  unfolding io_process
  io_process-Ends conn {r} {asked'} {conn'} h =
      let whole = io_requests-Ends [] conn {r = r} {asked' = asked'} {conn' = conn'} in
      elim (Run-cases (process_buffer zlib fuel rounds conn)) [
        | inl ((r', c), e) ↦
            let first = buffer_phase zlib fuel rounds conn e in
            let rest = io_requests-Ends [] c {r = r} {asked' = asked'} {conn' = conn'} in
            let gone =
              io_requests-Ends (recycles ∷ []) c {r = r} {asked' = asked'} {conn' = conn'} in
            let last = io_write_phase answers [] c in
            ground (arith, e, first, whole, rest, gone, last)
        | inr never ↦ ground (arith, never, whole)
      ]

  do_io-Ends :
      (conn : Conn Stream) {r : Ret} {asked' : List Action} {conn' : Conn Stream}
      → do_io zlib fuel rounds answers conn ≡ returns (r, asked', conn')
      → Ends conn r conn'
  unfolding do_io
  do_io-Ends conn {r} {asked'} {conn'} h =
      let got = record conn { buffer_read = conn.buffer_read ++ answers.read.got } in
      ground (arith, io_process-Ends got {r = r} {asked' = asked'} {conn' = conn'})

-- The order of the phases.
abbrev pub rank : ConnPhase → ℕ
rank ConnPhase.handshake = 0
rank ConnPhase.io = 1
rank ConnPhase.shutdown = 2
rank ConnPhase.linger_read = 3

-- What a step does to the phase, and what it answers in the phase for input and output.
abbrev pub Advances : {Stream : Type 0} → Conn Stream → Ret → Conn Stream → Type 0
Advances conn r conn' =
    (rank conn.phase ≤ rank conn'.phase)
    × ((conn'.phase ≢ ConnPhase.linger_read) ⊎ (conn.phase ≡ ConnPhase.linger_read))
    × ((r ≡ Ret.ok) ⊎ (conn.phase ≢ ConnPhase.io))

Advances-Follows :
    {Stream : Type 0} (conn conn' : Conn Stream)
    → conn.phase ≡ ConnPhase.io
    → Follows conn conn'
    → Advances conn Ret.ok conn'
Advances-Follows conn conn' phase (inl same) = ground (arith, same, phase)
Advances-Follows conn conn' phase (inr over) = ground (arith, over, phase)

linger_phase :
    {Stream : Type 0} (answers : Answers) (conn : Conn Stream)
    → (linger_step answers [] conn).2.phase ≡ conn.phase
unfolding linger_step
linger_phase answers conn = ground arith

shutdown_phase :
    {Stream : Type 0} (answers : Answers) (conn : Conn Stream)
    → conn.phase ≡ ConnPhase.shutdown
    → (shutdown_step answers [] conn).2.phase ≡ ConnPhase.shutdown
unfolding shutdown_step linger_step
shutdown_phase answers conn phase = ground (arith, phase)

module _ (zlib : Zlib) (fuel rounds : ℕ) (answers : Answers) where
  open zlib use {Stream}

  io_step-Ends :
      (conn : Conn Stream) {r : Ret} {asked' : List Action} {conn' : Conn Stream}
      → io_step zlib fuel rounds answers conn ≡ returns (r, asked', conn')
      → Ends conn r conn'
  unfolding io_step
  io_step-Ends conn {r} {asked'} {conn'} h =
      elim (Run-cases (do_io zlib fuel rounds answers conn)) [
        | inl ((r', asked, c), e) ↦
            let first = do_io-Ends zlib fuel rounds answers conn e in ground (arith, e, first)
        | inr never ↦ ground (arith, never)
      ]

  handshake_ends :
      (conn : Conn Stream) {r : Ret} {asked' : List Action} {conn' : Conn Stream}
      → handshake_step zlib fuel rounds answers conn ≡ returns (r, asked', conn')
      → (conn'.phase ≡ conn.phase)
        ⊎ (conn'.phase ≡ ConnPhase.io)
        ⊎ (conn'.phase ≡ ConnPhase.shutdown)
  unfolding handshake_step
  handshake_ends conn {r} {asked'} {conn'} h =
      let io = record conn { phase = ConnPhase.io } in
      ground (arith, io_step-Ends io {r = r} {asked' = asked'} {conn' = conn'})

  -- Where conn_spdy_step returns, the connection has not gone back in the order handshake, io,
  -- shutdown, linger_read; it is in the last of these only if it was before; and in the phase io the
  -- step has answered ret_ok.
  pub conn_spdy_step_phases :
      (conn : Conn Stream) {r : Ret} {asked' : List Action} {conn' : Conn Stream}
      → conn_spdy_step zlib fuel rounds answers conn ≡ returns (r, asked', conn')
      → Advances conn r conn'
  unfolding conn_spdy_step
  conn_spdy_step_phases conn {r} {asked'} {conn'} h =
      let from_handshake = handshake_ends conn {r = r} {asked' = asked'} {conn' = conn'} in
      let from_io = io_step-Ends conn {r = r} {asked' = asked'} {conn' = conn'} in
      let from_shutdown = shutdown_phase answers conn in
      let from_linger = linger_phase answers conn in
      ground (arith, from_handshake, from_io, from_shutdown, from_linger)
