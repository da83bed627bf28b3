-- ===== src/Step/Freed.antt =====
-- A SYN_STREAM frame whose header block does not inflate, from the bytes read to the requests
-- (src/connection-spdy.c).
use spdy_test.Prelude.{
  ℕ, suc, ◌%◌, ◌^◌, List, [], ◌∷◌, some, ◌≡◌, refl, ◌∙◌, arith, false, length, drop, ltb,
  get_elem?_in_range, lt→ltb,
}
use spdy_test.Ret.{Ret}
use spdy_test.Header
use spdy_test.Spdy.{Ctrl}
use spdy_test.Spdy.Range.{read_uint32_in_range}
use spdy_test.Zlib.{Zlib, spdy_zlib_inflate}
use spdy_test.Conn.{Conn, ConnPhase, new_request}
use spdy_test.Frames.{
  returns, overrun, dispatch, handle_syn_stream, read_name_value, freed_request, process_loop,
  process_buffer,
}
use spdy_test.Frames.Loop.{process_complete}
use spdy_test.Step.{Answers, io_requests, io_process, io_step, conn_spdy_step}
use spdy_test.Step.Serves.{is_empty_of, buffer_of, IsSynStream, after_read, in_io}

module _ (zlib : Zlib) (fuel n : ℕ) (conn : Conn zlib.Stream) (ctrl : Ctrl) {sid : ℕ}
    {zst : zlib.Stream} {tmp : List ℕ} (syn : IsSynStream conn.buffer_read ctrl sid)
    (away : conn.going_away ≡ false)
    (refused : spdy_zlib_inflate zlib fuel conn.zst_inflate (drop 18 conn.buffer_read) []
      ≡ some (Ret.error, zst, tmp)) where
  abbrev left : Conn zlib.Stream
  left = record conn {
    id = sid % 2 ^ 31;
    zst_inflate = zst;
    requests = freed_request new_request ∷ conn.requests;
  }

  not_read :
      read_name_value zlib fuel conn.zst_inflate conn.buffer_read 18 Header.init
      ≡ returns (Ret.error, zst, Header.init)
  unfolding read_name_value
  not_read = rw refused refl

  dispatch_refused : dispatch zlib fuel conn conn.buffer_read ctrl 8 ≡ returns (Ret.error, left, 8)
  unfolding dispatch handle_syn_stream
  dispatch_refused =
      let (small, header, v, l, id) = syn in
      ground (
        arith,
        not_read,
        read_uint32_in_range conn.buffer_read 12 (omega arith),
        get_elem?_in_range conn.buffer_read 16 (omega arith),
        get_elem?_in_range conn.buffer_read 17 (omega arith),
      )

  buffer_refused : process_buffer zlib fuel (suc n) conn ≡ returns (Ret.error, left)
  unfolding process_buffer process_loop
  buffer_refused =
      let (small, header, v, l, id) = syn in
      let buf = conn.buffer_read in
      let not_short : ltb (length buf) 12 ≡ false = ground arith in
      let frame = process_complete zlib fuel conn buf ctrl small header v.0 (omega arith) in
      rw not_short (rw (lt→ltb 8 (length buf) (omega arith)) (rw (frame ∙ dispatch_refused) refl))

  process_refused : (answers : Answers) → io_process zlib fuel (suc n) answers conn ≡ overrun
  unfolding io_process io_requests
  process_refused answers =
      let full = is_empty_of conn.buffer_read (omega (arith, syn)) in
      rw (full, io_process) (rw buffer_refused refl)

-- Where a connection in its phase for input and output, which is not going away, reads the end of
-- exactly one SYN_STREAM frame of version 3, shorter than 2 ^ 31, whose header block the inflation
-- refuses with ret_error, conn_spdy_step reads memory that was freed: the new request is freed while it
-- is linked, and the loop over the requests comes to it in the same step.
pub syn_stream_refused :
    (zlib : Zlib) (fuel n : ℕ) (answers : Answers) (conn : Conn zlib.Stream) (ctrl : Ctrl) {sid : ℕ}
    {zst : zlib.Stream} {tmp : List ℕ}
    → conn.phase ≡ ConnPhase.io
    → conn.going_away ≡ false
    → answers.read.ret ≡ Ret.ok
    → IsSynStream (buffer_of answers conn) ctrl sid
    → spdy_zlib_inflate zlib fuel conn.zst_inflate (drop 18 (buffer_of answers conn)) []
      ≡ some (Ret.error, zst, tmp)
    → conn_spdy_step zlib fuel (suc n) answers conn ≡ overrun
unfolding io_step
syn_stream_refused zlib fuel n answers conn ctrl phase away got syn refused =
    let read = record conn { buffer_read = buffer_of answers conn } in
    let runs =
      after_read zlib fuel (suc n) answers conn got
      ∙ process_refused zlib fuel n read ctrl syn away refused answers in
    in_io zlib fuel (suc n) answers conn phase ∙ rw runs refl
