-- ===== src/Frames/Loop.antt =====
-- The loop of spdy_process_buffer (src/connection-spdy.c) on a frame that is not complete, and on
-- one that is.
use spdy_test.Prelude.{
  ℕ, zero, suc, ◌+◌, ◌-◌, ◌^◌, ◌≤◌, ◌<◌, List, [], some, ◌≡◌, refl, ◌∙◌, arith, false, ltb, lt→ltb,
  length, drop, drop_of_length-le, length-drop,
}
use spdy_test.Ret.{Ret}
use spdy_test.Spdy.{Ctrl, read_ctrl}
use spdy_test.Spdy.Range.{read_ctrl_past}
use spdy_test.Zlib.{Zlib}
use spdy_test.Conn.{Conn}
use spdy_test.Frames.{
  returns, stuck, overrun, dispatch, process_frame, process_loop, process_buffer,
}

module _ (zlib : Zlib) (fuel : ℕ) (conn : Conn (zlib.Stream)) (buf : List ℕ) (ctrl : Ctrl)
    (small : length buf < 2 ^ 31) (header : read_ctrl buf 0 ≡ some ctrl)
    (version : ctrl.version ≡ 3) where
  process_incomplete :
      8 < length buf
      → length buf < ctrl.length + 8
      → process_frame zlib fuel conn buf 0 ≡ returns (Ret.ok, conn, 0)
  unfolding process_frame
  process_incomplete h k = ground arith

  -- On an incomplete frame the loop makes no progress, however much fuel it has.
  pub loop_incomplete :
      8 < length buf
      → length buf < ctrl.length + 8
      → (n : ℕ) (ret : Ret) → process_loop zlib fuel n ret conn buf 0 ≡ stuck
  unfolding process_loop
  loop_incomplete h k zero ret = refl
  loop_incomplete h k (suc n) ret =
      rw (lt→ltb 8 (length buf) h) (rw (process_incomplete h k) (loop_incomplete h k n Ret.ok))

  pub process_complete :
      ctrl.length + 8 ≤ length buf
      → process_frame zlib fuel conn buf 0 ≡ dispatch zlib fuel conn buf ctrl 8
  unfolding process_frame
  process_complete h = ground arith

-- A header at or past the end of what is left in the buffer is a read past it.
frame_past :
    (zlib : Zlib) (fuel : ℕ) (conn : Conn zlib.Stream) (buf : List ℕ) (pos : ℕ)
    → 8 < length buf
    → length buf ≤ pos
    → process_frame zlib fuel conn buf pos ≡ overrun
unfolding process_frame
frame_past zlib fuel conn buf pos h k = ground (arith, read_ctrl_past buf pos k)

-- Where the read buffer holds at least 12 and less than 2 ^ 31 bytes and begins with a header of
-- version 3 whose frame is longer than the buffer, spdy_process_buffer does not return: no amount of
-- fuel is enough for its loop.
pub buffer_incomplete :
    (zlib : Zlib) (fuel n : ℕ) (conn : Conn zlib.Stream) (ctrl : Ctrl)
    → 12 ≤ length conn.buffer_read
    → length conn.buffer_read < 2 ^ 31
    → read_ctrl conn.buffer_read 0 ≡ some ctrl
    → ctrl.version ≡ 3
    → length conn.buffer_read < ctrl.length + 8
    → process_buffer zlib fuel n conn ≡ stuck
unfolding process_buffer
buffer_incomplete zlib fuel n conn ctrl h s r v k =
    let long : ltb (length conn.buffer_read) 12 ≡ false = ground arith in
    rw long
      (rw (loop_incomplete zlib fuel conn conn.buffer_read ctrl s r v (omega arith) k n Ret.ok))

module _ (zlib : Zlib) (fuel n : ℕ) (conn : Conn zlib.Stream) {conn' : Conn zlib.Stream}
    (ctrl : Ctrl) (long : 12 ≤ length conn.buffer_read) (small : length conn.buffer_read < 2 ^ 31)
    (header : read_ctrl conn.buffer_read 0 ≡ some ctrl) (version : ctrl.version ≡ 3) where
  -- A complete frame that fills the buffer is handled in one round.
  pub buffer_single :
      {pos : ℕ}
      → ctrl.length + 8 ≤ length conn.buffer_read
      → dispatch zlib fuel conn conn.buffer_read ctrl 8 ≡ returns (Ret.ok, conn', pos)
      → length conn.buffer_read ≤ pos
      → process_buffer zlib fuel (suc (suc n)) conn
        ≡ returns (Ret.ok, record conn' { buffer_read = [] })
  unfolding process_buffer process_loop
  buffer_single {pos} complete handled whole =
      let not_short : ltb (length conn.buffer_read) 12 ≡ false = ground arith in
      let frame =
        process_complete zlib fuel conn conn.buffer_read ctrl small header version complete in
      let gone : drop pos conn.buffer_read ≡ [] = drop_of_length-le pos conn.buffer_read whole in
      rw not_short
        (rw (lt→ltb 8 (length conn.buffer_read) (omega arith)) (rw (frame ∙ handled) (rw gone)))

  -- After a first frame that leaves more than 8 bytes, but no more than it took, the second round
  -- reads past the buffer: `pos` was not set back.
  pub buffer_stale :
      {pos : ℕ}
      → ctrl.length + 8 ≤ length conn.buffer_read
      → dispatch zlib fuel conn conn.buffer_read ctrl 8 ≡ returns (Ret.ok, conn', pos)
      → 8 + pos < length conn.buffer_read
      → length conn.buffer_read ≤ pos + pos
      → process_buffer zlib fuel (suc (suc n)) conn ≡ overrun
  unfolding process_buffer process_loop
  buffer_stale {pos} complete handled more short =
      let buf = conn.buffer_read in
      let not_short : ltb (length buf) 12 ≡ false = ground arith in
      let frame = process_complete zlib fuel conn buf ctrl small header version complete in
      let l : length (drop pos buf) ≡ length buf - pos = length-drop pos buf in
      let past = frame_past zlib fuel conn' (drop pos buf) pos (omega arith) (omega arith) in
      rw not_short (
        rw (lt→ltb 8 (length buf) (omega arith))
          (rw (frame ∙ handled) (rw (lt→ltb 8 (length (drop pos buf)) (omega arith)) (rw past))))
