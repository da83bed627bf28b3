-- ===== src/Frames.antt =====
-- The reading side of a SPDY connection (src/connection-spdy.c): the frames of its read buffer.
pub mod Headers
pub mod Handlers
pub mod Loop
pub mod Single
pub mod Streams
use spdy_test.Prelude.{
  ℕ, zero, suc, ◌+◌, ◌-◌, ◌/◌, ◌%◌, ◌^◌, List, [], ◌∷◌, Option, none, some, Bool, true, false, ltb,
  leb, ◌==◌, if◌then◌else◌, length, take, drop, get_elem?,
}
use spdy_test.Ret.{Ret}
use spdy_test.Header.{Header, add_header}
use spdy_test.Spdy.{
  Ctrl, read_uint32, read_ctrl, spdy_mask_stream_id, spdy_frame_head_length, spdy_syn_stream,
  spdy_rst_stream, spdy_goaway,
}
use spdy_test.Zlib.{Zlib, spdy_zlib_inflate}
use spdy_test.Conn.{Request, Conn, ConnPhase, new_request}

-- How a piece of code ends: it returns, it reads past the bytes that a buffer holds or memory that was
-- freed, the process exits, or a loop has used up the fuel that it is run on.
pub data Run {ℓ} (A : Type ℓ) : Type ℓ where
  returns : A → Run A
  overrun exited stuck : Run A

infixl 5 ◌>>=◌
abbrev pub ◌>>=◌ {ℓ κ} : {A : Type ℓ} {B : Type κ} → Run A → (A → Run B) → Run B
returns a >>= f = f a
overrun >>= f = overrun
exited >>= f = exited
stuck >>= f = stuck

-- A read, and a loop on fuel.
abbrev pub reads {ℓ} : {A : Type ℓ} → Option A → Run A
reads none = overrun
reads (some a) = returns a

abbrev pub loops {ℓ} : {A : Type ℓ} → Option A → Run A
loops none = stuck
loops (some a) = returns a

-- `n` bytes at `p`.
unfoldable pub span : List ℕ → ℕ → ℕ → Run (List ℕ)
span tmp p n = if leb (p + n) (length tmp) then returns (take n (drop p tmp)) else overrun

-- One round of the loop of read_name_value, at `p`. The two lengths are `int`: where one is negative,
-- the pointers run backwards, and the model counts that as a read outside the buffer.
unfoldable pub read_entry : List ℕ → ℕ → Header → Run Header
read_entry tmp p header = do
  len_key ← reads (read_uint32 tmp p)
  len_val ← reads (read_uint32 tmp (p + 4 + len_key))
  key ← span tmp (p + 4) len_key
  val ← span tmp (p + 4 + len_key + 4) len_val
  returns (add_header header key val)

-- The loop: `p` is the same in every round.
unfoldable pub read_entries : ℕ → List ℕ → ℕ → Header → Run Header
read_entries zero tmp p header = returns header
read_entries (suc n) tmp p header = do
  header' ← read_entry tmp p header
  read_entries n tmp p header'

-- An `int` that was read as a uint32_t: the rounds that a loop up to it makes.
abbrev pub rounds : ℕ → ℕ
rounds n = if ltb n (2 ^ 31) then n else 0

abbrev pub freed_request : Request → Request
freed_request req = record req { freed = true }

module _ (zlib : Zlib) (fuel : ℕ) where
  open zlib use {Stream}

  -- read_name_value: the block is deflated from `pos` to the end of the buffer.
  unfoldable pub read_name_value : Stream → List ℕ → ℕ → Header → Run (Ret × Stream × Header)
  read_name_value zst buf pos header = do
    (ret, zst', tmp) ← loops (spdy_zlib_inflate zlib fuel zst (drop pos buf) [])
    elim ret [
      | Ret.ok ↦ do
        header_num ← reads (read_uint32 tmp 0)
        header' ← read_entries (rounds header_num) tmp 4 header
        returns (Ret.ok, zst', header')
      | other ↦ returns (other, zst', header)
    ]

  -- handle_SPDY_SYN_STREAM: what is returned, the connection, and `*pos`. `p[8]` and `p[9]` are read
  -- for the priority and the slot, which are only printed.
  unfoldable pub handle_syn_stream : Conn Stream → List ℕ → Ctrl → ℕ → Run (Ret × Conn Stream × ℕ)
  handle_syn_stream conn buf ctrl pos = if conn.going_away then returns (Ret.ok, conn, pos) else do
    stream_id ← reads (read_uint32 buf pos)
    assoc_stream_id ← reads (read_uint32 buf (pos + 4))
    pri ← reads (get_elem? buf (pos + 8))
    slot ← reads (get_elem? buf (pos + 9))
    (ret, zst, header) ← read_name_value conn.zst_inflate buf (pos + 10) new_request.header
    let conn' = record conn { id = spdy_mask_stream_id stream_id; zst_inflate = zst }
    let req = record new_request { header = header }
    elim ret [
      | Ret.ok ↦
          returns (Ret.ok, record conn' { requests = req ∷ conn.requests }, pos + ctrl.length)
      | _ ↦ returns (Ret.error, record conn' { requests = freed_request req ∷ conn.requests }, pos)
    ]

module _ {Stream : Type 0} where
  -- handle_SPDY_GOAWAY
  unfoldable pub handle_goaway : Conn Stream → List ℕ → Ctrl → ℕ → Run (Ret × Conn Stream × ℕ)
  handle_goaway conn buf ctrl pos = do
    last_good_id ← reads (read_uint32 buf pos)
    status_code ← reads (read_uint32 buf (pos + 4))
    returns
        (Ret.ok, record conn { phase = ConnPhase.shutdown; going_away = true }, pos + ctrl.length)

  -- handle_SPDY_RST_STREAM: every status code is only reported.
  unfoldable pub handle_rst_stream : Conn Stream → List ℕ → Ctrl → ℕ → Run (Ret × Conn Stream × ℕ)
  handle_rst_stream conn buf ctrl pos = do
    stream_id ← reads (read_uint32 buf pos)
    status_code ← reads (read_uint32 buf (pos + 4))
    returns (Ret.ok, conn, pos + ctrl.length)

module _ (zlib : Zlib) (fuel : ℕ) where
  open zlib use {Stream}

  -- "Parse frame"; an unknown type ends the process.
  unfoldable pub dispatch : Conn Stream → List ℕ → Ctrl → ℕ → Run (Ret × Conn Stream × ℕ)
  dispatch conn buf ctrl pos =
      if ctrl.type == spdy_syn_stream
      then handle_syn_stream zlib fuel conn buf ctrl pos
      else if ctrl.type == spdy_rst_stream
      then handle_rst_stream conn buf ctrl pos
      else if ctrl.type == spdy_goaway
      then handle_goaway conn buf ctrl pos
      else exited

  -- spdy_process_frame. `buf->len - (*pos + 8)` is an unsigned 32-bit difference.
  unfoldable pub process_frame : Conn Stream → List ℕ → ℕ → Run (Ret × Conn Stream × ℕ)
  process_frame conn buf pos =
      if ltb (length buf) spdy_frame_head_length then returns (Ret.eagain, conn, pos) else do
        ctrl ← reads (read_ctrl buf pos)
        (if ctrl.version == 3
            then (if ltb ((length buf + 2 ^ 32 - (pos + 8)) % 2 ^ 32) ctrl.length
                then returns (Ret.ok, conn, pos)
                else dispatch conn buf ctrl (pos + 8))
            else returns (Ret.error, conn, pos))

  -- The loop of spdy_process_buffer, on fuel: what is returned, the connection, and the bytes left.
  -- `ret` is the answer of the round before. http2d_buffer_move_to_begin drops `pos` bytes.
  unfoldable pub process_loop :
      ℕ → Ret → Conn Stream → List ℕ → ℕ → Run (Ret × Conn Stream × List ℕ)
  process_loop zero ret conn buf pos = stuck
  process_loop (suc n) ret conn buf pos =
      let frame = process_frame conn buf pos in
      let round = (do
        (ret', conn', pos') ← frame
        elim ret' [
          | Ret.ok ↦ process_loop n Ret.ok conn' (drop pos' buf) pos'
          | Ret.eagain ↦ returns (Ret.ok, conn', buf)
          | other ↦ returns (other, conn', buf)
        ]) in
      if ltb 8 (length buf) then round else returns (ret, conn, buf)

  -- spdy_process_buffer, on the read buffer of the connection. With 12 bytes the loop runs at
  -- least once, so the uninitialised `ret` is never returned.
  unfoldable pub process_buffer : ℕ → Conn Stream → Run (Ret × Conn Stream)
  process_buffer n conn = if ltb (length conn.buffer_read) 12 then returns (Ret.ok, conn) else do
    (ret, conn', buf) ← process_loop n Ret.ok conn conn.buffer_read 0
    returns (ret, record conn' { buffer_read = buf })
