-- ===== src/Frames/Streams.antt =====
-- SYN_STREAM frames (handle_SPDY_SYN_STREAM of src/connection-spdy.c).
use spdy_test.Prelude.{
  ℕ, suc, ◌+◌, ◌%◌, ◌^◌, ◌≤◌, ◌<◌, List, [], ◌∷◌, ◌++◌, some, ◌≡◌, ◌∙◌, arith, true, false, length,
  drop, get_elem?_in_range,
}
use spdy_test.Ret.{Ret}
use spdy_test.Header
use spdy_test.Header.{Header, add_header}
use spdy_test.Header.Fields.{Stores, add_header-Stores}
use spdy_test.Spdy.{Ctrl, read_ctrl, read_uint32}
use spdy_test.Spdy.Range.{read_uint32_in_range}
use spdy_test.NameValue.{htonl, entries}
use spdy_test.Zlib.{Zlib, spdy_zlib_inflate}
use spdy_test.Conn.{Conn, new_request}
use spdy_test.Frames.{
  returns, dispatch, handle_syn_stream, read_name_value, process_frame, process_buffer,
}
use spdy_test.Frames.Headers.{name_value_first_lem}
use spdy_test.Frames.Loop.{buffer_single, process_complete}

module _ (zlib : Zlib) (fuel : ℕ) (conn : Conn zlib.Stream) (buf : List ℕ) (ctrl : Ctrl) (pos : ℕ)
    (type : ctrl.type ≡ 1) where
  dispatch_syn_stream :
      {sid : ℕ} {zst : zlib.Stream} {header : Header}
      → conn.going_away ≡ false
      → pos + 10 ≤ length buf
      → read_uint32 buf pos ≡ some sid
      → read_name_value zlib fuel conn.zst_inflate buf (pos + 10) Header.init
        ≡ returns (Ret.ok, zst, header)
      → dispatch zlib fuel conn buf ctrl pos
        ≡ returns (
          Ret.ok,
          record conn {
            id = sid % 2 ^ 31;
            zst_inflate = zst;
            requests = record new_request { header = header } ∷ conn.requests;
          },
          pos + ctrl.length,
        )
  unfolding dispatch handle_syn_stream
  dispatch_syn_stream away inside r h = ground (
    arith,
    read_uint32_in_range buf (pos + 4) (omega arith),
    get_elem?_in_range buf (pos + 8) (omega arith),
    get_elem?_in_range buf (pos + 9) (omega arith),
  )

  -- After a GOAWAY, the handler leaves everything alone.
  pub dispatch_syn_stream_away :
      conn.going_away ≡ true → dispatch zlib fuel conn buf ctrl pos ≡ returns (Ret.ok, conn, pos)
  unfolding dispatch handle_syn_stream
  dispatch_syn_stream_away away = ground arith

-- On a connection that is going away, spdy_process_frame of a complete SYN_STREAM frame of version 3
-- at the start of a buffer shorter than 2 ^ 31 answers ret_ok, leaves the connection alone, and moves
-- `pos` over the 8 bytes of the header only, so that the frame's body is taken for the next frame.
frame_syn_stream_away :
    (zlib : Zlib) (fuel : ℕ) (conn : Conn zlib.Stream) (buf : List ℕ) (ctrl : Ctrl)
    → length buf < 2 ^ 31
    → read_ctrl buf 0 ≡ some ctrl
    → (ctrl.version ≡ 3) × (ctrl.type ≡ 1)
    → ctrl.length + 8 ≤ length buf
    → conn.going_away ≡ true
    → process_frame zlib fuel conn buf 0 ≡ returns (Ret.ok, conn, 8)
frame_syn_stream_away zlib fuel conn buf ctrl small header v complete away =
    process_complete zlib fuel conn buf ctrl small header v.0 complete
    ∙ dispatch_syn_stream_away zlib fuel conn buf ctrl 8 v.1 away

-- The connection behind one SYN_STREAM frame.
pub syn_stream_run :
    (zlib : Zlib) (fuel n : ℕ) (conn : Conn zlib.Stream) (ctrl : Ctrl) {sid : ℕ} {zst : zlib.Stream}
    (key val : List ℕ) (pairs : List (List ℕ × List ℕ)) (rest : List ℕ)
    → length conn.buffer_read < 2 ^ 31
    → read_ctrl conn.buffer_read 0 ≡ some ctrl
    → (ctrl.version ≡ 3) × (ctrl.type ≡ 1)
    → (10 ≤ ctrl.length) × (ctrl.length + 8 ≡ length conn.buffer_read)
    → conn.going_away ≡ false
    → read_uint32 conn.buffer_read 8 ≡ some sid
    → (length key < 2 ^ 31) × (length val < 2 ^ 31) × (length pairs + 1 < 2 ^ 31)
    → spdy_zlib_inflate zlib fuel conn.zst_inflate (drop 18 conn.buffer_read) []
      ≡ some (Ret.ok, zst, htonl (length pairs + 1) ++ (entries ((key, val) ∷ pairs) ++ rest))
    → process_buffer zlib fuel (suc (suc n)) conn
      ≡ returns (
        Ret.ok,
        record conn {
          id = sid % 2 ^ 31;
          zst_inflate = zst;
          requests = record new_request { header = add_header Header.init key val } ∷ conn.requests;
          buffer_read = [];
        },
      )
syn_stream_run zlib fuel n conn ctrl key val pairs rest small header v l away r k unpacked =
    let named =
      name_value_first_lem zlib fuel conn.zst_inflate conn.buffer_read 18 Header.init key val pairs
        rest k.0 k.1 k.2 unpacked in
    buffer_single zlib fuel n conn ctrl (omega arith) small header v.0 (omega arith)
      (dispatch_syn_stream zlib fuel conn conn.buffer_read ctrl 8 v.1 away (omega arith) r named)
      (omega arith)

-- Where the read buffer, shorter than 2 ^ 31, holds exactly one SYN_STREAM frame of version 3 with a
-- body of at least 10 bytes, the connection is not going away, and the rest of the body inflates to
-- a block with at least one pair, the first one with lengths below 2 ^ 31 and fewer than 2 ^ 31 pairs
-- in all, spdy_process_buffer answers ret_ok, empties the buffer, takes on the stream id
-- without its top bit, and links a new request in front, in whose header the first pair's value stands
-- in the field that its key names, ":path", ":method", ":scheme", ":version" or ":host" without regard
-- to case, and every other field is as in a new header.
pub buffer_syn_stream :
    (zlib : Zlib) (fuel n : ℕ) (conn : Conn zlib.Stream) (ctrl : Ctrl) {sid : ℕ} {zst : zlib.Stream}
    (key val : List ℕ) (pairs : List (List ℕ × List ℕ)) (rest : List ℕ)
    → length conn.buffer_read < 2 ^ 31
    → read_ctrl conn.buffer_read 0 ≡ some ctrl
    → (ctrl.version ≡ 3) × (ctrl.type ≡ 1)
    → (10 ≤ ctrl.length) × (ctrl.length + 8 ≡ length conn.buffer_read)
    → conn.going_away ≡ false
    → read_uint32 conn.buffer_read 8 ≡ some sid
    → (length key < 2 ^ 31) × (length val < 2 ^ 31) × (length pairs + 1 < 2 ^ 31)
    → spdy_zlib_inflate zlib fuel conn.zst_inflate (drop 18 conn.buffer_read) []
      ≡ some (Ret.ok, zst, htonl (length pairs + 1) ++ (entries ((key, val) ∷ pairs) ++ rest))
    → (header : Header) × (process_buffer zlib fuel (suc (suc n)) conn
        ≡ returns (
          Ret.ok,
          record conn {
            id = sid % 2 ^ 31;
            zst_inflate = zst;
            requests = record new_request { header = header } ∷ conn.requests;
            buffer_read = [];
          },
        ))
      × Stores key val Header.init header
buffer_syn_stream zlib fuel n conn ctrl key val pairs rest small header v l away r k unpacked = (
  add_header Header.init key val,
  syn_stream_run zlib fuel n conn ctrl key val pairs rest small header v l away r k unpacked,
  add_header-Stores Header.init key val,
)
