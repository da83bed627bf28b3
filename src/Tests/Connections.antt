-- ===== src/Tests/Connections.antt =====
-- The theorems about src/connection-spdy.c at concrete read buffers.
use spdy_test.Prelude.{ℕ, ◌≤◌, List, [], ◌∷◌, ◌++◌, ◌≡◌, refl, arith}
use spdy_test.Ret.{Ret}
use spdy_test.Header
use spdy_test.Header.{Header, codes, add_header}
use spdy_test.Header.Fields.{Stores}
use spdy_test.Spdy.{Ctrl, read_ctrl, read_uint16, read_uint32}
use spdy_test.NameValue.{entries}
use spdy_test.Zlib.{spdy_zlib_inflate}
use spdy_test.Conn.{Conn, new_request}
use spdy_test.Frames.{
  returns, stuck, overrun, read_name_value, handle_syn_stream, process_frame, process_buffer,
  dispatch, read_entries, read_entry, span,
}
use spdy_test.Frames.Handlers.{Progress, process_frame_ok}
use spdy_test.Frames.Loop.{buffer_incomplete}
use spdy_test.Frames.Single.{buffer_second_frame}
use spdy_test.Frames.Streams.{buffer_syn_stream}
use spdy_test.Tests.Requests.{storing, quiet}

abbrev with_input : List ℕ → Conn ℕ
with_input buf = record quiet { buffer_read = buf }

-- A RST_STREAM frame of stream 5.
abbrev rst : List ℕ
rst = 128 ∷ 3 ∷ 0 ∷ 3 ∷ 0 ∷ 0 ∷ 0 ∷ 8 ∷ 0 ∷ 0 ∷ 0 ∷ 5 ∷ 0 ∷ 0 ∷ 0 ∷ 5 ∷ []

abbrev rst_ctrl : Ctrl
rst_ctrl = record { version = 3; type = 3; flags = 0; length = 8 }

abbrev two_pairs : List (List ℕ × List ℕ)
two_pairs = (codes ":path", codes "/") ∷ (codes ":method", codes "GET") ∷ []

-- The two pairs as an uncompressed block of 4 + 14 + 18 bytes.
abbrev pub block : List ℕ
block =
    (0 ∷ 0 ∷ 0 ∷ 2 ∷ [])
    ++ ((0 ∷ 0 ∷ 0 ∷ 5 ∷ [])
        ++ (codes ":path"
            ++ ((0 ∷ 0 ∷ 0 ∷ 1 ∷ [])
                ++ (codes "/"
                    ++ ((0 ∷ 0 ∷ 0 ∷ 7 ∷ [])
                        ++ (codes ":method" ++ ((0 ∷ 0 ∷ 0 ∷ 3 ∷ []) ++ codes "GET")))))))

-- A SYN_STREAM frame of stream 7 with that block.
abbrev syn : List ℕ
syn = 128 ∷ 3 ∷ 0 ∷ 1 ∷ 0 ∷ 0 ∷ 0 ∷ 46 ∷ 0 ∷ 0 ∷ 0 ∷ 7 ∷ 0 ∷ 0 ∷ 0 ∷ 0 ∷ 0 ∷ 0 ∷ block

abbrev pub syn_ctrl : Ctrl
syn_ctrl = record { version = 3; type = 1; flags = 0; length = 46 }

buffer_second_frame_example : process_buffer storing 1 2 (with_input (rst ++ rst)) ≡ overrun
unfolding read_ctrl read_uint16 read_uint32
buffer_second_frame_example =
    buffer_second_frame storing 1 0 (with_input (rst ++ rst)) rst_ctrl (omega arith) refl refl
      (omega arith) refl (omega arith) (omega arith)

-- The first 14 bytes of the frame.
buffer_incomplete_example :
    process_buffer storing 1 1000
      (with_input (128 ∷ 3 ∷ 0 ∷ 3 ∷ 0 ∷ 0 ∷ 0 ∷ 8 ∷ 0 ∷ 0 ∷ 0 ∷ 5 ∷ 0 ∷ 0 ∷ []))
    ≡ stuck
unfolding read_ctrl read_uint16 read_uint32
buffer_incomplete_example =
    buffer_incomplete storing 1 1000
      (with_input (128 ∷ 3 ∷ 0 ∷ 3 ∷ 0 ∷ 0 ∷ 0 ∷ 8 ∷ 0 ∷ 0 ∷ 0 ∷ 5 ∷ 0 ∷ 0 ∷ [])) rst_ctrl
      (omega arith) (omega arith) refl refl (omega arith)

buffer_syn_stream_example :
    (header : Header) × (process_buffer storing 1 2 (with_input syn)
      ≡ returns
          (Ret.ok, record quiet { id = 7; requests = record new_request { header = header } ∷ [] }))
    × Stores (codes ":path") (codes "/") Header.init header
unfolding read_ctrl read_uint16 read_uint32 spdy_zlib_inflate entries
buffer_syn_stream_example =
    buffer_syn_stream storing 1 0 (with_input syn) syn_ctrl {sid = 7} {zst = 0} (codes ":path")
      (codes "/") ((codes ":method", codes "GET") ∷ []) [] (omega arith) refl (refl, refl)
      (omega arith) refl refl (omega arith) refl

-- A request in front of another one.
abbrev one_more : Conn ℕ
one_more = record quiet { requests = new_request ∷ [] }

abbrev two_requests : Conn ℕ
two_requests = record one_more {
  id = 7;
  requests =
      record new_request { header = record Header.init { path = codes "/" } } ∷ new_request ∷ [];
}

process_frame_ok_example : Progress one_more two_requests × (0 ≤ 54)
unfolding process_frame dispatch handle_syn_stream read_name_value spdy_zlib_inflate read_ctrl
    read_uint16 read_uint32 read_entries read_entry span add_header
process_frame_ok_example =
    process_frame_ok storing 1 one_more {conn' = two_requests} syn 0 {pos' = 54} refl
