-- ===== src/Tests/Steps.antt =====
-- The theorems about conn_spdy_step of src/connection-spdy.c at concrete connections.
use spdy_test.Prelude.{ℕ, [], ◌∷◌, ◌≡◌, refl, arith, false, true}
use spdy_test.Ret.{Ret}
use spdy_test.Spdy.{read_ctrl, read_uint16, read_uint32}
use spdy_test.Zlib.{Zlib, Code, spdy_zlib_inflate}
use spdy_test.Conn.{Conn}
use spdy_test.Frames.{overrun}
use spdy_test.Socket.{ev_none}
use spdy_test.Step.{Answers, recycles, do_io, io_step, conn_spdy_step}
use spdy_test.Step.Phases.{Advances, conn_spdy_step_phases}
use spdy_test.Step.Freed.{syn_stream_refused}
use spdy_test.Tests.Requests.{storing, quiet}
use spdy_test.Tests.Connections.{block, syn_ctrl}

-- The first bytes of a SYN_STREAM frame of stream 7 have been read before.
abbrev begun : Conn ℕ
begun = record quiet { buffer_read = 128 ∷ 3 ∷ 0 ∷ 1 ∷ [] }

-- The rest comes, and the socket takes three bytes of the reply.
abbrev answers : Answers
answers = record {
  handshake = (Ret.ok, ev_none);
  read = record {
    ret = Ret.ok;
    socket = record { is_tls = false; closed = false };
    got = 0 ∷ 0 ∷ 0 ∷ 46 ∷ 0 ∷ 0 ∷ 0 ∷ 7 ∷ 0 ∷ 0 ∷ 0 ∷ 0 ∷ 0 ∷ 0 ∷ block;
    wanted = ev_none;
    later = [];
  };
  write = λ w. (Ret.ok, 3);
  wanted = ev_none;
  shut = Ret.ok;
  linger = (Ret.eof, ev_none);
}

-- The peer has ended: the connection stays where it is.
abbrev ended : Answers
ended = record answers {
  read = record {
    ret = Ret.eof;
    socket = record { is_tls = false; closed = true };
    got = [];
    wanted = ev_none;
    later = [];
  };
}

conn_spdy_step_phases_example : Advances quiet Ret.ok quiet
unfolding conn_spdy_step io_step do_io
conn_spdy_step_phases_example =
    conn_spdy_step_phases storing 3 2 ended quiet {r = Ret.ok} {asked' = recycles ∷ []}
      {conn' = quiet} refl

-- A stream that refuses its input.
abbrev refusing : Zlib
refusing = record storing { inflate = λ z input. (Code.z_data_error, z, input, []) }

syn_stream_refused_example : conn_spdy_step refusing 3 1 answers begun ≡ overrun
unfolding read_ctrl read_uint16 read_uint32 spdy_zlib_inflate
syn_stream_refused_example =
    syn_stream_refused refusing 3 0 answers begun syn_ctrl {sid = 7} {zst = 0} {tmp = []} refl refl
      refl (omega arith, refl, (refl, refl), omega arith, refl) refl
