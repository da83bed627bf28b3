-- ===== src/Request/Reply.antt =====
-- The reply that req_spdy_step of src/request-spdy.c leaves in the write buffer.
use spdy_test.Prelude.{
  ℕ, List, [], ◌∷◌, ◌++◌, some, ◌≡◌, ◌≢◌, refl, ap, ◌∙◌, arith, length, replicate, append_assoc,
}
use spdy_test.Ret.{Ret}
use spdy_test.Header.{codes}
use spdy_test.Http.{Application, http_code_to_string, switch_code, http_version_to_string}
use spdy_test.Spdy.{write_syn_reply, write_data}
use spdy_test.NameValue.{htonl, entries}
use spdy_test.Zlib.{Zlib, spdy_zlib_deflate}
use spdy_test.Conn.{Request, RequestPhase, Conn}
use spdy_test.Request.Layout.{reply_frames}
use spdy_test.Request.{
  payload, header_add_common, header_base, hello_world, header_finish, add_headers, step,
}

-- The pairs of the reply, for a connection whose protocol has a name.
abbrev pub reply_pairs : Application → List (List ℕ × List ℕ)
reply_pairs app =
    (codes ":status", codes "200 OK")
    ∷ (codes ":version", (http_version_to_string app).1)
    ∷ (codes "server", codes "HTTP2d")
    ∷ []

-- The header block that is handed to the deflation.
abbrev pub reply_block : Application → List ℕ
reply_block app = htonl 3 ++ entries (reply_pairs app)

version_known :
    (app : Application)
    → app ≢ Application.unknown
    → (c : ℕ) × (str : List ℕ) × (http_version_to_string app ≡ (Ret.ok, c ∷ str))
unfolding http_version_to_string
version_known Application.unknown h = absurd (h refl)
version_known Application.http10 h = (_, _, refl)
version_known Application.http11 h = (_, _, refl)
version_known Application.http20 h = (_, _, refl)

module _ {Stream : Type 0} (req : Request) (conn : Conn Stream) where
  -- A request that has not written yet, once its code is 200, takes on the reply's pairs.
  reply_headers :
      req.block ≡ []
      → req.header_num ≡ 0
      → req.error_code ≡ 200
      → conn.application ≢ Application.unknown
      → header_add_common (header_base req conn).1
        ≡ record req { block = entries (reply_pairs conn.application); header_num = 3 }
  unfolding header_add_common header_base http_code_to_string switch_code entries
  reply_headers b n e k =
      let (c, str, v) = version_known conn.application k in rw (b, n, e, v) (simp append_assoc)

module _ (zlib : Zlib) (fuel : ℕ) where
  open zlib use {Stream}

  module _ (req : Request) (conn : Conn Stream) {r : Ret} {zst : Stream} {tmp : List ℕ}
      (fresh : (req.phase ≢ RequestPhase.stepping) × (req.block ≡ []) × (req.header_num ≡ 0))
      (known : conn.application ≢ Application.unknown)
      (deflated : spdy_zlib_deflate zlib fuel conn.zst_deflate (reply_block conn.application) []
        ≡ some (r, zst, tmp)) where
    runs_add_headers : step zlib fuel req conn ≡ add_headers zlib fuel req conn
    unfolding step
    runs_add_headers = ground (arith, fresh.0)

    regroup : (bw s t d p : List ℕ) → (((bw ++ s) ++ t) ++ d) ++ p ≡ bw ++ (s ++ (t ++ (d ++ p)))
    regroup bw s t d p = simp append_assoc

    -- The state after the first step of a request.
    pub step_lem :
        step zlib fuel req conn
        ≡ some (
          Ret.ok,
          record req {
            phase = RequestPhase.stepping;
            error_code = 200;
            block = [];
            header_num = 3;
          },
          record conn {
            zst_deflate = zst;
            buffer_write = conn.buffer_write ++ reply_frames conn.id tmp;
          },
        )
    unfolding add_headers header_finish hello_world
    step_lem =
        let req1 = record req { phase = RequestPhase.add_headers; error_code = 200 } in
        runs_add_headers
        ∙ rw (reply_headers req1 conn fresh.1 fresh.2 refl known, add_headers)
            (rw (deflated, header_finish)
              (ap
                (λ w. some (
                  Ret.ok,
                  record req {
                    phase = RequestPhase.stepping;
                    error_code = 200;
                    block = [];
                    header_num = 3;
                  },
                  record conn { zst_deflate = zst; buffer_write = w },
                ))
                (regroup conn.buffer_write (write_syn_reply (replicate 12 0) conn.id 0 (length tmp))
                  tmp (write_data (replicate 8 0) conn.id 1 (length payload)) payload)))
