-- ===== src/Output/Served.antt =====
-- How the loop over the requests of do_io (src/connection-spdy.c) ends requests.
use spdy_test.Prelude.{
  ℕ, ◌/◌, ◌%◌, ◌^◌, List, [], ◌∷◌, none, some, Bool, true, false, ◌≡◌, ◌≢◌, refl, arith,
  Option-cases, inl, inr,
}
use spdy_test.Ret.{Ret}
use spdy_test.Zlib.{Zlib, spdy_zlib_deflate}
use spdy_test.Conn.{Request, RequestPhase, Conn}
use spdy_test.Request.{step, add_headers, header_add_common, header_base, header_finish}
use spdy_test.Output.{process_requests}

-- Whether every request has written its reply.
abbrev pub all_stepping : List Request → Bool
all_stepping [] = true
all_stepping (req ∷ reqs) = elim req.phase [ RequestPhase.stepping ↦ all_stepping reqs | _ ↦ false ]

module _ (zlib : Zlib) (fuel : ℕ) where
  open zlib use {Stream}

  -- The first round of a request leaves it stepping, a later one ends it.
  step_phase :
      (req : Request) (conn : Conn Stream) {r : Ret} {req' : Request} {conn' : Conn Stream}
      → step zlib fuel req conn ≡ some (r, req', conn')
      → req'.phase ≡ RequestPhase.stepping
  unfolding step add_headers header_finish
  step_phase req conn h = ground arith

  module _
      (returns : (zst : Stream) (c : ℕ) (block : List ℕ)
        → spdy_zlib_deflate zlib fuel zst (c ∷ block) [] ≢ none) where
    step_returns : (req : Request) (conn : Conn Stream) → step zlib fuel req conn ≢ none
    unfolding step add_headers header_finish
    step_returns req conn h =
        let req1 = record req { phase = RequestPhase.add_headers; error_code = 200 } in
        let req2 = header_add_common (header_base req1 conn).1 in
        let n = req2.header_num in
        let low = (n / 2 ^ 16 % 256) ∷ (n / 2 ^ 8 % 256) ∷ (n % 256) ∷ req2.block in
        ground (arith, h, returns conn.zst_deflate (n / 2 ^ 24 % 256) low)

    first_round :
        (reqs : List Request) (conn : Conn Stream)
        → (reqs' : List Request) × (conn' : Conn Stream) × (process_requests zlib fuel reqs conn
            ≡ some (reqs', conn'))
          × (all_stepping reqs' ≡ true)
    unfolding process_requests
    first_round [] conn = ([], conn, refl, refl)
    first_round (req ∷ reqs) conn = elim (Option-cases (step zlib fuel req conn)) [
      | inl never ↦ absurd (step_returns req conn never)
      | inr ((r, req1, conn1), e) ↦
          let (reqs', conn', e', all) = first_round reqs conn1 in
          let stepped = step_phase req conn e in
          let result : List Request × Conn Stream = elim r [
            | Ret.eof ↦ (reqs', conn')
            | _ ↦ (req1 ∷ reqs', conn')
          ] in
          (result.0, result.1, ground (arith, e, e'), ground (arith, all, stepped))
    ]

  -- On requests that have stepped, the round writes nothing and ends them all.
  last_round :
      (reqs : List Request) (conn : Conn Stream)
      → all_stepping reqs ≡ true
      → process_requests zlib fuel reqs conn ≡ some ([], conn)
  unfolding process_requests step
  last_round [] conn h = refl
  last_round (req ∷ reqs) conn h = ground (arith, last_round reqs conn)

  -- Where the deflation of every block that is not empty returns, the loop over any list of requests returns, and the next run of it
  -- over the requests that are left takes all of them off the list and writes nothing more.
  pub process_requests_twice :
      ((zst : Stream) (c : ℕ) (block : List ℕ)
        → spdy_zlib_deflate zlib fuel zst (c ∷ block) [] ≢ none)
      → (reqs : List Request) (conn : Conn Stream)
      → (reqs' : List Request) × (conn' : Conn Stream) × (process_requests zlib fuel reqs conn
          ≡ some (reqs', conn'))
        × (process_requests zlib fuel reqs' conn' ≡ some ([], conn'))
  process_requests_twice returns reqs conn =
      let (reqs', conn', e, all) = first_round returns reqs conn in
      (reqs', conn', e, last_round reqs' conn' all)
