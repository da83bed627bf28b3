-- ===== src/Socket/Reads.antt =====
-- http2d_socket_read_buf of src/socket.c and _http2d_connection_do_read of src/connection.c against
-- the string of the buffer.
use spdy_test.Prelude.{
  ℕ, ◌+◌, ◌<◌, ◌≤◌, ◌^◌, List, [], ◌∷◌, ◌++◌, some, length, ◌≡◌, refl, arith, sym, ap, ◌∙◌,
  append-nil,
}
use spdy_test.Ret.{Ret}
use spdy_test.Buffer.{Buffer, u32, size_t, ensure_size}
use spdy_test.Buffer.Mem.{Alloc, blit}
use spdy_test.Buffer.Space.{contents, IsValid}
use spdy_test.Buffer.Emptied.{ensured}
use spdy_test.Codec.Output.{appended, block_of_size}
use spdy_test.Socket.{Socket, ReadAnswer, Read, socket_read, receive, read_grown, socket_read_buf}

receive_run :
    (b : Buffer) (x : ℕ) (xs : List ℕ) {m m' m'' : List ℕ} {k : ℕ}
    → b.buf ≡ some m
    → blit m b.len (x ∷ xs) ≡ some m'
    → u32 (b.len + length (x ∷ xs)) ≡ k
    → blit m' k (0 ∷ []) ≡ some m''
    → receive b (x ∷ xs) ≡ some (record b { buf = some m''; len = k })
unfolding receive
receive_run b x xs at writes e ends = rw at (rw writes (rw (e, ends)))

-- The bytes read are behind the string.
receive_lem :
    (b : Buffer) (got : List ℕ)
    → IsValid b
    → b.len + length got < b.size
    → (b' : Buffer) × (receive b got ≡ some b') × IsValid b' × (contents b' ≡ contents b ++ got)
receive_lem b [] v fits = (b, unfold receive in refl, v, sym (append-nil (contents b)))
receive_lem b (x ∷ xs) v fits =
    let (m, at) = block_of_size b v (omega arith) in
    let (m', m'', writes, ends, held) = appended b m (x ∷ xs) v at fits in
    (
      record b { buf = some m''; len = b.len + length (x ∷ xs) },
      receive_run b x xs at writes (omega (arith, v.small)) ends,
      held.valid,
      held.holds,
    )

module _ (a : Alloc) (s : Socket) (b : Buffer) (count : ℕ) (answers : List ReadAnswer)
    (v : IsValid b) (small : b.len + count + 2 < 2 ^ 31) where
  read_buf_run :
      {sized b' : Buffer} {r : Read}
      → ensure_size a b (b.len + count + 2) ≡ (Ret.ok, sized)
      → socket_read s answers ≡ some r
      → receive sized r.got ≡ some b'
      → socket_read_buf a s b count answers ≡ some (r, b')
  unfolding socket_read_buf read_grown
  read_buf_run grows reads receives =
      let e : size_t (b.len + count + 2) ≡ b.len + count + 2 = omega arith in
      rw (e, socket_read_buf) (rw (grows, read_grown) (rw reads (rw receives)))

  -- On a valid buffer, with its length, the count and 2 below 2 ^ 31 and memory that is granted:
  -- where http2d_socket_read returns, with at most `count` bytes, http2d_socket_read_buf returns with
  -- the same code and the same socket, and leaves a valid buffer with these bytes behind the old
  -- string.
  pub socket_read_buf_lem :
      {r : Read}
      → socket_read s answers ≡ some r
      → length r.got ≤ count
      → (ensure_size a b (b.len + count + 2)).0 ≡ Ret.ok
      → (b' : Buffer) × (socket_read_buf a s b count answers ≡ some (r, b'))
        × IsValid b'
        × (contents b' ≡ contents b ++ r.got)
  socket_read_buf_lem {r} reads few ok =
      let n = b.len + count + 2 in
      let sized = (ensure_size a b n).1 in
      let (valid, room, len_kept, kept) = ensured a b v n small ok in
      let (b', receives, valid', held) = receive_lem sized r.got valid (omega arith) in
      (
        b',
        read_buf_run (ap (λ q. (q, sized)) ok) reads receives,
        valid',
        held ∙ ap (λ xs. xs ++ r.got) kept,
      )
