-- ===== src/Output/Order.antt =====
-- The order in which _http2d_connection_do_write of src/connection.c hands on the bytes.
use spdy_test.Prelude.{
  ℕ, zero, suc, Bool-cases, inl, inr, ◌≤◌, List, [], ◌∷◌, ◌++◌, if◌then◌else◌, ◌≡◌, refl, ap, ◌∙◌,
  arith, length, drop, append-nil,
}
use spdy_test.Ret.{Ret}
use spdy_test.Conn.{Conn}
use spdy_test.Output.{do_write, swap_write_buffers}

-- The bytes that are still to be sent, in their order.
abbrev pub pending : {Stream : Type 0} → Conn Stream → List ℕ
pending conn = if conn.is_tls then conn.buffer_write_ssl ++ conn.buffer_write else conn.buffer_write

-- The bytes that are handed to the socket.
abbrev pub outgoing : {Stream : Type 0} → Conn Stream → List ℕ
outgoing conn =
    if conn.is_tls then (swap_write_buffers conn).buffer_write_ssl else conn.buffer_write

drop-append_le : (n : ℕ) (xs ys : List ℕ) → n ≤ length xs → drop n xs ++ ys ≡ drop n (xs ++ ys)
drop-append_le zero xs ys h = refl
drop-append_le (suc n) [] ys h = absurd (omega arith)
drop-append_le (suc n) (x ∷ xs) ys h = drop-append_le n xs ys (omega arith)

module _ {Stream : Type 0} (conn : Conn Stream) where
  swap_keeps_pending :
      (swap_write_buffers conn).buffer_write_ssl ++ (swap_write_buffers conn).buffer_write
      ≡ conn.buffer_write_ssl ++ conn.buffer_write
  unfolding swap_write_buffers
  swap_keeps_pending = ground (arith, append-nil conn.buffer_write)

  swap_keeps_tls : (swap_write_buffers conn).is_tls ≡ conn.is_tls
  unfolding swap_write_buffers
  swap_keeps_tls = ground arith

  -- Where the socket writes no more bytes than it is handed, what _http2d_connection_do_write hands to
  -- it are the first bytes that are still to be sent, with TLS and its second buffer as without it,
  -- and the bytes that are still to be sent afterwards are those behind the written ones, in the same
  -- order.
  pub do_write_order :
      (write : List ℕ → Ret × ℕ)
      → (write (outgoing conn)).1 ≤ length (outgoing conn)
      → (rest : List ℕ) × (pending conn ≡ outgoing conn ++ rest)
        × (pending (do_write write conn).1 ≡ drop (write (outgoing conn)).1 (pending conn))
  unfolding do_write
  do_write_order write h = elim (Bool-cases conn.is_tls) [
    | inl tls ↦
        let swapped = swap_write_buffers conn in
        let ssl = swapped.buffer_write_ssl in
        let n = (write ssl).1 in
        let fits : n ≤ length ssl = ground (arith, h, tls) in
        let after : drop n ssl ++ swapped.buffer_write
            ≡ drop n (conn.buffer_write_ssl ++ conn.buffer_write) =
          drop-append_le n ssl swapped.buffer_write fits ∙ ap (drop n) swap_keeps_pending in
        (
          swapped.buffer_write,
          ground (arith, tls, swap_keeps_pending),
          ground (arith, tls, swap_keeps_tls, after),
        )
    | inr plain ↦ ([], ground (arith, plain, append-nil conn.buffer_write), ground (arith, plain))
  ]
