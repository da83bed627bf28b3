-- ===== src/Socket/Linger.antt =====
-- The lingering read of src/connection.c ends.
use spdy_test.Prelude.{
  ℕ, zero, suc, ◌+◌, ◌-◌, ◌<◌, ◌≤◌, List, [], ◌∷◌, Option, some, Bool, true, false, ◌&&◌, leb, ltb,
  length, ◌≡◌, ◌⊎◌, refl, arith, inl, inr, Bool-cases, ◌∙◌,
}
use spdy_test.Ret.{Ret}
use spdy_test.Socket.{
  Socket, Errno, ReadAnswer, received, failed, ssl_failed, Read, plain_read, socket_read,
  linger_loop, linger_switch, Lingered, do_linger_read, ev_none,
}

-- Answers that a plain recv gives.
abbrev pub ArePlain : List ReadAnswer → Type 0
ArePlain [] = Unit
ArePlain (ssl_failed re e ∷ later) = ⊥
ArePlain (received xs ∷ later) = ArePlain later
ArePlain (failed e ∷ later) = ArePlain later

-- How many of them end the loop over EINTR.
unfoldable pub settled : List ReadAnswer → ℕ
settled [] = 0
settled (failed Errno.eintr ∷ later) = settled later
settled (a ∷ later) = suc (settled later)

-- One read takes one settled answer at most.
plain_read_total :
    (s : Socket) (answers : List ReadAnswer)
    → ArePlain answers
    → 0 < settled answers
    → (r : Read) × (plain_read s answers ≡ some r)
      × ArePlain r.later
      × (settled answers ≤ suc (settled r.later))
      × (r.socket.is_tls ≡ s.is_tls)
unfolding plain_read settled
plain_read_total s [] h pos = absurd (omega arith)
plain_read_total s (received [] ∷ later) h pos = (_, refl, h, omega arith, refl)
plain_read_total s (received (x ∷ xs) ∷ later) h pos = (_, refl, h, omega arith, refl)
plain_read_total s (failed Errno.eintr ∷ later) h pos = plain_read_total s later h pos
plain_read_total s (failed Errno.eagain ∷ later) h pos = (_, refl, h, omega arith, refl)
plain_read_total s (failed Errno.epipe ∷ later) h pos = (_, refl, h, omega arith, refl)
plain_read_total s (failed Errno.econnreset ∷ later) h pos = (_, refl, h, omega arith, refl)
plain_read_total s (failed Errno.enotconn ∷ later) h pos = (_, refl, h, omega arith, refl)
plain_read_total s (failed Errno.etimedout ∷ later) h pos = (_, refl, h, omega arith, refl)
plain_read_total s (failed Errno.ehostunreach ∷ later) h pos = (_, refl, h, omega arith, refl)
plain_read_total s (failed Errno.other ∷ later) h pos = (_, refl, h, omega arith, refl)
plain_read_total s (ssl_failed re e ∷ later) h pos = absurd h

socket_read_plain :
    (s : Socket) (answers : List ReadAnswer)
    → s.closed ≡ false
    → s.is_tls ≡ false
    → socket_read s answers ≡ plain_read s answers
unfolding socket_read
socket_read_plain s answers still_open plain = ground arith

socket_read_total :
    (s : Socket) (answers : List ReadAnswer)
    → s.is_tls ≡ false
    → ArePlain answers
    → 0 < settled answers
    → (r : Read) × (socket_read s answers ≡ some r)
      × ArePlain r.later
      × (settled answers ≤ suc (settled r.later))
      × (r.socket.is_tls ≡ false)
unfolding socket_read
socket_read_total s answers plain h pos = elim (Bool-cases s.closed) [
  | inl closed ↦ (
    record { ret = Ret.eof; socket = s; got = []; wanted = ev_none; later = answers },
    rw closed refl,
    h,
    omega arith,
    plain,
  )
  | inr still_open ↦
      let (r, reads, h', less, same) = plain_read_total s answers h pos in
      (r, socket_read_plain s answers still_open plain ∙ reads, h', less, same ∙ plain)
]

-- The lingering read is over: it was answered for good, or has to wait.
abbrev pub IsOver : Ret → Type 0
IsOver r = (r ≡ Ret.eof) ⊎ (r ≡ Ret.error) ⊎ (r ≡ Ret.eagain)

-- The end of a round, where it does not go on.
abbrev pub Stops : ℕ → List ReadAnswer → Option Lingered → Type 0
Stops retries answers o =
    (r : Ret) × (s : Socket) × (later : List ReadAnswer) × (o ≡ some (r, s, later))
    × IsOver r
    × (settled answers ≤ retries + settled later)

linger_switch_lem :
    (r : Ret) (go_on : Bool) (again : Option Lingered) (s : Socket)
    (later answers : List ReadAnswer) (retries : ℕ)
    → settled answers ≤ retries + settled later
    → (go_on ≡ true → Stops retries answers again)
    → Stops retries answers (linger_switch r go_on again s later)
unfolding linger_switch
linger_switch_lem Ret.eof g a s l answers n h k = (Ret.eof, s, l, refl, inl refl, h)
linger_switch_lem Ret.error g a s l answers n h k = (Ret.error, s, l, refl, inr (inl refl), h)
linger_switch_lem Ret.eagain g a s l answers n h k = (Ret.eagain, s, l, refl, inr (inr refl), h)
linger_switch_lem Ret.ok true a s l answers n h k = k refl
linger_switch_lem Ret.ok false a s l answers n h k = (Ret.eof, s, l, refl, inl refl, h)
linger_switch_lem Ret.no_sys g a s l answers n h k = (Ret.error, s, l, refl, inr (inl refl), h)
linger_switch_lem Ret.nomem g a s l answers n h k = (Ret.error, s, l, refl, inr (inl refl), h)
linger_switch_lem Ret.deny g a s l answers n h k = (Ret.error, s, l, refl, inr (inl refl), h)
linger_switch_lem Ret.eof_have_data g a s l answers n h k =
    (Ret.error, s, l, refl, inr (inl refl), h)
linger_switch_lem Ret.not_found g a s l answers n h k = (Ret.error, s, l, refl, inr (inl refl), h)
linger_switch_lem Ret.file_not_found g a s l answers n h k =
    (Ret.error, s, l, refl, inr (inl refl), h)
linger_switch_lem Ret.ok_and_sent g a s l answers n h k = (Ret.error, s, l, refl, inr (inl refl), h)

linger_loop_lem :
    (retries : ℕ) (s : Socket) (answers : List ReadAnswer)
    → 0 < retries
    → s.is_tls ≡ false
    → ArePlain answers
    → retries ≤ settled answers
    → Stops retries answers (linger_loop retries s answers)
unfolding linger_loop
linger_loop_lem zero s answers pos plain h enough = absurd (omega arith)
linger_loop_lem (suc n) s answers pos plain h enough =
    let (r, reads, h', less, plain') = socket_read_total s answers plain h (omega arith) in
    rw (reads, Stops, linger_loop)
      (linger_switch_lem r.ret (leb (512 - 2) (length r.got) && ltb 0 n)
        (linger_loop n r.socket r.later) r.socket r.later answers (suc n) (omega arith)
        (λ go.
          let (q, s', later, ends, over, few) =
            linger_loop_lem n r.socket r.later (ground arith) plain' h' (omega arith) in
          (q, s', later, ends, over, omega arith)))

-- On a socket without TLS, whose answers are those of recv with at least two that are not EINTR,
-- _http2d_connection_do_linger_read returns, with ret_eof, ret_error or ret_eagain and never ret_ok,
-- and takes at most two answers that are not EINTR.
pub do_linger_read_lem :
    (s : Socket) (answers : List ReadAnswer)
    → s.is_tls ≡ false
    → ArePlain answers
    → 2 ≤ settled answers
    → (r : Ret) × (s' : Socket) × (later : List ReadAnswer) × (do_linger_read s answers
        ≡ some (r, s', later))
      × ((r ≡ Ret.eof) ⊎ (r ≡ Ret.error) ⊎ (r ≡ Ret.eagain))
      × (settled answers ≤ 2 + settled later)
unfolding do_linger_read
do_linger_read_lem s answers plain h enough =
    linger_loop_lem 2 s answers (omega arith) plain h enough
