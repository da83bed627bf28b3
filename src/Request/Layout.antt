-- ===== src/Request/Layout.antt =====
-- How the frames of a reply of src/request-spdy.c lie in the write buffer.
use spdy_test.Prelude.{
  ℕ, ◌+◌, ◌^◌, ◌<◌, List, ◌++◌, some, ◌≡◌, refl, sym, ap, ◌∙◌, arith, length, replicate,
  length-append, append_assoc, get_elem?-append_add, take, drop, [], ◌∷◌, take_length-append,
  drop_length-append,
}
use native.Mathlib.Nat.{add_assoc}
use spdy_test.Spdy.{read_ctrl, read_uint32, write_syn_reply, write_data}
use spdy_test.Spdy.RoundTrip.{read_ctrl-append}
use spdy_test.NameValue.RoundTrip.{read_uint32-append}
use spdy_test.Header.{codes}
use spdy_test.Request.{payload}

module _ (id n : ℕ) (rest : List ℕ) where
  syn_reply_ctrl :
      n + 4 < 2 ^ 24
      → read_ctrl (write_syn_reply (replicate 12 0) id 0 n ++ rest) 0
        ≡ some (record { version = 3; type = 2; flags = 0; length = n + 4 })
  unfolding read_ctrl write_syn_reply
  syn_reply_ctrl h = ground arith

  syn_reply_id :
      id < 2 ^ 31 → read_uint32 (write_syn_reply (replicate 12 0) id 0 n ++ rest) 8 ≡ some id
  unfolding read_uint32 write_syn_reply
  syn_reply_id h = ground arith

  data_id : id < 2 ^ 31 → read_uint32 (write_data (replicate 8 0) id 1 n ++ rest) 0 ≡ some id
  unfolding read_uint32 write_data
  data_id h = ground arith

  data_length :
      n < 2 ^ 24 → read_uint32 (write_data (replicate 8 0) id 1 n ++ rest) 4 ≡ some (2 ^ 24 + n)
  unfolding read_uint32 write_data
  data_length h = ground arith

-- What the first step writes: a SYN_REPLY with the deflated block, and a data frame.
abbrev pub reply_frames : ℕ → List ℕ → List ℕ
reply_frames id tmp =
    write_syn_reply (replicate 12 0) id 0 (length tmp)
    ++ (tmp ++ (write_data (replicate 8 0) id 1 (length payload) ++ payload))

-- The text of TEMP_hello_world, which ends in a line feed.
abbrev pub hello : List ℕ
hello = codes "Hello World!!!!!!!!!" ++ (10 ∷ [])

-- `w` ends, from `at` on, in a SYN_REPLY of the stream whose length and bytes are those of `tmp` and,
-- where its length says that it ends, in a final data frame whose length and bytes are those of the
-- text.
pub record IsReplyAt (at id : ℕ) (tmp w : List ℕ) : Type 0 where
  pub reply :
      read_ctrl w at ≡ some (record { version = 3; type = 2; flags = 0; length = length tmp + 4 })
  pub reply_id : read_uint32 w (at + 8) ≡ some id
  pub reply_block : take (length tmp) (drop (at + 12) w) ≡ tmp
  pub final_id : read_uint32 w (at + 8 + (length tmp + 4)) ≡ some id
  pub final_length : read_uint32 w (at + 8 + (length tmp + 4) + 4) ≡ some (2 ^ 24 + length hello)
  pub final_text : drop (at + 8 + (length tmp + 4) + 8) w ≡ hello
  pub ends : length w ≡ at + 8 + (length tmp + 4) + 8 + length hello

length-syn_reply : (id n : ℕ) → length (write_syn_reply (replicate 12 0) id 0 n) ≡ 12
unfolding write_syn_reply
length-syn_reply id n = refl

length-data : (id n : ℕ) → length (write_data (replicate 8 0) id 1 n) ≡ 8
unfolding write_data
length-data id n = refl

-- Reading at an offset behind a prefix.
read_uint32-append_add :
    (pre xs : List ℕ) (k : ℕ) → read_uint32 (pre ++ xs) (length pre + k) ≡ read_uint32 xs k
unfolding read_uint32
read_uint32-append_add pre xs k = simp (add_assoc, get_elem?-append_add)

pub reply_frames-IsReplyAt :
    (bw tmp : List ℕ) (id : ℕ)
    → length tmp + 4 < 2 ^ 24
    → id < 2 ^ 31
    → IsReplyAt (length bw) id tmp (bw ++ reply_frames id tmp)
reply_frames-IsReplyAt bw tmp id h k =
    let s = write_syn_reply (replicate 12 0) id 0 (length tmp) in
    let d = write_data (replicate 8 0) id 1 (length payload) in
    let front = bw ++ (s ++ tmp) in
    let w = bw ++ reply_frames id tmp in
    let e : w ≡ front ++ (d ++ payload) = simp append_assoc in
    let l : length front ≡ length bw + 8 + (length tmp + 4) =
      omega (
        arith,
        length-append bw (s ++ tmp),
        length-append s tmp,
        length-syn_reply id (length tmp),
      ) in
    let tail = tmp ++ (d ++ payload) in
    let head = bw ++ s in
    let e1 : w ≡ head ++ tail = simp append_assoc in
    let l1 : length head ≡ length bw + 12 =
      omega (arith, length-append bw s, length-syn_reply id (length tmp)) in
    let before = front ++ d in
    let e2 : w ≡ before ++ payload = simp append_assoc in
    let l2 : length before ≡ length bw + 8 + (length tmp + 4) + 8 =
      omega (arith, length-append front d, length-data id (length payload), l) in
    record {
      reply = read_ctrl-append bw (s ++ tail) ∙ syn_reply_ctrl id (length tmp) tail h;
      reply_id = read_uint32-append_add bw (s ++ tail) 8 ∙ syn_reply_id id (length tmp) tail k;
      reply_block =
          ap (λ k. take (length tmp) (drop k w)) (sym l1)
          ∙ ap (λ xs. take (length tmp) (drop (length head) xs)) e1
          ∙ ap (take (length tmp)) (drop_length-append head tail)
          ∙ take_length-append tmp (d ++ payload);
      final_id =
          ap (read_uint32 w) (sym l)
          ∙ ap (λ xs. read_uint32 xs (length front)) e
          ∙ read_uint32-append front (d ++ payload)
          ∙ data_id id (length payload) payload k;
      final_length =
          ap (λ i. read_uint32 w (i + 4)) (sym l)
          ∙ ap (λ xs. read_uint32 xs (length front + 4)) e
          ∙ read_uint32-append_add front (d ++ payload) 4
          ∙ data_length id (length payload) payload (omega arith);
      final_text =
          ap (λ k. drop k w) (sym l2)
          ∙ ap (drop (length before)) e2
          ∙ drop_length-append before payload;
      ends =
          ap length e
          ∙ omega (
            arith,
            length-append front (d ++ payload),
            length-append d payload,
            length-data id (length payload),
            l,
          );
    }
