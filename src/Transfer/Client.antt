-- ===== src/Transfer/Client.antt =====
-- The sender's side of an upload: every datagram that it sends is a chunk of the file, and it
-- returns success only on an ACK that counts all chunks.
use mink_lasso.Base.{
  ℕ, ◌+◌, ◌-◌, ◌*◌, ◌%◌, ◌^◌, ◌≤◌, ◌<◌, ◌≡◌, refl, sym, ◌∙◌, ap, false, arith, min, length,
  length-take, length-drop, take-take, take-min, le→ltb, ◌≢◌, take, drop, All-take, All-drop, ltb,
}
use mink_lasso.Masso.Errors.{ok, Result, ◌>>=◌}
use mink_lasso.Masso.Words.{Bytes, AreBytes, IsByte}
use mink_lasso.Masso.Request.{max_chunk_data, upload_chunk, upload_chunk_request, decode_request}
use mink_lasso.Masso.Request.RoundTrip.{decode_request-upload_chunk}
use mink_lasso.Masso.Upload.{
  Reader, ReadEnd, no_error, eof, failed, read_chunk, total_chunks, is_failed,
}
use mink_lasso.Transfer.System.{chunk_of, Reads}

-- A datagram that is a chunk of the file.
abbrev pub IsChunk : Bytes → Bytes → Type 0
IsChunk content pkt =
    (i : ℕ) × (decode_request pkt ≡ ok (upload_chunk_request i (chunk_of content i)))

module _ (content : Bytes) (bytes : AreBytes content) (small : length content < 2 ^ 32) (r : Reader)
    (reads : Reads content r) where
  -- How much `readChunk` asks for, and what it then has.
  abbrev want : ℕ → ℕ
  want i = min (length content - i * max_chunk_data) max_chunk_data

  abbrev rest_of : ℕ → Bytes
  rest_of i = drop (i * max_chunk_data) content

  read_in_full :
      (i : ℕ) → i < total_chunks (length content) → i * max_chunk_data + want i ≤ length content
  read_in_full i h = omega arith

  got_chunk :
      (i : ℕ)
      → i < total_chunks (length content)
      → take (want i) (r (i * max_chunk_data) (want i)).0 ≡ chunk_of content i
  got_chunk i h =
      let n = length-drop (i * max_chunk_data) content in
      ap (take (want i)) (reads (i * max_chunk_data) (want i) (read_in_full i h)).0
      ∙ take-take (want i) (rest_of i)
      ∙ ap (λ (m : ℕ). take (min m max_chunk_data) (rest_of i)) (sym n)
      ∙ take-min max_chunk_data (rest_of i)

  got_enough :
      (i : ℕ)
      → i < total_chunks (length content)
      → ltb (length (r (i * max_chunk_data) (want i)).0) (want i) ≡ false
  got_enough i h =
      let e = ap length (reads (i * max_chunk_data) (want i) (read_in_full i h)).0 in
      let n = length-take (want i) (rest_of i) in
      le→ltb (length (r (i * max_chunk_data) (want i)).0) (want i)
        (omega (arith, e, n, length-drop (i * max_chunk_data) content))

  not_failed : (e : ReadEnd) → e ≢ failed → is_failed e ≡ false
  not_failed no_error h = refl
  not_failed eof h = refl
  not_failed failed h = absurd (h refl)

  -- What `readChunk` gives is the chunk at its index.
  pub read_chunk-IsChunk :
      (i : ℕ) (pkt : Bytes)
      → i < total_chunks (length content)
      → read_chunk r i (length content) ≡ ok pkt
      → IsChunk content pkt
  unfolding read_chunk
  read_chunk-IsChunk i pkt h e =
      let index : i % 2 ^ 32 ≡ i = omega arith in
      let fine =
        not_failed (r (i * max_chunk_data) (want i)).1
          (reads (i * max_chunk_data) (want i) (read_in_full i h)).1 in
      let sent : upload_chunk i (chunk_of content i) ≡ ok pkt =
        rw (got_enough i h, fine, index, got_chunk i h) at e in
      let fits : length (chunk_of content i) ≤ max_chunk_data =
        omega (arith, length-take max_chunk_data (rest_of i)) in
      let chunk_bytes =
        All-take IsByte max_chunk_data (rest_of i)
          (All-drop IsByte (i * max_chunk_data) content bytes) in
      (
        i,
        sym (ap (λ (m : Result Bytes). m >>= decode_request) sent)
            ∙ decode_request-upload_chunk i (chunk_of content i) (omega arith) chunk_bytes fits,
      )
