-- ===== src/Transfer/Server.antt =====
-- The controller's side of an upload: chunks in turn build the file, and others change nothing.
use mink_lasso.Base.{
  ℕ, ◌+◌, ◌*◌, ◌%◌, ◌^◌, ◌≤◌, ◌<◌, ◌≡◌, inl, inr, sym, ap, ◌∙◌, true, false, List, ◌++◌, some,
  arith, ◌==◌, length, take, min, length-take, take-eq_self, take-add, ◌≢◌, Bool-cases, ◌&&◌,
}
use mink_lasso.Base.Maps.{lookup, insert, lookup-insert, bytes_eq_iff}
use mink_lasso.Masso.Words.{Bytes}
use mink_lasso.Masso.Request.{max_chunk_data}
use mink_lasso.Masso.Upload.{total_chunks}
use mink_lasso.Sim.State.{Controller}
use mink_lasso.Sim.Handlers.{append_chunk, store_complete, accept_chunk}
use mink_lasso.Transfer.System.{chunk_of}

-- How far the upload of `content` has come: some chunks in a row, or all, and the file stored.
pub record Receiving (content name : Bytes) (c : Controller) : Type 0 where
  pub not_canceled : c.canceled ≡ false
  pub result_byte : c.chunk_result < 256
  pub named : c.upload_name ≡ name
  pub sized : c.upload_size ≡ length content
  pub count : c.accepted_count ≤ total_chunks (length content)
  pub partial :
      c.uploading ≡ true
      → (c.accepted_count < total_chunks (length content))
        × (c.upload_data ≡ take (c.accepted_count * max_chunk_data) content)
  pub complete :
      c.uploading ≡ false
      → (c.accepted_count ≡ total_chunks (length content)) × (lookup name c.files ≡ some content)

-- The same, just after a chunk was appended.
record Appended (content name : Bytes) (c : Controller) : Type 0 where
  not_canceled : c.canceled ≡ false
  result_byte : c.chunk_result < 256
  named : c.upload_name ≡ name
  sized : c.upload_size ≡ length content
  count : c.accepted_count ≤ total_chunks (length content)
  open_upload : c.uploading ≡ true
  contents : c.upload_data ≡ take (c.accepted_count * max_chunk_data) content

lookup-stored :
    (k name : Bytes) (v : Bytes) (m : List (Bytes × Bytes))
    → k ≡ name
    → lookup name (insert k v m) ≡ some v
lookup-stored k name v m e = rw (lookup-insert k name v m, (bytes_eq_iff k name).1 e)

module _ (content name : Bytes) (small : length content < 2 ^ 32) where
  append_chunk-Appended :
      (c : Controller) (i : ℕ)
      → Receiving content name c
      → c.uploading ≡ true
      → i ≡ c.accepted_count
      → Appended content name (append_chunk c (chunk_of content i))
        × ((append_chunk c (chunk_of content i)).accepted_count ≡ c.accepted_count + 1)
  unfolding append_chunk
  append_chunk-Appended c i h up e =
      let (more, so_far) = h.partial up in
      let count : (c.accepted_count + 1) % 2 ^ 32 ≡ c.accepted_count + 1 = omega arith in
      (
        record {
          not_canceled = h.not_canceled;
          result_byte = h.result_byte;
          named = h.named;
          sized = h.sized;
          count = omega arith;
          open_upload = up;
          contents =
              ap (λ t. t ++ chunk_of content i) so_far
              ∙ ap (λ j. take (c.accepted_count * max_chunk_data) content ++ chunk_of content j) e
              ∙ sym (take-add (c.accepted_count * max_chunk_data) max_chunk_data content)
              ∙ ap (λ n. take n content) (omega arith);
        },
        count,
      )

  length-contents :
      (c : Controller)
      → Appended content name c
      → length c.upload_data ≡ min (c.accepted_count * max_chunk_data) (length content)
  length-contents c h =
      ap length h.contents ∙ length-take (c.accepted_count * max_chunk_data) content

  stored :
      (c : Controller)
      → Appended content name c
      → length c.upload_data ≡ c.upload_size
      → Receiving content name
          (record c { files = insert c.upload_name c.upload_data c.files; uploading = false })
  stored c h last =
      let all_there : length content ≤ c.accepted_count * max_chunk_data =
        omega (arith, length-contents c h, h.sized) in
      record {
        not_canceled = h.not_canceled;
        result_byte = h.result_byte;
        named = h.named;
        sized = h.sized;
        count = h.count;
        partial = λ up. cc;
        complete = λ down. (
          omega (arith, h.count),
          lookup-stored c.upload_name name c.upload_data c.files h.named
              ∙ ap some
                  (h.contents ∙ take-eq_self (c.accepted_count * max_chunk_data) content all_there),
        );
      }

  growing :
      (c : Controller)
      → Appended content name c
      → length c.upload_data ≢ c.upload_size
      → Receiving content name c
  growing c h more = record {
    not_canceled = h.not_canceled;
    result_byte = h.result_byte;
    named = h.named;
    sized = h.sized;
    count = h.count;
    partial = λ up. (omega (arith, length-contents c h, h.sized, h.count), h.contents);
    complete = λ down. cc h.open_upload;
  }

  store_complete-Receiving :
      (c : Controller) → Appended content name c → Receiving content name (store_complete c)
  unfolding store_complete
  store_complete-Receiving c h = elim (Bool-cases (length c.upload_data == c.upload_size)) [
    | inl last ↦ rw (last, store_complete) (stored c h (ground arith))
    | inr more ↦ rw (more, store_complete) (growing c h (ground arith))
  ]

  count-store_complete : (c : Controller) → (store_complete c).accepted_count ≡ c.accepted_count
  unfolding store_complete
  count-store_complete c = ground arith

  -- A chunk of the file, in turn or not, leaves the upload where it was or one chunk further.
  pub accept_chunk-Receiving :
      (c : Controller) (i : ℕ)
      → Receiving content name c
      → Receiving content name (accept_chunk c i (chunk_of content i))
        × (c.accepted_count ≤ (accept_chunk c i (chunk_of content i)).accepted_count)
  unfolding accept_chunk
  accept_chunk-Receiving c i h = elim (Bool-cases (c.uploading && i == c.accepted_count)) [
    | inr ignored ↦ rw (ignored, accept_chunk) (h, omega arith)
    | inl in_turn ↦
        let (appended, further) = append_chunk-Appended c i h (ground arith) (ground arith) in
        let d = append_chunk c (chunk_of content i) in
        rw (in_turn, accept_chunk)
          (store_complete-Receiving d appended, omega (arith, count-store_complete d))
  ]
