-- ===== src/Transfer/Replies.antt =====
-- What the controller of internal/masso/sim answers during an upload: no ACK counts more chunks than
-- it has accepted.
use mink_lasso.Base.{
  ℕ, ◌+◌, ◌^◌, ◌≤◌, ◌<◌, ◌≡◌, ◌∙◌, ap, not, ◌&&◌, List, [], ◌∷◌, arith, length, All, Bool-cases,
  inl, inr,
}
use mink_lasso.Masso.Errors.{ok}
use mink_lasso.Masso.Words.{Bytes}
use mink_lasso.Masso.Request.{upload_chunk_request, decode_request}
use mink_lasso.Masso.Reply.{ChunkAck, chunk_ack, chunk_ack_encode, decode_reply}
use mink_lasso.Masso.Reply.RoundTrip.{decode_reply-chunk_ack}
use mink_lasso.Sim.State.{Addr, Controller, should_stay_silent}
use mink_lasso.Sim.Handlers.{
  Sent, send, accept_chunk, contains_index, chunk_reply, handle_upload_chunk, handle_request,
  handle_packet, target_for, dispatch,
}
use mink_lasso.Transfer.System.{chunk_of, payloads}
use mink_lasso.Transfer.Server.{Receiving, accept_chunk-Receiving}

-- A datagram that counts at most `n` chunks, if it is a chunk ACK at all.
abbrev pub IsAck : ℕ → Bytes → Type 0
IsAck n d = (a : ChunkAck) → decode_reply d ≡ ok (chunk_ack a) → a.accepted ≤ n

pub IsAck-mono : (m n : ℕ) (ds : List Bytes) → m ≤ n → All (IsAck m) ds → All (IsAck n) ds
IsAck-mono m n [] h k = tt
IsAck-mono m n (d ∷ ds) h k = ((λ a e. omega (arith, k.0 a e)), IsAck-mono m n ds h k.1)

payloads-send :
    (P : Bytes → Type 0) (c : Controller) (d : Bytes) (target : Addr)
    → P d
    → All P (payloads (send c d target))
unfolding send
payloads-send P c d target h = elim (Bool-cases c.duplicate_replies) [
  | inl twice ↦ rw (twice, send) (h, (h, tt))
  | inr once ↦ rw (once, send) (h, tt)
]

module _ (content name : Bytes) where
  -- A handler's answer: the upload goes on from where it was, and the ACKs are true.
  pub record Answered (c : Controller) (r : Controller × Sent) : Type 0 where
    pub receiving : Receiving content name r.0
    pub grows : c.accepted_count ≤ r.0.accepted_count
    pub acks : All (IsAck r.0.accepted_count) (payloads r.1)

  reply-IsAck :
      (d : Controller)
      → length content < 2 ^ 32
      → Receiving content name d
      → IsAck d.accepted_count (chunk_reply d)
  reply-IsAck d small h a e =
      let count_fits : d.accepted_count < 2 ^ 32 = omega (arith, h.count) in
      let counted : ChunkAck = record { result = d.chunk_result; accepted = d.accepted_count } in
      let shape : chunk_reply d ≡ chunk_ack_encode counted = rw h.not_canceled in
      let read = ap decode_reply shape ∙ decode_reply-chunk_ack counted h.result_byte count_fits in
      let same : a.accepted ≡ d.accepted_count = ground (arith, read, e) in omega (arith, same)

  Receiving-seen :
      (c : Controller) (seen : List ℕ)
      → Receiving content name c
      → Receiving content name (record c { seen_chunk = seen })
  Receiving-seen c seen h = record {
    not_canceled = h.not_canceled;
    result_byte = h.result_byte;
    named = h.named;
    sized = h.sized;
    count = h.count;
    partial = h.partial;
    complete = h.complete;
  }

  Receiving-counted :
      (c : Controller) (n : ℕ)
      → Receiving content name c
      → Receiving content name (record c { chunk_requests = n })
  Receiving-counted c n h = record {
    not_canceled = h.not_canceled;
    result_byte = h.result_byte;
    named = h.named;
    sized = h.sized;
    count = h.count;
    partial = h.partial;
    complete = h.complete;
  }

  quiet :
      (c d : Controller)
      → Receiving content name d
      → c.accepted_count ≤ d.accepted_count
      → Answered c (d, [])
  quiet c d h k = record { receiving = h; grows = k; acks = tt }

  handle_upload_chunk-Answered :
      (c : Controller) (i : ℕ) (src : Addr)
      → length content < 2 ^ 32
      → Receiving content name c
      → Answered c (handle_upload_chunk c i (chunk_of content i) src)
  unfolding handle_upload_chunk
  handle_upload_chunk-Answered c i src small h =
      let first = not (contains_index c.seen_chunk i) in
      let c₁ = record c { seen_chunk = i ∷ c.seen_chunk } in
      let c₂ = accept_chunk c₁ i (chunk_of content i) in
      let (kept, further) =
        accept_chunk-Receiving content name small c₁ i (Receiving-seen c (i ∷ c.seen_chunk) h) in
      elim (Bool-cases (first && c.drop_chunk i)) [
        | inl lost ↦
            rw (lost, handle_upload_chunk)
              (quiet c c₁ (Receiving-seen c (i ∷ c.seen_chunk) h) (omega arith))
        | inr taken ↦ elim (Bool-cases (first && c.drop_ack i)) [
          | inl ack_lost ↦ rw (taken, ack_lost, handle_upload_chunk) (quiet c c₂ kept further)
          | inr answered ↦
              rw (taken, answered, handle_upload_chunk)
                (record {
                  receiving = kept;
                  grows = further;
                  acks =
                      payloads-send (IsAck c₂.accepted_count) c₂ (chunk_reply c₂)
                        (target_for c₂ src) (reply-IsAck c₂ small kept);
                })
        ]
      ]

  -- A chunk of the file that arrives, at any time and for the first time or again, keeps the
  -- upload going.
  pub handle_packet-Answered :
      (c : Controller) (i : ℕ) (pkt : Bytes) (src : Addr)
      → length content < 2 ^ 32
      → Receiving content name c
      → decode_request pkt ≡ ok (upload_chunk_request i (chunk_of content i))
      → Answered c (handle_packet c pkt src)
  unfolding handle_packet handle_request dispatch
  handle_packet-Answered c i pkt src small h e =
      let c' = record c { chunk_requests = c.chunk_requests + 1 } in
      let counted = Receiving-counted c (c.chunk_requests + 1) h in
      rw e (elim (Bool-cases (should_stay_silent c')) [
        | inl silent ↦ rw (silent, handle_request) (quiet c c' counted (omega arith))
        | inr awake ↦
            let r = handle_upload_chunk-Answered c' i src small counted in
            rw (awake, handle_request)
              (record { receiving = r.receiving; grows = r.grows; acks = r.acks })
      ])
