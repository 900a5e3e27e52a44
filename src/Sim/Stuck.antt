-- ===== src/Sim/Stuck.antt =====
-- Transfers that a start for another file displaced (internal/masso/sim/sim.go, `stuck`).
use mink_lasso.Base.{
  ℕ, ◌≡◌, refl, ◌∙◌, ap, true, false, not, ◌&&◌, List, [], ◌∷◌, Option, none, some, ltb, ◌==◌,
  arith, Bool-cases, inl, inr,
}
use mink_lasso.Base.Maps.{member, member-cons, bytes_eq_iff}
use mink_lasso.Masso.Errors.{result_cases}
use mink_lasso.Masso.Words.{Bytes}
use mink_lasso.Masso.Reply.{start_ok, start_already_started}
use mink_lasso.Masso.Request.{
  Request, decode_request, discovery_request, config_request, keepalive_request, tool_query_request,
  upload_start_request, upload_chunk_request, upload_abort_request, join_upload_path,
}
use mink_lasso.Sim.State.{
  Addr, Controller, update_silenced_by_chunk, should_stay_silent, reset_upload, begin_upload,
}
use mink_lasso.Sim.Handlers.{
  reply_addr_for, answer_discovery, handle_discovery, handle_config, handle_keepalive,
  handle_tool_query, start_upload, handle_upload_start, cancel_upload, handle_upload_abort,
  contains_index, append_chunk, store_complete, accept_chunk, handle_upload_chunk, dispatch,
  count_request, is_abort, handle_request, handle_packet,
}

-- The name is stuck.
abbrev pub IsStuck : Bytes → Controller → Type 0
IsStuck name c = member name c.stuck ≡ true

start_upload-IsStuck :
    (name : Bytes) (c : Controller) (n : Bytes) (size : ℕ)
    → IsStuck name c
    → IsStuck name (start_upload c n size).0
unfolding start_upload begin_upload reset_upload
start_upload-IsStuck name c n size h =
    let grown = member-cons name c.upload_name c.stuck in ground (arith, h, grown)

handle_upload_start-IsStuck :
    (name : Bytes) (c : Controller) (size : ℕ) (path n : Bytes) (src : Addr)
    → IsStuck name c
    → IsStuck name (handle_upload_start c size path n src).0
unfolding handle_upload_start
handle_upload_start-IsStuck name c size path n src h =
    let c' = (start_upload c (join_upload_path path n) size).0 in
    let kept = start_upload-IsStuck name c (join_upload_path path n) size h in
    elim (Bool-cases (ltb 0 c'.drop_start_acks)) [
      | inl lost ↦ rw (lost, handle_upload_start) kept
      | inr told ↦ rw (told, handle_upload_start) kept
    ]

stuck-cancel_upload : (c : Controller) → (cancel_upload c).stuck ≡ c.stuck
unfolding cancel_upload reset_upload
stuck-cancel_upload c = ground arith

stuck-handle_upload_abort :
    (c : Controller) (src : Addr) → (handle_upload_abort c src).0.stuck ≡ c.stuck
unfolding handle_upload_abort
stuck-handle_upload_abort c src = elim (Bool-cases (should_stay_silent (cancel_upload c))) [
  | inl silent ↦ rw (silent, handle_upload_abort) (stuck-cancel_upload c)
  | inr awake ↦ rw (awake, handle_upload_abort) (stuck-cancel_upload c)
]

stuck-accept_chunk :
    (c : Controller) (i : ℕ) (chunk : Bytes) → (accept_chunk c i chunk).stuck ≡ c.stuck
unfolding accept_chunk append_chunk store_complete update_silenced_by_chunk
stuck-accept_chunk c i chunk = ground arith

stuck-handle_upload_chunk :
    (c : Controller) (i : ℕ) (chunk : Bytes) (src : Addr)
    → (handle_upload_chunk c i chunk src).0.stuck ≡ c.stuck
unfolding handle_upload_chunk
stuck-handle_upload_chunk c i chunk src =
    let first = not (contains_index c.seen_chunk i) in
    let c₁ = record c { seen_chunk = i ∷ c.seen_chunk } in
    elim (Bool-cases (first && c.drop_chunk i)) [
      | inl lost ↦ rw (lost, handle_upload_chunk) refl
      | inr taken ↦ elim (Bool-cases (first && c.drop_ack i)) [
        | inl ack_lost ↦ rw (taken, ack_lost, handle_upload_chunk) (stuck-accept_chunk c₁ i chunk)
        | inr answered ↦ rw (taken, answered, handle_upload_chunk) (stuck-accept_chunk c₁ i chunk)
      ]
    ]

stuck-answer_discovery :
    (c : Controller) (target : Option Addr) → (answer_discovery c target).0.stuck ≡ c.stuck
stuck-answer_discovery c none = refl
stuck-answer_discovery c (some target) = refl

dispatch-IsStuck :
    (name : Bytes) (c : Controller) (r : Request) (src : Addr)
    → IsStuck name c
    → IsStuck name (dispatch c r src).0
unfolding dispatch handle_discovery handle_config handle_keepalive handle_tool_query
dispatch-IsStuck name c (discovery_request port) src h =
    ap (member name) (stuck-answer_discovery c (reply_addr_for src port)) ∙ h
dispatch-IsStuck name c (config_request hour m s d mo y) src h = h
dispatch-IsStuck name c (keepalive_request hour m s d mo) src h = h
dispatch-IsStuck name c (tool_query_request index) src h = h
dispatch-IsStuck name c (upload_start_request size path n) src h =
    handle_upload_start-IsStuck name c size path n src h
dispatch-IsStuck name c (upload_chunk_request i chunk) src h =
    ap (member name) (stuck-handle_upload_chunk c i chunk src) ∙ h
dispatch-IsStuck name c upload_abort_request src h =
    ap (member name) (stuck-handle_upload_abort c src) ∙ h

stuck-count_request : (c : Controller) (r : Request) → (count_request c r).stuck ≡ c.stuck
stuck-count_request c (discovery_request port) = refl
stuck-count_request c (config_request hour m s d mo y) = refl
stuck-count_request c (keepalive_request hour m s d mo) = refl
stuck-count_request c (tool_query_request index) = refl
stuck-count_request c (upload_start_request size path n) = refl
stuck-count_request c (upload_chunk_request i chunk) = refl
stuck-count_request c upload_abort_request = refl

handle_request-IsStuck :
    (name : Bytes) (c : Controller) (r : Request) (src : Addr)
    → IsStuck name c
    → IsStuck name (handle_request c r src).0
unfolding handle_request
handle_request-IsStuck name c r src h =
    let c' = count_request c r in
    let counted : IsStuck name c' = ap (member name) (stuck-count_request c r) ∙ h in
    elim (Bool-cases (not (is_abort r) && should_stay_silent c')) [
      | inl silent ↦ rw (silent, handle_request) counted
      | inr awake ↦ rw (awake, handle_request) (dispatch-IsStuck name c' r src counted)
    ]

-- The controller after a sequence of datagrams.
unfoldable pub receive_all : Controller → List (Bytes × Addr) → Controller
receive_all c [] = c
receive_all c ((pkt, src) ∷ rest) = receive_all (handle_packet c pkt src).0 rest

handle_packet-IsStuck :
    (name : Bytes) (c : Controller) (pkt : Bytes) (src : Addr)
    → IsStuck name c
    → IsStuck name (handle_packet c pkt src).0
unfolding handle_packet
handle_packet-IsStuck name c pkt src h = elim (result_cases (decode_request pkt)) [
  | inl (r, read) ↦ rw read (handle_request-IsStuck name c r src h)
  | inr (e, garbage) ↦ rw garbage h
]

receive_all-IsStuck :
    (name : Bytes) (c : Controller) (pkts : List (Bytes × Addr))
    → IsStuck name c
    → IsStuck name (receive_all c pkts)
unfolding receive_all
receive_all-IsStuck name c [] h = h
receive_all-IsStuck name c ((pkt, src) ∷ rest) h =
    receive_all-IsStuck name (handle_packet c pkt src).0 rest
      (handle_packet-IsStuck name c pkt src h)

own_name : (name : Bytes) (stuck : List Bytes) → member name (name ∷ stuck) ≡ true
unfolding member
own_name name stuck = rw ((bytes_eq_iff name name).1 refl) refl

displaced-IsStuck :
    (c : Controller) (n : Bytes) (size : ℕ)
    → c.uploading ≡ true
    → (start_upload c n size).1 ≡ start_ok
    → IsStuck c.upload_name (start_upload c n size).0
unfolding start_upload begin_upload reset_upload
displaced-IsStuck c n size h e =
    let own = own_name c.upload_name c.stuck in ground (arith, h, e, own)

refused_start :
    (c : Controller) (name : Bytes) (size : ℕ)
    → c.start_result ≡ start_ok
    → IsStuck name c
    → start_upload c name size ≡ (c, start_already_started)
unfolding start_upload
refused_start c name size h k =
    let unforced : (c.start_result == start_already_started) ≡ false = ground (arith, h) in
    let allowed : not (c.start_result == start_ok) ≡ false = ground (arith, h) in
    rw (unforced, allowed, k, start_upload) refl

-- A transfer that is open when a start for another file is accepted stays open for good: whatever
-- datagrams arrive then, in any order, a start for its file draws StartAlreadyStarted and changes
-- nothing, unless another result is forced.
pub displaced-refused :
    (c : Controller) (n : Bytes) (size size' : ℕ) (pkts : List (Bytes × Addr))
    → c.uploading ≡ true
    → (start_upload c n size).1 ≡ start_ok
    → (receive_all (start_upload c n size).0 pkts).start_result ≡ start_ok
    → start_upload (receive_all (start_upload c n size).0 pkts) c.upload_name size'
      ≡ (receive_all (start_upload c n size).0 pkts, start_already_started)
displaced-refused c n size size' pkts h e k =
    refused_start (receive_all (start_upload c n size).0 pkts) c.upload_name size' k (
      receive_all-IsStuck c.upload_name (start_upload c n size).0 pkts
        (displaced-IsStuck c n size h e))
