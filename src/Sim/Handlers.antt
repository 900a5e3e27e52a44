-- ===== src/Sim/Handlers.antt =====
-- internal/masso/sim/sim.go: the handlers of the simulated controller. A handler gives the new
-- state and the datagrams that it writes, each with its target.
use mink_lasso.Base.{
  ℕ, ◌+◌, ◌-◌, ◌%◌, ◌^◌, Bool, true, false, not, ◌&&◌, ◌||◌, List, [], ◌∷◌, ◌++◌, Option, none,
  some, ltb, leb, ◌==◌, if◌then◌else◌, length, get_or,
}
use mink_lasso.Base.Maps.{bytes_eq, insert, delete, member}
use mink_lasso.Masso.Errors.{Result, ok, err}
use mink_lasso.Masso.Words.{Bytes}
use mink_lasso.Masso.FileName.{is_empty}
use mink_lasso.Masso.Request.{
  Request, discovery_request, config_request, keepalive_request, tool_query_request,
  upload_start_request, upload_chunk_request, upload_abort_request, join_upload_path,
  decode_request,
}
use mink_lasso.Masso.Reply.{
  identity_encode, config_reply_encode, status_encode, tool_record_encode, start_ack_encode,
  chunk_ack_encode, start_ok, start_already_started, chunk_canceled,
}
use mink_lasso.Sim.State.{
  Addr, Controller, update_silenced_by_chunk, should_stay_silent, reset_upload, begin_upload,
}

abbrev pub Sent : Type 0
Sent = List (Bytes × Addr)

-- The accepted count of a canceled chunk ACK spells "USER".
abbrev pub user_accepted : ℕ
user_accepted = 0x52455355

-- A datagram, and a second copy if replies are duplicated.
unfoldable pub send : Controller → Bytes → Addr → Sent
send c bytes target =
    if c.duplicate_replies then (bytes, target) ∷ (bytes, target) ∷ [] else (bytes, target) ∷ []

abbrev pub target_or : Option Addr → Addr → Addr
target_or none src = src
target_or (some target) src = target

unfoldable pub target_for : Controller → Addr → Addr
target_for c src = target_or c.reply_target src

-- `replyAddrFor`: the source's IP address with the port that was asked for.
unfoldable pub reply_addr_for : Addr → ℕ → Option Addr
reply_addr_for src port = elim src.ip [
  | none ↦ none
  | some ip ↦ some (record { ip = some ip; port = port })
]

abbrev pub answer_discovery : Controller → Option Addr → Controller × Sent
answer_discovery c none = (c, [])
answer_discovery c (some target) =
    let c' = record c { reply_target = some target; discoveries = c.discoveries + 1 } in
    (c', send c' (identity_encode (record { serial = c.serial; version = c.version })) target)

unfoldable pub handle_discovery : Controller → ℕ → Addr → Controller × Sent
handle_discovery c reply_port src = answer_discovery c (reply_addr_for src reply_port)

unfoldable pub handle_config : Controller → Addr → Controller × Sent
handle_config c src = (c, send c (config_reply_encode (c.serial % 65536)) (target_for c src))

unfoldable pub handle_keepalive : Controller → Addr → Controller × Sent
handle_keepalive c src =
    let c' = record c { keepalives = c.keepalives + 1 } in
    (c', send c' (status_encode c.status) (target_for c' src))

-- A query outside 1..len(tools) gets an empty name.
unfoldable pub handle_tool_query : Controller → ℕ → Addr → Controller × Sent
handle_tool_query c index src =
    let name =
      if leb 1 index && leb index (length c.tools) then get_or c.tools (index - 1) [] else [] in
    (c, send c (tool_record_encode (record { index = index; name = name })) (target_for c src))

-- The `switch` of `handleUploadStart`: the state and the result byte.
unfoldable pub start_upload : Controller → Bytes → ℕ → Controller × ℕ
start_upload c name size =
    if c.start_result == start_already_started
    then (begin_upload name size c, c.start_result)
    else if not (c.start_result == start_ok)
    then (record (reset_upload c) { canceled = false }, c.start_result)
    else if member name c.stuck || (c.uploading && bytes_eq name c.upload_name)
    then (c, start_already_started)
    else if c.uploading
    then (begin_upload name size (record c { stuck = c.upload_name ∷ c.stuck }), c.start_result)
    else (begin_upload name size c, c.start_result)

unfoldable pub handle_upload_start : Controller → ℕ → Bytes → Bytes → Addr → Controller × Sent
handle_upload_start c size path name src =
    let (c', result) = start_upload c (join_upload_path path name) size in
    if ltb 0 c'.drop_start_acks
    then (record c' { drop_start_acks = c'.drop_start_acks - 1 }, [])
    else (c', send c' (start_ack_encode result) (target_for c' src))

-- The effect of a notification on the state.
unfoldable pub cancel_upload : Controller → Controller
cancel_upload c =
    let c' = record (reset_upload c) { aborts = c.aborts + 1; canceled = true } in
    if is_empty c'.current
    then c'
    else record c' { files = delete c'.current c'.files; current = [] }

unfoldable pub handle_upload_abort : Controller → Addr → Controller × Sent
handle_upload_abort c src =
    let c' = cancel_upload c in
    if should_stay_silent c' then (c', []) else (
      c',
      send c' (chunk_ack_encode (record { result = chunk_canceled; accepted = user_accepted }))
          (target_for c' src),
    )

abbrev pub contains_index : List ℕ → ℕ → Bool
contains_index [] i = false
contains_index (j ∷ s) i = if j == i then true else contains_index s i

unfoldable pub append_chunk : Controller → Bytes → Controller
unfolding update_silenced_by_chunk
append_chunk c chunk = update_silenced_by_chunk (record c {
  upload_data = c.upload_data ++ chunk;
  accepted_count = (c.accepted_count + 1) % 2 ^ 32;
})

-- The last chunk stores the file.
unfoldable pub store_complete : Controller → Controller
store_complete c =
    if length c.upload_data == c.upload_size
    then record c { files = insert c.upload_name c.upload_data c.files; uploading = false }
    else c

-- A chunk in turn is appended and counted.
unfoldable pub accept_chunk : Controller → ℕ → Bytes → Controller
accept_chunk c index chunk =
    if c.uploading && index == c.accepted_count then store_complete (append_chunk c chunk) else c

abbrev pub chunk_reply : Controller → Bytes
chunk_reply c =
    if c.canceled
    then chunk_ack_encode (record { result = chunk_canceled; accepted = user_accepted })
    else chunk_ack_encode (record { result = c.chunk_result; accepted = c.accepted_count })

unfoldable pub handle_upload_chunk : Controller → ℕ → Bytes → Addr → Controller × Sent
handle_upload_chunk c index chunk src =
    let first = not (contains_index c.seen_chunk index) in
    let c₁ = record c { seen_chunk = index ∷ c.seen_chunk } in
    if first && c.drop_chunk index
    then (c₁, [])
    else (let c₂ = accept_chunk c₁ index chunk in
        if first && c.drop_ack index
        then (c₂, [])
        else (c₂, send c₂ (chunk_reply c₂) (target_for c₂ src)))

-- The `switch` of `handlePacket`, for all but an abort notification.
unfoldable pub dispatch : Controller → Request → Addr → Controller × Sent
dispatch c (discovery_request reply_port) src = handle_discovery c reply_port src
dispatch c (config_request h m s d mo y) src = handle_config c src
dispatch c (keepalive_request h m s d mo) src = handle_keepalive c src
dispatch c (tool_query_request index) src = handle_tool_query c index src
dispatch c (upload_start_request size path name) src = handle_upload_start c size path name src
dispatch c (upload_chunk_request index chunk) src = handle_upload_chunk c index chunk src
dispatch c upload_abort_request src = handle_upload_abort c src

-- Start and chunk requests are counted even while the controller is silent.
abbrev pub count_request : Controller → Request → Controller
count_request c (upload_chunk_request index chunk) = record c {
  chunk_requests = c.chunk_requests + 1;
}
count_request c (upload_start_request size path name) = record c {
  start_requests = c.start_requests + 1;
}
count_request c _ = c

abbrev pub is_abort : Request → Bool
is_abort upload_abort_request = true
is_abort _ = false

unfoldable pub handle_request : Controller → Request → Addr → Controller × Sent
handle_request c r src =
    let c' = count_request c r in
    if not (is_abort r) && should_stay_silent c' then (c', []) else dispatch c' r src

abbrev pub handle_decoded : Controller → Result Request → Addr → Controller × Sent
handle_decoded c (ok r) src = handle_request c r src
handle_decoded c (err e) src = (c, [])

unfoldable pub handle_packet : Controller → Bytes → Addr → Controller × Sent
handle_packet c pkt src = handle_decoded c (decode_request pkt) src
