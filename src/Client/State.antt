-- ===== src/Client/State.antt =====
-- The state of internal/masso/client.go and what its reader does with a datagram. A `*net.UDPAddr` is a
-- UdpAddr, whose IP address is a number; a net.Addr of another type is `none`. A channel is the list of
-- what it holds, oldest first.
use mink_lasso.Base.{
  ℕ, ◌+◌, Bool, true, false, not, ◌||◌, Option, none, some, List, [], ◌∷◌, ◌++◌, map, length, ltb,
  ◌==◌, if◌then◌else◌,
}
use mink_lasso.Masso.Errors.{Result, ok, err}
use mink_lasso.Masso.Words.{Bytes}
use mink_lasso.Masso.Frame.{parse}
use mink_lasso.Masso.Request.{
  type_status, type_discovery, type_config, type_tool, type_upload_start, type_upload_chunk,
}
use mink_lasso.Masso.Reply.{
  Identity, Status, Reply, identity, config_reply, status, tool_record, start_ack, chunk_ack,
  decode_reply_body,
}

pub record UdpAddr : Type 0 where
  pub ip : ℕ
  pub port : ℕ

pub record Incoming : Type 0 where
  pub addr : Option UdpAddr
  pub reply : Reply

-- A registration, with a number for the pointer that tells it from others, and its channel.
pub record Waiter : Type 0 where
  pub id : ℕ
  pub from : Option UdpAddr
  pub matches : Reply → Bool
  pub buffer : List Incoming

-- The fields of a Client that change. `last_id` numbers the registrations.
pub record Client : Type 0 where
  pub waiters : ℕ → List Waiter
  pub last_id : ℕ
  pub remote : Option UdpAddr
  pub identity_of : Option Identity
  pub last_heard : Option ℕ
  pub status_in : Option Status
  pub status_out : Option Status

abbrev pub new_client : Client
new_client = record {
  waiters = λ typ. [];
  last_id = 0;
  remote = none;
  identity_of = none;
  last_heard = none;
  status_in = none;
  status_out = none;
}

abbrev pub waiter_buffer : ℕ
waiter_buffer = 32

abbrev pub liveness_datagram_max : ℕ
liveness_datagram_max = 1501

abbrev pub same_ip : Option UdpAddr → UdpAddr → Bool
same_ip none want = false
same_ip (some a) want = a.ip == want.ip

-- `from` of a waiter, or the remote, that may be nil.
abbrev pub is_foreign : Option UdpAddr → Option UdpAddr → Bool
is_foreign addr none = false
is_foreign addr (some want) = not (same_ip addr want)

abbrev pub is_known : Option UdpAddr → Option UdpAddr → Bool
is_known addr none = false
is_known addr (some remote) = same_ip addr remote

abbrev pub is_ok {ℓ} : {A : Type ℓ} → Result A → Bool
is_ok (ok a) = true
is_ok (err e) = false

-- `noteLiveness`, on what `parse` made of the datagram.
unfoldable pub note_liveness : Bytes → Option UdpAddr → ℕ → Result (ℕ × Bytes) → Client → Client
note_liveness pkt addr now parsed c =
    if ltb liveness_datagram_max (length pkt)
    then c
    else if not (is_known addr c.remote)
    then c
    else if not (is_ok parsed)
    then c
    else record c { last_heard = some now }

abbrev pub reply_type_of : Reply → ℕ
reply_type_of (identity r) = type_discovery
reply_type_of (config_reply s) = type_config
reply_type_of (status s) = type_status
reply_type_of (tool_record r) = type_tool
reply_type_of (start_ack r) = type_upload_start
reply_type_of (chunk_ack a) = type_upload_chunk

-- One waiter's turn: the reply goes to its channel, unless that is full.
unfoldable pub offer : Incoming → Waiter → Waiter
offer m w =
    if is_foreign m.addr w.from || not (w.matches m.reply)
    then w
    else if ltb (length w.buffer) waiter_buffer
    then record w { buffer = w.buffer ++ m ∷ [] }
    else w

-- An assignment to `c.waiters[typ]`.
abbrev pub put_waiters : ℕ → List Waiter → Client → Client
put_waiters typ ws c = record c { waiters = λ t. if t == typ then ws else c.waiters t }

abbrev pub deliver : Incoming → Client → Client
deliver m c =
    put_waiters (reply_type_of m.reply) (map (offer m) (c.waiters (reply_type_of m.reply))) c

-- The rest of `handlePacket`, for a decoded reply. The one slot of `status_in` takes the latest.
abbrev pub handle_reply : Option UdpAddr → Reply → Client → Client
handle_reply addr (status s) c =
    if is_foreign addr c.remote then c else record c { status_in = some s }
handle_reply addr (identity r) c = deliver (record { addr = addr; reply = identity r }) c
handle_reply addr (config_reply s) c = deliver (record { addr = addr; reply = config_reply s }) c
handle_reply addr (tool_record r) c = deliver (record { addr = addr; reply = tool_record r }) c
handle_reply addr (start_ack r) c = deliver (record { addr = addr; reply = start_ack r }) c
handle_reply addr (chunk_ack a) c = deliver (record { addr = addr; reply = chunk_ack a }) c

abbrev pub handle_reply_result : Option UdpAddr → Result Reply → Client → Client
handle_reply_result addr (err e) c = c
handle_reply_result addr (ok reply) c = handle_reply addr reply c

abbrev pub handle_parsed : Bytes → Option UdpAddr → Result (ℕ × Bytes) → Client → Client
handle_parsed pkt addr (err e) c = c
handle_parsed pkt addr (ok (typ, body)) c = handle_reply_result addr (decode_reply_body typ pkt) c

-- `handlePacket`, on a datagram that arrives at a time.
unfoldable pub handle_packet : Bytes → Option UdpAddr → ℕ → Client → Client
unfolding note_liveness
handle_packet pkt addr now c =
    handle_parsed pkt addr (parse pkt) (note_liveness pkt addr now (parse pkt) c)

-- `expect`: the new client, and the number of the registration.
unfoldable pub expect : ℕ → Option UdpAddr → (Reply → Bool) → Client → Client × ℕ
expect typ from matches c =
    let w : Waiter = record { id = c.last_id + 1; from = from; matches = matches; buffer = [] } in
    (
      put_waiters typ (c.waiters typ ++ w ∷ []) (record c { last_id = c.last_id + 1 }),
      c.last_id + 1,
    )

-- slices.Delete at slices.Index.
unfoldable pub without : ℕ → List Waiter → List Waiter
without id [] = []
without id (w ∷ ws) = let others = without id ws in if w.id == id then ws else w ∷ others

-- The `cancel` that `expect` returns.
unfoldable pub cancel : ℕ → ℕ → Client → Client
cancel typ id c = put_waiters typ (without id (c.waiters typ)) c

-- The oldest reply in a channel.
abbrev pub pop : Waiter → List Incoming → List Waiter → Option (Incoming × List Waiter)
pop w [] ws = none
pop w (m ∷ ms) ws = some (m, record w { buffer = ms } ∷ ws)

abbrev pub keep_first : Waiter → Option (Incoming × List Waiter) → Option (Incoming × List Waiter)
keep_first w none = none
keep_first w (some (m, ws)) = some (m, w ∷ ws)

unfoldable pub take_reply : ℕ → List Waiter → Option (Incoming × List Waiter)
take_reply id [] = none
take_reply id (w ∷ ws) =
    let others = take_reply id ws in if w.id == id then pop w w.buffer ws else keep_first w others

abbrev pub put_taken : ℕ → Client → Option (Incoming × List Waiter) → Option (Incoming × Client)
put_taken typ c none = none
put_taken typ c (some (m, ws)) = some (m, put_waiters typ ws c)

-- A receive from the channel of a registration: `none` where it would wait.
unfoldable pub receive : ℕ → ℕ → Client → Option (Incoming × Client)
receive typ id c = put_taken typ c (take_reply id (c.waiters typ))

-- `setConnection`.
abbrev pub set_connection : UdpAddr → Identity → Client → Client
set_connection addr id c = record c { remote = some addr; identity_of = some id }
