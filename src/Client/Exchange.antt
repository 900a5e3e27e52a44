-- ===== src/Client/Exchange.antt =====
-- The requests of internal/masso/client.go and discover.go that wait for a reply: `request`, `DiscoverAt`,
-- `Connect` and `Tools`. What the rest of the program does to the client during a wait, and how a wait ends,
-- are arguments. `panicked` is the panic of `mustType`.
use mink_lasso.Base.{
  ℕ, zero, suc, ◌+◌, ◌%◌, Bool, true, false, ◌||◌, Option, none, some, List, [], ◌∷◌, ◌++◌, ◌==◌,
  if◌then◌else◌,
}
use mink_lasso.Masso.Errors.{
  Error, no_response, send_failed, not_connected, context_done, Result, ok, err,
}
use mink_lasso.Masso.FileName.{is_empty}
use mink_lasso.Masso.Request.{type_discovery, type_config, type_tool}
use mink_lasso.Masso.Reply.{
  Identity, ToolRecord, Reply, identity, config_reply, status, tool_record, start_ack, chunk_ack,
  max_tools,
}
use mink_lasso.Client.State.{UdpAddr, Incoming, Client, expect, cancel, receive, set_connection}

-- How the select of one attempt ends. A reply can only end it where there is one.
pub data Wake : Type 0 where
  done expired replied : Wake

-- One attempt: whether the send works, what happens to the client meanwhile, and the end of the wait.
pub record Attempt : Type 0 where
  pub sent : Bool
  pub meanwhile : Client → Client
  pub wake : Wake

-- What a call returns, the client after it, and the number of its sends.
pub record Call (A : Type 0) : Type 0 where
  pub result : A
  pub client : Client
  pub sends : ℕ

abbrev pub count_send : Call (Result Reply) → Call (Result Reply)
count_send k = record k { sends = k.sends + 1 }

-- An attempt whose wait is over, with the call that makes the other attempts.
abbrev pub collect : Option (Incoming × Client) → Call (Result Reply) → Call (Result Reply)
collect none others = others
collect (some (m, c)) others = record { result = ok m.reply; client = c; sends = 0 }

abbrev pub wake_up : ℕ → ℕ → Wake → Client → Call (Result Reply) → Call (Result Reply)
wake_up typ id done c others = record { result = err context_done; client = c; sends = 0 }
wake_up typ id expired c others = others
wake_up typ id replied c others = collect (receive typ id c) others

-- The loop of `request`, from the attempt with a number.
unfoldable pub attempt : ℕ → ℕ → (ℕ → Attempt) → ℕ → ℕ → Client → Call (Result Reply)
attempt typ id tries zero i c = record { result = err no_response; client = c; sends = 0 }
attempt typ id tries (suc n) i c =
    let others = attempt typ id tries n (i + 1) ((tries i).meanwhile c) in
    if (tries i).sent
    then count_send (wake_up typ id (tries i).wake ((tries i).meanwhile c) others)
    else record { result = err send_failed; client = c; sends = 1 }

abbrev pub canceling : ℕ → ℕ → Call (Result Reply) → Call (Result Reply)
canceling typ id k = record k { client = cancel typ id k.client }

-- `request`, the packet and the durations aside.
unfoldable pub request :
    ℕ → Option UdpAddr → (Reply → Bool) → ℕ → (ℕ → Attempt) → Client → Call (Result Reply)
unfolding attempt
request typ from matches attempts tries c =
    let (d, id) = expect typ from matches c in canceling typ id (attempt typ id tries attempts 0 d)

pub data Answer (A : Type 0) : Type 0 where
  answered : A → Answer A
  failed : Error → Answer A
  panicked : Answer A

abbrev pub any_reply : Reply → Bool
any_reply r = true

-- `mustType[Identity]` and `mustType[ConfigReply]`.
abbrev pub must_identity : Result Reply → Answer Identity
must_identity (err e) = failed e
must_identity (ok (identity r)) = answered r
must_identity (ok (config_reply s)) = panicked
must_identity (ok (status s)) = panicked
must_identity (ok (tool_record r)) = panicked
must_identity (ok (start_ack r)) = panicked
must_identity (ok (chunk_ack a)) = panicked

abbrev pub must_config : Result Reply → Answer ℕ
must_config (err e) = failed e
must_config (ok (config_reply s)) = answered s
must_config (ok (identity r)) = panicked
must_config (ok (status s)) = panicked
must_config (ok (tool_record r)) = panicked
must_config (ok (start_ack r)) = panicked
must_config (ok (chunk_ack a)) = panicked

abbrev pub after_call : {A : Type 0} → (Result Reply → A) → Call (Result Reply) → Call A
after_call f k = record { result = f k.result; client = k.client; sends = k.sends }

-- `DiscoverAt`.
unfoldable pub discover_at : UdpAddr → (ℕ → Attempt) → Client → Call (Answer Identity)
unfolding request
discover_at addr tries c =
    after_call must_identity (request type_discovery (some addr) any_reply 1 tries c)

abbrev pub default_attempts : ℕ
default_attempts = 3

-- `configRequest`.
unfoldable pub config_request : UdpAddr → (ℕ → Attempt) → Client → Call (Answer ℕ)
unfolding request
config_request addr tries c =
    after_call must_config (request type_config (some addr) any_reply default_attempts tries c)

-- The outside of a `Connect`: the attempts of each of its requests, and what ctx.Err() says after each
-- discovery.
pub record Outside : Type 0 where
  pub discoveries : ℕ → ℕ → Attempt
  pub is_done : ℕ → Bool
  pub configs : ℕ → Attempt

abbrev pub is_answered : {A : Type 0} → Answer A → Bool
is_answered (answered a) = true
is_answered (failed e) = false
is_answered panicked = true

abbrev pub add_sends : {A : Type 0} → ℕ → Call A → Call A
add_sends n k = record k { sends = n + k.sends }

-- The discovery loop of `Connect`, with one more try than the count.
unfoldable pub discover_again : Outside → UdpAddr → ℕ → ℕ → Client → Call (Answer Identity)
unfolding discover_at
discover_again o addr zero i c = discover_at addr (o.discoveries i) c
discover_again o addr (suc n) i c =
    let k = discover_at addr (o.discoveries i) c in
    let others = discover_again o addr n (i + 1) k.client in
    if is_answered k.result || o.is_done i then k else add_sends k.sends others

abbrev pub connect_config :
    UdpAddr → Identity → Answer ℕ → Client → ℕ → Call (Answer (Identity × ℕ))
connect_config addr r (answered serial) c n = record {
  result = answered (r, serial);
  client = set_connection addr r c;
  sends = n;
}
connect_config addr r (failed e) c n = record { result = failed e; client = c; sends = n }
connect_config addr r panicked c n = record { result = panicked; client = c; sends = n }

abbrev pub connect_identity :
    Outside → UdpAddr → Answer Identity → Client → ℕ → Call (Answer (Identity × ℕ))
connect_identity o addr (answered r) c n =
    let k = config_request addr o.configs c in connect_config addr r k.result k.client (n + k.sends)
connect_identity o addr (failed e) c n = record { result = failed e; client = c; sends = n }
connect_identity o addr panicked c n = record { result = panicked; client = c; sends = n }

-- `Connect`.
unfoldable pub connect : Outside → UdpAddr → Client → Call (Answer (Identity × ℕ))
unfolding discover_again
connect o addr c =
    let k = discover_again o addr 2 0 c in connect_identity o addr k.result k.client k.sends

-- The records collected, and the error that came with them.
pub record Tools : Type 0 where
  pub tools : List ToolRecord
  pub error : Answer (Unit {0})

abbrev pub matches_tool : ℕ → Reply → Bool
matches_tool idx (tool_record r) = r.index == idx
matches_tool idx (identity r) = false
matches_tool idx (config_reply s) = false
matches_tool idx (status s) = false
matches_tool idx (start_ack r) = false
matches_tool idx (chunk_ack a) = false

abbrev pub is_no_response : Error → Bool
is_no_response no_response = true
is_no_response _ = false

abbrev pub stop_tools : List ToolRecord → Answer (Unit {0}) → Client → ℕ → Call Tools
stop_tools out e c n = record { result = record { tools = out; error = e }; client = c; sends = n }

-- The body of the loop of `Tools` after its request, with the loop's further turns.
abbrev pub add_tool :
    List ToolRecord → Result Reply → Client → ℕ → (List ToolRecord → Call Tools) → Call Tools
add_tool out (err e) c n more =
    stop_tools out (if is_no_response e then answered tt else failed e) c n
add_tool out (ok (tool_record r)) c n more =
    if is_empty r.name then stop_tools out (answered tt) c n else add_sends n (more (out ++ r ∷ []))
add_tool out (ok (identity r)) c n more = stop_tools out panicked c n
add_tool out (ok (config_reply s)) c n more = stop_tools out panicked c n
add_tool out (ok (status s)) c n more = stop_tools out panicked c n
add_tool out (ok (start_ack r)) c n more = stop_tools out panicked c n
add_tool out (ok (chunk_ack a)) c n more = stop_tools out panicked c n

-- The loop of `Tools`, with a count of the turns left.
unfoldable pub tools_from :
    UdpAddr → (ℕ → ℕ → Attempt) → ℕ → ℕ → List ToolRecord → Client → Call Tools
unfolding request
tools_from remote tries zero i out c = stop_tools out (answered tt) c 0
tools_from remote tries (suc n) i out c =
    let k = request type_tool (some remote) (matches_tool (i % 256)) default_attempts (tries i) c in
    add_tool out k.result k.client k.sends (λ more. tools_from remote tries n (i + 1) more k.client)

abbrev pub zero_identity : Identity
zero_identity = record { serial = 0; version = [] }

unfoldable pub tools_of : (ℕ → ℕ → Attempt) → Option UdpAddr → Option Identity → Client → Call Tools
unfolding tools_from
tools_of tries (some remote) (some r) c = tools_from remote tries (max_tools r) 1 [] c
tools_of tries (some remote) none c = tools_from remote tries (max_tools zero_identity) 1 [] c
tools_of tries none r c = stop_tools [] (failed not_connected) c 0

-- `Tools`.
unfoldable pub tool_table : (ℕ → ℕ → Attempt) → Client → Call Tools
unfolding tools_of
tool_table tries c = tools_of tries c.remote c.identity_of c
