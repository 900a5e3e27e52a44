-- ===== src/Engine/Connection.antt =====
-- internal/engine/conn.go: one pass of the connection's state machine. What the controller, the network and the
-- clock answer comes in as arguments, in the order in which the loops ask for it.
pub mod Phases
pub mod Searching
pub mod Follows
mod Tests
use mink_lasso.Base.{
  ℕ, ◌+◌, Bool, true, false, Option, none, some, List, [], ◌∷◌, ◌++◌, ltb, ◌==◌, if◌then◌else◌,
}
use mink_lasso.Masso.Errors.{Error, Result, ok, err}
use mink_lasso.Masso.Words.{Bytes}
use mink_lasso.Masso.FileName.{is_empty}
use mink_lasso.Masso.Reply.{Identity, Status, ToolRecord}
use mink_lasso.Client.State.{UdpAddr}
use mink_lasso.Engine.Gate.{Verdict, Gate, evaluate, connected, disconnected, update_status}

-- What the loop reports: a ConnState of each kind, a StatusEvent and a ToolsEvent.
pub data ConnEvent : Type 0 where
  unconfigured : ConnEvent
  discovering : ℕ → ConnEvent
  connecting : ℕ → UdpAddr → ConnEvent
  online : ℕ → UdpAddr → Identity → ConnEvent
  lost : ℕ → UdpAddr → Option Error → ConnEvent
  status_event : Status → Verdict → ConnEvent
  tools_event : Result (List ToolRecord) → ConnEvent

-- The fields of an Engine that the loop uses, and those of its Config.
pub record Engine : Type 0 where
  pub address : Bytes
  pub last_address : Bytes
  pub serial : ℕ
  pub last_addr : Option UdpAddr
  pub gate : Gate

-- A loop's answer: not yet, the unicast time is up, a controller, or the end of the context.
pub data Search : Type 0 where
  goes_on time_up gives_up : Search
  found : UdpAddr → Identity → Search

pub record Searched : Type 0 where
  pub result : Search
  pub events : List ConnEvent

-- A try of one candidate: whether ctx is done before it, and what Connect returns.
pub record Try : Type 0 where
  pub canceled : Bool
  pub answer : Result Identity

-- A turn of the unicast loop: the clock, and the tries by the candidate's position.
pub record UnicastTurn : Type 0 where
  pub now : ℕ
  pub attempts : ℕ → Try

-- A turn of the broadcast loop: what Discover finds, what Connect returns by the position of what was found,
-- and whether ctx is done when the loop waits for its ticker.
pub record BroadcastTurn : Type 0 where
  pub discovery : Result (List (UdpAddr × Identity))
  pub answers : ℕ → Result Identity
  pub is_done : Bool

-- A turn of the forwarding goroutine: a status, with the times at which the gate reads the clock and the verdict
-- is made, or a request to read the tool table.
pub data StatusTurn : Type 0 where
  status : Status → ℕ → ℕ → StatusTurn
  refresh : Result (List ToolRecord) → StatusTurn

abbrev pub ask_next : List ConnEvent → Searched → Searched
ask_next events s = record s { events = events ++ s.events }

abbrev pub is_serial : ℕ → Result Identity → Option Identity
is_serial serial (err e) = none
is_serial serial (ok id) = if id.serial == serial then some id else none

-- The end of one try: it has found the controller, or the search goes on as `rest` says.
abbrev pub after_try : ℕ → UdpAddr → Option Identity → Searched → Searched
after_try serial addr (some id) rest = record {
  result = found addr id;
  events = connecting serial addr ∷ [];
}
after_try serial addr none rest = ask_next (connecting serial addr ∷ discovering serial ∷ []) rest

-- The loop over the candidates, from the position `i` on.
unfoldable pub try_candidates : ℕ → ℕ → List UdpAddr → (ℕ → Try) → Searched
try_candidates serial i [] attempts = record { result = goes_on; events = [] }
try_candidates serial i (addr ∷ rest) attempts =
    let tried = try_candidates serial (i + 1) rest attempts in
    if (attempts i).canceled
    then record { result = gives_up; events = [] }
    else after_try serial addr (is_serial serial (attempts i).answer) tried

-- The search ends with `s`, or is taken up by `rest`.
abbrev pub or_else : Searched → Searched → Searched
or_else s rest = elim s.result [
  | goes_on ↦ ask_next s.events rest
  | time_up ↦ s
  | gives_up ↦ s
  | found addr id ↦ s
]

-- The unicast loop of discoverAndConnect.
unfoldable pub unicast : ℕ → ℕ → List UdpAddr → List UnicastTurn → Searched
unfolding try_candidates
unicast serial deadline addrs [] = record { result = goes_on; events = [] }
unicast serial deadline addrs (t ∷ turns) =
    let rest = unicast serial deadline addrs turns in
    if ltb t.now deadline
    then or_else (try_candidates serial 0 addrs t.attempts) rest
    else record { result = time_up; events = [] }

-- The loop over what a broadcast has found, from the position `i` on.
unfoldable pub try_found : ℕ → ℕ → List (UdpAddr × Identity) → (ℕ → Result Identity) → Searched
try_found serial i [] answers = record { result = goes_on; events = [] }
try_found serial i ((addr, id) ∷ rest) answers =
    let tried = try_found serial (i + 1) rest answers in
    if id.serial == serial
    then after_try serial addr (is_serial serial (answers i)) tried
    else tried

abbrev pub found_of : Result (List (UdpAddr × Identity)) → List (UdpAddr × Identity)
found_of (ok l) = l
found_of (err e) = []

unfoldable pub broadcast_connect : ℕ → List BroadcastTurn → Searched
unfolding try_found
broadcast_connect serial [] = record { result = goes_on; events = [] }
broadcast_connect serial (t ∷ turns) =
    let rest = broadcast_connect serial turns in
    or_else (try_found serial 0 (found_of t.discovery) t.answers)
      (if t.is_done then record { result = gives_up; events = [] } else rest)

abbrev option_list : Option UdpAddr → List UdpAddr
option_list none = []
option_list (some addr) = addr ∷ []

abbrev last_or : List UdpAddr → Option UdpAddr → List UdpAddr
last_or others none = others
last_or others (some addr) = addr ∷ []

abbrev pub is_nil : List UdpAddr → Bool
is_nil [] = true
is_nil (addr ∷ rest) = false

-- `candidateAddrs`; `resolve` is net.ResolveUDPAddr.
abbrev pub resolved : (Bytes → Option UdpAddr) → Bytes → List UdpAddr
resolved resolve s = if is_empty s then [] else option_list (resolve s)

unfoldable pub candidate_addrs : (Bytes → Option UdpAddr) → Engine → List UdpAddr
candidate_addrs resolve e =
    resolved resolve e.address ++ last_or (resolved resolve e.last_address) e.last_addr

-- A pass during which the serial number is not changed, as the clock, the controller and the context have it.
pub record Pass : Type 0 where
  pub resolve : Bytes → Option UdpAddr
  pub deadline : ℕ
  pub unicasts : List UnicastTurn
  pub broadcasts : List BroadcastTurn
  -- connected: what is read first, then turns, then how Run ends
  pub connected_at : ℕ
  pub tools : Result (List ToolRecord)
  pub turns : List StatusTurn
  pub run_error : Option Error
  pub is_done : Bool
  pub disconnected_at : ℕ

abbrev pub after_unicast : Searched → Searched → Searched
after_unicast s rest = elim s.result [
  | goes_on ↦ s
  | time_up ↦ ask_next s.events rest
  | gives_up ↦ s
  | found addr id ↦ s
]

unfoldable pub discover_and_connect : Pass → Engine → Searched
unfolding unicast broadcast_connect candidate_addrs
discover_and_connect p e =
    let addrs = candidate_addrs p.resolve e in
    let broadcast = broadcast_connect e.serial p.broadcasts in
    if is_nil addrs
    then broadcast
    else after_unicast (unicast e.serial p.deadline addrs p.unicasts) broadcast

-- The gate after the turns of a connection, and what they report.
pub record Forwarded : Type 0 where
  pub gate : Gate
  pub events : List ConnEvent

unfoldable pub forward : List StatusTurn → Gate → Forwarded
unfolding update_status evaluate
forward [] g = record { gate = g; events = [] }
forward (status st at now ∷ turns) g =
    let g' = update_status st at now g in
    let rest = forward turns g' in
    record rest { events = status_event st (evaluate g' now) ∷ rest.events }
forward (refresh tools ∷ turns) g =
    let rest = forward turns g in record rest { events = tools_event tools ∷ rest.events }

unfoldable pub run_connected : ℕ → UdpAddr → Pass → Gate → Forwarded
unfolding forward
run_connected serial addr p g =
    let told = forward p.turns g in
    record told {
      events =
          (tools_event p.tools ∷ told.events)
          ++ (if p.is_done then [] else lost serial addr p.run_error ∷ []);
    }

pub record Passed : Type 0 where
  pub engine : Engine
  pub events : List ConnEvent

abbrev pub go_online : UdpAddr → Identity → Pass → Engine → Passed
go_online addr id p e =
    let told = run_connected e.serial addr p (connected p.connected_at e.gate) in
    record {
      engine = record e { last_addr = some addr; gate = disconnected p.disconnected_at told.gate };
      events = online e.serial addr id ∷ told.events;
    }

abbrev pub after_search : Search → Pass → Engine → Passed
after_search goes_on p e = record { engine = e; events = [] }
after_search time_up p e = record { engine = e; events = [] }
after_search gives_up p e = record { engine = e; events = [] }
after_search (found addr id) p e = go_online addr id p e

unfoldable pub run_conn_attempt : Pass → Engine → Passed
unfolding discover_and_connect
run_conn_attempt p e =
    let s = discover_and_connect p e in
    let after = after_search s.result p e in
    if e.serial == 0
    then record { engine = e; events = unconfigured ∷ [] }
    else record after { events = discovering e.serial ∷ s.events ++ after.events }

-- `SetSerial`, the cancellation of the running pass apart.
unfoldable pub set_serial : ℕ → Engine → Engine
set_serial serial e = record e { serial = serial; last_addr = none }
