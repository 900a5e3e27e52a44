-- ===== src/Engine/Connection/Phases.antt =====
-- internal/engine/event.go: the states of the connection and the order in which they are documented.
use mink_lasso.Base.{ℕ, ◌≡◌, Option, List, [], ◌∷◌, ◌++◌}
use mink_lasso.Masso.Errors.{Error, Result}
use mink_lasso.Masso.Reply.{Identity, Status, ToolRecord}
use mink_lasso.Client.State.{UdpAddr}
use mink_lasso.Engine.Gate.{Verdict}
use mink_lasso.Engine.Connection.{
  ConnEvent, discovering, connecting, online, lost, status_event, tools_event,
}

-- Where the reports of a pass stand.
pub data Phase : Type 0 where
  idle searching : Phase
  trying linked : UdpAddr → Phase

-- One report of a pass for the controller `serial`.
pub data Moves (serial : ℕ) : Phase → ConnEvent → Phase → Type 0 where
  starts : Moves serial idle (discovering serial) searching
  tries : (addr : UdpAddr) → Moves serial searching (connecting serial addr) (trying addr)
  misses : (addr : UdpAddr) → Moves serial (trying addr) (discovering serial) searching
  connects :
      (addr : UdpAddr) (id : Identity)
      → id.serial ≡ serial
      → Moves serial (trying addr) (online serial addr id) (linked addr)
  tells :
      (addr : UdpAddr) (st : Status) (v : Verdict)
      → Moves serial (linked addr) (status_event st v) (linked addr)
  lists :
      (addr : UdpAddr) (tools : Result (List ToolRecord))
      → Moves serial (linked addr) (tools_event tools) (linked addr)
  loses : (addr : UdpAddr) (e : Option Error) → Moves serial (linked addr) (lost serial addr e) idle

pub data Trace (serial : ℕ) : Phase → List ConnEvent → Phase → Type 0 where
  stay : {a : Phase} → Trace serial a [] a
  move :
      {a b c : Phase} {e : ConnEvent} {l : List ConnEvent}
      → Moves serial a e b
      → Trace serial b l c
      → Trace serial a (e ∷ l) c

pub follow :
    {serial : ℕ} {a b c : Phase} {l k : List ConnEvent}
    → Trace serial a l b
    → Trace serial b k c
    → Trace serial a (l ++ k) c
follow stay t' = t'
follow (move m t) t' = move m (follow t t')
