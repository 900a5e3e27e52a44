-- ===== src/Engine/Connection/Tests.antt =====
-- A pass that finds its controller at the configured address, on the second try.
use mink_lasso.Base.{ℕ, ◌+◌, ◌≡◌, refl, false, Option, none, some, List, [], ◌∷◌}
use mink_lasso.Masso.Errors.{no_response, lost, Result, ok, err}
use mink_lasso.Masso.Words.{Bytes}
use mink_lasso.Masso.Reply.{Identity, Status}
use mink_lasso.Client.State.{UdpAddr}
use mink_lasso.Engine.Gate.{new_gate}
use mink_lasso.Engine.Connection.{
  ConnEvent, Engine, UnicastTurn, status, Pass, run_conn_attempt, set_serial, discover_and_connect,
  unicast, try_candidates, broadcast_connect, run_connected, forward, candidate_addrs,
}

abbrev here : UdpAddr
here = record { ip = 7; port = 65535 }

abbrev mill : Identity
mill = record { serial = 12345; version = [] }

abbrev quiet : Status
quiet = record {
  progress = 0;
  state = 0;
  running = false;
  jobs = 0;
  prompt = 1;
  waiting_for_operator = false;
  line = 0;
  file = [];
}

abbrev resolve : Bytes → Option UdpAddr
resolve s = some here

abbrev answers : Result Identity → UnicastTurn
answers answer = record { now = 3; attempts = λ i. record { canceled = false; answer = answer } }

abbrev engine : Engine
engine = record {
  address = b'm' ∷ [];
  last_address = [];
  serial = 12345;
  last_addr = none;
  gate = new_gate 5 30 false quiet;
}

abbrev pass : Pass
pass = record {
  resolve = resolve;
  deadline = 10;
  unicasts = answers (err no_response) ∷ answers (ok mill) ∷ [];
  broadcasts = [];
  connected_at = 4;
  tools = ok [];
  turns = status quiet 5 5 ∷ [];
  run_error = some lost;
  is_done = false;
  disconnected_at = 9;
}

abbrev count : List ConnEvent → ℕ
count [] = 0
count (e ∷ l) = count l + 1

pass-last_addr : (run_conn_attempt pass engine).engine.last_addr ≡ some here
unfolding run_conn_attempt discover_and_connect unicast try_candidates candidate_addrs
    broadcast_connect run_connected forward
pass-last_addr = refl

pass-events : count (run_conn_attempt pass engine).events ≡ 8
unfolding run_conn_attempt discover_and_connect unicast try_candidates candidate_addrs
    broadcast_connect run_connected forward
pass-events = refl

-- A new serial number forgets the address of the old one.
set_serial-candidates :
    candidate_addrs (λ s. none) (set_serial 6 (run_conn_attempt pass engine).engine) ≡ []
unfolding set_serial candidate_addrs run_conn_attempt discover_and_connect unicast try_candidates
    broadcast_connect run_connected forward
set_serial-candidates = refl
