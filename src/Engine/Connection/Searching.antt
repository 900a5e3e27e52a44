-- ===== src/Engine/Connection/Searching.antt =====
-- internal/engine/conn.go: what the search for the controller reports.
use mink_lasso.Base.{
  ℕ, ◌+◌, ◌≡◌, refl, Bool, true, false, none, some, List, [], ◌∷◌, ltb, ◌==◌, ==_iff, if◌then◌else◌,
}
use mink_lasso.Masso.Errors.{Result, ok, err}
use mink_lasso.Masso.Reply.{Identity}
use mink_lasso.Client.State.{UdpAddr}
use mink_lasso.Engine.Connection.{
  ConnEvent, discovering, connecting, Search, goes_on, time_up, gives_up, found, Searched, Try,
  UnicastTurn, BroadcastTurn, ask_next, is_serial, after_try, try_candidates, or_else, unicast,
  try_found, found_of, broadcast_connect, after_unicast,
}
use mink_lasso.Engine.Connection.Phases.{
  Phase, searching, trying, tries, misses, Trace, stay, move, follow,
}

abbrev pub end_of : Search → Phase
end_of goes_on = searching
end_of time_up = searching
end_of gives_up = searching
end_of (found addr id) = trying addr

abbrev pub Right : ℕ → Search → Type 0
Right serial goes_on = Unit {0}
Right serial time_up = Unit {0}
Right serial gives_up = Unit {0}
Right serial (found addr id) = id.serial ≡ serial

pub record Sought (serial : ℕ) (s : Searched) : Type 0 where
  pub path : Trace serial searching s.events (end_of s.result)
  pub right : Right serial s.result

module _ (serial : ℕ) where
  ask_next-Sought :
      (l : List ConnEvent) (s : Searched)
      → Trace serial searching l searching
      → Sought serial s
      → Sought serial (ask_next l s)
  ask_next-Sought l s t h = record { path = follow t h.path; right = h.right }

  missed :
      (addr : UdpAddr)
      → Trace serial searching (connecting serial addr ∷ discovering serial ∷ []) searching
  missed addr = move (tries addr) (move (misses addr) stay)

  some_serial-Sought :
      (b : Bool) (addr : UdpAddr) (id : Identity) (rest : Searched)
      → (id.serial == serial) ≡ b
      → Sought serial rest
      → Sought serial (after_try serial addr (if b then some id else none) rest)
  some_serial-Sought true addr id rest q h = record {
    path = move (tries addr) stay;
    right = (==_iff id.serial serial).0 q;
  }
  some_serial-Sought false addr id rest q h =
      ask_next-Sought (connecting serial addr ∷ discovering serial ∷ []) rest (missed addr) h

  after_try-Sought :
      (addr : UdpAddr) (answer : Result Identity) (rest : Searched)
      → Sought serial rest
      → Sought serial (after_try serial addr (is_serial serial answer) rest)
  after_try-Sought addr (err e) rest h =
      ask_next-Sought (connecting serial addr ∷ discovering serial ∷ []) rest (missed addr) h
  after_try-Sought addr (ok id) rest h =
      some_serial-Sought (id.serial == serial) addr id rest refl h

  or_else-Sought :
      (r : Search) (l : List ConnEvent) (rest : Searched)
      → Sought serial (record { result = r; events = l })
      → Sought serial rest
      → Sought serial (or_else (record { result = r; events = l }) rest)
  or_else-Sought goes_on l rest h k = ask_next-Sought l rest h.path k
  or_else-Sought time_up l rest h k = h
  or_else-Sought gives_up l rest h k = h
  or_else-Sought (found addr id) l rest h k = h

  pub after_unicast-Sought :
      (r : Search) (l : List ConnEvent) (rest : Searched)
      → Sought serial (record { result = r; events = l })
      → Sought serial rest
      → Sought serial (after_unicast (record { result = r; events = l }) rest)
  after_unicast-Sought goes_on l rest h k = h
  after_unicast-Sought time_up l rest h k = ask_next-Sought l rest h.path k
  after_unicast-Sought gives_up l rest h k = h
  after_unicast-Sought (found addr id) l rest h k = h

  pub either :
      (b : Bool) (s s' : Searched)
      → Sought serial s
      → Sought serial s'
      → Sought serial (if b then s else s')
  either true s s' h k = h
  either false s s' h k = k

  try_candidates-Sought :
      (i : ℕ) (addrs : List UdpAddr) (attempts : ℕ → Try)
      → Sought serial (try_candidates serial i addrs attempts)
  unfolding try_candidates
  try_candidates-Sought i [] attempts = record { path = stay; right = tt }
  try_candidates-Sought i (addr ∷ rest) attempts =
      let tried = try_candidates serial (i + 1) rest attempts in
      either (attempts i).canceled (record { result = gives_up; events = [] })
        (after_try serial addr (is_serial serial (attempts i).answer) tried)
        (record { path = stay; right = tt })
        (after_try-Sought addr (attempts i).answer tried
          (try_candidates-Sought (i + 1) rest attempts))

  pub unicast-Sought :
      (deadline : ℕ) (addrs : List UdpAddr) (turns : List UnicastTurn)
      → Sought serial (unicast serial deadline addrs turns)
  unfolding unicast
  unicast-Sought deadline addrs [] = record { path = stay; right = tt }
  unicast-Sought deadline addrs (t ∷ turns) =
      let s = try_candidates serial 0 addrs t.attempts in
      let rest = unicast serial deadline addrs turns in
      either (ltb t.now deadline) (or_else s rest) (record { result = time_up; events = [] })
        (or_else-Sought s.result s.events rest (try_candidates-Sought 0 addrs t.attempts)
          (unicast-Sought deadline addrs turns))
        (record { path = stay; right = tt })

  try_found-Sought :
      (i : ℕ) (found_all : List (UdpAddr × Identity)) (answers : ℕ → Result Identity)
      → Sought serial (try_found serial i found_all answers)
  unfolding try_found
  try_found-Sought i [] answers = record { path = stay; right = tt }
  try_found-Sought i ((addr, id) ∷ rest) answers =
      let tried = try_found serial (i + 1) rest answers in
      let h = try_found-Sought (i + 1) rest answers in
      either (id.serial == serial) (after_try serial addr (is_serial serial (answers i)) tried)
        tried (after_try-Sought addr (answers i) tried h) h

  pub broadcast_connect-Sought :
      (turns : List BroadcastTurn) → Sought serial (broadcast_connect serial turns)
  unfolding broadcast_connect
  broadcast_connect-Sought [] = record { path = stay; right = tt }
  broadcast_connect-Sought (t ∷ turns) =
      let s = try_found serial 0 (found_of t.discovery) t.answers in
      let rest = broadcast_connect serial turns in
      let stop : Searched = record { result = gives_up; events = [] } in
      or_else-Sought s.result s.events (if t.is_done then stop else rest)
        (try_found-Sought 0 (found_of t.discovery) t.answers)
        (either t.is_done stop rest (record { path = stay; right = tt })
          (broadcast_connect-Sought turns))
