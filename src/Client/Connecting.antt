-- ===== src/Client/Connecting.antt =====
-- What `Connect` and `Tools` of internal/masso/client.go give, whatever the rest of the program does.
use mink_lasso.Base.{
  ℕ, zero, suc, ◌+◌, ◌≤◌, ◌≡◌, refl, sym, ◌∙◌, ap, inl, inr, Bool-cases, ◌||◌, Option, some, arith,
}
use mink_lasso.Masso.Errors.{Result, ok, err}
use mink_lasso.Masso.Request.{type_discovery, type_config}
use mink_lasso.Masso.Reply.{
  Identity, Reply, identity, config_reply, status, tool_record, start_ack, chunk_ack,
}
use mink_lasso.Client.State.{UdpAddr, Client, reply_type_of, set_connection}
use mink_lasso.Client.Waiters.{connects}
use mink_lasso.Client.Asking.{Good, Step-Good}
use mink_lasso.Client.Exchange.{
  Attempt, Call, request, Answer, answered, failed, panicked, any_reply, must_identity, must_config,
  discover_at, default_attempts, config_request, Outside, is_answered, discover_again,
  connect_config, connect_identity, connect,
}
use mink_lasso.Client.Requests.{Asked, Fair, request-Asked}

-- An answer that is no panic.
abbrev pub Proper : {A : Type 0} → Answer A → Type 0
Proper (answered a) = Unit
Proper (failed e) = Unit
Proper panicked = ⊥

must_identity-typed : (r : Reply) → reply_type_of r ≡ type_discovery → Proper (must_identity (ok r))
must_identity-typed (identity r) h = tt
must_identity-typed (config_reply s) h = absurd (omega arith)
must_identity-typed (status s) h = absurd (omega arith)
must_identity-typed (tool_record r) h = absurd (omega arith)
must_identity-typed (start_ack r) h = absurd (omega arith)
must_identity-typed (chunk_ack a) h = absurd (omega arith)

must_config-typed : (r : Reply) → reply_type_of r ≡ type_config → Proper (must_config (ok r))
must_config-typed (config_reply s) h = tt
must_config-typed (identity r) h = absurd (omega arith)
must_config-typed (status s) h = absurd (omega arith)
must_config-typed (tool_record r) h = absurd (omega arith)
must_config-typed (start_ack r) h = absurd (omega arith)
must_config-typed (chunk_ack a) h = absurd (omega arith)

must_identity-Proper :
    (from : Option UdpAddr) (k : Result Reply)
    → Asked type_discovery from any_reply k
    → Proper (must_identity k)
must_identity-Proper from (err e) h = tt
must_identity-Proper from (ok r) (m, e, fits) =
    must_identity-typed r (sym (ap (λ (q : Reply). reply_type_of q) e) ∙ fits.typed)

must_config-Proper :
    (from : Option UdpAddr) (k : Result Reply)
    → Asked type_config from any_reply k
    → Proper (must_config k)
must_config-Proper from (err e) h = tt
must_config-Proper from (ok r) (m, e, fits) =
    must_config-typed r (sym (ap (λ (q : Reply). reply_type_of q) e) ∙ fits.typed)

-- A call that does not panic, sends no more than a number of times, and leaves the client in order.
record Clean {A : Type 0} (n : ℕ) (k : Call (Answer A)) : Type 0 where
  proper : Proper k.result
  bound : k.sends ≤ n
  good : Good k.client

discover_at-Clean :
    (addr : UdpAddr) (tries : ℕ → Attempt) (c : Client)
    → Fair tries
    → Good c
    → Clean 1 (discover_at addr tries c)
unfolding discover_at
discover_at-Clean addr tries c fair h =
    let (asked, counted, good) =
      request-Asked type_discovery (some addr) any_reply 1 tries c fair h in
    record {
      proper =
          must_identity-Proper (some addr)
            (request type_discovery (some addr) any_reply 1 tries c).result asked;
      bound = counted.0;
      good = good;
    }

config_request-Clean :
    (addr : UdpAddr) (tries : ℕ → Attempt) (c : Client)
    → Fair tries
    → Good c
    → Clean default_attempts (config_request addr tries c)
unfolding config_request
config_request-Clean addr tries c fair h =
    let (asked, counted, good) =
      request-Asked type_config (some addr) any_reply default_attempts tries c fair h in
    record {
      proper =
          must_config-Proper (some addr)
            (request type_config (some addr) any_reply default_attempts tries c).result asked;
      bound = counted.0;
      good = good;
    }

-- The rest of the program takes steps during all waits of a `Connect`.
abbrev pub FairOutside : Outside → Type 0
FairOutside o = ((i : ℕ) → Fair (o.discoveries i)) × Fair o.configs

discover_again-Clean :
    (o : Outside) (addr : UdpAddr) (n i : ℕ) (c : Client)
    → FairOutside o
    → Good c
    → Clean (n + 1) (discover_again o addr n i c)
unfolding discover_again
discover_again-Clean o addr zero i c fair h =
    discover_at-Clean addr (o.discoveries i) c (fair.0 i) h
discover_again-Clean o addr (suc n) i c fair h =
    let k = discover_at addr (o.discoveries i) c in
    let first = discover_at-Clean addr (o.discoveries i) c (fair.0 i) h in
    let more = discover_again-Clean o addr n (i + 1) k.client fair first.good in
    elim (Bool-cases (is_answered k.result || o.is_done i)) [
      | inl p ↦
          rw p (record {
            proper = first.proper;
            bound = omega (arith, first.bound);
            good = first.good;
          })
      | inr p ↦ rw p (record {
        proper = more.proper;
        bound = omega (arith, first.bound, more.bound);
        good = more.good;
      })
    ]

-- What a `Connect` leaves: on success the connection is the one that was asked for.
abbrev pub ConnectedTo : UdpAddr → Answer (Identity × ℕ) → Client → Type 0
ConnectedTo addr (answered (r, serial)) c = (c.remote ≡ some addr) × (c.identity_of ≡ some r)
ConnectedTo addr (failed e) c = Unit
ConnectedTo addr panicked c = ⊥

connect_config-Connected :
    (addr : UdpAddr) (r : Identity) (a : Answer ℕ) (c : Client) (n m : ℕ)
    → Proper a
    → n ≤ m
    → Good c
    → ConnectedTo addr (connect_config addr r a c n).result (connect_config addr r a c n).client
      × Clean m (connect_config addr r a c n)
connect_config-Connected addr r (answered serial) c n m p b h = (
  (refl, refl),
  record {
    proper = tt;
    bound = b;
    good = Step-Good c (set_connection addr r c) (connects c addr r) h;
  },
)
connect_config-Connected addr r (failed e) c n m p b h =
    (tt, record { proper = tt; bound = b; good = h })
connect_config-Connected addr r panicked c n m p b h = absurd p

connect_identity-Connected :
    (o : Outside) (addr : UdpAddr) (a : Answer Identity) (c : Client) (n : ℕ)
    → FairOutside o
    → Proper a
    → n ≤ 3
    → Good c
    → ConnectedTo addr (connect_identity o addr a c n).result (connect_identity o addr a c n).client
      × Clean 6 (connect_identity o addr a c n)
connect_identity-Connected o addr (answered r) c n fair p b h =
    let k = config_request-Clean addr o.configs c fair.1 h in
    connect_config-Connected addr r (config_request addr o.configs c).result
      (config_request addr o.configs c).client (n + (config_request addr o.configs c).sends) 6
      k.proper (omega (arith, k.bound)) k.good
connect_identity-Connected o addr (failed e) c n fair p b h =
    (tt, record { proper = tt; bound = omega arith; good = h })
connect_identity-Connected o addr panicked c n fair p b h = absurd p

-- Connect does not panic, whatever datagrams come in and whatever else uses the client meanwhile; it
-- sends at most six requests; and when it succeeds, the client's remote and identity are the address
-- that was asked for and the identity that is returned.
pub connect-Connected :
    (o : Outside) (addr : UdpAddr) (c : Client)
    → FairOutside o
    → Good c
    → ConnectedTo addr (connect o addr c).result (connect o addr c).client
      × Proper (connect o addr c).result
      × ((connect o addr c).sends ≤ 6)
unfolding connect
connect-Connected o addr c fair h =
    let k = discover_again-Clean o addr 2 0 c fair h in
    let (a, b) =
      connect_identity-Connected o addr (discover_again o addr 2 0 c).result
        (discover_again o addr 2 0 c).client (discover_again o addr 2 0 c).sends fair k.proper
        k.bound k.good in
    (a, b.proper, b.bound)
