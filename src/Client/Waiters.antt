-- ===== src/Client/Waiters.antt =====
-- What happens to the waiters of internal/masso/client.go, for any property of a waiter.
use mathlib.Core.Path.{subst}
use mink_lasso.Base.{
  ℕ, ◌+◌, ◌≡◌, refl, inl, inr, Bool, Bool-cases, Option, none, some, List, [], ◌∷◌, ◌++◌, map, All,
  All-append, arith, ◌==◌,
}
use mink_lasso.Masso.Errors.{Result, ok, err, result_cases}
use mink_lasso.Masso.Words.{Bytes}
use mink_lasso.Masso.Frame.{parse}
use mink_lasso.Masso.Reply.{
  Identity, Status, Reply, identity, config_reply, status, tool_record, start_ack, chunk_ack,
  decode_reply_body,
}
use mink_lasso.Client.State.{
  UdpAddr, Incoming, Waiter, Client, new_client, is_foreign, note_liveness, reply_type_of, offer,
  put_waiters, deliver, handle_reply, handle_parsed, handle_packet, expect, without, cancel, pop,
  keep_first, take_reply, put_taken, receive, set_connection,
}

-- What happens to a client: a datagram, a registration and its end, a receive, a connection, and a status
-- that Run passes on.
pub data Step : Client → Client → Type 0 where
  arrives :
      (c : Client) (pkt : Bytes) (addr : Option UdpAddr) (now : ℕ)
      → Step c (handle_packet pkt addr now c)
  registers :
      (c : Client) (typ : ℕ) (from : Option UdpAddr) (matches : Reply → Bool)
      → Step c (expect typ from matches c).0
  cancels : (c : Client) (typ id : ℕ) → Step c (cancel typ id c)
  receives : (c d : Client) (typ id : ℕ) (m : Incoming) → receive typ id c ≡ some (m, d) → Step c d
  connects : (c : Client) (addr : UdpAddr) (r : Identity) → Step c (set_connection addr r c)
  publishes :
      (c : Client) (s t : Option Status) → Step c (record c { status_in = s; status_out = t })

pub data Reach : Client → Type 0 where
  begins : Reach new_client
  goes_on : (c d : Client) → Reach c → Step c d → Reach d

pub note_liveness-waiters :
    (pkt : Bytes) (addr : Option UdpAddr) (now : ℕ) (p : Result (ℕ × Bytes)) (c : Client)
    → ((note_liveness pkt addr now p c).waiters ≡ c.waiters)
      × ((note_liveness pkt addr now p c).last_id ≡ c.last_id)
unfolding note_liveness
note_liveness-waiters pkt addr now p c = (ground arith, ground arith)

-- What all waiters of a client satisfy, by their type.
module _ (P : ℕ → Waiter → Type 0) where
  abbrev pub Holds : Client → Type 0
  Holds c = (typ : ℕ) → All (P typ) (c.waiters typ)

  -- The new waiter of a registration.
  abbrev pub NewHolds : Client → Type 0
  NewHolds c =
      (typ : ℕ) (from : Option UdpAddr) (matches : Reply → Bool)
      → P typ (record { id = c.last_id + 1; from = from; matches = matches; buffer = [] })

  -- A property that an offer and a receive keep.
  pub record Kept : Type 0 where
    pub offers :
        (m : Incoming) (w : Waiter)
        → P (reply_type_of m.reply) w
        → P (reply_type_of m.reply) (offer m w)
    pub pops :
        (typ : ℕ) (w : Waiter) (m : Incoming) (ms : List Incoming)
        → w.buffer ≡ m ∷ ms
        → P typ w
        → P typ (record w { buffer = ms })

  pub put_waiters-Holds :
      (typ : ℕ) (ws : List Waiter) (c : Client)
      → Holds c
      → All (P typ) ws
      → Holds (put_waiters typ ws c)
  put_waiters-Holds typ ws c h new t = elim (Bool-cases (t == typ)) [
    | inl p ↦ let e : typ ≡ t = ground arith in rw p (subst (λ (n : ℕ). All (P n) ws) e new)
    | inr p ↦ rw p (h t)
  ]

  All-without : (typ id : ℕ) (ws : List Waiter) → All (P typ) ws → All (P typ) (without id ws)
  unfolding without
  All-without typ id [] h = tt
  All-without typ id (w ∷ ws) h = elim (Bool-cases (w.id == id)) [
    | inl p ↦ rw p h.1
    | inr p ↦ rw p (h.0, All-without typ id ws h.1)
  ]

  expect-Holds :
      (typ : ℕ) (from : Option UdpAddr) (matches : Reply → Bool) (c : Client)
      → Holds c
      → NewHolds c
      → Holds (expect typ from matches c).0
  unfolding expect
  expect-Holds typ from matches c h new =
      let w : Waiter = record { id = c.last_id + 1; from = from; matches = matches; buffer = [] } in
      put_waiters-Holds typ (c.waiters typ ++ w ∷ []) (record c { last_id = c.last_id + 1 }) h
        (All-append (P typ) (c.waiters typ) (w ∷ []) (h typ) (new typ from matches, tt))

  pub cancel-Holds : (typ id : ℕ) (c : Client) → Holds c → Holds (cancel typ id c)
  unfolding cancel
  cancel-Holds typ id c h =
      put_waiters-Holds typ (without id (c.waiters typ)) c h
        (All-without typ id (c.waiters typ) (h typ))

  module _ (kept : Kept) where
    All-offer :
        (m : Incoming) (ws : List Waiter)
        → All (P (reply_type_of m.reply)) ws
        → All (P (reply_type_of m.reply)) (map (offer m) ws)
    All-offer m [] h = tt
    All-offer m (w ∷ ws) h = (kept.offers m w h.0, All-offer m ws h.1)

    deliver-Holds : (m : Incoming) (c : Client) → Holds c → Holds (deliver m c)
    deliver-Holds m c h =
        let t = reply_type_of m.reply in
        put_waiters-Holds t (map (offer m) (c.waiters t)) c h (All-offer m (c.waiters t) (h t))

    handle_reply-Holds :
        (addr : Option UdpAddr) (r : Reply) (c : Client) → Holds c → Holds (handle_reply addr r c)
    handle_reply-Holds addr (status s) c h = elim (Bool-cases (is_foreign addr c.remote)) [
      | inl p ↦ rw p h
      | inr p ↦ rw p h
    ]
    handle_reply-Holds addr (identity r) c h =
        deliver-Holds (record { addr = addr; reply = identity r }) c h
    handle_reply-Holds addr (config_reply s) c h =
        deliver-Holds (record { addr = addr; reply = config_reply s }) c h
    handle_reply-Holds addr (tool_record r) c h =
        deliver-Holds (record { addr = addr; reply = tool_record r }) c h
    handle_reply-Holds addr (start_ack r) c h =
        deliver-Holds (record { addr = addr; reply = start_ack r }) c h
    handle_reply-Holds addr (chunk_ack a) c h =
        deliver-Holds (record { addr = addr; reply = chunk_ack a }) c h

    handle_parsed-Holds :
        (pkt : Bytes) (addr : Option UdpAddr) (p : Result (ℕ × Bytes)) (c : Client)
        → Holds c
        → Holds (handle_parsed pkt addr p c)
    handle_parsed-Holds pkt addr (err e) c h = h
    handle_parsed-Holds pkt addr (ok (typ, body)) c h =
        elim (result_cases (decode_reply_body typ pkt)) [
          | inl (r, e) ↦ rw e (handle_reply-Holds addr r c h)
          | inr (x, e) ↦ rw e h
        ]

    handle_packet-Holds :
        (pkt : Bytes) (addr : Option UdpAddr) (now : ℕ) (c : Client)
        → Holds c
        → Holds (handle_packet pkt addr now c)
    unfolding handle_packet
    handle_packet-Holds pkt addr now c h =
        handle_parsed-Holds pkt addr (parse pkt) (note_liveness pkt addr now (parse pkt) c)
          (λ t. rw (note_liveness-waiters pkt addr now (parse pkt) c).0 (h t))

    abbrev RestHolds : ℕ → Option (Incoming × List Waiter) → Type 0
    RestHolds typ none = Unit
    RestHolds typ (some (m, ws)) = All (P typ) ws

    pop-RestHolds :
        (typ : ℕ) (w : Waiter) (buffer : List Incoming) (ws : List Waiter)
        → w.buffer ≡ buffer
        → P typ w
        → All (P typ) ws
        → RestHolds typ (pop w buffer ws)
    pop-RestHolds typ w [] ws b h hs = tt
    pop-RestHolds typ w (m ∷ ms) ws b h hs = (kept.pops typ w m ms b h, hs)

    keep_first-RestHolds :
        (typ : ℕ) (w : Waiter) (o : Option (Incoming × List Waiter))
        → P typ w
        → RestHolds typ o
        → RestHolds typ (keep_first w o)
    keep_first-RestHolds typ w none h t = tt
    keep_first-RestHolds typ w (some (m, ws)) h t = (h, t)

    take_reply-RestHolds :
        (typ id : ℕ) (ws : List Waiter) → All (P typ) ws → RestHolds typ (take_reply id ws)
    unfolding take_reply
    take_reply-RestHolds typ id [] h = tt
    take_reply-RestHolds typ id (w ∷ ws) h = elim (Bool-cases (w.id == id)) [
      | inl p ↦ rw p (pop-RestHolds typ w w.buffer ws refl h.0 h.1)
      | inr p ↦
          rw p
            (keep_first-RestHolds typ w (take_reply id ws) h.0 (take_reply-RestHolds typ id ws h.1))
    ]

    abbrev LeftHolds : Option (Incoming × Client) → Type 0
    LeftHolds none = Unit
    LeftHolds (some (m, d)) = Holds d

    put_taken-LeftHolds :
        (typ : ℕ) (c : Client) (o : Option (Incoming × List Waiter))
        → Holds c
        → RestHolds typ o
        → LeftHolds (put_taken typ c o)
    put_taken-LeftHolds typ c none h t = tt
    put_taken-LeftHolds typ c (some (m, ws)) h t = put_waiters-Holds typ ws c h t

    pub receive-Holds :
        (typ id : ℕ) (c d : Client) (m : Incoming)
        → Holds c
        → receive typ id c ≡ some (m, d)
        → Holds d
    unfolding receive
    receive-Holds typ id c d m h e = subst LeftHolds e (
        put_taken-LeftHolds typ c (take_reply id (c.waiters typ)) h
          (take_reply-RestHolds typ id (c.waiters typ) (h typ)))

    pub Step-Holds :
        (c d : Client) → Step c d → (d.last_id ≡ c.last_id + 1 → NewHolds c) → Holds c → Holds d
    unfolding expect
    Step-Holds c _ (arrives _ pkt addr now) new h = handle_packet-Holds pkt addr now c h
    Step-Holds c _ (registers _ typ from matches) new h =
        expect-Holds typ from matches c h (new refl)
    Step-Holds c _ (cancels _ typ id) new h = cancel-Holds typ id c h
    Step-Holds c d (receives _ _ typ id m e) new h = receive-Holds typ id c d m h e
    Step-Holds c _ (connects _ addr r) new h = h
    Step-Holds c _ (publishes _ s t) new h = h
