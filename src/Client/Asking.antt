-- ===== src/Client/Asking.antt =====
-- A registration of internal/masso/client.go while the rest of the program goes on: its number stays its own.
use mathlib.Core.List.{Memᴰ}
use mathlib.Core.List.Memᴰ.{head, tail}
use mathlib.Core.Path.{subst}
use mink_lasso.Base.{
  ℕ, ◌+◌, ◌≤◌, ◌<◌, ◌≡◌, refl, sym, ◌∙◌, ap, inl, inr, Bool, Bool-cases, not, ◌||◌, Option, none,
  some, List, [], ◌∷◌, ◌++◌, length, All, All-append, arith, ltb,
}
use mink_lasso.Masso.Errors.{Result, ok, err, result_cases}
use mink_lasso.Masso.Words.{Bytes}
use mink_lasso.Masso.Frame.{parse}
use mink_lasso.Masso.Reply.{
  Reply, identity, config_reply, status, tool_record, start_ack, chunk_ack, decode_reply_body,
}
use mink_lasso.Client.State.{
  UdpAddr, Incoming, Waiter, Client, waiter_buffer, is_foreign, note_liveness, offer, handle_reply,
  handle_parsed, handle_packet, expect, cancel, take_reply, put_taken, receive,
}
use mink_lasso.Client.Waiters.{
  Step, arrives, registers, cancels, receives, connects, publishes, Kept, Holds,
  note_liveness-waiters, Step-Holds, put_waiters-Holds,
}
use mink_lasso.Client.Routing.{Fits, Sound, Step-Sound, Sound-receive}

offer-same :
    (m : Incoming) (w : Waiter)
    → ((offer m w).id ≡ w.id) × ((offer m w).from ≡ w.from) × ((offer m w).matches ≡ w.matches)
unfolding offer
offer-same m w = elim (Bool-cases (is_foreign m.addr w.from || not (w.matches m.reply))) [
  | inl p ↦ rw p (refl, refl, refl)
  | inr p ↦ rw p (elim (Bool-cases (ltb (length w.buffer) waiter_buffer)) [
    | inl q ↦ rw q (refl, refl, refl)
    | inr q ↦ rw q (refl, refl, refl)
  ])
]

-- No number is beyond the last.
abbrev pub NumberedBy : ℕ → ℕ → Waiter → Type 0
NumberedBy n typ w = w.id ≤ n

NumberedBy-Kept : (n : ℕ) → Kept (NumberedBy n)
NumberedBy-Kept n = record {
  offers = λ m w h. omega (arith, (offer-same m w).0);
  pops = λ typ w m ms b h. h;
}

-- A registration's waiter has what was registered.
abbrev pub OwnedBy : ℕ → ℕ → Option UdpAddr → (Reply → Bool) → ℕ → Waiter → Type 0
OwnedBy typ id from matches t w = t ≡ typ → w.id ≡ id → (w.from ≡ from) × (w.matches ≡ matches)

OwnedBy-Kept :
    (typ id : ℕ) (from : Option UdpAddr) (matches : Reply → Bool)
    → Kept (OwnedBy typ id from matches)
OwnedBy-Kept typ id from matches = record {
  offers =
      λ m w h p q. let (a, b, c) = offer-same m w in let (d, e) = h p (sym a ∙ q) in (b ∙ d, c ∙ e);
  pops = λ t w m ms b h. h;
}

handle_reply-last_id :
    (addr : Option UdpAddr) (r : Reply) (c : Client) → (handle_reply addr r c).last_id ≡ c.last_id
handle_reply-last_id addr (status s) c = elim (Bool-cases (is_foreign addr c.remote)) [
  | inl p ↦ rw p refl
  | inr p ↦ rw p refl
]
handle_reply-last_id addr (identity r) c = refl
handle_reply-last_id addr (config_reply s) c = refl
handle_reply-last_id addr (tool_record r) c = refl
handle_reply-last_id addr (start_ack r) c = refl
handle_reply-last_id addr (chunk_ack a) c = refl

handle_parsed-last_id :
    (pkt : Bytes) (addr : Option UdpAddr) (p : Result (ℕ × Bytes)) (c : Client)
    → (handle_parsed pkt addr p c).last_id ≡ c.last_id
handle_parsed-last_id pkt addr (err e) c = refl
handle_parsed-last_id pkt addr (ok (typ, body)) c =
    elim (result_cases (decode_reply_body typ pkt)) [
      | inl (r, e) ↦ rw e (handle_reply-last_id addr r c)
      | inr (x, e) ↦ rw e refl
    ]

handle_packet-last_id :
    (pkt : Bytes) (addr : Option UdpAddr) (now : ℕ) (c : Client)
    → (handle_packet pkt addr now c).last_id ≡ c.last_id
unfolding handle_packet
handle_packet-last_id pkt addr now c =
    handle_parsed-last_id pkt addr (parse pkt) (note_liveness pkt addr now (parse pkt) c)
    ∙ (note_liveness-waiters pkt addr now (parse pkt) c).1

abbrev last_of : ℕ → Option (Incoming × Client) → ℕ
last_of n none = n
last_of n (some (m, d)) = d.last_id

put_taken-last_id :
    (typ : ℕ) (c d : Client) (m : Incoming) (o : Option (Incoming × List Waiter))
    → put_taken typ c o ≡ some (m, d)
    → d.last_id ≡ c.last_id
put_taken-last_id typ c d m none h = cc
put_taken-last_id typ c d m (some (n, ws)) h = sym (ap (last_of c.last_id) h)

-- Numbers only grow.
Step-last_id : (c d : Client) → Step c d → c.last_id ≤ d.last_id
unfolding expect cancel receive
Step-last_id c _ (arrives _ pkt addr now) = omega (arith, handle_packet-last_id pkt addr now c)
Step-last_id c _ (registers _ typ from matches) = omega arith
Step-last_id c _ (cancels _ typ id) = omega arith
Step-last_id c d (receives _ _ typ id m e) =
    omega (arith, put_taken-last_id typ c d m (take_reply id (c.waiters typ)) e)
Step-last_id c _ (connects _ addr r) = omega arith
Step-last_id c _ (publishes _ s t) = omega arith

-- A client whose waiters are sound and numbered.
pub record Good (c : Client) : Type 0 where
  pub sound : Sound c
  pub numbered : Holds (NumberedBy c.last_id) c

All-NumberedBy :
    (m n typ : ℕ) (ws : List Waiter) → m ≤ n → All (NumberedBy m typ) ws → All (NumberedBy n typ) ws
All-NumberedBy m n typ [] h a = tt
All-NumberedBy m n typ (w ∷ ws) h (b, bs) = (omega arith, All-NumberedBy m n typ ws h bs)

pub Step-Good : (c d : Client) → Step c d → Good c → Good d
Step-Good c d st h = record {
  sound = Step-Sound c d st h.sound;
  numbered =
      Step-Holds (NumberedBy d.last_id) (NumberedBy-Kept d.last_id) c d st
        (λ e typ from matches. omega (arith, e))
        (λ t.
          All-NumberedBy c.last_id d.last_id t (c.waiters t) (Step-last_id c d st) (h.numbered t));
}

-- A client while a registration is in force.
pub record Asking (typ id : ℕ) (from : Option UdpAddr) (matches : Reply → Bool) (c : Client)
    : Type 0 where
  pub good : Good c
  pub owned : Holds (OwnedBy typ id from matches) c
  pub given : id ≤ c.last_id

pub Step-Asking :
    (typ id : ℕ) (from : Option UdpAddr) (matches : Reply → Bool) (c d : Client)
    → Step c d
    → Asking typ id from matches c
    → Asking typ id from matches d
Step-Asking typ id from matches c d st h = record {
  good = Step-Good c d st h.good;
  owned =
      Step-Holds (OwnedBy typ id from matches) (OwnedBy-Kept typ id from matches) c d st
        (λ e t f m p q. absurd (omega (arith, h.given))) h.owned;
  given = omega (arith, h.given, Step-last_id c d st);
}

-- The steps of the rest of the program during a wait.
pub data Steps : Client → Client → Type 0 where
  stays : (c : Client) → Steps c c
  moves : (c d e : Client) → Step c d → Steps d e → Steps c e

pub Steps-Asking :
    (typ id : ℕ) (from : Option UdpAddr) (matches : Reply → Bool) (c d : Client)
    → Steps c d
    → Asking typ id from matches c
    → Asking typ id from matches d
Steps-Asking typ id from matches c _ (stays _) h = h
Steps-Asking typ id from matches c _ (moves _ d e st sts) h =
    Steps-Asking typ id from matches d e sts (Step-Asking typ id from matches c d st h)

All-OwnedBy :
    (typ id n t : ℕ) (from : Option UdpAddr) (matches : Reply → Bool) (ws : List Waiter)
    → n < id
    → All (NumberedBy n t) ws
    → All (OwnedBy typ id from matches t) ws
All-OwnedBy typ id n t from matches [] h a = tt
All-OwnedBy typ id n t from matches (w ∷ ws) h (b, bs) =
    (λ p q. absurd (omega arith), All-OwnedBy typ id n t from matches ws h bs)

-- A registration begins.
pub expect-Asking :
    (typ : ℕ) (from : Option UdpAddr) (matches : Reply → Bool) (c : Client)
    → Good c
    → Asking typ (expect typ from matches c).1 from matches (expect typ from matches c).0
unfolding expect
expect-Asking typ from matches c h =
    let n = c.last_id + 1 in
    let w : Waiter = record { id = n; from = from; matches = matches; buffer = [] } in
    record {
      good = Step-Good c (expect typ from matches c).0 (registers c typ from matches) h;
      owned =
          put_waiters-Holds (OwnedBy typ n from matches) typ (c.waiters typ ++ w ∷ [])
            (record c { last_id = n })
            (λ t.
              All-OwnedBy typ n c.last_id t from matches (c.waiters t) (omega arith) (h.numbered t))
            (All-append (OwnedBy typ n from matches typ) (c.waiters typ) (w ∷ [])
              (All-OwnedBy typ n c.last_id typ from matches (c.waiters typ) (omega arith)
                (h.numbered typ))
              (λ p q. (refl, refl), tt));
      given = omega arith;
    }

All-Owned : (P : Waiter → Type 0) (ws : List Waiter) (w : Waiter) → Memᴰ w ws → All P ws → P w
All-Owned P [] w m h = elim m [ ]
All-Owned P (v ∷ ws) w m h = elim m [
  | head here ↦ subst P (sym here) h.0
  | tail others ↦ All-Owned P ws w others h.1
]

-- What is received from it fits what was asked for.
pub Asking-receive :
    (typ id : ℕ) (from : Option UdpAddr) (matches : Reply → Bool) (c d : Client) (m : Incoming)
    → Asking typ id from matches c
    → receive typ id c ≡ some (m, d)
    → Fits typ from matches m
Asking-receive typ id from matches c d m h e =
    let (w, mem, own, fits) = Sound-receive typ id c d m h.good.sound e in
    let (a, b) =
      All-Owned (OwnedBy typ id from matches typ) (c.waiters typ) w mem (h.owned typ) refl own in
    subst (λ (f : Option UdpAddr). Fits typ f matches m) a
      (subst (λ (g : Reply → Bool). Fits typ w.from g m) b fits)
