-- ===== src/Client/Running.antt =====
-- `Run` of internal/masso/client.go: keepalives, and the timer that finds the connection lost. Times are in
-- nanoseconds.
use mink_lasso.Base.{
  ℕ, ◌+◌, ◌-◌, ◌≤◌, ◌≡◌, ◌↔◌, refl, sym, ◌∙◌, ap, inl, inr, Bool, Bool-cases, true, false, ◌&&◌,
  Option, none, some, List, [], ◌∷◌, length, arith, ltb, leb, if◌then◌else◌,
}
use mink_lasso.Masso.Errors.{Result, ok, err, result_cases}
use mink_lasso.Masso.Words.{Bytes}
use mink_lasso.Masso.Frame.{parse}
use mink_lasso.Masso.Reply.{
  Status, Reply, identity, config_reply, status, tool_record, start_ack, chunk_ack,
  decode_reply_body,
}
use mink_lasso.Client.State.{
  UdpAddr, Client, same_ip, liveness_datagram_max, is_known, is_foreign, is_ok, note_liveness,
  handle_reply, handle_parsed, handle_packet,
}

abbrev pub later_of : ℕ → Option ℕ → ℕ
later_of start none = start
later_of start (some t) = if ltb start t then t else start

-- `lastActivitySince`.
abbrev pub last_activity_since : ℕ → Client → ℕ
last_activity_since start c = later_of start c.last_heard

-- The case of `Run` in which the timer has fired: the time to which it is armed anew, or ErrLost.
unfoldable pub lost_fires : ℕ → ℕ → ℕ → Client → Option ℕ
lost_fires lost_after start now c =
    let elapsed = now - last_activity_since start c in
    if leb lost_after elapsed then none else some (now + (lost_after - elapsed))

abbrev pub latest : Option Status → Option Status → Option Status
latest none old = old
latest (some s) old = some s

-- The case in which a status has come in, which replaces one that nobody has read.
abbrev pub publish : Client → Client
publish c = record c { status_in = none; status_out = latest c.status_in c.status_out }

-- The variables of `Run`, and the time of the last event.
pub record Session : Type 0 where
  pub client : Client
  pub lost_at : ℕ
  pub now : ℕ

pub record Arrival : Type 0 where
  pub pkt : Bytes
  pub addr : Option UdpAddr
  pub at : ℕ

abbrev pub NoLater : Option ℕ → ℕ → Type 0
NoLater none u = Unit
NoLater (some t) u = t ≤ u

-- The sessions that `Run` can come to from its start, with the datagrams since, newest first.
pub data Runs (remote : UdpAddr) (lost_after start : ℕ) : Session → List Arrival → Type 0 where
  starts :
      (c : Client)
      → c.remote ≡ some remote
      → NoLater c.last_heard start
      → Runs remote lost_after start
          (record { client = c; lost_at = start + lost_after; now = start })
          []
  hears :
      (s : Session) (past : List Arrival) (a : Arrival)
      → Runs remote lost_after start s past
      → s.now ≤ a.at
      → Runs remote lost_after start
          (record s { client = handle_packet a.pkt a.addr a.at s.client; now = a.at })
          (a ∷ past)
  publishes :
      (s : Session) (past : List Arrival)
      → Runs remote lost_after start s past
      → Runs remote lost_after start (record s { client = publish s.client }) past
  goes_on :
      (s : Session) (past : List Arrival) (now next : ℕ)
      → Runs remote lost_after start s past
      → s.now ≤ now
      → lost_fires lost_after start now s.client ≡ some next
      → Runs remote lost_after start (record s { lost_at = next; now = now }) past

-- A datagram that counts: from the controller's IP address, no longer than 1501 bytes, and well framed,
-- whatever its type and body.
abbrev pub credited : UdpAddr → Arrival → Bool
credited remote a =
    leb (length a.pkt) liveness_datagram_max && same_ip a.addr remote && is_ok (parse a.pkt)

-- The time of the last datagram that counts, or of the start.
unfoldable pub heard_at : UdpAddr → ℕ → List Arrival → ℕ
heard_at remote start [] = start
heard_at remote start (a ∷ past) = if credited remote a then a.at else heard_at remote start past

handle_reply-kept :
    (addr : Option UdpAddr) (r : Reply) (c : Client)
    → ((handle_reply addr r c).last_heard ≡ c.last_heard)
      × ((handle_reply addr r c).remote ≡ c.remote)
handle_reply-kept addr (status s) c = elim (Bool-cases (is_foreign addr c.remote)) [
  | inl p ↦ rw p (refl, refl)
  | inr p ↦ rw p (refl, refl)
]
handle_reply-kept addr (identity r) c = (refl, refl)
handle_reply-kept addr (config_reply s) c = (refl, refl)
handle_reply-kept addr (tool_record r) c = (refl, refl)
handle_reply-kept addr (start_ack r) c = (refl, refl)
handle_reply-kept addr (chunk_ack a) c = (refl, refl)

handle_parsed-kept :
    (pkt : Bytes) (addr : Option UdpAddr) (p : Result (ℕ × Bytes)) (c : Client)
    → ((handle_parsed pkt addr p c).last_heard ≡ c.last_heard)
      × ((handle_parsed pkt addr p c).remote ≡ c.remote)
handle_parsed-kept pkt addr (err e) c = (refl, refl)
handle_parsed-kept pkt addr (ok (typ, body)) c = elim (result_cases (decode_reply_body typ pkt)) [
  | inl (r, e) ↦ rw e (handle_reply-kept addr r c)
  | inr (x, e) ↦ rw e (refl, refl)
]

note_liveness-heard :
    (remote : UdpAddr) (a : Arrival) (c : Client)
    → c.remote ≡ some remote
    → ((note_liveness a.pkt a.addr a.at (parse a.pkt) c).last_heard
        ≡ (if credited remote a then some a.at else c.last_heard))
      × ((note_liveness a.pkt a.addr a.at (parse a.pkt) c).remote ≡ c.remote)
unfolding note_liveness
note_liveness-heard remote a c h =
    let k : is_known a.addr c.remote ≡ same_ip a.addr remote = ap (is_known a.addr) h in
    (ground arith, ground arith)

hears-last_heard :
    (remote : UdpAddr) (a : Arrival) (c : Client)
    → c.remote ≡ some remote
    → ((handle_packet a.pkt a.addr a.at c).last_heard
        ≡ (if credited remote a then some a.at else c.last_heard))
      × ((handle_packet a.pkt a.addr a.at c).remote ≡ some remote)
unfolding handle_packet
hears-last_heard remote a c h =
    let credit = note_liveness a.pkt a.addr a.at (parse a.pkt) c in
    let (p, q) = handle_parsed-kept a.pkt a.addr (parse a.pkt) credit in
    let (r, s) = note_liveness-heard remote a c h in (p ∙ r, q ∙ s ∙ h)

-- The client agrees with the datagrams that came.
record Timely (remote : UdpAddr) (lost_after start : ℕ) (s : Session) (past : List Arrival)
    : Type 0 where
  linked : s.client.remote ≡ some remote
  heard : last_activity_since start s.client ≡ heard_at remote start past
  not_early : start ≤ s.now
  not_late : heard_at remote start past ≤ s.now
  armed : s.lost_at ≤ heard_at remote start past + lost_after

NoLater-start : (o : Option ℕ) (start : ℕ) → NoLater o start → later_of start o ≡ start
NoLater-start none start h = refl
NoLater-start (some t) start h = ground arith

later_of-credited :
    (b : Bool) (t start heard : ℕ) (o : Option ℕ)
    → start ≤ t
    → later_of start o ≡ heard
    → later_of start (if b then some t else o) ≡ (if b then t else heard)
later_of-credited true t start heard o h e = ground arith
later_of-credited false t start heard o h e = e

lost_fires-heard :
    (lost_after start now heard : ℕ) (c : Client)
    → last_activity_since start c ≡ heard
    → lost_fires lost_after start now c
      ≡ (if leb lost_after (now - heard) then none else some (now + (lost_after - (now - heard))))
unfolding lost_fires
lost_fires-heard lost_after start now heard c h = rw h refl

lost_fires-some :
    (lost_after start now next heard : ℕ) (c : Client)
    → last_activity_since start c ≡ heard
    → heard ≤ now
    → lost_fires lost_after start now c ≡ some next
    → next ≡ heard + lost_after
lost_fires-some lost_after start now next heard c h k e =
    let w = sym (lost_fires-heard lost_after start now heard c h) ∙ e in ground arith

hears-Timely :
    (remote : UdpAddr) (lost_after start : ℕ) (s : Session) (past : List Arrival) (a : Arrival)
    → Timely remote lost_after start s past
    → s.now ≤ a.at
    → Timely remote lost_after start
        (record s { client = handle_packet a.pkt a.addr a.at s.client; now = a.at })
        (a ∷ past)
unfolding heard_at
hears-Timely remote lost_after start s past a h k =
    let (e, r) = hears-last_heard remote a s.client h.linked in
    record {
      linked = r;
      heard =
          ap (later_of start) e
          ∙ later_of-credited (credited remote a) a.at start (heard_at remote start past)
              s.client.last_heard (omega (arith, h.not_early)) h.heard;
      not_early = omega (arith, h.not_early);
      not_late = ground (arith, h.not_late);
      armed = ground (arith, h.armed, h.not_late);
    }

Runs-Timely :
    (remote : UdpAddr) (lost_after start : ℕ) (s : Session) (past : List Arrival)
    → Runs remote lost_after start s past
    → Timely remote lost_after start s past
unfolding heard_at
Runs-Timely remote lost_after start _ _ (starts c e k) = record {
  linked = e;
  heard = NoLater-start c.last_heard start k;
  not_early = omega arith;
  not_late = omega arith;
  armed = omega arith;
}
Runs-Timely remote lost_after start _ _ (hears s past a r k) =
    hears-Timely remote lost_after start s past a (Runs-Timely remote lost_after start s past r) k
Runs-Timely remote lost_after start _ past (publishes s _ r) =
    let h = Runs-Timely remote lost_after start s past r in
    record {
      linked = h.linked;
      heard = h.heard;
      not_early = h.not_early;
      not_late = h.not_late;
      armed = h.armed;
    }
Runs-Timely remote lost_after start _ past (goes_on s _ now next r k e) =
    let h = Runs-Timely remote lost_after start s past r in
    let d =
      lost_fires-some lost_after start now next (heard_at remote start past) s.client h.heard
        (omega (arith, h.not_late)) e in
    record {
      linked = h.linked;
      heard = h.heard;
      not_early = omega (arith, h.not_early);
      not_late = omega (arith, h.not_late);
      armed = omega (arith, d);
    }

lost_fires-none :
    (lost_after start now heard : ℕ) (c : Client)
    → last_activity_since start c ≡ heard
    → (lost_fires lost_after start now c ≡ none) ↔ (lost_after ≤ now - heard)
lost_fires-none lost_after start now heard c h =
    let w = lost_fires-heard lost_after start now heard c h in
    (λ e. let v = sym w ∙ e in ground arith, λ e. w ∙ ground arith)

-- Run takes the connection for lost exactly when its timer fires and no datagram that counts has come for
-- the whole time allowed, counted from the start where none has come; and the timer never stands later
-- than the end of that time, so the silence is found when it ends.
pub lost_exactly :
    (remote : UdpAddr) (lost_after start : ℕ) (s : Session) (past : List Arrival) (now : ℕ)
    → Runs remote lost_after start s past
    → s.now ≤ now
    → ((lost_fires lost_after start now s.client ≡ none)
        ↔ (heard_at remote start past + lost_after ≤ now))
      × (s.lost_at ≤ heard_at remote start past + lost_after)
lost_exactly remote lost_after start s past now r k =
    let h = Runs-Timely remote lost_after start s past r in
    let (f, g) =
      lost_fires-none lost_after start now (heard_at remote start past) s.client h.heard in
    ((λ e. omega (arith, f e, h.not_late), λ e. g (omega arith)), h.armed)
