-- ===== src/Client/StartAcks.antt =====
-- What starts an upload in internal/masso/upload.go: the ACK that `startUpload` takes for success.
use mink_lasso.Base.{
  ℕ, ◌+◌, ◌<◌, ◌≡◌, ◌⊎◌, inl, inr, Bool, Bool-cases, true, false, some, List, [], ◌∷◌, arith, ltb,
  ◌==◌, ◌&&◌, if◌then◌else◌,
}
use mink_lasso.Masso.Errors.{Result, ok}
use mink_lasso.Masso.Reply.{start_ok, start_already_started, start_ack_err}
use mink_lasso.Masso.Upload.{start_ack_result}
use mink_lasso.Client.Starting.{
  acked, Turn, Schedule, Start, Turned, ended, turn, follow, turns, schedule, first_start,
  start_upload,
}
use mink_lasso.Client.StartBounds.{Turns, gives_up, answers, stops, resends_now, waits, turn-Turns}

-- An ACK that starts an upload, by its result and the number of resends before it.
abbrev pub Starts : ℕ → ℕ → Type 0
Starts result resends = (result ≡ start_ok) ⊎ ((result ≡ start_already_started) × (0 < resends))

-- The results of the ACKs that a run of turns can meet.
abbrev pub Meets : ℕ → List Turn → Type 0
Meets result [] = ⊥
Meets result (t ∷ ts) = ((t.ready ≡ some result) ⊎ (t.waking ≡ acked result)) ⊎ Meets result ts

start_ack_result-Starts :
    (result resends : ℕ) → start_ack_result result resends ≡ ok tt → Starts result resends
unfolding start_ack_result start_ack_err
start_ack_result-Starts result resends h =
    elim (Bool-cases (result == start_already_started && ltb 0 resends)) [
      | inl p ↦ inr (ground arith, ground arith)
      | inr p ↦ elim (Bool-cases (result == start_ok)) [
        | inl q ↦ inl (ground arith)
        | inr q ↦ absurd (ground arith)
      ]
    ]

abbrev Given : List Turn → Turned × Start → Type 0
Given ts o = o.0 ≡ ended (ok tt) → (result : ℕ) × Meets result ts × Starts result o.1.resends

later-Given : (t : Turn) (ts : List Turn) (o : Turned × Start) → Given ts o → Given (t ∷ ts) o
later-Given t ts o h e = let (r, m, s) = h e in (r, inr m, s)

ended-ok : (a b : Result (Unit {0})) → ended a ≡ ended b → a ≡ b
ended-ok a b h = cc

turn-Given :
    (g : Schedule) (t : Turn) (ts : List Turn) (s : Start) (o : Turned)
    → Turns g t s o
    → ((u : Start) → Given ts (turns g ts u))
    → Given (t ∷ ts) (follow (turns g ts) o s)
turn-Given g t ts s _ (gives_up h) rest e = cc
turn-Given g t ts s _ (answers r h a) rest e = (
  r,
  inl a,
  start_ack_result-Starts r s.resends (ended-ok (start_ack_result r s.resends) (ok tt) e),
)
turn-Given g t ts s _ (stops h) rest e = cc
turn-Given g t ts s _ (resends_now h l) rest e =
    let u : Start = record {
      resends = s.resends + 1;
      next_resend = t.now + g.start_retransmit;
      last_failed = if t.sent then false else true;
    } in
    later-Given t ts (turns g ts u) (rest u) e
turn-Given g t ts s _ (waits h l) rest e = later-Given t ts (turns g ts s) (rest s) e

turns-Given : (g : Schedule) (ts : List Turn) (s : Start) → Given ts (turns g ts s)
unfolding turns
turns-Given g [] s = λ e. cc
turns-Given g (t ∷ ts) s = turn-Given g t ts s (turn g t s) (turn-Turns g t s) (turns-Given g ts)

-- An upload starts only on an ACK that came: one that says that the file is open, or, once the request
-- has been sent again, one that says that it was open already.
pub start_upload-Starts :
    (start_timeout start_retransmit first : ℕ) (sent : Bool) (ts : List Turn)
    → (start_upload start_timeout start_retransmit first sent ts).0 ≡ ended (ok tt)
    → (result : ℕ) × Meets result ts
      × Starts result (start_upload start_timeout start_retransmit first sent ts).1.resends
unfolding start_upload
start_upload-Starts start_timeout start_retransmit first sent ts h =
    turns-Given (schedule start_timeout start_retransmit first) ts
      (first_start start_retransmit first sent) h
