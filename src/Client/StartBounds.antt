-- ===== src/Client/StartBounds.antt =====
-- Bounds on `startUpload` of internal/masso/upload.go: how often it sends, and that it comes to an end.
use mathlib.Core.Path.{subst}
use mink_lasso.Base.{
  ℕ, zero, suc, ◌+◌, ◌*◌, ◌≤◌, ◌<◌, ◌≡◌, ◌⊎◌, refl, inl, inr, min, Bool, Bool-cases, true, false,
  Option, none, some, List, [], ◌∷◌, length, leb, arith, if◌then◌else◌,
}
use mink_lasso.Masso.Errors.{no_response, context_done, Result, err}
use mink_lasso.Masso.Upload.{start_ack_result}
use mink_lasso.Client.Starting.{
  Waking, done, expired, acked, Turn, Schedule, Start, Turned, ended, goes_on, resend_due,
  wait_ends, turn, follow, turns, schedule, first_start, start_upload,
}

leb_le : (a b : ℕ) → leb a b ≡ true → a ≤ b
leb_le a b h = ground arith

leb_lt : (a b : ℕ) → leb a b ≡ false → b < a
leb_lt a b h = ground arith

-- One turn, by what it does.
pub data Turns (g : Schedule) (t : Turn) (s : Start) : Turned → Type 0 where
  gives_up : g.give_up ≤ t.now → Turns g t s (ended (err no_response))
  answers :
      (result : ℕ)
      → t.now < g.give_up
      → (t.ready ≡ some result) ⊎ (t.waking ≡ acked result)
      → Turns g t s (ended (start_ack_result result s.resends))
  stops : t.now < g.give_up → Turns g t s (ended (err context_done))
  resends_now :
      t.now < g.give_up
      → s.next_resend ≤ t.now
      → Turns g t s (
          goes_on (record {
            resends = s.resends + 1;
            next_resend = t.now + g.start_retransmit;
            last_failed = if t.sent then false else true;
          }))
  waits : t.now < g.give_up → t.now < s.next_resend → Turns g t s (goes_on s)

resend_due-Turns :
    (g : Schedule) (t : Turn) (s : Start) (ready : Option ℕ)
    → t.ready ≡ ready
    → t.now < g.give_up
    → s.next_resend ≤ t.now
    → Turns g t s (resend_due g t ready s)
unfolding resend_due
resend_due-Turns g t s (some result) e h k = answers result h (inl e)
resend_due-Turns g t s none e h k = resends_now h k

wait_ends-Turns :
    (g : Schedule) (t : Turn) (s : Start) (w : Waking)
    → t.waking ≡ w
    → t.now < g.give_up
    → t.now < s.next_resend
    → Turns g t s (wait_ends w s)
unfolding wait_ends
wait_ends-Turns g t s done e h k = stops h
wait_ends-Turns g t s expired e h k = waits h k
wait_ends-Turns g t s (acked result) e h k = answers result h (inr e)

pub turn-Turns : (g : Schedule) (t : Turn) (s : Start) → Turns g t s (turn g t s)
unfolding turn
turn-Turns g t s = elim (Bool-cases (leb g.give_up t.now)) [
  | inl p ↦ rw p (gives_up (leb_le g.give_up t.now p))
  | inr p ↦
      let h = leb_lt g.give_up t.now p in
      rw p (elim (Bool-cases (leb s.next_resend t.now)) [
        | inl q ↦ rw q (resend_due-Turns g t s t.ready refl h (leb_le s.next_resend t.now q))
        | inr q ↦ rw q (wait_ends-Turns g t s t.waking refl h (leb_lt s.next_resend t.now q))
      ])
]

-- The resends are spaced out, and none falls after the deadline.
record Spaced (g : Schedule) (first : ℕ) (s : Start) : Type 0 where
  next : first + (s.resends + 1) * g.start_retransmit ≤ s.next_resend
  last : (s.resends ≡ 0) ⊎ (first + s.resends * g.start_retransmit < g.give_up)

abbrev SpacedAfter : Schedule → ℕ → Turned → Type 0
SpacedAfter g first (ended r) = Unit
SpacedAfter g first (goes_on u) = Spaced g first u

add_one-mul : (r d : ℕ) → (r + 1) * d ≡ r * d + d
add_one-mul r d = omega arith

-- The earliest time of the turn after one that goes on: the deadline of its wait, or its own time.
abbrev pub after_turn : Schedule → Turn → Start → ℕ
after_turn g t s = if leb s.next_resend t.now then t.now else min s.next_resend g.give_up

abbrev pub WhenOn : Turned → (Start → Type 0) → Type 0
WhenOn (ended r) P = Unit
WhenOn (goes_on u) P = P u

-- The timers are kept: no turn is before the one before, nor, where a wait's timer ended it, before the
-- deadline.
abbrev pub Punctual : Schedule → ℕ → List Turn → Start → Type 0
Punctual g due [] s = Unit
Punctual g due (t ∷ ts) s = (due ≤ t.now) × WhenOn (turn g t s) (Punctual g (after_turn g t s) ts)

abbrev pub Ended : Turned → Type 0
Ended o = (r : Result (Unit {0})) × (o ≡ ended r)

-- A wait has just ended, or a resend has.
abbrev Waited : Bool → Schedule → ℕ → Start → Type 0
Waited true g due s = min s.next_resend g.give_up ≤ due
Waited false g due s = Unit

-- The turns that are enough for so many more resends.
abbrev budget : Bool → ℕ → ℕ
budget true k = 2 * k
budget false k = 2 * k + 1

-- The turns after this one end the loop.
abbrev RestEnds : Schedule → List Turn → Type 0
RestEnds g ts =
    (b : Bool) (k due : ℕ) (u : Start)
    → g.give_up ≤ u.next_resend + k * g.start_retransmit
    → Waited b g due u
    → Punctual g due ts u
    → budget b k < length ts
    → Ended (turns g ts u).0

resend-ends :
    (g : Schedule) (t : Turn) (ts : List Turn) (s u : Start) (b : Bool) (k : ℕ)
    → t.now < g.give_up
    → s.next_resend ≤ t.now
    → u.next_resend ≡ t.now + g.start_retransmit
    → g.give_up ≤ s.next_resend + k * g.start_retransmit
    → budget b k < suc (length ts)
    → Punctual g t.now ts u
    → RestEnds g ts
    → Ended (turns g ts u).0
resend-ends g t ts s u b zero h l e d n p rest = absurd (omega arith)
resend-ends g t ts s u true (suc k) h l e d n p rest =
    rest false k t.now u (omega (arith, add_one-mul k g.start_retransmit)) tt p (omega arith)
resend-ends g t ts s u false (suc k) h l e d n p rest =
    rest false k t.now u (omega (arith, add_one-mul k g.start_retransmit)) tt p (omega arith)

wait-ends :
    (g : Schedule) (t : Turn) (ts : List Turn) (s : Start) (b : Bool) (k due : ℕ)
    → t.now < g.give_up
    → t.now < s.next_resend
    → due ≤ t.now
    → g.give_up ≤ s.next_resend + k * g.start_retransmit
    → Waited b g due s
    → budget b k < suc (length ts)
    → Punctual g (min s.next_resend g.give_up) ts s
    → RestEnds g ts
    → Ended (turns g ts s).0
wait-ends g t ts s true k due h l m d w n p rest = absurd (omega arith)
wait-ends g t ts s false k due h l m d w n p rest =
    rest true k (min s.next_resend g.give_up) s d (omega arith) p (omega arith)

turn-ends :
    (g : Schedule) (t : Turn) (ts : List Turn) (s : Start) (b : Bool) (k due : ℕ) (o : Turned)
    → Turns g t s o
    → due ≤ t.now
    → g.give_up ≤ s.next_resend + k * g.start_retransmit
    → Waited b g due s
    → budget b k < suc (length ts)
    → WhenOn o (Punctual g (after_turn g t s) ts)
    → RestEnds g ts
    → Ended (follow (turns g ts) o s).0
turn-ends g t ts s b k due _ (gives_up h) m d w n p rest = (err no_response, refl)
turn-ends g t ts s b k due _ (answers r h a) m d w n p rest = (start_ack_result r s.resends, refl)
turn-ends g t ts s b k due _ (stops h) m d w n p rest = (err context_done, refl)
turn-ends g t ts s b k due _ (resends_now h l) m d w n p rest =
    let e : after_turn g t s ≡ t.now = ground arith in
    let u : Start = record {
      resends = s.resends + 1;
      next_resend = t.now + g.start_retransmit;
      last_failed = if t.sent then false else true;
    } in
    resend-ends g t ts s u b k h l refl d n (subst (λ (at : ℕ). Punctual g at ts u) e p) rest
turn-ends g t ts s b k due _ (waits h l) m d w n p rest =
    let e : after_turn g t s ≡ min s.next_resend g.give_up = ground arith in
    wait-ends g t ts s b k due h l m d w n (subst (λ (at : ℕ). Punctual g at ts s) e p) rest

turns-end : (g : Schedule) (ts : List Turn) → RestEnds g ts
unfolding turns
turns-end g [] b k due u d w p n = absurd (omega arith)
turns-end g (t ∷ ts) b k due u d w p n =
    turn-ends g t ts u b k due (turn g t u) (turn-Turns g t u) p.0 d w n p.1 (turns-end g ts)

-- The start of an upload comes to an end: when the timers are kept, and the time allowed is
-- no more than k + 1 intervals, it ends within 2k + 2 turns.
pub start_upload-ends :
    (start_timeout start_retransmit first k : ℕ) (sent : Bool) (ts : List Turn)
    → start_timeout ≤ (k + 1) * start_retransmit
    → Punctual
        (schedule start_timeout start_retransmit first)
        first
        ts
        (first_start start_retransmit first sent)
    → 2 * k + 1 < length ts
    → Ended (start_upload start_timeout start_retransmit first sent ts).0
unfolding start_upload
start_upload-ends start_timeout start_retransmit first k sent ts room p n =
    turns-end (schedule start_timeout start_retransmit first) ts false k first
      (first_start start_retransmit first sent)
      (omega (arith, room, add_one-mul k start_retransmit)) tt p n
