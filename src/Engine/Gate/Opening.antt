-- ===== src/Engine/Gate/Opening.antt =====
-- When the gate of internal/engine/gate.go opens: its timer, and its verdict against the history of
-- what the controller reported.
use mink_lasso.Base.{
  ℕ, ◌≤◌, ◌<◌, ◌≡◌, ◌↔◌, inl, inr, refl, sym, ◌∙◌, true, false, not, ◌||◌, Option, none, some,
  arith, Bool-cases,
}
use mink_lasso.Engine.Gate.{
  Verdict, open_gate, not_connected, waiting_for_operator, machining, just_stopped, job_paused,
  Gate, evaluate_machine, evaluate, signal_ready, expiry, hold_verdict, holds_end, is_untimed,
  timer_for, is_open, reschedule,
}

pub hold_verdict-open :
    (i : Option ℕ) (h : ℕ) (p : Option ℕ) (k t : ℕ)
    → (hold_verdict i h p k t ≡ open_gate) ↔ (holds_end i h p k ≤ t)
unfolding hold_verdict holds_end
hold_verdict-open none h none k t = ground arith
hold_verdict-open none h (some v) k t = ground arith
hold_verdict-open (some u) h none k t = ground arith
hold_verdict-open (some u) h (some v) k t = ground arith

abbrev holds_of : Gate → ℕ
holds_of g = holds_end g.idle_since g.idle_hold g.paused_at g.pause_grace

-- A gate that is neither open nor closed for good is closed by its holds.
timed-evaluate :
    (g : Gate) (now t : ℕ)
    → is_untimed (evaluate g now) g ≡ false
    → evaluate g t ≡ hold_verdict g.idle_since g.idle_hold g.paused_at g.pause_grace t
unfolding evaluate evaluate_machine
timed-evaluate g now t e = ground arith

-- The parts of the state that a verdict reads are not changed by rescheduling.
evaluate-reschedule : (g : Gate) (now t : ℕ) → evaluate (reschedule now g) t ≡ evaluate g t
unfolding reschedule signal_ready evaluate evaluate_machine
evaluate-reschedule g now t = ground arith

expiry-some : (next now d : ℕ) → expiry next now ≡ some d → (next ≡ d) × (now < d)
unfolding expiry
expiry-some next now d e = ground arith

expiry-none : (next now : ℕ) → expiry next now ≡ none → next ≤ now
unfolding expiry
expiry-none next now e = ground arith

armed :
    (g : Gate) (now d : ℕ)
    → timer_for now g ≡ some d
    → (is_untimed (evaluate g now) g ≡ false) × (holds_of g ≡ d) × (now < d)
unfolding timer_for
armed g now d e = elim (Bool-cases (is_untimed (evaluate g now) g)) [
  | inl untimed ↦ absurd (ground (arith, untimed, e))
  | inr timed ↦
      let (same, later) = expiry-some (holds_of g) now d (rw timed at e) in (timed, same, later)
]

-- If a reschedule arms the timer, that is for the first time at which the gate will be open.
pub reschedule-timer :
    (g : Gate) (now d t : ℕ)
    → (reschedule now g).timer ≡ some d
    → (now < d) × ((evaluate (reschedule now g) t ≡ open_gate) ↔ (d ≤ t))
unfolding reschedule
reschedule-timer g now d t e =
    let (timed, same, later) = armed g now d e in
    let opens = hold_verdict-open g.idle_since g.idle_hold g.paused_at g.pause_grace t in
    (
      later,
      (
        (λ is_open_then. omega (
          arith,
          same,
          opens.0 (
              sym (timed-evaluate g now t timed)
              ∙ sym (evaluate-reschedule g now t)
              ∙ is_open_then),
        )),
        (λ reached.
            evaluate-reschedule g now t
            ∙ timed-evaluate g now t timed
            ∙ opens.1 (omega (arith, same, reached))),
      ),
    )

unheld-evaluate :
    (g : Gate) (now t : ℕ)
    → (not g.is_connected || g.upload_while_machining || not g.have_status || g.busy) ≡ true
    → evaluate g t ≡ evaluate g now
unfolding evaluate evaluate_machine
unheld-evaluate g now t e = ground arith

pub held-evaluate :
    (g : Gate) (t : ℕ)
    → (not g.is_connected || g.upload_while_machining || not g.have_status || g.busy) ≡ false
    → evaluate g t ≡ hold_verdict g.idle_since g.idle_hold g.paused_at g.pause_grace t
unfolding evaluate evaluate_machine
held-evaluate g t e = ground arith

-- A gate whose holds have ended stays open.
held-steady :
    (g : Gate) (now t : ℕ)
    → now ≤ t
    → (not g.is_connected || g.upload_while_machining || not g.have_status || g.busy) ≡ false
    → holds_of g ≤ now
    → evaluate g t ≡ evaluate g now
held-steady g now t h held over =
    held-evaluate g t held
    ∙ (hold_verdict-open g.idle_since g.idle_hold g.paused_at g.pause_grace t).1 (omega arith)
    ∙ sym ((hold_verdict-open g.idle_since g.idle_hold g.paused_at g.pause_grace now).1 over)
    ∙ sym (held-evaluate g now held)

is_open_iff : (v : Verdict) → is_open v ≡ true → v ≡ open_gate
is_open_iff open_gate e = refl
is_open_iff not_connected e = cc
is_open_iff waiting_for_operator e = cc
is_open_iff machining e = cc
is_open_iff just_stopped e = cc
is_open_iff job_paused e = cc

unarmed :
    (g : Gate) (now : ℕ)
    → (not g.is_connected || g.upload_while_machining || not g.have_status || g.busy) ≡ false
    → timer_for now g ≡ none
    → holds_of g ≤ now
unfolding timer_for
unarmed g now held e = elim (Bool-cases (is_open (evaluate g now))) [
  | inl opened ↦
      (hold_verdict-open g.idle_since g.idle_hold g.paused_at g.pause_grace now).0
        (sym (held-evaluate g now held) ∙ is_open_iff (evaluate g now) opened)
  | inr closed ↦
      let timed : is_untimed (evaluate g now) g ≡ false = ground arith in
      expiry-none (holds_of g) now (rw timed at e)
]

-- If it does not arm the timer, no passing of time changes the verdict.
pub reschedule-steady :
    (g : Gate) (now t : ℕ)
    → now ≤ t
    → (reschedule now g).timer ≡ none
    → evaluate (reschedule now g) t ≡ evaluate (reschedule now g) now
unfolding reschedule
reschedule-steady g now t h e =
    evaluate-reschedule g now t
    ∙ (elim (Bool-cases
        (not g.is_connected || g.upload_while_machining || not g.have_status || g.busy)) [
          | inl unheld ↦ unheld-evaluate g now t unheld
          | inr held ↦ held-steady g now t h held (unarmed g now held e)
        ])
    ∙ sym (evaluate-reschedule g now now)
