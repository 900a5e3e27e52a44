-- ===== src/Engine/Gate/Rule.antt =====
-- The machine-gate rule of internal/engine's package comment, as internal/engine/gate.go keeps it.
use mink_lasso.Base.{
  ℕ, ◌+◌, ◌≤◌, ◌≡◌, ◌⊎◌, inl, inr, refl, ◌∙◌, Bool, true, false, not, ◌||◌, Option, none, some, [],
  ◌∷◌, arith, Bool-cases,
}
use mink_lasso.Masso.Reply.{Status}
use mink_lasso.Engine.Gate.{
  open_gate, Gate, new_gate, hold_verdict, holds_end, evaluate_machine, evaluate, signal_ready,
  reschedule, connected, disconnected, set_upload_while_machining, fold_status, update_status,
  expires,
}
use mink_lasso.Engine.Gate.Opening.{hold_verdict-open, held-evaluate}
use mink_lasso.Engine.Gate.History.{
  Call, connects, disconnects, expiry, allows, reports, apply, History, run, IdleFrom, PausedFrom,
  history_cases,
}
use mink_lasso.Engine.Gate.Machine.{run-Unidle, run-IdleAt, run-paused_at}

reschedule-holds :
    (now : ℕ) (g : Gate)
    → ((reschedule now g).idle_hold ≡ g.idle_hold)
      × ((reschedule now g).pause_grace ≡ g.pause_grace)
unfolding reschedule signal_ready
reschedule-holds now g = ground arith

fold_status-holds :
    (s : Status) (t : ℕ) (g : Gate)
    → ((fold_status s t g).idle_hold ≡ g.idle_hold)
      × ((fold_status s t g).pause_grace ≡ g.pause_grace)
unfolding fold_status
fold_status-holds s t g = ground arith

apply-holds :
    (t : ℕ) (c : Call) (g : Gate)
    → ((apply t c g).idle_hold ≡ g.idle_hold) × ((apply t c g).pause_grace ≡ g.pause_grace)
unfolding apply connected disconnected expires set_upload_while_machining update_status
apply-holds t connects g = reschedule-holds t (record g { is_connected = true })
apply-holds t disconnects g = reschedule-holds t (record g {
  is_connected = false;
  have_status = false;
  busy = false;
  idle_since = none;
  paused_at = none;
})
apply-holds t expiry g = reschedule-holds t (record g { timer = none })
apply-holds t (allows v) g = reschedule-holds t (record g { upload_while_machining = v })
apply-holds t (reports s now) g =
    let r = reschedule-holds now (record (fold_status s t g) { status = s; have_status = true }) in
    let f = fold_status-holds s t g in (r.0 ∙ f.0, r.1 ∙ f.1)

-- No call changes how long the gate holds.
run-holds :
    (g : Gate) (past : History)
    → ((run g past).idle_hold ≡ g.idle_hold) × ((run g past).pause_grace ≡ g.pause_grace)
unfolding run
run-holds g [] = (refl, refl)
run-holds g ((t, c) ∷ past) =
    let (idle, grace) = apply-holds t c (run g past) in
    let (idle', grace') = run-holds g past in (idle ∙ idle', grace ∙ grace')

-- An open gate without the override is connected to an idle machine, whose holds have ended.
open-holds :
    (g : Gate) (now : ℕ)
    → evaluate g now ≡ open_gate
    → g.upload_while_machining ≡ false
    → (g.is_connected ≡ true)
      × ((not g.have_status || g.busy) ≡ false)
      × (hold_verdict g.idle_since g.idle_hold g.paused_at g.pause_grace now ≡ open_gate)
unfolding evaluate evaluate_machine
open-holds g now e k = ground (arith, e, k)

ends :
    (g : Gate) (now : ℕ)
    → evaluate g now ≡ open_gate
    → g.upload_while_machining ≡ false
    → holds_end g.idle_since g.idle_hold g.paused_at g.pause_grace ≤ now
ends g now e k =
    (hold_verdict-open g.idle_since g.idle_hold g.paused_at g.pause_grace now).0
      (open-holds g now e k).2

idle_end :
    (i : Option ℕ) (h : ℕ) (p : Option ℕ) (k now u : ℕ)
    → i ≡ some u
    → holds_end i h p k ≤ now
    → u + h ≤ now
unfolding holds_end
idle_end i h p k now u e le = let both : holds_end (some u) h p k ≤ now = rw e at le in omega arith

pause_end :
    (i : Option ℕ) (h : ℕ) (p : Option ℕ) (k now u : ℕ)
    → p ≡ some u
    → holds_end i h p k ≤ now
    → u + k ≤ now
unfolding holds_end
pause_end i h p k now u e le = let both : holds_end i h (some u) k ≤ now = rw e at le in omega arith

both_end :
    (i : Option ℕ) (h : ℕ) (p : Option ℕ) (k now u : ℕ)
    → i ≡ some u
    → (p ≡ none) ⊎ (p ≡ some u)
    → u + h ≤ now
    → u + k ≤ now
    → holds_end i h p k ≤ now
unfolding holds_end
both_end i h p k now u e (inl unpaused) idle grace = rw (e, unpaused) (omega arith)
both_end i h p k now u e (inr paused) idle grace = rw (e, paused) (omega arith)

opens_by_override :
    (g : Gate) (now : ℕ)
    → g.is_connected ≡ true
    → g.upload_while_machining ≡ true
    → evaluate g now ≡ open_gate
unfolding evaluate
opens_by_override g now h k = ground (arith, h, k)

module _ (idle_hold pause_grace : ℕ) (override : Bool) (no_status : Status) where
  abbrev started : Gate
  started = new_gate idle_hold pause_grace override no_status

  started-fresh : started.have_status ≡ false
  unfolding new_gate
  started-fresh = refl

  started-holds : (started.idle_hold ≡ idle_hold) × (started.pause_grace ≡ pause_grace)
  unfolding new_gate
  started-holds = (refl, refl)

  -- A gate that is open without the operator's override is connected, and the machine was reported
  -- idle at least `idle_hold` ago and in every report since, over one connection.
  pub evaluate-idle :
      (past : History) (now : ℕ)
      → evaluate (run started past) now ≡ open_gate
      → (run started past).upload_while_machining ≡ false
      → ((run started past).is_connected ≡ true)
        × ((u : ℕ) × IdleFrom u past × (u + idle_hold ≤ now))
  evaluate-idle past now e k =
      let (linked, idle, opens) = open-holds (run started past) now e k in
      elim (history_cases past) [
        | inl never ↦ absurd (ground (arith, run-Unidle started started-fresh past never, idle))
        | inr (u, since) ↦
            let at_u = run-IdleAt started started-fresh u past since in
            let over =
              idle_end (run started past).idle_since (run started past).idle_hold
                (run started past).paused_at (run started past).pause_grace now u at_u.idle_since
                (ends (run started past) now e k) in
            (linked, (u, since, omega (arith, over, (run-holds started past).0, started-holds.0)))
      ]

  -- A gate that is open without the operator's override, where the job stopped midway when the
  -- machine went idle and no report since had 0 or 100 percent, has been idle for `pause_grace`.
  pub evaluate-paused :
      (past : History) (now u : ℕ)
      → PausedFrom u past
      → evaluate (run started past) now ≡ open_gate
      → (run started past).upload_while_machining ≡ false
      → u + pause_grace ≤ now
  evaluate-paused past now u paused e k =
      let over =
        pause_end (run started past).idle_since (run started past).idle_hold
          (run started past).paused_at (run started past).pause_grace now u
          (run-paused_at started started-fresh u past paused) (ends (run started past) now e k) in
      omega (arith, over, (run-holds started past).1, started-holds.1)

  -- A connected gate is open, whatever the operator has set, as soon as the machine was reported
  -- idle for both holds.
  pub evaluate-prompt :
      (past : History) (now u : ℕ)
      → IdleFrom u past
      → (run started past).is_connected ≡ true
      → u + idle_hold ≤ now
      → u + pause_grace ≤ now
      → evaluate (run started past) now ≡ open_gate
  evaluate-prompt past now u since linked idle grace =
      let g = run started past in
      let at_u = run-IdleAt started started-fresh u past since in
      elim (Bool-cases (run started past).upload_while_machining) [
        | inl override_on ↦ opens_by_override (run started past) now linked override_on
        | inr override_off ↦
            held-evaluate (run started past) now
              (ground (arith, linked, override_off, at_u.have_status, at_u.busy))
            ∙ (hold_verdict-open (run started past).idle_since (run started past).idle_hold
                  (run started past).paused_at (run started past).pause_grace now).1
                (both_end (run started past).idle_since (run started past).idle_hold
                  (run started past).paused_at (run started past).pause_grace now u at_u.idle_since
                  at_u.paused_at (omega (arith, idle, (run-holds started past).0, started-holds.0))
                  (omega (arith, grace, (run-holds started past).1, started-holds.1)))
      ]
