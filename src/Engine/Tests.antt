-- ===== src/Engine/Tests.antt =====
-- The machine gate on a short history: a connection, then reports of an idle machine.
use mink_lasso.Base.{
  ℕ, ◌+◌, ◌≤◌, ◌<◌, ◌≡◌, ◌↔◌, List, inl, inr, refl, true, false, some, [], ◌∷◌, arith,
}
use mink_lasso.Masso.Reply.{Status}
use mink_lasso.Engine.Gate.{
  open_gate, job_paused, Gate, new_gate, hold_verdict, holds_end, evaluate_machine, evaluate,
  signal_ready, expiry, timer_for, reschedule, connected, fold_status, update_status,
}
use mink_lasso.Engine.Gate.Opening.{reschedule-timer}
use mink_lasso.Engine.Gate.History.{connects, reports, apply, History, run, IdleFrom, PausedFrom}
use mink_lasso.Engine.Dispatcher.{Op, emit, operate, run_turn, emits, closes, turns, serve}
use mink_lasso.Engine.Progress.{Report, relay, percent, report_progress, allow, finish, is_due}
use mink_lasso.Engine.Progress.View.{Current, Spaced, relay-Current}
use mink_lasso.Engine.Gate.Rule.{evaluate-idle, evaluate-paused, evaluate-prompt}

abbrev stopped_at : ℕ → Status
stopped_at progress = record {
  progress = progress;
  state = 0;
  running = false;
  jobs = 0;
  prompt = 1;
  waiting_for_operator = false;
  line = 0;
  file = [];
}

abbrev midway : Status
midway = stopped_at 42

abbrev past : History
past = (10, reports midway 10) ∷ (5, reports midway 5) ∷ (1, connects) ∷ []

abbrev fresh : Gate
fresh = new_gate 5 30 false midway

past-IdleFrom : IdleFrom 5 past
past-IdleFrom = ((refl, refl), inr ((refl, refl), inl (refl, tt)))

past-PausedFrom : PausedFrom 5 past
past-PausedFrom =
    ((refl, refl), inr (((refl, refl), inl (refl, tt, omega arith)), omega arith, omega arith))

opened : evaluate (run fresh past) 40 ≡ open_gate
unfolding new_gate run apply connected reschedule signal_ready evaluate evaluate_machine
    hold_verdict update_status fold_status
opened = refl

still_paused : evaluate (run fresh past) 34 ≡ job_paused
unfolding new_gate run apply connected reschedule signal_ready evaluate evaluate_machine
    hold_verdict update_status fold_status
still_paused = refl

unforced : (run fresh past).upload_while_machining ≡ false
unfolding new_gate run apply connected reschedule signal_ready update_status fold_status evaluate
    evaluate_machine hold_verdict
unforced = refl

linked : (run fresh past).is_connected ≡ true
unfolding new_gate run apply connected reschedule signal_ready update_status fold_status evaluate
    evaluate_machine hold_verdict
linked = refl

evaluate-idle_example :
    ((run fresh past).is_connected ≡ true) × ((u : ℕ) × IdleFrom u past × (u + 5 ≤ 40))
evaluate-idle_example = evaluate-idle 5 30 false midway past 40 opened unforced

evaluate-paused_example : 5 + 30 ≤ 40
evaluate-paused_example =
    evaluate-paused 5 30 false midway past 40 5 past-PausedFrom opened unforced

evaluate-prompt_example : evaluate (run fresh past) 40 ≡ open_gate
evaluate-prompt_example =
    evaluate-prompt 5 30 false midway past 40 5 past-IdleFrom linked (omega arith) (omega arith)

armed : (reschedule 10 (run fresh past)).timer ≡ some 35
unfolding new_gate run apply connected reschedule timer_for expiry holds_end signal_ready evaluate
    evaluate_machine hold_verdict update_status fold_status
armed = refl

reschedule-timer_example :
    (10 < 35) × ((evaluate (reschedule 10 (run fresh past)) 36 ≡ open_gate) ↔ (35 ≤ 36))
reschedule-timer_example = reschedule-timer (run fresh past) 10 35 36 armed

-- Two events, one of which is delivered before the close and one after it, and a third that comes too late.
abbrev history : List (Op ℕ)
history = turns ∷ turns ∷ emits 3 ∷ closes ∷ turns ∷ emits 2 ∷ emits 1 ∷ []

history-delivered : (serve history).delivered ≡ 1 ∷ 2 ∷ []
unfolding serve operate emit run_turn
history-delivered = refl

abbrev sent_at : ℕ → ℕ → Report
sent_at now sent = record { now = now; sent = sent; total = 1000 }

abbrev reported : List Report
reported = sent_at 90 49 ∷ sent_at 60 10 ∷ sent_at 50 0 ∷ []

relay-Current_example :
    Current 100 (sent_at 95 50) (relay 100 (sent_at 95 50 ∷ reported)).shown
    × Spaced 100 (relay 100 (sent_at 95 50 ∷ reported)).shown
relay-Current_example = relay-Current 100 (sent_at 95 50) reported (omega arith)

reported-shown : (relay 100 (sent_at 95 50 ∷ reported)).shown ≡ sent_at 95 50 ∷ sent_at 50 0 ∷ []
unfolding relay report_progress allow finish is_due percent
reported-shown = refl
