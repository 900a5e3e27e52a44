-- ===== src/Engine/Gate.antt =====
-- internal/engine/gate.go: whether an upload may start. Times are in nanoseconds, and `none` is
-- the zero time. The clock does not run backwards, so that `now - t` is the time since `t`.
pub mod Opening
pub mod History
pub mod Machine
pub mod Rule
use mink_lasso.Base.{
  ℕ, ◌+◌, ◌-◌, ◌≤◌, ◌<◌, Bool, true, false, not, ◌&&◌, ◌||◌, Option, none, some, ltb, ◌==◌,
  if◌then◌else◌, max,
}
use mink_lasso.Masso.Reply.{Status}

-- A verdict with its reason: event.go's `Gate`, whose reason is empty if it is open.
pub data Verdict : Type 0 where
  open_gate not_connected waiting_for_operator machining just_stopped job_paused : Verdict

abbrev pub verdict_eq : Verdict → Verdict → Bool
verdict_eq open_gate open_gate = true
verdict_eq not_connected not_connected = true
verdict_eq waiting_for_operator waiting_for_operator = true
verdict_eq machining machining = true
verdict_eq just_stopped just_stopped = true
verdict_eq job_paused job_paused = true
verdict_eq _ _ = false

-- The fields of a gate. `timer` is when the timer expires, if it is armed, and `ready` is whether
-- the channel holds a signal. `last_signaled` is `none` for the zero verdict.
pub record Gate : Type 0 where
  pub idle_hold : ℕ
  pub pause_grace : ℕ
  pub is_connected : Bool
  pub upload_while_machining : Bool
  pub have_status : Bool
  pub status : Status
  pub busy : Bool
  pub idle_since : Option ℕ
  pub paused_at : Option ℕ
  pub timer : Option ℕ
  pub ready : Bool
  pub last_signaled : Option Verdict

unfoldable pub new_gate : ℕ → ℕ → Bool → Status → Gate
new_gate idle_hold pause_grace upload_while_machining no_status = record {
  idle_hold = idle_hold;
  pause_grace = pause_grace;
  is_connected = false;
  upload_while_machining = upload_while_machining;
  have_status = false;
  status = no_status;
  busy = false;
  idle_since = none;
  paused_at = none;
  timer = none;
  ready = false;
  last_signaled = none;
}

-- Whether less than `hold` has passed since `t`: the zero time is longer ago than any hold.
abbrev pub within_hold : Option ℕ → ℕ → ℕ → Bool
within_hold none hold now = false
within_hold (some t) hold now = ltb now (t + hold)

-- The verdict on an idle machine, by the time since it went idle and since a job was paused.
unfoldable pub hold_verdict : Option ℕ → ℕ → Option ℕ → ℕ → ℕ → Verdict
hold_verdict idle_since idle_hold paused_at pause_grace now =
    if within_hold idle_since idle_hold now
    then just_stopped
    else if within_hold paused_at pause_grace now
    then job_paused
    else open_gate

-- The case of a connected gate without the operator's override.
unfoldable pub evaluate_machine : Gate → ℕ → Verdict
evaluate_machine g now =
    if not g.have_status || g.busy
    then if g.have_status && g.status.waiting_for_operator then waiting_for_operator else machining
    else hold_verdict g.idle_since g.idle_hold g.paused_at g.pause_grace now

-- `evaluateLocked`.
unfoldable pub evaluate : Gate → ℕ → Verdict
evaluate g now =
    if not g.is_connected
    then not_connected
    else if g.upload_while_machining
    then open_gate
    else evaluate_machine g now

abbrev pub is_last : Option Verdict → Verdict → Bool
is_last none v = false
is_last (some u) v = verdict_eq v u

-- `signalReadyLocked`.
unfoldable pub signal_ready : Verdict → Gate → Gate
signal_ready v g =
    if is_last g.last_signaled v then g else record g { last_signaled = some v; ready = true }

-- The end of a hold.
abbrev pub hold_end : Option ℕ → ℕ → ℕ
hold_end none hold = 0
hold_end (some t) hold = t + hold

-- The later of the ends of both holds.
unfoldable pub holds_end : Option ℕ → ℕ → Option ℕ → ℕ → ℕ
holds_end idle_since idle_hold paused_at pause_grace =
    max (hold_end idle_since idle_hold) (hold_end paused_at pause_grace)

-- When the timer should expire, if that is still to come.
unfoldable pub expiry : ℕ → ℕ → Option ℕ
expiry next now = if ltb now next then some next else none

abbrev pub is_open : Verdict → Bool
is_open v = verdict_eq v open_gate

-- Time alone does not open the gate.
abbrev pub is_untimed : Verdict → Gate → Bool
is_untimed v g =
    is_open v || not g.is_connected || g.upload_while_machining || not g.have_status || g.busy

-- The timer's new setting.
unfoldable pub timer_for : ℕ → Gate → Option ℕ
timer_for now g =
    if is_untimed (evaluate g now) g
    then none
    else expiry (holds_end g.idle_since g.idle_hold g.paused_at g.pause_grace) now

-- `rescheduleLocked`, apart from the verdict that it returns, `evaluate g now`.
unfoldable pub reschedule : ℕ → Gate → Gate
reschedule now g = record (signal_ready (evaluate g now) g) { timer = timer_for now g }

unfoldable pub connected : ℕ → Gate → Gate
connected now g = reschedule now (record g { is_connected = true })

unfoldable pub disconnected : ℕ → Gate → Gate
disconnected now g = reschedule now (record g {
  is_connected = false;
  have_status = false;
  busy = false;
  idle_since = none;
  paused_at = none;
})

unfoldable pub set_upload_while_machining : Bool → ℕ → Gate → Gate
set_upload_while_machining v now g = reschedule now (record g { upload_while_machining = v })

-- The machine runs a job or waits for its operator.
abbrev pub is_busy : Status → Bool
is_busy s = s.running || s.waiting_for_operator

-- A job stopped midway.
abbrev pub is_partial : Status → Bool
is_partial s = ltb 0 s.progress && ltb s.progress 100

-- The `switch` of `updateStatus`.
unfoldable pub fold_status : Status → ℕ → Gate → Gate
fold_status s now g =
    if is_busy s
    then record g { busy = true; idle_since = none; paused_at = none }
    else if g.busy || not g.have_status
    then record g {
      busy = false;
      idle_since = some now;
      paused_at = if is_partial s then some now else none;
    }
    else record g { paused_at = if s.progress == 0 || s.progress == 100 then none else g.paused_at }

-- The clock is read at `at` for the status, and at `now` for the verdict.
unfoldable pub update_status : Status → ℕ → ℕ → Gate → Gate
update_status s at now g =
    reschedule now (record (fold_status s at g) { status = s; have_status = true })

-- The timer expires: `run`.
unfoldable pub expires : ℕ → Gate → Gate
expires now g = reschedule now (record g { timer = none })
