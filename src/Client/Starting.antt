-- ===== src/Client/Starting.antt =====
-- `startUpload` of internal/masso/upload.go. Times are in nanoseconds.
use mink_lasso.Base.{
  ℕ, ◌+◌, Bool, true, false, Option, none, some, List, [], ◌∷◌, leb, if◌then◌else◌,
}
use mink_lasso.Masso.Errors.{no_response, context_done, Result, err}
use mink_lasso.Masso.Upload.{start_ack_result}

-- How a wait ends: ctx is done, the timer has fired, or an ACK with a result has come.
pub data Waking : Type 0 where
  done expired : Waking
  acked : (result : ℕ) → Waking

-- One turn of the loop: the clock, the result of an ACK that is there already when a resend falls due,
-- whether the resend leaves this machine, and how the wait ends, if there is one.
pub record Turn : Type 0 where
  pub now : ℕ
  pub ready : Option ℕ
  pub sent : Bool
  pub waking : Waking

pub record Schedule : Type 0 where
  pub start_retransmit : ℕ
  pub give_up : ℕ

-- The loop's variables, and whether the last send failed, as `sendFailures` records it.
pub record Start : Type 0 where
  pub resends : ℕ
  pub next_resend : ℕ
  pub last_failed : Bool

-- The end of the loop, or that it goes on.
pub data Turned : Type 0 where
  ended : Result (Unit {0}) → Turned
  goes_on : Start → Turned

-- `noResponseErr`: an error that `errors.Is` takes for ErrNoResponse, whatever it wraps besides.
abbrev pub no_response_err : Start → Result (Unit {0})
no_response_err s = err no_response

unfoldable pub resend_due : Schedule → Turn → Option ℕ → Start → Turned
resend_due g t (some result) s = ended (start_ack_result result s.resends)
resend_due g t none s = goes_on (record {
  resends = s.resends + 1;
  next_resend = t.now + g.start_retransmit;
  last_failed = if t.sent then false else true;
})

unfoldable pub wait_ends : Waking → Start → Turned
wait_ends done s = ended (err context_done)
wait_ends expired s = goes_on s
wait_ends (acked result) s = ended (start_ack_result result s.resends)

unfoldable pub turn : Schedule → Turn → Start → Turned
unfolding resend_due wait_ends
turn g t s =
    if leb g.give_up t.now
    then ended (no_response_err s)
    else if leb s.next_resend t.now
    then resend_due g t t.ready s
    else wait_ends t.waking s

abbrev pub follow : (Start → Turned × Start) → Turned → Start → Turned × Start
follow others (ended r) s = (ended r, s)
follow others (goes_on u) s = others u

-- The loop over turns: what it returns, if it does, and its variables at the end.
unfoldable pub turns : Schedule → List Turn → Start → Turned × Start
unfolding turn
turns g [] s = (goes_on s, s)
turns g (t ∷ ts) s = follow (turns g ts) (turn g t s) s

-- `startUpload`, from the first send.
abbrev pub schedule : ℕ → ℕ → ℕ → Schedule
schedule start_timeout start_retransmit first = record {
  start_retransmit = start_retransmit;
  give_up = first + start_timeout;
}

abbrev pub first_start : ℕ → ℕ → Bool → Start
first_start start_retransmit first sent = record {
  resends = 0;
  next_resend = first + start_retransmit;
  last_failed = if sent then false else true;
}

unfoldable pub start_upload : ℕ → ℕ → ℕ → Bool → List Turn → Turned × Start
unfolding turns
start_upload start_timeout start_retransmit first sent ts =
    turns (schedule start_timeout start_retransmit first) ts
      (first_start start_retransmit first sent)
