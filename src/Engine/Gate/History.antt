-- ===== src/Engine/Gate/History.antt =====
-- The verdict of the gate of internal/engine/gate.go against the history of what it was told.
use mink_lasso.Base.{
  ℕ, ◌<◌, ◌≡◌, ◌≢◌, ◌⊎◌, inl, inr, refl, Bool, true, false, List, [], ◌∷◌, Bool-cases,
}
use mink_lasso.Masso.Reply.{Status}
use mink_lasso.Engine.Gate.{
  Gate, connected, disconnected, set_upload_while_machining, update_status, expires,
}

-- A call of the gate, or the expiry of its timer, at a time. A status may take until `now` to
-- reach the verdict.
pub data Call : Type 0 where
  connects disconnects expiry : Call
  allows : Bool → Call
  reports : Status → (now : ℕ) → Call

unfoldable pub apply : ℕ → Call → Gate → Gate
apply t connects g = connected t g
apply t disconnects g = disconnected t g
apply t expiry g = expires t g
apply t (allows v) g = set_upload_while_machining v t g
apply t (reports s now) g = update_status s t now g

-- What has happened, the latest first.
abbrev pub History : Type 0
History = List (ℕ × Call)

unfoldable pub run : Gate → History → Gate
run g [] = g
run g ((t, c) ∷ past) = apply t c (run g past)

-- What a status says of the machine: it runs a job or waits for the operator, it does neither, and
-- it has a job that stopped midway.
abbrev pub IsBusy : Status → Type 0
IsBusy s = (s.running ≡ true) ⊎ (s.waiting_for_operator ≡ true)

abbrev pub IsIdle : Status → Type 0
IsIdle s = (s.running ≡ false) × (s.waiting_for_operator ≡ false)

abbrev pub IsMidway : Status → Type 0
IsMidway s = (0 < s.progress) × (s.progress < 100)

IsBusy-cases : (s : Status) → IsBusy s ⊎ IsIdle s
IsBusy-cases s = elim (Bool-cases s.running) [
  | inl runs ↦ inl (inl runs)
  | inr stands ↦ elim (Bool-cases s.waiting_for_operator) [
    | inl waits ↦ inl (inr waits)
    | inr free ↦ inr (stands, free)
  ]
]

-- Nothing says that the machine is idle: the last word of the controller is that it is busy, or it
-- has not reported since the connection was lost.
abbrev pub NotIdle : History → Type 0
NotIdle [] = Unit
NotIdle ((t, connects) ∷ past) = NotIdle past
NotIdle ((t, disconnects) ∷ past) = Unit
NotIdle ((t, expiry) ∷ past) = NotIdle past
NotIdle ((t, allows v) ∷ past) = NotIdle past
NotIdle ((t, reports s now) ∷ past) = IsBusy s

-- The machine was first reported idle at `u`, and every report since says the same, over one
-- connection.
abbrev pub IdleFrom : ℕ → History → Type 0
IdleFrom u [] = ⊥
IdleFrom u ((t, connects) ∷ past) = IdleFrom u past
IdleFrom u ((t, disconnects) ∷ past) = ⊥
IdleFrom u ((t, expiry) ∷ past) = IdleFrom u past
IdleFrom u ((t, allows v) ∷ past) = IdleFrom u past
IdleFrom u ((t, reports s now) ∷ past) = IsIdle s × (((t ≡ u) × NotIdle past) ⊎ IdleFrom u past)

-- And the job stopped midway at `u`, with no report of 0 or 100 percent since.
abbrev pub PausedFrom : ℕ → History → Type 0
PausedFrom u [] = ⊥
PausedFrom u ((t, connects) ∷ past) = PausedFrom u past
PausedFrom u ((t, disconnects) ∷ past) = ⊥
PausedFrom u ((t, expiry) ∷ past) = PausedFrom u past
PausedFrom u ((t, allows v) ∷ past) = PausedFrom u past
PausedFrom u ((t, reports s now) ∷ past) =
    IsIdle s
    × (((t ≡ u) × NotIdle past × IsMidway s)
        ⊎ (PausedFrom u past × (s.progress ≢ 0) × (s.progress ≢ 100)))

-- A history has an idle machine or it has not.
pub history_cases : (past : History) → NotIdle past ⊎ ((u : ℕ) × IdleFrom u past)
history_cases [] = inl tt
history_cases ((t, connects) ∷ past) = history_cases past
history_cases ((t, disconnects) ∷ past) = inl tt
history_cases ((t, expiry) ∷ past) = history_cases past
history_cases ((t, allows v) ∷ past) = history_cases past
history_cases ((t, reports s now) ∷ past) = elim (IsBusy-cases s) [
  | inl busy ↦ inl busy
  | inr idle ↦ elim (history_cases past) [
    | inl before ↦ inr (t, (idle, inl (refl, before)))
    | inr (u, since) ↦ inr (u, (idle, inr since))
  ]
]

pub PausedFrom-IdleFrom : (u : ℕ) (past : History) → PausedFrom u past → IdleFrom u past
PausedFrom-IdleFrom u [] h = h
PausedFrom-IdleFrom u ((t, connects) ∷ past) h = PausedFrom-IdleFrom u past h
PausedFrom-IdleFrom u ((t, disconnects) ∷ past) h = h
PausedFrom-IdleFrom u ((t, expiry) ∷ past) h = PausedFrom-IdleFrom u past h
PausedFrom-IdleFrom u ((t, allows v) ∷ past) h = PausedFrom-IdleFrom u past h
PausedFrom-IdleFrom u ((t, reports s now) ∷ past) (idle, inl (e, before, partial)) =
    (idle, inl (e, before))
PausedFrom-IdleFrom u ((t, reports s now) ∷ past) (idle, inr (since, some_done, all_done)) =
    (idle, inr (PausedFrom-IdleFrom u past since))
