-- ===== src/Engine/Gate/Machine.antt =====
-- What the gate of internal/engine/gate.go remembers of its history.
use mathlib.Core.Path.{subst}
use mink_lasso.Base.{
  ℕ, ◌≡◌, ◌⊎◌, inl, inr, refl, ◌∙◌, ap, Bool, true, false, not, ◌||◌, none, some, ◌==◌,
  if◌then◌else◌, [], ◌∷◌, arith, Bool-cases,
}
use mink_lasso.Masso.Reply.{Status}
use mink_lasso.Engine.Gate.{
  Gate, signal_ready, reschedule, connected, disconnected, set_upload_while_machining, is_partial,
  fold_status, update_status, expires,
}
use mink_lasso.Engine.Gate.History.{
  connects, disconnects, expiry, allows, reports, IsBusy, IsIdle, apply, History, run, NotIdle,
  IdleFrom, PausedFrom, PausedFrom-IdleFrom,
}

-- The fields that a status changes are the same.
record SameMachine (g h : Gate) : Type 0 where
  have_status : h.have_status ≡ g.have_status
  busy : h.busy ≡ g.busy
  idle_since : h.idle_since ≡ g.idle_since
  paused_at : h.paused_at ≡ g.paused_at

SameMachine-reschedule : (now : ℕ) (g : Gate) → SameMachine g (reschedule now g)
unfolding reschedule signal_ready
SameMachine-reschedule now g = record {
  have_status = ground arith;
  busy = ground arith;
  idle_since = ground arith;
  paused_at = ground arith;
}

SameMachine-connected : (t : ℕ) (g : Gate) → SameMachine g (connected t g)
unfolding connected
SameMachine-connected t g =
    let same = SameMachine-reschedule t (record g { is_connected = true }) in
    record {
      have_status = same.have_status;
      busy = same.busy;
      idle_since = same.idle_since;
      paused_at = same.paused_at;
    }

SameMachine-expires : (t : ℕ) (g : Gate) → SameMachine g (expires t g)
unfolding expires
SameMachine-expires t g =
    let same = SameMachine-reschedule t (record g { timer = none }) in
    record {
      have_status = same.have_status;
      busy = same.busy;
      idle_since = same.idle_since;
      paused_at = same.paused_at;
    }

SameMachine-allows :
    (v : Bool) (t : ℕ) (g : Gate) → SameMachine g (set_upload_while_machining v t g)
unfolding set_upload_while_machining
SameMachine-allows v t g =
    let same = SameMachine-reschedule t (record g { upload_while_machining = v }) in
    record {
      have_status = same.have_status;
      busy = same.busy;
      idle_since = same.idle_since;
      paused_at = same.paused_at;
    }

-- What is known of those fields: nothing idle, or idle since `u`, perhaps paused then.
abbrev pub Unidle : Gate → Type 0
Unidle g = (not g.have_status || g.busy) ≡ true

pub record IdleAt (u : ℕ) (g : Gate) : Type 0 where
  pub have_status : g.have_status ≡ true
  pub busy : g.busy ≡ false
  pub idle_since : g.idle_since ≡ some u
  pub paused_at : (g.paused_at ≡ none) ⊎ (g.paused_at ≡ some u)

Unidle-same : (g h : Gate) → SameMachine g h → Unidle g → Unidle h
Unidle-same g h same k = ground (arith, same.have_status, same.busy, k)

IdleAt-same : (u : ℕ) (g h : Gate) → SameMachine g h → IdleAt u g → IdleAt u h
IdleAt-same u g h same k = record {
  have_status = same.have_status ∙ k.have_status;
  busy = same.busy ∙ k.busy;
  idle_since = same.idle_since ∙ k.idle_since;
  paused_at = elim k.paused_at [
    | inl unpaused ↦ inl (same.paused_at ∙ unpaused)
    | inr paused ↦ inr (same.paused_at ∙ paused)
  ];
}

disconnected-Unidle : (t : ℕ) (g : Gate) → Unidle (disconnected t g)
unfolding disconnected reschedule signal_ready
disconnected-Unidle t g = ground arith

reports-busy : (s : Status) (t now : ℕ) (g : Gate) → IsBusy s → Unidle (update_status s t now g)
unfolding update_status fold_status reschedule signal_ready
reports-busy s t now g (inl runs) = ground (arith, runs)
reports-busy s t now g (inr waits) = ground (arith, waits)

-- What the gate makes of a report of an idle machine.
record Idles (s : Status) (t : ℕ) (g h : Gate) : Type 0 where
  have_status : h.have_status ≡ true
  busy : h.busy ≡ false
  idle_since : h.idle_since ≡ (if g.busy || not g.have_status then some t else g.idle_since)
  paused_at : h.paused_at ≡ (
      if g.busy || not g.have_status
      then (if is_partial s then some t else none)
      else if s.progress == 0 || s.progress == 100
      then none
      else g.paused_at)

fold-Idles :
    (s : Status) (t : ℕ) (g : Gate)
    → IsIdle s
    → Idles s t g (record (fold_status s t g) { have_status = true; status = s })
unfolding fold_status
fold-Idles s t g (stands, free) = record {
  have_status = refl;
  busy = ground (arith, stands, free);
  idle_since = ground (arith, stands, free);
  paused_at = ground (arith, stands, free);
}

reports-Idles :
    (s : Status) (t now : ℕ) (g : Gate) → IsIdle s → Idles s t g (update_status s t now g)
unfolding update_status
reports-Idles s t now g e =
    let same =
      SameMachine-reschedule now (record (fold_status s t g) { status = s; have_status = true }) in
    let folded = fold-Idles s t g e in
    record {
      have_status = same.have_status;
      busy = same.busy ∙ folded.busy;
      idle_since = same.idle_since ∙ folded.idle_since;
      paused_at = same.paused_at ∙ folded.paused_at;
    }

begins-IdleAt : (s : Status) (t : ℕ) (g h : Gate) → Idles s t g h → Unidle g → IdleAt t h
begins-IdleAt s t g h m k =
    let begins : (g.busy || not g.have_status) ≡ true = ground (arith, k) in
    record {
      have_status = m.have_status;
      busy = m.busy;
      idle_since = rw (m.idle_since, begins) refl;
      paused_at = elim (Bool-cases (is_partial s)) [
        | inl partial ↦ inr (rw (m.paused_at, begins, partial) refl)
        | inr whole ↦ inl (rw (m.paused_at, begins, whole) refl)
      ];
    }

stays-IdleAt : (s : Status) (t u : ℕ) (g h : Gate) → Idles s t g h → IdleAt u g → IdleAt u h
stays-IdleAt s t u g h m k =
    let stays : (g.busy || not g.have_status) ≡ false = ground (arith, k.have_status, k.busy) in
    record {
      have_status = m.have_status;
      busy = m.busy;
      idle_since = rw (m.idle_since, stays) k.idle_since;
      paused_at = elim (Bool-cases (s.progress == 0 || s.progress == 100)) [
        | inl over ↦ inl (rw (m.paused_at, stays, over) refl)
        | inr midway ↦ rw (m.paused_at, stays, midway) k.paused_at
      ];
    }

-- The fields against the history, from a gate that has had no status.
module _ (g₀ : Gate) (fresh : g₀.have_status ≡ false) where
  pub run-Unidle : (past : History) → NotIdle past → Unidle (run g₀ past)
  unfolding run apply
  run-Unidle [] h = ground (arith, fresh)
  run-Unidle ((t, connects) ∷ past) h =
      Unidle-same (run g₀ past) (connected t (run g₀ past)) (SameMachine-connected t (run g₀ past))
        (run-Unidle past h)
  run-Unidle ((t, disconnects) ∷ past) h = disconnected-Unidle t (run g₀ past)
  run-Unidle ((t, expiry) ∷ past) h =
      Unidle-same (run g₀ past) (expires t (run g₀ past)) (SameMachine-expires t (run g₀ past))
        (run-Unidle past h)
  run-Unidle ((t, allows v) ∷ past) h =
      Unidle-same (run g₀ past) (set_upload_while_machining v t (run g₀ past))
        (SameMachine-allows v t (run g₀ past)) (run-Unidle past h)
  run-Unidle ((t, reports s now) ∷ past) h = reports-busy s t now (run g₀ past) h

  pub run-IdleAt : (u : ℕ) (past : History) → IdleFrom u past → IdleAt u (run g₀ past)
  unfolding run apply
  run-IdleAt u [] h = absurd h
  run-IdleAt u ((t, connects) ∷ past) h =
      IdleAt-same u (run g₀ past) (connected t (run g₀ past))
        (SameMachine-connected t (run g₀ past)) (run-IdleAt u past h)
  run-IdleAt u ((t, disconnects) ∷ past) h = absurd h
  run-IdleAt u ((t, expiry) ∷ past) h =
      IdleAt-same u (run g₀ past) (expires t (run g₀ past)) (SameMachine-expires t (run g₀ past))
        (run-IdleAt u past h)
  run-IdleAt u ((t, allows v) ∷ past) h =
      IdleAt-same u (run g₀ past) (set_upload_while_machining v t (run g₀ past))
        (SameMachine-allows v t (run g₀ past)) (run-IdleAt u past h)
  run-IdleAt u ((t, reports s now) ∷ past) (idle, inl (e, before)) =
      subst (λ (v : ℕ). IdleAt v (update_status s t now (run g₀ past))) e
        (begins-IdleAt s t (run g₀ past) (update_status s t now (run g₀ past))
          (reports-Idles s t now (run g₀ past) idle) (run-Unidle past before))
  run-IdleAt u ((t, reports s now) ∷ past) (idle, inr since) =
      stays-IdleAt s t u (run g₀ past) (update_status s t now (run g₀ past))
        (reports-Idles s t now (run g₀ past) idle) (run-IdleAt u past since)

  pub run-paused_at :
      (u : ℕ) (past : History) → PausedFrom u past → (run g₀ past).paused_at ≡ some u
  unfolding run apply
  run-paused_at u [] h = absurd h
  run-paused_at u ((t, connects) ∷ past) h =
      (SameMachine-connected t (run g₀ past)).paused_at ∙ run-paused_at u past h
  run-paused_at u ((t, disconnects) ∷ past) h = absurd h
  run-paused_at u ((t, expiry) ∷ past) h =
      (SameMachine-expires t (run g₀ past)).paused_at ∙ run-paused_at u past h
  run-paused_at u ((t, allows v) ∷ past) h =
      (SameMachine-allows v t (run g₀ past)).paused_at ∙ run-paused_at u past h
  run-paused_at u ((t, reports s now) ∷ past) (idle, inl (e, before, partial)) =
      let m = reports-Idles s t now (run g₀ past) idle in
      let before_it = run-Unidle past before in
      let begins : ((run g₀ past).busy || not (run g₀ past).have_status) ≡ true =
        ground (arith, before_it) in
      let midway : is_partial s ≡ true = ground (arith, partial.0, partial.1) in
      m.paused_at ∙ rw (begins, midway) (ap some e)
  run-paused_at u ((t, reports s now) ∷ past) (idle, inr (since, some_done, all_done)) =
      let m = reports-Idles s t now (run g₀ past) idle in
      let at_u = run-IdleAt u past (PausedFrom-IdleFrom u past since) in
      let stays : ((run g₀ past).busy || not (run g₀ past).have_status) ≡ false =
        ground (arith, at_u.have_status, at_u.busy) in
      let midway : (s.progress == 0 || s.progress == 100) ≡ false = ground arith in
      m.paused_at ∙ rw (stays, midway) (run-paused_at u past since)
