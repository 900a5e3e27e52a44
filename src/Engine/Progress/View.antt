-- ===== src/Engine/Progress/View.antt =====
-- internal/engine/dispatcher.go: what the reports that are passed on say of those that are not.
use mink_lasso.Base.{
  ℕ, ◌+◌, ◌-◌, ◌/◌, ◌≤◌, ◌<◌, ◌≡◌, ◌≢◌, ◌⊎◌, refl, sym, ap, ◌∙◌, inl, inr, Bool, Bool-cases, true,
  false, ◌||◌, List, [], ◌∷◌, leb, if◌then◌else◌, arith,
}
use mink_lasso.Engine.Progress.{
  Coalescer, note, is_due, allow, finish, Report, pct_of, report_progress, Relayed, relay,
}

-- What the coalescer remembers of the reports that were passed on.
abbrev Remembers : Coalescer → List Report → Type 0
Remembers p [] = p.has_emitted ≡ false
Remembers p (q ∷ older) = (p.has_emitted ≡ true) × (p.last_at ≡ q.now) × (p.last_pct ≡ pct_of q)

-- Two reports that are passed on in succession, the later one first.
pub record Apart (interval : ℕ) (q q' : Report) : Type 0 where
  differ : (pct_of q / 5 ≢ pct_of q' / 5) ⊎ ((q'.now + interval ≤ q.now) ⊎ (q.total ≤ q.sent))

abbrev pub Spaced : ℕ → List Report → Type 0
Spaced interval [] = Unit {0}
Spaced interval (q ∷ []) = Unit {0}
Spaced interval (q ∷ q' ∷ older) = Apart interval q q' × Spaced interval (q' ∷ older)

-- The reader's view when `r` is the latest report.
pub record Current (interval : ℕ) (r : Report) (shown : List Report) : Type 0 where
  pub view : Report
  pub older : List Report
  pub shown_last : shown ≡ view ∷ older
  pub same_step : pct_of view / 5 ≡ pct_of r / 5
  pub recent : r.now < view.now + interval
  pub last_shown : r.total ≤ r.sent → view ≡ r

abbrev emits : Report → Coalescer → Bool
emits r p = leb r.total r.sent || is_due r.now (pct_of r) p

report_progress_lem :
    (r : Report) (p : Coalescer)
    → report_progress r p ≡ (if emits r p then (true, note r.now (pct_of r) p) else (false, p))
unfolding report_progress allow finish
report_progress_lem r p = elim (Bool-cases (leb r.total r.sent)) [
  | inl q ↦ elim (Bool-cases (is_due r.now (pct_of r) p)) [
    | inl q' ↦ rw (q, q') refl
    | inr q' ↦ rw (q, q') refl
  ]
  | inr q ↦ elim (Bool-cases (is_due r.now (pct_of r) p)) [
    | inl q' ↦ rw (q, q') refl
    | inr q' ↦ rw (q, q') refl
  ]
]

record Kept (interval : ℕ) (s : Relayed) : Type 0 where
  constant : s.coalescer.interval ≡ interval
  remembers : Remembers s.coalescer s.shown
  spaced : Spaced interval s.shown

abbrev step : Report → Relayed → Relayed
step r s =
    if emits r s.coalescer
    then record { coalescer = note r.now (pct_of r) s.coalescer; shown = r ∷ s.shown }
    else s

relay_lem :
    (interval : ℕ) (r : Report) (before : List Report)
    → relay interval (r ∷ before) ≡ step r (relay interval before)
unfolding relay
relay_lem interval r before =
    let s = relay interval before in
    rw (report_progress_lem r s.coalescer)
      (elim (Bool-cases (emits r s.coalescer)) [ inl q ↦ rw q refl | inr q ↦ rw q refl ])

emits_why :
    (r : Report) (p : Coalescer)
    → emits r p ≡ true
    → p.has_emitted ≡ true
    → (pct_of r / 5 ≢ p.last_pct / 5) ⊎ ((p.interval ≤ r.now - p.last_at) ⊎ (r.total ≤ r.sent))
unfolding is_due
emits_why r p e h = ground arith

emits_not :
    (r : Report) (p : Coalescer)
    → emits r p ≡ false
    → (p.has_emitted ≡ true)
      × (p.last_pct / 5 ≡ pct_of r / 5)
      × (r.now - p.last_at < p.interval)
      × (r.sent < r.total)
unfolding is_due
emits_not r p e = (ground arith, ground arith, ground arith, ground arith)

shown-Spaced :
    (interval : ℕ) (r : Report) (p : Coalescer) (shown : List Report)
    → 0 < interval
    → p.interval ≡ interval
    → emits r p ≡ true
    → Remembers p shown
    → Spaced interval shown
    → Spaced interval (r ∷ shown)
shown-Spaced interval r p [] pos c e h k = tt
shown-Spaced interval r p (q ∷ older) pos c e (on, at, pct) k = (
  record {
    differ = elim (emits_why r p e on) [
      | inl n ↦ inl (λ same. n (same ∙ ap (λ (t : ℕ). t / 5) (sym pct)))
      | inr (inl w) ↦ inr (inl (omega arith))
      | inr (inr w) ↦ inr (inr w)
    ];
  },
  k,
)

Next : ℕ → Report → Relayed → Type 0
Next interval r s = Kept interval s × Current interval r s.shown

passed_on :
    (interval : ℕ) (r : Report) (s : Relayed)
    → 0 < interval
    → Kept interval s
    → emits r s.coalescer ≡ true
    → Next interval r
        (record { coalescer = note r.now (pct_of r) s.coalescer; shown = r ∷ s.shown })
unfolding Next
passed_on interval r s pos h e = (
  record {
    constant = h.constant;
    remembers = (refl, refl, refl);
    spaced = shown-Spaced interval r s.coalescer s.shown pos h.constant e h.remembers h.spaced;
  },
  record {
    view = r;
    older = s.shown;
    shown_last = refl;
    same_step = refl;
    recent = omega arith;
    last_shown = λ finished. refl;
  },
)

too_late : {a b : ℕ} → a ≤ b → b < a → ⊥
too_late h k = omega arith

held_back :
    (interval : ℕ) (r : Report) (p : Coalescer) (shown : List Report)
    → p.interval ≡ interval
    → emits r p ≡ false
    → Remembers p shown
    → Current interval r shown
held_back interval r p [] c e h = let on = (emits_not r p e).0 in cc
held_back interval r p (q ∷ older) c e (on, at, pct) =
    let (still, same, soon, unfinished) = emits_not r p e in
    record {
      view = q;
      older = older;
      shown_last = refl;
      same_step = ap (λ (t : ℕ). t / 5) (sym pct) ∙ same;
      recent = omega arith;
      last_shown = λ finished. elim (too_late finished unfinished) [ ];
    }

step-Next :
    (b : Bool) (interval : ℕ) (r : Report) (s : Relayed)
    → 0 < interval
    → Kept interval s
    → emits r s.coalescer ≡ b
    → Next interval r (
        if b
        then record { coalescer = note r.now (pct_of r) s.coalescer; shown = r ∷ s.shown }
        else s)
unfolding Next
step-Next true interval r s pos h e = passed_on interval r s pos h e
step-Next false interval r s pos h e =
    (h, held_back interval r s.coalescer s.shown h.constant e h.remembers)

relay-Kept :
    (interval : ℕ) (reports : List Report) → 0 < interval → Kept interval (relay interval reports)
unfolding relay Next
relay-Kept interval [] pos = record { constant = refl; remembers = refl; spaced = tt }
relay-Kept interval (r ∷ before) pos =
    let s = relay interval before in
    rw (relay_lem interval r before)
      (step-Next (emits r s.coalescer) interval r s pos (relay-Kept interval before pos) refl).0

-- With a positive interval, whatever the times and sizes of a transfer's progress reports are: after each
-- report `r`, the last report that was passed on has the same twentieth of the file as `r`, is less
-- than the interval older than `r`, and is `r` itself where the transfer is complete. And of two reports
-- that are passed on in succession, the later one has another twentieth, comes at least the interval
-- later, or completes the transfer.
pub relay-Current :
    (interval : ℕ) (r : Report) (before : List Report)
    → 0 < interval
    → Current interval r (relay interval (r ∷ before)).shown
      × Spaced interval (relay interval (r ∷ before)).shown
unfolding Next
relay-Current interval r before pos =
    let s = relay interval before in
    let kept = relay-Kept interval before pos in
    rw (relay_lem interval r before) (
      let (h, current) = step-Next (emits r s.coalescer) interval r s pos kept refl in
      (current, h.spaced))
