-- ===== src/Engine/Progress.antt =====
-- internal/engine/dispatcher.go: which of a transfer's progress reports are passed on. Times and intervals are in
-- nanoseconds; sizes are below 2 ^ 32, so that the source's int64 product does not overflow.
use mink_lasso.Base.{
  ℕ, zero, suc, ◌+◌, ◌-◌, ◌*◌, ◌/◌, ◌≤◌, ◌<◌, ◌≡◌, ◌≢◌, ◌↔◌, ◌⊎◌, refl, sym, ap, ◌∙◌, inl, inr,
  Bool, Bool-cases, true, false, not, ◌||◌, List, [], ◌∷◌, ltb, leb, ltb→lt, ◌==◌, if◌then◌else◌,
  arith,
}
pub mod Percent
pub mod View

pub record Coalescer : Type 0 where
  pub interval : ℕ
  pub last_at : ℕ
  -- -1 before the first report in the source, which nothing reads
  pub last_pct : ℕ
  pub has_emitted : Bool

abbrev pub new_coalescer : ℕ → Coalescer
new_coalescer interval = record {
  interval = interval;
  last_at = 0;
  last_pct = 0;
  has_emitted = false;
}

unfoldable pub percent : ℕ → ℕ → ℕ
percent sent total =
    if total == 0 then 0 else if ltb 100 (sent * 100 / total) then 100 else sent * 100 / total

abbrev pub note : ℕ → ℕ → Coalescer → Coalescer
note now pct p = record p { last_at = now; last_pct = pct; has_emitted = true }

unfoldable pub is_due : ℕ → ℕ → Coalescer → Bool
is_due now pct p =
    not p.has_emitted || not (pct / 5 == p.last_pct / 5) || leb p.interval (now - p.last_at)

unfoldable pub allow : ℕ → ℕ → ℕ → Coalescer → Bool × Coalescer
allow now sent total p =
    let pct = percent sent total in
    let due = is_due now pct p in if due then (true, note now pct p) else (false, p)

-- `finish`, which always reports true.
unfoldable pub finish : ℕ → ℕ → ℕ → Coalescer → Bool × Coalescer
finish now sent total p = (true, note now (percent sent total) p)

-- A progress report: its time, the bytes that are sent and those of the whole file.
pub record Report : Type 0 where
  pub now : ℕ
  pub sent : ℕ
  pub total : ℕ

abbrev pub pct_of : Report → ℕ
pct_of r = percent r.sent r.total

-- What send does with a report: the last one is passed on in any case.
unfoldable pub report_progress : Report → Coalescer → Bool × Coalescer
unfolding allow
report_progress r p =
    let (due, p') = allow r.now r.sent r.total p in
    if leb r.total r.sent then finish r.now r.sent r.total p' else (due, p')

-- The coalescer, and the reports that were passed on, the last one first.
pub record Relayed : Type 0 where
  pub coalescer : Coalescer
  pub shown : List Report

unfoldable pub relay : ℕ → List Report → Relayed
relay interval [] = record { coalescer = new_coalescer interval; shown = [] }
relay interval (r ∷ before) =
    let earlier = relay interval before in
    let (emit, p) = report_progress r earlier.coalescer in
    record { coalescer = p; shown = if emit then r ∷ earlier.shown else earlier.shown }
