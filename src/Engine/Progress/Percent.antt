-- ===== src/Engine/Progress/Percent.antt =====
-- internal/engine/dispatcher.go: the percentage of an upload.
use native.Mathlib.Nat.{le-div_iff_mul-le, div-mul-le_self}
use mink_lasso.Base.{ℕ, zero, suc, ◌*◌, ◌/◌, ◌≤◌, ◌<◌, ◌≡◌, ◌↔◌, arith}
use mink_lasso.Engine.Progress.{percent}

hundred : (sent total : ℕ) → 0 < total → (100 ≤ sent * 100 / total) ↔ (total ≤ sent)
hundred sent total pos =
    let (there, back) = le-div_iff_mul-le {k = total} {x = 100} {y = sent * 100} pos in
    (λ h. omega (arith, there h), λ h. back (omega arith))

quotients :
    (sent more total : ℕ) → sent ≤ more → 0 < total → sent * 100 / total ≤ more * 100 / total
quotients sent more total h pos =
    (le-div_iff_mul-le {k = total} {x = sent * 100 / total} {y = more * 100} pos).1
      (omega (arith, div-mul-le_self (sent * 100) total))

-- A percentage is at most 100, and 100 exactly where at least all bytes of a file that has some are sent; and
-- it does not fall when more bytes are sent.
pub percent-bounds :
    (sent more total : ℕ)
    → sent ≤ more
    → (percent sent total ≤ 100)
      × ((0 < total × total ≤ sent) ↔ (percent sent total ≡ 100))
      × (percent sent total ≤ percent more total)
unfolding percent
percent-bounds sent more zero h =
    (omega arith, (λ (pos, all). omega arith, λ e. omega arith), omega arith)
percent-bounds sent more (suc k) h =
    let full = hundred sent (suc k) (omega arith) in
    let rises = quotients sent more (suc k) h (omega arith) in
    (
      ground arith,
      (
        λ (pos, all). let most = full.1 all in ground arith,
        λ e. (omega arith, full.0 (let whole = e in ground arith)),
      ),
      ground arith,
    )
