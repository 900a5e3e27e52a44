-- ===== src/Masso/Upload/Window.antt =====
-- The timing of internal/masso/upload.go: how long a chunk stays unacknowledged before it is sent
-- again.
use mink_lasso.Base.{ℕ, ◌≤◌, arith}
use mink_lasso.Masso.Upload.{retransmit_timeout, smooth_rtt, min_rto, max_rto}

-- The retransmit timeout lies between 40 and 250 ms, and does not fall when the estimate rises.
pub retransmit_timeout-bounds :
    (s t : ℕ)
    → s ≤ t
    → (min_rto ≤ retransmit_timeout s)
      × (retransmit_timeout s ≤ retransmit_timeout t)
      × (retransmit_timeout t ≤ max_rto)
unfolding retransmit_timeout
retransmit_timeout-bounds s t h = omega arith

-- A new estimate lies between the old one and the sample.
pub smooth_rtt-between :
    (srtt sample low high : ℕ)
    → low ≤ srtt
    → low ≤ sample
    → srtt ≤ high
    → sample ≤ high
    → (low ≤ smooth_rtt srtt sample) × (smooth_rtt srtt sample ≤ high)
unfolding smooth_rtt
smooth_rtt-between srtt sample low high h k p q = omega arith
