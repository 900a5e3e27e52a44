-- ===== src/Masso/Upload/Tests.antt =====
-- The sender's theorems at inputs that meet their hypotheses.
use mink_lasso.Base.{[], arith}
use mink_lasso.Masso.Upload.{Job, init, round, passes, eof}
use mink_lasso.Masso.Upload.Invariant.{Inv, Keeps, round-Inv, init-Inv}

abbrev job : Job
job = record { reader = λ off want. ([], eof); size = 3000; stall_timeout = 2_000_000_000 }

round-Inv_example : Keeps (Inv job) (round job (λ _. 8) (passes 9) (init 7)).0
round-Inv_example = round-Inv job (λ _. 8) (passes 9) (init 7) (init-Inv job 7 (omega arith))
