-- ===== src/Client/ToolTable.antt =====
-- What `Tools` of internal/masso/client.go collects, whatever the rest of the program does.
use mink_lasso.Base.{ℕ, ◌+◌, ◌%◌, ◌≤◌, ◌≡◌, true, false, List, [], ◌∷◌, length, arith}
use mink_lasso.Masso.Errors.{Result, ok, err}
use mink_lasso.Masso.FileName.{is_empty}
use mink_lasso.Masso.Reply.{Identity, ToolRecord, Reply, max_tools}
use mink_lasso.Client.State.{Client}
use mink_lasso.Client.Exchange.{Call, Tools, matches_tool}
use mink_lasso.Client.Connecting.{Proper}

-- The records of consecutive tools, from an index on, all with a name.
abbrev pub Rows : ℕ → List ToolRecord → Type 0
Rows i [] = Unit
Rows i (r ∷ rs) = (r.index ≡ i) × (is_empty r.name ≡ false) × Rows (i + 1) rs

pub max_tools-bound : (r : Identity) → max_tools r ≤ 118
unfolding max_tools
max_tools-bound r = ground arith

-- The table that a call of `Tools` gives.
record Table (max : ℕ) (k : Call Tools) : Type 0 where
  rows : Rows 1 k.result.tools
  few : length k.result.tools ≤ max
  proper : Proper k.result.error

abbrev Collected : ℕ → ℕ → List ToolRecord → Type 0
Collected max i out = Rows 1 out × (1 + length out ≡ i) × (length out ≤ max)

-- A reply to the query for one tool.
abbrev Matched : (max i : ℕ) → Result Reply → Type 0
Matched max i (err e) = Unit
Matched max i (ok r) = matches_tool (i % 256) r ≡ true
