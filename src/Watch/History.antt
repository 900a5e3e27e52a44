-- ===== src/Watch/History.antt =====
-- Files over time: the scans of internal/watch/watch.go that found one file, newest first. A scan that
-- did not find it and forgot its entry starts the history anew.
use mink_lasso.Base.{ℕ, ◌≤◌, ◌≡◌, ◌⊎◌, Bool, true, false, List, [], ◌∷◌, Option, none, some}
use mink_lasso.Masso.Words.{Bytes}
use mink_lasso.Watch.Entry.{Entry, new_entry, Outcome, nothing, emits, rejects, Options, visit}

-- What one scan found, and the options' answers at that scan.
pub record Sighting : Type 0 where
  pub options : Options
  pub now : ℕ
  pub size : ℕ
  pub mod_time : ℕ

-- A sighting at time u, and all since, have one size and modification time.
abbrev pub Steady : ℕ → ℕ → ℕ → List Sighting → Type 0
Steady s t u [] = ⊥
Steady s t u (x ∷ past) = (x.size ≡ s) × (x.mod_time ≡ t) × ((x.now ≡ u) ⊎ Steady s t u past)

-- The clock does not go back from one scan to the next.
abbrev pub NotAfter : List Sighting → ℕ → Type 0
NotAfter [] u = Unit
NotAfter (x ∷ past) u = x.now ≤ u

abbrev pub InOrder : List Sighting → Type 0
InOrder [] = Unit
InOrder (x ∷ past) = NotAfter past x.now × InOrder past

-- An emission or a rejection in an entry: the content, if there is one.
abbrev pub noted : Bool → ℕ → Option ℕ → Option (ℕ × Option ℕ)
noted false s t = none
noted true s t = some (s, t)

abbrev pub is_some : Option (ℕ × Option ℕ) → Bool
is_some none = false
is_some (some c) = true

abbrev pub emitted_or : Outcome → Option (ℕ × Option ℕ) → Option (ℕ × Option ℕ)
emitted_or nothing c = c
emitted_or (emits f) c = some (f.size, f.mod_time)
emitted_or (rejects r) c = c

abbrev pub rejected_or : Sighting → Outcome → Option (ℕ × Option ℕ) → Option (ℕ × Option ℕ)
rejected_or x nothing c = c
rejected_or x (emits f) c = c
rejected_or x (rejects r) c = some (x.size, some x.mod_time)

module _ (rel_dir name : Bytes) where
  unfoldable pub look : Sighting → Entry → Entry × Outcome
  look x e = visit x.options x.now rel_dir name x.size x.mod_time e

  unfoldable pub tracked : List Sighting → Entry
  tracked [] = new_entry
  tracked (x ∷ past) = (look x (tracked past)).0

  unfoldable pub outcome : Sighting → List Sighting → Outcome
  outcome x past = (look x (tracked past)).1

  -- The content that was last emitted.
  unfoldable pub last_emitted : List Sighting → Option (ℕ × Option ℕ)
  last_emitted [] = none
  last_emitted (x ∷ past) = emitted_or (outcome x past) (last_emitted past)

  -- The content that was last rejected.
  unfoldable pub last_rejected : List Sighting → Option (ℕ × Option ℕ)
  last_rejected [] = none
  last_rejected (x ∷ past) = rejected_or x (outcome x past) (last_rejected past)
