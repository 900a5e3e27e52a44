-- ===== src/Watch/Tests.antt =====
-- A file that is written over two scans, then settles, in a folder beside one that cannot be listed.
use mink_lasso.Base.{
  ℕ, ◌+◌, ◌≤◌, ◌≡◌, ◌≢◌, ◌⊎◌, refl, inl, true, false, List, [], ◌∷◌, Option, none, some, arith,
  if◌then◌else◌,
}
use mink_lasso.Base.Maps.{lookup, member, bytes_eq}
use mink_lasso.Masso.Words.{Bytes}
use mink_lasso.Watch.Names.{has_suffix, ext, skipped_name, walked_dir, is_candidate_name}
use mink_lasso.Watch.Entry.{
  new_entry, update_entry, File, Rejected, emits, rejects, Options, settle, judge, visit,
}
use mink_lasso.Watch.History.{
  Sighting, Steady, is_some, look, tracked, outcome, last_emitted, last_rejected,
}
use mink_lasso.Watch.Scan.{
  regular, Listing, end, file_entry, dir_entry, Walk, under_any, scan, entry_or_new,
}
use mink_lasso.Watch.Found.{Found, found, blocked}
use mink_lasso.Watch.Settling.{emits-Settled, emits_once, rejects-Settled}
use mink_lasso.Watch.Reporting.{settled_reports}
use mink_lasso.Watch.Remembering.{has_key, scan-tracked, scan-forgets}

-- "a.nc"
abbrev name : Bytes
name = b'a' ∷ b'.' ∷ b'n' ∷ b'c' ∷ []

abbrev options : Options
options = record { settle = 10; join = λ d n. n; validate = λ d n. none; probe = λ p. some false }

-- "bad"
abbrev reason : Bytes
reason = b'b' ∷ b'a' ∷ b'd' ∷ []

abbrev strict : Options
strict = record options { validate = λ d n. some reason }

abbrev at : Options → ℕ → ℕ → Sighting
at o now size = record { options = o; now = now; size = size; mod_time = 7 }

-- Seen at one size, then twice at another.
abbrev past : List Sighting
past = at options 20 5 ∷ at options 10 3 ∷ []

abbrev sent : File
sent = record { name = name; dir = []; path = name; size = 5; mod_time = some 7; changed = false }

abbrev refused : Rejected
refused = record { name = name; dir = []; path = name; reason = reason }

emits_sent : outcome [] name (at options 30 5) past ≡ emits sent
unfolding outcome tracked look visit judge settle update_entry
emits_sent = refl

rejects_refused : outcome [] name (at strict 30 5) past ≡ rejects refused
unfolding outcome tracked look visit judge settle update_entry
rejects_refused = refl

never_emitted : last_emitted [] name past ≡ none
unfolding last_emitted outcome tracked look visit judge settle update_entry
never_emitted = refl

never_rejected : last_rejected [] name past ≡ none
unfolding last_rejected outcome tracked look visit judge settle update_entry
never_rejected = refl

emits-Settled_example :
    ((u : ℕ) × Steady 5 7 u past × (u + 10 ≤ 30))
    × (◌≡◌ {A = ℕ} 5 5)
    × (◌≡◌ {A = Option ℕ} (some 7) (some 7))
    × (options.validate [] name ≡ none)
    × (options.probe name ≡ some false)
emits-Settled_example = emits-Settled [] name (at options 30 5) past sent emits_sent

emits_once_example :
    (last_emitted [] name past ≢ some (5, some 7)) × (false ≡ is_some (last_emitted [] name past))
emits_once_example = emits_once [] name (at options 30 5) past sent emits_sent

rejects-Settled_example :
    ((u : ℕ) × Steady 5 7 u past × (u + 10 ≤ 30))
    × (some reason ≡ some reason)
    × (last_rejected [] name past ≢ some (5, some 7))
rejects-Settled_example = rejects-Settled [] name (at strict 30 5) past refused rejects_refused

not_there : (o : Option (ℕ × Option ℕ)) → o ≡ none → o ≡ some (5, some 7) → ⊥
not_there o p q = cc

settled_reports_example :
    ((f : File) × (options.validate [] name ≡ none)
      × (outcome [] name (at options 30 5) past ≡ emits f))
    ⊎ ((r : Rejected) × (options.validate [] name ≡ some r.reason)
        × (outcome [] name (at options 30 5) past ≡ rejects r))
settled_reports_example =
    settled_reports [] name (at options 30 5) past
      (20, (omega arith, (omega arith, (tt, tt))), (refl, refl, inl refl), omega arith)
      (λ e. not_there (last_emitted [] name past) never_emitted e)
      (λ e. not_there (last_rejected [] name past) never_rejected e) refl

-- '/'
abbrev walk : Walk
walk = record { options = options; exts = (b'.' ∷ b'n' ∷ b'c' ∷ []) ∷ []; sep = b'/'; now = 30 }

-- "s"
abbrev locked : Bytes
locked = b's' ∷ []

abbrev top : Listing
top = dir_entry locked true false false end (file_entry name (regular 5 7) end)

abbrev here : Found
here = record { dir = []; name = name; info = regular 5 7 }

finds_here : found walk [] top ≡ here ∷ []
unfolding found is_candidate_name walked_dir skipped_name has_suffix ext member bytes_eq
finds_here = refl

absent_nil : has_key walk name [] ≡ false
unfolding has_key
absent_nil = refl

known : entry_or_new (lookup name ((name, tracked [] name past) ∷ [])) ≡ tracked [] name past
unfolding lookup bytes_eq
known = refl

scan-tracked_example :
    lookup name (scan walk (some top) ((name, tracked [] name past) ∷ [])).0
    ≡ some (tracked [] name (at options 30 5 ∷ past))
scan-tracked_example =
    scan-tracked walk top ((name, tracked [] name past) ∷ []) [] [] here 5 7 past finds_here
      (record { before = absent_nil; after = absent_nil }) refl known

-- "s/b"
abbrev hidden_key : Bytes
hidden_key = b's' ∷ b'/' ∷ b'b' ∷ []

not_found : has_key walk hidden_key (found walk [] top) ≡ false
unfolding has_key bytes_eq found is_candidate_name walked_dir skipped_name has_suffix ext member
not_found = refl

scan-forgets_example : lookup hidden_key (scan walk (some top) ((hidden_key, new_entry) ∷ [])).0 ≡ (
    if under_any b'/' hidden_key (blocked walk [] top)
    then lookup hidden_key ((hidden_key, new_entry) ∷ [])
    else none)
scan-forgets_example = scan-forgets walk top ((hidden_key, new_entry) ∷ []) hidden_key not_found
