-- ===== src/Watch/Scan.antt =====
-- `scan` of internal/watch/watch.go: one walk of the watched folder. What the file system answers during
-- the walk is a tree; `sep` is the separator of paths.
use mink_lasso.Base.{
  ℕ, Bool, true, false, not, ◌&&◌, Option, none, some, List, [], ◌∷◌, ◌++◌, ltb, ◌==◌,
  if◌then◌else◌,
}
use mink_lasso.Base.Maps.{lookup, insert, member}
use mink_lasso.Masso.Words.{Bytes}
use mink_lasso.Masso.Reply.{starts_with}
use mink_lasso.Watch.Names.{walked_dir, is_candidate_name}
use mink_lasso.Watch.Entry.{
  Entry, new_entry, File, Rejected, Outcome, nothing, emits, rejects, Options, visit,
}

-- What a file's information says: none, if it has vanished.
pub data Info : Type 0 where
  vanished : Info
  irregular : Info
  regular : (size mod_time : ℕ) → Info

-- The entries that a folder lists. A subfolder comes with the answers that the walk gets when it is
-- there: that the context is not done, that it is hidden, that it can be listed, and its own entries.
pub data Listing : Type 0 where
  end : Listing
  file_entry : (name : Bytes) (info : Info) (others : Listing) → Listing
  dir_entry : (name : Bytes) (live hidden listed : Bool) (inside others : Listing) → Listing

pub record ScanState : Type 0 where
  pub entries : List (Bytes × Entry)
  pub seen : List Bytes
  pub unlisted : List Bytes
  pub to_emit : List File
  pub to_reject : List Rejected

-- `filepath.Join` of a relative folder and a name.
abbrev pub join_rel : ℕ → Bytes → Bytes → Bytes
join_rel sep [] name = name
join_rel sep (c ∷ dir) name = (c ∷ dir) ++ sep ∷ name

abbrev pub entry_or_new : Option Entry → Entry
entry_or_new none = new_entry
entry_or_new (some e) = e

abbrev pub add_outcome : Outcome → ScanState → ScanState
add_outcome nothing st = st
add_outcome (emits f) st = record st { to_emit = st.to_emit ++ f ∷ [] }
add_outcome (rejects r) st = record st { to_reject = st.to_reject ++ r ∷ [] }

-- The parameters of a walk.
pub record Walk : Type 0 where
  pub options : Options
  pub exts : List Bytes
  pub sep : ℕ
  pub now : ℕ

abbrev pub see : Bytes → ScanState → ScanState
see key st = record st { seen = key ∷ st.seen }

-- The loop's body for a candidate.
unfoldable pub scan_candidate : Walk → Bytes → Bytes → Info → ScanState → ScanState
scan_candidate w rel_dir name vanished st = see (join_rel w.sep rel_dir name) st
scan_candidate w rel_dir name irregular st = st
scan_candidate w rel_dir name (regular size mod_time) st =
    let key = join_rel w.sep rel_dir name in
    let (e, out) =
      visit w.options w.now rel_dir name size mod_time (entry_or_new (lookup key st.entries)) in
    add_outcome out (record st { seen = key ∷ st.seen; entries = insert key e st.entries })

-- The loop's body for an entry that is no folder.
unfoldable pub scan_file : Walk → Bytes → Bytes → Info → ScanState → ScanState
unfolding scan_candidate
scan_file w rel_dir name info st =
    if is_candidate_name w.exts name then scan_candidate w rel_dir name info st else st

-- `scanDir` and `scanSubdir`.
unfoldable pub scan_dir : Walk → Bytes → Listing → ScanState → ScanState
unfolding scan_file
scan_dir w rel_dir end st = st
scan_dir w rel_dir (file_entry name info others) st =
    scan_dir w rel_dir others (scan_file w rel_dir name info st)
scan_dir w rel_dir (dir_entry name live hidden listed inside others) st =
    let sub = join_rel w.sep rel_dir name in
    let walked = scan_dir w sub inside st in
    scan_dir w rel_dir others (
      if live && walked_dir rel_dir name && not hidden
      then if listed then walked else record st { unlisted = st.unlisted ++ sub ∷ [] }
      else st)

-- `underAny`.
unfoldable pub under_any : ℕ → Bytes → List Bytes → Bool
under_any sep key [] = false
under_any sep key (d ∷ dirs) =
    if starts_with key (d ++ sep ∷ []) then true else under_any sep key dirs

-- The entries that were neither seen nor out of sight are deleted.
unfoldable pub forget_unseen :
    ℕ → List Bytes → List Bytes → List (Bytes × Entry) → List (Bytes × Entry)
forget_unseen sep seen unlisted [] = []
forget_unseen sep seen unlisted ((key, e) ∷ entries) =
    let kept = forget_unseen sep seen unlisted entries in
    if not (member key seen) && not (under_any sep key unlisted) then kept else (key, e) ∷ kept

-- strings.Compare, as a test for less than.
unfoldable pub bytes_lt : Bytes → Bytes → Bool
bytes_lt s [] = false
bytes_lt [] (d ∷ t) = true
bytes_lt (c ∷ s) (d ∷ t) = if c == d then bytes_lt s t else ltb c d

-- time.Time.Compare: the zero time is before all others.
abbrev pub time_lt : Option ℕ → Option ℕ → Bool
time_lt t none = false
time_lt none (some u) = true
time_lt (some t) (some u) = ltb t u

-- The two orders of slices.SortFunc.
unfoldable pub emit_before : File → File → Bool
unfolding bytes_lt
emit_before a b =
    if time_lt a.mod_time b.mod_time
    then true
    else if time_lt b.mod_time a.mod_time
    then false
    else bytes_lt a.path b.path

abbrev pub reject_before : Rejected → Rejected → Bool
reject_before a b = bytes_lt a.path b.path

module _ {A : Type 0} (before : A → A → Bool) where
  -- A new element stands after those that come before it.
  unfoldable pub put_in_order : A → List A → List A
  put_in_order a [] = a ∷ []
  put_in_order a (b ∷ bs) =
      let later = put_in_order a bs in if before b a then b ∷ later else a ∷ b ∷ bs

  unfoldable pub sort : List A → List A
  unfolding put_in_order
  sort [] = []
  sort (a ∷ bs) = put_in_order a (sort bs)

-- `scan`, up to the delivery: `none` is an error of ReadDir for the watched folder.
unfoldable pub scan :
    Walk → Option Listing → List (Bytes × Entry) → List (Bytes × Entry) × List File × List Rejected
unfolding scan_dir forget_unseen emit_before sort
scan w none entries = (entries, [], [])
scan w (some top) entries =
    let st =
      scan_dir w [] top
        (record { entries = entries; seen = []; unlisted = []; to_emit = []; to_reject = [] }) in
    (
      forget_unseen w.sep st.seen st.unlisted st.entries,
      sort emit_before st.to_emit,
      sort reject_before st.to_reject,
    )
