-- ===== src/Watch/Entry.antt =====
-- The bookkeeping of internal/watch/watch.go for one file: `entry`, `updateEntry` and `settle`. Times
-- are in nanoseconds, and `none` is the zero time.
use mink_lasso.Base.{
  ℕ, ◌+◌, Bool, true, false, ◌&&◌, ◌||◌, Option, none, some, ltb, ◌==◌, if◌then◌else◌,
}
use mink_lasso.Masso.Words.{Bytes}

pub record Entry : Type 0 where
  pub size : ℕ
  pub mod_time : Option ℕ
  pub stable_since : ℕ
  pub stable_scans : ℕ
  pub emitted : Bool
  pub emitted_size : ℕ
  pub emitted_mod_time : Option ℕ
  pub rejected : Bool
  pub rejected_size : ℕ
  pub rejected_mod_time : Option ℕ

abbrev pub new_entry : Entry
new_entry = record {
  size = 0;
  mod_time = none;
  stable_since = 0;
  stable_scans = 0;
  emitted = false;
  emitted_size = 0;
  emitted_mod_time = none;
  rejected = false;
  rejected_size = 0;
  rejected_mod_time = none;
}

-- time.Time.Equal.
abbrev pub same_time : Option ℕ → Option ℕ → Bool
same_time none none = true
same_time (some t) none = false
same_time none (some u) = false
same_time (some t) (some u) = t == u

-- `updateEntry`, on the entry of a file that was found with a size and modification time.
unfoldable pub update_entry : ℕ → ℕ → ℕ → Entry → Entry
update_entry size mod_time now e =
    if e.size == size && same_time e.mod_time (some mod_time)
    then record e { stable_scans = e.stable_scans + 1 }
    else record e { size = size; mod_time = some mod_time; stable_since = now; stable_scans = 1 }

pub record File : Type 0 where
  pub name : Bytes
  pub dir : Bytes
  pub path : Bytes
  pub size : ℕ
  pub mod_time : Option ℕ
  pub changed : Bool

pub record Rejected : Type 0 where
  pub name : Bytes
  pub dir : Bytes
  pub path : Bytes
  pub reason : Bytes

pub data Outcome : Type 0 where
  nothing : Outcome
  emits : File → Outcome
  rejects : Rejected → Outcome

-- The options that `scanDir` and `settle` read. `validate` gives a reason to reject, and `probe` no
-- answer for an error.
pub record Options : Type 0 where
  pub settle : ℕ
  pub join : Bytes → Bytes → Bytes
  pub validate : Bytes → Bytes → Option Bytes
  pub probe : Bytes → Option Bool

-- A probe that fails counts as busy.
abbrev pub probes_busy : Option Bool → Bool
probes_busy none = true
probes_busy (some b) = b

abbrev pub settle_checked : Options → Bytes → Bytes → Option Bytes → Entry → Entry × Outcome
settle_checked o rel_dir name (some reason) e = (
  record e { rejected = true; rejected_size = e.size; rejected_mod_time = e.mod_time },
  rejects (record { name = name; dir = rel_dir; path = o.join rel_dir name; reason = reason }),
)
settle_checked o rel_dir name none e =
    if probes_busy (o.probe (o.join rel_dir name)) then (e, nothing) else (
      record e { emitted = true; emitted_size = e.size; emitted_mod_time = e.mod_time },
      emits (record {
        name = name;
        dir = rel_dir;
        path = o.join rel_dir name;
        size = e.size;
        mod_time = e.mod_time;
        changed = e.emitted;
      }),
    )

-- `settle`: validation comes first.
unfoldable pub settle : Options → Bytes → Bytes → Entry → Entry × Outcome
settle o rel_dir name e = settle_checked o rel_dir name (o.validate rel_dir name) e

abbrev pub is_emitted : Entry → Bool
is_emitted e = e.emitted && e.emitted_size == e.size && same_time e.emitted_mod_time e.mod_time

abbrev pub is_rejected : Entry → Bool
is_rejected e = e.rejected && e.rejected_size == e.size && same_time e.rejected_mod_time e.mod_time

-- Too few scans, or too little time, with one content.
abbrev pub is_unsettled : ℕ → ℕ → Entry → Bool
is_unsettled window now e = ltb e.stable_scans 2 || ltb now (e.stable_since + window)

-- The rest of the loop's body in `scanDir`, once the entry is updated.
unfoldable pub judge : Options → ℕ → Bytes → Bytes → Entry → Entry × Outcome
judge o now rel_dir name e =
    if is_emitted e
    then (e, nothing)
    else if is_rejected e
    then (e, nothing)
    else if is_unsettled o.settle now e
    then (e, nothing)
    else settle o rel_dir name e

-- A candidate that was found, from the entry that it had.
unfoldable pub visit : Options → ℕ → Bytes → Bytes → ℕ → ℕ → Entry → Entry × Outcome
visit o now rel_dir name size mod_time e =
    judge o now rel_dir name (update_entry size mod_time now e)
