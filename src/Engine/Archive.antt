-- ===== src/Engine/Archive.antt =====
-- internal/engine/archive.go: the move of a sent file into the sent folder. The files of the disk are a
-- dictionary from paths. Any call of the file system may fail, as an argument decides by its number; a
-- rename that works takes the place of a file at its goal.
pub mod Moves
pub mod Outcome
pub mod Backup
mod Tests
use mink_lasso.Base.{
  ℕ, zero, suc, ◌+◌, ◌-◌, ◌/◌, ◌%◌, Bool, true, false, not, ◌&&◌, ◌||◌, Option, none, some, List,
  [], ◌∷◌, ◌++◌, length, take, ltb, ◌==◌, if◌then◌else◌,
}
use mink_lasso.Base.Maps.{lookup, insert, delete}
use mink_lasso.Base.Decimal.{decimal}
use mink_lasso.Masso.Words.{Bytes}
use mink_lasso.Watch.Names.{sent_dir}
use mink_lasso.Engine.Queue.{Item, TransferState, sent, sent_unfiled}

-- What Stat tells of a file, and what the file holds.
pub record Stored : Type 0 where
  pub size : ℕ
  pub mod_time : ℕ
  pub content : Bytes

pub record World : Type 0 where
  pub disk : List (Bytes × Stored)
  pub calls : ℕ

abbrev pub count_call : World → World
count_call w = record w { calls = w.calls + 1 }

-- The answer of Stat: the file, that there is none, or another error.
pub data Stat : Type 0 where
  there : Stored → Stat
  absent unknown : Stat

abbrev pub stat_of : Option Stored → Stat
stat_of none = absent
stat_of (some f) = there f

-- How the calls fail, and what the scheduler's options and clock give. `join` is filepath.Join, and
-- `stamp` the time of a backup, formatted.
pub record Platform : Type 0 where
  pub fails : ℕ → Bool
  pub join : List Bytes → Bytes
  pub separator : ℕ
  pub stamp : Bytes
  pub move_retries : ℕ

-- `unending` is a loop of `uniqueBackupName` that has used up its fuel.
pub data MoveEnd : Type 0 where
  moved move_failed unending : MoveEnd

-- What the sending goroutine sent.
pub record Source : Type 0 where
  pub root : Bytes
  pub dir : Bytes
  pub base : Bytes
  pub path : Bytes
  pub size : ℕ
  pub mod_time : ℕ

-- One attempt: that the wait before it was not cut short, and the item as it is then.
pub record Retry : Type 0 where
  pub waited : Bool
  pub item : Item

-- How `archiveSent` ends: the first three report the file as sent, and `unfiled` as sent but not filed.
pub data Filing : Type 0 where
  filed left_to_operator changed unfiled endless : Filing

-- The state that setTerminal is given.
unfoldable pub filing_state : Filing → Option TransferState
filing_state filed = some sent
filing_state left_to_operator = some sent
filing_state changed = some sent
filing_state unfiled = some sent_unfiled
filing_state endless = none

abbrev pub after_move : MoveEnd × World → (World → Filing × World) → Filing × World
after_move (moved, w) again = (filed, w)
after_move (move_failed, w) again = again w
after_move (unending, w) again = (endless, w)

module _ (p : Platform) where
  unfoldable pub stat : Bytes → World → Stat
  stat path w = if p.fails w.calls then unknown else stat_of (lookup path w.disk)

  unfoldable pub renamed :
      Bytes → Bytes → Option Stored → List (Bytes × Stored) → Option (List (Bytes × Stored))
  renamed from to none d = none
  renamed from to (some f) d = some (insert to f (delete from d))

  -- `none` is an error, after which nothing has changed.
  unfoldable pub rename : Bytes → Bytes → World → Option (List (Bytes × Stored))
  unfolding renamed
  rename from to w = if p.fails w.calls then none else renamed from to (lookup from w.disk) w.disk

  -- The last element of a path has a dot.
  abbrev pub has_dot : Bytes → Bool
  has_dot [] = false
  has_dot (c ∷ s) = c == b'.' || c == p.separator || has_dot s

  -- filepath.Ext.
  unfoldable pub path_ext : Bytes → Bytes
  path_ext [] = []
  path_ext (c ∷ s) = if c == b'.' && not (has_dot s) then c ∷ s else path_ext s

  -- The name of a backup: the first has no number.
  unfoldable pub candidate : Bytes → ℕ → Bytes
  unfolding path_ext
  candidate dest n =
      let ext = path_ext dest in
      let base = take (length dest - length ext) dest in
      if n == 0
      then base ++ b'.' ∷ (p.stamp ++ ext)
      else base ++ b'.' ∷ (p.stamp ++ b'-' ∷ (decimal (suc n) n ++ ext))

  abbrev pub is_absent : Stat → Bool
  is_absent absent = true
  is_absent (there f) = false
  is_absent unknown = false

  -- The loop of `uniqueBackupName` from a number, on fuel: only a confirmed absence makes a name usable.
  unfoldable pub unique_backup_name : ℕ → Bytes → ℕ → World → Option Bytes × World
  unfolding stat candidate
  unique_backup_name zero dest n w = (none, w)
  unique_backup_name (suc fuel) dest n w =
      let others = unique_backup_name fuel dest (n + 1) (count_call w) in
      if is_absent (stat (candidate dest n) w)
      then (some (candidate dest n), count_call w)
      else others

  abbrev pub finish_move : World → Option (List (Bytes × Stored)) → MoveEnd × World
  finish_move w none = (move_failed, count_call w)
  finish_move w (some d) = (moved, record { disk = d; calls = w.calls + 1 })

  -- The rename of the sent file, which comes last.
  unfoldable pub move_file : Bytes → Bytes → World → MoveEnd × World
  unfolding rename
  move_file dest path w = finish_move w (rename path dest w)

  abbrev pub after_backup : Bytes → Bytes → World → Option (List (Bytes × Stored)) → MoveEnd × World
  after_backup dest path w none = (move_failed, count_call w)
  after_backup dest path w (some d) = move_file dest path (record { disk = d; calls = w.calls + 1 })

  unfoldable pub back_up : Bytes → Bytes → Option Bytes × World → MoveEnd × World
  unfolding rename
  back_up dest path (none, w) = (unending, w)
  back_up dest path (some backup, w) = after_backup dest path w (rename dest backup w)

  -- `moveIntoSent`. Folders are not files, so MkdirAll changes nothing here.
  unfoldable pub move_into_sent : ℕ → Bytes → Bytes → World → MoveEnd × World
  unfolding move_file back_up unique_backup_name stat
  move_into_sent fuel dest path w =
      let w₁ = count_call w in
      let w₂ = count_call w₁ in
      if p.fails w.calls
      then (move_failed, w₁)
      else if is_absent (stat dest w₁)
      then move_file dest path w₂
      else back_up dest path (unique_backup_name fuel dest 0 w₂)

  unfoldable pub file_if_same :
      ℕ → Source → Bytes → Stat → World → (World → Filing × World) → Filing × World
  unfolding move_into_sent
  file_if_same fuel src dest absent w again = again w
  file_if_same fuel src dest unknown w again = again w
  file_if_same fuel src dest (there f) w again =
      if not (f.size == src.size) || not (f.mod_time == src.mod_time)
      then (changed, w)
      else after_move (move_into_sent fuel dest src.path w) again

  -- The attempts from one with a number on, with a count of those left.
  unfoldable pub archive_from : ℕ → Source → Bytes → (ℕ → Retry) → ℕ → ℕ → World → Filing × World
  unfolding file_if_same stat
  archive_from fuel src dest tries zero i w = (unfiled, w)
  archive_from fuel src dest tries (suc n) i w =
      if ltb 0 i && not (tries i).waited
      then (unfiled, w)
      else if (tries i).item.manual || (tries i).item.resend_after
      then (left_to_operator, w)
      else file_if_same fuel src dest (stat src.path w) (count_call w)
          (archive_from fuel src dest tries n (i + 1))

  -- The path at which the file is to stand.
  abbrev pub archive_path : Source → Bytes
  archive_path src = p.join (p.join (src.root ∷ sent_dir ∷ src.dir ∷ []) ∷ src.base ∷ [])

  -- `archiveSent`.
  unfoldable pub archive_sent : ℕ → Source → (ℕ → Retry) → World → Filing × World
  unfolding archive_from
  archive_sent fuel src tries w =
      archive_from fuel src (archive_path src) tries (p.move_retries + 1) 0 w
