-- ===== src/Ui/Transfers.antt =====
-- internal/ui/model/apply.go and format.go: the table of transfers. A row is the event that it was made of; the
-- texts of its columns are left out. The order in which Go goes through the map does not matter.
pub mod Deleting
pub mod Eviction
pub mod Shown
mod Tests
use mink_lasso.Base.{
  ℕ, zero, suc, Bool, true, false, not, ◌&&◌, ◌||◌, Option, none, some, List, [], ◌∷◌, length, ltb,
  ◌==◌, if◌then◌else◌,
}
use mink_lasso.Base.Maps.{bytes_eq, lookup, insert, delete}
use mink_lasso.Masso.Words.{Bytes}
use mink_lasso.Watch.Scan.{bytes_lt}
use mink_lasso.Engine.Queue.{
  TransferState, pending, waiting, sending_now, sent, failed, rejected_file, sent_unfiled, dropped,
  Message, folder_changed, waiting_to_send, file_vanished, no_longer_exists, gate_reason, given,
  is_terminal, TransferEvent,
}

abbrev pub Rows : Type 0
Rows = List (Bytes × TransferEvent)

-- A balloon's kind; its texts are made of the event's.
pub data Balloon : Type 0 where
  info problem : Balloon

-- The parts of the window that a transfer event may change.
pub record Changes : Type 0 where
  pub transfers : Bool
  pub watch : Bool
  pub tray : Bool
  pub balloon : Option Balloon

abbrev pub is_pending : TransferState → Bool
is_pending pending = true
is_pending waiting = true
is_pending _ = false

unfoldable pub pending_count : Rows → ℕ
pending_count [] = 0
pending_count ((name, row) ∷ rows) =
    let rest = pending_count rows in
    if not row.manual && is_pending row.state then suc rest else rest

-- The older of a row and the oldest one so far, by name where they have the same time.
abbrev pub older_row : Bytes → ℕ → Option (Bytes × ℕ) → Option (Bytes × ℕ)
older_row name at none = some (name, at)
older_row name at (some (name', at')) =
    if ltb at at' || at == at' && bytes_lt name name' then some (name, at) else some (name', at')

abbrev pub candidate_row : Bytes → TransferEvent → Option (Bytes × ℕ) → Option (Bytes × ℕ)
candidate_row name row best = if is_terminal row.state then older_row name row.at best else best

unfoldable pub oldest_terminal : Option (Bytes × ℕ) → Rows → Option (Bytes × ℕ)
oldest_terminal best [] = best
oldest_terminal best ((name, row) ∷ rows) = oldest_terminal (candidate_row name row best) rows

abbrev pub without_oldest : Option (Bytes × ℕ) → Rows → Option Rows
without_oldest none rows = none
without_oldest (some (name, at)) rows = some (delete name rows)

-- A turn of the loop: the rows without the oldest terminal one, or the end of the loop.
unfoldable pub evict_turn : ℕ → Rows → Option Rows
evict_turn limit rows =
    if ltb limit (length rows) then without_oldest (oldest_terminal none rows) rows else none

-- `evictOldestTerminal`, on fuel.
unfoldable pub evict_oldest_terminal : ℕ → ℕ → Rows → Rows
unfolding evict_turn
evict_oldest_terminal zero limit rows = rows
evict_oldest_terminal (suc fuel) limit rows = elim (evict_turn limit rows) [
  | none ↦ rows
  | some rows' ↦ evict_oldest_terminal fuel limit rows'
]

abbrev pub has_row : Option TransferEvent → Bool
has_row none = false
has_row (some row) = true

unfoldable pub put_row : ℕ → TransferEvent → Rows → Rows
put_row limit ev rows =
    let rows' = insert ev.name ev rows in
    if has_row (lookup ev.name rows)
    then rows'
    else evict_oldest_terminal (length rows') limit rows'

abbrev pub is_folder_changed : Message → Bool
is_folder_changed folder_changed = true
is_folder_changed _ = false

abbrev pub balloon_of : TransferState → Message → Option Balloon
balloon_of sent message = some info
balloon_of failed message = some problem
balloon_of rejected_file message = some problem
balloon_of sent_unfiled message = some problem
balloon_of dropped message = if is_folder_changed message then none else some problem
balloon_of _ message = none

unfoldable pub apply_transfer_event : ℕ → TransferEvent → Rows → Rows × Changes
apply_transfer_event limit ev rows =
    let rows' = put_row limit ev rows in
    let moved = not (pending_count rows' == pending_count rows) in
    (
      rows',
      record {
        transfers = true;
        watch = moved;
        tray = moved;
        balloon = balloon_of ev.state ev.message;
      },
    )

-- The table after events, the last one first.
unfoldable pub table : ℕ → List TransferEvent → Rows
table limit [] = []
table limit (ev ∷ before) = (apply_transfer_event limit ev (table limit before)).0

-- The specification: the latest event about a name.
unfoldable pub latest_of : Bytes → List TransferEvent → Option TransferEvent
latest_of name [] = none
latest_of name (ev ∷ before) =
    let earlier = latest_of name before in if bytes_eq ev.name name then some ev else earlier
