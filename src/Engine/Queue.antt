-- ===== src/Engine/Queue.antt =====
-- internal/engine/scheduler.go: the upload queue. Items are objects that a send holds on to while the
-- map of names may move on, so the heap gives the item at an address, and `rows` is the map. Each
-- function is one critical section of the source; times are in nanoseconds, `none` is the zero time.
pub mod Manual
mod Tests
use mink_lasso.Base.{
  ℕ, suc, ◌+◌, ◌-◌, min, Bool, true, false, not, ◌&&◌, ◌||◌, List, [], ◌∷◌, ◌++◌, Option, none,
  some, leb, ◌==◌, if◌then◌else◌, length, get_or,
}
use mink_lasso.Base.Maps.{bytes_eq, lookup, insert, delete}
use mink_lasso.Masso.Words.{Bytes}
use mink_lasso.Masso.FileName.{is_empty}
use mink_lasso.Masso.Errors.{Error, canceled}
use mink_lasso.Engine.Gate.{Verdict}

pub data TransferState : Type 0 where
  pending waiting sending_now sent failed rejected_file sent_unfiled dropped : TransferState

-- The texts that an item's message is made of: fixed ones, a gate's reason, or one given from outside.
pub data Message : Type 0 where
  waiting_to_send file_vanished no_longer_exists folder_changed : Message
  gate_reason : Verdict → Message
  given : Bytes → Message

unfoldable pub is_retryable : TransferState → Bool
is_retryable failed = true
is_retryable rejected_file = true
is_retryable sent_unfiled = true
is_retryable _ = false

unfoldable pub is_terminal : TransferState → Bool
is_terminal sent = true
is_terminal failed = true
is_terminal rejected_file = true
is_terminal sent_unfiled = true
is_terminal dropped = true
is_terminal _ = false

pub record Item : Type 0 where
  pub name : Bytes
  pub root : Bytes
  pub dir : Bytes
  pub base : Bytes
  pub path : Bytes
  pub size : ℕ
  pub mod_time : ℕ
  pub manual : Bool
  pub state : TransferState
  pub message : Message
  pub fail_count : ℕ
  pub next_attempt : Option ℕ
  pub sending : Bool
  pub resend_after : Bool
  pub orphaned : Bool

-- `s.items` maps names to addresses of the heap; `fresh` is the first address not in use.
pub record Queue : Type 0 where
  pub rows : List (Bytes × ℕ)
  pub heap : ℕ → Item
  pub fresh : ℕ

pub record TransferEvent : Type 0 where
  pub name : Bytes
  pub path : Bytes
  pub size : ℕ
  pub state : TransferState
  pub message : Message
  pub manual : Bool
  pub at : ℕ

-- `event`.
abbrev pub snapshot : ℕ → Item → TransferEvent
snapshot now it = record {
  name = it.name;
  path = it.path;
  size = it.size;
  state = it.state;
  message = it.message;
  manual = it.manual;
  at = now;
}

abbrev pub put : ℕ → Item → Queue → Queue
put a it q = record q { heap = λ b. if b == a then it else q.heap b }

abbrev pub separator : ℕ
separator = 0x5c

-- filepath.Join of a clean folder and a base name, on Windows.
abbrev pub join_path : Bytes → Bytes → Bytes
join_path dir base = if is_empty dir then base else dir ++ separator ∷ base

abbrev pub new_item : Bytes → Item
new_item name = record {
  name = name;
  root = [];
  dir = [];
  base = [];
  path = [];
  size = 0;
  mod_time = 0;
  manual = false;
  state = pending;
  message = given [];
  fail_count = 0;
  next_attempt = none;
  sending = false;
  resend_after = false;
  orphaned = false;
}

abbrev pub place : Bytes → Bytes → Bytes → Item → Item
place root dir base it = record it { root = root; dir = dir; base = base }

abbrev pub add_item : Bytes → Bytes → Bytes → Bytes → Queue → Queue × ℕ
add_item name root dir base q = (
  record (put q.fresh (place root dir base (new_item name)) q) {
    rows = insert name q.fresh q.rows;
    fresh = suc q.fresh;
  },
  q.fresh,
)

-- `itemLocked`: the queue with the item, and its address. An orphan is replaced.
unfoldable pub item_locked : Bytes → Bytes → Bytes → Queue → Queue × ℕ
item_locked root dir base q =
    let name = join_path dir base in
    elim (lookup name q.rows) [
      | none ↦ add_item name root dir base q
      | some a ↦
          if (q.heap a).orphaned
          then add_item name root dir base q
          else (put a (place root dir base (q.heap a)) q, a)
    ]

-- Back to Pending, with no failure on record.
unfoldable pub rearm : Item → Item
rearm it = record it {
  state = pending;
  message = waiting_to_send;
  fail_count = 0;
  next_attempt = none;
}

-- A file that the watcher reports: its path, size and modification time.
pub record File : Type 0 where
  pub path : Bytes
  pub size : ℕ
  pub mod_time : ℕ

abbrev pub has_content : File → Item → Bool
has_content f it = bytes_eq it.path f.path && it.size == f.size && it.mod_time == f.mod_time

abbrev pub take_content : File → Item → Item
take_content f it = record it { path = f.path; size = f.size; mod_time = f.mod_time }

-- What `ready` makes of an item, but for one that a manual send has just as it is.
unfoldable pub refresh : File → Item → Item
refresh f it =
    let it' = take_content f it in
    if it.sending then record it' { resend_after = true } else record (rearm it') { manual = false }

unfoldable pub ready : Bytes → Bytes → Bytes → File → ℕ → Queue → Queue × List TransferEvent
ready root dir base f now q =
    let (q', a) = item_locked root dir base q in
    if (q'.heap a).manual && has_content f (q'.heap a)
    then (q', [])
    else (let it = refresh f (q'.heap a) in (put a it q', snapshot now it ∷ []))

unfoldable pub rejected :
    Bytes → Bytes → Bytes → Bytes → Bytes → ℕ → Queue → Queue × List TransferEvent
rejected root dir base path reason now q =
    let (q', a) = item_locked root dir base q in
    let it = record (q'.heap a) {
      path = path;
      state = rejected_file;
      message = given reason;
      sending = false;
    } in
    (put a it q', snapshot now it ∷ [])

-- `dropLocked`.
unfoldable pub drop_locked : ℕ → Message → ℕ → Queue → Queue × List TransferEvent
drop_locked a m now q =
    let it = q.heap a in
    let q' = record q { rows = delete it.name q.rows } in
    if is_terminal it.state && not (is_retryable it.state)
    then (q', [])
    else (let it' = record it { state = dropped; message = m } in
        (put a it' q', snapshot now it' ∷ []))

-- One round of the loop of `clearNonManual`, on the item at an address.
unfoldable pub clear_item : Bytes → ℕ → ℕ → Queue → Queue × List TransferEvent
clear_item keep now a q =
    let it = q.heap a in
    if it.manual || (not (is_empty keep) && bytes_eq it.root keep)
    then (q, [])
    else if it.sending
    then (put a (record it { orphaned = true }) q, [])
    else drop_locked a folder_changed now q

unfoldable pub clear_all : Bytes → ℕ → List (Bytes × ℕ) → Queue → Queue × List TransferEvent
clear_all keep now [] q = (q, [])
clear_all keep now ((name, a) ∷ rows) q =
    let (q', es) = clear_item keep now a q in
    let (q'', es') = clear_all keep now rows q' in (q'', es ++ es')

unfoldable pub clear_non_manual : Bytes → ℕ → Queue → Queue × List TransferEvent
clear_non_manual keep now q = clear_all keep now q.rows q

unfoldable pub retry : Bytes → ℕ → Queue → Queue × List TransferEvent
retry name now q = elim (lookup name q.rows) [
  | none ↦ (q, [])
  | some a ↦
      if is_retryable (q.heap a).state
      then (let it = rearm (q.heap a) in (put a it q, snapshot now it ∷ []))
      else (q, [])
]

-- What `sendFile` makes of an item.
unfoldable pub make_manual : File → Item → Item
make_manual f it =
    let it' = record (take_content f it) { manual = true } in
    if it.sending
    then record it' { resend_after = if has_content f it then it.resend_after else true }
    else rearm it'

unfoldable pub send_file : Bytes → Bytes → Bytes → File → ℕ → Queue → Queue × List TransferEvent
send_file root dir base f now q =
    let (q', a) = item_locked root dir base q in
    let it = make_manual f (q'.heap a) in (put a it q', snapshot now it ∷ [])

abbrev pub is_canceled : Error → Bool
is_canceled canceled = true
is_canceled _ = false

-- `recordFailure` on the item. The backoff schedule is not empty.
unfoldable pub fail : List ℕ → Error → Bytes → ℕ → Item → Item
fail backoff e msg now it =
    if is_canceled e
    then record it { state = failed; message = given msg; next_attempt = none }
    else record it {
      state = failed;
      message = given msg;
      fail_count = it.fail_count + 1;
      next_attempt = some (now + get_or backoff (min it.fail_count (length backoff - 1)) 0);
    }

-- The test in the loop of `next`.
abbrev pub is_due : Option ℕ → ℕ → Bool
is_due none now = true
is_due (some t) now = leb t now

abbrev pub is_scheduled : Option ℕ → Bool
is_scheduled none = false
is_scheduled (some t) = true

abbrev pub may_start : TransferState → Bool → Bool
may_start pending scheduled = true
may_start waiting scheduled = true
may_start failed scheduled = scheduled
may_start _ scheduled = false

unfoldable pub is_candidate : ℕ → Item → Bool
is_candidate now it =
    may_start it.state (is_scheduled it.next_attempt) && is_due it.next_attempt now
