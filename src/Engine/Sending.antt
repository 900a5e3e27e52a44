-- ===== src/Engine/Sending.antt =====
-- internal/engine/scheduler.go: how the scheduler's goroutine picks an item, and what it makes of the
-- outcome of a send. The upload, the archive and the log are outside: their results are arguments.
pub mod Deadline
pub mod Outcomes
pub mod Order
mod Tests
use mink_lasso.Base.{
  ℕ, suc, ◌+◌, ◌-◌, min, Bool, true, false, not, ◌&&◌, ◌||◌, List, [], ◌∷◌, ◌++◌, Option, none,
  some, ltb, leb, ◌==◌, if◌then◌else◌, get_or, length, map,
}
use Prim.Native.Nat.{Ordering, compare}
use mink_lasso.Base.Maps.{bytes_eq, lookup}
use mink_lasso.Masso.Words.{Bytes}
use mink_lasso.Masso.FileName.{is_empty}
use mink_lasso.Masso.Errors.{Error, bad_file_name, bad_upload_dir, canceled}
use mink_lasso.Engine.Gate.{Verdict, verdict_eq, is_open}
use mink_lasso.Engine.Queue.{
  TransferState, pending, waiting, sent, failed, rejected_file, Message, waiting_to_send,
  file_vanished, no_longer_exists, folder_changed, gate_reason, given, Item, Queue, TransferEvent,
  snapshot, put, rearm, drop_locked, fail, is_candidate,
}

-- strings.Compare.
unfoldable pub compare_bytes : Bytes → Bytes → Ordering
compare_bytes [] [] = Ordering.eq
compare_bytes [] (y ∷ ys) = Ordering.lt
compare_bytes (x ∷ xs) [] = Ordering.gt
compare_bytes (x ∷ xs) (y ∷ ys) =
    let rest = compare_bytes xs ys in
    if ltb x y then Ordering.lt else if ltb y x then Ordering.gt else rest

-- Manual sends come first, then the order is by modification time and name.
unfoldable pub compare_items : Item → Item → Ordering
compare_items a b =
    if a.manual && not b.manual
    then Ordering.lt
    else if b.manual && not a.manual
    then Ordering.gt
    else if ltb a.mod_time b.mod_time
    then Ordering.lt
    else if ltb b.mod_time a.mod_time
    then Ordering.gt
    else compare_bytes a.name b.name

-- slices.SortFunc of items at addresses, by `compareItems`.
abbrev pub is_after : Ordering → Bool
is_after Ordering.lt = false
is_after Ordering.eq = false
is_after Ordering.gt = true

unfoldable pub insert_sorted : (ℕ → Item) → ℕ → List ℕ → List ℕ
insert_sorted heap a [] = a ∷ []
insert_sorted heap a (b ∷ bs) =
    let rest = insert_sorted heap a bs in
    if is_after (compare_items (heap a) (heap b)) then b ∷ rest else a ∷ b ∷ bs

unfoldable pub sort_items : (ℕ → Item) → List ℕ → List ℕ
sort_items heap [] = []
sort_items heap (a ∷ more) = insert_sorted heap a (sort_items heap more)

unfoldable pub candidates : ℕ → (ℕ → Item) → List (Bytes × ℕ) → List ℕ
candidates now heap [] = []
candidates now heap ((name, a) ∷ rows) =
    let rest = candidates now heap rows in if is_candidate now (heap a) then a ∷ rest else rest

abbrev pub message_is_reason : Message → Verdict → Bool
message_is_reason (gate_reason u) v = verdict_eq u v
message_is_reason _ v = false

abbrev pub is_waiting : TransferState → Bool
is_waiting waiting = true
is_waiting _ = false

-- The case of a closed gate: what is not yet reported as waiting for its reason is.
unfoldable pub report_waiting : Verdict → ℕ → List ℕ → Queue → Queue × List TransferEvent
report_waiting v now [] q = (q, [])
report_waiting v now (a ∷ more) q =
    let it = q.heap a in
    if is_waiting it.state && message_is_reason it.message v
    then report_waiting v now more q
    else (let it' = record it { state = waiting; message = gate_reason v } in
        let (q', es) = report_waiting v now more (put a it' q) in (q', snapshot now it' ∷ es))

-- The open gate's case: the first candidate is marked and sent.
abbrev pub take_first : List ℕ → Queue → Queue × Option ℕ
take_first [] q = (q, none)
take_first (a ∷ more) q = (put a (record (q.heap a) { sending = true }) q, some a)

abbrev pub no_choice : Queue × List TransferEvent → (Queue × Option ℕ) × List TransferEvent
no_choice (q, es) = ((q, none), es)

unfoldable pub next : Verdict → ℕ → Queue → (Queue × Option ℕ) × List TransferEvent
next v now q =
    let sorted = sort_items q.heap (candidates now q.heap q.rows) in
    if not (is_open v) then no_choice (report_waiting v now sorted q) else (take_first sorted q, [])

abbrev pub is_row : Option ℕ → ℕ → Bool
is_row none a = false
is_row (some b) a = b == a

-- `supersededLocked`: the row of an orphan belongs to its replacement, or to none.
unfoldable pub is_superseded : ℕ → Queue → Bool
is_superseded a q = (q.heap a).orphaned && not (is_row (lookup (q.heap a).name q.rows) a)

-- `dropOrphanLocked`.
unfoldable pub drop_orphan : ℕ → ℕ → Queue → Queue × List TransferEvent
drop_orphan a now q = if is_superseded a q then (q, []) else drop_locked a folder_changed now q

-- `recordFailure`.
unfoldable pub record_failure : List ℕ → Error → Bytes → ℕ → ℕ → Queue → Queue × List TransferEvent
record_failure backoff e msg now a q =
    let it = fail backoff e msg now (q.heap a) in
    let q' = put a it q in (q', if is_superseded a q' then [] else snapshot now it ∷ [])

-- `setTerminal` of archive.go.
unfoldable pub set_terminal : TransferState → Bytes → ℕ → ℕ → Queue → Queue × List TransferEvent
set_terminal state msg now a q =
    let it = record (q.heap a) { state = state; message = given msg } in
    let q' = put a it q in (q', if is_superseded a q' then [] else snapshot now it ∷ [])

-- The first critical section of `finishSend`: whether to send again, as far as is known.
unfoldable pub finish_begin : ℕ → Queue → Queue × Bool
finish_begin a q = (put a (record (q.heap a) { resend_after = false }) q, (q.heap a).resend_after)

-- The last one. `resend` is what the first gave, and `success` whether the upload succeeded.
unfoldable pub finish_end : Bool → Bool → ℕ → ℕ → Queue → Queue × List TransferEvent
finish_end resend success now a q =
    let it = q.heap a in
    let settled = record it { resend_after = false; sending = false } in
    let q' = put a settled q in
    if (resend || it.resend_after) && success
    then if it.orphaned
      then drop_orphan a now q'
      else (put a (rearm settled) q', snapshot now (rearm settled) ∷ [])
    else if it.orphaned
    then drop_orphan a now q'
    else (q', [])

-- The error of `openForSend`, as far as `preflightFailed` tells errors apart.
pub data OpenError : Type 0 where
  bad_name not_exist other : OpenError

abbrev pub is_not_exist : OpenError → Bool
is_not_exist not_exist = true
is_not_exist _ = false

abbrev pub is_bad_name : OpenError → Bool
is_bad_name bad_name = true
is_bad_name _ = false

unfoldable pub preflight_failed :
    List ℕ → OpenError → Bytes → ℕ → ℕ → Queue → Queue × List TransferEvent
preflight_failed backoff e msg now a q =
    let it = q.heap a in
    let settled = record it { sending = false; resend_after = false } in
    let q' = put a settled q in
    if it.orphaned
    then drop_orphan a now q'
    else if is_bad_name e
    then (let it' = record settled {
      state = rejected_file;
      message = given msg;
      next_attempt = none;
    } in
        (put a it' q', snapshot now it' ∷ []))
    else if is_not_exist e && not it.resend_after
    then drop_locked a (if is_empty it.root then no_longer_exists else file_vanished) now q'
    else (let it' = record settled {
      state = pending;
      message = waiting_to_send;
      next_attempt = some (now + get_or backoff 0 0);
    } in
        (put a it' q', snapshot now it' ∷ []))
