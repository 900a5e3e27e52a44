-- ===== src/Masso/Upload.antt =====
-- internal/masso/upload.go: the sender of an upload. Times and durations are in nanoseconds.
pub mod Window
pub mod Invariant
mod Tests
use mink_lasso.Base.{
  ℕ, zero, suc, ◌+◌, ◌-◌, ◌*◌, ◌/◌, ◌%◌, ◌^◌, min, max, Bool, true, false, ◌&&◌, ◌||◌, List, [],
  ◌∷◌, ◌++◌, Option, none, some, ltb, leb, ◌==◌, if◌then◌else◌, length, take, map,
}
use mink_lasso.Masso.Errors.{Error, no_response, read_failed, transfer_open, Result, ok, err}
use mink_lasso.Masso.Words.{Bytes}
use mink_lasso.Masso.Request.{max_chunk_data, upload_chunk}
use mink_lasso.Masso.Reply.{ChunkAck, chunk_ack_err, start_ack_err, start_already_started}

abbrev pub initial_srtt : ℕ
initial_srtt = 60_000_000

abbrev pub min_rto : ℕ
min_rto = 40_000_000

abbrev pub max_rto : ℕ
max_rto = 250_000_000

abbrev pub max_window : ℕ
max_window = 2

abbrev pub clean_streak_to_open : ℕ
clean_streak_to_open = 3

unfoldable pub retransmit_timeout : ℕ → ℕ
retransmit_timeout srtt = min (max (2 * srtt) min_rto) max_rto

unfoldable pub smooth_rtt : ℕ → ℕ → ℕ
smooth_rtt srtt sample = (3 * srtt + sample) / 4

-- The error of an io.ReaderAt's ReadAt.
pub data ReadEnd : Type 0 where
  no_error eof failed : ReadEnd

abbrev pub is_failed : ReadEnd → Bool
is_failed failed = true
is_failed _ = false

-- `ReadAt` on a buffer of a given size at a given offset: the bytes read, and the error.
abbrev pub Reader : Type 0
Reader = ℕ → ℕ → Bytes × ReadEnd

-- A short read, or an error other than io.EOF with a full one, fails.
unfoldable pub read_chunk : Reader → ℕ → ℕ → Result Bytes
read_chunk r index size =
    let want = min (size - index * max_chunk_data) max_chunk_data in
    let (got, end) = r (index * max_chunk_data) want in
    if ltb (length got) want || is_failed end
    then err read_failed
    else upload_chunk (index % 2 ^ 32) (take want got)

pub record InflightChunk : Type 0 where
  pub pkt : Bytes
  pub sent_at : ℕ
  pub retransmitted : Bool

-- The variables of `sendChunks` that change.
pub record Sender : Type 0 where
  pub accepted : ℕ
  pub next : ℕ
  pub window : ℕ
  pub streak : ℕ
  pub srtt : ℕ
  pub last_activity : ℕ
  pub flight : List InflightChunk

-- What `sendChunks` does not change: the reader, the file's size and the stall window.
pub record Job : Type 0 where
  pub reader : Reader
  pub size : ℕ
  pub stall_timeout : ℕ

abbrev pub total_chunks : ℕ → ℕ
total_chunks size = (size + max_chunk_data - 1) / max_chunk_data

unfoldable pub init : ℕ → Sender
init start_ack_at = record {
  accepted = 0;
  next = 0;
  window = 1;
  streak = 0;
  srtt = initial_srtt;
  last_activity = start_ack_at;
  flight = [];
}

-- Where the loop stands: it goes on, it has returned, or it has indexed an empty slice.
pub data Outcome : Type 0 where
  running : Sender → Outcome
  finished : Result (Unit {0}) → Outcome
  panicked : Outcome

-- A datagram handed to the socket, or a call of the progress callback with the bytes sent.
pub data Effect : Type 0 where
  sends : Bytes → Effect
  reports : ℕ → Effect

abbrev pub needs_send : ℕ → Sender → Bool
needs_send total s = ltb s.next total && ltb (s.next - s.accepted) s.window

unfoldable pub push : Bytes → ℕ → Sender → Sender
push pkt now s = record s {
  flight = s.flight ++ (record { pkt = pkt; sent_at = now; retransmitted = false }) ∷ [];
  next = s.next + 1;
}

abbrev pub after_send : Bytes → Outcome × List Effect → Outcome × List Effect
after_send pkt (o, es) = (o, sends pkt ∷ es)

-- The inner `for`: chunks are read and sent while the window has room. `at i` is the time at which
-- chunk `i` is sent. A window of `fuel` chunks has room for no more than that many.
unfoldable pub fill : ℕ → Job → (ℕ → ℕ) → Sender → Outcome × List Effect
fill zero job at s = (running s, [])
fill (suc fuel) job at s = elim (needs_send (total_chunks job.size) s) [
  | false ↦ (running s, [])
  | true ↦ elim (read_chunk job.reader s.next job.size) [
    | err e ↦ (finished (err e), [])
    | ok pkt ↦ after_send pkt (fill fuel job at (push pkt (at s.next) s))
  ]
]

-- One round of the loop in `ack` that counts accepted chunks.
unfoldable pub count_chunk : ℕ → InflightChunk → List InflightChunk → Sender → Sender
count_chunk now f rest s =
    let s' = record s { flight = rest; accepted = s.accepted + 1 } in
    if f.retransmitted then s' else record s' {
      srtt = smooth_rtt s.srtt (now - f.sent_at);
      streak = s.streak + 1;
      window = if leb clean_streak_to_open (s.streak + 1) then max_window else s.window;
    }

-- `none` is an index out of range.
unfoldable pub count_chunks : ℕ → ℕ → Sender → Option Sender
count_chunks zero now s = some s
count_chunks (suc n) now s = elim s.flight [
  | [] ↦ none
  | f ∷ rest ↦ count_chunks n now (count_chunk now f rest s)
]

abbrev pub after_count : Job → Option Sender → Outcome × List Effect
after_count job none = (panicked, [])
after_count job (some s) = (
  if s.accepted == total_chunks job.size then finished (ok tt) else running s,
  reports (min (s.accepted * max_chunk_data) job.size) ∷ [],
)

-- The rest of `ack` for an ACK with the result OK. A count above what was sent cannot acknowledge
-- this transfer, and one that does not advance changes nothing.
unfoldable pub advance : Job → ℕ → ℕ → Sender → Outcome × List Effect
advance job now new_accepted s =
    if ltb s.next new_accepted
    then (running s, [])
    else if leb new_accepted s.accepted
    then (running s, [])
    else after_count job (count_chunks (new_accepted - s.accepted) now s)

-- The closure `ack`, for a chunk ACK that arrives at `now`.
unfoldable pub ack : Job → ℕ → ChunkAck → Sender → Outcome × List Effect
ack job now a s = elim (chunk_ack_err a.result) [
  | err e ↦ (finished (err e), [])
  | ok u ↦ advance job now a.accepted (record s { last_activity = now })
]

abbrev pub resend : ℕ → InflightChunk → InflightChunk
resend now f = record f { sent_at = now; retransmitted = true }

abbrev pub resent : List InflightChunk → List Effect
resent [] = []
resent (f ∷ fs) = sends f.pkt ∷ resent fs

-- The retransmission of all that is in flight, once the oldest chunk is overdue.
unfoldable pub retransmit : ℕ → List InflightChunk → Sender → Outcome × List Effect
retransmit now [] s = (panicked, [])
retransmit now (f ∷ fs) s =
    if ltb (f.sent_at + retransmit_timeout s.srtt) now
    then (
      running (record s { flight = map (resend now) (f ∷ fs); window = 1; streak = 0 }),
      resent (f ∷ fs),
    )
    else (running s, [])

-- No ACK is at hand at `now`: the stall give-up comes before the retransmission.
unfoldable pub timeout : Job → ℕ → Sender → Outcome × List Effect
timeout job now s =
    if leb (s.last_activity + job.stall_timeout) now
    then (finished (err no_response), [])
    else retransmit now s.flight s

-- What the loop finds after the inner `for`: a chunk ACK, or none by a reading of the clock.
pub data Event : Type 0 where
  arrives : (now : ℕ) → ChunkAck → Event
  passes : (now : ℕ) → Event

unfoldable pub react : Job → Event → Sender → Outcome × List Effect
react job (arrives now a) s = ack job now a s
react job (passes now) s = timeout job now s

abbrev pub after_fill : Job → Event → Outcome × List Effect → Outcome × List Effect
after_fill job e (running s, es) = let (o, es') = react job e s in (o, es ++ es')
after_fill job e (finished r, es) = (finished r, es)
after_fill job e (panicked, es) = (panicked, es)

-- One round of the outer `for`.
unfoldable pub round : Job → (ℕ → ℕ) → Event → Sender → Outcome × List Effect
round job at e s = after_fill job e (fill s.window job at s)

-- `startAckErr`: a transfer that is already started counts as this one after a resend only.
unfoldable pub start_ack_result : ℕ → ℕ → Result (Unit {0})
start_ack_result result resends =
    if result == start_already_started && ltb 0 resends then ok tt else start_ack_err result
