-- ===== src/Client/Uploading.antt =====
-- `Upload` of internal/masso/upload.go: the checks, the start, the chunks and the abort notifications.
use mink_lasso.Base.{
  ℕ, suc, ◌^◌, ◌≡◌, Bool, Option, none, some, List, [], ◌++◌, leb, replicate, ◌==◌, if◌then◌else◌,
}
use mink_lasso.Masso.Errors.{
  Error, file_too_large, not_connected, busy, context_done, Result, ok, err,
}
use mink_lasso.Masso.Words.{Bytes}
use mink_lasso.Masso.Request.{upload_start, upload_abort}
use mink_lasso.Client.State.{UdpAddr, Client}
use mink_lasso.Client.Starting.{Turn, Turned, ended, goes_on, start_upload}

-- An int64.
pub data ℤ : Type 0 where
  pos negsuc : ℕ → ℤ

-- A call of `Upload`: its arguments, what it finds, and what `sendChunks` does for it. `busy` says that
-- another upload holds the lock, `is_done` that ctx is done.
pub record UploadCall : Type 0 where
  pub dir : Bytes
  pub name : Bytes
  pub size : ℤ
  pub is_busy : Bool
  pub is_done : Bool
  pub start_timeout : ℕ
  pub start_retransmit : ℕ
  pub first : ℕ
  pub sent : Bool
  pub turns : List Turn
  pub chunks : Result (Unit {0})
  pub chunk_packets : List Bytes

-- What has been returned, if anything has, and the packets handed to the socket.
pub record Uploaded : Type 0 where
  pub returned : Option (Result (Unit {0}))
  pub packets : List Bytes

abbrev pub abort_notifications : ℕ
abort_notifications = 3

-- `notifyAbort`.
unfoldable pub notify_abort : List Bytes
notify_abort = replicate abort_notifications upload_abort

abbrev pub refuse : Error → Uploaded
refuse e = record { returned = some (err e); packets = [] }

-- The rest of `Upload` after `sendChunks`, with the packets so far.
unfoldable pub after_chunks : Result (Unit {0}) → List Bytes → Uploaded
unfolding notify_abort
after_chunks (ok u) packets = record { returned = some (ok tt); packets = packets }
after_chunks (err e) packets = record { returned = some (err e); packets = packets ++ notify_abort }

unfoldable pub after_start : UploadCall → ℕ → Turned → List Bytes → Uploaded
unfolding after_chunks
after_start u size (goes_on s) packets = record { returned = none; packets = packets }
after_start u size (ended (err e)) packets = record { returned = some (err e); packets = packets }
after_start u size (ended (ok done)) packets =
    if size == 0
    then record { returned = some (ok tt); packets = packets }
    else after_chunks u.chunks (packets ++ u.chunk_packets)

-- From the encoded upload-start request on.
unfoldable pub start_and_send : UploadCall → ℕ → Result Bytes → Uploaded
unfolding after_start
start_and_send u size (err e) = refuse e
start_and_send u size (ok pkt) =
    let (o, s) = start_upload u.start_timeout u.start_retransmit u.first u.sent u.turns in
    if u.is_done then refuse context_done else after_start u size o (replicate (suc s.resends) pkt)

unfoldable pub upload_to : UploadCall → ℕ → Option UdpAddr → Uploaded
unfolding start_and_send
upload_to u size none = refuse not_connected
upload_to u size (some remote) =
    if u.is_busy then refuse busy else start_and_send u size (upload_start size u.dir u.name)

unfoldable pub upload_sized : UploadCall → Client → ℤ → Uploaded
unfolding upload_to
upload_sized u c (negsuc n) = refuse file_too_large
upload_sized u c (pos size) =
    if leb (2 ^ 32) size then refuse file_too_large else upload_to u size c.remote

-- `Upload`.
unfoldable pub upload : UploadCall → Client → Uploaded
unfolding upload_sized
upload u c = upload_sized u c u.size

-- The controller has taken the start of an upload.
abbrev pub Opened : UploadCall → Type 0
Opened u =
    (start_upload u.start_timeout u.start_retransmit u.first u.sent u.turns).0 ≡ ended (ok tt)
