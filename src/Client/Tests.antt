-- ===== src/Client/Tests.antt =====
-- A client that asks a controller, is answered, and starts an upload.
use mathlib.Core.List.{Memᴰ}
use mink_lasso.Base.{ℕ, ◌+◌, ◌≤◌, ◌≡◌, ◌↔◌, refl, true, false, List, [], ◌∷◌, none, some, arith}
use mink_lasso.Masso.Errors.{ok, err, usb_write}
use mink_lasso.Masso.Words.{Bytes}
use mink_lasso.Masso.Frame.{parse, crc16_xmodem, crc_from, crc_byte, crc_bits, crc_bit}
use mink_lasso.Masso.Request.{type_upload_start}
use mink_lasso.Masso.Reply.{start_ack, start_ack_encode, decode_reply_body, start_ack_err, start_ok}
use mink_lasso.Masso.Upload.{start_ack_result}
use mink_lasso.Client.State.{
  put_waiters, take_reply, note_liveness, offer, UdpAddr, Incoming, Waiter, Client, new_client,
  handle_packet, expect, receive,
}
use mink_lasso.Client.Waiters.{arrives, registers}
use mink_lasso.Client.Routing.{Fits, Sound, Reach, begins, goes_on, receive-Fits}
use mink_lasso.Client.Running.{
  lost_fires, Session, Arrival, Runs, starts, hears, heard_at, lost_exactly,
}
use mink_lasso.Client.Asking.{Good, stays, moves}
use mink_lasso.Client.Exchange.{replied, Attempt, any_reply, request, Outside, connect}
use mink_lasso.Client.Requests.{Asked, Fair, Counted, request-Asked}
use mink_lasso.Client.Connecting.{Proper, ConnectedTo, connect-Connected}
use mink_lasso.Client.Starting.{
  expired, acked, Turn, ended, turn, turns, resend_due, wait_ends, schedule, first_start,
  start_upload,
}
use mink_lasso.Client.StartBounds.{Ended, Punctual, start_upload-ends}
use mink_lasso.Client.StartAcks.{Meets, Starts, start_upload-Starts}
use mink_lasso.Client.Uploading.{pos, UploadCall}

abbrev controller : UdpAddr
controller = record { ip = 10; port = 65535 }

abbrev start_reply : Bytes
start_reply = start_ack_encode start_ok

abbrev asking : Client
asking = (expect type_upload_start (some controller) any_reply new_client).0

abbrev answered_client : Client
answered_client = handle_packet start_reply (some controller) 5 asking

abbrev reply : Incoming
reply = record { addr = some controller; reply = start_ack start_ok }

abbrev after_receive : Client
after_receive =
    put_waiters type_upload_start
      (record { id = 1; from = some controller; matches = any_reply; buffer = [] } ∷ [])
      answered_client

receives_reply : receive type_upload_start 1 answered_client ≡ some (reply, after_receive)
unfolding receive take_reply handle_packet note_liveness expect offer parse crc16_xmodem crc_from
    crc_byte crc_bits crc_bit decode_reply_body start_ack_encode
receives_reply = refl

reaches : Reach answered_client
reaches =
    goes_on asking answered_client
      (goes_on new_client asking begins
        (registers new_client type_upload_start (some controller) any_reply))
      (arrives asking start_reply (some controller) 5)

receive-Fits_example :
    ((w : Waiter) × Memᴰ w (answered_client.waiters type_upload_start)
      × (w.id ≡ 1)
      × Fits type_upload_start w.from w.matches reply)
    × Sound answered_client
receive-Fits_example =
    receive-Fits answered_client after_receive type_upload_start 1 reply reaches receives_reply

abbrev online : Client
online = record new_client { remote = some controller }

abbrev heard : Arrival
heard = record { pkt = start_reply; addr = some controller; at = 3 }

abbrev session : Session
session = record {
  client = handle_packet start_reply (some controller) 3 online;
  lost_at = 6;
  now = 3;
}

runs : Runs controller 5 1 session (heard ∷ [])
runs =
    hears (record { client = online; lost_at = 6; now = 1 }) [] heard (starts online refl tt)
      (omega arith)

lost_exactly_example :
    ((lost_fires 5 1 7 session.client ≡ none) ↔ (heard_at controller 1 (heard ∷ []) + 5 ≤ 7))
    × (6 ≤ heard_at controller 1 (heard ∷ []) + 5)
lost_exactly_example = lost_exactly controller 5 1 session (heard ∷ []) 7 runs (omega arith)

abbrev tries : ℕ → Attempt
tries i = record {
  sent = true;
  meanwhile = handle_packet start_reply (some controller) 5;
  wake = replied;
}

tries-Fair : Fair tries
tries-Fair i c =
    moves c (handle_packet start_reply (some controller) 5 c)
      (handle_packet start_reply (some controller) 5 c) (arrives c start_reply (some controller) 5)
      (stays (handle_packet start_reply (some controller) 5 c))

new_client-Good : Good new_client
new_client-Good = record { sound = λ typ. tt; numbered = λ typ. tt }

request-Asked_example :
    Asked type_upload_start
      (some controller)
      any_reply
      (request type_upload_start (some controller) any_reply 3 tries new_client).result
    × Counted 3 (request type_upload_start (some controller) any_reply 3 tries new_client)
    × Good (request type_upload_start (some controller) any_reply 3 tries new_client).client
request-Asked_example =
    request-Asked type_upload_start (some controller) any_reply 3 tries new_client tries-Fair
      new_client-Good

abbrev outside : Outside
outside = record { discoveries = λ i. tries; is_done = λ i. false; configs = tries }

connect-Connected_example :
    ConnectedTo controller
      (connect outside controller new_client).result
      (connect outside controller new_client).client
    × Proper (connect outside controller new_client).result
    × ((connect outside controller new_client).sends ≤ 6)
connect-Connected_example =
    connect-Connected outside controller new_client (λ i. tries-Fair, tries-Fair) new_client-Good

-- A wait for the first interval, a resend, and an ACK.
abbrev waits_once : Turn
waits_once = record { now = 0; ready = none; sent = true; waking = expired }

abbrev resends_once : Turn
resends_once = record { now = 10; ready = none; sent = true; waking = expired }

abbrev is_acked : Turn
is_acked = record { now = 10; ready = none; sent = true; waking = acked start_ok }

abbrev log : List Turn
log = waits_once ∷ resends_once ∷ is_acked ∷ []

punctual : Punctual (schedule 10 10 0) 0 log (first_start 10 0 true)
unfolding turn resend_due wait_ends
punctual = omega arith

start_upload-ends_example : Ended (start_upload 10 10 0 true log).0
start_upload-ends_example =
    start_upload-ends 10 10 0 0 true log (omega arith) punctual (omega arith)

starts_log : (start_upload 50 10 0 true log).0 ≡ ended (ok tt)
unfolding start_upload turns turn resend_due wait_ends start_ack_result start_ack_err
starts_log = refl

start_upload-Starts_example :
    (result : ℕ) × Meets result log × Starts result (start_upload 50 10 0 true log).1.resends
start_upload-Starts_example = start_upload-Starts 50 10 0 true log starts_log

abbrev call : UploadCall
call = record {
  dir = [];
  name = b'a' ∷ b'.' ∷ b'n' ∷ b'c' ∷ [];
  size = pos 3;
  is_busy = false;
  is_done = false;
  start_timeout = 50;
  start_retransmit = 10;
  first = 0;
  sent = true;
  turns = log;
  chunks = err usb_write;
  chunk_packets = [];
}
