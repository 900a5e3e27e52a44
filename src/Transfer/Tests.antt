-- ===== src/Transfer/Tests.antt =====
-- An upload of one chunk, run to its end.
use mathlib.Core.List.Memᴰ.{head}
use mink_lasso.Base.{◌≡◌, ◌<◌, refl, false, [], ◌∷◌, some, arith, take, drop}
use mink_lasso.Base.Maps.{member}
use mink_lasso.Masso.Errors.{ok, err, Result}
use mink_lasso.Masso.Words.{Bytes}
use mink_lasso.Masso.Frame.{
  crc_bit, crc_bits, crc_byte, crc_from, crc16_xmodem, frame_body, round_up4, frame, parse,
}
use mink_lasso.Masso.Request.{
  upload_chunk, decode_request, decode_request_body, decode_upload_chunk_request,
}
use mink_lasso.Masso.Reply.{ChunkAck, chunk_ack_encode, chunk_ack_err}
use mink_lasso.Masso.Reply.RoundTrip.{decode_reply-chunk_ack}
use mink_lasso.Masso.Upload.{
  Reader, eof, read_chunk, Sender, Job, running, finished, initial_srtt, init, push, fill,
  count_chunk, count_chunks, advance, ack, retransmit, timeout, retransmit_timeout, react, round,
}
use mink_lasso.Sim.State.{
  Addr, Controller, new, begin_upload, file, should_stay_silent, update_silenced_by_chunk,
}
use mink_lasso.Sim.Handlers.{
  send, target_for, start_upload, append_chunk, store_complete, accept_chunk, handle_upload_chunk,
  dispatch, handle_request, handle_packet,
}
use mink_lasso.Transfer.System.{
  Reads, System, Step, time_passes, reply_arrives, request_arrives, Reach, here, later,
}
use mink_lasso.Transfer.Safety.{opened, upload-stores}

abbrev content : Bytes
content = b'G' ∷ b'0' ∷ b'\n' ∷ []

abbrev name : Bytes
name = b'a' ∷ b'.' ∷ b'n' ∷ b'c' ∷ []

abbrev disk : Reader
disk off want = (take want (drop off content), eof)

disk-Reads : Reads content disk
disk-Reads off want h = (refl, λ e. cc)

abbrev job : Job
job = record { reader = disk; size = 3; stall_timeout = 2_000_000_000 }

abbrev src : Addr
src = record { ip = some 1; port = 65535 }

abbrev idle : Controller
idle = new 12345 [] []

accepted : (start_upload idle name 3).1 ≡ 0
unfolding start_upload new member
accepted = refl

abbrev datagram : Result Bytes → Bytes
datagram (ok pkt) = pkt
datagram (err e) = []

abbrev chunk : Bytes
chunk = datagram (upload_chunk 0 content)

abbrev waiting : Sender
waiting = record {
  accepted = 0;
  next = 1;
  window = 1;
  streak = 0;
  srtt = initial_srtt;
  last_activity = 0;
  flight = (record { pkt = chunk; sent_at = 1; retransmitted = false }) ∷ [];
}

abbrev started : Controller
started = (start_upload idle name 3).0

abbrev sent : System
sent = record { client = running waiting; server = started; to_server = chunk ∷ []; to_client = [] }

sends_chunk : Step job src (opened idle name 3 0) sent
unfolding init round fill push read_chunk react timeout retransmit retransmit_timeout upload_chunk
sends_chunk = time_passes (init 0) (λ _. 1) 2 refl

abbrev counted : ChunkAck
counted = record { result = 0; accepted = 1 }

abbrev acked : System
acked = record sent {
  server = (handle_packet started chunk src).0;
  to_client = chunk_ack_encode counted ∷ [];
}

takes_chunk : Step job src sent acked
unfolding start_upload new member begin_upload handle_packet handle_request dispatch
    handle_upload_chunk accept_chunk append_chunk store_complete update_silenced_by_chunk
    should_stay_silent send target_for upload_chunk decode_request decode_request_body
    decode_upload_chunk_request frame frame_body round_up4 parse crc16_xmodem crc_from crc_byte
    crc_bits crc_bit
takes_chunk = request_arrives chunk (head refl)

abbrev done : System
done = record acked { client = finished (ok tt) }

counts_chunk : Step job src acked done
unfolding init round fill push react ack advance chunk_ack_err count_chunks count_chunk
counts_chunk =
    reply_arrives waiting (λ _. 3) 4 (chunk_ack_encode counted) counted refl (head refl)
      (decode_reply-chunk_ack counted (omega arith) (omega arith))

whole_run : Reach job src (opened idle name 3 0) done
whole_run = later (later (later here sends_chunk) takes_chunk) counts_chunk

chunk_result_byte : idle.chunk_result < 256
unfolding new
chunk_result_byte = omega arith

upload-stores_example : file (handle_packet started chunk src).0 name ≡ some content
upload-stores_example =
    upload-stores content name job src idle 0 done (omega arith) (omega arith) (omega arith)
      disk-Reads refl chunk_result_byte accepted whole_run refl
