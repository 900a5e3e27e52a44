-- ===== src/Transfer/System.antt =====
-- The two sides of an upload between the start ACK and the end of `sendChunks`, interleaved. A
-- datagram that was sent once may arrive at any time, any number of times, or never.
use mink_lasso.Base.{ℕ, ◌+◌, ◌*◌, ◌≤◌, ◌≡◌, ◌≢◌, List, [], ◌∷◌, ◌++◌, length, take, drop}
use mathlib.Core.List.{Memᴰ}
use mink_lasso.Masso.Errors.{ok}
use mink_lasso.Masso.Words.{Bytes}
use mink_lasso.Masso.Request.{max_chunk_data}
use mink_lasso.Masso.Reply.{ChunkAck, chunk_ack, decode_reply}
use mink_lasso.Masso.Upload.{
  Reader, failed, Sender, Job, Outcome, running, Effect, sends, reports, arrives, passes, round,
}
use mink_lasso.Sim.State.{Addr, Controller}
use mink_lasso.Sim.Handlers.{Sent, handle_packet}

-- Chunk `i` of a file.
abbrev pub chunk_of : Bytes → ℕ → Bytes
chunk_of content i = take max_chunk_data (drop (i * max_chunk_data) content)

-- A reader that reads a file: what lies within the file is read in full, with no error but io.EOF.
abbrev pub Reads : Bytes → Reader → Type 0
Reads content r =
    (off want : ℕ)
    → off + want ≤ length content
    → ((r off want).0 ≡ take want (drop off content)) × ((r off want).1 ≢ failed)

pub record System : Type 0 where
  pub client : Outcome
  pub server : Controller
  pub to_server : List Bytes
  pub to_client : List Bytes

-- The datagrams among the effects of a round.
abbrev pub datagrams : List Effect → List Bytes
datagrams [] = []
datagrams (sends pkt ∷ es) = pkt ∷ datagrams es
datagrams (reports n ∷ es) = datagrams es

abbrev pub payloads : Sent → List Bytes
payloads [] = []
payloads ((pkt, target) ∷ rest) = pkt ∷ payloads rest

abbrev pub after_round : System → Outcome × List Effect → System
after_round y (o, es) = record y { client = o; to_server = datagrams es ++ y.to_server }

abbrev pub after_packet : System → Controller × Sent → System
after_packet y (c, sent) = record y { server = c; to_client = payloads sent ++ y.to_client }

pub data Step (job : Job) (src : Addr) (y : System) : System → Type 0 where
  time_passes :
      (s : Sender) (at : ℕ → ℕ) (now : ℕ)
      → y.client ≡ running s
      → Step job src y (after_round y (round job at (passes now) s))
  reply_arrives :
      (s : Sender) (at : ℕ → ℕ) (now : ℕ) (pkt : Bytes) (a : ChunkAck)
      → y.client ≡ running s
      → Memᴰ pkt y.to_client
      → decode_reply pkt ≡ ok (chunk_ack a)
      → Step job src y (after_round y (round job at (arrives now a) s))
  request_arrives :
      (pkt : Bytes)
      → Memᴰ pkt y.to_server
      → Step job src y (after_packet y (handle_packet y.server pkt src))

pub data Reach (job : Job) (src : Addr) (start : System) : System → Type 0 where
  here : Reach job src start start
  later : {y z : System} → Reach job src start y → Step job src y z → Reach job src start z
