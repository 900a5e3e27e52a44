-- ===== src/Transfer/Safety.antt =====
-- An upload that the sender takes for done has stored the file, whatever the network did.
use mathlib.Core.List.{Memᴰ}
use mathlib.Core.List.Memᴰ.{head, tail}
use mathlib.Core.Path.{subst}
use mink_lasso.Base.{
  ℕ, ◌^◌, ◌≤◌, ◌<◌, ◌≡◌, sym, ◌∙◌, ap, List, [], ◌∷◌, some, arith, All, All-append, Bool-cases, inl,
  inr, length,
}
use mink_lasso.Masso.Errors.{ok, err}
use mink_lasso.Masso.Words.{Bytes, AreBytes}
use mink_lasso.Masso.Reply.{ChunkAck, chunk_ack, decode_reply, start_ok}
use mink_lasso.Masso.Upload.{
  read_chunk, Sender, Job, Outcome, running, finished, panicked, Event, arrives, passes,
  total_chunks, round, init,
}
use mink_lasso.Masso.Upload.Invariant.{Inv, Keeps, round-Inv, init-Inv}
use mink_lasso.Sim.State.{Addr, Controller, file}
use mink_lasso.Sim.Handlers.{handle_packet, start_upload}
use mink_lasso.Transfer.System.{
  Reads, System, datagrams, payloads, after_round, after_packet, Step, time_passes, reply_arrives,
  request_arrives, Reach, here, later,
}
use mink_lasso.Transfer.Server.{Receiving}
use mink_lasso.Transfer.Replies.{IsAck, IsAck-mono, handle_packet-Answered}
use mink_lasso.Transfer.Client.{IsChunk, read_chunk-IsChunk}
use mink_lasso.Transfer.Rounds.{InFlight, Flying, CountsAll, Justified, round-Fair}
use mink_lasso.Transfer.Start.{start_upload-Receiving}

All-Memᴰ : (P : Bytes → Type 0) (ds : List Bytes) (d : Bytes) → Memᴰ d ds → All P ds → P d
All-Memᴰ P [] d m h = elim m [ ]
All-Memᴰ P (e ∷ ds) d m h = elim m [
  | head same ↦ subst P (sym same) h.0
  | tail rest ↦ All-Memᴰ P ds d rest h.1
]

module _ (content name : Bytes) (job : Job) where
  -- The sender has its invariant and only chunks of the file in flight, and it has returned success
  -- only if the controller has accepted all chunks.
  abbrev ClientSound : Outcome → ℕ → Type 0
  ClientSound (running s) n = Inv job s × InFlight (IsChunk content) s.flight
  ClientSound (finished (ok u)) n = n ≡ total_chunks job.size
  ClientSound (finished (err e)) n = Unit
  ClientSound panicked n = ⊥

  -- The same while `n` is no count above all chunks.
  ClientSound-mono :
      (o : Outcome) (m n : ℕ)
      → m ≤ n
      → n ≤ total_chunks job.size
      → ClientSound o m
      → ClientSound o n
  ClientSound-mono (running s) m n h k l = l
  ClientSound-mono (finished (ok u)) m n h k l = omega arith
  ClientSound-mono (finished (err e)) m n h k l = tt
  ClientSound-mono panicked m n h k l = l

  record Sound (y : System) : Type 0 where
    client_sound : ClientSound y.client y.server.accepted_count
    receiving : Receiving content name y.server
    requests : All (IsChunk content) y.to_server
    replies : All (IsAck y.server.accepted_count) y.to_client

  -- The outcome of a round whose ACK, if it has one, is true.
  outcome-ClientSound :
      (o : Outcome) (e : Event) (n : ℕ)
      → Keeps (Inv job) o
      → Flying (IsChunk content) o
      → Justified (total_chunks job.size) e o
      → (CountsAll (total_chunks job.size) e → n ≡ total_chunks job.size)
      → ClientSound o n
  outcome-ClientSound (running s) e n inv flying just all = (inv, flying)
  outcome-ClientSound (finished (ok u)) e n inv flying just all = all just
  outcome-ClientSound (finished (err x)) e n inv flying just all = tt
  outcome-ClientSound panicked e n inv flying just all = inv

  ClientSound-running :
      (o : Outcome) (s : Sender) (n : ℕ)
      → o ≡ running s
      → ClientSound o n
      → ClientSound (running s) n
  ClientSound-running o s n e h = subst (λ (p : Outcome). ClientSound p n) e h

  module _ (bytes : AreBytes content) (small : length content < 2 ^ 32)
      (reads : Reads content job.reader) (sized : job.size ≡ length content) where
    reads_chunks :
        (i : ℕ) (pkt : Bytes)
        → i < total_chunks job.size
        → read_chunk job.reader i job.size ≡ ok pkt
        → IsChunk content pkt
    reads_chunks i pkt h e =
        read_chunk-IsChunk content bytes small job.reader reads i pkt (omega (arith, sized, h))
          (ap (read_chunk job.reader i) (sym sized) ∙ e)

    after_round-Sound :
        (y : System) (s : Sender) (at : ℕ → ℕ) (e : Event)
        → Sound y
        → y.client ≡ running s
        → (CountsAll (total_chunks job.size) e → y.server.accepted_count ≡ total_chunks job.size)
        → Sound (after_round y (round job at e s))
    after_round-Sound y s at e h active all =
        let (inv, flying) =
          ClientSound-running y.client s y.server.accepted_count active h.client_sound in
        let ((still, sent), just) = round-Fair (IsChunk content) job at e s reads_chunks flying in
        record {
          client_sound =
              outcome-ClientSound (round job at e s).0 e y.server.accepted_count
                (round-Inv job at e s inv) still just all;
          receiving = h.receiving;
          requests =
              All-append (IsChunk content) (datagrams (round job at e s).1) y.to_server sent
                h.requests;
          replies = h.replies;
        }

    all_accepted :
        (y : System) (pkt : Bytes) (a : ChunkAck)
        → Sound y
        → Memᴰ pkt y.to_client
        → decode_reply pkt ≡ ok (chunk_ack a)
        → a.accepted ≡ total_chunks job.size
        → y.server.accepted_count ≡ total_chunks job.size
    all_accepted y pkt a h m e all =
        let told = All-Memᴰ (IsAck y.server.accepted_count) y.to_client pkt m h.replies a e in
        omega (arith, told, all, h.receiving.count, sized)

    after_packet-Sound :
        (y : System) (pkt : Bytes) (src : Addr)
        → Sound y
        → Memᴰ pkt y.to_server
        → Sound (after_packet y (handle_packet y.server pkt src))
    after_packet-Sound y pkt src h m =
        let (i, chunk) = All-Memᴰ (IsChunk content) y.to_server pkt m h.requests in
        let r = handle_packet-Answered content name y.server i pkt src small h.receiving chunk in
        let (c, sent) = handle_packet y.server pkt src in
        record {
          client_sound =
              ClientSound-mono y.client y.server.accepted_count
                (handle_packet y.server pkt src).0.accepted_count r.grows
                (omega (arith, r.receiving.count, sized)) h.client_sound;
          receiving = r.receiving;
          requests = h.requests;
          replies =
              All-append (IsAck (handle_packet y.server pkt src).0.accepted_count)
                (payloads (handle_packet y.server pkt src).1) y.to_client r.acks
                (IsAck-mono y.server.accepted_count
                  (handle_packet y.server pkt src).0.accepted_count y.to_client r.grows h.replies);
        }

    Step-Sound : (src : Addr) (y z : System) → Step job src y z → Sound y → Sound z
    Step-Sound src y _ (time_passes s at now active) h =
        after_round-Sound y s at (passes now) h active (λ never. absurd never)
    Step-Sound src y _ (reply_arrives s at now pkt a active m e) h =
        after_round-Sound y s at (arrives now a) h active (all_accepted y pkt a h m e)
    Step-Sound src y _ (request_arrives pkt m) h = after_packet-Sound y pkt src h m

    Reach-Sound : (src : Addr) (y z : System) → Reach job src y z → Sound y → Sound z
    Reach-Sound src y _ here h = h
    Reach-Sound src y z (later {y = w} reach step) h =
        Step-Sound src w z step (Reach-Sound src y w reach h)

-- The system once the start request for `name` is accepted: `sendChunks` is about to run its first
-- round, and no datagram of an earlier upload is left.
abbrev pub opened : Controller → Bytes → ℕ → ℕ → System
opened c name size start = record {
  client = running (init start);
  server = (start_upload c name size).0;
  to_server = [];
  to_client = [];
}

opened-Sound :
    (content name : Bytes) (job : Job) (c : Controller) (start : ℕ)
    → 0 < length content
    → job.size ≡ length content
    → c.chunk_result < 256
    → (start_upload c name (length content)).1 ≡ start_ok
    → Sound content name job (opened c name (length content) start)
unfolding init
opened-Sound content name job c start more sized byte accepted = record {
  client_sound = (init-Inv job start (omega (arith, more, sized)), tt);
  receiving = start_upload-Receiving content name c more byte accepted;
  requests = tt;
  replies = tt;
}

stored_file :
    (content name : Bytes) (c : Controller)
    → Receiving content name c
    → c.accepted_count ≡ total_chunks (length content)
    → file c name ≡ some content
unfolding file
stored_file content name c h all = elim (Bool-cases c.uploading) [
  | inl up ↦ absurd (omega (arith, (h.partial up).0, all))
  | inr down ↦ (h.complete down).1
]

finished-Sound :
    (content name : Bytes) (job : Job) (z : System)
    → job.size ≡ length content
    → Sound content name job z
    → z.client ≡ finished (ok tt)
    → file z.server name ≡ some content
finished-Sound content name job z sized h e =
    let all : z.server.accepted_count ≡ total_chunks job.size =
      subst (λ (o : Outcome). ClientSound content name job o z.server.accepted_count) e
        h.client_sound in
    stored_file content name z.server h.receiving (omega (arith, all, sized))

-- Between a start request that the controller of internal/masso/sim answers with OK and the end of
-- `sendChunks`, a network that loses, repeats, delays and reorders the datagrams of this upload
-- cannot make the sender return success before the controller has stored the file, byte for byte
-- and under its name. The file is not empty and shorter than 4 GiB, its reader reads it in full,
-- and the chunk result that the controller is set to is a byte.
pub upload-stores :
    (content name : Bytes) (job : Job) (src : Addr) (c : Controller) (start : ℕ) (z : System)
    → AreBytes content
    → 0 < length content
    → length content < 2 ^ 32
    → Reads content job.reader
    → job.size ≡ length content
    → c.chunk_result < 256
    → (start_upload c name (length content)).1 ≡ start_ok
    → Reach job src (opened c name (length content) start) z
    → z.client ≡ finished (ok tt)
    → file z.server name ≡ some content
upload-stores content name job src c start z bytes more small reads sized byte accepted reach e =
    finished-Sound content name job z sized
      (Reach-Sound content name job bytes small reads sized src
        (opened c name (length content) start) z reach
        (opened-Sound content name job c start more sized byte accepted))
      e
