-- ===== src/Masso/Upload/Invariant.antt =====
-- What holds of the variables of `sendChunks` (internal/masso/upload.go) between two rounds of its
-- loop: the chunks in flight are those sent and not accepted, and the window bounds their number.
use mink_lasso.Base.{
  ℕ, zero, suc, ◌+◌, ◌-◌, ◌≤◌, ◌<◌, ◌≡◌, ◌∙◌, refl, true, false, List, [], ◌∷◌, some, arith, length,
  length-append, length-map, Bool-cases, inl, inr, List-cases, ap, ltb, leb, ◌==◌,
}
use mink_lasso.Masso.Errors.{result_cases}
use mink_lasso.Masso.Words.{Bytes}
use mink_lasso.Masso.Reply.{ChunkAck, chunk_ack_err}
use mink_lasso.Masso.Upload.{
  InflightChunk, Sender, Job, Outcome, running, finished, panicked, Effect, Event, arrives, passes,
  total_chunks, max_window, needs_send, push, fill, read_chunk, count_chunk, count_chunks,
  after_count, advance, ack, resend, retransmit, retransmit_timeout, timeout, react, after_fill,
  round, init, after_send,
}

pub record Inv (job : Job) (s : Sender) : Type 0 where
  pub more : s.accepted < total_chunks job.size
  pub within : s.next ≤ total_chunks job.size
  pub in_flight : s.accepted + length s.flight ≡ s.next
  pub few : length s.flight ≤ max_window
  pub window_low : 1 ≤ s.window
  pub window_high : s.window ≤ max_window

-- No index is out of range, and `P` holds of the variables if the loop goes on.
abbrev pub Keeps : (Sender → Type 0) → Outcome → Type 0
Keeps P (running s) = P s
Keeps P (finished r) = Unit
Keeps P panicked = ⊥

-- Beside the invariant, what the inner `for` achieves: the window is full or all is sent.
pub record Filled (job : Job) (s : Sender) : Type 0 where
  pub inv : Inv job s
  pub full : needs_send (total_chunks job.size) s ≡ false

push-Inv :
    (job : Job) (s : Sender) (pkt : Bytes) (now : ℕ)
    → Inv job s
    → needs_send (total_chunks job.size) s ≡ true
    → Inv job (push pkt now s)
unfolding push
push-Inv job s pkt now h more =
    let grown =
      length-append s.flight ((record { pkt = pkt; sent_at = now; retransmitted = false }) ∷ []) in
    ground (arith, grown, h.more, h.within, h.in_flight, h.few, h.window_low, h.window_high)

room_after :
    (job : Job) (s : Sender) (pkt : Bytes) (now fuel : ℕ)
    → s.window ≤ suc fuel + length s.flight
    → (push pkt now s).window ≤ fuel + length (push pkt now s).flight
unfolding push
room_after job s pkt now fuel h = omega (
  arith,
  length-append s.flight ((record { pkt = pkt; sent_at = now; retransmitted = false }) ∷ []),
)

Keeps-after_send :
    (P : Sender → Type 0) (pkt : Bytes) (r : Outcome × List Effect)
    → Keeps P r.0
    → Keeps P (after_send pkt r).0
Keeps-after_send P pkt (o, es) h = h

-- As many rounds as the window allows are enough.
pub fill-Filled :
    (fuel : ℕ) (job : Job) (at : ℕ → ℕ) (s : Sender)
    → Inv job s
    → s.window ≤ fuel + length s.flight
    → Keeps (Filled job) (fill fuel job at s).0
unfolding fill
fill-Filled zero job at s h room = record { inv = h; full = ground (arith, h.in_flight) }
fill-Filled (suc fuel) job at s h room = elim (Bool-cases (needs_send (total_chunks job.size) s)) [
  | inr full ↦ rw (full, fill) (record { inv = h; full = full })
  | inl more ↦ elim (result_cases (read_chunk job.reader s.next job.size)) [
    | inr (e, failed) ↦ rw (more, failed, fill) tt
    | inl (pkt, read) ↦
        rw (more, read, fill)
          (Keeps-after_send (Filled job) pkt (fill fuel job at (push pkt (at s.next) s)) (
            fill-Filled fuel job at (push pkt (at s.next) s) (push-Inv job s pkt (at s.next) h more)
              (room_after job s pkt (at s.next) fuel room)))
  ]
]

-- A full window with something left to accept has a chunk in flight.
Filled-flight : (job : Job) (s : Sender) → Filled job s → 0 < length s.flight
Filled-flight job s h = ground (arith, h.full, h.inv.more, h.inv.in_flight, h.inv.window_low)

count_chunk-counts :
    (now : ℕ) (f : InflightChunk) (rest : List InflightChunk) (s : Sender)
    → ((count_chunk now f rest s).accepted ≡ s.accepted + 1)
      × ((count_chunk now f rest s).next ≡ s.next)
      × ((count_chunk now f rest s).flight ≡ rest)
unfolding count_chunk
count_chunk-counts now f rest s = ground arith

count_chunk-window :
    (now : ℕ) (f : InflightChunk) (rest : List InflightChunk) (s : Sender)
    → 1 ≤ s.window
    → s.window ≤ max_window
    → (1 ≤ (count_chunk now f rest s).window) × ((count_chunk now f rest s).window ≤ max_window)
unfolding count_chunk
count_chunk-window now f rest s h k = ground arith

-- The variables after `n` accepted chunks are counted.
pub record Counted (n : ℕ) (s t : Sender) : Type 0 where
  pub accepted : t.accepted ≡ s.accepted + n
  pub next : t.next ≡ s.next
  pub flight : n + length t.flight ≡ length s.flight
  pub window_low : 1 ≤ t.window
  pub window_high : t.window ≤ max_window

pub count_chunks-step :
    (n now : ℕ) (s : Sender) (f : InflightChunk) (rest : List InflightChunk)
    → s.flight ≡ f ∷ rest
    → count_chunks (suc n) now s ≡ count_chunks n now (count_chunk now f rest s)
unfolding count_chunks
count_chunks-step n now s f rest e = ground arith

count_chunks-Counted :
    (n now : ℕ) (s : Sender)
    → n ≤ length s.flight
    → 1 ≤ s.window
    → s.window ≤ max_window
    → (t : Sender) × (count_chunks n now s ≡ some t) × Counted n s t
unfolding count_chunks
count_chunks-Counted zero now s h low high = (s, refl, omega arith)
count_chunks-Counted (suc n) now s h low high = elim (List-cases s.flight) [
  | inl none_left ↦ absurd (ground arith)
  | inr (f, rest, e) ↦
      let t = count_chunk now f rest s in
      let counts = count_chunk-counts now f rest s in
      let room = count_chunk-window now f rest s low high in
      let l : length t.flight ≡ length rest = ap length counts.2 in
      let m : length s.flight ≡ suc (length rest) = ap length e in
      let (u, computed, c) = count_chunks-Counted n now t (omega arith) room.0 room.1 in
      (
        u,
        count_chunks-step n now s f rest e ∙ computed,
        record {
          accepted = omega (arith, c.accepted, counts.0);
          next = omega (arith, c.next, counts.1);
          flight = omega (arith, c.flight);
          window_low = c.window_low;
          window_high = c.window_high;
        },
      )
]

after_count-Inv :
    (job : Job) (n : ℕ) (s t : Sender)
    → Inv job s
    → s.accepted + n ≤ s.next
    → Counted n s t
    → Keeps (Inv job) (after_count job (some t)).0
after_count-Inv job n s t h le c = elim (Bool-cases (t.accepted == total_chunks job.size)) [
  | inl last ↦ rw last tt
  | inr more ↦ rw more (record {
    more = ground (arith, c.accepted, h.within);
    within = omega (arith, c.next, h.within);
    in_flight = omega (arith, c.accepted, c.next, c.flight, h.in_flight);
    few = omega (arith, c.flight, h.few);
    window_low = c.window_low;
    window_high = c.window_high;
  })
]

advance-Inv :
    (job : Job) (now new_accepted : ℕ) (s : Sender)
    → Inv job s
    → Keeps (Inv job) (advance job now new_accepted s).0
unfolding advance
advance-Inv job now new_accepted s h = elim (Bool-cases (ltb s.next new_accepted)) [
  | inl above ↦ rw (above, advance) h
  | inr below ↦ elim (Bool-cases (leb new_accepted s.accepted)) [
    | inl behind ↦ rw (below, behind, advance) h
    | inr ahead ↦
        let n = new_accepted - s.accepted in
        let enough : n ≤ length s.flight = ground (arith, h.in_flight) in
        let (t, computed, c) = count_chunks-Counted n now s enough h.window_low h.window_high in
        rw (below, ahead, computed, advance)
          (after_count-Inv job n s t h (omega (arith, h.in_flight)) c)
  ]
]

ack-Inv :
    (job : Job) (now : ℕ) (a : ChunkAck) (s : Sender)
    → Inv job s
    → Keeps (Inv job) (ack job now a s).0
unfolding ack
ack-Inv job now a s h = elim (result_cases (chunk_ack_err a.result)) [
  | inr (e, failed) ↦ rw (failed, ack) tt
  | inl (u, fine) ↦
      rw (fine, ack)
        (advance-Inv job now a.accepted (record s { last_activity = now })
          (record {
            more = h.more;
            within = h.within;
            in_flight = h.in_flight;
            few = h.few;
            window_low = h.window_low;
            window_high = h.window_high;
          }))
]

retransmit-Inv :
    (job : Job) (now : ℕ) (fs : List InflightChunk) (s : Sender)
    → Inv job s
    → length fs ≡ length s.flight
    → 0 < length fs
    → Keeps (Inv job) (retransmit now fs s).0
unfolding retransmit
retransmit-Inv job now [] s h e some_chunk = absurd (omega arith)
retransmit-Inv job now (f ∷ fs) s h e some_chunk =
    elim (Bool-cases (ltb (f.sent_at + retransmit_timeout s.srtt) now)) [
      | inr early ↦ rw (early, retransmit) h
      | inl due ↦
          let same = length-map fs (resend now) in
          rw (due, retransmit)
            (record {
              more = h.more;
              within = h.within;
              in_flight = omega (arith, same, h.in_flight);
              few = omega (arith, same, h.few);
              window_low = omega arith;
              window_high = omega arith;
            })
    ]

timeout-Inv :
    (job : Job) (now : ℕ) (s : Sender) → Filled job s → Keeps (Inv job) (timeout job now s).0
unfolding timeout
timeout-Inv job now s h = elim (Bool-cases (leb (s.last_activity + job.stall_timeout) now)) [
  | inl stalled ↦ rw (stalled, timeout) tt
  | inr waiting ↦
      rw (waiting, timeout) (retransmit-Inv job now s.flight s h.inv refl (Filled-flight job s h))
]

react-Inv : (job : Job) (e : Event) (s : Sender) → Filled job s → Keeps (Inv job) (react job e s).0
unfolding react
react-Inv job (arrives now a) s h = ack-Inv job now a s h.inv
react-Inv job (passes now) s h = timeout-Inv job now s h

after_fill-Inv :
    (job : Job) (e : Event) (r : Outcome × List Effect)
    → Keeps (Filled job) r.0
    → Keeps (Inv job) (after_fill job e r).0
after_fill-Inv job e (running s, es) h = react-Inv job e s h
after_fill-Inv job e (finished r, es) h = tt
after_fill-Inv job e (panicked, es) h = h

-- A round of the loop, whatever it reads and whenever ACKs arrive, indexes no empty slice, and
-- keeps the invariant if the loop goes on: the chunks in flight are those sent and not accepted,
-- two at most.
pub round-Inv :
    (job : Job) (at : ℕ → ℕ) (e : Event) (s : Sender)
    → Inv job s
    → Keeps (Inv job) (round job at e s).0
unfolding round
round-Inv job at e s h =
    after_fill-Inv job e (fill s.window job at s) (fill-Filled s.window job at s h (omega arith))

-- The invariant holds at the start of a file that is not empty.
pub init-Inv : (job : Job) (start : ℕ) → 0 < job.size → Inv job (init start)
unfolding init
init-Inv job start h = record {
  more = omega arith;
  within = omega arith;
  in_flight = refl;
  few = omega arith;
  window_low = omega arith;
  window_high = omega arith;
}
