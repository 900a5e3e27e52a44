-- ===== src/Transfer/Rounds.antt =====
-- What a round of `sendChunks` (internal/masso/upload.go) sends, and when it ends in success.
use mink_lasso.Base.{
  ℕ, zero, suc, ◌+◌, ◌-◌, ◌<◌, ◌≡◌, refl, sym, ◌∙◌, ap, false, List, [], ◌∷◌, ◌++◌, map, Option,
  none, some, arith, All, All-append, Bool-cases, List-cases, inl, inr, ltb, leb, ◌==◌,
}
use mathlib.Core.Path.{subst}
use mink_lasso.Masso.Errors.{ok, err, result_cases}
use mink_lasso.Masso.Words.{Bytes}
use mink_lasso.Masso.Reply.{ChunkAck, chunk_ack_err}
use mink_lasso.Masso.Upload.{
  read_chunk, InflightChunk, Sender, Job, Outcome, running, finished, panicked, Effect, sends,
  reports, Event, arrives, passes, total_chunks, needs_send, push, fill, count_chunk, count_chunks,
  after_count, advance, ack, resend, resent, retransmit, retransmit_timeout, timeout, react,
  after_fill, round, after_send,
}
use mink_lasso.Masso.Upload.Invariant.{count_chunks-step}
use mink_lasso.Transfer.System.{datagrams}

-- `P` holds of every datagram in flight, if the loop goes on.
abbrev pub InFlight : (Bytes → Type 0) → List InflightChunk → Type 0
InFlight P fs = All (λ (f : InflightChunk). P f.pkt) fs

abbrev pub Flying : (Bytes → Type 0) → Outcome → Type 0
Flying P (running s) = InFlight P s.flight
Flying P (finished r) = Unit
Flying P panicked = Unit

-- And of every datagram that is sent.
abbrev pub Sends : (Bytes → Type 0) → Outcome × List Effect → Type 0
Sends P (o, es) = Flying P o × All P (datagrams es)

datagrams-append :
    (P : Bytes → Type 0) (es fs : List Effect)
    → All P (datagrams es)
    → All P (datagrams fs)
    → All P (datagrams (es ++ fs))
datagrams-append P [] fs h k = k
datagrams-append P (sends pkt ∷ es) fs h k = (h.0, datagrams-append P es fs h.1 k)
datagrams-append P (reports n ∷ es) fs h k = datagrams-append P es fs h k

datagrams-resent :
    (P : Bytes → Type 0) (fs : List InflightChunk) → InFlight P fs → All P (datagrams (resent fs))
datagrams-resent P [] h = tt
datagrams-resent P (f ∷ fs) h = (h.0, datagrams-resent P fs h.1)

InFlight-resend :
    (P : Bytes → Type 0) (now : ℕ) (fs : List InflightChunk)
    → InFlight P fs
    → InFlight P (map (resend now) fs)
InFlight-resend P now [] h = tt
InFlight-resend P now (f ∷ fs) h = (h.0, InFlight-resend P now fs h.1)

Sends-after_send :
    (P : Bytes → Type 0) (pkt : Bytes) (r : Outcome × List Effect)
    → P pkt
    → Sends P r
    → Sends P (after_send pkt r)
Sends-after_send P pkt (o, es) h k = (k.0, (h, k.1))

-- `P` holds of what is read.
abbrev pub ReadsOnly : (Bytes → Type 0) → Job → Type 0
ReadsOnly P job =
    (i : ℕ) (pkt : Bytes)
    → i < total_chunks job.size
    → read_chunk job.reader i job.size ≡ ok pkt
    → P pkt

module _ (P : Bytes → Type 0) (job : Job) (reads : ReadsOnly P job) where
  fill-Sends :
      (fuel : ℕ) (at : ℕ → ℕ) (s : Sender) → InFlight P s.flight → Sends P (fill fuel job at s)
  unfolding fill push
  fill-Sends zero at s h = (h, tt)
  fill-Sends (suc fuel) at s h = elim (Bool-cases (needs_send (total_chunks job.size) s)) [
    | inr full ↦ rw (full, fill) (h, tt)
    | inl more ↦ elim (result_cases (read_chunk job.reader s.next job.size)) [
      | inr (e, failed) ↦ rw (more, failed, fill) (tt, tt)
      | inl (pkt, read) ↦
          let good : P pkt = reads s.next pkt (ground arith) read in
          rw (more, read, fill)
            (Sends-after_send P pkt (fill fuel job at (push pkt (at s.next) s)) good (
              fill-Sends fuel at (push pkt (at s.next) s) (
                All-append (λ (f : InflightChunk). P f.pkt) s.flight
                  ((record { pkt = pkt; sent_at = at s.next; retransmitted = false }) ∷ []) h
                  (good, tt))))
    ]
  ]

count_chunk-flight :
    (now : ℕ) (f : InflightChunk) (rest : List InflightChunk) (s : Sender)
    → ((count_chunk now f rest s).flight ≡ rest)
      × ((count_chunk now f rest s).accepted ≡ s.accepted + 1)
unfolding count_chunk
count_chunk-flight now f rest s = ground arith

count_chunks-empty : (n now : ℕ) (s : Sender) → s.flight ≡ [] → count_chunks (suc n) now s ≡ none
unfolding count_chunks
count_chunks-empty n now s e = ground arith

-- What is left in flight was in flight, and the count is exact.
count_chunks-keeps :
    (P : Bytes → Type 0) (n now : ℕ) (s t : Sender)
    → count_chunks n now s ≡ some t
    → InFlight P s.flight
    → InFlight P t.flight × (t.accepted ≡ s.accepted + n)
unfolding count_chunks
count_chunks-keeps P zero now s t e h =
    let same : s ≡ t = cc in
    (
      subst (λ (u : Sender). InFlight P u.flight) same h,
      omega (arith, ap (λ (u : Sender). u.accepted) same),
    )
count_chunks-keeps P (suc n) now s t e h = elim (List-cases s.flight) [
  | inl nothing ↦ absurd (cc (e, count_chunks-empty n now s nothing))
  | inr (f, rest, some_chunk) ↦
      let u = count_chunk now f rest s in
      let (flight, accepted) = count_chunk-flight now f rest s in
      let left : InFlight P (f ∷ rest) = subst (InFlight P) some_chunk h in
      let (kept, counted) =
        count_chunks-keeps P n now u t (sym (count_chunks-step n now s f rest some_chunk) ∙ e)
          (subst (InFlight P) (sym flight) left.1) in
      (kept, omega (arith, counted, accepted))
]

-- How a round may end in success: on an ACK that counts every chunk.
abbrev pub CountsAll : ℕ → Event → Type 0
CountsAll total (arrives now a) = a.accepted ≡ total
CountsAll total (passes now) = ⊥

abbrev pub Justified : ℕ → Event → Outcome → Type 0
Justified total e (running s) = Unit
Justified total e (finished (ok u)) = CountsAll total e
Justified total e (finished (err x)) = Unit
Justified total e panicked = Unit

-- What is asked of a round's outcome and effects.
abbrev pub Fair : (Bytes → Type 0) → Job → Event → Outcome × List Effect → Type 0
Fair P job e r = Sends P r × Justified (total_chunks job.size) e r.0

module _ (P : Bytes → Type 0) (job : Job) where
  after_count-Fair :
      (now : ℕ) (a : ChunkAck) (t : Sender)
      → InFlight P t.flight
      → t.accepted ≡ a.accepted
      → Fair P job (arrives now a) (after_count job (some t))
  after_count-Fair now a t h e = elim (Bool-cases (t.accepted == total_chunks job.size)) [
    | inl last ↦ rw last ((tt, tt), ground (arith, last, e))
    | inr more ↦ rw more ((h, tt), tt)
  ]

  after_count-options :
      (now : ℕ) (a : ChunkAck) (o : Option Sender)
      → ((t : Sender) → o ≡ some t → InFlight P t.flight × (t.accepted ≡ a.accepted))
      → Fair P job (arrives now a) (after_count job o)
  after_count-options now a none h = ((tt, tt), tt)
  after_count-options now a (some t) h = after_count-Fair now a t (h t refl).0 (h t refl).1

  advance-Fair :
      (now : ℕ) (a : ChunkAck) (s : Sender)
      → InFlight P s.flight
      → Fair P job (arrives now a) (advance job now a.accepted s)
  unfolding advance
  advance-Fair now a s h = elim (Bool-cases (ltb s.next a.accepted)) [
    | inl above ↦ rw (above, advance) ((h, tt), tt)
    | inr below ↦ elim (Bool-cases (leb a.accepted s.accepted)) [
      | inl behind ↦ rw (below, behind, advance) ((h, tt), tt)
      | inr ahead ↦
          let more : s.accepted < a.accepted = ground arith in
          rw (below, ahead, advance)
            (after_count-options now a (count_chunks (a.accepted - s.accepted) now s) (λ t e.
              let (kept, counted) = count_chunks-keeps P (a.accepted - s.accepted) now s t e h in
              (kept, omega (arith, counted, more))))
    ]
  ]

  ack-Fair :
      (now : ℕ) (a : ChunkAck) (s : Sender)
      → InFlight P s.flight
      → Fair P job (arrives now a) (ack job now a s)
  unfolding ack
  ack-Fair now a s h = elim (result_cases (chunk_ack_err a.result)) [
    | inr (e, failed) ↦ rw (failed, ack) ((tt, tt), tt)
    | inl (u, fine) ↦ rw (fine, ack) (advance-Fair now a (record s { last_activity = now }) h)
  ]

  retransmit-Fair :
      (now : ℕ) (fs : List InflightChunk) (s : Sender)
      → InFlight P fs
      → InFlight P s.flight
      → Fair P job (passes now) (retransmit now fs s)
  unfolding retransmit
  retransmit-Fair now [] s h k = ((tt, tt), tt)
  retransmit-Fair now (f ∷ fs) s h k =
      elim (Bool-cases (ltb (f.sent_at + retransmit_timeout s.srtt) now)) [
        | inr early ↦ rw (early, retransmit) ((k, tt), tt)
        | inl due ↦
            rw (due, retransmit)
              ((InFlight-resend P now (f ∷ fs) h, datagrams-resent P (f ∷ fs) h), tt)
      ]

  timeout-Fair :
      (now : ℕ) (s : Sender) → InFlight P s.flight → Fair P job (passes now) (timeout job now s)
  unfolding timeout
  timeout-Fair now s h = elim (Bool-cases (leb (s.last_activity + job.stall_timeout) now)) [
    | inl stalled ↦ rw (stalled, timeout) ((tt, tt), tt)
    | inr waiting ↦ rw (waiting, timeout) (retransmit-Fair now s.flight s h h)
  ]

  react-Fair : (e : Event) (s : Sender) → InFlight P s.flight → Fair P job e (react job e s)
  unfolding react
  react-Fair (arrives now a) s h = ack-Fair now a s h
  react-Fair (passes now) s h = timeout-Fair now s h

  -- The inner `for` ends the loop by an error only.
  abbrev NoSuccess : Outcome → Type 0
  NoSuccess (running s) = Unit
  NoSuccess (finished (ok u)) = ⊥
  NoSuccess (finished (err e)) = Unit
  NoSuccess panicked = Unit

  NoSuccess-after_send :
      (pkt : Bytes) (r : Outcome × List Effect) → NoSuccess r.0 → NoSuccess (after_send pkt r).0
  NoSuccess-after_send pkt (o, es) h = h

  fill-NoSuccess : (fuel : ℕ) (at : ℕ → ℕ) (s : Sender) → NoSuccess (fill fuel job at s).0
  unfolding fill
  fill-NoSuccess zero at s = tt
  fill-NoSuccess (suc fuel) at s = elim (Bool-cases (needs_send (total_chunks job.size) s)) [
    | inr full ↦ rw (full, fill) tt
    | inl more ↦ elim (result_cases (read_chunk job.reader s.next job.size)) [
      | inr (e, failed) ↦ rw (more, failed, fill) tt
      | inl (pkt, read) ↦
          rw (more, read, fill)
            (NoSuccess-after_send pkt (fill fuel job at (push pkt (at s.next) s))
              (fill-NoSuccess fuel at (push pkt (at s.next) s)))
    ]
  ]

  after_fill-Fair :
      (e : Event) (r : Outcome × List Effect)
      → Sends P r
      → NoSuccess r.0
      → Fair P job e (after_fill job e r)
  after_fill-Fair e (running s, es) h k =
      let fair = react-Fair e s h.0 in
      ((fair.0.0, datagrams-append P es (react job e s).1 h.1 fair.0.1), fair.1)
  after_fill-Fair e (finished (ok u), es) h k = absurd k
  after_fill-Fair e (finished (err x), es) h k = (h, tt)
  after_fill-Fair e (panicked, es) h k = (h, tt)

  pub round-Fair :
      (at : ℕ → ℕ) (e : Event) (s : Sender)
      → ReadsOnly P job
      → InFlight P s.flight
      → Fair P job e (round job at e s)
  unfolding round
  round-Fair at e s reads h =
      after_fill-Fair e (fill s.window job at s) (fill-Sends P job reads s.window at s h)
        (fill-NoSuccess s.window at s)
