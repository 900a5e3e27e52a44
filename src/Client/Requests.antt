-- ===== src/Client/Requests.antt =====
-- What the requests of internal/masso/client.go bring back, whatever the rest of the program does.
use mink_lasso.Base.{
  ℕ, zero, suc, ◌+◌, ◌≤◌, ◌≡◌, ◌≢◌, ◌⊎◌, refl, inl, inr, Bool, Bool-cases, Option, Option-cases,
  arith,
}
use mink_lasso.Masso.Errors.{no_response, Result, ok, err}
use mink_lasso.Masso.Reply.{Reply}
use mink_lasso.Client.State.{UdpAddr, Incoming, Client, expect, cancel, receive}
use mink_lasso.Client.Waiters.{cancels, receives}
use mink_lasso.Client.Routing.{Fits}
use mink_lasso.Client.Asking.{
  Good, Asking, Steps, Step-Good, Step-Asking, Steps-Asking, expect-Asking, Asking-receive,
}
use mink_lasso.Client.Exchange.{
  Wake, done, expired, replied, Attempt, Call, count_send, wake_up, attempt, request,
}

-- A reply that came in an answer to what was asked.
abbrev pub Asked : ℕ → Option UdpAddr → (Reply → Bool) → Result Reply → Type 0
Asked typ from matches (err e) = Unit
Asked typ from matches (ok r) = (m : Incoming) × (m.reply ≡ r) × Fits typ from matches m

-- The rest of the program takes steps during each wait.
abbrev pub Fair : (ℕ → Attempt) → Type 0
Fair tries = (i : ℕ) (c : Client) → Steps c ((tries i).meanwhile c)

-- No more sends than attempts, and as many where none was answered.
abbrev pub Counted : ℕ → Call (Result Reply) → Type 0
Counted n k = (k.sends ≤ n) × ((k.result ≢ err no_response) ⊎ (k.sends ≡ n))

module _ (typ : ℕ) (from : Option UdpAddr) (matches : Reply → Bool) where
  record Brought (id n : ℕ) (k : Call (Result Reply)) : Type 0 where
    asked : Asked typ from matches k.result
    counted : Counted n k
    asking : Asking typ id from matches k.client

  count_send-Brought :
      (id n : ℕ) (k : Call (Result Reply)) → Brought id n k → Brought id (suc n) (count_send k)
  count_send-Brought id n k h = record {
    asked = h.asked;
    counted = (
      omega (arith, h.counted.0),
      elim h.counted.1 [ inl other ↦ inl other | inr all ↦ inr (omega (arith, all)) ],
    );
    asking = h.asking;
  }

  wake_up-Brought :
      (id n : ℕ) (w : Wake) (c : Client) (others : Call (Result Reply))
      → Asking typ id from matches c
      → Brought id n others
      → Brought id n (wake_up typ id w c others)
  wake_up-Brought id n done c others h k = record {
    asked = tt;
    counted = (omega arith, inl (λ e. cc));
    asking = h;
  }
  wake_up-Brought id n expired c others h k = k
  wake_up-Brought id n replied c others h k = elim (Option-cases (receive typ id c)) [
    | inl e ↦ rw e k
    | inr ((m, d), e) ↦ rw e (record {
      asked = (m, refl, Asking-receive typ id from matches c d m h e);
      counted = (omega arith, inl (λ x. cc));
      asking = Step-Asking typ id from matches c d (receives c d typ id m e) h;
    })
  ]

  attempt-Brought :
      (id n i : ℕ) (tries : ℕ → Attempt) (c : Client)
      → Fair tries
      → Asking typ id from matches c
      → Brought id n (attempt typ id tries n i c)
  unfolding attempt
  attempt-Brought id zero i tries c fair h = record {
    asked = tt;
    counted = (omega arith, inr refl);
    asking = h;
  }
  attempt-Brought id (suc n) i tries c fair h =
      let d = (tries i).meanwhile c in
      let k = Steps-Asking typ id from matches c d (fair i c) h in
      let others = attempt-Brought id n (i + 1) tries d fair k in
      elim (Bool-cases (tries i).sent) [
        | inl p ↦ rw p (
            count_send-Brought id n
              (wake_up typ id (tries i).wake d (attempt typ id tries n (i + 1) d))
              (wake_up-Brought id n (tries i).wake d (attempt typ id tries n (i + 1) d) k others))
        | inr p ↦ rw p (record { asked = tt; counted = (omega arith, inl (λ e. cc)); asking = h })
      ]

  -- Whatever the rest of the program does meanwhile, and however the waits end: a reply that a request
  -- returns is of the type that was asked for, matches, and comes from the controller that was named;
  -- the request is sent at most as often as allowed; it fails for want of an answer only after all
  -- attempts; and the client is in order afterwards.
  pub request-Asked :
      (attempts : ℕ) (tries : ℕ → Attempt) (c : Client)
      → Fair tries
      → Good c
      → Asked typ from matches (request typ from matches attempts tries c).result
        × Counted attempts (request typ from matches attempts tries c)
        × Good (request typ from matches attempts tries c).client
  unfolding request
  request-Asked attempts tries c fair good =
      let (d, id) = expect typ from matches c in
      let h =
        attempt-Brought (expect typ from matches c).1 attempts 0 tries (expect typ from matches c).0
          fair (expect-Asking typ from matches c good) in
      let k =
        attempt typ (expect typ from matches c).1 tries attempts 0 (expect typ from matches c).0 in
      (
        h.asked,
        h.counted,
        Step-Good k.client (cancel typ (expect typ from matches c).1 k.client)
            (cancels k.client typ (expect typ from matches c).1) h.asking.good,
      )
