-- ===== src/Client/Routing.antt =====
-- The routing of replies in internal/masso/client.go: what a waiter may find in its channel.
use mathlib.Core.List.{Memᴰ}
use mathlib.Core.List.Memᴰ.{head, tail}
use mathlib.Core.Path.{subst}
use mink_lasso.Base.{
  ℕ, ◌≤◌, ◌≡◌, refl, ap, inl, inr, Bool, Bool-cases, true, false, not, ◌||◌, Option, none, some,
  List, [], ◌∷◌, length, length-append, All, All-append, arith, ltb, ltb→lt, ◌==◌,
}
use mink_lasso.Masso.Reply.{Reply}
use mink_lasso.Client.Waiters.{Step, Kept, Holds, NewHolds, Step-Holds}
use mink_lasso.Client.State.{
  UdpAddr, Incoming, Waiter, Client, new_client, waiter_buffer, is_foreign, reply_type_of, offer,
  pop, keep_first, take_reply, put_taken, receive,
}

-- A reply is of the waiter's type, is one that it matches, and is from where it asked.
pub record Fits (typ : ℕ) (from : Option UdpAddr) (matches : Reply → Bool) (m : Incoming)
    : Type 0 where
  pub typed : reply_type_of m.reply ≡ typ
  pub matched : matches m.reply ≡ true
  pub from_there : is_foreign m.addr from ≡ false

pub record SoundWaiter (typ : ℕ) (w : Waiter) : Type 0 where
  pub fits : All (Fits typ w.from w.matches) w.buffer
  pub room : length w.buffer ≤ waiter_buffer

abbrev pub Sound : Client → Type 0
Sound c = Holds SoundWaiter c

pub data Reach : Client → Type 0 where
  begins : Reach new_client
  goes_on : (c d : Client) → Reach c → Step c d → Reach d

offer-Sound :
    (m : Incoming) (w : Waiter)
    → SoundWaiter (reply_type_of m.reply) w
    → SoundWaiter (reply_type_of m.reply) (offer m w)
unfolding offer
offer-Sound m w h = elim (Bool-cases (is_foreign m.addr w.from || not (w.matches m.reply))) [
  | inl p ↦ rw p h
  | inr p ↦ rw p (elim (Bool-cases (ltb (length w.buffer) waiter_buffer)) [
    | inl q ↦ rw q (record {
      fits =
          All-append (Fits (reply_type_of m.reply) w.from w.matches) w.buffer (m ∷ []) h.fits
            (record { typed = refl; matched = ground arith; from_there = ground arith }, tt);
      room =
          omega (arith, length-append w.buffer (m ∷ []), ltb→lt (length w.buffer) waiter_buffer q);
    })
    | inr q ↦ rw q h
  ])
]

pop-Sound :
    (typ : ℕ) (w : Waiter) (m : Incoming) (ms : List Incoming)
    → w.buffer ≡ m ∷ ms
    → SoundWaiter typ w
    → SoundWaiter typ (record w { buffer = ms })
pop-Sound typ w m ms b h = record {
  fits = (subst (λ (l : List Incoming). All (Fits typ w.from w.matches) l) b h.fits).1;
  room = omega (arith, h.room, ap length b);
}

pub SoundWaiter-Kept : Kept SoundWaiter
SoundWaiter-Kept = record { offers = offer-Sound; pops = pop-Sound }

pub SoundWaiter-NewHolds : (c : Client) → NewHolds SoundWaiter c
SoundWaiter-NewHolds c typ from matches = record { fits = tt; room = omega arith }

pub Step-Sound : (c d : Client) → Step c d → Sound c → Sound d
Step-Sound c d st h = Step-Holds SoundWaiter SoundWaiter-Kept c d st (λ e. SoundWaiter-NewHolds c) h

-- What a receive from a registration gives, if it gives a reply: one that fits a waiter that stands
-- there under the number.
abbrev Taken : ℕ → ℕ → List Waiter → Option (Incoming × List Waiter) → Type 0
Taken typ id ws none = Unit
Taken typ id ws (some (m, rest)) =
    (w : Waiter) × Memᴰ w ws × (w.id ≡ id) × Fits typ w.from w.matches m

pop-Taken :
    (typ id : ℕ) (w : Waiter) (buffer : List Incoming) (ws : List Waiter)
    → w.buffer ≡ buffer
    → w.id ≡ id
    → SoundWaiter typ w
    → Taken typ id (w ∷ ws) (pop w buffer ws)
pop-Taken typ id w [] ws b e h = tt
pop-Taken typ id w (m ∷ ms) ws b e h =
    (w, head refl, e, (subst (λ (l : List Incoming). All (Fits typ w.from w.matches) l) b h.fits).0)

keep_first-Taken :
    (typ id : ℕ) (w : Waiter) (ws : List Waiter) (o : Option (Incoming × List Waiter))
    → Taken typ id ws o
    → Taken typ id (w ∷ ws) (keep_first w o)
keep_first-Taken typ id w ws none t = tt
keep_first-Taken typ id w ws (some (m, rest)) (v, mem, e, fits) = (v, tail mem, e, fits)

take_reply-Taken :
    (typ id : ℕ) (ws : List Waiter) → All (SoundWaiter typ) ws → Taken typ id ws (take_reply id ws)
unfolding take_reply
take_reply-Taken typ id [] h = tt
take_reply-Taken typ id (w ∷ ws) h = elim (Bool-cases (w.id == id)) [
  | inl p ↦ rw p (pop-Taken typ id w w.buffer ws refl (ground arith) h.0)
  | inr p ↦ rw p (keep_first-Taken typ id w ws (take_reply id ws) (take_reply-Taken typ id ws h.1))
]

-- A receive in a sound client.
abbrev Received : ℕ → ℕ → Client → Option (Incoming × Client) → Type 0
Received typ id c none = Unit
Received typ id c (some (m, d)) =
    (w : Waiter) × Memᴰ w (c.waiters typ) × (w.id ≡ id) × Fits typ w.from w.matches m

put_taken-Received :
    (typ id : ℕ) (c : Client) (o : Option (Incoming × List Waiter))
    → Taken typ id (c.waiters typ) o
    → Received typ id c (put_taken typ c o)
put_taken-Received typ id c none t = tt
put_taken-Received typ id c (some (m, ws)) t = t

pub Sound-receive :
    (typ id : ℕ) (c d : Client) (m : Incoming)
    → Sound c
    → receive typ id c ≡ some (m, d)
    → (w : Waiter) × Memᴰ w (c.waiters typ) × (w.id ≡ id) × Fits typ w.from w.matches m
unfolding receive
Sound-receive typ id c d m h e = subst (Received typ id c) e (
    put_taken-Received typ id c (take_reply id (c.waiters typ))
      (take_reply-Taken typ id (c.waiters typ) (h typ)))

Reach-Sound : (c : Client) → Reach c → Sound c
Reach-Sound _ begins = λ typ. tt
Reach-Sound _ (goes_on c d r st) = Step-Sound c d st (Reach-Sound c r)

-- Whatever datagrams come in, and in whatever order waiters come and go: a reply that is received from
-- a registration is of the type that was registered, matches what was asked for, and comes from the
-- controller's IP address if one was named; and so is each reply in the channels, none of which holds
-- more than 32.
pub receive-Fits :
    (c d : Client) (typ id : ℕ) (m : Incoming)
    → Reach c
    → receive typ id c ≡ some (m, d)
    → ((w : Waiter) × Memᴰ w (c.waiters typ) × (w.id ≡ id) × Fits typ w.from w.matches m) × Sound c
receive-Fits c d typ id m r e = let h = Reach-Sound c r in (Sound-receive typ id c d m h e, h)
