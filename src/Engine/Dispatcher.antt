-- ===== src/Engine/Dispatcher.antt =====
-- internal/engine/dispatcher.go: the queue of events between the engine and its reader, and the thinning of
-- progress events. Times and intervals are in nanoseconds.
use mink_lasso.Base.{◌≡◌, ◌⊎◌, Bool, true, false, ◌||◌, List, [], ◌∷◌, ◌++◌, if◌then◌else◌}

pub record Dispatcher (A : Type 0) : Type 0 where
  pub queue : List A
  pub closed : Bool

-- What the mutex and the channel make one step: an emit, the close, and a turn of `run`'s loop.
pub data Op (A : Type 0) : Type 0 where
  emits : A → Op A
  closes : Op A
  turns : Op A

-- The dispatcher, what its reader has received, and whether `run` has returned.
pub record Served (A : Type 0) : Type 0 where
  pub dispatcher : Dispatcher A
  pub delivered : List A
  pub returned : Bool

module _ {A : Type 0} where
  unfoldable pub emit : A → Dispatcher A → Dispatcher A
  emit ev d = if d.closed then d else record d { queue = d.queue ++ ev ∷ [] }

  abbrev pub close : Dispatcher A → Dispatcher A
  close d = record d { closed = true }

  -- A turn with an empty queue is the wait, unless the dispatcher is closed.
  abbrev pub run_queue : List A → Served A → Served A
  run_queue [] s = record s { returned = s.returned || s.dispatcher.closed }
  run_queue (ev ∷ queue) s = record s {
    dispatcher = record { queue = queue; closed = s.dispatcher.closed };
    delivered = s.delivered ++ ev ∷ [];
  }

  -- A turn of `run`.
  unfoldable pub run_turn : Served A → Served A
  run_turn s = if s.returned then s else run_queue s.dispatcher.queue s

  unfoldable pub operate : Op A → Served A → Served A
  unfolding emit run_turn
  operate (emits ev) s = record s { dispatcher = emit ev s.dispatcher }
  operate closes s = record s { dispatcher = close s.dispatcher }
  operate turns s = run_turn s

  -- Operations in turn, the last one first in the list.
  unfoldable pub serve : List (Op A) → Served A
  unfolding operate
  serve [] = record {
    dispatcher = record { queue = []; closed = false };
    delivered = [];
    returned = false;
  }
  serve (op ∷ before) = operate op (serve before)

  -- The specification: the events emitted before the close, in their order.
  abbrev pub is_closed : List (Op A) → Bool
  is_closed [] = false
  is_closed (closes ∷ before) = true
  is_closed (emits ev ∷ before) = is_closed before
  is_closed (turns ∷ before) = is_closed before

  unfoldable pub accepted : List (Op A) → List A
  accepted [] = []
  accepted (closes ∷ before) = accepted before
  accepted (turns ∷ before) = accepted before
  accepted (emits ev ∷ before) =
      let earlier = accepted before in if is_closed before then earlier else earlier ++ ev ∷ []

  record Queued (ops : List (Op A)) (s : Served A) : Type 0 where
    in_order : s.delivered ++ s.dispatcher.queue ≡ accepted ops
    shut : s.dispatcher.closed ≡ is_closed ops
    drained : (s.returned ≡ false) ⊎ ((s.dispatcher.queue ≡ []) × (is_closed ops ≡ true))
