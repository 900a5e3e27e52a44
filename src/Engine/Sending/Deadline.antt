-- ===== src/Engine/Sending/Deadline.antt =====
-- internal/engine/scheduler.go: how long the sending goroutine waits when there is nothing to send, in nanoseconds.
use mink_lasso.Base.{
  ℕ, ◌+◌, ◌-◌, ◌≤◌, ◌<◌, ◌≡◌, ◌⊎◌, refl, inl, inr, Bool, Bool-cases, true, false, Option,
  Option-cases, none, some, List, [], ◌∷◌, ltb, ltb→lt, ltb→le, if◌then◌else◌, arith,
}
use mink_lasso.Masso.Words.{Bytes}
use mink_lasso.Engine.Queue.{TransferState, pending, waiting, failed, Item, Queue}

abbrev pub has_deadline : TransferState → Bool
has_deadline pending = true
has_deadline waiting = true
has_deadline failed = true
has_deadline _ = false

-- The time that counts for an item, if any.
abbrev pub deadline_of : Item → Option ℕ
deadline_of it = if has_deadline it.state then it.next_attempt else none

abbrev pub sooner : Option ℕ → Option ℕ → Option ℕ
sooner none best = best
sooner (some t) none = some t
sooner (some t) (some best) = if ltb t best then some t else some best

unfoldable pub earliest : Option ℕ → List (Bytes × ℕ) → (ℕ → Item) → Option ℕ
earliest best [] heap = best
earliest best ((name, a) ∷ rows) heap = earliest (sooner (deadline_of (heap a)) best) rows heap

abbrev pub millisecond : ℕ
millisecond = 1_000_000

abbrev pub until : ℕ → Option ℕ → ℕ
until now none = 0
until now (some t) = if ltb now t then t - now else millisecond

unfoldable pub next_deadline : ℕ → Queue → ℕ
unfolding earliest
next_deadline now q = until now (earliest none q.rows q.heap)

-- `t` is the deadline of one of the rows.
pub Pends : ℕ → List (Bytes × ℕ) → (ℕ → Item) → Type 0
Pends t [] heap = ⊥
Pends t ((name, a) ∷ rows) heap = (deadline_of (heap a) ≡ some t) ⊎ Pends t rows heap

abbrev NoLater : ℕ → Option ℕ → Type 0
NoLater t none = ⊥
NoLater t (some best) = best ≤ t

sooner-best : (o best : Option ℕ) (t : ℕ) → NoLater t best → NoLater t (sooner o best)
sooner-best none best t h = h
sooner-best (some u) none t h = elim h [ ]
sooner-best (some u) (some best) t h = elim (Bool-cases (ltb u best)) [
  | inl q ↦ rw q (let before = ltb→lt u best q in omega arith)
  | inr q ↦ rw q h
]

absent : {t : ℕ} → none ≡ some t → ⊥
absent e = cc

sooner-own : (o best : Option ℕ) (t : ℕ) → o ≡ some t → NoLater t (sooner o best)
sooner-own none best t e = elim (absent e) [ ]
sooner-own (some u) none t e = ground arith
sooner-own (some u) (some best) t e = elim (Bool-cases (ltb u best)) [
  | inl q ↦ rw q (ground arith)
  | inr q ↦ rw q (let before = ltb→le u best q in ground arith)
]

earliest-best :
    (best : Option ℕ) (rows : List (Bytes × ℕ)) (heap : ℕ → Item) (t : ℕ)
    → NoLater t best
    → NoLater t (earliest best rows heap)
unfolding earliest
earliest-best best [] heap t h = h
earliest-best best ((name, a) ∷ rows) heap t h =
    earliest-best (sooner (deadline_of (heap a)) best) rows heap t
      (sooner-best (deadline_of (heap a)) best t h)

earliest-NoLater :
    (best : Option ℕ) (rows : List (Bytes × ℕ)) (heap : ℕ → Item) (t : ℕ)
    → Pends t rows heap
    → NoLater t (earliest best rows heap)
unfolding earliest Pends
earliest-NoLater best [] heap t h = elim h [ ]
earliest-NoLater best ((name, a) ∷ rows) heap t (inl e) =
    earliest-best (sooner (deadline_of (heap a)) best) rows heap t
      (sooner-own (deadline_of (heap a)) best t e)
earliest-NoLater best ((name, a) ∷ rows) heap t (inr h) =
    earliest-NoLater (sooner (deadline_of (heap a)) best) rows heap t h

sooner-one : (o best : Option ℕ) (t : ℕ) → sooner o best ≡ some t → (best ≡ some t) ⊎ (o ≡ some t)
sooner-one none best t e = inl e
sooner-one (some u) none t e = inr e
sooner-one (some u) (some best) t e = ground arith

earliest-Pends :
    (best : Option ℕ) (rows : List (Bytes × ℕ)) (heap : ℕ → Item) (t : ℕ)
    → earliest best rows heap ≡ some t
    → (best ≡ some t) ⊎ Pends t rows heap
unfolding earliest Pends
earliest-Pends best [] heap t e = inl e
earliest-Pends best ((name, a) ∷ rows) heap t e =
    elim (earliest-Pends (sooner (deadline_of (heap a)) best) rows heap t e) [
      | inl now ↦ elim (sooner-one (deadline_of (heap a)) best t now) [
        | inl same ↦ inl same
        | inr own ↦ inr (inl own)
      ]
      | inr later ↦ inr (inr later)
    ]

wakes :
    (now t : ℕ) (best : Option ℕ)
    → NoLater t best
    → (0 < until now best) × ((now + until now best ≤ t) ⊎ (until now best ≡ millisecond))
wakes now t none h = elim h [ ]
wakes now t (some best) h = elim (Bool-cases (ltb now best)) [
  | inl q ↦ rw q (let after = ltb→lt now best q in (omega arith, inl (omega arith)))
  | inr q ↦ rw q (omega arith, inr refl)
]

waited :
    (now t : ℕ) → (t ≡ now + until now (some t)) ⊎ ((t ≤ now) × (until now (some t) ≡ millisecond))
waited now t = elim (Bool-cases (ltb now t)) [
  | inl q ↦ rw q (let after = ltb→lt now t q in inl (omega arith))
  | inr q ↦ rw q (inr (ltb→le now t q, refl))
]

-- The wait is never longer than up to the earliest deadline of a pending, waiting or failed row: it is positive
-- where there is such a deadline `t`, and ends at `t` or before, unless it is a millisecond. And a wait
-- that is not zero ends at such a deadline, or is a millisecond where one is past.
pub next_deadline-Pends :
    (now : ℕ) (q : Queue)
    → ((t : ℕ)
        → Pends t q.rows q.heap
        → (0 < next_deadline now q)
          × ((now + next_deadline now q ≤ t) ⊎ (next_deadline now q ≡ millisecond)))
      × ((next_deadline now q ≡ 0)
          ⊎ ((t : ℕ) × Pends t q.rows q.heap
              × ((t ≡ now + next_deadline now q)
                  ⊎ ((t ≤ now) × (next_deadline now q ≡ millisecond)))))
unfolding next_deadline
next_deadline-Pends now q = (
  λ t h. wakes now t (earliest none q.rows q.heap) (earliest-NoLater none q.rows q.heap t h),
  elim (Option-cases (earliest none q.rows q.heap)) [
    | inl none_left ↦ rw none_left (inl refl)
    | inr (t, e) ↦ elim (earliest-Pends none q.rows q.heap t e) [
      | inl nothing ↦ elim (absent nothing) [ ]
      | inr pends ↦ rw e (inr (t, pends, waited now t))
    ]
  ],
)
