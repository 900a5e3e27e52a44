-- ===== src/Engine/Sending/Order.antt =====
-- `compareItems` of internal/engine/scheduler.go is a total order, and `next` picks the least item.
use mathlib.Core.List.{Memᴰ}
use mathlib.Core.List.Memᴰ.{head, tail}
use mathlib.Core.Path.{subst}
use Prim.Native.Nat.{Ordering}
use mink_lasso.Base.{
  ℕ, ◌≡◌, ◌≢◌, refl, sym, ap, true, false, List, [], ◌∷◌, some, arith, Bool-cases, inl, inr, All,
}
use mink_lasso.Masso.Words.{Bytes}
use mink_lasso.Engine.Gate.{Verdict, is_open}
use mink_lasso.Engine.Queue.{Item, Queue, is_candidate}
use mink_lasso.Engine.Sending.{
  compare_bytes, compare_items, is_after, insert_sorted, sort_items, candidates, take_first, next,
}

bytes-total :
    (xs ys : Bytes) → is_after (compare_bytes xs ys) ≡ true → is_after (compare_bytes ys xs) ≡ false
unfolding compare_bytes
bytes-total [] [] h = cc
bytes-total [] (y ∷ ys) h = cc
bytes-total (x ∷ xs) [] h = refl
bytes-total (x ∷ xs) (y ∷ ys) h = ground (arith, bytes-total xs ys)

bytes_trans :
    (xs ys zs : Bytes)
    → is_after (compare_bytes xs ys) ≡ false
    → is_after (compare_bytes ys zs) ≡ false
    → is_after (compare_bytes xs zs) ≡ false
unfolding compare_bytes
bytes_trans [] ys [] h k = refl
bytes_trans [] ys (z ∷ zs) h k = refl
bytes_trans (x ∷ xs) [] zs h k = cc
bytes_trans (x ∷ xs) (y ∷ ys) [] h k = cc
bytes_trans (x ∷ xs) (y ∷ ys) (z ∷ zs) h k = ground (arith, bytes_trans xs ys zs)

items-total :
    (a b : Item) → is_after (compare_items a b) ≡ true → is_after (compare_items b a) ≡ false
unfolding compare_items
items-total a b h = ground (arith, bytes-total a.name b.name, h)

items_trans :
    (a b c : Item)
    → is_after (compare_items a b) ≡ false
    → is_after (compare_items b c) ≡ false
    → is_after (compare_items a c) ≡ false
unfolding compare_items
items_trans a b c h k = ground (arith, bytes_trans a.name b.name c.name, h, k)

-- The item at `a` is not after any of a list.
abbrev IsLeast : (ℕ → Item) → ℕ → List ℕ → Type 0
IsLeast heap a l = All (λ (b : ℕ). is_after (compare_items (heap a) (heap b)) ≡ false) l

abbrev IsSorted : (ℕ → Item) → List ℕ → Type 0
IsSorted heap [] = Unit
IsSorted heap (a ∷ l) = IsLeast heap a l × IsSorted heap l

module _ (heap : ℕ → Item) where
  All-insert_sorted :
      (P : ℕ → Type 0) (a : ℕ) (l : List ℕ) → P a → All P l → All P (insert_sorted heap a l)
  unfolding insert_sorted
  All-insert_sorted P a [] h k = (h, tt)
  All-insert_sorted P a (b ∷ l) h k =
      elim (Bool-cases (is_after (compare_items (heap a) (heap b)))) [
        | inl after ↦ rw (after, insert_sorted) (k.0, All-insert_sorted P a l h k.1)
        | inr before ↦ rw (before, insert_sorted) (h, k)
      ]

  IsLeast-trans :
      (a b : ℕ) (l : List ℕ)
      → is_after (compare_items (heap a) (heap b)) ≡ false
      → IsLeast heap b l
      → IsLeast heap a l
  IsLeast-trans a b [] h k = tt
  IsLeast-trans a b (c ∷ l) h k =
      (items_trans (heap a) (heap b) (heap c) h k.0, IsLeast-trans a b l h k.1)

  IsSorted-insert_sorted :
      (a : ℕ) (l : List ℕ) → IsSorted heap l → IsSorted heap (insert_sorted heap a l)
  unfolding insert_sorted
  IsSorted-insert_sorted a [] h = (tt, tt)
  IsSorted-insert_sorted a (b ∷ l) h =
      elim (Bool-cases (is_after (compare_items (heap a) (heap b)))) [
        | inl after ↦
            rw (after, insert_sorted)
              (
                All-insert_sorted (λ (c : ℕ). is_after (compare_items (heap b) (heap c)) ≡ false) a
                    l (items-total (heap a) (heap b) after) h.0,
                IsSorted-insert_sorted a l h.1,
              )
        | inr before ↦ rw (before, insert_sorted) ((before, IsLeast-trans a b l before h.0), h)
      ]

  sort_items-IsSorted : (l : List ℕ) → IsSorted heap (sort_items heap l)
  unfolding sort_items
  sort_items-IsSorted [] = tt
  sort_items-IsSorted (a ∷ l) = IsSorted-insert_sorted a (sort_items heap l) (sort_items-IsSorted l)

  All-sort_items : (P : ℕ → Type 0) (l : List ℕ) → All P l → All P (sort_items heap l)
  unfolding sort_items
  All-sort_items P [] h = tt
  All-sort_items P (a ∷ l) h =
      All-insert_sorted P a (sort_items heap l) h.0 (All-sort_items P l h.1)

  -- Nothing is lost by sorting.
  All-unsort :
      (P : ℕ → Type 0) (a : ℕ) (l : List ℕ) → All P (insert_sorted heap a l) → P a × All P l
  unfolding insert_sorted
  All-unsort P a [] h = (h.0, tt)
  All-unsort P a (b ∷ l) h = elim (Bool-cases (is_after (compare_items (heap a) (heap b)))) [
    | inl after ↦
        let k : All P (b ∷ insert_sorted heap a l) = rw (after, insert_sorted) at h in
        let r = All-unsort P a l k.1 in (r.0, (k.0, r.1))
    | inr before ↦ let k : All P (a ∷ b ∷ l) = rw (before, insert_sorted) at h in (k.0, k.1)
  ]

  All-unsorted : (P : ℕ → Type 0) (l : List ℕ) → All P (sort_items heap l) → All P l
  unfolding sort_items
  All-unsorted P [] h = tt
  All-unsorted P (a ∷ l) h =
      let r = All-unsort P a (sort_items heap l) h in (r.0, All-unsorted P l r.1)

  All-candidates :
      (now : ℕ) (rows : List (Bytes × ℕ))
      → All (λ (a : ℕ). is_candidate now (heap a) ≡ true) (candidates now heap rows)
  unfolding candidates
  All-candidates now [] = tt
  All-candidates now ((name, a) ∷ rows) = elim (Bool-cases (is_candidate now (heap a))) [
    | inl fits ↦ rw (fits, candidates) (fits, All-candidates now rows)
    | inr unfit ↦ rw (unfit, candidates) (All-candidates now rows)
  ]

  candidate-found :
      (P : ℕ → Type 0) (now b : ℕ) (name : Bytes) (rows : List (Bytes × ℕ))
      → Memᴰ (name, b) rows
      → is_candidate now (heap b) ≡ true
      → All P (candidates now heap rows)
      → P b
  unfolding candidates
  candidate-found P now b name [] m h k = elim m [ ]
  candidate-found P now b name ((other, a) ∷ rows) m h k = elim m [
    | head same ↦
        let e : b ≡ a = ap (λ (p : Bytes × ℕ). p.1) same in
        let fits : is_candidate now (heap a) ≡ true =
          subst (λ (c : ℕ). is_candidate now (heap c) ≡ true) e h in
        let l : All P (a ∷ candidates now heap rows) = rw (fits, candidates) at k in
        subst P (sym e) l.0
    | tail rest ↦ elim (Bool-cases (is_candidate now (heap a))) [
      | inl fits ↦
          let l : All P (a ∷ candidates now heap rows) = rw (fits, candidates) at k in
          candidate-found P now b name rows rest h l.1
      | inr unfit ↦
          let l : All P (candidates now heap rows) = rw (unfit, candidates) at k in
          candidate-found P now b name rows rest h l
    ]
  ]

  -- The first of a sorted list is least, itself included.
  head-IsLeast :
      (a : ℕ) (l : List ℕ)
      → is_after (compare_items (heap a) (heap a)) ≡ false
      → IsSorted heap (a ∷ l)
      → IsLeast heap a (a ∷ l)
  head-IsLeast a l h k = (h, k.0)

bytes-same : (xs : Bytes) → is_after (compare_bytes xs xs) ≡ false
unfolding compare_bytes
bytes-same [] = refl
bytes-same (x ∷ xs) = ground (arith, bytes-same xs)

items-same : (a : Item) → is_after (compare_items a a) ≡ false
unfolding compare_items
items-same a = ground (arith, bytes-same a.name)

take_first-head :
    (l : List ℕ) (q : Queue) (a : ℕ) → (take_first l q).1 ≡ some a → (r : List ℕ) × (l ≡ a ∷ r)
take_first-head [] q a e = absurd (cc e)
take_first-head (b ∷ r) q a e = (r, cc e)

not_after : (o : Ordering) → is_after o ≡ false → o ≢ Ordering.gt
not_after Ordering.lt h e = cc e
not_after Ordering.eq h e = cc e
not_after Ordering.gt h e = cc h

picked :
    (v : Verdict) (now a : ℕ) (q : Queue)
    → is_open v ≡ true
    → (next v now q).0.1 ≡ some a
    → (r : List ℕ) × (sort_items q.heap (candidates now q.heap q.rows) ≡ a ∷ r)
unfolding next
picked v now a q h e =
    take_first-head (sort_items q.heap (candidates now q.heap q.rows)) q a (rw h at e)

-- Through an open gate `next` picks an item that may be sent now, and no other item of the queue
-- that may be sent now comes before it.
pub next-least :
    (v : Verdict) (now a b : ℕ) (name : Bytes) (q : Queue)
    → is_open v ≡ true
    → (next v now q).0.1 ≡ some a
    → Memᴰ (name, b) q.rows
    → is_candidate now (q.heap b) ≡ true
    → (is_candidate now (q.heap a) ≡ true) × (compare_items (q.heap a) (q.heap b) ≢ Ordering.gt)
next-least v now a b name q h e m fits =
    let (r, shape) = picked v now a q h e in
    let found = All-candidates q.heap now q.rows in
    let IsFit = λ (c : ℕ). is_candidate now (q.heap c) ≡ true in
    let sorted =
      subst (IsSorted q.heap) shape (sort_items-IsSorted q.heap (candidates now q.heap q.rows)) in
    let fit =
      subst (All IsFit) shape (All-sort_items q.heap IsFit (candidates now q.heap q.rows) found) in
    let NotBefore = λ (c : ℕ). is_after (compare_items (q.heap a) (q.heap c)) ≡ false in
    let least = All-unsorted q.heap NotBefore (candidates now q.heap q.rows) (
      subst (All NotBefore) (sym shape) (head-IsLeast q.heap a r (items-same (q.heap a)) sorted)) in
    (
      fit.0,
      not_after (compare_items (q.heap a) (q.heap b))
          (candidate-found q.heap NotBefore now b name q.rows m fits least),
    )
