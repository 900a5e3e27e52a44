-- ===== src/Engine/Queue/Manual.antt =====
-- A manual send and the watcher's own report of the same file (internal/engine/scheduler.go, `sendFile`
-- and `ready`).
use mink_lasso.Base.{
  ℕ, ◌≡◌, refl, ◌∙◌, ap, true, false, ◌&&◌, List, [], some, ◌==◌, arith, Bool-cases, Option-cases,
  inl, inr,
}
use mink_lasso.Base.Maps.{bytes_eq_iff, lookup, lookup-insert}
use mink_lasso.Masso.Words.{Bytes}
use mink_lasso.Engine.Queue.{
  Item, Queue, TransferEvent, put, join_path, new_item, place, add_item, item_locked, rearm, File,
  has_content, ready, make_manual, send_file,
}

-- The name's row leads to an item that is no orphan.
record Locked (name : Bytes) (a : ℕ) (q : Queue) : Type 0 where
  row : lookup name q.rows ≡ some a
  live : (q.heap a).orphaned ≡ false

put-heap : (a : ℕ) (it : Item) (q : Queue) → (put a it q).heap a ≡ it
put-heap a it q = let same : (a == a) ≡ true = ground arith in rw same refl

add_item-Locked :
    (name root dir base : Bytes) (q : Queue)
    → Locked name (add_item name root dir base q).1 (add_item name root dir base q).0
add_item-Locked name root dir base q = record {
  row = lookup-insert name name q.fresh q.rows ∙ rw ((bytes_eq_iff name name).1 refl) refl;
  live = ap (λ (it : Item). it.orphaned) (put-heap q.fresh (place root dir base (new_item name)) q);
}

item_locked-Locked :
    (root dir base : Bytes) (q : Queue)
    → Locked (join_path dir base) (item_locked root dir base q).1 (item_locked root dir base q).0
unfolding item_locked
item_locked-Locked root dir base q = elim (Option-cases (lookup (join_path dir base) q.rows)) [
  | inl new ↦ rw (new, item_locked) (add_item-Locked (join_path dir base) root dir base q)
  | inr (a, known) ↦ elim (Bool-cases (q.heap a).orphaned) [
    | inl orphan ↦
        rw (known, orphan, item_locked) (add_item-Locked (join_path dir base) root dir base q)
    | inr live ↦
        rw (known, live, item_locked)
          (record {
            row = known;
            live =
                ap (λ (it : Item). it.orphaned)
                  (put-heap a (record (place root dir base (q.heap a)) { orphaned = false }) q);
          })
  ]
]

relocked :
    (root dir base : Bytes) (a : ℕ) (q : Queue)
    → Locked (join_path dir base) a q
    → item_locked root dir base q ≡ (put a (place root dir base (q.heap a)) q, a)
unfolding item_locked
relocked root dir base a q h = rw (h.row, h.live, item_locked) refl

make_manual-fields :
    (f : File) (it : Item)
    → ((make_manual f it).orphaned ≡ it.orphaned)
      × ((make_manual f it).manual ≡ true)
      × ((make_manual f it).path ≡ f.path)
      × ((make_manual f it).size ≡ f.size)
      × ((make_manual f it).mod_time ≡ f.mod_time)
unfolding make_manual rearm
make_manual-fields f it = ground arith

make_manual-has_content : (f : File) (it : Item) → has_content f (make_manual f it) ≡ true
make_manual-has_content f it =
    let (orphaned, manual, path, size, time) = make_manual-fields f it in
    let same = (bytes_eq_iff (make_manual f it).path f.path).1 path in
    ground (arith, same, size, time)

ready-manual :
    (root dir base : Bytes) (f : File) (later a : ℕ) (q : Queue)
    → Locked (join_path dir base) a q
    → (q.heap a).manual ≡ true
    → has_content f (q.heap a) ≡ true
    → ready root dir base f later q ≡ (put a (place root dir base (q.heap a)) q, [])
unfolding ready
ready-manual root dir base f later a q h manual same =
    let placed = place root dir base (q.heap a) in
    let q' = put a placed q in
    let there = put-heap a placed q in
    let skips : ((q'.heap a).manual && has_content f (q'.heap a)) ≡ true =
      ap (λ (it : Item). it.manual && has_content f it) there ∙ ground (arith, manual, same) in
    rw (relocked root dir base a q h, ready) (rw skips refl)

sent_to :
    (root dir base : Bytes) (f : File) (now : ℕ) (q : Queue)
    → (send_file root dir base f now q).0
      ≡ put
          (item_locked root dir base q).1
          (make_manual f ((item_locked root dir base q).0.heap (item_locked root dir base q).1))
          (item_locked root dir base q).0
unfolding send_file
sent_to root dir base f now q = refl

-- After the operator sends a file by hand, a report of the watcher of just the same file changes
-- nothing and is not passed on: the item stays a manual send, in the state that it has.
pub ready-send_file :
    (root dir base : Bytes) (f : File) (now later : ℕ) (q : Queue)
    → let a = (item_locked root dir base q).1 in
      let sent = (send_file root dir base f now q).0 in
      let seen = ready root dir base f later sent in
      (seen.1 ≡ [])
      × (seen.0.heap a ≡ place root dir base (sent.heap a))
      × ((seen.0.heap a).manual ≡ true)
ready-send_file root dir base f now later q =
    let a = (item_locked root dir base q).1 in
    let q₁ = (item_locked root dir base q).0 in
    let made = make_manual f (q₁.heap a) in
    let q₂ = put a made q₁ in
    let locked = item_locked-Locked root dir base q in
    let there = put-heap a made q₁ in
    let (orphaned, manual, path, size, time) = make_manual-fields f (q₁.heap a) in
    let locked' : Locked (join_path dir base) a q₂ = record {
      row = locked.row;
      live = ap (λ (it : Item). it.orphaned) there ∙ orphaned ∙ locked.live;
    } in
    let manual' = ap (λ (it : Item). it.manual) there ∙ manual in
    let seen =
      ready-manual root dir base f later a q₂ locked' manual'
        (ap (has_content f) there ∙ make_manual-has_content f (q₁.heap a)) in
    let item = put-heap a (place root dir base (q₂.heap a)) q₂ in
    let after = ap (λ (r : Queue × List TransferEvent). r.0.heap a) seen ∙ item in
    rw (sent_to root dir base f now q) (
      ap (λ (r : Queue × List TransferEvent). r.1) seen,
      after,
      ap (λ (it : Item). it.manual) after ∙ manual',
    )
