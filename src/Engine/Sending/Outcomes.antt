-- ===== src/Engine/Sending/Outcomes.antt =====
-- What becomes of an item after a send (internal/engine/scheduler.go).
use mathlib.Core.Path.{subst}
use mink_lasso.Base.{
  ℕ, ◌-◌, min, ◌≡◌, ◌≢◌, refl, sym, ◌∙◌, ap, Bool, true, false, not, ◌&&◌, ◌||◌, List, Option, none,
  some, ◌==◌, get_or, length, arith, Bool-cases, inl, inr,
}
use mink_lasso.Base.Maps.{bytes_eq, lookup, delete, lookup-delete, bytes_eq_iff}
use mink_lasso.Masso.Words.{Bytes}
use mink_lasso.Engine.Queue.{
  Message, folder_changed, Item, Queue, put, drop_locked, is_terminal, is_retryable,
}
use mink_lasso.Engine.Sending.{
  is_row, is_superseded, drop_orphan, finish_end, preflight_failed, OpenError,
}

abbrev delay : List ℕ → Item → ℕ
delay backoff it = get_or backoff (min it.fail_count (length backoff - 1)) 0

same-eq : (a : ℕ) → (a == a) ≡ true
same-eq a = ground arith

put-heap : (a : ℕ) (it : Item) (q : Queue) → (put a it q).heap a ≡ it
put-heap a it q = rw (same-eq a) refl

abbrev settled : Item → Item
settled it = record it { resend_after = false; sending = false }

drop_locked-rows :
    (a : ℕ) (m : Message) (now : ℕ) (q : Queue)
    → (drop_locked a m now q).0.rows ≡ delete (q.heap a).name q.rows
unfolding drop_locked
drop_locked-rows a m now q =
    elim (Bool-cases (is_terminal (q.heap a).state && not (is_retryable (q.heap a).state))) [
      | inl over ↦ rw (over, drop_locked) refl
      | inr live ↦ rw (live, drop_locked) refl
    ]

deleted : (name : Bytes) (a : ℕ) (rows : List (Bytes × ℕ)) → lookup name (delete name rows) ≢ some a
deleted name a rows e =
    let gone = lookup-delete name name rows in
    let same : bytes_eq name name ≡ true = (bytes_eq_iff name name).1 refl in
    absurd (cc (e, rw same at gone))

no_row : (a : ℕ) (o : Option ℕ) → is_row o a ≡ false → o ≢ some a
no_row a none h e = cc e
no_row a (some b) h e = ground (arith, h, e)

drop_orphan-rows :
    (a now : ℕ) (q : Queue)
    → (q.heap a).orphaned ≡ true
    → lookup (q.heap a).name (drop_orphan a now q).0.rows ≢ some a
unfolding drop_orphan is_superseded
drop_orphan-rows a now q h = elim (Bool-cases (is_row (lookup (q.heap a).name q.rows) a)) [
  | inl own ↦
      rw (h, own, drop_orphan)
        (rw (drop_locked-rows a folder_changed now q) (deleted (q.heap a).name a q.rows))
  | inr replaced ↦ rw (h, replaced, drop_orphan) (no_row a (lookup (q.heap a).name q.rows) replaced)
]

settled-rows :
    (a now : ℕ) (q : Queue)
    → (q.heap a).orphaned ≡ true
    → lookup (q.heap a).name (drop_orphan a now (put a (settled (q.heap a)) q)).0.rows ≢ some a
settled-rows a now q h =
    let q' = put a (settled (q.heap a)) q in
    let there = put-heap a (settled (q.heap a)) q in
    let orphan : (q'.heap a).orphaned ≡ true = ap (λ (it : Item). it.orphaned) there ∙ h in
    subst (λ (it : Item). lookup it.name (drop_orphan a now q').0.rows ≢ some a) there
      (drop_orphan-rows a now q' orphan)

finish_end-orphan :
    (resend success : Bool) (now a : ℕ) (q : Queue)
    → (q.heap a).orphaned ≡ true
    → (finish_end resend success now a q).0 ≡ (drop_orphan a now (put a (settled (q.heap a)) q)).0
unfolding finish_end
finish_end-orphan resend success now a q h =
    elim (Bool-cases ((resend || (q.heap a).resend_after) && success)) [
      | inl again ↦ rw (again, finish_end) (rw h refl)
      | inr once ↦ rw (once, finish_end) (rw h refl)
    ]

preflight_failed-orphan :
    (backoff : List ℕ) (e : OpenError) (msg : Bytes) (now a : ℕ) (q : Queue)
    → (q.heap a).orphaned ≡ true
    → (preflight_failed backoff e msg now a q).0
      ≡ (drop_orphan a now (put a (settled (q.heap a)) q)).0
unfolding preflight_failed
preflight_failed-orphan backoff e msg now a q h = rw h refl

-- An item that was orphaned while it was sent has no row left once the send ends, however it ends,
-- nor once its file could not be opened.
pub orphan-leaves :
    (resend success : Bool) (backoff : List ℕ) (e : OpenError) (msg : Bytes) (now a : ℕ) (q : Queue)
    → (q.heap a).orphaned ≡ true
    → (lookup (q.heap a).name (finish_end resend success now a q).0.rows ≢ some a)
      × (lookup (q.heap a).name (preflight_failed backoff e msg now a q).0.rows ≢ some a)
orphan-leaves resend success backoff e msg now a q h =
    let gone = settled-rows a now q h in
    (
      subst (λ (p : Queue). lookup (q.heap a).name p.rows ≢ some a)
          (sym (finish_end-orphan resend success now a q h)) gone,
      subst (λ (p : Queue). lookup (q.heap a).name p.rows ≢ some a)
          (sym (preflight_failed-orphan backoff e msg now a q h)) gone,
    )
