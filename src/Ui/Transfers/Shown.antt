-- ===== src/Ui/Transfers/Shown.antt =====
-- internal/ui/model/apply.go: what the table shows after any events.
use mink_lasso.Base.{
  ℕ, ◌≤◌, ◌≡◌, ◌⊎◌, refl, sym, ap, ◌∙◌, inl, inr, Bool, true, false, Option, Option-cases, none,
  some, List, [], ◌∷◌, length, if◌then◌else◌, arith,
}
use mink_lasso.Base.Maps.{bytes_eq, lookup, insert, lookup-insert}
use mink_lasso.Masso.Words.{Bytes}
use mink_lasso.Engine.Queue.{is_terminal, TransferEvent}
use mink_lasso.Ui.Transfers.{
  Rows, candidate_row, oldest_terminal, evict_oldest_terminal, put_row, apply_transfer_event, table,
  latest_of,
}
use mink_lasso.Ui.Transfers.Deleting.{Distinct, insert-Distinct}
use mink_lasso.Ui.Transfers.Eviction.{state_of, Evicted, evict-Evicted}

-- What is known of the table after `events`.
record Shows (events : List TransferEvent) (rows : Rows) : Type 0 where
  distinct : Distinct rows
  latest :
      (name : Bytes) (row : TransferEvent)
      → lookup name rows ≡ some row
      → latest_of name events ≡ some row
  active :
      (name : Bytes) (row : TransferEvent)
      → latest_of name events ≡ some row
      → is_terminal row.state ≡ false
      → lookup name rows ≡ some row

latest-if :
    (b : Bool) (ev row : TransferEvent) (o o' : Option TransferEvent)
    → (if b then some ev else o) ≡ some row
    → (o ≡ some row → o' ≡ some row)
    → (if b then some ev else o') ≡ some row
latest-if true ev row o o' e h = e
latest-if false ev row o o' e h = h e

insert-Shows :
    (ev : TransferEvent) (events : List TransferEvent) (rows : Rows)
    → Shows events rows
    → Shows (ev ∷ events) (insert ev.name ev rows)
unfolding latest_of
insert-Shows ev events rows h = record {
  distinct = insert-Distinct ev.name ev rows h.distinct;
  latest = λ name row there.
      latest-if (bytes_eq ev.name name) ev row (lookup name rows) (latest_of name events)
        (sym (lookup-insert ev.name name ev rows) ∙ there) (h.latest name row);
  active = λ name row there on.
      lookup-insert ev.name name ev rows
      ∙ latest-if (bytes_eq ev.name name) ev row (latest_of name events) (lookup name rows) there
          (λ e. h.active name row e on);
}

Evicted-Shows :
    (limit : ℕ) (events : List TransferEvent) (rows rows' : Rows)
    → Shows events rows
    → Evicted limit rows rows'
    → Shows events rows'
Evicted-Shows limit events rows rows' h k = record {
  distinct = k.distinct;
  latest = λ name row there. h.latest name row (k.from_rows name row there);
  active = λ name row there on. k.keeps_active name row (h.active name row there on) on;
}

none-some' : {row : TransferEvent} → some row ≡ none → ⊥
none-some' e = cc

first-or :
    (b : Bool) (row' row : TransferEvent) (o : Option TransferEvent)
    → (if b then some row' else o) ≡ some row
    → is_terminal row'.state ≡ false
    → (o ≡ some row → is_terminal row.state ≡ false)
    → is_terminal row.state ≡ false
first-or true row' row o e active h = ap (λ (r : Option TransferEvent). state_of r) (sym e) ∙ active
first-or false row' row o e active h = h e

candidate-none :
    (name : Bytes) (row : TransferEvent) (best : Option (Bytes × ℕ))
    → candidate_row name row best ≡ none
    → (best ≡ none) × (is_terminal row.state ≡ false)
candidate-none name row none e = (refl, ground arith)
candidate-none name row (some (name', at')) e = ground arith

-- No terminal row is left where none can be chosen.
oldest-none :
    (best : Option (Bytes × ℕ)) (rows : Rows)
    → oldest_terminal best rows ≡ none
    → (best ≡ none)
      × ((name : Bytes) (row : TransferEvent)
          → lookup name rows ≡ some row
          → is_terminal row.state ≡ false)
unfolding oldest_terminal lookup
oldest-none best [] e = (e, λ name row there. cc)
oldest-none best ((name', row') ∷ rows) e =
    let (unchosen, rest) = oldest-none (candidate_row name' row' best) rows e in
    let (start, active) = candidate-none name' row' best unchosen in
    (
      start,
      λ name row there.
          first-or (bytes_eq name' name) row' row (lookup name rows) there active (rest name row),
    )

Bounded : ℕ → Rows → Type 0
Bounded limit rows =
    (length rows ≤ limit)
    ⊎ ((name : Bytes) (row : TransferEvent)
        → lookup name rows ≡ some row
        → is_terminal row.state ≡ false)

put_row-Shows :
    (limit : ℕ) (ev : TransferEvent) (before : List TransferEvent) (rows : Rows)
    → Shows before rows
    → Shows (ev ∷ before) (put_row limit ev rows)
      × (lookup ev.name rows ≡ none → Bounded limit (put_row limit ev rows))
unfolding put_row Bounded
put_row-Shows limit ev before rows h =
    let inserted = insert ev.name ev rows in
    let now = insert-Shows ev before rows h in
    let k = evict-Evicted (length inserted) limit inserted now.distinct (omega arith) in
    elim (Option-cases (lookup ev.name rows)) [
      | inl fresh ↦ rw fresh (
        Evicted-Shows limit (ev ∷ before) inserted
            (evict_oldest_terminal (length inserted) limit inserted) now k,
        λ e. elim k.small [
          | inl small ↦ inl small
          | inr none_left ↦
              inr
                (oldest-none none (evict_oldest_terminal (length inserted) limit inserted)
                  none_left).1
        ],
      )
      | inr (row, there) ↦ rw there (now, λ e. elim (none-some' e) [ ])
    ]

table-all : (limit : ℕ) (events : List TransferEvent) → Shows events (table limit events)
unfolding table apply_transfer_event latest_of lookup
table-all limit [] = record {
  distinct = tt;
  latest = λ name row there. cc;
  active = λ name row there on. cc;
}
table-all limit (ev ∷ before) =
    (put_row-Shows limit ev before (table limit before) (table-all limit before)).0

-- The table of transfers, for any limit and any events: a row that it shows is the latest event about its
-- name; a name whose latest event is not terminal has its row, whatever was evicted; and after an event about
-- a name that had no row, there are at most as many rows as the limit, or no terminal row is left.
pub table-Shows :
    (limit : ℕ) (ev : TransferEvent) (before : List TransferEvent)
    → ((name : Bytes) (row : TransferEvent)
        → lookup name (table limit (ev ∷ before)) ≡ some row
        → latest_of name (ev ∷ before) ≡ some row)
      × ((name : Bytes) (row : TransferEvent)
          → latest_of name (ev ∷ before) ≡ some row
          → is_terminal row.state ≡ false
          → lookup name (table limit (ev ∷ before)) ≡ some row)
      × (lookup ev.name (table limit before) ≡ none
          → (length (table limit (ev ∷ before)) ≤ limit)
            ⊎ ((name : Bytes) (row : TransferEvent)
                → lookup name (table limit (ev ∷ before)) ≡ some row
                → is_terminal row.state ≡ false))
unfolding table apply_transfer_event Bounded
table-Shows limit ev before =
    let (h, bounded) =
      put_row-Shows limit ev before (table limit before) (table-all limit before) in
    (h.latest, h.active, bounded)
