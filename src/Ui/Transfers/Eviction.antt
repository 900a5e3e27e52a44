-- ===== src/Ui/Transfers/Eviction.antt =====
-- internal/ui/model/apply.go: what the eviction keeps.
use mink_lasso.Base.{
  ℕ, zero, suc, ◌≤◌, ◌≡◌, ◌⊎◌, refl, sym, ap, ◌∙◌, inl, inr, Bool, Bool-cases, true, false, Option,
  Option-cases, none, some, [], ◌∷◌, length, ltb, ltb→le, arith,
}
use mink_lasso.Base.Maps.{bytes_eq, bytes_eq_iff, lookup, delete, lookup-delete}
use mink_lasso.Masso.Words.{Bytes}
use mink_lasso.Engine.Queue.{is_terminal, TransferEvent}
use mink_lasso.Ui.Transfers.{
  Rows, candidate_row, oldest_terminal, evict_turn, evict_oldest_terminal,
}
use mink_lasso.Ui.Transfers.Deleting.{Distinct, delete-Distinct, delete_shortens, lookup-behind}

older_row-or :
    (name' : Bytes) (row' : TransferEvent) (best : Option (Bytes × ℕ)) (name : Bytes) (at : ℕ)
    → candidate_row name' row' best ≡ some (name, at)
    → (best ≡ some (name, at)) ⊎ ((name' ≡ name) × (is_terminal row'.state ≡ true))
older_row-or name' row' none name at e = ground arith
older_row-or name' row' (some (name'', at'')) name at e = ground arith

-- The row that is chosen is one of the table's, and terminal.
oldest-row :
    (best : Option (Bytes × ℕ)) (rows : Rows) (name : Bytes) (at : ℕ)
    → Distinct rows
    → oldest_terminal best rows ≡ some (name, at)
    → (best ≡ some (name, at))
      ⊎ ((row : TransferEvent) × (lookup name rows ≡ some row) × (is_terminal row.state ≡ true))
unfolding oldest_terminal lookup
oldest-row best [] name at h e = inl e
oldest-row best ((name', row') ∷ rows) name at (fresh, h) e =
    elim (oldest-row (candidate_row name' row' best) rows name at h e) [
      | inl chosen ↦ elim (older_row-or name' row' best name at chosen) [
        | inl same ↦ inl same
        | inr (same, terminal) ↦ inr (row', rw ((bytes_eq_iff name' name).1 same) refl, terminal)
      ]
      | inr (row, found, terminal) ↦
          inr (row, lookup-behind name' name row' row rows fresh found, terminal)
    ]

-- What an eviction to `limit` rows leaves of `rows`.
pub record Evicted (limit : ℕ) (rows rows' : Rows) : Type 0 where
  pub distinct : Distinct rows'
  pub small : (length rows' ≤ limit) ⊎ (oldest_terminal none rows' ≡ none)
  pub from_rows :
      (name : Bytes) (row : TransferEvent)
      → lookup name rows' ≡ some row
      → lookup name rows ≡ some row
  pub keeps_active :
      (name : Bytes) (row : TransferEvent)
      → lookup name rows ≡ some row
      → is_terminal row.state ≡ false
      → lookup name rows' ≡ some row

evict-stays :
    (limit : ℕ) (rows : Rows)
    → Distinct rows
    → (length rows ≤ limit) ⊎ (oldest_terminal none rows ≡ none)
    → Evicted limit rows rows
evict-stays limit rows h small = record {
  distinct = h;
  small = small;
  from_rows = λ name row found. found;
  keeps_active = λ name row found active. found;
}

abbrev pub state_of : Option TransferEvent → Bool
state_of none = true
state_of (some row) = is_terminal row.state

not-deleted :
    (gone name : Bytes) (row : TransferEvent) (rows : Rows)
    → lookup name (delete gone rows) ≡ some row
    → lookup name rows ≡ some row
not-deleted gone name row rows h = ground (arith, lookup-delete gone name rows)

active-left :
    (gone name : Bytes) (terminal row : TransferEvent) (rows : Rows)
    → lookup gone rows ≡ some terminal
    → is_terminal terminal.state ≡ true
    → lookup name rows ≡ some row
    → is_terminal row.state ≡ false
    → lookup name (delete gone rows) ≡ some row
active-left gone name terminal row rows found ends there active =
    elim (Bool-cases (bytes_eq gone name)) [
      | inl q ↦
          let same = ap (λ (n : Bytes). lookup n rows) ((bytes_eq_iff gone name).0 q) in
          let one = ap (λ (o : Option TransferEvent). state_of o) (sym found ∙ same ∙ there) in cc
      | inr q ↦ lookup-delete gone name rows ∙ rw q there
    ]

evict-deletes :
    (limit : ℕ) (gone : Bytes) (terminal : TransferEvent) (rows rows' : Rows)
    → lookup gone rows ≡ some terminal
    → is_terminal terminal.state ≡ true
    → Evicted limit (delete gone rows) rows'
    → Evicted limit rows rows'
evict-deletes limit gone terminal rows rows' found ends h = record {
  distinct = h.distinct;
  small = h.small;
  from_rows = λ name row there. not-deleted gone name row rows (h.from_rows name row there);
  keeps_active = λ name row there active.
      h.keeps_active name row (active-left gone name terminal row rows found ends there active)
        active;
}

none-some : {r : Bytes × ℕ} → none ≡ some r → ⊥
none-some e = cc

evict_turn_cases :
    (limit : ℕ) (rows : Rows)
    → Distinct rows
    → ((evict_turn limit rows ≡ none)
        × ((length rows ≤ limit) ⊎ (oldest_terminal none rows ≡ none)))
      ⊎ ((gone : Bytes) × (terminal : TransferEvent) × (evict_turn limit rows
            ≡ some (delete gone rows))
          × (lookup gone rows ≡ some terminal)
          × (is_terminal terminal.state ≡ true))
unfolding evict_turn
evict_turn_cases limit rows h = elim (Bool-cases (ltb limit (length rows))) [
  | inl q ↦ elim (Option-cases (oldest_terminal none rows)) [
    | inl none_left ↦ inl (rw (q, none_left) refl, inr none_left)
    | inr ((gone, at), chosen) ↦ elim (oldest-row none rows gone at h chosen) [
      | inl e ↦ elim (none-some e) [ ]
      | inr (terminal, found, ends) ↦ inr (gone, terminal, rw (q, chosen) refl, found, ends)
    ]
  ]
  | inr q ↦ inl (rw q refl, inl (ltb→le limit (length rows) q))
]

pub evict-Evicted :
    (fuel limit : ℕ) (rows : Rows)
    → Distinct rows
    → length rows ≤ fuel
    → Evicted limit rows (evict_oldest_terminal fuel limit rows)
unfolding evict_oldest_terminal
evict-Evicted zero limit rows h enough = evict-stays limit rows h (inl (omega arith))
evict-Evicted (suc fuel) limit rows h enough = elim (evict_turn_cases limit rows h) [
  | inl (stop, small) ↦ rw (evict_oldest_terminal, stop) (evict-stays limit rows h small)
  | inr (gone, terminal, turn, found, ends) ↦
      rw (evict_oldest_terminal, turn)
        (evict-deletes limit gone terminal rows
          (evict_oldest_terminal fuel limit (delete gone rows)) found ends
          (evict-Evicted fuel limit (delete gone rows) (delete-Distinct gone rows h)
            (omega (arith, delete_shortens gone terminal rows found))))
]
