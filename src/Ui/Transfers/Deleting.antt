-- ===== src/Ui/Transfers/Deleting.antt =====
-- internal/ui/model/apply.go: the map of rows.
use mink_lasso.Base.{
  ◌≤◌, ◌<◌, ◌≡◌, refl, sym, ap, ◌∙◌, inl, inr, Bool-cases, false, none, some, [], ◌∷◌, length,
  arith,
}
use mink_lasso.Base.Maps.{
  bytes_eq, bytes_eq_iff, lookup, insert, delete, lookup-insert, lookup-delete,
}
use mink_lasso.Masso.Words.{Bytes}
use mink_lasso.Engine.Queue.{TransferEvent}
use mink_lasso.Ui.Transfers.{Rows}

-- A map has one row for each name.
abbrev pub Distinct : Rows → Type 0
Distinct [] = Unit {0}
Distinct ((name, row) ∷ rows) = (lookup name rows ≡ none) × Distinct rows

pub insert-Distinct :
    (name : Bytes) (row : TransferEvent) (rows : Rows)
    → Distinct rows
    → Distinct (insert name row rows)
unfolding insert lookup
insert-Distinct name row [] h = (refl, tt)
insert-Distinct name row ((name', row') ∷ rows) (fresh, h) =
    elim (Bool-cases (bytes_eq name' name)) [
      | inl q ↦
          let same = (bytes_eq_iff name' name).0 q in
          rw q (ap (λ (n : Bytes). lookup n rows) (sym same) ∙ fresh, h)
      | inr q ↦
          let apart : bytes_eq name name' ≡ false =
            ground (arith, bytes_eq_iff name' name, bytes_eq_iff name name') in
          rw q (lookup-insert name name' row rows ∙ rw apart fresh, insert-Distinct name row rows h)
    ]

pub delete-Distinct : (name : Bytes) (rows : Rows) → Distinct rows → Distinct (delete name rows)
unfolding delete
delete-Distinct name [] h = tt
delete-Distinct name ((name', row') ∷ rows) (fresh, h) = elim (Bool-cases (bytes_eq name' name)) [
  | inl q ↦ rw q (delete-Distinct name rows h)
  | inr q ↦
      rw q (lookup-delete name name' rows ∙ ground (arith, fresh), delete-Distinct name rows h)
]

length-delete : (name : Bytes) (rows : Rows) → length (delete name rows) ≤ length rows
unfolding delete
length-delete name [] = omega arith
length-delete name ((name', row') ∷ rows) = ground (arith, length-delete name rows)

pub delete_shortens :
    (name : Bytes) (row : TransferEvent) (rows : Rows)
    → lookup name rows ≡ some row
    → length (delete name rows) < length rows
unfolding delete lookup
delete_shortens name row [] h = cc
delete_shortens name row ((name', row') ∷ rows) h = elim (Bool-cases (bytes_eq name' name)) [
  | inl q ↦ rw q (let shorter = length-delete name rows in omega arith)
  | inr q ↦
      let there : lookup name rows ≡ some row = ground (arith, h) in
      rw q (omega (arith, delete_shortens name row rows there))
]

pub lookup-behind :
    (name' name : Bytes) (row' row : TransferEvent) (rows : Rows)
    → lookup name' rows ≡ none
    → lookup name rows ≡ some row
    → lookup name ((name', row') ∷ rows) ≡ some row
unfolding lookup
lookup-behind name' name row' row rows fresh found = elim (Bool-cases (bytes_eq name' name)) [
  | inl q ↦ let same = ap (λ (n : Bytes). lookup n rows) ((bytes_eq_iff name' name).0 q) in cc
  | inr q ↦ rw q found
]
