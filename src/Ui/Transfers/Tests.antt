-- ===== src/Ui/Transfers/Tests.antt =====
-- A table of two rows that takes a third file.
use mink_lasso.Base.{ℕ, ◌≤◌, ◌≡◌, ◌⊎◌, refl, false, none, some, List, [], ◌∷◌, length}
use mink_lasso.Base.Maps.{bytes_eq, lookup, insert, delete}
use mink_lasso.Masso.Words.{Bytes}
use mink_lasso.Engine.Queue.{
  TransferState, waiting, sending_now, sent, waiting_to_send, is_terminal, TransferEvent,
}
use mink_lasso.Ui.Transfers.{
  table, latest_of, apply_transfer_event, put_row, evict_oldest_terminal, evict_turn,
  oldest_terminal, pending_count,
}
use mink_lasso.Ui.Transfers.Shown.{table-Shows}

abbrev event : ℕ → TransferState → ℕ → TransferEvent
event name state at = record {
  name = name ∷ [];
  path = name ∷ [];
  size = 10;
  state = state;
  message = waiting_to_send;
  manual = false;
  at = at;
}

abbrev earlier : List TransferEvent
earlier = event b'b' sending_now 5 ∷ event b'a' sent 4 ∷ event b'a' waiting 1 ∷ []

evicted :
    table 2 (event b'c' waiting 6 ∷ earlier)
    ≡ (b'b' ∷ [], event b'b' sending_now 5) ∷ (b'c' ∷ [], event b'c' waiting 6) ∷ []
unfolding table apply_transfer_event put_row evict_oldest_terminal evict_turn oldest_terminal lookup
    insert delete is_terminal pending_count bytes_eq
evicted = refl

table-Shows_example :
    ((name : Bytes) (row : TransferEvent)
      → lookup name (table 2 (event b'c' waiting 6 ∷ earlier)) ≡ some row
      → latest_of name (event b'c' waiting 6 ∷ earlier) ≡ some row)
    × ((name : Bytes) (row : TransferEvent)
        → latest_of name (event b'c' waiting 6 ∷ earlier) ≡ some row
        → is_terminal row.state ≡ false
        → lookup name (table 2 (event b'c' waiting 6 ∷ earlier)) ≡ some row)
    × (lookup (b'c' ∷ []) (table 2 earlier) ≡ none
        → (length (table 2 (event b'c' waiting 6 ∷ earlier)) ≤ 2)
          ⊎ ((name : Bytes) (row : TransferEvent)
              → lookup name (table 2 (event b'c' waiting 6 ∷ earlier)) ≡ some row
              → is_terminal row.state ≡ false))
table-Shows_example = table-Shows 2 (event b'c' waiting 6) earlier
