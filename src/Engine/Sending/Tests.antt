-- ===== src/Engine/Sending/Tests.antt =====
-- A queue of two files, and the scheduler's theorems on it.
use Prim.Native.Nat.{Ordering}
use mathlib.Core.List.Memᴰ.{head}
use mink_lasso.Base.{◌≡◌, ◌≢◌, refl, true, [], ◌∷◌, some, ◌==◌, if◌then◌else◌}
use mink_lasso.Base.Maps.{lookup}
use mink_lasso.Masso.Words.{Bytes}
use mink_lasso.Engine.Gate.{open_gate}
use mink_lasso.Engine.Queue.{Item, Queue, new_item, is_candidate}
use mink_lasso.Engine.Sending.{
  other, compare_bytes, compare_items, insert_sorted, sort_items, candidates, next, finish_end,
  preflight_failed,
}
use mink_lasso.Engine.Sending.Order.{next-least}
use mink_lasso.Engine.Sending.Outcomes.{orphan-leaves}

abbrev first : Bytes
first = b'a' ∷ []

abbrev second : Bytes
second = b'b' ∷ []

abbrev old : Item
old = record (new_item second) { mod_time = 3 }

abbrev recent : Item
recent = record (new_item first) { mod_time = 5 }

abbrev two_files : Queue
two_files = record {
  rows = (first, 0) ∷ (second, 1) ∷ [];
  heap = λ a. if a == 0 then recent else old;
  fresh = 2;
}

old_first : (next open_gate 10 two_files).0.1 ≡ some 1
unfolding next sort_items insert_sorted candidates is_candidate compare_items compare_bytes
old_first = refl

recent_fits : is_candidate 10 recent ≡ true
unfolding is_candidate
recent_fits = refl

next-least_example : (is_candidate 10 old ≡ true) × (compare_items old recent ≢ Ordering.gt)
next-least_example =
    next-least open_gate 10 1 0 first two_files refl old_first (head refl) recent_fits

abbrev left_behind : Queue
left_behind = record two_files { heap = λ a. record recent { sending = true; orphaned = true } }

orphan-leaves_example :
    (lookup first (finish_end true true 12 0 left_behind).0.rows ≢ some 0)
    × (lookup first (preflight_failed (5 ∷ []) other first 12 0 left_behind).0.rows ≢ some 0)
orphan-leaves_example = orphan-leaves true true (5 ∷ []) other first 12 0 left_behind refl
