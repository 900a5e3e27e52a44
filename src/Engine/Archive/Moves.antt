-- ===== src/Engine/Archive/Moves.antt =====
-- Nothing is lost by the move of a sent file (internal/engine/archive.go).
use mathlib.Core.Path.{subst}
use mink_lasso.Base.{
  ℕ, zero, suc, ◌+◌, ◌≡◌, ◌≢◌, refl, sym, ◌∙◌, ap, inl, inr, Bool, Bool-cases, true, false, Option,
  none, some, List, if◌then◌else◌,
}
use mink_lasso.Base.Maps.{
  bytes_eq, bytes_eq_iff, lookup, insert, delete, lookup-insert, lookup-delete,
}
use mink_lasso.Masso.Words.{Bytes}
use mink_lasso.Engine.Archive.{
  Stored, World, count_call, unknown, stat_of, Platform, stat, renamed, rename, candidate,
  is_absent, unique_backup_name, MoveEnd, moved, move_failed, unending, finish_move, move_file,
  after_backup, back_up, move_into_sent,
}

abbrev pub Disk : Type 0
Disk = List (Bytes × Stored)

-- A file moves to a path at which there is none.
abbrev pub shift : Bytes → Bytes → Stored → Disk → Disk
shift from to f d = insert to f (delete from d)

-- The disks that such moves make of one.
pub data Moves (d : Disk) : Disk → Type 0 where
  same : Moves d d
  move :
      (e : Disk) (from to : Bytes) (f : Stored)
      → Moves d e
      → lookup from e ≡ some f
      → lookup to e ≡ none
      → Moves d (shift from to f e)

module _ (p : Platform) where
  absent-none :
      (b : Bool) (o : Option Stored)
      → is_absent p (if b then unknown else stat_of o) ≡ true
      → o ≡ none
  absent-none true o h = cc
  absent-none false none h = refl
  absent-none false (some f) h = cc

  -- Only a confirmed absence counts as one.
  stat-absent :
      (path : Bytes) (w : World) → is_absent p (stat p path w) ≡ true → lookup path w.disk ≡ none
  unfolding stat
  stat-absent path w h = absent-none (p.fails w.calls) (lookup path w.disk) h

  -- A name that is returned is free.
  pub unique_backup_name-free :
      (fuel : ℕ) (dest : Bytes) (n : ℕ) (w : World)
      → ((unique_backup_name p fuel dest n w).1.disk ≡ w.disk)
        × ((b : Bytes) → (unique_backup_name p fuel dest n w).0 ≡ some b → lookup b w.disk ≡ none)
  unfolding unique_backup_name
  unique_backup_name-free zero dest n w = (refl, λ b e. cc)
  unique_backup_name-free (suc fuel) dest n w =
      let (a, f) = unique_backup_name-free fuel dest (n + 1) (count_call w) in
      elim (Bool-cases (is_absent p (stat p (candidate p dest n) w))) [
        | inr q ↦ rw q (a, f)
        | inl q ↦ rw q (
          refl,
          λ b e.
              let same_name : candidate p dest n ≡ b = cc in
              ap (λ (k : Bytes). lookup k w.disk) (sym same_name)
              ∙ stat-absent (candidate p dest n) w q,
        )
      ]

  renamed-shift :
      (from to : Bytes) (o : Option Stored) (d e : Disk)
      → lookup from d ≡ o
      → renamed p from to o d ≡ some e
      → (f : Stored) × (lookup from d ≡ some f) × (e ≡ shift from to f d)
  unfolding renamed
  renamed-shift from to none d e h k = cc
  renamed-shift from to (some f) d e h k = (f, h, cc)

  guarded : (b : Bool) (o : Option Disk) (e : Disk) → (if b then none else o) ≡ some e → o ≡ some e
  guarded true o e h = cc
  guarded false o e h = h

  rename-shift :
      (from to : Bytes) (w : World) (e : Disk)
      → rename p from to w ≡ some e
      → (f : Stored) × (lookup from w.disk ≡ some f) × (e ≡ shift from to f w.disk)
  unfolding rename
  rename-shift from to w e h =
      renamed-shift from to (lookup from w.disk) w.disk e refl
        (guarded (p.fails w.calls) (renamed p from to (lookup from w.disk) w.disk) e h)

  -- Where the sent file stands after a move: at its goal only, or else where it was.
  abbrev pub Stands : Stored → Bytes → Bytes → MoveEnd → Disk → Type 0
  Stands f dest path moved d = (lookup dest d ≡ some f) × (lookup path d ≡ none)
  Stands f dest path move_failed d = lookup path d ≡ some f
  Stands f dest path unending d = lookup path d ≡ some f

  abbrev pub Placed : Stored → Bytes → Bytes → Disk → MoveEnd × World → Type 0
  Placed f dest path d (o, w) = Moves d w.disk × Stands f dest path o w.disk

  bytes_ne : (s t : Bytes) → s ≢ t → bytes_eq s t ≡ false
  bytes_ne s t h = elim (Bool-cases (bytes_eq s t)) [
    | inl q ↦ absurd (h ((bytes_eq_iff s t).0 q))
    | inr q ↦ q
  ]

  bytes_self : (s : Bytes) → bytes_eq s s ≡ true
  bytes_self s = (bytes_eq_iff s s).1 refl

  lookup-shift :
      (k from to : Bytes) (f : Stored) (d : Disk)
      → lookup k (shift from to f d)
        ≡ (if bytes_eq to k then some f else if bytes_eq from k then none else lookup k d)
  lookup-shift k from to f d =
      lookup-insert to k f (delete from d) ∙ rw (lookup-delete from k d) refl

  finish_move-Placed :
      (d : Disk) (dest path : Bytes) (w : World) (f : Stored) (o : Option Disk)
      → Moves d w.disk
      → lookup path w.disk ≡ some f
      → path ≢ dest
      → lookup dest w.disk ≡ none
      → rename p path dest w ≡ o
      → Placed f dest path d (finish_move p w o)
  finish_move-Placed d dest path w f none m h ne free e = (m, h)
  finish_move-Placed d dest path w f (some e) m h ne free r =
      let (g, there_, is_shift) = rename-shift path dest w e r in
      let g_is : g ≡ f = cc in
      let q = bytes_ne dest path (λ x. ne (sym x)) in
      (
        subst (λ (x : Disk). Moves d x) (sym is_shift) (move w.disk path dest g m there_ free),
        (
          ap (λ (x : Disk). lookup dest x) is_shift
              ∙ lookup-shift dest path dest g w.disk
              ∙ rw (bytes_self dest) (ap (λ (x : Stored). some x) g_is),
          ap (λ (x : Disk). lookup path x) is_shift
              ∙ lookup-shift path path dest g w.disk
              ∙ rw (q, bytes_self path) refl,
        ),
      )

  move_file-Placed :
      (d : Disk) (dest path : Bytes) (w : World) (f : Stored)
      → Moves d w.disk
      → lookup path w.disk ≡ some f
      → path ≢ dest
      → lookup dest w.disk ≡ none
      → Placed f dest path d (move_file p dest path w)
  unfolding move_file
  move_file-Placed d dest path w f m h ne free =
      finish_move-Placed d dest path w f (rename p path dest w) m h ne free refl

  apart : (s t : Bytes) (d : Disk) (f : Stored) → lookup s d ≡ some f → lookup t d ≡ none → t ≢ s
  apart s t d f h k e = let x = sym (ap (λ (b : Bytes). lookup b d) e) ∙ k in cc

  after_backup-Placed :
      (d : Disk) (dest path backup : Bytes) (w : World) (f : Stored) (o : Option Disk)
      → Moves d w.disk
      → lookup path w.disk ≡ some f
      → path ≢ dest
      → lookup backup w.disk ≡ none
      → rename p dest backup w ≡ o
      → Placed f dest path d (after_backup p dest path w o)
  after_backup-Placed d dest path backup w f none m h ne free r = (m, h)
  after_backup-Placed d dest path backup w f (some e) m h ne free r =
      let (g, there_, is_shift) = rename-shift dest backup w e r in
      let not_path = bytes_ne backup path (apart path backup w.disk f h free) in
      let not_dest = bytes_ne backup dest (apart dest backup w.disk g there_ free) in
      let q = bytes_ne dest path (λ x. ne (sym x)) in
      move_file-Placed d dest path (record { disk = e; calls = w.calls + 1 }) f
        (subst (λ (x : Disk). Moves d x) (sym is_shift) (move w.disk dest backup g m there_ free))
        (ap (λ (x : Disk). lookup path x) is_shift
          ∙ lookup-shift path dest backup g w.disk
          ∙ rw (not_path, q) h)
        ne
        (ap (λ (x : Disk). lookup dest x) is_shift
          ∙ lookup-shift dest dest backup g w.disk
          ∙ rw (not_dest, bytes_self dest) refl)

  back_up-Placed :
      (d : Disk) (dest path : Bytes) (o : Option Bytes) (w : World) (f : Stored)
      → Moves d w.disk
      → lookup path w.disk ≡ some f
      → path ≢ dest
      → ((b : Bytes) → o ≡ some b → lookup b w.disk ≡ none)
      → Placed f dest path d (back_up p dest path (o, w))
  unfolding back_up
  back_up-Placed d dest path none w f m h ne free = (m, h)
  back_up-Placed d dest path (some b) w f m h ne free =
      after_backup-Placed d dest path b w f (rename p dest b w) m h ne (free b refl) refl

  guarded-Placed :
      (d : Disk) (dest path : Bytes) (b : Bool) (o : MoveEnd × World) (w : World) (f : Stored)
      → Moves d w.disk
      → lookup path w.disk ≡ some f
      → Placed f dest path d o
      → Placed f dest path d (if b then (move_failed, w) else o)
  guarded-Placed d dest path true o w f m h k = (m, h)
  guarded-Placed d dest path false o w f m h k = k

  pub move_into_sent-Placed :
      (d : Disk) (fuel : ℕ) (dest path : Bytes) (w : World) (f : Stored)
      → Moves d w.disk
      → lookup path w.disk ≡ some f
      → path ≢ dest
      → Placed f dest path d (move_into_sent p fuel dest path w)
  unfolding move_into_sent
  move_into_sent-Placed d fuel dest path w f m h ne =
      let w₁ = count_call w in
      let w₂ = count_call w₁ in
      guarded-Placed d dest path (p.fails w.calls)
        (if is_absent p (stat p dest w₁)
          then move_file p dest path w₂
          else back_up p dest path (unique_backup_name p fuel dest 0 w₂))
        w₁ f m h
        (elim (Bool-cases (is_absent p (stat p dest w₁))) [
          | inl q ↦ rw q (move_file-Placed d dest path w₂ f m h ne (stat-absent dest w₁ q))
          | inr q ↦
              let (same_disk, free) = unique_backup_name-free fuel dest 0 w₂ in
              rw q (
                back_up-Placed d dest path (unique_backup_name p fuel dest 0 w₂).0
                  (unique_backup_name p fuel dest 0 w₂).1 f
                  (subst (λ (x : Disk). Moves d x) (sym same_disk) m)
                  (ap (λ (x : Disk). lookup path x) same_disk ∙ h) ne
                  (λ b e. ap (λ (x : Disk). lookup b x) same_disk ∙ free b e))
        ])
