-- ===== src/Engine/Archive/Outcome.antt =====
-- What `archiveSent` of internal/engine/archive.go makes of the file that was sent.
use mink_lasso.Base.{
  ℕ, zero, suc, ◌+◌, ◌≡◌, ◌≢◌, refl, sym, ◌∙◌, ap, inl, inr, Bool, Bool-cases, true, false, not,
  ◌&&◌, ◌||◌, Option, none, some, ltb, arith, ◌==◌, if◌then◌else◌,
}
use mink_lasso.Base.Maps.{lookup}
use mink_lasso.Masso.Words.{Bytes}
use mink_lasso.Engine.Archive.{
  Stored, World, count_call, Stat, there, absent, unknown, stat_of, Platform, stat, MoveEnd, moved,
  move_failed, unending, move_into_sent, Source, Retry, Filing, filed, left_to_operator, changed,
  unfiled, endless, after_move, file_if_same, archive_from, archive_path, archive_sent,
}
use mink_lasso.Engine.Archive.Moves.{Disk, Moves, same, Placed, move_into_sent-Placed}

-- Where the sent file stands at the end: at its goal only, as it was sent, or else where it was.
abbrev pub Filed : Stored → Source → Bytes → Filing → Disk → Type 0
Filed f src dest filed d =
    (lookup dest d ≡ some f)
    × (lookup src.path d ≡ none)
    × (f.size ≡ src.size)
    × (f.mod_time ≡ src.mod_time)
Filed f src dest left_to_operator d = lookup src.path d ≡ some f
Filed f src dest changed d = lookup src.path d ≡ some f
Filed f src dest unfiled d = lookup src.path d ≡ some f
Filed f src dest endless d = lookup src.path d ≡ some f

module _ (p : Platform) (fuel : ℕ) (f : Stored) (d : Disk) (src : Source) (dest : Bytes)
    (elsewhere : src.path ≢ dest) where
  abbrev Archived : Filing × World → Type 0
  Archived (o, w) = Moves d w.disk × Filed f src dest o w.disk

  -- The attempts that follow, from any world in which the file is in its place.
  abbrev AgainArchived : (World → Filing × World) → Type 0
  AgainArchived again =
      (w : World) → Moves d w.disk → lookup src.path w.disk ≡ some f → Archived (again w)

  after_move-Archived :
      (o : MoveEnd) (w : World) (again : World → Filing × World)
      → f.size ≡ src.size
      → f.mod_time ≡ src.mod_time
      → Placed p f dest src.path d (o, w)
      → AgainArchived again
      → Archived (after_move (o, w) again)
  after_move-Archived moved w again size time h next = (h.0, (h.1.0, h.1.1, size, time))
  after_move-Archived move_failed w again size time h next = next w h.0 h.1
  after_move-Archived unending w again size time h next = (h.0, h.1)

  stat-there :
      (b : Bool) (o : Option Stored) (g : Stored)
      → (if b then unknown else stat_of o) ≡ there g
      → o ≡ some g
  stat-there true o g h = cc
  stat-there false none g h = cc
  stat-there false (some g) e h = cc

  file_if_same-Archived :
      (s : Stat) (w : World) (again : World → Filing × World)
      → ((g : Stored) → s ≡ there g → g ≡ f)
      → Moves d w.disk
      → lookup src.path w.disk ≡ some f
      → AgainArchived again
      → Archived (file_if_same p fuel src dest s w again)
  unfolding file_if_same
  file_if_same-Archived absent w again is m h next = next w m h
  file_if_same-Archived unknown w again is m h next = next w m h
  file_if_same-Archived (there g) w again is m h next =
      elim (Bool-cases (not (g.size == src.size) || not (g.mod_time == src.mod_time))) [
        | inl q ↦ rw q (m, h)
        | inr q ↦
            let e = is g refl in
            let size : g.size ≡ src.size = ground arith in
            let time : g.mod_time ≡ src.mod_time = ground arith in
            let (o, v) = move_into_sent p fuel dest src.path w in
            rw q (
              after_move-Archived o v again (sym (ap (λ (x : Stored). x.size) e) ∙ size)
                (sym (ap (λ (x : Stored). x.mod_time) e) ∙ time)
                (move_into_sent-Placed p d fuel dest src.path w f m h elsewhere) next)
      ]

  archive_from-Archived :
      (tries : ℕ → Retry) (n i : ℕ) → AgainArchived (archive_from p fuel src dest tries n i)
  unfolding archive_from stat
  archive_from-Archived tries zero i w m h = (m, h)
  archive_from-Archived tries (suc n) i w m h =
      elim (Bool-cases (ltb 0 i && not (tries i).waited)) [
        | inl q ↦ rw q (m, h)
        | inr q ↦ rw q (elim (Bool-cases ((tries i).item.manual || (tries i).item.resend_after)) [
          | inl r ↦ rw r (m, h)
          | inr r ↦ rw r (
              file_if_same-Archived (stat p src.path w) (count_call w)
                (archive_from p fuel src dest tries n (i + 1))
                (λ g e. let x = stat-there (p.fails w.calls) (lookup src.path w.disk) g e in cc) m h
                (archive_from-Archived tries n (i + 1)))
        ])
      ]

-- Whatever calls of the file system fail, archiving moves files only to paths at which there is no file, so
-- that it overwrites none; it files the sent file at its path in the sent folder, and only if the file
-- still has the size and modification time that were sent; and otherwise it leaves the file where it was.
-- The file is there at first, not in the sent folder's place itself, and nobody else changes the disk.
pub archive_sent-Moves :
    (p : Platform) (fuel : ℕ) (src : Source) (tries : ℕ → Retry) (w : World) (f : Stored)
    → lookup src.path w.disk ≡ some f
    → src.path ≢ archive_path p src
    → Moves w.disk (archive_sent p fuel src tries w).1.disk
      × Filed f src
          (archive_path p src)
          (archive_sent p fuel src tries w).0
          (archive_sent p fuel src tries w).1.disk
unfolding archive_sent
archive_sent-Moves p fuel src tries w f h ne =
    archive_from-Archived p fuel f w.disk src (archive_path p src) ne tries (p.move_retries + 1) 0 w
      same h
