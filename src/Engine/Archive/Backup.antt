-- ===== src/Engine/Archive/Backup.antt =====
-- The loop of `uniqueBackupName` in internal/engine/archive.go comes to an end.
use mink_lasso.Base.{
  ℕ, zero, suc, ◌+◌, ◌-◌, ◌≤◌, ◌<◌, ◌≡◌, refl, sym, ◌∙◌, ap, inl, inr, Bool, Bool-cases, true,
  false, Option, none, some, Option-cases, [], ◌∷◌, ◌++◌, append_assoc, length, length-append, take,
  drop, take-append, drop-append, arith, ◌==◌, if◌then◌else◌,
}
use mink_lasso.Base.Maps.{bytes_eq, bytes_eq_iff, lookup, delete, lookup-delete}
use mink_lasso.Base.Decimal.{decimal, value, value-decimal}
use mink_lasso.Masso.Words.{Bytes}
use mink_lasso.Engine.Archive.{
  Stored, World, count_call, unknown, stat_of, Platform, stat, path_ext, candidate, is_absent,
  unique_backup_name,
}
use mink_lasso.Engine.Archive.Moves.{Disk, unique_backup_name-free}

module _ (p : Platform) where
  -- What a name has after the base and the stamp.
  abbrev tail_of : Bytes → ℕ → Bytes
  tail_of ext n = if n == 0 then ext else b'-' ∷ (decimal (suc n) n ++ ext)

  -- The number is read back from that.
  abbrev number_of : Bytes → Bytes → ℕ
  number_of ext t =
      if length t == length ext then 0 else value 0 (take (length t - length ext - 1) (drop 1 t))

  number_of-tail : (ext : Bytes) (n : ℕ) → number_of ext (tail_of ext n) ≡ n
  number_of-tail ext n = elim (Bool-cases (n == 0)) [
    | inl q ↦
        let alike : (length ext == length ext) ≡ true = ground arith in
        rw q (rw alike (ground arith))
    | inr q ↦
        let digits = decimal (suc n) n in
        let unlike : (suc (length (digits ++ ext)) == length ext) ≡ false =
          ground (arith, length-append digits ext) in
        let count : suc (length (digits ++ ext)) - length ext - 1 ≡ length digits =
          omega (arith, length-append digits ext) in
        rw q (
          rw unlike (
            rw count
              (ap (value 0) (take-append digits ext) ∙ value-decimal (suc n) n (omega arith))))
  ]

  candidate-parts :
      (dest : Bytes) (n : ℕ)
      → candidate p dest n
        ≡ (take (length dest - length (path_ext p dest)) dest ++ b'.' ∷ p.stamp)
          ++ tail_of (path_ext p dest) n
  unfolding candidate
  candidate-parts dest n =
      let base = take (length dest - length (path_ext p dest)) dest in
      elim (Bool-cases (n == 0)) [
        | inl q ↦ rw q (sym (append_assoc base (b'.' ∷ p.stamp) (path_ext p dest)))
        | inr q ↦ rw q (
            sym
              (append_assoc base (b'.' ∷ p.stamp) (b'-' ∷ (decimal (suc n) n ++ path_ext p dest))))
      ]

  -- The numbers give different names.
  candidate-inj : (dest : Bytes) (n m : ℕ) → candidate p dest n ≡ candidate p dest m → n ≡ m
  candidate-inj dest n m h =
      let ext = path_ext p dest in
      let front = take (length dest - length ext) dest ++ b'.' ∷ p.stamp in
      let e : front ++ tail_of ext n ≡ front ++ tail_of ext m =
        sym (candidate-parts dest n) ∙ h ∙ candidate-parts dest m in
      let t : tail_of ext n ≡ tail_of ext m =
        sym (drop-append front (tail_of ext n))
        ∙ ap (drop (length front)) e
        ∙ drop-append front (tail_of ext m) in
      sym (number_of-tail ext n) ∙ ap (number_of ext) t ∙ number_of-tail ext m

  length-delete : (k : Bytes) (d : Disk) → length (delete k d) ≤ length d
  unfolding delete
  length-delete k [] = omega arith
  length-delete k ((j, f) ∷ d) = elim (Bool-cases (bytes_eq j k)) [
    | inl q ↦ rw q (omega (arith, length-delete k d))
    | inr q ↦ rw q (omega (arith, length-delete k d))
  ]

  length-delete-some :
      (k : Bytes) (d : Disk) (f : Stored) → lookup k d ≡ some f → length (delete k d) < length d
  unfolding delete lookup
  length-delete-some k [] f h = cc
  length-delete-some k ((j, g) ∷ d) f h = elim (Bool-cases (bytes_eq j k)) [
    | inl q ↦ rw q (omega (arith, length-delete k d))
    | inr q ↦
        let h' : lookup k d ≡ some f = ground arith in
        rw q (omega (arith, length-delete-some k d f h'))
  ]

  not_absent :
      (b : Bool) (o : Option Stored)
      → b ≡ false
      → o ≡ none
      → is_absent p (if b then unknown else stat_of o) ≡ false
      → ⊥
  not_absent true o h e k = cc
  not_absent false none h e k = cc
  not_absent false (some f) h e k = cc

  taken :
      (path : Bytes) (w : World)
      → p.fails w.calls ≡ false
      → is_absent p (stat p path w) ≡ false
      → (f : Stored) × (lookup path w.disk ≡ some f)
  unfolding stat
  taken path w works h = elim (Option-cases (lookup path w.disk)) [
    | inr found ↦ found
    | inl e ↦ absurd (not_absent (p.fails w.calls) (lookup path w.disk) works e h)
  ]

  other :
      (dest : Bytes) (n m : ℕ) (left : Disk)
      → n + 1 ≤ m
      → lookup (candidate p dest m) (delete (candidate p dest n) left)
        ≡ lookup (candidate p dest m) left
  other dest n m left h = elim (Bool-cases (bytes_eq (candidate p dest n) (candidate p dest m))) [
    | inl q ↦
        let e =
          candidate-inj dest n m ((bytes_eq_iff (candidate p dest n) (candidate p dest m)).0 q) in
        absurd (omega (arith, e))
    | inr q ↦ lookup-delete (candidate p dest n) (candidate p dest m) left ∙ rw q refl
  ]

  -- Only so many names can be taken as there are files that are not passed yet.
  backup-ends :
      (fuel : ℕ) (dest : Bytes) (n : ℕ) (w : World) (left : Disk)
      → ((i : ℕ) → p.fails i ≡ false)
      → ((m : ℕ) → n ≤ m → lookup (candidate p dest m) w.disk ≡ lookup (candidate p dest m) left)
      → length left < fuel
      → (b : Bytes) × ((unique_backup_name p fuel dest n w).0 ≡ some b)
  unfolding unique_backup_name
  backup-ends zero dest n w left works agree h = absurd (omega arith)
  backup-ends (suc fuel) dest n w left works agree h =
      elim (Bool-cases (is_absent p (stat p (candidate p dest n) w))) [
        | inl q ↦ rw q (candidate p dest n, refl)
        | inr q ↦
            let (f, there_) = taken (candidate p dest n) w (works w.calls) q in
            let rest = delete (candidate p dest n) left in
            rw q (
              backup-ends fuel dest (n + 1) (count_call w) rest works
                (λ m k. agree m (omega arith) ∙ sym (other dest n m left k))
                (omega (
                  arith,
                  h,
                  length-delete-some (candidate p dest n) left f
                      (sym (agree n (omega arith)) ∙ there_),
                )))
      ]

-- Where the file system answers, the search for the name of a backup ends, after no more names than there
-- are files and one more, and the name that it gives is not in use.
pub unique_backup_name-ends :
    (p : Platform) (fuel : ℕ) (dest : Bytes) (w : World)
    → ((i : ℕ) → p.fails i ≡ false)
    → length w.disk < fuel
    → (b : Bytes) × ((unique_backup_name p fuel dest 0 w).0 ≡ some b) × (lookup b w.disk ≡ none)
unique_backup_name-ends p fuel dest w works h =
    let (b, e) = backup-ends p fuel dest 0 w w.disk works (λ m k. refl) h in
    (b, e, (unique_backup_name-free p fuel dest 0 w).1 b e)
