-- ===== src/Watch/Remembering.antt =====
-- What is left of the entries after `scan` of internal/watch/watch.go.
use mink_lasso.Base.{
  ℕ, ◌≡◌, refl, ◌∙◌, ap, Bool, true, false, not, ◌&&◌, Option, none, some, List, [], ◌∷◌, ◌++◌,
  arith, if◌then◌else◌,
}
use mink_lasso.Base.Maps.{bytes_eq, bytes_eq_iff, lookup, member}
use mink_lasso.Masso.Words.{Bytes}
use mink_lasso.Watch.Entry.{Entry}
use mink_lasso.Watch.History.{Sighting, look, tracked}
use mink_lasso.Watch.Scan.{
  vanished, regular, Listing, ScanState, entry_or_new, Walk, scan_dir, under_any, forget_unseen,
  scan,
}
use mink_lasso.Watch.Found.{
  Found, key_of, found, blocked, touched, is_seen, touched_all, seen_all, touched_all-append,
  seen_all-append, Agrees, scan_dir-Agrees,
}

lookup-forget_unseen :
    (sep : ℕ) (seen unlisted : List Bytes) (k : Bytes) (m : List (Bytes × Entry))
    → lookup k (forget_unseen sep seen unlisted m)
      ≡ (if not (member k seen) && not (under_any sep k unlisted) then none else lookup k m)
unfolding lookup forget_unseen
lookup-forget_unseen sep seen unlisted k [] = ground arith
lookup-forget_unseen sep seen unlisted k ((j, e) ∷ m) =
    ground (arith, bytes_eq_iff j k, lookup-forget_unseen sep seen unlisted k m)

-- Some file found has the key.
unfoldable pub has_key : Walk → Bytes → List Found → Bool
has_key w k [] = false
has_key w k (f ∷ fs) = if bytes_eq (key_of w f) k then true else has_key w k fs

touched_all-absent :
    (w : Walk) (k : Bytes) (fs : List Found) (old : Option Entry)
    → has_key w k fs ≡ false
    → touched_all w k fs old ≡ old
unfolding has_key touched_all
touched_all-absent w k [] old h = refl
touched_all-absent w k (f ∷ fs) old h = ground (arith, touched_all-absent w k fs old)

seen_all-absent :
    (w : Walk) (k : Bytes) (fs : List Found) (b : Bool)
    → has_key w k fs ≡ false
    → seen_all w k fs b ≡ b
unfolding has_key seen_all
seen_all-absent w k [] b h = refl
seen_all-absent w k (f ∷ fs) b h = ground (arith, seen_all-absent w k fs b)

bytes_eq_refl : (k : Bytes) → bytes_eq k k ≡ true
bytes_eq_refl k = (bytes_eq_iff k k).1 refl

-- The key of one file found, and of no other.
pub record Alone (w : Walk) (f : Found) (pre post : List Found) : Type 0 where
  pub before : has_key w (key_of w f) pre ≡ false
  pub after : has_key w (key_of w f) post ≡ false

touched_all-Alone :
    (w : Walk) (f : Found) (pre post : List Found) (old : Option Entry)
    → Alone w f pre post
    → touched_all w (key_of w f) (pre ++ f ∷ post) old ≡ touched w f.dir f.name f.info old
unfolding touched_all
touched_all-Alone w f pre post old h =
    let k = key_of w f in
    let e = touched_all-absent w k pre old h.before in
    touched_all-append w k pre (f ∷ post) old
    ∙ ap (touched_all w k (f ∷ post)) e
    ∙ rw (bytes_eq_refl k) (touched_all-absent w k post (touched w f.dir f.name f.info old) h.after)

if_self : (b : Bool) → (if b then true else false) ≡ b
if_self true = refl
if_self false = refl

seen_all-Alone :
    (w : Walk) (f : Found) (pre post : List Found)
    → Alone w f pre post
    → seen_all w (key_of w f) (pre ++ f ∷ post) false ≡ is_seen f.info
unfolding seen_all
seen_all-Alone w f pre post h =
    let k = key_of w f in
    let e = seen_all-absent w k pre false h.before in
    seen_all-append w k pre (f ∷ post) false
    ∙ ap (seen_all w k (f ∷ post)) e
    ∙ rw (bytes_eq_refl k) (
        seen_all-absent w k post (if is_seen f.info then true else false) h.after
        ∙ if_self (is_seen f.info))

abbrev start : List (Bytes × Entry) → ScanState
start entries = record { entries = entries; seen = []; unlisted = []; to_emit = []; to_reject = [] }

-- The entry under a key, by what the walk found.
scan-lookup :
    (w : Walk) (top : Listing) (entries : List (Bytes × Entry)) (k : Bytes)
    → lookup k (scan w (some top) entries).0 ≡ (
        if not (seen_all w k (found w [] top) false) && not (under_any w.sep k (blocked w [] top))
        then none
        else touched_all w k (found w [] top) (lookup k entries))
unfolding scan member
scan-lookup w top entries k =
    let st = scan_dir w [] top (start entries) in
    let a : Agrees w k (found w [] top) (blocked w [] top) (start entries) st =
      scan_dir-Agrees w k [] top (start entries) in
    lookup-forget_unseen w.sep st.seen st.unlisted k st.entries
    ∙ rw (a.entry, a.sight, a.hidden) refl

scan-Alone :
    (w : Walk) (top : Listing) (entries : List (Bytes × Entry)) (pre post : List Found) (f : Found)
    → found w [] top ≡ pre ++ f ∷ post
    → Alone w f pre post
    → lookup (key_of w f) (scan w (some top) entries).0 ≡ (
        if not (is_seen f.info) && not (under_any w.sep (key_of w f) (blocked w [] top))
        then none
        else touched w f.dir f.name f.info (lookup (key_of w f) entries))
scan-Alone w top entries pre post f h alone =
    scan-lookup w top entries (key_of w f)
    ∙ rw
        (
          h,
          seen_all-Alone w f pre post alone,
          touched_all-Alone w f pre post (lookup (key_of w f) entries) alone,
        )
        refl

-- A scan that finds a file keeps the entry that the history of the file's sightings makes, this scan
-- the newest, if the entry before was made by the history before.
pub scan-tracked :
    (w : Walk) (top : Listing) (entries : List (Bytes × Entry)) (pre post : List Found) (f : Found)
    (size mod_time : ℕ) (past : List Sighting)
    → found w [] top ≡ pre ++ f ∷ post
    → Alone w f pre post
    → f.info ≡ regular size mod_time
    → entry_or_new (lookup (key_of w f) entries) ≡ tracked f.dir f.name past
    → lookup (key_of w f) (scan w (some top) entries).0
      ≡ some (
          tracked f.dir f.name
            (record { options = w.options; now = w.now; size = size; mod_time = mod_time } ∷ past))
unfolding tracked look
scan-tracked w top entries pre post f size mod_time past h alone info e =
    scan-Alone w top entries pre post f h alone ∙ rw info (rw e refl)

-- A scan forgets the entry of a file that it does not come to, unless the file is under a folder that
-- could not be listed.
pub scan-forgets :
    (w : Walk) (top : Listing) (entries : List (Bytes × Entry)) (k : Bytes)
    → has_key w k (found w [] top) ≡ false
    → lookup k (scan w (some top) entries).0
      ≡ (if under_any w.sep k (blocked w [] top) then lookup k entries else none)
scan-forgets w top entries k h =
    scan-lookup w top entries k
    ∙ rw
        (
          seen_all-absent w k (found w [] top) false h,
          touched_all-absent w k (found w [] top) (lookup k entries) h,
        )
        (ground arith)

-- A file that is listed but gone keeps its entry.
scan-vanished :
    (w : Walk) (top : Listing) (entries : List (Bytes × Entry)) (pre post : List Found) (f : Found)
    → found w [] top ≡ pre ++ f ∷ post
    → Alone w f pre post
    → f.info ≡ vanished
    → lookup (key_of w f) (scan w (some top) entries).0 ≡ lookup (key_of w f) entries
scan-vanished w top entries pre post f h alone info =
    scan-Alone w top entries pre post f h alone ∙ rw info refl
