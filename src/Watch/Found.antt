-- ===== src/Watch/Found.antt =====
-- The files that a walk of internal/watch/watch.go finds, and what it does to the entry of each.
use mink_lasso.Base.{
  ℕ, ◌≡◌, refl, sym, ◌∙◌, ap, inl, inr, Bool, Bool-cases, true, false, not, ◌&&◌, Option, some,
  List, [], ◌∷◌, ◌++◌, append-nil, append_assoc, arith, if◌then◌else◌,
}
use mink_lasso.Base.Maps.{bytes_eq, bytes_eq_iff, lookup, insert, lookup-insert, member}
use mink_lasso.Masso.Words.{Bytes}
use mink_lasso.Watch.Names.{walked_dir, is_candidate_name}
use mink_lasso.Watch.Entry.{Entry, Outcome, nothing, emits, rejects, visit}
use mink_lasso.Watch.Scan.{
  Info, vanished, irregular, regular, Listing, end, file_entry, dir_entry, ScanState, join_rel,
  entry_or_new, add_outcome, Walk, scan_candidate, scan_file, scan_dir,
}

-- A candidate that the walk comes to, and its key.
pub record Found : Type 0 where
  pub dir : Bytes
  pub name : Bytes
  pub info : Info

abbrev pub key_of : Walk → Found → Bytes
key_of w f = join_rel w.sep f.dir f.name

-- The walk goes into a folder.
abbrev pub enters : Bytes → Bytes → Bool → Bool → Bool
enters rel_dir name live hidden = live && walked_dir rel_dir name && not hidden

unfoldable pub found : Walk → Bytes → Listing → List Found
found w rel_dir end = []
found w rel_dir (file_entry name info others) =
    let more = found w rel_dir others in
    (if is_candidate_name w.exts name
      then record { dir = rel_dir; name = name; info = info } ∷ []
      else [])
    ++ more
found w rel_dir (dir_entry name live hidden listed inside others) =
    let within = found w (join_rel w.sep rel_dir name) inside in
    let more = found w rel_dir others in
    (if enters rel_dir name live hidden && listed then within else []) ++ more

-- The subfolders that the walk cannot list.
unfoldable pub blocked : Walk → Bytes → Listing → List Bytes
blocked w rel_dir end = []
blocked w rel_dir (file_entry name info others) = blocked w rel_dir others
blocked w rel_dir (dir_entry name live hidden listed inside others) =
    let within = blocked w (join_rel w.sep rel_dir name) inside in
    let more = blocked w rel_dir others in
    (if enters rel_dir name live hidden
      then if listed then within else join_rel w.sep rel_dir name ∷ []
      else [])
    ++ more

-- What the walk makes of the entry of a file.
abbrev pub touched : Walk → Bytes → Bytes → Info → Option Entry → Option Entry
touched w dir name vanished old = old
touched w dir name irregular old = old
touched w dir name (regular size mod_time) old =
    some (visit w.options w.now dir name size mod_time (entry_or_new old)).0

abbrev pub is_seen : Info → Bool
is_seen vanished = true
is_seen irregular = false
is_seen (regular size mod_time) = true

-- The entry under a key, and whether the key is seen, after the walk found these files.
unfoldable pub touched_all : Walk → Bytes → List Found → Option Entry → Option Entry
touched_all w k [] old = old
touched_all w k (f ∷ fs) old =
    touched_all w k fs (if bytes_eq (key_of w f) k then touched w f.dir f.name f.info old else old)

unfoldable pub seen_all : Walk → Bytes → List Found → Bool → Bool
seen_all w k [] b = b
seen_all w k (f ∷ fs) b =
    seen_all w k fs (if bytes_eq (key_of w f) k && is_seen f.info then true else b)

pub touched_all-append :
    (w : Walk) (k : Bytes) (fs gs : List Found) (old : Option Entry)
    → touched_all w k (fs ++ gs) old ≡ touched_all w k gs (touched_all w k fs old)
unfolding touched_all
touched_all-append w k [] gs old = refl
touched_all-append w k (f ∷ fs) gs old =
    touched_all-append w k fs gs
      (if bytes_eq (key_of w f) k then touched w f.dir f.name f.info old else old)

pub seen_all-append :
    (w : Walk) (k : Bytes) (fs gs : List Found) (b : Bool)
    → seen_all w k (fs ++ gs) b ≡ seen_all w k gs (seen_all w k fs b)
unfolding seen_all
seen_all-append w k [] gs b = refl
seen_all-append w k (f ∷ fs) gs b =
    seen_all-append w k fs gs (if bytes_eq (key_of w f) k && is_seen f.info then true else b)

add_outcome-entries :
    (out : Outcome) (st : ScanState)
    → ((add_outcome out st).entries ≡ st.entries)
      × ((add_outcome out st).seen ≡ st.seen)
      × ((add_outcome out st).unlisted ≡ st.unlisted)
add_outcome-entries nothing st = (refl, refl, refl)
add_outcome-entries (emits f) st = (refl, refl, refl)
add_outcome-entries (rejects r) st = (refl, refl, refl)

-- The state agrees with what was found.
pub record Agrees (w : Walk) (k : Bytes) (fs : List Found) (ds : List Bytes) (st end : ScanState)
    : Type 0 where
  pub entry : lookup k end.entries ≡ touched_all w k fs (lookup k st.entries)
  pub sight : member k end.seen ≡ seen_all w k fs (member k st.seen)
  pub hidden : end.unlisted ≡ st.unlisted ++ ds

Agrees-none : (w : Walk) (k : Bytes) (st : ScanState) → Agrees w k [] [] st st
unfolding touched_all seen_all
Agrees-none w k st = record { entry = refl; sight = refl; hidden = sym (append-nil st.unlisted) }

Agrees-both :
    (w : Walk) (k : Bytes) (fs gs : List Found) (ds es : List Bytes) (a b c : ScanState)
    → Agrees w k fs ds a b
    → Agrees w k gs es b c
    → Agrees w k (fs ++ gs) (ds ++ es) a c
Agrees-both w k fs gs ds es a b c p q = record {
  entry =
      q.entry
      ∙ ap (touched_all w k gs) p.entry
      ∙ sym (touched_all-append w k fs gs (lookup k a.entries));
  sight =
      q.sight ∙ ap (seen_all w k gs) p.sight ∙ sym (seen_all-append w k fs gs (member k a.seen));
  hidden = q.hidden ∙ ap (λ (l : List Bytes). l ++ es) p.hidden ∙ append_assoc a.unlisted ds es;
}

-- Only one entry is changed, so the one that was read stands under the key.
at_key :
    (w : Walk) (dir name k : Bytes) (size mod_time : ℕ) (st : ScanState)
    → (if bytes_eq (join_rel w.sep dir name) k
        then some
            (visit w.options w.now dir name size mod_time
              (entry_or_new (lookup (join_rel w.sep dir name) st.entries))).0
        else lookup k st.entries)
      ≡ (if bytes_eq (join_rel w.sep dir name) k
          then touched w dir name (regular size mod_time) (lookup k st.entries)
          else lookup k st.entries)
at_key w dir name k size mod_time st = elim (Bool-cases (bytes_eq (join_rel w.sep dir name) k)) [
  | inl p ↦ rw p (
      ap
        (λ (j : Bytes).
          some
            (visit w.options w.now dir name size mod_time (entry_or_new (lookup j st.entries))).0)
        ((bytes_eq_iff (join_rel w.sep dir name) k).0 p))
  | inr p ↦ rw p refl
]

candidate-Agrees :
    (w : Walk) (k dir name : Bytes) (info : Info) (st : ScanState)
    → Agrees w k
        (record { dir = dir; name = name; info = info } ∷ [])
        []
        st
        (scan_candidate w dir name info st)
unfolding scan_candidate touched_all seen_all member
candidate-Agrees w k dir name vanished st = record {
  entry = ground arith;
  sight = ground arith;
  hidden = sym (append-nil st.unlisted);
}
candidate-Agrees w k dir name irregular st = record {
  entry = ground arith;
  sight = ground arith;
  hidden = sym (append-nil st.unlisted);
}
candidate-Agrees w k dir name (regular size mod_time) st =
    let key = join_rel w.sep dir name in
    let (e, out) =
      visit w.options w.now dir name size mod_time (entry_or_new (lookup key st.entries)) in
    let kept =
      add_outcome-entries out
        (record st { seen = key ∷ st.seen; entries = insert key e st.entries }) in
    record {
      entry =
          ap (lookup k) kept.0
          ∙ lookup-insert key k e st.entries
          ∙ at_key w dir name k size mod_time st;
      sight = ap (member k) kept.1 ∙ ground arith;
      hidden = kept.2 ∙ sym (append-nil st.unlisted);
    }

file-Agrees :
    (w : Walk) (k dir name : Bytes) (info : Info) (st : ScanState)
    → Agrees w k
        (if is_candidate_name w.exts name
          then record { dir = dir; name = name; info = info } ∷ []
          else [])
        []
        st
        (scan_file w dir name info st)
unfolding scan_file
file-Agrees w k dir name info st = elim (Bool-cases (is_candidate_name w.exts name)) [
  | inl p ↦ rw p (candidate-Agrees w k dir name info st)
  | inr p ↦ rw p (Agrees-none w k st)
]

blocked-Agrees :
    (w : Walk) (k d : Bytes) (st : ScanState)
    → Agrees w k [] (d ∷ []) st (record st { unlisted = st.unlisted ++ d ∷ [] })
unfolding touched_all seen_all
blocked-Agrees w k d st = record { entry = refl; sight = refl; hidden = refl }

-- A subfolder, by whether it is walked and can be listed.
folder-Agrees :
    (w : Walk) (k sub : Bytes) (inside : Listing) (walked listed : Bool) (st done : ScanState)
    → Agrees w k (found w sub inside) (blocked w sub inside) st done
    → Agrees w k
        (if walked && listed then found w sub inside else [])
        (if walked then if listed then blocked w sub inside else sub ∷ [] else [])
        st
        (if walked
          then if listed then done else record st { unlisted = st.unlisted ++ sub ∷ [] }
          else st)
folder-Agrees w k sub inside true true st done h = h
folder-Agrees w k sub inside true false st done h = blocked-Agrees w k sub st
folder-Agrees w k sub inside false listed st done h = Agrees-none w k st

-- A walk does to each entry what the files found make of it, and no more.
pub scan_dir-Agrees :
    (w : Walk) (k rel_dir : Bytes) (l : Listing) (st : ScanState)
    → Agrees w k (found w rel_dir l) (blocked w rel_dir l) st (scan_dir w rel_dir l st)
unfolding found blocked scan_dir
scan_dir-Agrees w k rel_dir end st = Agrees-none w k st
scan_dir-Agrees w k rel_dir (file_entry name info others) st =
    Agrees-both w k
      (if is_candidate_name w.exts name
        then record { dir = rel_dir; name = name; info = info } ∷ []
        else [])
      (found w rel_dir others) [] (blocked w rel_dir others) st (scan_file w rel_dir name info st)
      (scan_dir w rel_dir others (scan_file w rel_dir name info st))
      (file-Agrees w k rel_dir name info st)
      (scan_dir-Agrees w k rel_dir others (scan_file w rel_dir name info st))
scan_dir-Agrees w k rel_dir (dir_entry name live hidden listed inside others) st =
    let sub = join_rel w.sep rel_dir name in
    let mid =
      if enters rel_dir name live hidden
      then if listed
        then scan_dir w sub inside st
        else record st { unlisted = st.unlisted ++ sub ∷ [] }
      else st in
    Agrees-both w k (if enters rel_dir name live hidden && listed then found w sub inside else [])
      (found w rel_dir others)
      (if enters rel_dir name live hidden
        then if listed then blocked w sub inside else sub ∷ []
        else [])
      (blocked w rel_dir others) st mid (scan_dir w rel_dir others mid)
      (folder-Agrees w k sub inside (enters rel_dir name live hidden) listed st
        (scan_dir w sub inside st) (scan_dir-Agrees w k sub inside st))
      (scan_dir-Agrees w k rel_dir others mid)
