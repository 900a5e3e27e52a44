-- ===== src/Watch/Settling.antt =====
-- What internal/watch/watch.go reports of one file over many scans.
use mathlib.Core.Path.{subst}
use mink_lasso.Base.{
  ℕ, ◌+◌, ◌≤◌, ◌≡◌, refl, sym, ◌∙◌, ap, ◌≢◌, true, false, List, [], ◌∷◌, none, some,
}
use mink_lasso.Masso.Words.{Bytes}
use mink_lasso.Watch.Entry.{
  Entry, File, Rejected, Outcome, nothing, emits, rejects, is_emitted, is_rejected, is_unsettled,
  visit,
}
use mink_lasso.Watch.History.{
  Sighting, Steady, noted, is_some, emitted_or, rejected_or, look, tracked, outcome, last_emitted,
  last_rejected,
}
use mink_lasso.Watch.Steps.{
  Judged, waits, emits_now, rejects_now, judge-Judged, refreshed, update_entry-Updated, Tracks,
  Updated-content, Updated-noted, Updated-Tracks, Judged-Tracks, settled-two, settled-time,
  noted-fits, is_some-noted, Judged-noted,
}

module _ (rel_dir name : Bytes) where
  -- How a scan of the file ends.
  pub verdict :
      (x : Sighting) (past : List Sighting)
      → Judged x.options x.now rel_dir name
          (refreshed x (tracked rel_dir name past))
          (tracked rel_dir name (x ∷ past))
          (outcome rel_dir name x past)
  unfolding tracked outcome look visit
  verdict x past =
      judge-Judged x.options x.now rel_dir name (refreshed x (tracked rel_dir name past))

  pub tracked-Tracks : (past : List Sighting) → Tracks past (tracked rel_dir name past)
  unfolding tracked
  tracked-Tracks [] = refl
  tracked-Tracks (x ∷ past) =
      let e = tracked rel_dir name past in
      Judged-Tracks x.options x.now rel_dir name (x ∷ past) (refreshed x e)
        (tracked rel_dir name (x ∷ past)) (outcome rel_dir name x past) (verdict x past)
        (Updated-Tracks x past e (refreshed x e) (tracked-Tracks past) (update_entry-Updated x e)).0

  pub tracked-noted :
      (past : List Sighting)
      → (noted
            (tracked rel_dir name past).emitted
            (tracked rel_dir name past).emitted_size
            (tracked rel_dir name past).emitted_mod_time
          ≡ last_emitted rel_dir name past)
        × (noted
              (tracked rel_dir name past).rejected
              (tracked rel_dir name past).rejected_size
              (tracked rel_dir name past).rejected_mod_time
            ≡ last_rejected rel_dir name past)
  unfolding tracked last_emitted last_rejected
  tracked-noted [] = (refl, refl)
  tracked-noted (x ∷ past) =
      let e = tracked rel_dir name past in
      let upd = update_entry-Updated x e in
      let (size, time) = Updated-content x e (refreshed x e) upd in
      let (a, b) =
        Judged-noted x rel_dir name (refreshed x e) (tracked rel_dir name (x ∷ past))
          (outcome rel_dir name x past) size time (verdict x past) in
      let (c, d, r) = Updated-noted x e (refreshed x e) upd in
      let (f, g) = tracked-noted past in
      (
        a ∙ ap (emitted_or (outcome rel_dir name x past)) (c ∙ f),
        b ∙ ap (rejected_or x (outcome rel_dir name x past)) (d ∙ g),
      )

  -- What an outcome says, for the entry that was brought up to date.
  abbrev Says : Sighting → Entry → Outcome → Type 0
  Says x u nothing = Unit
  Says x u (emits f) =
      (is_emitted u ≡ false)
      × (is_unsettled x.options.settle x.now u ≡ false)
      × (x.options.validate rel_dir name ≡ none)
      × (x.options.probe (x.options.join rel_dir name) ≡ some false)
      × (f.size ≡ u.size)
      × (f.mod_time ≡ u.mod_time)
      × (f.changed ≡ u.emitted)
  Says x u (rejects r) =
      (is_rejected u ≡ false)
      × (is_unsettled x.options.settle x.now u ≡ false)
      × (x.options.validate rel_dir name ≡ some r.reason)

  Judged-Says :
      (x : Sighting) (u v : Entry) (out : Outcome)
      → Judged x.options x.now rel_dir name u v out
      → Says x u out
  Judged-Says x u _ _ waits = tt
  Judged-Says x u _ _ (emits_now a b c e) = (a, b, c, e, refl, refl, refl)
  Judged-Says x u _ _ (rejects_now r a b c) = (a, b, c)

  outcome-Says :
      (x : Sighting) (past : List Sighting) (out : Outcome)
      → outcome rel_dir name x past ≡ out
      → Says x (refreshed x (tracked rel_dir name past)) out
  outcome-Says x past out h = subst (Says x (refreshed x (tracked rel_dir name past))) h (
      Judged-Says x (refreshed x (tracked rel_dir name past)) (tracked rel_dir name (x ∷ past))
        (outcome rel_dir name x past) (verdict x past))

  -- Steady for the settling time, before this scan too.
  abbrev Settled : Sighting → List Sighting → Type 0
  Settled x past = (u : ℕ) × Steady x.size x.mod_time u past × (u + x.options.settle ≤ x.now)

  unsettled-Settled :
      (x : Sighting) (past : List Sighting)
      → is_unsettled x.options.settle x.now (refreshed x (tracked rel_dir name past)) ≡ false
      → Settled x past
  unsettled-Settled x past h =
      let u = refreshed x (tracked rel_dir name past) in
      let (tr, steady) =
        Updated-Tracks x past (tracked rel_dir name past) u (tracked-Tracks past)
          (update_entry-Updated x (tracked rel_dir name past)) in
      (
        u.stable_since,
        steady (settled-two x.options.settle x.now u h),
        settled-time x.options.settle x.now u h,
      )

  -- A file is only emitted after scans that found one content over the whole settling time, this one
  -- and at least one before it; with that content; and when it is valid and not busy.
  pub emits-Settled :
      (x : Sighting) (past : List Sighting) (f : File)
      → outcome rel_dir name x past ≡ emits f
      → Settled x past
        × (f.size ≡ x.size)
        × (f.mod_time ≡ some x.mod_time)
        × (x.options.validate rel_dir name ≡ none)
        × (x.options.probe (x.options.join rel_dir name) ≡ some false)
  emits-Settled x past f h =
      let e = tracked rel_dir name past in
      let (size, time) = Updated-content x e (refreshed x e) (update_entry-Updated x e) in
      let (a, b, c, d, s, t, g) = outcome-Says x past (emits f) h in
      (unsettled-Settled x past b, s ∙ size, t ∙ time, c, d)

  -- A content is not emitted twice in a row, and a file is marked as changed exactly when it has been
  -- emitted before.
  pub emits_once :
      (x : Sighting) (past : List Sighting) (f : File)
      → outcome rel_dir name x past ≡ emits f
      → (last_emitted rel_dir name past ≢ some (x.size, some x.mod_time))
        × (f.changed ≡ is_some (last_emitted rel_dir name past))
  emits_once x past f h =
      let e = tracked rel_dir name past in
      let u = refreshed x e in
      let upd = update_entry-Updated x e in
      let (size, time) = Updated-content x e u upd in
      let (c, d, r) = Updated-noted x e u upd in
      let (a, b, v, p, s, t, g) = outcome-Says x past (emits f) h in
      let (n, m) = tracked-noted past in
      (
        λ q.
            let w : is_emitted u ≡ true =
              noted-fits u.emitted u.emitted_size u.emitted_mod_time u.size x.size x.mod_time
                u.mod_time size time (c ∙ n ∙ q) in
            cc,
        g ∙ sym (is_some-noted u.emitted u.emitted_size u.emitted_mod_time) ∙ ap is_some (c ∙ n),
      )

  -- A file is only rejected when its content has settled, with the reason of the validation, and a
  -- content is not rejected twice in a row.
  pub rejects-Settled :
      (x : Sighting) (past : List Sighting) (r : Rejected)
      → outcome rel_dir name x past ≡ rejects r
      → Settled x past
        × (x.options.validate rel_dir name ≡ some r.reason)
        × (last_rejected rel_dir name past ≢ some (x.size, some x.mod_time))
  rejects-Settled x past r h =
      let e = tracked rel_dir name past in
      let u = refreshed x e in
      let upd = update_entry-Updated x e in
      let (size, time) = Updated-content x e u upd in
      let (c, d, k) = Updated-noted x e u upd in
      let (a, b, v) = outcome-Says x past (rejects r) h in
      let (n, m) = tracked-noted past in
      (
        unsettled-Settled x past b,
        v,
        λ q.
            let w : is_rejected u ≡ true =
              noted-fits u.rejected u.rejected_size u.rejected_mod_time u.size x.size x.mod_time
                u.mod_time size time (d ∙ m ∙ q) in
            cc,
      )
