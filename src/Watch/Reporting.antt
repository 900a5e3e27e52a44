-- ===== src/Watch/Reporting.antt =====
-- What internal/watch/watch.go is sure to report: a file whose content has settled.
use mink_lasso.Base.{
  ℕ, ◌+◌, ◌≤◌, ◌≡◌, ◌≢◌, refl, sym, ◌∙◌, ap, inl, inr, false, Bool-cases, Option-cases, ◌⊎◌, List,
  [], ◌∷◌, none, some, arith, le→ltb,
}
use mink_lasso.Masso.Words.{Bytes}
use mink_lasso.Watch.Entry.{
  Entry, File, Rejected, Outcome, emits, rejects, Options, settle, is_emitted, is_rejected,
  is_unsettled, judge, visit,
}
use mink_lasso.Watch.History.{
  Sighting, Steady, NotAfter, InOrder, look, tracked, outcome, last_emitted, last_rejected,
}
use mink_lasso.Watch.Steps.{
  Judged, waits, emits_now, rejects_now, Updated, same, fresh, refreshed, update_entry-Updated,
  Tracks, Updated-content, Updated-noted, fits-noted,
}
use mink_lasso.Watch.Settling.{verdict, tracked-Tracks, tracked-noted}

-- A content that a scan has held up to now, and since when.
abbrev Timed : List Sighting → Entry → Type 0
Timed [] e = Unit
Timed (x ∷ past) e = (e.stable_since ≤ x.now) × (1 ≤ e.stable_scans)

Updated-Timed :
    (x : Sighting) (past : List Sighting) (e u : Entry)
    → NotAfter past x.now
    → Tracks past e
    → Timed past e
    → Updated x e u
    → Timed (x ∷ past) u
Updated-Timed x [] e _ a h t (same p q) = cc
Updated-Timed x (y ∷ past) e _ a h t (same p q) = (omega arith, omega arith)
Updated-Timed x past e _ a h t (fresh n) = (omega arith, omega arith)

Steady-content :
    (past : List Sighting) (e : Entry) (s t u : ℕ)
    → Tracks past e
    → Steady s t u past
    → (e.size ≡ s) × (e.mod_time ≡ some t)
Steady-content [] e s t u h st = absurd st
Steady-content (y ∷ past) e s t u h st = (h.0 ∙ st.0, h.1 ∙ ap (λ (n : ℕ). some n) st.1)

Updated-since :
    (x : Sighting) (past : List Sighting) (e v : Entry) (s t u : ℕ)
    → Tracks past e
    → (Steady s t u past → e.stable_since ≤ u)
    → Timed (x ∷ past) v
    → Updated x e v
    → Steady s t u (x ∷ past)
    → v.stable_since ≤ u
Updated-since x past e _ s t u h old tm (same p q) st = elim st.2 [
  | inl now ↦ omega (arith, now, tm.0)
  | inr steady ↦ old steady
]
Updated-since x past e _ s t u h old tm (fresh n) st = elim st.2 [
  | inl now ↦ omega (arith, now)
  | inr steady ↦
      let (a, b) = Steady-content past e s t u h steady in
      absurd (n (a ∙ sym st.0) (b ∙ ap (λ (k : ℕ). some k) (sym st.1)))
]

Judged-kept :
    (o : Options) (now : ℕ) (d n : Bytes) (u v : Entry) (out : Outcome)
    → Judged o now d n u v out
    → (v.stable_since ≡ u.stable_since) × (v.stable_scans ≡ u.stable_scans)
Judged-kept o now d n u _ _ waits = (refl, refl)
Judged-kept o now d n u _ _ (emits_now a b c e) = (refl, refl)
Judged-kept o now d n u _ _ (rejects_now r a b c) = (refl, refl)

settles :
    (o : Options) (now : ℕ) (d n : Bytes) (u : Entry)
    → is_emitted u ≡ false
    → is_rejected u ≡ false
    → is_unsettled o.settle now u ≡ false
    → judge o now d n u ≡ settle o d n u
unfolding judge
settles o now d n u p q r = rw p (rw q (rw r refl))

settle-emits :
    (o : Options) (d n : Bytes) (u : Entry)
    → o.validate d n ≡ none
    → o.probe (o.join d n) ≡ some false
    → (f : File) × ((settle o d n u).1 ≡ emits f)
unfolding settle
settle-emits o d n u v free = rw v (rw free (_, refl))

settle-rejects :
    (o : Options) (d n reason : Bytes) (u : Entry)
    → o.validate d n ≡ some reason
    → (r : Rejected) × (r.reason ≡ reason) × ((settle o d n u).1 ≡ rejects r)
unfolding settle
settle-rejects o d n reason u v =
    rw v (record { name = n; dir = d; path = o.join d n; reason = reason }, refl, refl)

module _ (rel_dir name : Bytes) where
  tracked-Timed : (past : List Sighting) → InOrder past → Timed past (tracked rel_dir name past)
  tracked-Timed [] h = tt
  tracked-Timed (x ∷ past) h =
      let e = tracked rel_dir name past in
      let (since, scans) =
        Judged-kept x.options x.now rel_dir name (refreshed x e) (tracked rel_dir name (x ∷ past))
          (outcome rel_dir name x past) (verdict rel_dir name x past) in
      let (a, b) =
        Updated-Timed x past e (refreshed x e) h.0 (tracked-Tracks rel_dir name past)
          (tracked-Timed past h.1) (update_entry-Updated x e) in
      (omega (arith, since, a), omega (arith, scans, b))

  refreshed-Timed :
      (x : Sighting) (past : List Sighting)
      → InOrder (x ∷ past)
      → Timed (x ∷ past) (refreshed x (tracked rel_dir name past))
  refreshed-Timed x past h =
      Updated-Timed x past (tracked rel_dir name past) (refreshed x (tracked rel_dir name past)) h.0
        (tracked-Tracks rel_dir name past) (tracked-Timed past h.1)
        (update_entry-Updated x (tracked rel_dir name past))

  tracked-since :
      (past : List Sighting) (s t u : ℕ)
      → InOrder past
      → Steady s t u past
      → (tracked rel_dir name past).stable_since ≤ u
  tracked-since [] s t u h st = absurd st
  tracked-since (x ∷ past) s t u h st =
      let e = tracked rel_dir name past in
      let (since, scans) =
        Judged-kept x.options x.now rel_dir name (refreshed x e) (tracked rel_dir name (x ∷ past))
          (outcome rel_dir name x past) (verdict rel_dir name x past) in
      let bound =
        Updated-since x past e (refreshed x e) s t u (tracked-Tracks rel_dir name past)
          (tracked-since past s t u h.1) (refreshed-Timed x past h) (update_entry-Updated x e) st in
      omega (arith, since, bound)

  -- A second scan of one content counts it.
  repeats :
      (x : Sighting) (past : List Sighting) (v : Entry) (u : ℕ)
      → Steady x.size x.mod_time u past
      → InOrder past
      → Updated x (tracked rel_dir name past) v
      → 2 ≤ v.stable_scans
  repeats x [] v u st h upd = absurd st
  repeats x (y ∷ past) _ u st h (same p q) = omega (arith, (tracked-Timed (y ∷ past) h).1)
  repeats x (y ∷ past) _ u st h (fresh n) =
      let (a, b) =
        Steady-content (y ∷ past) (tracked rel_dir name (y ∷ past)) x.size x.mod_time u
          (tracked-Tracks rel_dir name (y ∷ past)) st in
      absurd (n a b)

  -- A content that has been steady for the settling time, before this scan too.
  abbrev Waited : Sighting → List Sighting → Type 0
  Waited x past =
      (u : ℕ) × InOrder (x ∷ past)
      × Steady x.size x.mod_time u past
      × (u + x.options.settle ≤ x.now)

  Waited-settled :
      (x : Sighting) (past : List Sighting)
      → Waited x past
      → is_unsettled x.options.settle x.now (refreshed x (tracked rel_dir name past)) ≡ false
  Waited-settled x past (u, order, steady, long) =
      let e = tracked rel_dir name past in
      let timed = refreshed-Timed x past order in
      let since =
        Updated-since x past e (refreshed x e) x.size x.mod_time u
          (tracked-Tracks rel_dir name past) (tracked-since past x.size x.mod_time u order.1) timed
          (update_entry-Updated x e) (refl, refl, inr steady) in
      let two = repeats x past (refreshed x e) u steady order.1 (update_entry-Updated x e) in
      ground (
        arith,
        le→ltb (refreshed x e).stable_scans 2 two,
        le→ltb x.now ((refreshed x e).stable_since + x.options.settle) (omega (arith, since, long)),
      )

  not-noted :
      (x : Sighting) (past : List Sighting)
      → last_emitted rel_dir name past ≢ some (x.size, some x.mod_time)
      → is_emitted (refreshed x (tracked rel_dir name past)) ≡ false
  not-noted x past h =
      let e = tracked rel_dir name past in
      let u = refreshed x e in
      let (size, time) = Updated-content x e u (update_entry-Updated x e) in
      let (c, d, k) = Updated-noted x e u (update_entry-Updated x e) in
      let (n, m) = tracked-noted rel_dir name past in
      elim (Bool-cases (is_emitted u)) [
        | inr p ↦ p
        | inl p ↦ absurd (
            h (
              sym (c ∙ n)
              ∙ fits-noted u.emitted u.emitted_size u.emitted_mod_time u.size x.size x.mod_time
                  u.mod_time size time p))
      ]

  not-rejected :
      (x : Sighting) (past : List Sighting)
      → last_rejected rel_dir name past ≢ some (x.size, some x.mod_time)
      → is_rejected (refreshed x (tracked rel_dir name past)) ≡ false
  not-rejected x past h =
      let e = tracked rel_dir name past in
      let u = refreshed x e in
      let (size, time) = Updated-content x e u (update_entry-Updated x e) in
      let (c, d, k) = Updated-noted x e u (update_entry-Updated x e) in
      let (n, m) = tracked-noted rel_dir name past in
      elim (Bool-cases (is_rejected u)) [
        | inr p ↦ p
        | inl p ↦ absurd (
            h (
              sym (d ∙ m)
              ∙ fits-noted u.rejected u.rejected_size u.rejected_mod_time u.size x.size x.mod_time
                  u.mod_time size time p))
      ]

  -- A file that was found with one content over the settling time, by this scan and one before it, and
  -- whose content is neither the last emitted nor the last rejected, is emitted if it is valid, and
  -- rejected with the reason if it is not, when the probe finds it free.
  pub settled_reports :
      (x : Sighting) (past : List Sighting)
      → Waited x past
      → last_emitted rel_dir name past ≢ some (x.size, some x.mod_time)
      → last_rejected rel_dir name past ≢ some (x.size, some x.mod_time)
      → x.options.probe (x.options.join rel_dir name) ≡ some false
      → ((f : File) × (x.options.validate rel_dir name ≡ none)
          × (outcome rel_dir name x past ≡ emits f))
        ⊎ ((r : Rejected) × (x.options.validate rel_dir name ≡ some r.reason)
            × (outcome rel_dir name x past ≡ rejects r))
  unfolding outcome look visit
  settled_reports x past w a b free =
      let u = refreshed x (tracked rel_dir name past) in
      let e =
        settles x.options x.now rel_dir name u (not-noted x past a) (not-rejected x past b)
          (Waited-settled x past w) in
      elim (Option-cases (x.options.validate rel_dir name)) [
        | inl v ↦
            let (f, g) = settle-emits x.options rel_dir name u v free in
            inl (f, v, ap (λ (r : Entry × Outcome). r.1) e ∙ g)
        | inr (reason, v) ↦
            let (r, p, g) = settle-rejects x.options rel_dir name reason u v in
            inr (r, v ∙ ap (λ (t : Bytes). some t) (sym p), ap (λ (t : Entry × Outcome). t.1) e ∙ g)
      ]
