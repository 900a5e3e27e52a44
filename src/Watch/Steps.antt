-- ===== src/Watch/Steps.antt =====
-- One scan of a file in internal/watch/watch.go: how it brings the entry up to date, and how it ends.
use mathlib.Core.Path.{subst}
use mink_lasso.Base.{
  ℕ, ◌+◌, ◌≤◌, ◌≡◌, refl, sym, ◌∙◌, ap, inl, inr, Bool, true, false, Bool-cases, List, [], ◌∷◌,
  Option, none, some, arith, ltb→le, ◌==◌, ◌&&◌, Option-cases,
}
use mink_lasso.Masso.Words.{Bytes}
use mink_lasso.Watch.Entry.{
  Entry, same_time, update_entry, Outcome, nothing, emits, rejects, Options, settle, is_emitted,
  is_rejected, is_unsettled, judge,
}
use mink_lasso.Watch.History.{Sighting, Steady, noted, is_some, emitted_or, rejected_or}

-- How the loop's body ends for an entry that is up to date.
pub data Judged (o : Options) (now : ℕ) (d n : Bytes) (e : Entry) : Entry → Outcome → Type 0 where
  waits : Judged o now d n e e nothing
  emits_now :
      is_emitted e ≡ false
      → is_unsettled o.settle now e ≡ false
      → o.validate d n ≡ none
      → o.probe (o.join d n) ≡ some false
      → Judged o now d n e
          (record e { emitted = true; emitted_size = e.size; emitted_mod_time = e.mod_time })
          (emits (record {
            name = n;
            dir = d;
            path = o.join d n;
            size = e.size;
            mod_time = e.mod_time;
            changed = e.emitted;
          }))
  rejects_now :
      (reason : Bytes)
      → is_rejected e ≡ false
      → is_unsettled o.settle now e ≡ false
      → o.validate d n ≡ some reason
      → Judged o now d n e
          (record e { rejected = true; rejected_size = e.size; rejected_mod_time = e.mod_time })
          (rejects (record { name = n; dir = d; path = o.join d n; reason = reason }))

pub settle-Judged :
    (o : Options) (now : ℕ) (d n : Bytes) (e : Entry)
    → is_emitted e ≡ false
    → is_rejected e ≡ false
    → is_unsettled o.settle now e ≡ false
    → Judged o now d n e (settle o d n e).0 (settle o d n e).1
unfolding settle
settle-Judged o now d n e p q r = elim (Option-cases (o.validate d n)) [
  | inr (reason, v) ↦ rw v (rejects_now reason q r v)
  | inl v ↦ rw v (elim (Option-cases (o.probe (o.join d n))) [
    | inl b ↦ rw b waits
    | inr (true, b) ↦ rw b waits
    | inr (false, b) ↦ rw b (emits_now p r v b)
  ])
]

pub judge-Judged :
    (o : Options) (now : ℕ) (d n : Bytes) (e : Entry)
    → Judged o now d n e (judge o now d n e).0 (judge o now d n e).1
unfolding judge
judge-Judged o now d n e = elim (Bool-cases (is_emitted e)) [
  | inl p ↦ rw p waits
  | inr p ↦ rw p (elim (Bool-cases (is_rejected e)) [
    | inl q ↦ rw q waits
    | inr q ↦ rw q (elim (Bool-cases (is_unsettled o.settle now e)) [
      | inl r ↦ rw r waits
      | inr r ↦ rw r (settle-Judged o now d n e p q r)
    ])
  ])
]

-- The two ways in which an entry is brought up to date.
pub data Updated (x : Sighting) (e : Entry) : Entry → Type 0 where
  same :
      e.size ≡ x.size
      → e.mod_time ≡ some x.mod_time
      → Updated x e (record e { stable_scans = e.stable_scans + 1 })
  fresh :
      (e.size ≡ x.size → e.mod_time ≡ some x.mod_time → ⊥)
      → Updated x e (record e {
        size = x.size;
        mod_time = some x.mod_time;
        stable_since = x.now;
        stable_scans = 1;
      })

pub same_time-some : (t : Option ℕ) (u : ℕ) → same_time t (some u) ≡ true → t ≡ some u
same_time-some none u h = cc
same_time-some (some t) u h = ground arith

pub some-same_time : (t : Option ℕ) (u : ℕ) → t ≡ some u → same_time t (some u) ≡ true
some-same_time t u h = rw h (ground arith)

-- The entry of a file that this scan found.
abbrev pub refreshed : Sighting → Entry → Entry
refreshed x e = update_entry x.size x.mod_time x.now e

pub update_entry-Updated : (x : Sighting) (e : Entry) → Updated x e (refreshed x e)
unfolding update_entry
update_entry-Updated x e =
    elim (Bool-cases (e.size == x.size && same_time e.mod_time (some x.mod_time))) [
      | inl p ↦ rw p (same (ground arith) (same_time-some e.mod_time x.mod_time (ground arith)))
      | inr p ↦ rw p (
          fresh (λ a b.
            let q : same_time e.mod_time (some x.mod_time) ≡ true =
              some-same_time e.mod_time x.mod_time b in
            ground arith))
    ]

-- What the scans before say of an entry.
abbrev pub Tracks : List Sighting → Entry → Type 0
Tracks [] e = e.mod_time ≡ none
Tracks (x ∷ past) e =
    (e.size ≡ x.size)
    × (e.mod_time ≡ some x.mod_time)
    × Steady x.size x.mod_time e.stable_since (x ∷ past)

pub Updated-content :
    (x : Sighting) (e u : Entry)
    → Updated x e u
    → (u.size ≡ x.size) × (u.mod_time ≡ some x.mod_time)
Updated-content x e _ (same p q) = (p, q)
Updated-content x e _ (fresh n) = (refl, refl)

pub Updated-noted :
    (x : Sighting) (e u : Entry)
    → Updated x e u
    → (noted u.emitted u.emitted_size u.emitted_mod_time
        ≡ noted e.emitted e.emitted_size e.emitted_mod_time)
      × (noted u.rejected u.rejected_size u.rejected_mod_time
          ≡ noted e.rejected e.rejected_size e.rejected_mod_time)
      × (u.emitted ≡ e.emitted)
Updated-noted x e _ (same p q) = (refl, refl, refl)
Updated-noted x e _ (fresh n) = (refl, refl, refl)

pub some-inj : {s t : ℕ} → some s ≡ some t → s ≡ t
some-inj h = cc

pub Steady-moved :
    (s t s' t' u : ℕ) (past : List Sighting)
    → s ≡ s'
    → t ≡ t'
    → Steady s t u past
    → Steady s' t' u past
Steady-moved s t s' t' u past p q h =
    subst (λ (n : ℕ). Steady s' n u past) q (subst (λ (n : ℕ). Steady n t u past) p h)

-- An entry that keeps its content has been steady in the scans before.
pub same-Steady :
    (x : Sighting) (past : List Sighting) (e : Entry)
    → Tracks past e
    → e.size ≡ x.size
    → e.mod_time ≡ some x.mod_time
    → Steady x.size x.mod_time e.stable_since past
same-Steady x [] e h p q = cc
same-Steady x (y ∷ past) e h p q =
    Steady-moved y.size y.mod_time x.size x.mod_time e.stable_since (y ∷ past) (sym h.0 ∙ p)
      (some-inj (sym h.1 ∙ q)) h.2

pub Updated-Tracks :
    (x : Sighting) (past : List Sighting) (e u : Entry)
    → Tracks past e
    → Updated x e u
    → Tracks (x ∷ past) u × (2 ≤ u.stable_scans → Steady x.size x.mod_time u.stable_since past)
Updated-Tracks x past e _ h (same p q) =
    let st = same-Steady x past e h p q in ((p, q, (refl, refl, inr st)), λ two. st)
Updated-Tracks x past e _ h (fresh n) =
    ((refl, refl, (refl, refl, inl refl)), λ two. absurd (omega arith))

pub Judged-Tracks :
    (o : Options) (now : ℕ) (d n : Bytes) (past : List Sighting) (u v : Entry) (out : Outcome)
    → Judged o now d n u v out
    → Tracks past u
    → Tracks past v
Judged-Tracks o now d n [] u _ _ waits h = h
Judged-Tracks o now d n (x ∷ past) u _ _ waits h = h
Judged-Tracks o now d n [] u _ _ (emits_now a b c e) h = h
Judged-Tracks o now d n (x ∷ past) u _ _ (emits_now a b c e) h = h
Judged-Tracks o now d n [] u _ _ (rejects_now r a b c) h = h
Judged-Tracks o now d n (x ∷ past) u _ _ (rejects_now r a b c) h = h

pub settled-two :
    (window now : ℕ) (e : Entry) → is_unsettled window now e ≡ false → 2 ≤ e.stable_scans
settled-two window now e h = ground (arith, ltb→le e.stable_scans 2)

pub settled-time :
    (window now : ℕ) (e : Entry) → is_unsettled window now e ≡ false → e.stable_since + window ≤ now
settled-time window now e h = ground (arith, ltb→le now (e.stable_since + window))

pub noted-holds :
    (b : Bool) (s : ℕ) (t : Option ℕ) (size u : ℕ)
    → noted b s t ≡ some (size, some u)
    → (b ≡ true) × (s ≡ size) × (t ≡ some u)
noted-holds false s t size u h = cc
noted-holds true s t size u h = (refl, cc, cc)

pub noted-is :
    (b : Bool) (s : ℕ) (t : Option ℕ) (size u : ℕ)
    → noted b s t ≡ some (size, some u)
    → (b && s == size && same_time t (some u)) ≡ true
noted-is b s t size u h =
    let (p, q, r) = noted-holds b s t size u h in let w = some-same_time t u r in ground arith

pub holds-noted :
    (b : Bool) (s : ℕ) (t : Option ℕ) (size u : ℕ)
    → (b && s == size && same_time t (some u)) ≡ true
    → noted b s t ≡ some (size, some u)
holds-noted false s t size u h = cc
holds-noted true s t size u h =
    let e : s ≡ size = ground arith in
    let g : t ≡ some u = same_time-some t u (ground arith) in rw (e, g)

pub Judged-noted :
    (x : Sighting) (d n : Bytes) (u v : Entry) (out : Outcome)
    → u.size ≡ x.size
    → u.mod_time ≡ some x.mod_time
    → Judged x.options x.now d n u v out
    → (noted v.emitted v.emitted_size v.emitted_mod_time
        ≡ emitted_or out (noted u.emitted u.emitted_size u.emitted_mod_time))
      × (noted v.rejected v.rejected_size v.rejected_mod_time
          ≡ rejected_or x out (noted u.rejected u.rejected_size u.rejected_mod_time))
Judged-noted x d n u _ _ p q waits = (refl, refl)
Judged-noted x d n u _ _ p q (emits_now a b c e) = (refl, refl)
Judged-noted x d n u _ _ p q (rejects_now r a b c) =
    (refl, ap (λ (w : ℕ × Option ℕ). some w) (λ i. (p i, q i)))

-- The same, when the size and modification time are fields.
pub noted-fits :
    (b : Bool) (s : ℕ) (t : Option ℕ) (size n u : ℕ) (time : Option ℕ)
    → size ≡ n
    → time ≡ some u
    → noted b s t ≡ some (n, some u)
    → (b && s == size && same_time t time) ≡ true
noted-fits b s t size n u time p q h = rw (p, q) (noted-is b s t n u h)

pub fits-noted :
    (b : Bool) (s : ℕ) (t : Option ℕ) (size n u : ℕ) (time : Option ℕ)
    → size ≡ n
    → time ≡ some u
    → (b && s == size && same_time t time) ≡ true
    → noted b s t ≡ some (n, some u)
fits-noted b s t size n u time p q = rw (p, q) (holds-noted b s t n u)

pub is_some-noted : (b : Bool) (s : ℕ) (t : Option ℕ) → is_some (noted b s t) ≡ b
is_some-noted false s t = refl
is_some-noted true s t = refl
