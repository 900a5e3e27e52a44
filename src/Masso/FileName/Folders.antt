-- ===== src/Masso/FileName/Folders.antt =====
-- `ValidateUploadDir` of internal/masso/filename.go accepts the drive root and the paths that are
-- valid components with backslashes between them.
use mink_lasso.Base.{
  ℕ, ◌≤◌, ◌≡◌, ◌≢◌, ◌↔◌, refl, sym, ◌∙◌, ap, List, [], ◌∷◌, ◌++◌, ◌⊎◌, inl, inr, length, arith, All,
}
use mink_lasso.Masso.Errors.{Result, bad_upload_dir, ok, err, ◌>>◌}
use mink_lasso.Masso.Words.{Bytes}
use mink_lasso.Masso.FileName.{
  max_upload_dir, backslash, cons_head, split, validate_component, validate_components,
  validate_upload_dir,
}
use mink_lasso.Masso.FileName.Laws.{IsComponent, IsNameChar, validate_component_iff}

-- Components with a backslash between each two.
abbrev pub join : List Bytes → Bytes
join [] = []
join (c ∷ []) = c
join (c ∷ d ∷ cs) = c ++ (backslash ∷ join (d ∷ cs))

-- A path on the drive: `components` are its folders, outermost first.
pub record IsUploadDir (dir : Bytes) : Type 0 where
  pub components : List Bytes
  pub joined : join components ≡ dir
  pub some_component : components ≢ []
  pub valid : All (λ c. (c ≢ []) × IsComponent c) components
  pub fits : length dir ≤ max_upload_dir

join-cons_head : (b : ℕ) (cs : List Bytes) → join (cons_head b cs) ≡ b ∷ join cs
join-cons_head b [] = refl
join-cons_head b (c ∷ []) = refl
join-cons_head b (c ∷ d ∷ cs) = refl

split-ne-nil : (s : Bytes) → split s backslash ≢ []
unfolding split
split-ne-nil [] e = cc
split-ne-nil (b ∷ bs) e = ground arith

join-cons_nil : (cs : List Bytes) → cs ≢ [] → join ([] ∷ cs) ≡ backslash ∷ join cs
join-cons_nil [] h = absurd (h refl)
join-cons_nil (c ∷ cs) h = refl

pub join-split : (s : Bytes) → join (split s backslash) ≡ s
unfolding split
join-split [] = refl
join-split (b ∷ bs) = ground (
  arith,
  join-split bs,
  join-cons_head b (split bs backslash),
  join-cons_nil (split bs backslash) (split-ne-nil bs),
)

split_part : (c : Bytes) → All IsNameChar c → split c backslash ≡ c ∷ []
unfolding split
split_part [] h = refl
split_part (b ∷ bs) h = ground (arith, split_part bs h.1, h.0.allowed)

split_parts :
    (c s : Bytes)
    → All IsNameChar c
    → split (c ++ (backslash ∷ s)) backslash ≡ c ∷ split s backslash
unfolding split
split_parts [] s h = refl
split_parts (b ∷ bs) s h = ground (arith, split_parts bs s h.1, h.0.allowed)

split-join :
    (cs : List Bytes)
    → cs ≢ []
    → All (λ c. (c ≢ []) × IsComponent c) cs
    → split (join cs) backslash ≡ cs
split-join [] h k = absurd (h refl)
split-join (c ∷ []) h k = split_part c k.0.1.chars
split-join (c ∷ d ∷ cs) h k =
    split_parts c (join (d ∷ cs)) k.0.1.chars ∙ ap (λ t. c ∷ t) (split-join (d ∷ cs) (λ e. cc) k.1)

>>-eq-ok : (m n : Result (Unit {0})) → (m >> n) ≡ ok tt → (m ≡ ok tt) × (n ≡ ok tt)
>>-eq-ok (ok u) n h = (refl, h)
>>-eq-ok (err e) n h = cc

validate_components_sound :
    (cs : List Bytes) → validate_components cs ≡ ok tt → All (λ c. (c ≢ []) × IsComponent c) cs
unfolding validate_components
validate_components_sound [] h = tt
validate_components_sound ([] ∷ cs) h = cc
validate_components_sound ((b ∷ bs) ∷ cs) h = (
  (
    (λ e. cc),
    (validate_component_iff (b ∷ bs) bad_upload_dir).0
        (>>-eq-ok (validate_component (b ∷ bs) bad_upload_dir) (validate_components cs) h).0,
  ),
  validate_components_sound cs
      (>>-eq-ok (validate_component (b ∷ bs) bad_upload_dir) (validate_components cs) h).1,
)

validate_components_complete :
    (cs : List Bytes) → All (λ c. (c ≢ []) × IsComponent c) cs → validate_components cs ≡ ok tt
unfolding validate_components
validate_components_complete [] h = refl
validate_components_complete ([] ∷ cs) h = absurd (h.0.0 refl)
validate_components_complete ((b ∷ bs) ∷ cs) h =
    rw ((validate_component_iff (b ∷ bs) bad_upload_dir).1 h.0.1)
      (validate_components_complete cs h.1)

accepted : (dir : Bytes) → IsUploadDir dir → validate_components (split dir backslash) ≡ ok tt
accepted dir d =
    ap validate_components (
      ap (λ (t : Bytes). split t backslash) (sym d.joined)
      ∙ split-join d.components d.some_component d.valid)
    ∙ validate_components_complete d.components d.valid

-- A folder passes exactly if it is empty, or has at most 255 bytes and is a sequence of components
-- with backslashes between them, each non-empty and with the characters of a file name.
pub validate_upload_dir_iff :
    (dir : Bytes) → (validate_upload_dir dir ≡ ok tt) ↔ ((dir ≡ []) ⊎ IsUploadDir dir)
unfolding validate_upload_dir
validate_upload_dir_iff [] = (λ h. inl refl, λ h. refl)
validate_upload_dir_iff (b ∷ bs) = (
  (λ h. inr (record {
    components = split (b ∷ bs) backslash;
    joined = join-split (b ∷ bs);
    some_component = split-ne-nil (b ∷ bs);
    valid = validate_components_sound (split (b ∷ bs) backslash) (ground arith);
    fits = ground arith;
  })),
  (λ h. elim h [ inl e ↦ absurd (cc) | inr d ↦ ground (arith, d.fits, accepted (b ∷ bs) d) ]),
)
