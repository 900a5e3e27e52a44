-- ===== src/Masso/FileName/Laws.antt =====
-- What the tests of internal/masso/filename.go accept, described without them.
use mink_lasso.Base.{ℕ, ◌≤◌, ◌≡◌, ◌≢◌, ◌↔◌, refl, false, [], ◌∷◌, length, arith, All}
use mink_lasso.Masso.Errors.{Error, bad_file_name, ok}
use mink_lasso.Masso.Words.{Bytes}
use mink_lasso.Masso.FileName.{
  max_file_name, contains, forbidden_chars, validate_bytes, is_reserved, validate_component,
  validate_file_name,
}

-- A character that a name may have: printable ASCII, and none of `\/:*?"<>|`.
pub record IsNameChar (b : ℕ) : Type 0 where
  pub low : 0x20 ≤ b
  pub high : b ≤ 0x7e
  pub allowed : All (λ c. c ≢ b) forbidden_chars

-- A name or folder that the rules on characters allow.
pub record IsComponent (s : Bytes) : Type 0 where
  pub chars : All IsNameChar s
  pub not_dot : s ≢ b'.' ∷ []
  pub not_dots : s ≢ b'.' ∷ b'.' ∷ []

pub record IsFileName (name : Bytes) : Type 0 where
  pub component : IsComponent name
  pub some_byte : 1 ≤ length name
  pub fits : length name ≤ max_file_name

contains_sound : (s : Bytes) (b : ℕ) → contains s b ≡ false → All (λ c. c ≢ b) s
contains_sound [] b h = tt
contains_sound (c ∷ cs) b h = (ground arith, contains_sound cs b (ground arith))

contains_complete : (s : Bytes) (b : ℕ) → All (λ c. c ≢ b) s → contains s b ≡ false
contains_complete [] b h = refl
contains_complete (c ∷ cs) b h = ground (arith, h.0, contains_complete cs b h.1)

is_reserved_iff : (s : Bytes) → (is_reserved s ≡ false) ↔ ((s ≢ b'.' ∷ []) × (s ≢ b'.' ∷ b'.' ∷ []))
is_reserved_iff [] = (λ h. (λ e. cc, λ e. cc), λ h. refl)
is_reserved_iff (a ∷ []) = (λ h. (ground arith, ground arith), λ h. ground arith)
is_reserved_iff (a ∷ b ∷ []) = (λ h. (ground arith, ground arith), λ h. ground arith)
is_reserved_iff (a ∷ b ∷ c ∷ s) = (λ h. (λ e. cc, λ e. cc), λ h. refl)

validate_bytes_sound : (e : Error) (s : Bytes) → validate_bytes e s ≡ ok tt → All IsNameChar s
unfolding validate_bytes
validate_bytes_sound e [] h = tt
validate_bytes_sound e (b ∷ bs) h = (
  record {
    low = ground arith;
    high = ground arith;
    allowed = contains_sound forbidden_chars b (ground arith);
  },
  validate_bytes_sound e bs (ground arith),
)

validate_bytes_complete : (e : Error) (s : Bytes) → All IsNameChar s → validate_bytes e s ≡ ok tt
unfolding validate_bytes
validate_bytes_complete e [] h = refl
validate_bytes_complete e (b ∷ bs) h = ground (
  arith,
  validate_bytes_complete e bs h.1,
  h.0.low,
  h.0.high,
  contains_complete forbidden_chars b h.0.allowed,
)

pub validate_component_iff :
    (s : Bytes) (e : Error) → (validate_component s e ≡ ok tt) ↔ IsComponent s
unfolding validate_component
validate_component_iff s e = (
  (λ h.
      let free : is_reserved s ≡ false = ground arith in
      record {
        chars = validate_bytes_sound e s (ground arith);
        not_dot = ((is_reserved_iff s).0 free).0;
        not_dots = ((is_reserved_iff s).0 free).1;
      }),
  (λ h.
      ground (
        arith,
        (is_reserved_iff s).1 (h.not_dot, h.not_dots),
        validate_bytes_complete e s h.chars,
      )),
)

-- A file name passes exactly if it has 1 to 33 bytes, all of them printable ASCII and none of
-- `\/:*?"<>|`, and is neither "." nor "..".
pub validate_file_name_iff : (name : Bytes) → (validate_file_name name ≡ ok tt) ↔ IsFileName name
unfolding validate_file_name
validate_file_name_iff name = (
  (λ h. record {
    component = (validate_component_iff name bad_file_name).0 (ground arith);
    some_byte = ground arith;
    fits = ground arith;
  }),
  (λ h.
      ground
        (arith, h.some_byte, h.fits, (validate_component_iff name bad_file_name).1 h.component)),
)
