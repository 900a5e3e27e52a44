-- ===== src/Masso/Errors.antt =====
-- internal/masso/errors.go, and the sentinels of internal/masso/client.go. A Go error is the sentinel that `errors.Is` finds in it: the formatted
-- detail that a `%w` wraps around a sentinel is not modelled.
use mink_lasso.Base.{◌≡◌, ◌⊎◌, inl, inr, refl}

pub data Error : Type 0 where
  short_packet bad_magic bad_crc : Error
  unknown_type bad_length malformed chunk_too_large bad_file_name bad_upload_dir bad_serial : Error
  no_usb transfer transfer_open usb_write canceled no_response lost context_done : Error
  no_port not_connected busy send_failed discovery_send interface_enum : Error
  read_failed file_too_large : Error

-- A pair (value, error) of Go, of which one part is meaningful.
pub data Result {ℓ} (A : Type ℓ) : Type ℓ where
  ok : A → Result A
  err : Error → Result A

-- Go's `if err != nil { return err }`: the rest of a function runs on a value only.
infixl 5 ◌>>=◌ ◌>>◌
abbrev pub ◌>>=◌ {ℓ κ} : {A : Type ℓ} {B : Type κ} → Result A → (A → Result B) → Result B
err e >>= rest = err e
ok value >>= rest = rest value

abbrev pub ◌>>◌ {ℓ} : {B : Type ℓ} → Result (Unit {0}) → Result B → Result B
check >> rest = check >>= λ _. rest

-- To split on a computed result and keep the equation.
pub result_cases {ℓ} :
    {A : Type ℓ} (r : Result A) → ((a : A) × (r ≡ ok a)) ⊎ ((e : Error) × (r ≡ err e))
result_cases (ok a) = inl (a, refl)
result_cases (err e) = inr (e, refl)
