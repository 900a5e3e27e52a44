-- ===== src/Masso/Serial.antt =====
-- internal/masso/serial.go: the serial number as it is written on the controller's screen.
use mink_lasso.Base.{
  ℕ, suc, ◌+◌, ◌/◌, ◌%◌, ◌<◌, ◌^◌, ◌≡◌, refl, inl, inr, Bool-cases, true, false, ◌&&◌, ◌||◌, [],
  ◌∷◌, ◌++◌, ltb, lt→ltb, ◌==◌, if◌then◌else◌, drop, take, arith,
}
use mink_lasso.Base.Maps.{bytes_eq}
use mink_lasso.Base.Decimal.{decimal, value, are_digits, value-decimal, are_digits-decimal}
use mink_lasso.Masso.Errors.{bad_serial, Result, ok, err}
use mink_lasso.Masso.Words.{Bytes}
use mink_lasso.Masso.FileName.{is_empty}

-- "G3-" and "g3-"
abbrev pub serial_prefix : Bytes
serial_prefix = b'G' ∷ b'3' ∷ b'-' ∷ []

abbrev pub lower_prefix : Bytes
lower_prefix = b'g' ∷ b'3' ∷ b'-' ∷ []

-- `SerialString`.
unfoldable pub serial_string : ℕ → Bytes
serial_string serial = serial_prefix ++ decimal (suc serial) serial

-- strconv.ParseUint in base ten, for 32 bits.
abbrev pub parse_uint : Bytes → Result ℕ
parse_uint s =
    if is_empty s
    then err bad_serial
    else if are_digits s && ltb (value 0 s) (2 ^ 32)
    then ok (value 0 s)
    else err bad_serial

abbrev pub without_prefix : Bytes → Bytes
without_prefix s =
    if bytes_eq (take 3 s) serial_prefix || bytes_eq (take 3 s) lower_prefix then drop 3 s else s

-- `ParseSerial`.
unfoldable pub parse_serial : Bytes → Result ℕ
parse_serial s = parse_uint (without_prefix s)

append_some : (s : Bytes) (c : ℕ) → is_empty (s ++ c ∷ []) ≡ false
append_some [] c = refl
append_some (d ∷ s) c = refl

decimal_some : (n : ℕ) → is_empty (decimal (suc n) n) ≡ false
unfolding decimal
decimal_some n = elim (Bool-cases (ltb n 10)) [
  | inl q ↦ rw q refl
  | inr q ↦ rw q (append_some (decimal n (n / 10)) (b'0' + n % 10))
]

parse_uint-decimal : (n : ℕ) → n < 2 ^ 32 → parse_uint (decimal (suc n) n) ≡ ok n
parse_uint-decimal n h = rw (decimal_some n) (
    rw (are_digits-decimal (suc n) n, value-decimal (suc n) n (omega arith))
      (rw (lt→ltb n (2 ^ 32) h) refl))

without_prefix-digits : (s : Bytes) → are_digits s ≡ true → without_prefix s ≡ s
unfolding bytes_eq
without_prefix-digits [] h = refl
without_prefix-digits (c ∷ s) h =
    let not_g : (c == b'G') ≡ false = ground arith in
    let not_g' : (c == b'g') ≡ false = ground arith in rw (not_g, not_g') refl

-- Every 32-bit serial number is read back from its printed form, from that form with a small g, and from
-- the bare number.
pub parse_serial-serial_string :
    (n : ℕ)
    → n < 2 ^ 32
    → (parse_serial (serial_string n) ≡ ok n)
      × (parse_serial (lower_prefix ++ decimal (suc n) n) ≡ ok n)
      × (parse_serial (decimal (suc n) n) ≡ ok n)
unfolding parse_serial serial_string bytes_eq
parse_serial-serial_string n h =
    let bare = parse_uint-decimal n h in
    (bare, bare, rw (without_prefix-digits (decimal (suc n) n) (are_digits-decimal (suc n) n)) bare)
