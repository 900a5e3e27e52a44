-- ===== src/Masso/Frame/RoundTrip.antt =====
-- `parse` undoes `frame`, and refuses a datagram of which one byte was changed.
use mink_lasso.Base.{
  ℕ, ◌+◌, ◌-◌, ◌%◌, ◌<◌, ◌≢◌, ◌≡◌, inl, inr, sym, ◌∙◌, ap, [], ◌∷◌, ◌++◌, arith, length,
  length-append, length-replicate, replicate, All-append, All-replicate, drop, ==_iff,
}
use mink_lasso.Masso.Errors.{Error, ok, err, result_cases}
use mink_lasso.Masso.Words.{Bytes, IsByte, AreBytes, get_u16, get_u16-put_u16}
use mink_lasso.Masso.Frame.{round_up4, frame_body, frame, parse, crc16_xmodem}
use mink_lasso.Masso.Frame.Crc.{crc16_xmodem-lt, crc16_xmodem-change}

-- The zeros that `frame` puts behind a payload.
abbrev pub padding : Bytes → Bytes
padding payload = replicate ((4 - (3 + length payload) % 4) % 4) 0

padding-round_up4 : (n : ℕ) → round_up4 n - n ≡ (4 - n % 4) % 4
unfolding round_up4
padding-round_up4 n = omega arith

frame_body-AreBytes :
    (typ : ℕ) (payload : Bytes) → typ < 256 → AreBytes payload → AreBytes (frame_body typ payload)
unfolding frame_body
frame_body-AreBytes typ payload h k = (
  omega arith,
  (omega arith, (h, All-append IsByte payload _ k (All-replicate IsByte _ 0 (omega arith)))),
)

-- Unframing a framed payload gives its type, the payload and fewer than four zeros.
pub parse-frame :
    (typ : ℕ) (payload : Bytes)
    → typ < 256
    → AreBytes payload
    → parse (frame typ payload) ≡ ok (typ, payload ++ padding payload)
unfolding parse frame frame_body
parse-frame typ payload h k =
    let fits = crc16_xmodem-lt (frame_body typ payload) (frame_body-AreBytes typ payload h k) in
    rw ((==_iff _ _).1 (get_u16-put_u16 (crc16_xmodem (frame_body typ payload)) fits))
      (ap (λ (n : ℕ). ok (typ, payload ++ replicate n 0)) (padding-round_up4 (3 + length payload)))

-- The whole datagram is the checksum and a body whose length is a multiple of 4.
pub length-frame : (typ : ℕ) (payload : Bytes) → (length (frame typ payload) - 2) % 4 ≡ 0
unfolding frame frame_body
length-frame typ payload =
    let pad = round_up4 (3 + length payload) - (3 + length payload) in
    omega (
      arith,
      length-append payload (replicate pad 0),
      length-replicate {A = ℕ} pad 0,
      padding-round_up4 (3 + length payload),
    )

parse-eq-ok :
    (pkt : Bytes) {r : ℕ × Bytes} → parse pkt ≡ ok r → get_u16 pkt ≡ crc16_xmodem (drop 2 pkt)
unfolding parse
parse-eq-ok pkt h = ground arith

unchanged :
    (xs ys : Bytes) (a b : ℕ) {r s : ℕ × Bytes}
    → AreBytes xs
    → AreBytes ys
    → a < 256
    → b < 256
    → parse (xs ++ a ∷ ys) ≡ ok r
    → parse (xs ++ b ∷ ys) ≡ ok s
    → a ≡ b
unchanged [] [] a b kx ky p q h h' = absurd (unfold parse in cc)
unchanged [] (y ∷ ys) a b kx ky p q h h' =
    omega (arith, parse-eq-ok (a ∷ y ∷ ys) h, parse-eq-ok (b ∷ y ∷ ys) h')
unchanged (x ∷ []) ys a b kx ky p q h h' =
    omega (arith, parse-eq-ok (x ∷ a ∷ ys) h, parse-eq-ok (x ∷ b ∷ ys) h')
unchanged (x ∷ y ∷ xs) ys a b kx ky p q h h' =
    crc16_xmodem-change xs ys a b kx.1.1 ky p q
      (sym (parse-eq-ok (x ∷ y ∷ xs ++ a ∷ ys) h) ∙ parse-eq-ok (x ∷ y ∷ xs ++ b ∷ ys) h')

-- Of a datagram that `parse` accepts, change one byte, whichever it is: it is refused.
pub parse-change :
    (xs ys : Bytes) (a b : ℕ) {r : ℕ × Bytes}
    → AreBytes xs
    → AreBytes ys
    → a < 256
    → b < 256
    → a ≢ b
    → parse (xs ++ a ∷ ys) ≡ ok r
    → (e : Error) × (parse (xs ++ b ∷ ys) ≡ err e)
parse-change xs ys a b kx ky p q ne h = elim (result_cases (parse (xs ++ b ∷ ys))) [
  | inl (s, h') ↦ absurd (ne (unchanged xs ys a b kx ky p q h h'))
  | inr refused ↦ refused
]
