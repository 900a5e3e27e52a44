-- ===== src/Masso/Frame.antt =====
-- internal/masso/frame.go: checksum, framing and unframing of a datagram.
pub mod Crc
pub mod RoundTrip
use mink_lasso.Base.{
  ℕ, zero, suc, ◌+◌, ◌-◌, ◌*◌, ◌%◌, bit_and, bit_xor, ◌≡◌, refl, [], ◌∷◌, ◌++◌, ◌==◌, if◌then◌else◌,
  length, replicate, ◌||◌, not,
}
use mink_lasso.Masso.Errors.{Result, ok, err, short_packet, bad_magic, bad_crc}
use mink_lasso.Masso.Words.{Bytes, put_u16, get_u16}

-- The two magic bytes stand behind the checksum in every datagram.
abbrev pub magic₀ : ℕ
magic₀ = 0x03

abbrev pub magic₁ : ℕ
magic₁ = 0x00

-- One round of the inner loop over a uint16.
unfoldable pub crc_bit : ℕ → ℕ
crc_bit crc = if bit_and crc 0x8000 == 0 then crc * 2 % 65536 else bit_xor (crc * 2 % 65536) 0x1021

-- `for range 8`, and any other number of rounds.
unfoldable pub crc_bits : ℕ → ℕ → ℕ
crc_bits zero crc = crc
crc_bits (suc n) crc = crc_bits n (crc_bit crc)

-- The body of the outer loop.
unfoldable pub crc_byte : ℕ → ℕ → ℕ
crc_byte crc b = crc_bits 8 (bit_xor crc (b * 256))

-- The outer loop, from the checksum so far.
unfoldable pub crc_from : ℕ → Bytes → ℕ
crc_from crc [] = crc
crc_from crc (b ∷ bs) = crc_from (crc_byte crc b) bs

unfoldable pub crc16_xmodem : Bytes → ℕ
crc16_xmodem bytes = crc_from 0 bytes

-- `(n + 3) &^ 3` clears the low two bits.
unfoldable pub round_up4 : ℕ → ℕ
round_up4 n = n + 3 - (n + 3) % 4

-- The body: magic, type, payload, and zeros up to a multiple of 4.
unfoldable pub frame_body : ℕ → Bytes → Bytes
frame_body typ payload =
    magic₀ ∷ magic₁ ∷ typ ∷ payload
    ++ replicate (round_up4 (3 + length payload) - (3 + length payload)) 0

unfoldable pub frame : ℕ → Bytes → Bytes
frame typ payload = put_u16 (crc16_xmodem (frame_body typ payload)) ++ frame_body typ payload

-- The type byte and the body behind it. A datagram of four bytes or fewer is short.
unfoldable pub parse : Bytes → Result (ℕ × Bytes)
parse (c₀ ∷ c₁ ∷ m₀ ∷ m₁ ∷ typ ∷ body) =
    if not (m₀ == magic₀) || not (m₁ == magic₁)
    then err bad_magic
    else if get_u16 (c₀ ∷ c₁ ∷ []) == crc16_xmodem (m₀ ∷ m₁ ∷ typ ∷ body)
    then ok (typ, body)
    else err bad_crc
parse _ = err short_packet

-- The check value of CRC-16/XMODEM: the text "123456789".
crc16_xmodem_check :
    crc16_xmodem (0x31 ∷ 0x32 ∷ 0x33 ∷ 0x34 ∷ 0x35 ∷ 0x36 ∷ 0x37 ∷ 0x38 ∷ 0x39 ∷ []) ≡ 0x31c3
unfolding crc16_xmodem crc_from crc_byte crc_bits crc_bit
crc16_xmodem_check = refl
