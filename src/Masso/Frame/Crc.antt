-- ===== src/Masso/Frame/Crc.antt =====
-- The checksum of internal/masso/frame.go detects a change of one byte: every round is a
-- bijection on 16-bit words.
use mink_lasso.Base.{
  ℕ, zero, suc, ◌+◌, ◌*◌, ◌%◌, ◌<◌, bit_xor, ◌≡◌, sym, ◌∙◌, ap, [], ◌∷◌, ◌++◌, arith,
}
use mink_lasso.Base.Bits.{bit_xor-lt, bit_xor_comm, bit_xor_cancel, bit_and-0x8000, bit_xor_step}
use mink_lasso.Masso.Words.{Bytes, AreBytes}
use mink_lasso.Masso.Frame.{crc_bit, crc_bits, crc_byte, crc_from, crc16_xmodem}

xor_lt : (a b : ℕ) → a < 65536 → b < 65536 → bit_xor a b < 65536
xor_lt a b p q = bit_xor-lt 16 a b p q

xor_injective : (a b k : ℕ) → a < 65536 → b < 65536 → k < 65536 → bit_xor a k ≡ bit_xor b k → a ≡ b
xor_injective a b k p q r h =
    sym (bit_xor_cancel 16 a k p r) ∙ ap (λ t. bit_xor t k) h ∙ bit_xor_cancel 16 b k q r

-- The low digit of `x ^ 0x1021` is the other one.
xor_poly_parity : (x : ℕ) → bit_xor x 0x1021 % 2 ≡ (x + 1) % 2
xor_poly_parity x = omega (arith, bit_xor_step x 0x1021)

crc_bit-lt : (c : ℕ) → c < 65536 → crc_bit c < 65536
unfolding crc_bit
crc_bit-lt c h = ground (arith, xor_lt (c * 2 % 65536) 0x1021 (omega arith) (omega arith))

crc_bit_injective : (a b : ℕ) → a < 65536 → b < 65536 → crc_bit a ≡ crc_bit b → a ≡ b
unfolding crc_bit
crc_bit_injective a b p q h = ground (
  arith,
  bit_and-0x8000 a,
  bit_and-0x8000 b,
  xor_poly_parity (a * 2 % 65536),
  xor_poly_parity (b * 2 % 65536),
  xor_injective (a * 2 % 65536) (b * 2 % 65536) 0x1021 (omega arith) (omega arith) (omega arith),
)

crc_bits-lt : (n c : ℕ) → c < 65536 → crc_bits n c < 65536
unfolding crc_bits
crc_bits-lt zero c h = h
crc_bits-lt (suc n) c h = crc_bits-lt n (crc_bit c) (crc_bit-lt c h)

crc_bits_injective : (n a b : ℕ) → a < 65536 → b < 65536 → crc_bits n a ≡ crc_bits n b → a ≡ b
unfolding crc_bits
crc_bits_injective zero a b p q h = h
crc_bits_injective (suc n) a b p q h =
    crc_bit_injective a b p q
      (crc_bits_injective n (crc_bit a) (crc_bit b) (crc_bit-lt a p) (crc_bit-lt b q) h)

crc_byte-lt : (c b : ℕ) → c < 65536 → b < 256 → crc_byte c b < 65536
unfolding crc_byte
crc_byte-lt c b h k = crc_bits-lt 8 _ (xor_lt c (b * 256) h (omega arith))

-- A byte tells checksums apart, and a checksum tells bytes apart.
crc_byte_injective :
    (c d b : ℕ) → c < 65536 → d < 65536 → b < 256 → crc_byte c b ≡ crc_byte d b → c ≡ d
unfolding crc_byte
crc_byte_injective c d b p q r h =
    let s : b * 256 < 65536 = omega arith in
    xor_injective c d (b * 256) p q s
      (crc_bits_injective 8 _ _ (xor_lt c (b * 256) p s) (xor_lt d (b * 256) q s) h)

crc_byte_injective_byte :
    (c a b : ℕ) → c < 65536 → a < 256 → b < 256 → crc_byte c a ≡ crc_byte c b → a ≡ b
unfolding crc_byte
crc_byte_injective_byte c a b p q r h =
    let s : a * 256 < 65536 = omega arith in
    let t : b * 256 < 65536 = omega arith in
    let e = crc_bits_injective 8 _ _ (xor_lt c (a * 256) p s) (xor_lt c (b * 256) p t) h in
    let e' = bit_xor_comm 16 (a * 256) c s p ∙ e ∙ bit_xor_comm 16 c (b * 256) p t in
    omega (arith, xor_injective (a * 256) (b * 256) c s t p e')

-- The checksum is a 16-bit word.
pub crc_from-lt : (c : ℕ) (bs : Bytes) → c < 65536 → AreBytes bs → crc_from c bs < 65536
unfolding crc_from
crc_from-lt c [] h k = h
crc_from-lt c (b ∷ bs) h k = crc_from-lt (crc_byte c b) bs (crc_byte-lt c b h k.0) k.1

pub crc16_xmodem-lt : (bs : Bytes) → AreBytes bs → crc16_xmodem bs < 65536
unfolding crc16_xmodem
crc16_xmodem-lt bs h = crc_from-lt 0 bs (omega arith) h

-- The rest of a message tells different checksums apart.
crc_from_injective :
    (c d : ℕ) (bs : Bytes)
    → c < 65536
    → d < 65536
    → AreBytes bs
    → crc_from c bs ≡ crc_from d bs
    → c ≡ d
unfolding crc_from
crc_from_injective c d [] p q k h = h
crc_from_injective c d (x ∷ bs) p q k h = crc_byte_injective c d x p q k.0 (
    crc_from_injective (crc_byte c x) (crc_byte d x) bs (crc_byte-lt c x p k.0)
      (crc_byte-lt d x q k.0) k.1 h)

crc_from-change :
    (c : ℕ) (xs ys : Bytes) (a b : ℕ)
    → c < 65536
    → AreBytes xs
    → AreBytes ys
    → a < 256
    → b < 256
    → crc_from c (xs ++ a ∷ ys) ≡ crc_from c (xs ++ b ∷ ys)
    → a ≡ b
unfolding crc_from
crc_from-change c [] ys a b p kx ky q r h = crc_byte_injective_byte c a b p q r (
    crc_from_injective (crc_byte c a) (crc_byte c b) ys (crc_byte-lt c a p q) (crc_byte-lt c b p r)
      ky h)
crc_from-change c (x ∷ xs) ys a b p kx ky q r h =
    crc_from-change (crc_byte c x) xs ys a b (crc_byte-lt c x p kx.0) kx.1 ky q r h

-- Two messages that differ in one byte have different checksums.
pub crc16_xmodem-change :
    (xs ys : Bytes) (a b : ℕ)
    → AreBytes xs
    → AreBytes ys
    → a < 256
    → b < 256
    → crc16_xmodem (xs ++ a ∷ ys) ≡ crc16_xmodem (xs ++ b ∷ ys)
    → a ≡ b
unfolding crc16_xmodem
crc16_xmodem-change xs ys a b kx ky p q h = crc_from-change 0 xs ys a b (omega arith) kx ky p q h
