-- ===== src/Masso/Words.antt =====
-- Byte strings, and the little-endian integers of encoding/binary that the codec puts in them.
use mink_lasso.Base.{ℕ, ◌+◌, ◌*◌, ◌/◌, ◌%◌, ◌^◌, ◌<◌, ◌≡◌, List, [], ◌∷◌, arith, All}

-- A slice of bytes, or a Go string, which is one.
abbrev pub Bytes : Type 0
Bytes = List ℕ

abbrev pub IsByte : ℕ → Type 0
IsByte b = b < 256

abbrev pub AreBytes : Bytes → Type 0
AreBytes = All IsByte

-- binary.LittleEndian.PutUint16 and AppendUint32.
abbrev pub put_u16 : ℕ → Bytes
put_u16 n = (n % 256) ∷ (n / 256 % 256) ∷ []

abbrev pub put_u32 : ℕ → Bytes
put_u32 n = (n % 256) ∷ (n / 256 % 256) ∷ (n / 65536 % 256) ∷ (n / 16777216 % 256) ∷ []

-- binary.LittleEndian.Uint16 and Uint32, of the first bytes of a slice.
abbrev pub get_u16 : Bytes → ℕ
get_u16 (a ∷ b ∷ rest) = a + b * 256
get_u16 rest = 0

abbrev pub get_u32 : Bytes → ℕ
get_u32 (a ∷ b ∷ c ∷ d ∷ rest) = a + b * 256 + c * 65536 + d * 16777216
get_u32 rest = 0

pub get_u16-put_u16 : (n : ℕ) → n < 2 ^ 16 → n % 256 + n / 256 % 256 * 256 ≡ n
get_u16-put_u16 n h = omega arith

pub get_u32-put_u32 :
    (n : ℕ)
    → n < 2 ^ 32
    → n % 256 + n / 256 % 256 * 256 + n / 65536 % 256 * 65536 + n / 16777216 % 256 * 16777216 ≡ n
get_u32-put_u32 n h = omega arith

pub AreBytes-put_u32 : (n : ℕ) → AreBytes (put_u32 n)
AreBytes-put_u32 n = omega arith
