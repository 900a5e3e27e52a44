-- ===== src/Base/Bits.antt =====
-- Laws of `&` and `^` on numbers at variables: one equation for the lowest binary digit each, and
-- what follows from them by strong induction.
use Prim.Native.Nat.{
  ℕ, zero, suc, ◌+◌, ◌*◌, ◌/◌, ◌%◌, ◌^◌, ◌≤◌, ◌<◌, min, bit_and, bit_xor, digits, bitwise, differ,
  bit_and-bitwise, bit_xor-bitwise,
}
use mathlib.Core.Path.{◌≡◌, refl, sym, ap, subst, ◌∙◌}
use native.Mathlib.Nat.{pow-suc, pow-succ', div-div-eq-div-mul}
use mathlib.Core.Logic.{inl, inr}
use native.Mathlib.Omega.{arith}
use mink_lasso.Base.Tests.{leb, Bool-cases}

-- `bitwise` is `digits` with the first argument as fuel.
module _ (zeros : ℕ → ℕ) (digit : ℕ → ℕ → ℕ) where
  -- One round more than the first argument needs changes nothing.
  one_more : (n x y : ℕ) → x ≤ n → digits zeros digit (suc n) x y ≡ digits zeros digit n x y
  one_more zero zero y h = refl
  one_more (suc n) zero y h = refl
  one_more zero (suc x) y h = absurd (omega arith)
  one_more (suc n) (suc x) y h = rw (one_more n (suc x / 2) (y / 2) (omega arith))

  many_more : (m n x y : ℕ) → x ≤ n → n ≤ m → digits zeros digit m x y ≡ digits zeros digit n x y
  many_more zero n x y h k =
      let none_left : zero ≡ n = omega arith in ap (λ (i : ℕ). digits zeros digit i x y) none_left
  many_more (suc m) n x y h k = elim (Bool-cases (leb n m)) [
    | inl below ↦ one_more m x y (ground arith) ∙ many_more m n x y h (ground arith)
    | inr top ↦ let same : suc m ≡ n = ground arith in ap (λ (i : ℕ). digits zeros digit i x y) same
  ]

  lowest_digit :
      (x y : ℕ)
      → bitwise zeros digit (suc x) y
        ≡ bitwise zeros digit (suc x / 2) (y / 2) * 2 + digit (suc x % 2) (y % 2)
  lowest_digit x y =
      ap (λ (n : ℕ). n * 2 + digit (suc x % 2) (y % 2))
        (many_more x (suc x / 2) (suc x / 2) (y / 2) (omega arith) (omega arith))

-- `differ` adds two binary digits without carry.
differ-digits : (x y : ℕ) → x ≤ 1 → y ≤ 1 → differ x y ≡ (x + y) % 2
differ-digits (suc (suc x)) y h k = absurd (omega arith)
differ-digits x (suc (suc y)) h k = absurd (omega arith)
differ-digits (suc zero) (suc zero) h k = refl
differ-digits (suc zero) zero h k = refl
differ-digits zero (suc zero) h k = refl
differ-digits zero zero h k = refl

pub bit_xor_step : (x y : ℕ) → bit_xor x y ≡ bit_xor (x / 2) (y / 2) * 2 + (x % 2 + y % 2) % 2
bit_xor_step (suc x) y =
    let digit = differ-digits (suc x % 2) (y % 2) (omega arith) (omega arith) in
    rw (← digit) (simp bit_xor-bitwise (lowest_digit (λ d. d) differ x y))
bit_xor_step zero y = simp bit_xor-bitwise (omega arith)

-- The conjunction of two digits is the lesser.
pub bit_and_step : (x y : ℕ) → bit_and x y ≡ bit_and (x / 2) (y / 2) * 2 + min (x % 2) (y % 2)
bit_and_step (suc x) y = simp bit_and-bitwise (lowest_digit (λ _. 0) min x y)
bit_and_step zero y = simp bit_and-bitwise (omega arith)

pub bit_xor-lt : (k a b : ℕ) → a < 2 ^ k → b < 2 ^ k → bit_xor a b < 2 ^ k
bit_xor-lt zero zero zero p q = omega arith
bit_xor-lt zero zero (suc b) p q = absurd (omega arith)
bit_xor-lt zero (suc a) b p q = absurd (omega arith)
bit_xor-lt (suc k) a b p q = omega (
  arith,
  pow-suc 2 k,
  bit_xor_step a b,
  bit_xor-lt k (a / 2) (b / 2) (omega (arith, pow-suc 2 k)) (omega (arith, pow-suc 2 k)),
)

pub bit_xor_comm : (k a b : ℕ) → a < 2 ^ k → b < 2 ^ k → bit_xor a b ≡ bit_xor b a
bit_xor_comm zero zero zero p q = refl
bit_xor_comm zero zero (suc b) p q = absurd (omega arith)
bit_xor_comm zero (suc a) b p q = absurd (omega arith)
bit_xor_comm (suc k) a b p q = omega (
  arith,
  bit_xor_step a b,
  bit_xor_step b a,
  bit_xor_comm k (a / 2) (b / 2) (omega (arith, pow-suc 2 k)) (omega (arith, pow-suc 2 k)),
)

-- Where the half of an exclusive or is known, so is the next lower digit.
half-bit_xor : (a b : ℕ) → bit_xor a b / 2 ≡ bit_xor (a / 2) (b / 2)
half-bit_xor a b = omega (arith, bit_xor_step a b)

pub bit_xor_cancel : (k a b : ℕ) → a < 2 ^ k → b < 2 ^ k → bit_xor (bit_xor a b) b ≡ a
bit_xor_cancel zero zero zero p q = refl
bit_xor_cancel zero zero (suc b) p q = absurd (omega arith)
bit_xor_cancel zero (suc a) b p q = absurd (omega arith)
bit_xor_cancel (suc k) a b p q =
    let ih : bit_xor (bit_xor (a / 2) (b / 2)) (b / 2) ≡ a / 2 =
      bit_xor_cancel k (a / 2) (b / 2) (omega (arith, pow-suc 2 k)) (omega (arith, pow-suc 2 k)) in
    rw (bit_xor_step (bit_xor a b) b, half-bit_xor a b, ih) (omega (arith, bit_xor_step a b))

bit_and-zero_below : (bound x : ℕ) → x < bound → bit_and x 0 ≡ 0
bit_and-zero_below zero x h = absurd (omega arith)
bit_and-zero_below (suc bound) (suc x) h =
    let half = bit_and-zero_below bound (suc x / 2) (omega arith) in
    omega (arith, half, bit_and_step (suc x) 0)
bit_and-zero_below (suc bound) zero h = refl

lowest_bit : (x : ℕ) → bit_and x 1 ≡ x % 2
lowest_bit x =
    let none_left = bit_and-zero_below (suc (x / 2)) (x / 2) (omega arith) in
    omega (arith, none_left, bit_and_step x 1)

shift_mask : (a m : ℕ) → bit_and a (2 * m) ≡ bit_and (a / 2) m * 2
shift_mask a m = let e : 2 * m / 2 ≡ m = omega arith in rw (bit_and_step a (2 * m), e) (omega arith)

digit_twice : (x m : ℕ) → x < 2 → x * m * 2 ≡ x * (2 * m)
digit_twice zero m h = omega arith
digit_twice (suc zero) m h = omega arith
digit_twice (suc (suc x)) m h = absurd (omega arith)

twice_mask :
    (a m : ℕ)
    → bit_and (a / 2) m ≡ a / 2 / m % 2 * m
    → bit_and a (2 * m) ≡ a / (2 * m) % 2 * (2 * m)
twice_mask a m h =
    shift_mask a m
    ∙ ap (λ (n : ℕ). n * 2) h
    ∙ digit_twice (a / 2 / m % 2) m (omega arith)
    ∙ ap (λ (n : ℕ). n % 2 * (2 * m)) (div-div-eq-div-mul a 2 m)

-- A mask of one bit.
bit_and-pow : (k a : ℕ) → bit_and a (2 ^ k) ≡ a / 2 ^ k % 2 * 2 ^ k
bit_and-pow zero a = omega (arith, lowest_bit a)
bit_and-pow (suc k) a =
    subst (λ (m : ℕ). bit_and a m ≡ a / m % 2 * m) (sym (pow-succ' 2 k))
      (twice_mask a (2 ^ k) (bit_and-pow k (a / 2)))

pub bit_and-0x8000 : (a : ℕ) → bit_and a 0x8000 ≡ a / 32768 % 2 * 32768
bit_and-0x8000 a = bit_and-pow 15 a
