-- ===== src/Base/Decimal.antt =====
-- Numbers in decimal, as package strconv prints and reads them.
use Prim.Native.Nat.{ℕ, zero, suc, ◌+◌, ◌-◌, ◌*◌, ◌/◌, ◌%◌, ◌<◌}
use mathlib.Core.Path.{◌≡◌, refl, ◌∙◌}
use mathlib.Core.Logic.{inl, inr}
use mathlib.Core.Bool.{Bool, true, ◌&&◌}
use mathlib.Core.List.{List, [], ◌∷◌, ◌++◌}
use native.Mathlib.Omega.{arith}
use mink_lasso.Base.Tests.{ltb, leb, ltb→lt, if◌then◌else◌, Bool-cases}

-- strconv.FormatUint in base ten. A number needs no more digits than itself and one.
unfoldable pub decimal : ℕ → ℕ → List ℕ
decimal zero n = []
decimal (suc fuel) n =
    let high = decimal fuel (n / 10) in
    if ltb n 10 then (b'0' + n) ∷ [] else high ++ (b'0' + n % 10) ∷ []

-- The number that digits stand for, after a number that stands before them.
abbrev pub value : ℕ → List ℕ → ℕ
value n [] = n
value n (c ∷ s) = value (n * 10 + (c - b'0')) s

abbrev pub are_digits : List ℕ → Bool
are_digits [] = true
are_digits (c ∷ s) = leb b'0' c && leb c b'9' && are_digits s

pub value-append : (n : ℕ) (s t : List ℕ) → value n (s ++ t) ≡ value (value n s) t
value-append n [] t = refl
value-append n (c ∷ s) t = value-append (n * 10 + (c - b'0')) s t

pub value-decimal : (fuel n : ℕ) → n < fuel → value 0 (decimal fuel n) ≡ n
unfolding decimal
value-decimal zero n h = absurd (omega arith)
value-decimal (suc fuel) n h = elim (Bool-cases (ltb n 10)) [
  | inl q ↦ rw q (omega arith)
  | inr q ↦
      let ih = value-decimal fuel (n / 10) (ground arith) in
      rw q (value-append 0 (decimal fuel (n / 10)) ((b'0' + n % 10) ∷ []) ∙ omega (arith, ih))
]

pub are_digits-append :
    (s t : List ℕ) → are_digits s ≡ true → are_digits t ≡ true → are_digits (s ++ t) ≡ true
are_digits-append [] t h k = k
are_digits-append (c ∷ s) t h k = let ih = are_digits-append s t (ground arith) k in ground arith

pub are_digits-decimal : (fuel n : ℕ) → are_digits (decimal fuel n) ≡ true
unfolding decimal
are_digits-decimal zero n = refl
are_digits-decimal (suc fuel) n = elim (Bool-cases (ltb n 10)) [
  | inl q ↦ rw q (ground (arith, ltb→lt n 10 q))
  | inr q ↦ rw q (
      are_digits-append (decimal fuel (n / 10)) ((b'0' + n % 10) ∷ [])
        (are_digits-decimal fuel (n / 10)) (ground arith))
]
