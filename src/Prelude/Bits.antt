-- ===== src/Prelude/Bits.antt =====
-- Laws of `^` on integers from 0 up: `bit_xor` by its lowest digit, its inverse and its size.
use Prim.Native.Nat.{
  ℕ, zero, suc, ◌+◌, ◌*◌, ◌/◌, ◌%◌, ◌^◌, ◌≤◌, ◌<◌, bit_xor, digits, differ, bit_xor-bitwise,
}
use Prim.Native.Nat.pow
use mathlib.Core.Path.{◌≡◌, refl, ap}
use native.Mathlib.Omega.{arith}

abbrev xor_digits : ℕ → ℕ → ℕ → ℕ
xor_digits n a b = digits (λ b. b) differ n a b

xor_digits_fuel : (n m a b : ℕ) → a ≤ n → a ≤ m → xor_digits n a b ≡ xor_digits m a b
xor_digits_fuel zero zero a b p q = refl
xor_digits_fuel zero (suc m) zero b p q = refl
xor_digits_fuel zero (suc m) (suc a) b p q = absurd (omega arith)
xor_digits_fuel (suc n) zero zero b p q = refl
xor_digits_fuel (suc n) zero (suc a) b p q = absurd (omega arith)
xor_digits_fuel (suc n) (suc m) zero b p q = refl
xor_digits_fuel (suc n) (suc m) (suc a) b p q =
    omega (arith, xor_digits_fuel n m (suc a / 2) (b / 2) (omega arith) (omega arith))

zero-bit_xor : (b : ℕ) → bit_xor 0 b ≡ b
zero-bit_xor b = bit_xor-bitwise 0 b

-- The exclusive or of two binary digits.
digit_xor : ℕ → ℕ → ℕ
digit_xor a b = (a + b) % 2

differ-digit_xor : (a b : ℕ) → a < 2 → b < 2 → differ a b ≡ digit_xor a b
unfolding digit_xor
differ-digit_xor zero b p q = omega arith
differ-digit_xor (suc zero) zero p q = refl
differ-digit_xor (suc zero) (suc zero) p q = refl
differ-digit_xor (suc zero) (suc (suc b)) p q = absurd (omega arith)
differ-digit_xor (suc (suc a)) b p q = absurd (omega arith)

bit_xor_step : (a b : ℕ) → bit_xor a b ≡ bit_xor (a / 2) (b / 2) * 2 + (a % 2 + b % 2) % 2
unfolding digit_xor
bit_xor_step zero b = omega (arith, zero-bit_xor b, zero-bit_xor (b / 2))
bit_xor_step (suc a) b = omega (
  arith,
  bit_xor-bitwise (suc a) b,
  bit_xor-bitwise (suc a / 2) (b / 2),
  xor_digits_fuel a (suc a / 2) (suc a / 2) (b / 2) (omega arith) (omega arith),
  differ-digit_xor (suc a % 2) (b % 2) (omega arith) (omega arith),
)

bit_xor-cancel_fuel : (n a b : ℕ) → a + b ≤ n → bit_xor (bit_xor a b) b ≡ a
bit_xor-cancel_fuel zero zero zero h = refl
bit_xor-cancel_fuel zero zero (suc b) h = absurd (omega arith)
bit_xor-cancel_fuel zero (suc a) b h = absurd (omega arith)
bit_xor-cancel_fuel (suc n) a b h =
    let half : bit_xor a b / 2 ≡ bit_xor (a / 2) (b / 2) = omega (arith, bit_xor_step a b) in
    omega (
      arith,
      bit_xor_step a b,
      bit_xor_step (bit_xor a b) b,
      ap (λ (t : ℕ). bit_xor t (b / 2)) half,
      bit_xor-cancel_fuel n (a / 2) (b / 2) (omega arith),
    )

-- To add the same key twice is to add nothing.
pub bit_xor_cancel : (a b : ℕ) → bit_xor (bit_xor a b) b ≡ a
bit_xor_cancel a b = bit_xor-cancel_fuel (a + b) a b (omega arith)

pub bit_xor-lt : (k a b : ℕ) → a < 2 ^ k → b < 2 ^ k → bit_xor a b < 2 ^ k
bit_xor-lt zero a b p q = omega (arith, ap (λ (t : ℕ). bit_xor t b) zero_a, zero-bit_xor b)
  where
    zero_a : a ≡ 0
    zero_a = omega arith
bit_xor-lt (suc k) a b p q = omega (
  arith,
  pow.suc 2 k,
  bit_xor_step a b,
  bit_xor-lt k (a / 2) (b / 2) (omega (arith, pow.suc 2 k)) (omega (arith, pow.suc 2 k)),
)
