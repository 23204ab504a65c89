-- ===== src/Base/Bits.antt =====
-- `^` on machine words: it is its own inverse, at every width, and stays below 2 ^ 16.
use Prim.Native.Nat.{
  ℕ, zero, suc, ◌+◌, ◌*◌, ◌/◌, ◌%◌, ◌^◌, ◌≤◌, ◌<◌, bit_xor, differ, digits, bit_xor-bitwise,
}
use mathlib.Core.Path.{◌≡◌, refl, ap, ◌∙◌}
use native.Mathlib.Nat.{pow-suc}
use native.Mathlib.Omega.{arith}

abbrev xor_digits : ℕ → ℕ → ℕ → ℕ
xor_digits n a b = digits (λ y. y) differ n a b

xor_digits_fuel : (n m a b : ℕ) → a ≤ n → a ≤ m → xor_digits n a b ≡ xor_digits m a b
xor_digits_fuel zero zero a b p q = refl
xor_digits_fuel zero (suc m) zero b p q = refl
xor_digits_fuel zero (suc m) (suc a) b p q = absurd (omega arith)
xor_digits_fuel (suc n) zero zero b p q = refl
xor_digits_fuel (suc n) zero (suc a) b p q = absurd (omega arith)
xor_digits_fuel (suc n) (suc m) zero b p q = refl
xor_digits_fuel (suc n) (suc m) (suc a) b p q =
    omega (arith, xor_digits_fuel n m (suc a / 2) (b / 2) (omega arith) (omega arith))

zero-bit_xor : (b : ℕ) → bit_xor 0 b ≡ b
zero-bit_xor b = bit_xor-bitwise 0 b

differ-lem : (x y : ℕ) → x < 2 → y < 2 → differ x y ≡ (x + y) % 2
differ-lem zero y p q = omega arith
differ-lem (suc zero) zero p q = refl
differ-lem (suc zero) (suc zero) p q = refl
differ-lem (suc zero) (suc (suc y)) p q = absurd (omega arith)
differ-lem (suc (suc x)) y p q = absurd (omega arith)

bit_xor_step : (a b : ℕ) → bit_xor a b ≡ bit_xor (a / 2) (b / 2) * 2 + (a % 2 + b % 2) % 2
bit_xor_step zero b = omega (arith, zero-bit_xor b, zero-bit_xor (b / 2))
bit_xor_step (suc a) b = omega (
  arith,
  bit_xor-bitwise (suc a) b,
  bit_xor-bitwise (suc a / 2) (b / 2),
  xor_digits_fuel a (suc a / 2) (suc a / 2) (b / 2) (omega arith) (omega arith),
  differ-lem (suc a % 2) (b % 2) (omega arith) (omega arith),
)

half-bit_xor : (a b : ℕ) → bit_xor a b / 2 ≡ bit_xor (a / 2) (b / 2)
half-bit_xor a b = omega (arith, bit_xor_step a b)

xor_zero_fuel : (n a : ℕ) → a ≤ n → bit_xor a 0 ≡ a
xor_zero_fuel n zero h = zero-bit_xor 0
xor_zero_fuel zero (suc a) h = absurd (omega arith)
xor_zero_fuel (suc n) (suc a) h =
    omega (arith, bit_xor_step (suc a) 0, xor_zero_fuel n (suc a / 2) (omega arith))

pub bit_xor-zero : (a : ℕ) → bit_xor a 0 ≡ a
bit_xor-zero a = xor_zero_fuel a a (omega arith)

xor_cancel_fuel : (n a b : ℕ) → b ≤ n → bit_xor (bit_xor a b) b ≡ a
xor_cancel_fuel zero a zero h = bit_xor-zero (bit_xor a 0) ∙ bit_xor-zero a
xor_cancel_fuel zero a (suc b) h = absurd (omega arith)
xor_cancel_fuel (suc n) a zero h = bit_xor-zero (bit_xor a 0) ∙ bit_xor-zero a
xor_cancel_fuel (suc n) a (suc b) h = omega (
  arith,
  bit_xor_step (bit_xor a (suc b)) (suc b),
  bit_xor_step a (suc b),
  ap (λ (t : ℕ). bit_xor t (suc b / 2)) (half-bit_xor a (suc b)),
  xor_cancel_fuel n (a / 2) (suc b / 2) (omega arith),
)

-- Masking twice with the same word gives the word back.
pub bit_xor_cancel : (a b : ℕ) → bit_xor (bit_xor a b) b ≡ a
bit_xor_cancel a b = xor_cancel_fuel b a b (omega arith)

xor_lt_pow : (k a b : ℕ) → a < 2 ^ k → b < 2 ^ k → bit_xor a b < 2 ^ k
xor_lt_pow zero a b p q =
    let a' : a ≡ 0 = omega arith in let b' : b ≡ 0 = omega arith in rw (a', b') (omega arith)
xor_lt_pow (suc k) a b p q = omega (
  arith,
  bit_xor_step a b,
  pow-suc 2 k,
  xor_lt_pow k (a / 2) (b / 2) (omega (arith, pow-suc 2 k)) (omega (arith, pow-suc 2 k)),
)

-- The exclusive or of two 16-bit words is one.
pub bit_xor-lt : (a b : ℕ) → a < 65536 → b < 65536 → bit_xor a b < 65536
bit_xor-lt a b p q = xor_lt_pow 16 a b p q
