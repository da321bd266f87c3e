-- ===== src/Words/Digits.antt =====
-- The binary digits of `|` and `&`, for every width.
use Prim.Native.Nat.{bit_and, bit_or, digits, bitwise, bit_and-bitwise, bit_or-bitwise}
use native.Mathlib.Nat.{le_refl, pow-suc}
use lkp_project.Prelude.{
  ℕ, zero, suc, ◌+◌, ◌-◌, ◌*◌, ◌/◌, ◌%◌, ◌^◌, ◌≤◌, ◌<◌, min, max, ◌≡◌, refl, Bool, not, ◌&&◌, ◌||◌,
  arith, ◌==◌,
}

-- Digit `i` of `a`, as a test.
unfoldable pub testbit : ℕ → ℕ → Bool
testbit a zero = a % 2 == 1
testbit a (suc i) = testbit (a / 2) i

module _ (z : ℕ → ℕ) (f : ℕ → ℕ → ℕ) where
  digits-digits : (n m a b : ℕ) → a ≤ n → a ≤ m → digits z f n a b ≡ digits z f m a b
  digits-digits zero zero a b p q = refl
  digits-digits zero (suc m) zero b p q = refl
  digits-digits zero (suc m) (suc a) b p q = absurd (omega arith)
  digits-digits (suc n) zero zero b p q = refl
  digits-digits (suc n) zero (suc a) b p q = absurd (omega arith)
  digits-digits (suc n) (suc m) zero b p q = refl
  digits-digits (suc n) (suc m) (suc a) b p q =
      rw (digits-digits n m (suc a / 2) (b / 2) (omega arith) (omega arith))

  bitwise_lowest :
      (a b : ℕ)
      → bitwise z f (suc a) b ≡ bitwise z f (suc a / 2) (b / 2) * 2 + f (suc a % 2) (b % 2)
  bitwise_lowest a b =
      omega (arith, digits-digits a (suc a / 2) (suc a / 2) (b / 2) (omega arith) (le_refl _))

pub bit_or_lowest : (a b : ℕ) → bit_or a b ≡ bit_or (a / 2) (b / 2) * 2 + max (a % 2) (b % 2)
bit_or_lowest zero b = simp bit_or-bitwise (omega arith)
bit_or_lowest (suc a) b = simp bit_or-bitwise (bitwise_lowest (λ y. y) max a b)

pub bit_and_lowest : (a b : ℕ) → bit_and a b ≡ bit_and (a / 2) (b / 2) * 2 + min (a % 2) (b % 2)
bit_and_lowest zero b = simp bit_and-bitwise (omega arith)
bit_and_lowest (suc a) b = simp bit_and-bitwise (bitwise_lowest (λ y. 0) min a b)

or_half : (a b : ℕ) → bit_or a b / 2 ≡ bit_or (a / 2) (b / 2)
or_half a b = omega (arith, bit_or_lowest a b)

and_half : (a b : ℕ) → bit_and a b / 2 ≡ bit_and (a / 2) (b / 2)
and_half a b = omega (arith, bit_and_lowest a b)

pub testbit-bit_or : (a b i : ℕ) → testbit (bit_or a b) i ≡ (testbit a i || testbit b i)
unfolding testbit
testbit-bit_or a b zero = ground (arith, bit_or_lowest a b)
testbit-bit_or a b (suc i) = rw or_half (testbit-bit_or (a / 2) (b / 2) i)

pub testbit-bit_and : (a b i : ℕ) → testbit (bit_and a b) i ≡ (testbit a i && testbit b i)
unfolding testbit
testbit-bit_and a b zero = ground (arith, bit_and_lowest a b)
testbit-bit_and a b (suc i) = rw and_half (testbit-bit_and (a / 2) (b / 2) i)

-- The complement within `k` digits.
pub testbit-complement :
    (k a i : ℕ) → a < 2 ^ k → i < k → testbit (2 ^ k - 1 - a) i ≡ not (testbit a i)
unfolding testbit
testbit-complement zero a i h p = absurd (omega arith)
testbit-complement (suc k) a zero h p = ground (arith, pow-suc 2 k)
testbit-complement (suc k) a (suc i) h p =
    rw (half_lem) (testbit-complement k (a / 2) i (omega (arith, pow-suc 2 k)) (omega arith))
  where
    half_lem : (2 ^ suc k - 1 - a) / 2 ≡ 2 ^ k - 1 - a / 2
    half_lem = omega (arith, pow-suc 2 k)

-- Two numbers below `2 ^ k` with the same digits are equal.
pub testbit_ext :
    (k a b : ℕ) → a < 2 ^ k → b < 2 ^ k → ((i : ℕ) → i < k → testbit a i ≡ testbit b i) → a ≡ b
unfolding testbit
testbit_ext zero a b p q h = omega arith
testbit_ext (suc k) a b p q h = ground (
  arith,
  h 0 (omega arith),
  testbit_ext k (a / 2) (b / 2) (omega (arith, pow-suc 2 k)) (omega (arith, pow-suc 2 k))
      (λ i r. h (suc i) (omega arith)),
)
