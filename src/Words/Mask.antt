-- ===== src/Words/Mask.antt =====
-- The masks `((1U << n) - 1) << s` of a run of `n` digits that begins at digit `s`.
use native.Mathlib.Nat.{pow-suc, one-le-pow, add-zero, pow-le-pow_right}
use lkp_project.Prelude.{
  ℕ, zero, suc, ◌+◌, ◌-◌, ◌*◌, ◌/◌, ◌^◌, ◌≤◌, ◌<◌, ◌≡◌, refl, false, ◌&&◌, arith, ltb, leb,
  if◌then◌else◌, ap,
}
use lkp_project.Words.Digits.{testbit}

add-suc_lem : (n s : ℕ) → n + suc s ≡ suc (n + s)
add-suc_lem n s = omega arith

pub two-pow-add : (n s : ℕ) → 2 ^ (n + s) ≡ 2 ^ n * 2 ^ s
two-pow-add n zero = rw add-zero (omega arith)
two-pow-add n (suc s) = rw (add-suc_lem n s) (
    omega (
      arith,
      pow-suc 2 (n + s),
      pow-suc 2 s,
      ap (λ (t : ℕ). t * 2) (two-pow-add n s),
      ap (λ (t : ℕ). 2 ^ n * t) (pow-suc 2 s),
    ))

testbit_of_lt : (j a : ℕ) → a < 2 ^ j → testbit a j ≡ false
unfolding testbit
testbit_of_lt zero a h = ground arith
testbit_of_lt (suc j) a h = testbit_of_lt j (a / 2) (omega (arith, pow-suc 2 j))

pub testbit_zero : (j : ℕ) → testbit 0 j ≡ false
testbit_zero j = testbit_of_lt j 0 (omega (arith, one-le-pow j 2))

pub testbit_ones : (n j : ℕ) → testbit (2 ^ n - 1) j ≡ ltb j n
unfolding testbit
testbit_ones zero zero = refl
testbit_ones zero (suc j) = ground (arith, testbit_zero j)
testbit_ones (suc n) zero = ground (arith, pow-suc 2 n, one-le-pow n 2)
testbit_ones (suc n) (suc j) = rw half_lem (ground (arith, testbit_ones n j))
  where
    half_lem : (2 ^ suc n - 1) / 2 ≡ 2 ^ n - 1
    half_lem = omega (arith, pow-suc 2 n, one-le-pow n 2)

pub testbit_shifted :
    (s a j : ℕ) → testbit (a * 2 ^ s) j ≡ (if ltb j s then false else testbit a (j - s))
unfolding testbit
testbit_shifted zero a j =
    ground (arith, ap (λ k. testbit k j) (mul_one_lem a), ap (testbit a) (sub_zero_lem j))
  where
    mul_one_lem : (a : ℕ) → a * 2 ^ 0 ≡ a
    mul_one_lem a = omega arith

    sub_zero_lem : (j : ℕ) → j - 0 ≡ j
    sub_zero_lem j = omega arith
testbit_shifted (suc s) a zero = ground (arith, pow-suc 2 s, ap (λ (t : ℕ). a * t) (pow-suc 2 s))
testbit_shifted (suc s) a (suc j) =
    rw half_lem (ground (arith, testbit_shifted s a j, ap (testbit a) sub_lem))
  where
    half_lem : (a * 2 ^ suc s) / 2 ≡ a * 2 ^ s
    half_lem = omega (arith, ap (λ (t : ℕ). a * t) (pow-suc 2 s))

    sub_lem : suc j - suc s ≡ j - s
    sub_lem = omega arith

-- The run as a number, when nothing wraps.
abbrev pub run_mask : ℕ → ℕ → ℕ
run_mask n s = (2 ^ n - 1) * 2 ^ s

sub_one_mul : (a b : ℕ) → 0 < a → (a - 1) * b + b ≡ a * b
sub_one_mul zero b h = absurd (omega arith)
sub_one_mul (suc a) b h = rw (suc_sub a) (omega arith)
  where
    suc_sub : (a : ℕ) → suc a - 1 ≡ a
    suc_sub a = omega arith

pub run_mask-lt : (n s : ℕ) → n + s ≤ 32 → run_mask n s < 2 ^ 32
run_mask-lt n s h = omega (
  arith,
  two-pow-add n s,
  one-le-pow s 2,
  sub_one_mul (2 ^ n) (2 ^ s) (one-le-pow n 2 (omega arith)),
  pow-le-pow_right {n = 2} (omega arith) h,
)

-- Its digits are those from `s` up to `s + n`.
pub testbit-run_mask : (n s j : ℕ) → testbit (run_mask n s) j ≡ (leb s j && ltb j (s + n))
testbit-run_mask n s j = ground (arith, testbit_shifted s (2 ^ n - 1) j, testbit_ones n (j - s))
