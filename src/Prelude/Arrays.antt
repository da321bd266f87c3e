-- ===== src/Prelude/Arrays.antt =====
-- Memory and tables as functions from an index, and lists measured by native numbers.
use Prim.Native.Nat.{ℕ, zero, suc, ◌<◌}
use mathlib.Core.Path.{◌≡◌, refl, fun_ext}
use mathlib.Core.Logic.{◌⊎◌, inl, inr}
use mathlib.Core.Bool.{Bool, true, false}
use mathlib.Core.List.{List, [], ◌∷◌}
use native.Mathlib.Omega.{arith}
use lkp_project.Prelude.Tests.{◌==◌, if◌then◌else◌}

module _ {ℓ} {A : Type ℓ} where
  abbrev pub length : List A → ℕ
  length [] = 0
  length (x ∷ xs) = suc (length xs)

  -- `f` with the entry at `i` replaced.
  abbrev pub update : (ℕ → A) → ℕ → A → ℕ → A
  update f i v j = if j == i then v else f j

  pub update-update : (f : ℕ → A) (i : ℕ) (v w : A) → update (update f i v) i w ≡ update f i w
  update-update f i v w = fun_ext λ j. ground arith

-- How many of the entries below `n` are set.
unfoldable pub count : (ℕ → Bool) → ℕ → ℕ
count m zero = 0
count m (suc n) = if m n then suc (count m n) else count m n

-- Two tables that agree below `n` have the same count there.
pub count_ext : (m k : ℕ → Bool) (n : ℕ) → ((j : ℕ) → j < n → m j ≡ k j) → count m n ≡ count k n
unfolding count
count_ext m k zero h = refl
count_ext m k (suc n) h =
    ground (arith, h n (omega arith), count_ext m k n (λ j p. h j (omega arith)))

here-or-below : (i n : ℕ) → i < suc n → (i ≡ n) ⊎ (i < n)
here-or-below i n h = omega arith

-- Clearing a set entry lowers the count by one.
pub count-clear :
    (m : ℕ → Bool) (i n : ℕ) → i < n → m i ≡ true → suc (count (update m i false) n) ≡ count m n
unfolding count
count-clear m i zero lt h = absurd (omega arith)
count-clear m i (suc n) lt h = elim (here-or-below i n lt) [
  | inl e ↦ ground (arith, count_ext (update m i false) m n (λ j p. ground arith))
  | inr p ↦ ground (arith, count-clear m i n p h)
]

-- Setting a clear entry raises it by one.
pub count-set :
    (m : ℕ → Bool) (i n : ℕ) → i < n → m i ≡ false → count (update m i true) n ≡ suc (count m n)
unfolding count
count-set m i zero lt h = absurd (omega arith)
count-set m i (suc n) lt h = elim (here-or-below i n lt) [
  | inl e ↦ ground (arith, count_ext (update m i true) m n (λ j p. ground arith))
  | inr p ↦ ground (arith, count-set m i n p h)
]

-- A count above zero has a witness.
pub count_zero : (m : ℕ → Bool) (n : ℕ) → ((j : ℕ) → j < n → m j ≡ false) → count m n ≡ 0
unfolding count
count_zero m zero h = refl
count_zero m (suc n) h =
    ground (arith, h n (omega arith), count_zero m n (λ j p. h j (omega arith)))

pub count-le : (m : ℕ → Bool) (n : ℕ) → count m n < suc n
unfolding count
count-le m zero = omega arith
count-le m (suc n) = ground (arith, count-le m n)
