-- ===== src/Slice/Find.antt =====
-- The search for free slices against its description: the first run of free slices.
use Prim.Native.Nat.{bit_or}
use native.Mathlib.Nat.{pow-suc}
use lkp_project.Prelude.{
  ℕ, zero, suc, ◌+◌, ◌-◌, ◌*◌, ◌/◌, ◌^◌, ◌≤◌, ◌<◌, true, ◌==◌, Option, none, some, ◌≡◌, ◌↔◌, ◌⊎◌,
  inl, inr, refl, ap, arith, Bool-cases, ==_iff,
}
use lkp_project.Words.{shl32}
use lkp_project.Words.Digits.{testbit, testbit-bit_or, testbit_ext, bit_or_lowest}
use lkp_project.Words.Mask.{run_mask, run_mask-lt, testbit-run_mask}
use lkp_project.Slice.{find_slices}

-- The slices from `s` up to `s + n` are free in the word `w`.
abbrev pub FreeRun : ℕ → ℕ → ℕ → Type 0
FreeRun w n s = (j : ℕ) → s ≤ j → j < s + n → testbit w j ≡ true

pub bit_or-lt : (k a b : ℕ) → a < 2 ^ k → b < 2 ^ k → bit_or a b < 2 ^ k
bit_or-lt zero a b p q =
    let a0 : a ≡ 0 = omega arith in let b0 : b ≡ 0 = omega arith in rw (a0, b0) (omega arith)
bit_or-lt (suc k) a b p q = omega (
  arith,
  bit_or_lowest a b,
  pow-suc 2 k,
  bit_or-lt k (a / 2) (b / 2) (omega (arith, pow-suc 2 k)) (omega (arith, pow-suc 2 k)),
)

-- The test `(bitmap | mask) == bitmap` asks for a free run.
covers_iff : (w n s : ℕ) → w < 2 ^ 32 → n + s ≤ 32 → (bit_or w (run_mask n s) ≡ w) ↔ FreeRun w n s
covers_iff w n s lt fits = (
  λ e j p q.
      ground
        (arith, testbit-bit_or w (run_mask n s) j, testbit-run_mask n s j, ap (λ k. testbit k j) e),
  λ run.
      testbit_ext 32 (bit_or w (run_mask n s)) w
        (bit_or-lt 32 w (run_mask n s) lt (run_mask-lt n s fits)) lt
        (λ i _. ground (arith, testbit-bit_or w (run_mask n s) i, testbit-run_mask n s i, run i)),
)

shl32-run_mask : (n s : ℕ) → n + suc s ≤ 32 → shl32 (run_mask n s) 1 ≡ run_mask n (suc s)
shl32-run_mask n s h =
    omega (arith, run_mask-lt n (suc s) h, ap (λ (t : ℕ). (2 ^ n - 1) * t) (pow-suc 2 s))

eq-or-lt : (i s : ℕ) → i ≤ s → (i ≡ s) ⊎ (suc i ≤ s)
eq-or-lt i s h = omega arith

-- What the search from position `i` finds in `w` for `n` slices.
pub data Finds (w n i : ℕ) (out : Option (ℕ × ℕ)) : Type 0 where
  nowhere : ((s : ℕ) → i ≤ s → s + n ≤ 32 → ¬ FreeRun w n s) → out ≡ none → Finds w n i out
  first :
      (s : ℕ)
      → i ≤ s
      → s + n ≤ 32
      → FreeRun w n s
      → ((t : ℕ) → i ≤ t → t < s → ¬ FreeRun w n t)
      → out ≡ some (s, run_mask n s)
      → Finds w n i out

module _ (w n : ℕ) (lt : w < 2 ^ 32) where
  Finds-suc :
      (i : ℕ) {out : Option (ℕ × ℕ)} → ¬ FreeRun w n i → Finds w n (suc i) out → Finds w n i out
  Finds-suc i here (nowhere none_right e) =
      nowhere
        (λ s p q run. elim (eq-or-lt i s p) [
          | inl same ↦ here (λ j a b. run j (omega arith) (omega arith))
          | inr more ↦ none_right s more q run
        ])
        e
  Finds-suc i here (first s p q run least e) =
      first s (omega arith) q run
        (λ t a b r. elim (eq-or-lt i t a) [
          | inl same ↦ here (λ j c d. r j (omega arith) (omega arith))
          | inr more ↦ least t more b r
        ])
        e

  -- With rounds left the mask is the run at `i`; after the last round it may have wrapped.
  pub find_slices_lem :
      (rounds mask i : ℕ)
      → i + rounds + n ≡ 33
      → (0 < rounds → mask ≡ run_mask n i)
      → Finds w n i (find_slices rounds w mask i)
  unfolding find_slices
  find_slices_lem zero mask i e m = nowhere (λ s p q run. absurd (omega arith)) refl
  find_slices_lem (suc rounds) mask i e m =
      rw (m (omega arith)) (elim (Bool-cases (bit_or w (run_mask n i) == w)) [
        | inl hit ↦ rw hit (
            first i (omega arith) (omega arith)
              ((covers_iff w n i lt (omega arith)).0 ((==_iff _ w).0 hit))
              (λ t p q. absurd (omega arith)) refl)
        | inr miss ↦ rw miss (
            Finds-suc i (λ run. ground (arith, miss, (covers_iff w n i lt (omega arith)).1 run))
              (rw next_lem (
                find_slices_lem rounds (shl32 (run_mask n i) 1) (suc i) (omega arith)
                  (λ p. shl32-run_mask n i (omega arith)))))
      ])
    where
      next_lem : i + 1 ≡ suc i
      next_lem = omega arith
