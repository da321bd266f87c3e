-- ===== src/Directory/SameName.antt =====
-- The comparison of names in a directory.
use lkp_project.Prelude.{
  different, ℕ, zero, suc, ◌+◌, ◌≤◌, ◌<◌, ◌≢◌, ◌⊎◌, Bool, true, false, ◌==◌, ◌&&◌, ◌||◌, ◌≡◌, refl,
  arith, inl, inr, ==_self,
}
use lkp_project.Block.{Block}
use lkp_project.Directory.{same_name}

-- Names of `n` bytes that end at the same byte are the same.
pub same_name-ends :
    (n j last : ℕ) (a c : Block)
    → j ≤ last
    → ((x : ℕ) → x ≤ last → a x ≡ c x)
    → a last ≡ 0
    → same_name n j a c ≡ true
unfolding same_name
same_name-ends zero j last a c le same end = refl
same_name-ends (suc n) j last a c le same end = elim (here-or-before j last le) [
  | inl e ↦ rw (equal j le, stops e) refl
  | inr lt ↦
      rw (equal j le, same_name-ends n (j + 1) last a c (omega arith) same end) (either (a j == 0))
]
  where
    here-or-before : (j last : ℕ) → j ≤ last → (j ≡ last) ⊎ (j < last)
    here-or-before j last h = omega arith

    equal : (j : ℕ) → j ≤ last → (a j == c j) ≡ true
    equal j h = rw (same j h) (==_self (c j))

    stops : j ≡ last → (a j == 0) ≡ true
    stops e = rw (e, end) refl

    either : (x : Bool) → (x || true) ≡ true
    either true = refl
    either false = refl

-- Names that differ at a byte before which neither ends are not the same.
pub same_name-differs :
    (n j d : ℕ) (a c : Block)
    → j ≤ d
    → d < j + n
    → ((x : ℕ) → j ≤ x → x < d → a x ≢ 0)
    → a d ≢ c d
    → same_name n j a c ≡ false
unfolding same_name
same_name-differs zero j d a c le lt goes_on other = absurd (omega arith)
same_name-differs (suc n) j d a c le lt goes_on other = elim (here-or-before j d le) [
  | inl e ↦ rw (e, different (a d) (c d) other) refl
  | inr before ↦
      rw
        (
          different (a j) 0 (goes_on j (omega arith) before),
          same_name-differs n (j + 1) d a c (omega arith) (omega arith)
              (λ x p q. goes_on x (omega arith) q) other,
        )
        (neither (a j == c j))
]
  where
    here-or-before : (j d : ℕ) → j ≤ d → (j ≡ d) ⊎ (j < d)
    here-or-before j d h = omega arith

    neither : (x : Bool) → (x && false) ≡ false
    neither true = refl
    neither false = refl

pub same_name_ext :
    (n j : ℕ) (a b c : Block)
    → j + n ≤ 28
    → ((x : ℕ) → x < 28 → a x ≡ b x)
    → same_name n j a c ≡ same_name n j b c
unfolding same_name
same_name_ext zero j a b c low same = refl
same_name_ext (suc n) j a b c low same =
    rw (same j (omega arith), same_name_ext n (j + 1) a b c (omega arith) same) refl
