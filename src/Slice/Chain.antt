-- ===== src/Slice/Chain.antt =====
-- The list of sliced blocks, linked by the next word of each, and which of them are free throughout.
use lkp_project.Prelude.{
  ℕ, ◌+◌, ◌≤◌, ◌<◌, Bool, true, false, ◌||◌, ◌==◌, if◌then◌else◌, List, [], ◌∷◌, ◌≡◌, ◌≢◌, refl,
  ◌∙◌, arith,
}
use lkp_project.Block.{Block, get_u32}
use lkp_project.Slice.{sb_bitmap, sb_next, bitmap_all_free}

abbrev pub all_free : Block → Bool
all_free b = sb_bitmap b == bitmap_all_free

abbrev pub has : ℕ → List ℕ → Bool
has a [] = false
has a (x ∷ xs) = a == x || has a xs

-- The next words lead from `head` through the distinct blocks `xs` to 0.
pub data Chain (disk : ℕ → Block) : ℕ → List ℕ → Type 0 where
  nil : Chain disk 0 []
  cons :
      {b : ℕ} {xs : List ℕ} (next : ℕ)
      → b ≢ 0
      → sb_next (disk b) ≡ next
      → has b xs ≡ false
      → Chain disk next xs
      → Chain disk b (b ∷ xs)

-- The blocks that stay, and those that go.
abbrev pub kept : (ℕ → Block) → List ℕ → List ℕ
kept disk [] = []
kept disk (b ∷ xs) = if all_free (disk b) then kept disk xs else b ∷ kept disk xs

abbrev pub dropped : (ℕ → Block) → List ℕ → List ℕ
dropped disk [] = []
dropped disk (b ∷ xs) = if all_free (disk b) then b ∷ dropped disk xs else dropped disk xs

pub get_u32_ext :
    (b c : Block) (o : ℕ) → ((j : ℕ) → o ≤ j → j < o + 4 → b j ≡ c j) → get_u32 b o ≡ get_u32 c o
unfolding get_u32
get_u32_ext b c o same = ground (
  arith,
  same o (omega arith) (omega arith),
  same (o + 1) (omega arith) (omega arith),
  same (o + 2) (omega arith) (omega arith),
  same (o + 3) (omega arith) (omega arith),
)

pub has-kept :
    (disk : ℕ → Block) (b : ℕ) (xs : List ℕ) → has b xs ≡ false → has b (kept disk xs) ≡ false
has-kept disk b [] h = refl
has-kept disk b (x ∷ xs) h = ground (arith, has-kept disk b xs)

pub has-dropped :
    (disk : ℕ → Block) (b : ℕ) (xs : List ℕ) → has b xs ≡ false → has b (dropped disk xs) ≡ false
has-dropped disk b [] h = refl
has-dropped disk b (x ∷ xs) h = ground (arith, has-dropped disk b xs)

-- Two disks that agree on the headers of `xs`.
abbrev pub SameHeaders : List ℕ → (ℕ → Block) → (ℕ → Block) → Type 0
SameHeaders xs disk disk' = (b j : ℕ) → has b xs ≡ true → disk' b j ≡ disk b j

pub same_word :
    (disk disk' : ℕ → Block) (b o : ℕ)
    → ((j : ℕ) → disk' b j ≡ disk b j)
    → get_u32 (disk' b) o ≡ get_u32 (disk b) o
same_word disk disk' b o h = get_u32_ext (disk' b) (disk b) o (λ j p q. h j)

pub kept_frame :
    (disk disk' : ℕ → Block) (xs : List ℕ)
    → SameHeaders xs disk disk'
    → kept disk' xs ≡ kept disk xs
kept_frame disk disk' [] same = refl
kept_frame disk disk' (b ∷ xs) same = rw (
  same_word disk disk' b 0 (λ j. same b j (ground arith)),
  kept_frame disk disk' xs (λ c j p. same c j (ground arith)),
)

pub dropped_frame :
    (disk disk' : ℕ → Block) (xs : List ℕ)
    → SameHeaders xs disk disk'
    → dropped disk' xs ≡ dropped disk xs
dropped_frame disk disk' [] same = refl
dropped_frame disk disk' (b ∷ xs) same = rw (
  same_word disk disk' b 0 (λ j. same b j (ground arith)),
  dropped_frame disk disk' xs (λ c j p. same c j (ground arith)),
)

-- A change of disk that keeps the next words of `xs` keeps the list.
pub Chain-frame :
    {disk disk' : ℕ → Block} {head : ℕ} {xs : List ℕ}
    → Chain disk head xs
    → ((b : ℕ) → has b xs ≡ true → sb_next (disk' b) ≡ sb_next (disk b))
    → Chain disk' head xs
Chain-frame nil same = nil
Chain-frame (cons {b} next ne e out c) same =
    cons next ne (same b (ground arith) ∙ e) out (Chain-frame c (λ d p. same d (ground arith)))
