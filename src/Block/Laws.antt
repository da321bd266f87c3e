-- ===== src/Block/Laws.antt =====
-- Reading back what was written in a block, and what a write leaves alone.
use lkp_project.Prelude.{ℕ, ◌+◌, ◌^◌, ◌≤◌, ◌<◌, ◌⊎◌, ◌≡◌, arith}
use lkp_project.Block.{Block, get_u32, set_u32, memset, memcpy}

pub get_u32-lt : (b : Block) (o : ℕ) → get_u32 b o < 2 ^ 32
unfolding get_u32
get_u32-lt b o = omega arith

pub get_u32-set_u32_self : (b : Block) (o v : ℕ) → v < 2 ^ 32 → get_u32 (set_u32 b o v) o ≡ v
unfolding get_u32 set_u32
get_u32-set_u32_self b o v h = ground arith

-- Words that do not overlap are independent.
pub get_u32-set_u32_apart :
    (b : Block) (o p v : ℕ) → (o + 4 ≤ p) ⊎ (p + 4 ≤ o) → get_u32 (set_u32 b o v) p ≡ get_u32 b p
unfolding get_u32 set_u32
get_u32-set_u32_apart b o p v h = ground arith

pub set_u32_outside : (b : Block) (o v j : ℕ) → (j < o) ⊎ (o + 4 ≤ j) → set_u32 b o v j ≡ b j
unfolding set_u32
set_u32_outside b o v j h = ground arith

pub get_u32-memset_apart :
    (b : Block) (start c n p : ℕ)
    → (p + 4 ≤ start) ⊎ (start + n ≤ p)
    → get_u32 (memset b start c n) p ≡ get_u32 b p
unfolding get_u32 memset
get_u32-memset_apart b start c n p h = ground arith

pub get_u32-memcpy_apart :
    (b : Block) (start : ℕ) (src : Block) (n p : ℕ)
    → (p + 4 ≤ start) ⊎ (start + n ≤ p)
    → get_u32 (memcpy b start src n) p ≡ get_u32 b p
unfolding get_u32 memcpy
get_u32-memcpy_apart b start src n p h = ground arith
