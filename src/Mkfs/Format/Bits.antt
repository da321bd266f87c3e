-- ===== src/Mkfs/Format/Bits.antt =====
-- The bits of the bitmap blocks that mkfs/mkfs-ouichefs.c writes.
use native.Mathlib.Nat.{pow-suc, div-div-eq-div-mul}
use lkp_project.Prelude.{
  ℕ, zero, suc, ◌+◌, ◌-◌, ◌*◌, ◌/◌, ◌%◌, ◌^◌, ◌<◌, true, false, not, leb, if◌then◌else◌, ◌≡◌, refl,
  arith, ◌∙◌, ap, sym, inl, inr, Bool-cases,
}
use lkp_project.Words.Digits.{testbit, testbit-complement}
use lkp_project.Words.Mask.{testbit_zero, testbit_ones}
use lkp_project.Block.{Block, within, memset}
use lkp_project.Block.Fields.{set_u64}
use lkp_project.Super.{bits_per_block, bit_of}
use lkp_project.Mkfs.Format.{ones_block, first_ifree_block}

testbit-low : (v r : ℕ) → r < 8 → testbit (v % 256 % 256) r ≡ testbit v r
unfolding testbit
testbit-low v zero h = ground arith
testbit-low v (suc zero) h = ground arith
testbit-low v (suc (suc zero)) h = ground arith
testbit-low v (suc (suc (suc zero))) h = ground arith
testbit-low v (suc (suc (suc (suc zero)))) h = ground arith
testbit-low v (suc (suc (suc (suc (suc zero))))) h = ground arith
testbit-low v (suc (suc (suc (suc (suc (suc zero)))))) h = ground arith
testbit-low v (suc (suc (suc (suc (suc (suc (suc zero))))))) h = ground arith
testbit-low v (suc (suc (suc (suc (suc (suc (suc (suc r)))))))) h = absurd (omega arith)

-- The digits of what is left after a shift.
testbit-shifted_down : (s v r : ℕ) → testbit (v / 2 ^ s) r ≡ testbit v (s + r)
unfolding testbit
testbit-shifted_down zero v r = ap (λ n. testbit n r) one ∙ ap (testbit v) none
  where
    one : v / 2 ^ 0 ≡ v
    one = omega arith

    none : r ≡ 0 + r
    none = omega arith
testbit-shifted_down (suc s) v r =
    ap (λ n. testbit n r)
      (ap (λ n. v / n) (omega (arith, pow-suc 2 s)) ∙ sym (div-div-eq-div-mul v 2 (2 ^ s)))
    ∙ testbit-shifted_down s (v / 2) r
    ∙ ap (testbit v) more
  where
    more : suc (s + r) ≡ suc s + r
    more = omega arith

-- A bit of a block in which a 64-bit word was stored.
pub bit_of-set_u64 :
    (b : Block) (i v j : ℕ)
    → bit_of (set_u64 b (8 * i) v) j
      ≡ (if within (64 * i) 64 j then testbit v (j - 64 * i) else bit_of b j)
unfolding set_u64
bit_of-set_u64 b i v j = elim (Bool-cases (within (64 * i) 64 j)) [
  | inl here ↦
      let cell : within (8 * i) 8 (j / 8) ≡ true = ground (arith, here) in
      let place : 8 * (j / 8 - 8 * i) + j % 8 ≡ j - 64 * i = ground (arith, here) in
      rw (here, cell)
        (testbit-low (v / 2 ^ (8 * (j / 8 - 8 * i))) (j % 8) (omega arith)
          ∙ testbit-shifted_down (8 * (j / 8 - 8 * i)) v (j % 8)
          ∙ ap (testbit v) place)
  | inr other ↦
      let cell : within (8 * i) 8 (j / 8) ≡ false = ground (arith, other) in rw (other, cell) refl
]

testbit-255 : (r : ℕ) → r < 8 → testbit 255 r ≡ true
testbit-255 r h = testbit-complement 8 0 r (omega arith) h ∙ ap not (testbit_zero r)

-- A filled block has the bits of its byte.
pub bit_of-ones : (j : ℕ) → j < bits_per_block → bit_of ones_block j ≡ true
unfolding memset
bit_of-ones j h =
    let cell : within 0 4096 (j / 8) ≡ true = ground arith in
    rw cell (testbit-255 (j % 8) (omega arith))

-- The first block of the inode bitmap: inodes 0 and 1 are in use.
pub bit_of-first_ifree_block : (j : ℕ) → j < bits_per_block → bit_of first_ifree_block j ≡ leb 2 j
bit_of-first_ifree_block j h =
    bit_of-set_u64 ones_block 0 0xfffffffffffffffc j
    ∙ ground (
      arith,
      bit_of-ones j h,
      λ (p : j < 64). testbit-complement 64 3 j (omega arith) p,
      testbit_ones 2 j,
      ap (testbit 18446744073709551612) same,
    )
  where
    same : j - 64 * 0 ≡ j
    same = omega arith

-- Its other blocks: every inode is free.
pub bit_of-ifree_copy :
    (j : ℕ) → j < bits_per_block → bit_of (set_u64 first_ifree_block 0 (2 ^ 64 - 1)) j ≡ true
bit_of-ifree_copy j h =
    bit_of-set_u64 first_ifree_block 0 (2 ^ 64 - 1) j
    ∙ ground (
      arith,
      bit_of-first_ifree_block j h,
      λ (p : j < 64). testbit_ones 64 j,
      ap (testbit 18446744073709551615) same,
    )
  where
    same : j - 64 * 0 ≡ j
    same = omega arith
