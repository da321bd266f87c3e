-- ===== src/Super/Bits.antt =====
-- The bits of a bitmap in the bytes of its blocks.
use lkp_project.Prelude.{
  ℕ, zero, suc, ◌+◌, ◌*◌, ◌/◌, ◌%◌, ◌^◌, ◌≤◌, ◌<◌, Bool, true, false, ltb, ◌==◌, ◌≡◌, arith, ◌∙◌,
  ap,
}
use native.Mathlib.Nat.{pow-suc}
use lkp_project.Words.Digits.{testbit}
use lkp_project.Kernel.{Bitmap}
use lkp_project.Block.{Block, block_size}
use lkp_project.Super.{bits_per_block, bit_value, bits, bit_of, copy_bitmap_to_le64}

bit_value-le : (x : Bool) → bit_value x ≤ 1
bit_value-le true = omega arith
bit_value-le false = omega arith

bits-lt : (m : Bitmap) (s n : ℕ) → bits m s n < 2 ^ n
unfolding bits
bits-lt m s zero = omega arith
bits-lt m s (suc n) = omega (arith, pow-suc 2 n, bits-lt m (s + 1) n, bit_value-le (m s))

lowest : (x : Bool) (y : ℕ) → ((bit_value x + 2 * y) % 2 == 1) ≡ x
lowest true y = ground arith
lowest false y = ground arith

-- Each digit is the bit that it stands for.
testbit-bits : (m : Bitmap) (s n t : ℕ) → t < n → testbit (bits m s n) t ≡ m (s + t)
unfolding testbit bits
testbit-bits m s zero t h = absurd (omega arith)
testbit-bits m s (suc n) zero h = lowest (m s) (bits m (s + 1) n) ∙ ap m (omega arith)
testbit-bits m s (suc n) (suc t) h =
    let half : (bit_value (m s) + 2 * bits m (s + 1) n) / 2 ≡ bits m (s + 1) n =
      omega (arith, bit_value-le (m s)) in
    rw half (testbit-bits m (s + 1) n t (omega arith) ∙ ap m (omega arith))

-- A bit of a block that a bitmap was copied to is the bit of the bitmap.
pub bit_of-copy_bitmap_to_le64 :
    (m : Bitmap) (i : ℕ) (b : Block) (j : ℕ)
    → j < bits_per_block
    → bit_of (copy_bitmap_to_le64 m i b) j ≡ m (i * bits_per_block + j)
unfolding copy_bitmap_to_le64
bit_of-copy_bitmap_to_le64 m i b j h =
    let byte : bits m (i * bits_per_block + 8 * (j / 8)) 8 % 256
        ≡ bits m (i * bits_per_block + 8 * (j / 8)) 8 =
      omega (arith, bits-lt m (i * bits_per_block + 8 * (j / 8)) 8) in
    rw (inside, byte)
      (testbit-bits m (i * bits_per_block + 8 * (j / 8)) 8 (j % 8) (omega arith)
        ∙ ap m (omega arith))
  where
    inside : ltb (j / 8) block_size ≡ true
    inside = ground arith
