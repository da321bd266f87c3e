-- ===== src/Mkfs/Geometry.antt =====
-- The areas of a fresh partition against what they have to hold.
use lkp_project.Words.{u32, add32, sub32}
use lkp_project.Prelude.{◌==◌, if◌then◌else◌, ℕ, ◌+◌, ◌-◌, ◌*◌, ◌/◌, ◌%◌, ◌^◌, ◌≤◌, ◌<◌, ◌≡◌, arith}
use lkp_project.State.{SbInfo}
use lkp_project.Mkfs.{idiv_ceil, superblock}

-- The areas of a super block hold its inodes, and the bits of both bitmaps, with no block to spare;
-- what is free are the blocks behind them but one, for the root directory.
pub record IsLaidOut (sbi : SbInfo) : Type 0 where
  pub istore :
      (sbi.nr_inodes ≤ 51 * sbi.nr_istore_blocks) × (51 * sbi.nr_istore_blocks < sbi.nr_inodes + 51)
  pub ifree :
      (sbi.nr_inodes ≤ 32768 * sbi.nr_ifree_blocks)
      × (32768 * sbi.nr_ifree_blocks < sbi.nr_inodes + 32768)
  pub bfree :
      (sbi.nr_blocks ≤ 32768 * sbi.nr_bfree_blocks)
      × (32768 * sbi.nr_bfree_blocks < sbi.nr_blocks + 32768)
  pub total :
      1 + sbi.nr_istore_blocks + sbi.nr_ifree_blocks + sbi.nr_bfree_blocks + 1 + sbi.nr_free_blocks
      ≡ sbi.nr_blocks
  pub inodes : (sbi.nr_blocks ≤ sbi.nr_inodes) × (sbi.nr_inodes ≤ sbi.nr_blocks + 50)

ceil_51 : (a : ℕ) → a < 2 ^ 32 - 1 → (a ≤ 51 * idiv_ceil a 51) × (51 * idiv_ceil a 51 < a + 51)
unfolding idiv_ceil
ceil_51 a small = ground arith

ceil_32768 :
    (a : ℕ)
    → a < 2 ^ 32 - 1
    → (a ≤ 32768 * idiv_ceil a 32768) × (32768 * idiv_ceil a 32768 < a + 32768)
unfolding idiv_ceil
ceil_32768 a small = ground arith

-- The number of inodes for a number of blocks.
inodes_for : ℕ → ℕ
inodes_for n = if n % 51 == 0 then n else add32 n (n % 51)

inodes_for_bounds : (n : ℕ) → n < 2 ^ 31 → (n ≤ inodes_for n) × (inodes_for n ≤ n + 50)
unfolding inodes_for
inodes_for_bounds n small = ground arith

-- What is left behind the areas does not wrap.
data_blocks :
    (n i f b : ℕ)
    → n < 2 ^ 31
    → 1 + i + f + b + 1 ≤ n
    → 1 + i + f + b + 1 + sub32 (sub32 (sub32 (sub32 (sub32 n 1) i) f) b) 1 ≡ n
data_blocks n i f b small room = omega arith

-- A partition of at least 100 blocks and less than 8 TiB is laid out so that every area holds what it
-- is for, with less than a block to spare, and the free blocks are those behind the areas but one.
pub superblock-IsLaidOut :
    (partition_size : ℕ)
    → 100 * 4096 ≤ partition_size
    → partition_size < 2 ^ 43
    → IsLaidOut (superblock partition_size)
unfolding superblock inodes_for
superblock-IsLaidOut partition_size enough fits = record {
  istore = ceil_51 (inodes_for n) (omega (arith, inodes_for_bounds n small));
  ifree = ceil_32768 (inodes_for n) (omega (arith, inodes_for_bounds n small));
  bfree = ceil_32768 n (omega arith);
  total =
      data_blocks n (idiv_ceil (inodes_for n) 51) (idiv_ceil (inodes_for n) 32768)
        (idiv_ceil n 32768) small room;
  inodes = omega (arith, inodes_for_bounds n small);
}
  where
    n : ℕ
    n = u32 (partition_size / 4096)

    small : n < 2 ^ 31
    small = omega arith

    room :
        1 + idiv_ceil (inodes_for n) 51 + idiv_ceil (inodes_for n) 32768 + idiv_ceil n 32768 + 1 ≤ n
    room = omega (
      arith,
      inodes_for_bounds n small,
      ceil_51 (inodes_for n) (omega (arith, inodes_for_bounds n small)),
      ceil_32768 (inodes_for n) (omega (arith, inodes_for_bounds n small)),
      ceil_32768 n (omega arith),
    )
