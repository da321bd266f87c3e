-- ===== src/Mkfs/Format/Loads.antt =====
-- What the loops of ouichefs_fill_super (super.c) load of a partition that mkfs/mkfs-ouichefs.c
-- wrote.
use lkp_project.Prelude.{
  inr, inl, Bool-cases, ℕ, zero, suc, ◌+◌, ◌-◌, ◌*◌, ◌/◌, ◌%◌, ◌^◌, ◌≤◌, ◌<◌, true, false, leb, ltb,
  ◌≡◌, arith, ◌∙◌, ap, count,
}
use lkp_project.Block.{Block, within}
use lkp_project.State.{SbInfo}
use lkp_project.Store.{inode_size, store_inode}
use lkp_project.Super.{bits_per_block, bit_of}
use lkp_project.Super.Sync.{loaded}
use lkp_project.Super.Fill.{IsWide}
use lkp_project.Mkfs.{idiv_ceil, superblock}
use lkp_project.Mkfs.Geometry.{IsLaidOut, superblock-IsLaidOut}
use lkp_project.Mkfs.Format.{
  min_size, super_block, root_inode, filled_block, first_data_block, nr_used_blocks,
}
use lkp_project.Mkfs.Format.Areas.{layout, layout_size, ifree_area, bfree_area}
use lkp_project.Mkfs.Format.Lines.{bit_of-clear_lines}
use lkp_project.Mkfs.Format.Bits.{bit_of-first_ifree_block, bit_of-ifree_copy, bit_of-ones}

-- The numbers of a fresh super block that mounting relies on.
pub record HasRoom (sb : SbInfo) : Type 0 where
  pub inodes : 1 < sb.nr_inodes
  pub istore : 1 < 51 * sb.nr_istore_blocks
  pub ifree : 0 < sb.nr_ifree_blocks
  pub bfree : 0 < sb.nr_bfree_blocks
  pub first :
      first_data_block sb ≡ 1 + sb.nr_bfree_blocks + sb.nr_ifree_blocks + sb.nr_istore_blocks
  pub used : nr_used_blocks sb ≡ first_data_block sb + 1
  pub one_block : nr_used_blocks sb ≤ bits_per_block

pub superblock-HasRoom :
    (partition_size : ℕ)
    → min_size ≤ partition_size
    → partition_size ≤ 6 * 2 ^ 30
    → HasRoom (superblock partition_size)
unfolding superblock
superblock-HasRoom partition_size enough fits =
    let laid : IsLaidOut (superblock partition_size) =
      superblock-IsLaidOut partition_size enough (omega arith) in
    let blocks : ((superblock partition_size).nr_blocks ≤ 1572864)
        × (100 ≤ (superblock partition_size).nr_blocks) =
      omega arith in
    record {
      inodes = omega (arith, laid.inodes, blocks);
      istore = omega (arith, laid.inodes, laid.istore, blocks);
      ifree = omega (arith, laid.inodes, laid.ifree, blocks);
      bfree = omega (arith, laid.bfree, blocks);
      first = omega (arith, laid.total, blocks);
      used = omega (arith, laid.total, blocks);
      one_block = omega (arith, laid.inodes, laid.istore, laid.ifree, laid.bfree, blocks);
    }

pub superblock-IsWide : (partition_size : ℕ) → IsWide (superblock partition_size)
unfolding superblock idiv_ceil
superblock-IsWide partition_size = record {
  blocks = ground arith;
  inodes = ground arith;
  istore = ground arith;
  ifree = ground arith;
  bfree = ground arith;
  sliced = ground arith;
  free_inodes = ground arith;
  free_blocks = ground arith;
  used = ground arith;
  head = ground arith;
}

-- The bits below `u` are clear, and the others up to `n` are set.
pub count-leb : (u n : ℕ) → count (λ j. leb u j) n ≡ n - u
unfolding count
count-leb u zero = omega arith
count-leb u (suc n) = ground (arith, count-leb u n)

module _ (sb : SbInfo) (room : HasRoom sb) (d : ℕ → Block)
    (holds : (x : ℕ) → x < layout_size sb → d x ≡ layout sb x) where
  pub at_super : d 0 ≡ super_block sb
  at_super = holds 0 (omega arith)

  pub at_inodes : d 1 ≡ store_inode inode_size (root_inode sb) (filled_block 0)
  at_inodes = holds 1 (omega arith) ∙ ground (arith, room.istore)

  at_ifree : (j : ℕ) → j < sb.nr_ifree_blocks → d (sb.nr_istore_blocks + 1 + j) ≡ ifree_area j
  at_ifree j h =
      holds (sb.nr_istore_blocks + 1 + j) (omega (arith, h))
      ∙ ground (arith, h, ap ifree_area place)
    where
      place : sb.nr_istore_blocks + 1 + j - 1 - sb.nr_istore_blocks ≡ j
      place = omega arith

  at_bfree :
      (j : ℕ)
      → j < sb.nr_bfree_blocks
      → d (sb.nr_istore_blocks + sb.nr_ifree_blocks + 1 + j) ≡ bfree_area sb j
  at_bfree j h =
      holds (sb.nr_istore_blocks + sb.nr_ifree_blocks + 1 + j) (omega (arith, h))
      ∙ ground (arith, h, ap (bfree_area sb) place)
    where
      place :
          sb.nr_istore_blocks + sb.nr_ifree_blocks + 1 + j - 1 - sb.nr_istore_blocks
            - sb.nr_ifree_blocks
          ≡ j
      place = omega arith

  pub at_index : d (first_data_block sb) ≡ filled_block 0
  at_index = holds (first_data_block sb) (omega (arith, room.first)) ∙ ground (arith, room.first)

  -- The loaded bitmaps.
  pub loaded_ifree :
      (j : ℕ)
      → j < sb.nr_ifree_blocks * bits_per_block
      → loaded sb.nr_ifree_blocks 0 (sb.nr_istore_blocks + 1) (λ _. false) d j ≡ leb 2 j
  loaded_ifree j h =
      let inside : within (0 * bits_per_block) (sb.nr_ifree_blocks * bits_per_block) j ≡ true =
        ground arith in
      rw inside (
        ap (λ b. bit_of b (j % bits_per_block)) (at_ifree (j / bits_per_block) (omega arith))
        ∙ area_bit)
    where
      area_bit : bit_of (ifree_area (j / bits_per_block)) (j % bits_per_block) ≡ leb 2 j
      area_bit = elim (Bool-cases (ltb (j / bits_per_block) 1)) [
        | inl e ↦
            rw e (bit_of-first_ifree_block (j % bits_per_block) (omega arith) ∙ ground (arith, e))
        | inr e ↦ rw e (bit_of-ifree_copy (j % bits_per_block) (omega arith) ∙ ground (arith, e))
      ]

  pub loaded_bfree :
      (j : ℕ)
      → j < sb.nr_bfree_blocks * bits_per_block
      → loaded sb.nr_bfree_blocks 0 (sb.nr_istore_blocks + sb.nr_ifree_blocks + 1) (λ _. false) d j
        ≡ leb (nr_used_blocks sb) j
  loaded_bfree j h =
      let inside : within (0 * bits_per_block) (sb.nr_bfree_blocks * bits_per_block) j ≡ true =
        ground arith in
      rw inside (
        ap (λ b. bit_of b (j % bits_per_block)) (at_bfree (j / bits_per_block) (omega arith))
        ∙ area_bit)
    where
      area_bit :
          bit_of (bfree_area sb (j / bits_per_block)) (j % bits_per_block)
          ≡ leb (nr_used_blocks sb) j
      area_bit = elim (Bool-cases (ltb (j / bits_per_block) 1)) [
        | inl e ↦ rw e (
            bit_of-clear_lines (nr_used_blocks sb) (j % bits_per_block) (omega arith)
            ∙ ground (arith, e))
        | inr e ↦
            rw e
              (bit_of-ones (j % bits_per_block) (omega arith) ∙ ground (arith, e, room.one_block))
      ]
