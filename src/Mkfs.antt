-- ===== src/Mkfs.antt =====
-- mkfs/mkfs-ouichefs.c: the numbers that write_superblock puts into the super block of a partition,
-- and in Format what the tool writes.
pub mod Format
pub mod Geometry
use lkp_project.Prelude.{ℕ, ◌+◌, ◌-◌, ◌*◌, ◌/◌, ◌%◌, ◌^◌, false, ◌==◌, if◌then◌else◌}
use lkp_project.Words.{u32, add32, sub32}
use lkp_project.Block.{block_size}
use lkp_project.State.{SbInfo}
use lkp_project.Store.{inodes_per_block}
use lkp_project.Super.{ouichefs_magic, bits_per_block}

unfoldable pub idiv_ceil : ℕ → ℕ → ℕ
idiv_ceil a b = let ret = a / b in if a % b == 0 then ret else add32 ret 1

-- The super block of a partition of `partition_size` bytes. The bitmaps are written elsewhere.
unfoldable pub superblock : ℕ → SbInfo
superblock partition_size =
    let nr_blocks = u32 (partition_size / block_size) in
    let beyond = nr_blocks % inodes_per_block in
    let nr_inodes = if beyond == 0 then nr_blocks else add32 nr_blocks beyond in
    let nr_istore_blocks = idiv_ceil nr_inodes inodes_per_block in
    let nr_ifree_blocks = idiv_ceil nr_inodes bits_per_block in
    let nr_bfree_blocks = idiv_ceil nr_blocks bits_per_block in
    let nr_data_blocks =
      sub32 (sub32 (sub32 (sub32 nr_blocks 1) nr_istore_blocks) nr_ifree_blocks) nr_bfree_blocks in
    record {
      magic = ouichefs_magic;
      nr_blocks = nr_blocks;
      nr_inodes = nr_inodes;
      nr_istore_blocks = nr_istore_blocks;
      nr_ifree_blocks = nr_ifree_blocks;
      nr_bfree_blocks = nr_bfree_blocks;
      nr_sliced_blocks = 0;
      nr_free_inodes = sub32 nr_inodes 1;
      nr_free_blocks = sub32 nr_data_blocks 1;
      nr_used_slices = 0;
      s_free_sliced_blocks = 0;
      ifree_bitmap = λ _. false;
      bfree_bitmap = λ _. false;
    }
