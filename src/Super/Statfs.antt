-- ===== src/Super/Statfs.antt =====
-- ouichefs_statfs of super.c.
use lkp_project.Prelude.{ℕ, ◌<◌, ◌↔◌}
use lkp_project.Kernel.{Kernel, BitmapLaws}
use lkp_project.Block.{block_size}
use lkp_project.State.{SbInfo, filename_len}
use lkp_project.Bitmap.{get_free_block}
use lkp_project.Bitmap.Blocks.{BlocksCounted, get_free_block_iff}
use lkp_project.Super.{ouichefs_magic}

-- struct kstatfs, the fields that are set
pub record Kstatfs : Type 0 where
  pub f_type : ℕ
  pub f_bsize : ℕ
  pub f_blocks : ℕ
  pub f_bfree : ℕ
  pub f_bavail : ℕ
  pub f_files : ℕ
  pub f_ffree : ℕ
  pub f_namelen : ℕ

unfoldable pub ouichefs_statfs : SbInfo → Kstatfs
ouichefs_statfs sbi = record {
  f_type = ouichefs_magic;
  f_bsize = block_size;
  f_blocks = sbi.nr_blocks;
  f_bfree = sbi.nr_free_blocks;
  f_bavail = sbi.nr_free_blocks;
  f_files = sbi.nr_inodes;
  f_ffree = sbi.nr_free_inodes;
  f_namelen = filename_len;
}

-- Where the free blocks are counted, a block is reported as available if and only if get_free_block
-- succeeds.
ouichefs_statfs-get_free_block :
    {k : Kernel} (laws : BitmapLaws k) (sbi : SbInfo)
    → BlocksCounted sbi
    → (0 < (get_free_block k sbi).0) ↔ (0 < (ouichefs_statfs sbi).f_bavail)
unfolding ouichefs_statfs
ouichefs_statfs-get_free_block laws sbi v = get_free_block_iff laws v
