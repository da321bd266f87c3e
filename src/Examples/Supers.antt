-- ===== src/Examples/Supers.antt =====
-- The inode store and the super block on a small partition.
use lkp_project.Mkfs.{superblock}
use lkp_project.Mkfs.Geometry.{IsLaidOut, superblock-IsLaidOut}
use lkp_project.Prelude.{ℕ, ◌*◌, ◌<◌, ◌≢◌, true, none, ◌≡◌, refl, arith, update}
use lkp_project.Block.{get_u32, set_u32}
use lkp_project.State.{Fs, ok}
use lkp_project.Store.{is_fresh, ouichefs_write_inode, ouichefs_iget}
use lkp_project.Store.RoundTrip.{FitsDisk}
use lkp_project.Store.Apart.{stored, ouichefs_write_inode_lem, ouichefs_iget-ouichefs_write_inode}
use lkp_project.Super.{bits_per_block, ouichefs_magic, Vfs, ouichefs_sync_fs, ouichefs_fill_super}
use lkp_project.Super.Fill.{IsWide, numbers, MountSucceeds}
use lkp_project.Super.Mount.{ouichefs_fill_super-ouichefs_sync_fs}
use lkp_project.Examples.Host.{host, small_fs, small_sbi, full_sbi, blank_block, blank_inode}
use lkp_project.Examples.Files.{small_file, small_file_fs}

small_file-FitsDisk : FitsDisk small_file
small_file-FitsDisk = record {
  mode = omega arith;
  uid = omega arith;
  gid = omega arith;
  size = omega arith;
  ctime = (omega arith, omega arith);
  atime = (omega arith, omega arith);
  mtime = (omega arith, omega arith);
  blocks = omega arith;
  nlink = omega arith;
  index = omega arith;
  slices = omega arith;
}

ouichefs_write_inode_lem_example :
    (fs' : Fs) × (ouichefs_write_inode host 2 small_file_fs ≡ ok tt fs')
    × (stored fs'.disk 2 ≡ small_file)
    × ((i : ℕ) → i ≢ 2 → stored fs'.disk i ≡ stored small_file_fs.disk i)
    × ((b : ℕ) → b ≢ 1 → fs'.disk b ≡ small_file_fs.disk b)
    × (fs'.inodes ≡ small_file_fs.inodes)
    × (fs'.sbi ≡ small_file_fs.sbi)
ouichefs_write_inode_lem_example =
    ouichefs_write_inode_lem host (λ t b. refl) 2 small_file_fs (omega arith) small_file-FitsDisk

ouichefs_iget-ouichefs_write_inode_example :
    (fs1 : Fs) × (fs2 : Fs) × (ouichefs_write_inode host 2 small_file_fs ≡ ok tt fs1)
    × (ouichefs_iget host (λ t i. is_fresh) 2 (record fs1 { inodes = λ i. blank_inode }) ≡ ok 2 fs2)
    × (fs2.inodes 2 ≡ small_file)
    × ((i : ℕ) → i ≢ 2 → fs2.inodes i ≡ blank_inode)
ouichefs_iget-ouichefs_write_inode_example =
    ouichefs_iget-ouichefs_write_inode host (λ t b. refl) 2 small_file_fs (λ i. blank_inode)
      (λ t i. is_fresh) (omega arith) small_file-FitsDisk (λ t. refl)

abbrev pub small_vfs : Vfs
small_vfs = record {
  iget_locked = λ t i. is_fresh;
  sb_info_size = 200;
  fsuid = 0;
  fsgid = 0;
  makes_root = λ t. true;
  register_sysfs = λ t. none;
}

pub small_vfs-MountSucceeds : MountSucceeds host small_vfs
small_vfs-MountSucceeds = record {
  reads = λ t b. refl;
  allocs = λ t n. refl;
  fresh = λ t. refl;
  root = λ t. refl;
  sysfs = λ t. refl;
}

abbrev formatted_fs : Fs
formatted_fs = record small_fs {
  disk = update (λ b. blank_block) 0 (set_u32 blank_block 0 0x48434957);
}

formatted_magic : get_u32 (formatted_fs.disk 0) 0 ≡ ouichefs_magic
unfolding get_u32 set_u32
formatted_magic = refl

small_sbi-IsWide : IsWide small_sbi
small_sbi-IsWide = record {
  blocks = omega arith;
  inodes = omega arith;
  istore = omega arith;
  ifree = omega arith;
  bfree = omega arith;
  sliced = omega arith;
  free_inodes = omega arith;
  free_blocks = omega arith;
  used = omega arith;
  head = omega arith;
}

ouichefs_fill_super-ouichefs_sync_fs_example :
    (fs1 : Fs) × (fs2 : Fs) × (ouichefs_sync_fs host formatted_fs ≡ ok tt fs1)
    × (ouichefs_fill_super host small_vfs (record fs1 { sbi = full_sbi; inodes = λ i. blank_inode })
        ≡ ok tt fs2)
    × (numbers fs2.sbi ≡ numbers small_sbi)
    × ((j : ℕ) → j < 1 * bits_per_block → fs2.sbi.ifree_bitmap j ≡ small_sbi.ifree_bitmap j)
    × ((j : ℕ) → j < 1 * bits_per_block → fs2.sbi.bfree_bitmap j ≡ small_sbi.bfree_bitmap j)
ouichefs_fill_super-ouichefs_sync_fs_example =
    ouichefs_fill_super-ouichefs_sync_fs host small_vfs small_vfs-MountSucceeds formatted_fs
      full_sbi (λ i. blank_inode) small_sbi-IsWide formatted_magic (omega arith)

superblock-IsLaidOut_example : IsLaidOut (superblock 52428800)
superblock-IsLaidOut_example = superblock-IsLaidOut 52428800 (omega arith) (omega arith)

-- 12800 blocks are 250 times 51 and 50 more, and the number of inodes is no multiple of 51.
inodes_of_a_partition : (superblock 52428800).nr_inodes ≡ 12850
unfolding superblock
inodes_of_a_partition = refl
