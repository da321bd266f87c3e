-- ===== src/Sysfs.antt =====
-- sysfs.c: the statistics of a mounted partition, as the numbers that the attributes print, and the
-- entry of a partition in sysfs.
pub mod Counts
pub mod Statistics
use lkp_project.Prelude.{
  ℕ, zero, suc, ◌+◌, ◌-◌, ◌*◌, ◌/◌, ◌%◌, ◌^◌, Bool, ◌&&◌, not, ◌==◌, if◌then◌else◌, Option, none,
  some,
}
use lkp_project.Words.{u32, add32, sub32}
use lkp_project.Kernel.{Kernel}
use lkp_project.State.{
  SbInfo, InodeInfo, Errno, Run, ok, fail, out_of_fuel, enomem, panic, M, pure, throw, on_fail,
  ◌>>=◌, gets, slices_per_sliced_block,
}
use lkp_project.Store.{Locked, ouichefs_iget}
use lkp_project.Directory.{is_dir}

-- What the statistics take from Linux besides the calls of `Kernel`: iget_locked, BLOCK_SIZE of
-- linux/fs.h (an int), and whether kobject_init_and_add fails.
pub record SysfsHost : Type 0 where
  pub iget_locked : ℕ → ℕ → Locked
  pub block_size_macro : ℕ
  pub add_fails : ℕ → Bool

-- The inode numbers that the super block counts as used.
abbrev pub used_inodes : SbInfo → ℕ
used_inodes sbi = sub32 sbi.nr_inodes sbi.nr_free_inodes

-- `inode = ouichefs_iget(…); if (!inode)`: an error is a pointer, not null, and it is followed.
abbrev pub follow : Run ℕ → Run InodeInfo
follow (ok ino fs) = ok (fs.inodes ino) fs
follow (fail e fs) = panic fs
follow (panic fs) = panic fs
follow out_of_fuel = out_of_fuel

-- What the loops add for an inode.
abbrev pub add_size : InodeInfo → ℕ → ℕ
add_size inode size = size + inode.i_size

abbrev pub count_file : InodeInfo → ℕ → ℕ
count_file inode n = if is_dir inode.i_mode then n else add32 n 1

abbrev pub count_small : InodeInfo → ℕ → ℕ
count_small inode n =
    if is_dir inode.i_mode then n else (if inode.i_blocks == 0 then add32 n 1 else n)

module _ (k : Kernel) (h : SysfsHost) where
  unfoldable pub followed_iget : ℕ → M InodeInfo
  followed_iget i fs = follow (ouichefs_iget k h.iget_locked i fs)

  -- The loops over the inode numbers from `i` on.
  unfoldable pub each_inode : (InodeInfo → ℕ → ℕ) → ℕ → ℕ → ℕ → M ℕ
  each_inode f zero i acc = pure acc
  each_inode f (suc rounds) i acc = do
    inode ← followed_iget i
    each_inode f rounds (i + 1) (f inode acc)

  unfoldable pub total_data_size : M ℕ
  total_data_size = do
    inodes ← gets (λ fs. used_inodes fs.sbi)
    each_inode add_size (inodes - 1) 1 0

  unfoldable pub total_file_count : M ℕ
  total_file_count = do
    inodes ← gets (λ fs. used_inodes fs.sbi)
    each_inode count_file (inodes - 1) 1 0

  -- This loop goes up to `inodes + 1`, a uint32_t.
  unfoldable pub total_small_file_count : M ℕ
  total_small_file_count = do
    inodes ← gets (λ fs. used_inodes fs.sbi)
    each_inode count_small (add32 inodes 1 - 1) 1 0

  unfoldable pub total_used_size : SbInfo → ℕ
  total_used_size sbi = u32 (sub32 sbi.nr_blocks sbi.nr_free_blocks * h.block_size_macro)

  abbrev pub free_blocks_show : M ℕ
  free_blocks_show = gets (λ fs. fs.sbi.nr_free_blocks)

  abbrev pub used_blocks_show : M ℕ
  used_blocks_show = gets (λ fs. sub32 fs.sbi.nr_blocks fs.sbi.nr_free_blocks)

  abbrev pub sliced_blocks_show : M ℕ
  sliced_blocks_show = gets (λ fs. fs.sbi.nr_sliced_blocks)

  unfoldable pub free_slices : SbInfo → ℕ
  free_slices sbi =
      if sbi.s_free_sliced_blocks == 0
      then 0
      else sub32 (u32 (sbi.nr_sliced_blocks * slices_per_sliced_block)) sbi.nr_used_slices

  abbrev pub total_free_slices_show : M ℕ
  total_free_slices_show = gets (λ fs. free_slices fs.sbi)

  abbrev pub files_show : M ℕ
  files_show = total_file_count

  abbrev pub small_files_show : M ℕ
  small_files_show = total_small_file_count

  abbrev pub total_data_size_show : M ℕ
  total_data_size_show = total_data_size

  abbrev pub total_used_size_show : M ℕ
  total_used_size_show = gets (λ fs. total_used_size fs.sbi)

  -- The number before the percent sign. A division by zero stops the kernel.
  unfoldable pub efficiency_show : M ℕ
  efficiency_show = do
    size ← total_data_size
    used ← gets (λ fs. total_used_size fs.sbi)
    if used == 0 then (λ fs. panic fs) else pure (size * 100 / used)

  -- Whether the partition has an entry in sysfs afterwards, by the number of calls made so far.
  abbrev pub ouichefs_register_sysfs : ℕ → Option Errno
  ouichefs_register_sysfs calls = if h.add_fails calls then some enomem else none
