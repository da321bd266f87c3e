-- ===== src/Examples/Statistics.antt =====
-- The statistics of a partition that was just formatted, and of one with a file.
use lkp_project.Prelude.{ℕ, ◌-◌, false, ◌≡◌, refl, arith, update}
use lkp_project.State.{Fs, ok, returned}
use lkp_project.Store.{in_cache, ouichefs_iget}
use lkp_project.Store.Apart.{stored}
use lkp_project.Mkfs.{idiv_ceil, superblock}
use lkp_project.Sysfs.{
  SysfsHost, used_inodes, total_data_size, total_file_count, total_small_file_count, each_inode,
  followed_iget, efficiency_show, total_used_size,
}
use lkp_project.Sysfs.Counts.{Readable, span, file_weight, with_calls}
use lkp_project.Sysfs.Statistics.{SmallCount, statistics_lem}
use lkp_project.Examples.Host.{host, small_fs, blank_inode}
use lkp_project.Examples.Formats.{good_libc, command, empty_image}
use lkp_project.Mkfs.Format.{main}

abbrev linux : SysfsHost
linux = record { iget_locked = λ t i. in_cache; block_size_macro = 1024; add_fails = λ t. false }

-- The formatted partition, as it is after one inode was taken.
abbrev formatted_fs : Fs
formatted_fs = record small_fs {
  sbi = record (superblock 409600) { nr_free_inodes = 147 };
  disk = (main good_libc command empty_image).1.contents;
  inodes = stored (main good_libc command empty_image).1.contents;
}

formatted_fs-Readable : Readable host linux formatted_fs
formatted_fs-Readable = record {
  reads = λ t b. refl;
  has_inode = λ t i e. cc e;
  agrees = λ i h. refl;
}

statistics_lem_example :
    ((c : ℕ) × (total_data_size host linux formatted_fs
        ≡ ok
            (span (λ i. (formatted_fs.inodes i).i_size) 1 (used_inodes formatted_fs.sbi - 1))
            (with_calls formatted_fs c)))
    × ((c : ℕ) × (total_file_count host linux formatted_fs
          ≡ ok
              (span (λ i. file_weight (formatted_fs.inodes i)) 1 (used_inodes formatted_fs.sbi - 1))
              (with_calls formatted_fs c)))
    × SmallCount formatted_fs (total_small_file_count host linux formatted_fs)
unfolding superblock
statistics_lem_example =
    statistics_lem host linux formatted_fs formatted_fs-Readable (omega arith) (omega arith)
      (omega arith)

-- Inode 1 is the root directory, and inode 2 a small file of 3000 bytes.
abbrev one_file : Fs
one_file = record small_fs {
  sbi = record (superblock 409600) { nr_free_inodes = 147 };
  inodes =
      update (update (λ i. blank_inode) 1 (record blank_inode { i_mode = 16893; i_size = 4096 })) 2
        (record blank_inode { i_mode = 33188; i_size = 3000; i_blocks = 0 });
}

-- The file is the only one, and is missed by `files` and by the sizes. `efficiency` divides by units
-- of 1024 bytes for each block.
one_file_statistics :
    (returned 9 (total_file_count host linux one_file) ≡ 0)
    × (returned 9 (total_small_file_count host linux one_file) ≡ 1)
    × (returned 9 (total_data_size host linux one_file) ≡ 4096)
    × (total_used_size host linux one_file.sbi ≡ 7168)
    × (returned 9 (efficiency_show host linux one_file) ≡ 57)
unfolding total_file_count total_small_file_count total_data_size total_used_size efficiency_show
    each_inode followed_iget ouichefs_iget superblock idiv_ceil
one_file_statistics = (refl, refl, refl, refl, refl)
