-- ===== src/Examples/Formats.antt =====
-- Runs of the formatting tool, and what is proved of it at a partition of 100 blocks.
use lkp_project.Prelude.{
  not, ◌<◌, ◌⊎◌, ◌==◌, ◌*◌, ℕ, ◌≤◌, ◌^◌, true, false, some, none, ◌≡◌, refl, arith,
}
use lkp_project.State.{Fs, ok}
use lkp_project.Super.{ouichefs_fill_super}
use lkp_project.Mkfs.{idiv_ceil, superblock}
use lkp_project.Mkfs.Format.{
  Libc, Image, Command, size_of, malloc, write, write_copies, write_superblock, write_inode_store,
  write_ifree_blocks, write_bfree_blocks, write_root_index_block, write_data_blocks, write_areas,
  main,
}
use lkp_project.Mkfs.Format.Main.{MainEnds, main-MainEnds}
use lkp_project.Mkfs.Format.Mounts.{IsFresh, ouichefs_fill_super-main}
use lkp_project.Bitmap.{get_free_block}
use lkp_project.Bitmap.Blocks.{BlocksCounted}
use lkp_project.Bitmap.History.{start, later, takes}
use lkp_project.Mkfs.Format.{first_data_block, min_size}
use lkp_project.Mkfs.Format.Allocations.{get_free_block-IsFresh}
use lkp_project.Examples.Host.{host_laws, host, small_fs, blank_block}
use lkp_project.Examples.Supers.{small_vfs, small_vfs-MountSucceeds}

-- Every call succeeds, or every call but the third.
abbrev pub good_libc : Libc
good_libc = record { succeeds = λ t. true; moved = λ t. 0 }

abbrev full_disk : Libc
full_disk = record { succeeds = λ t. not (t == 3); moved = λ t. 17 }

-- `mkfs.ouichefs /tmp/disk`, of 100 blocks
abbrev pub command : Command
command = record {
  argc = 2;
  first = 47;
  opens = true;
  has_stat = true;
  is_blk = false;
  st_size = 409600;
  blk_size = none;
}

abbrev pub empty_image : Image
empty_image = record { contents = λ b. blank_block; next = 0; calls = 0 }

main_result :
    ((main good_libc command empty_image).0 ≡ 0)
    × ((main good_libc command empty_image).1.next ≡ 7)
    × ((main full_disk command empty_image).0 ≡ 1)
    × ((main full_disk command empty_image).1.next ≡ 1)
    × ((main good_libc (record command { st_size = 409599 }) empty_image).0 ≡ 1)
unfolding main write_areas write_superblock write_inode_store write_ifree_blocks write_bfree_blocks
    write_root_index_block write_data_blocks malloc write write_copies superblock idiv_ceil
main_result = (refl, refl, refl, refl, refl)

small_enough :
    (partition_size : ℕ) → size_of command ≡ some partition_size → partition_size ≤ 6 * 2 ^ 30
small_enough partition_size e = ground (arith, e)

main-MainEnds_example : MainEnds full_disk command empty_image (main full_disk command empty_image)
main-MainEnds_example =
    main-MainEnds full_disk command empty_image (λ size e. omega (arith, small_enough size e))

ouichefs_fill_super-main_example :
    (partition_size : ℕ) × (fs' : Fs) × (size_of command ≡ some partition_size)
    × (ouichefs_fill_super host small_vfs
          (record small_fs { disk = (main good_libc command empty_image).1.contents })
        ≡ ok tt fs')
    × IsFresh small_vfs (superblock partition_size) fs'
ouichefs_fill_super-main_example =
    ouichefs_fill_super-main host small_vfs small_vfs-MountSucceeds good_libc command empty_image
      small_fs small_enough refl main_result.0

-- The formatted partition, mounted.
abbrev mounted :
    (partition_size : ℕ) × (fs' : Fs) × (size_of command ≡ some partition_size)
    × (ouichefs_fill_super host small_vfs
          (record small_fs { disk = (main good_libc command empty_image).1.contents })
        ≡ ok tt fs')
    × IsFresh small_vfs (superblock partition_size) fs'
mounted =
    ouichefs_fill_super-main host small_vfs small_vfs-MountSucceeds good_libc command empty_image
      small_fs small_enough refl main_result.0

large_enough :
    (partition_size : ℕ) → size_of command ≡ some partition_size → min_size ≤ partition_size
large_enough partition_size e = ground (arith, e)

-- After one allocation.
get_free_block-IsFresh_example :
    BlocksCounted (get_free_block host mounted.1.sbi).1
    × (((get_free_block host (get_free_block host mounted.1.sbi).1).0 ≡ 0)
        ⊎ (first_data_block (superblock mounted.0)
            < (get_free_block host (get_free_block host mounted.1.sbi).1).0))
get_free_block-IsFresh_example =
    get_free_block-IsFresh mounted.0 (large_enough mounted.0 mounted.2)
      (small_enough mounted.0 mounted.2) small_vfs mounted.1 mounted.4 host_laws
      (get_free_block host mounted.1.sbi).1 (later start takes)
