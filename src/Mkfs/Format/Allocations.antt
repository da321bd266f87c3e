-- ===== src/Mkfs/Format/Allocations.antt =====
-- Allocating blocks (bitmap.h) on a partition that mkfs/mkfs-ouichefs.c formatted.
use lkp_project.Prelude.{ℕ, ◌+◌, ◌*◌, ◌^◌, ◌≤◌, ◌<◌, ◌⊎◌, ◌≡◌, arith, ◌∙◌, ap}
use lkp_project.Kernel.{Kernel, BitmapLaws}
use lkp_project.State.{SbInfo, Fs}
use lkp_project.Super.{Vfs}
use lkp_project.Bitmap.{get_free_block}
use lkp_project.Bitmap.Blocks.{BlocksCounted}
use lkp_project.Bitmap.History.{Reaches, IsKept, Reaches-IsKept, IsKept-get_free_block}
use lkp_project.Mkfs.{superblock}
use lkp_project.Mkfs.Format.{first_data_block, min_size}
use lkp_project.Mkfs.Format.Loads.{HasRoom, superblock-HasRoom}
use lkp_project.Mkfs.Format.Mounts.{IsFresh}

module _ (partition_size : ℕ) (enough : min_size ≤ partition_size)
    (fits : partition_size ≤ 6 * 2 ^ 30) (vfs : Vfs) (fs : Fs)
    (fresh : IsFresh vfs (superblock partition_size) fs) where
  abbrev sb : SbInfo
  sb = superblock partition_size

  fresh-IsKept : IsKept (first_data_block sb + 1) sb.nr_blocks fs.sbi
  fresh-IsKept = record {
    counted = fresh.counted;
    reserved = λ j h.
        fresh.bfree j (omega (arith, h, room.used, room.one_block, room.bfree)) ∙ ground (arith, h);
    same = ap (λ sbi. sbi.nr_blocks) fresh.same_numbers;
  }
    where
      room : HasRoom sb
      room = superblock-HasRoom partition_size enough fits

  -- After any sequence of allocations, and of blocks given back that are in use and lie behind the
  -- areas and the root directory's block, the counter of free blocks of a fresh partition is exact, and
  -- get_free_block reports that there is no block or takes one from behind them.
  pub get_free_block-IsFresh :
      {k : Kernel}
      → BitmapLaws k
      → (sbi : SbInfo) → Reaches k (first_data_block (superblock partition_size) + 1) fs.sbi sbi
      → BlocksCounted sbi
        × (((get_free_block k sbi).0 ≡ 0)
            ⊎ (first_data_block (superblock partition_size) < (get_free_block k sbi).0))
  get_free_block-IsFresh laws sbi reach =
      let kept : IsKept (first_data_block sb + 1) sb.nr_blocks sbi =
        Reaches-IsKept laws (first_data_block sb + 1) sb.nr_blocks fresh-IsKept reach in
      (
        kept.counted,
        ground (arith, IsKept-get_free_block laws (first_data_block sb + 1) sb.nr_blocks sbi kept),
      )
