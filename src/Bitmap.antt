-- ===== src/Bitmap.antt =====
-- bitmap.h: the free bitmaps of inodes and blocks. A routine returns its result beside the new
-- super block information. The debug messages have no counterpart.
pub mod Blocks
pub mod History
pub mod Inodes
pub mod First
use lkp_project.Prelude.{
  ℕ, ◌+◌, ◌-◌, ◌%◌, ◌^◌, ◌≤◌, ◌<◌, Bool, true, false, ◌==◌, ltb, if◌then◌else◌,
}
use lkp_project.Words.{u32, add32, sub32}
use lkp_project.Kernel.{Kernel, Bitmap}
use lkp_project.State.{SbInfo}

module _ (k : Kernel) where
  unfoldable pub get_first_free_bit : Bitmap → ℕ → ℕ × Bitmap
  get_first_free_bit freemap size =
      let ino = u32 (k.find_first_bit freemap size) in
      if ino == size then (0, freemap) else (ino, k.bitmap_clear freemap ino 1)

  -- Both tests of the result in the source are `if (ret)`.
  unfoldable pub get_free_inode : SbInfo → ℕ × SbInfo
  get_free_inode sbi =
      let (ret, map) = get_first_free_bit sbi.ifree_bitmap sbi.nr_inodes in
      if ret == 0
      then (0, record sbi { ifree_bitmap = map })
      else (ret, record sbi { ifree_bitmap = map; nr_free_inodes = sub32 sbi.nr_free_inodes 1 })

  unfoldable pub get_free_block : SbInfo → ℕ × SbInfo
  get_free_block sbi =
      let (ret, map) = get_first_free_bit sbi.bfree_bitmap sbi.nr_blocks in
      if ret == 0
      then (0, record sbi { bfree_bitmap = map })
      else (ret, record sbi { bfree_bitmap = map; nr_free_blocks = sub32 sbi.nr_free_blocks 1 })

  -- `false` is the -1 of the source.
  unfoldable pub put_free_bit : Bitmap → ℕ → ℕ → Bool × Bitmap
  put_free_bit freemap size i =
      if ltb size i then (false, freemap) else (true, k.bitmap_set freemap i 1)

  unfoldable pub put_inode : SbInfo → ℕ → SbInfo
  put_inode sbi ino =
      let (done, map) = put_free_bit sbi.ifree_bitmap sbi.nr_inodes ino in
      if done
      then record sbi { ifree_bitmap = map; nr_free_inodes = add32 sbi.nr_free_inodes 1 }
      else sbi

  unfoldable pub put_block : SbInfo → ℕ → SbInfo
  put_block sbi bno =
      let (done, map) = put_free_bit sbi.bfree_bitmap sbi.nr_blocks bno in
      if done
      then record sbi { bfree_bitmap = map; nr_free_blocks = add32 sbi.nr_free_blocks 1 }
      else sbi
