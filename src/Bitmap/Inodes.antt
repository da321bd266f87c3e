-- ===== src/Bitmap/Inodes.antt =====
-- get_free_inode of bitmap.h: what it does on every branch.
use lkp_project.Prelude.{ap, fun_ext, ℕ, ◌^◌, ◌<◌, true, false, update, ◌≡◌, arith, inl, inr}
use lkp_project.Words.{sub32}
use lkp_project.Kernel.{Kernel, BitmapLaws}
use lkp_project.State.{SbInfo}
use lkp_project.Bitmap.{get_first_free_bit, get_free_inode, put_free_bit, put_inode}
use lkp_project.Bitmap.First.{get_first_free_bit_lem, bitmap_set_one}

-- `ino` taken out of the free inodes.
abbrev pub take_inode : SbInfo → ℕ → SbInfo
take_inode sbi ino = record sbi {
  ifree_bitmap = update sbi.ifree_bitmap ino false;
  nr_free_inodes = sub32 sbi.nr_free_inodes 1;
}

-- Either every inode is in use, and nothing changes, or the least free inode is taken.
pub data AllocatesInode (sbi : SbInfo) (out : ℕ × SbInfo) : Type 0 where
  exhausted :
      ((j : ℕ) → j < sbi.nr_inodes → sbi.ifree_bitmap j ≡ false)
      → out ≡ (0, sbi)
      → AllocatesInode sbi out
  allocated :
      (ino : ℕ)
      → 0 < ino
      → ino < sbi.nr_inodes
      → sbi.ifree_bitmap ino ≡ true
      → ((j : ℕ) → j < ino → sbi.ifree_bitmap j ≡ false)
      → out ≡ (ino, take_inode sbi ino)
      → AllocatesInode sbi out

module _ {k : Kernel} (laws : BitmapLaws k) (sbi : SbInfo) (word : sbi.nr_inodes < 2 ^ 32)
    (reserved : sbi.ifree_bitmap 0 ≡ false) where
  -- get_free_inode takes the least free inode, or returns 0 when there is none.
  pub get_free_inode_lem : AllocatesInode sbi (get_free_inode k sbi)
  unfolding get_free_inode
  get_free_inode_lem =
      elim (get_first_free_bit_lem laws sbi.ifree_bitmap sbi.nr_inodes word reserved) [
        | inl none_left ↦
            exhausted none_left.all_used (ground (arith, none_left.result, none_left.unchanged))
        | inr first ↦
            allocated (get_first_free_bit k sbi.ifree_bitmap sbi.nr_inodes).0 first.positive
              first.below first.was_free first.least (ground (arith, first.positive, first.taken))
      ]

  -- put_inode of an inode that was taken restores the super block information.
  pub put_inode-take_inode :
      (ino : ℕ)
      → ino < sbi.nr_inodes
      → sbi.ifree_bitmap ino ≡ true
      → 0 < sbi.nr_free_inodes
      → sbi.nr_free_inodes < 2 ^ 32
      → put_inode k (take_inode sbi ino) ino ≡ sbi
  unfolding put_inode put_free_bit
  put_inode-take_inode ino low free some_left small =
      ground (arith, bitmap_set_one laws (update sbi.ifree_bitmap ino false) ino, restored)
    where
      restored : update (update sbi.ifree_bitmap ino false) ino true ≡ sbi.ifree_bitmap
      restored = fun_ext λ j. ground (arith, ap sbi.ifree_bitmap)
