-- ===== src/File/Failures.antt =====
-- What a write of a small file leaves when a step of it fails.
use lkp_project.File.SmallReads.{IsSmall}
use lkp_project.File.Outcomes.{on_fail-fail}
use lkp_project.File.InPlace.{start_of, nonzero_index}
use lkp_project.Slice.{small_file_get_slice}
use lkp_project.Prelude.{
  ap, ◌||◌, suc, ◌≢◌, max, update, ==_self, ◌==◌, ℕ, ◌+◌, ◌-◌, ◌^◌, ◌≤◌, ◌<◌, true, false, max, ◌≡◌,
  arith, refl,
}
use lkp_project.Kernel.{Kernel, BitmapLaws}
use lkp_project.State.{InodeInfo, enomem, enospc, Fs, fail, panic, with_sbi}
use lkp_project.Slice.{
  small_file_get_slice, small_file_get_bno, slices_needed, allocate_and_init_slice_block,
}
use lkp_project.Slice.Allocate.{
  no_block, too_far, unreadable, allocates, allocate_and_init_slice_block_lem,
}
use lkp_project.Bitmap.Blocks.{BlocksCounted, give_block}
use lkp_project.File.SmallWrites.{
  rewrite_small, stage_rewrite, first_sliced_block, write_small_new, write_small_file,
}
use lkp_project.File.Writes.{is_new, will_be_small, custom_write_iter}

module _ {k : Kernel} (laws : BitmapLaws k) (fuel ino : ℕ) (fs : Fs)
    (v : BlocksCounted fs.sbi) where
  allocation_fails :
      ((j : ℕ) → j < fs.sbi.nr_blocks → fs.sbi.bfree_bitmap j ≡ false)
      → allocate_and_init_slice_block k fs ≡ fail enospc (with_sbi (λ sbi. give_block sbi 0) fs)
  allocation_fails used = elim (allocate_and_init_slice_block_lem laws v) [
    | no_block none e ↦ e
    | too_far bno far lt free e ↦ absurd (ground (arith, used bno lt))
    | unreadable bno lost lt free e ↦ absurd (ground (arith, used bno lt))
    | allocates bno fs' pos lt near free sliced e ↦ absurd (ground (arith, used bno lt))
  ]

  -- The state when the kernel stops: block 0 is free, and an errno stands for a block.
  abbrev full_state : Fs
  full_state = with_sbi (λ sbi. record (give_block sbi 0) { s_free_sliced_blocks = 2 ^ 32 - 28 }) fs

  unset : (n : ℕ) → n ≡ 0 → (n == 0) ≡ true
  unset n h = ground arith

  first_sliced_block-full :
      fs.sbi.s_free_sliced_blocks ≡ 0
      → ((j : ℕ) → j < fs.sbi.nr_blocks → fs.sbi.bfree_bitmap j ≡ false)
      → first_sliced_block k fs ≡ panic full_state
  unfolding first_sliced_block
  first_sliced_block-full none used =
      rw (unset fs.sbi.s_free_sliced_blocks none)
        (on_fail-fail (allocate_and_init_slice_block k) _ _ (allocation_fails used))

  -- The first small write on a partition without sliced blocks and without free blocks follows a
  -- null pointer: the error number is taken for a block number. Block 0 is marked free by then.
  pub custom_write_iter-full :
      (fs.inodes ino).index_block ≡ 0
      → fs.sbi.s_free_sliced_blocks ≡ 0
      → max (fs.io.ki_pos + fs.io.count) (fs.inodes ino).i_size ≤ 3968
      → ((j : ℕ) → j < fs.sbi.nr_blocks → fs.sbi.bfree_bitmap j ≡ false)
      → custom_write_iter k fuel ino fs
        ≡ panic
            (with_sbi (λ sbi. record (give_block sbi 0) { s_free_sliced_blocks = 2 ^ 32 - 28 }) fs)
  unfolding custom_write_iter write_small_file write_small_new
  custom_write_iter-full new none fits used =
      rw
        (
          is_new_file,
          will_fit,
          unset (fs.inodes ino).index_block new,
          first_sliced_block-full none used,
        )
        refl
    where
      is_new_file : is_new (fs.inodes ino).index_block ≡ true
      is_new_file = unfold is_new in ground arith

      will_fit : will_be_small (max (fs.io.ki_pos + fs.io.count) (fs.inodes ino).i_size) ≡ true
      will_fit = unfold will_be_small in ground arith

module _ (k : Kernel) where
  -- When a small file is rewritten because its number of slices changes, and kmalloc gives no buffer
  -- for the new contents, the write fails with ENOMEM and the file has lost its slices and its
  -- size: they are not restored on this path.
  pub write_small_file-enomem :
      (fuel ino : ℕ) (fs : Fs)
      → IsSmall (fs.inodes ino)
      → let pos = start_of (fs.inodes ino) fs in
        let size = max (pos + fs.io.count) (fs.inodes ino).i_size in
        (fs.inodes ino).num_slices ≢ 0
        → (fs.inodes ino).num_slices ≢ slices_needed size
        → 0 < pos
        → k.bread fs.calls (small_file_get_bno (fs.inodes ino).index_block) ≡ true
        → k.kmalloc (suc fs.calls) size ≡ false
        → (fs' : Fs) × (write_small_file k fuel ino fs ≡ fail enomem fs')
          × ((fs'.inodes ino).index_block ≡ 0)
          × ((fs'.inodes ino).i_size ≡ 0)
          × (fs'.disk ≡ fs.disk)
          × (fs'.sbi ≡ fs.sbi)
  unfolding write_small_file rewrite_small stage_rewrite
  write_small_file-enomem fuel ino fs small some changes inside got none = (
    after,
    rw
        (
          nonzero_index (fs.inodes ino).index_block small.block,
          valid,
          got,
          different _ _ changes,
          different (start_of (fs.inodes ino) fs) 0 (λ e. absurd (omega arith)),
          none,
        )
        refl,
    ap (λ ci. ci.index_block) erased,
    ap (λ ci. ci.i_size) erased,
    refl,
    refl,
  )
    where
      empty : InodeInfo
      empty = record (fs.inodes ino) { index_block = 0; i_size = 0 }

      after : Fs
      after = record fs { inodes = update fs.inodes ino empty; calls = suc (suc fs.calls) }

      erased : after.inodes ino ≡ empty
      erased = rw (==_self ino) refl

      different : (a b : ℕ) → a ≢ b → (a == b) ≡ false
      different a b h = ground arith

      valid :
          ((fs.inodes ino).num_slices == 0
            || (small_file_get_bno (fs.inodes ino).index_block == 0
                || small_file_get_slice (fs.inodes ino).index_block == 0))
          ≡ false
      valid = ground (arith, some, small.block, small.slice)
