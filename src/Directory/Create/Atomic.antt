-- ===== src/Directory/Create/Atomic.antt =====
-- ouichefs_create of inode.c, whatever the kernel's calls do.
use lkp_project.Prelude.{
  ℕ, suc, ◌<◌, ◌≢◌, true, false, ltb, ◌==◌, not, ◌&&◌, ◌||◌, ◌≡◌, refl, arith, ap, Bool-cases, inl,
  inr, different, ==_self, update, ◌+◌, if◌then◌else◌,
}
use lkp_project.Words.{u32}
use lkp_project.Kernel.{Kernel, BitmapLaws}
use lkp_project.Block.{Block}
use lkp_project.State.{
  SbInfo, Fs, with_inode, with_sbi, with_block, eio, einval, enospc, emlink, enametoolong, modify,
  pure, ◌>>=◌, ◌>>◌, M, current_time,
}
use lkp_project.Bitmap.{put_inode, put_block}
use lkp_project.Bitmap.Blocks.{BlocksCounted, put_block-take_block}
use lkp_project.Bitmap.Inodes.{
  take_inode, exhausted, allocated, get_free_inode_lem, put_inode-take_inode,
}
use lkp_project.Directory.{
  Name, DirVfs, is_dir, is_reg, entry_inode, add_entry, init_inode, ouichefs_new_inode, scrub_index,
  ouichefs_create,
}
use lkp_project.Directory.Create.Ends.{Ends, returns, fails, Ends-and_then}
use lkp_project.Directory.Create.Failures.{
  Shows, HasIndex, a_file, a_directory, Kept, NewInode, gets_inode, init_inode-HasIndex,
  take_inode-BlocksCounted,
}

-- The inode is taken, and no block in use has changed.
pub record Scrubbed (sbi : SbInfo) (disk : ℕ → Block) (ino : ℕ) (fs : Fs) : Type 0 where
  pub taken : fs.sbi.ifree_bitmap ≡ update sbi.ifree_bitmap ino false
  pub blocks : (b : ℕ) → sbi.bfree_bitmap b ≡ false → fs.disk b ≡ disk b

module _ {k : Kernel} (laws : BitmapLaws k) (vfs : DirVfs) where
  ouichefs_new_inode-NewInode :
      (dir mode : ℕ) (fs : Fs)
      → Kept fs.sbi
      → Ends
          (λ ino. NewInode mode fs.sbi fs.disk ino)
          (Shows fs.sbi fs.disk)
          (ouichefs_new_inode k vfs dir mode fs)
  unfolding ouichefs_new_inode
  ouichefs_new_inode-NewInode dir mode fs v =
      elim (Bool-cases (not (is_dir mode) && not (is_reg mode))) [
        | inl neither ↦ rw neither (fails einval fs same)
        | inr either ↦
            elim (Bool-cases ((fs.sbi.nr_free_inodes == 0) || (fs.sbi.nr_free_blocks == 0))) [
              | inl none_left ↦ rw (either, none_left) (fails enospc fs same)
              | inr left ↦ elim (get_free_inode_lem laws fs.sbi v.word v.reserved) [
                | exhausted used e ↦
                    rw (either, left, e) (fails enospc _ (record { numbers = refl; blocks = refl }))
                | allocated ino pos low free least e ↦
                    rw (either, left, e, different ino 0 (λ z. absurd (omega arith)))
                      (Ends-and_then (λ u. init_inode k vfs dir ino mode >> pure ino)
                        (gets_inode laws vfs.iget_locked ino mode fs.sbi
                          (with_sbi (λ s. take_inode fs.sbi ino) fs) v.counted refl
                          (put_inode-take_inode laws fs.sbi v.word v.reserved ino low free
                            (ground (arith, left)) v.small))
                        (λ u fs' h. inits (ground (arith, left)) ino pos low free least fs' h))
              ]
            ]
      ]
    where
      same : Shows fs.sbi fs.disk fs
      same = record { numbers = refl; blocks = refl }

      inits :
          0 < fs.sbi.nr_free_inodes
          → (ino : ℕ) → 0 < ino
          → ino < fs.sbi.nr_inodes
          → fs.sbi.ifree_bitmap ino ≡ true
          → ((j : ℕ) → j < ino → fs.sbi.ifree_bitmap j ≡ false)
          → (fs' : Fs) → HasIndex mode ino (take_inode fs.sbi ino) fs.disk fs'
          → Ends
              (λ i. NewInode mode fs.sbi fs.disk i)
              (Shows fs.sbi fs.disk)
              ((init_inode k vfs dir ino mode >> pure ino) fs')
      inits some_left ino pos low free least fs' h =
          let (fs'', run, index) =
            init_inode-HasIndex laws vfs dir ino mode (take_inode fs.sbi ino) fs.disk fs' h in
          rw run (
            returns ino fs'' (record {
              positive = pos;
              below = low;
              was_free = free;
              least = least;
              some_left = some_left;
              index = index;
            }))

  -- Where the block of a new directory cannot be read, block and inode are given back.
  scrub_index-Scrubbed :
      (ino mode : ℕ) (sbi : SbInfo) (disk : ℕ → Block) (fs : Fs)
      → BlocksCounted sbi
      → put_inode k (take_inode sbi ino) ino ≡ sbi
      → HasIndex mode ino (take_inode sbi ino) disk fs
      → Ends (λ u. Scrubbed sbi disk ino) (Shows sbi disk) (scrub_index k ino mode fs)
  unfolding scrub_index
  scrub_index-Scrubbed ino mode sbi disk fs v back (a_file file h) = rw file (
      returns tt fs (record {
        taken = ap (λ (s : SbInfo). s.ifree_bitmap) h.numbers;
        blocks = λ b used. rw h.blocks refl;
      }))
  scrub_index-Scrubbed ino mode sbi disk fs v back (a_directory d bno pos low free index h) =
      elim (Bool-cases (k.bread fs.calls bno)) [
        | inl got ↦
            rw (d, index, got)
              (returns tt _ (record {
                taken = ap (λ (s : SbInfo). s.ifree_bitmap) h.numbers;
                blocks = λ b used.
                    rw (different b bno (λ e. ground (arith, free, used, e)), h.blocks) refl;
              }))
        | inr lost ↦
            rw (d, index, lost) (fails eio _ (record { numbers = restored; blocks = h.blocks }))
      ]
    where
      restored : put_inode k (put_block k fs.sbi bno) ino ≡ sbi
      restored =
          rw
            (
              h.numbers,
              put_block-take_block laws (take_inode-BlocksCounted laws sbi ino v) bno low free,
            )
            back

-- `fs'` is `fs` with the new inode `ino` in the directory with block `ib`.
pub record Added (fs : Fs) (ib : ℕ) (name : Name) (ino : ℕ) (fs' : Fs) : Type 0 where
  pub was_free : (0 < ino) × (ino < fs.sbi.nr_inodes) × (fs.sbi.ifree_bitmap ino ≡ true)
  pub least : (j : ℕ) → j < ino → fs.sbi.ifree_bitmap j ≡ false
  pub taken : fs'.sbi.ifree_bitmap ≡ update fs.sbi.ifree_bitmap ino false
  pub room : entry_inode (fs.disk ib) 127 ≡ 0
  pub entry : fs'.disk ib ≡ add_entry ino name (fs.disk ib)
  pub blocks : (b : ℕ) → b ≢ ib → fs.sbi.bfree_bitmap b ≡ false → fs'.disk b ≡ fs.disk b

module _ {k : Kernel} (laws : BitmapLaws k) (vfs : DirVfs) where
  -- What ouichefs_create does once it has the inode.
  abbrev add_to : ℕ → ℕ → Name → ℕ → ℕ → M ℕ
  add_to dir ib name mode ino = do
    scrub_index k ino mode
    modify (with_block ib (add_entry ino name))
    time ← current_time k
    modify (
        with_inode dir (λ ci. record ci {
          i_mtime = time;
          i_ctime = time;
          i_nlink = if is_dir mode then u32 (ci.i_nlink + 1) else ci.i_nlink;
        }))
    pure ino

  add_to-Added :
      (dir ib : ℕ) (name : Name) (mode ino : ℕ) (fs fs' : Fs)
      → Kept fs.sbi
      → fs.sbi.bfree_bitmap ib ≡ false
      → entry_inode (fs.disk ib) 127 ≡ 0
      → NewInode mode fs.sbi fs.disk ino fs'
      → Ends (Added fs ib name) (Shows fs.sbi fs.disk) (add_to dir ib name mode ino fs')
  add_to-Added dir ib name mode ino fs fs' v used room h =
      Ends-and_then _
        (scrub_index-Scrubbed laws vfs ino mode fs.sbi fs.disk fs' v.counted
          (put_inode-take_inode laws fs.sbi v.word v.reserved ino h.below h.was_free h.some_left
            v.small)
          h.index)
        (λ u fs'' scrubbed. returns ino _ (record {
          was_free = (h.positive, h.below, h.was_free);
          least = h.least;
          taken = scrubbed.taken;
          room = room;
          entry = rw (==_self ib) (ap (add_entry ino name) (scrubbed.blocks ib used));
          blocks = λ b other in_use. rw (different b ib other) (scrubbed.blocks b in_use);
        }))

  -- ouichefs_create of a file or a directory, whichever of the kernel's calls fail, on a partition whose
  -- free blocks are counted and whose inode 0 and directory block are in use: it ends, and either it
  -- reports an error, and the super block information and every block are as they were, or it takes the
  -- least free inode and adds its entry to a directory with room, and no other block in use changes.
  pub ouichefs_create-Ends :
      (dir : ℕ) (name : Name) (mode : ℕ) (fs : Fs)
      → Kept fs.sbi
      → fs.sbi.bfree_bitmap (fs.inodes dir).index_block ≡ false
      → Ends
          (Added fs (fs.inodes dir).index_block name)
          (Shows fs.sbi fs.disk)
          (ouichefs_create k vfs dir name mode fs)
  unfolding ouichefs_create
  ouichefs_create-Ends dir name mode fs v used = elim (Bool-cases (ltb 28 name.len)) [
    | inl long ↦ rw long (fails enametoolong fs same)
    | inr short ↦ elim (Bool-cases (k.bread fs.calls ib)) [
      | inr lost ↦ rw (short, lost) (fails eio read same)
      | inl got ↦ elim (Bool-cases (entry_inode (fs.disk ib) 127 == 0)) [
        | inr full ↦ rw (short, got, full) (fails emlink read same)
        | inl room ↦
            rw (short, got, room)
              (Ends-and_then _ (ouichefs_new_inode-NewInode laws vfs dir mode read v) (λ ino fs' h.
                add_to-Added dir ib name mode ino fs fs' v used (ground (arith, room)) h))
      ]
    ]
  ]
    where
      ib : ℕ
      ib = (fs.inodes dir).index_block

      read : Fs
      read = record fs { calls = suc fs.calls }

      same : {calls : ℕ} → Shows fs.sbi fs.disk (record fs { calls = calls })
      same = record { numbers = refl; blocks = refl }
