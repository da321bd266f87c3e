-- ===== src/Directory/Unlink/Undone.antt =====
-- ouichefs_unlink of a file that ouichefs_create made.
use lkp_project.Prelude.{ℕ, ◌+◌, ◌-◌, ◌*◌, ◌^◌, ◌<◌, ◌≢◌, true, false, ◌≡◌, arith, ap, ◌∙◌, sym}
use lkp_project.Kernel.{Kernel, BitmapLaws}
use lkp_project.State.{Fs, InodeInfo, ok}
use lkp_project.Bitmap.{put_inode}
use lkp_project.Bitmap.Inodes.{put_inode-take_inode}
use lkp_project.Store.{no_inode}
use lkp_project.Directory.{
  Name, DirVfs, is_dir, is_reg, entry_inode, ouichefs_create, ouichefs_unlink,
}
use lkp_project.Directory.Entries.{IsPacked, old_place}
use lkp_project.Directory.Names.{add_entry_last, add_entry_other}
use lkp_project.Directory.Create.Steps.{entries_of, Creatable}
use lkp_project.Directory.Create.Files.{Created, ouichefs_create-Created}
use lkp_project.Directory.Unlink.Empty.{IsEmptyFile, Unlinked, ouichefs_unlink-Unlinked}

-- `fs'` is `fs` again, but for the inode `ino` in memory, which is free, the directory's times, and the
-- bytes of its free entries.
pub record Undone (fs : Fs) (dir n ino : ℕ) (fs' : Fs) : Type 0 where
  pub numbers : fs'.sbi ≡ fs.sbi
  pub packed : IsPacked (entries_of fs' dir) n
  pub kept :
      (i c : ℕ) → i < n → c < 32 → entries_of fs' dir (32 * i + c) ≡ entries_of fs dir (32 * i + c)
  pub blocks : (b : ℕ) → b ≢ (fs.inodes dir).index_block → fs'.disk b ≡ fs.disk b
  pub others : (i : ℕ) → i ≢ ino → i ≢ dir → fs'.inodes i ≡ fs.inodes i

module _ {k : Kernel} (laws : BitmapLaws k) (reads : (t b : ℕ) → k.bread t b ≡ true) (vfs : DirVfs)
    (gives : (t i : ℕ) → vfs.iget_locked t i ≢ no_inode)
    (keeps : (ci : InodeInfo) (mode : ℕ) → is_dir (vfs.owner ci mode).2 ≡ is_dir mode) where
  undone :
      (dir n : ℕ) (name : Name) (mode ino : ℕ) (fs fs' fs'' : Fs)
      → Creatable fs dir n name
      → fs.sbi.nr_free_inodes < 2 ^ 32
      → Created k vfs fs dir n name mode ino fs'
      → Unlinked k fs' dir (n + 1) n ino fs''
      → Undone fs dir n ino fs''
  undone dir n name mode ino fs fs' fs'' v small made gone = record {
    numbers =
        gone.numbers
        ∙ ap (λ s. put_inode k s ino) made.taken
        ∙ put_inode-take_inode laws fs.sbi v.word v.reserved ino made.was_free.1 made.was_free.2
            (ground (arith, v.inodes_left)) small;
    packed = rw (sym less) gone.packed;
    kept = λ i c h low.
        gone.kept i c (omega (arith, h)) low
        ∙ ap (λ j. entries_of fs' dir (32 * j + c)) (place i h)
        ∙ ap (λ b. b (32 * i + c)) made.entries
        ∙ add_entry_other (entries_of fs dir) n ino name v.room v.packed i c
            (λ e. absurd (omega (arith, h))) low;
    blocks = λ b h. gone.blocks b (λ e. h (e ∙ made.index)) ∙ made.blocks b h;
    others = λ i h g. gone.others i h g ∙ made.others i h g;
  }
    where
      less : n + 1 - 1 ≡ n
      less = omega arith

      place : (i : ℕ) → i < n → old_place n i ≡ i
      place i h = ground (arith, h)

  -- Creating a regular file with a new name of at most 27 bytes in a packed directory with room and
  -- unlinking it again, when an inode is free, the VFS gives inodes and keeps the type of a mode, and
  -- every read succeeds: both succeed, the super block information, with both bitmaps and their
  -- counters, is as before, the directory has the entries it had, in their order, and all other blocks
  -- and inodes stay.
  pub ouichefs_unlink-ouichefs_create :
      (fuel dir n : ℕ) (name : Name) (mode : ℕ) (fs : Fs)
      → is_dir mode ≡ false
      → is_reg mode ≡ true
      → Creatable fs dir n name
      → fs.sbi.nr_free_inodes < 2 ^ 32
      → (ino : ℕ) × (fs' : Fs) × (fs'' : Fs) × (ouichefs_create k vfs dir name mode fs ≡ ok ino fs')
        × (ouichefs_unlink k fuel dir ino fs' ≡ ok tt fs'')
        × Undone fs dir n ino fs''
  ouichefs_unlink-ouichefs_create fuel dir n name mode fs not_dir regular v small =
      let (ino, fs', creates, made) =
        ouichefs_create-Created laws reads vfs gives dir n name mode fs not_dir regular v in
      let apart : dir ≢ ino = λ e. ground (arith, v.dir_used, made.was_free.2, e) in
      let empty : IsEmptyFile (fs'.inodes ino) = record {
        type = rw made.type (keeps (fs.inodes dir) mode ∙ not_dir);
        no_blocks = made.no_blocks.0;
        no_index = made.no_blocks.1;
      } in
      let here : entry_inode (entries_of fs' dir) n ≡ ino =
        ap (λ b. entry_inode b n) made.entries
        ∙ add_entry_last (entries_of fs dir) n ino name v.room v.packed
            (omega (arith, made.was_free.1, v.word)) in
      let (fs'', unlinks, gone) =
        ouichefs_unlink-Unlinked k reads fuel dir ino apart (n + 1) n fs' empty made.packed
          (omega arith) here in
      (ino, fs', fs'', creates, unlinks, undone dir n name mode ino fs fs' fs'' v small made gone)
