-- ===== src/Directory/Create/Files.antt =====
-- A regular file that ouichefs_create of inode.c made, and ouichefs_lookup of its name.
use lkp_project.Prelude.{
  ℕ, suc, ◌+◌, ◌<◌, ◌≢◌, true, false, some, ◌≡◌, refl, arith, ◌∙◌, ap, sym, different, ==_self,
}
use lkp_project.Kernel.{Kernel, BitmapLaws}
use lkp_project.State.{SbInfo, Fs, InodeInfo, ok, with_sbi}
use lkp_project.Bitmap.{get_free_inode}
use lkp_project.Bitmap.Inodes.{take_inode, exhausted, allocated, get_free_inode_lem}
use lkp_project.Store.{no_inode, ouichefs_iget}
use lkp_project.Directory.{
  an_inode, Name, DirVfs, is_dir, is_reg, find_name, add_entry, ouichefs_create, ouichefs_lookup,
}
use lkp_project.Directory.Entries.{IsPacked}
use lkp_project.Directory.Names.{IsNew, find_name-add_entry}
use lkp_project.Directory.Create.Opened.{Opened, ouichefs_iget-Opened}
use lkp_project.Directory.Create.Steps.{
  entries_of, Creatable, fresh_file, with_file, with_entry, new_inode_lem, create_lem, lookup_lem,
}

-- `fs'` is `fs` with the new regular file `ino` in a directory that had `n` entries.
pub record Created (k : Kernel) (vfs : DirVfs) (fs : Fs) (dir n : ℕ) (name : Name) (mode ino : ℕ)
    (fs' : Fs) : Type 0 where
  pub was_free : (0 < ino) × (ino < fs.sbi.nr_inodes) × (fs.sbi.ifree_bitmap ino ≡ true)
  pub least : (j : ℕ) → j < ino → fs.sbi.ifree_bitmap j ≡ false
  pub taken : fs'.sbi ≡ take_inode fs.sbi ino
  pub index : (fs'.inodes dir).index_block ≡ (fs.inodes dir).index_block
  pub entries : entries_of fs' dir ≡ add_entry ino name (entries_of fs dir)
  pub packed : IsPacked (entries_of fs' dir) (n + 1)
  pub blocks : (b : ℕ) → b ≢ (fs.inodes dir).index_block → fs'.disk b ≡ fs.disk b
  pub others : (i : ℕ) → i ≢ ino → i ≢ dir → fs'.inodes i ≡ fs.inodes i
  pub size : (fs'.inodes ino).i_size ≡ 0
  pub no_blocks : ((fs'.inodes ino).i_blocks ≡ 0) × ((fs'.inodes ino).index_block ≡ 0)
  pub type : (fs'.inodes ino).i_mode ≡ (vfs.owner (fs.inodes dir) mode).2
  pub links : ((fs'.inodes ino).i_nlink ≡ 1) × ((fs'.inodes dir).i_nlink ≡ (fs.inodes dir).i_nlink)
  pub found : (fs'' : Fs) × (ouichefs_lookup k vfs dir name fs' ≡ ok (an_inode ino) fs'')

module _ (k : Kernel) (vfs : DirVfs) (dir n : ℕ) (name : Name) (mode ino : ℕ) (fs fs2 : Fs)
    (v : Creatable fs dir n name) (free : fs.sbi.ifree_bitmap ino ≡ true)
    (same : Opened ino
      (with_sbi (λ _. take_inode fs.sbi ino) (record fs { calls = suc fs.calls }))
      fs2) where
  abbrev ib : ℕ
  ib = (fs.inodes dir).index_block

  last : Fs
  last = with_entry k dir name ib ino (with_file k vfs dir mode ino fs2)

  dir_apart : dir ≢ ino
  dir_apart e = ground (arith, v.dir_used, free, e)

  last_dir :
      last.inodes dir
      ≡ record (fs.inodes dir) { i_mtime = k.now (suc fs2.calls); i_ctime = k.now (suc fs2.calls) }
  last_dir =
      unfold last in rw (==_self dir, different dir ino dir_apart, same.others dir dir_apart) refl

  last_block : last.disk ib ≡ add_entry ino name (fs.disk ib)
  last_block = unfold last in rw (==_self ib, same.disk) refl

  last_entries : entries_of last dir ≡ add_entry ino name (fs.disk ib)
  last_entries = ap (λ (ci : InodeInfo). last.disk ci.index_block) last_dir ∙ last_block

  last_file :
      last.inodes ino
      ≡ fresh_file k vfs
          (fs.inodes dir)
          mode
          fs2.calls
          (record (fs2.inodes ino) { index_block = 0 })
  last_file =
      unfold last in
      rw
        (
          different ino dir (λ e. dir_apart (sym e)),
          ==_self ino,
          different dir ino dir_apart,
          same.others dir dir_apart,
        )
        refl

  last_other : (i : ℕ) → i ≢ ino → i ≢ dir → last.inodes i ≡ fs.inodes i
  last_other i h g = unfold last in rw (different i dir g, different i ino h, same.others i h) refl

  new_entry : 0 < ino → ino < fs.sbi.nr_inodes → IsNew (fs.disk ib) n ino name
  new_entry pos low = record {
    number = (λ e. absurd (omega arith), omega (arith, v.word));
    unused = λ i h e. ground (arith, v.used i h, free, e);
    unnamed = v.unnamed;
  }

  last-Created :
      0 < ino
      → ino < fs.sbi.nr_inodes
      → ((j : ℕ) → j < ino → fs.sbi.ifree_bitmap j ≡ false)
      → (fs' : Fs) × (ouichefs_lookup k vfs dir name last ≡ ok (an_inode ino) fs')
      → Created k vfs fs dir n name mode ino last
  last-Created pos low least found = record {
    was_free = (pos, low, free);
    least = least;
    taken = unfold last in same.sbi;
    index = ap (λ (ci : InodeInfo). ci.index_block) last_dir;
    entries = last_entries;
    packed =
        rw last_entries
          (find_name-add_entry (fs.disk ib) n ino name v.room v.packed (new_entry pos low) v.is_name
            v.short).1;
    blocks = λ b h. unfold last in rw (different b ib h, same.disk) refl;
    others = last_other;
    size = ap (λ (ci : InodeInfo). ci.i_size) last_file;
    no_blocks = (
      ap (λ (ci : InodeInfo). ci.i_blocks) last_file,
      ap (λ (ci : InodeInfo). ci.index_block) last_file,
    );
    type = ap (λ (ci : InodeInfo). ci.i_mode) last_file;
    links = (
      ap (λ (ci : InodeInfo). ci.i_nlink) last_file,
      ap (λ (ci : InodeInfo). ci.i_nlink) last_dir,
    );
    found = found;
  }

  finds : 0 < ino → ino < fs.sbi.nr_inodes → find_name 128 0 (entries_of last dir) name ≡ some ino
  finds pos low =
      rw last_entries
        (find_name-add_entry (fs.disk ib) n ino name v.room v.packed (new_entry pos low) v.is_name
          v.short).0

  last_inodes : last.sbi.nr_inodes ≡ fs.sbi.nr_inodes
  last_inodes = unfold last in ap (λ (sbi : SbInfo). sbi.nr_inodes) same.sbi

  creates :
      (reads : (t b : ℕ) → k.bread t b ≡ true)
      → is_dir mode ≡ false
      → is_reg mode ≡ true
      → 0 < ino
      → get_free_inode k fs.sbi ≡ (ino, take_inode fs.sbi ino)
      → ouichefs_iget k vfs.iget_locked ino
          (with_sbi (λ _. take_inode fs.sbi ino) (record fs { calls = suc fs.calls }))
        ≡ ok ino fs2
      → ouichefs_create k vfs dir name mode fs ≡ ok ino last
  creates reads not_dir regular pos out opened =
      unfold last in
      create_lem k reads vfs dir name mode not_dir regular ino fs (with_file k vfs dir mode ino fs2)
        (omega (arith, v.short)) (v.packed.free 127 (omega (arith, v.room)) (omega arith))
        (new_inode_lem k reads vfs dir name mode not_dir regular ino
          (record fs { calls = suc fs.calls }) fs2 v.inodes_left v.blocks_left pos out opened)

module _ {k : Kernel} (laws : BitmapLaws k) (reads : (t b : ℕ) → k.bread t b ≡ true) (vfs : DirVfs)
    (gives : (t i : ℕ) → vfs.iget_locked t i ≢ no_inode) where
  -- Creating a regular file with a new name of at most 27 bytes in a packed directory with room, when an
  -- inode is free, the VFS gives inodes and every read succeeds: ouichefs_create returns the least free
  -- inode, which is then taken and belongs to an empty file, the directory is packed with one entry
  -- more, all other blocks and inodes stay, and ouichefs_lookup of the name gives that inode to d_add.
  pub ouichefs_create-Created :
      (dir n : ℕ) (name : Name) (mode : ℕ) (fs : Fs)
      → is_dir mode ≡ false
      → is_reg mode ≡ true
      → Creatable fs dir n name
      → (ino : ℕ) × (fs' : Fs) × (ouichefs_create k vfs dir name mode fs ≡ ok ino fs')
        × Created k vfs fs dir n name mode ino fs'
  ouichefs_create-Created dir n name mode fs not_dir regular v =
      elim (get_free_inode_lem laws fs.sbi v.word v.reserved) [
        | exhausted used e ↦ absurd (ground (arith, used v.a_free.0 v.a_free.1, v.a_free.2))
        | allocated ino pos low free least out ↦
            let (fs2, opened, same) =
              ouichefs_iget-Opened k reads vfs.iget_locked gives ino
                (with_sbi (λ _. take_inode fs.sbi ino) (record fs { calls = suc fs.calls })) low in
            let fs' : Fs = last k vfs dir n name mode ino fs fs2 v free same in
            let inside : ino < fs'.sbi.nr_inodes =
              omega (arith, low, last_inodes k vfs dir n name mode ino fs fs2 v free same) in
            let (fs3, again, kept) =
              ouichefs_iget-Opened k reads vfs.iget_locked gives ino
                (record fs' { calls = suc fs'.calls }) inside in
            (
              ino,
              fs',
              creates k vfs dir n name mode ino fs fs2 v free same reads not_dir regular pos out
                  opened,
              last-Created k vfs dir n name mode ino fs fs2 v free same pos low least (
                fs3,
                lookup_lem k reads vfs dir name mode not_dir regular ino fs' fs3
                    (omega (arith, v.short))
                    (finds k vfs dir n name mode ino fs fs2 v free same pos low) again,
              ),
            )
      ]
