-- ===== src/Directory/Create/Steps.antt =====
-- ouichefs_create of inode.c for a regular file, and ouichefs_lookup of the name afterwards.
use lkp_project.Prelude.{
  ℕ, suc, ◌^◌, ◌≤◌, ◌<◌, ◌≢◌, true, false, ltb, Option, none, some, ◌≡◌, refl, arith, ◌∙◌, ap,
  different,
}
use lkp_project.Kernel.{Kernel}
use lkp_project.Block.{Block}
use lkp_project.State.{Fs, InodeInfo, ok, with_sbi, pure, M, on_fail, ◌>>◌, with_block, with_inode}
use lkp_project.Bitmap.{get_free_inode}
use lkp_project.Bitmap.Inodes.{take_inode}
use lkp_project.Store.{ouichefs_iget}
use lkp_project.Directory.{
  Name, DirVfs, Attached, null, an_inode, error_pointer, is_dir, is_reg, entry_inode, same_name,
  entry_name, find_name, add_entry, new_index, init_inode, ouichefs_new_inode, scrub_index,
  ouichefs_create, ouichefs_lookup, or_put_inode,
}
use lkp_project.Directory.Entries.{IsPacked}
use lkp_project.Directory.Names.{IsName}
use lkp_project.File.Outcomes.{on_fail_ok}
use lkp_project.Directory.Create.Opened.{or_put_inode_ok}

-- The block with the entries of a directory.
abbrev pub entries_of : Fs → ℕ → Block
entries_of fs dir = fs.disk (fs.inodes dir).index_block

-- Inode 0 and those of the directory and its `n` entries are in use, another one is free, and the name
-- is new.
pub record Creatable (fs : Fs) (dir n : ℕ) (name : Name) : Type 0 where
  pub word : fs.sbi.nr_inodes < 2 ^ 32
  pub reserved : fs.sbi.ifree_bitmap 0 ≡ false
  pub dir_used : fs.sbi.ifree_bitmap dir ≡ false
  pub a_free : (j : ℕ) × (j < fs.sbi.nr_inodes) × (fs.sbi.ifree_bitmap j ≡ true)
  pub inodes_left : fs.sbi.nr_free_inodes ≢ 0
  pub blocks_left : fs.sbi.nr_free_blocks ≢ 0
  pub packed : IsPacked (entries_of fs dir) n
  pub room : n < 128
  pub used : (i : ℕ) → i < n → fs.sbi.ifree_bitmap (entry_inode (entries_of fs dir) i) ≡ false
  pub unnamed :
      (i : ℕ) → i < n → same_name 28 0 (entry_name (entries_of fs dir) i) name.chars ≡ false
  pub is_name : IsName name
  pub short : name.len ≤ 27

-- What init_inode gives the inode of a regular file.
abbrev pub fresh_file : Kernel → DirVfs → InodeInfo → ℕ → ℕ → InodeInfo → InodeInfo
fresh_file k vfs ci_dir mode time ci =
    let (uid, gid, mode') = vfs.owner ci_dir mode in
    record ci {
      num_slices = 0;
      i_uid = uid;
      i_gid = gid;
      i_mode = mode';
      i_blocks = 0;
      i_size = 0;
      i_nlink = 1;
      i_ctime = k.now time;
      i_atime = k.now time;
      i_mtime = k.now time;
    }

-- What ouichefs_new_inode does after ouichefs_iget.
abbrev pub with_file : Kernel → DirVfs → ℕ → ℕ → ℕ → Fs → Fs
with_file k vfs dir mode ino fs =
    let emptied = with_inode ino (λ ci. record ci { index_block = 0 }) fs in
    with_inode ino (fresh_file k vfs (emptied.inodes dir) mode fs.calls)
      (record emptied { calls = suc fs.calls })

-- What ouichefs_create does after ouichefs_new_inode.
abbrev pub with_entry : Kernel → ℕ → Name → ℕ → ℕ → Fs → Fs
with_entry k dir name ib ino fs =
    with_inode dir (λ ci. record ci { i_mtime = k.now fs.calls; i_ctime = k.now fs.calls })
      (record (with_block ib (add_entry ino name) fs) { calls = suc fs.calls })

module _ (k : Kernel) (reads : (t b : ℕ) → k.bread t b ≡ true) (vfs : DirVfs) (dir : ℕ)
    (name : Name) (mode : ℕ) (not_dir : is_dir mode ≡ false) (regular : is_reg mode ≡ true) where
  pub new_inode_lem :
      (ino : ℕ) (fs fs' : Fs)
      → fs.sbi.nr_free_inodes ≢ 0
      → fs.sbi.nr_free_blocks ≢ 0
      → 0 < ino
      → get_free_inode k fs.sbi ≡ (ino, take_inode fs.sbi ino)
      → ouichefs_iget k vfs.iget_locked ino (with_sbi (λ _. take_inode fs.sbi ino) fs) ≡ ok ino fs'
      → ouichefs_new_inode k vfs dir mode fs ≡ ok ino (with_file k vfs dir mode ino fs')
  unfolding ouichefs_new_inode init_inode
  new_inode_lem ino fs fs' inodes_left blocks_left pos taken opened =
      rw
        (
          not_dir,
          regular,
          different fs.sbi.nr_free_inodes 0 inodes_left,
          different fs.sbi.nr_free_blocks 0 blocks_left,
          taken,
          different ino 0 (λ e. absurd (omega arith)),
          with_index,
        )
        refl
    where
      emptied : Fs
      emptied = with_inode ino (λ ci. record ci { index_block = 0 }) fs'

      starting : Fs
      starting = with_sbi (λ _. take_inode fs.sbi ino) fs

      indexed :
          (ouichefs_iget k vfs.iget_locked ino >> new_index k ino mode) starting ≡ ok tt emptied
      indexed = unfold new_index in rw (opened, not_dir) refl

      with_index :
          or_put_inode k ino (ouichefs_iget k vfs.iget_locked ino >> new_index k ino mode) starting
          ≡ ok tt emptied
      with_index =
          or_put_inode_ok k ino (ouichefs_iget k vfs.iget_locked ino >> new_index k ino mode) tt
            starting emptied indexed

  pub create_lem :
      (ino : ℕ) (fs fs' : Fs)
      → name.len ≤ 28
      → entry_inode (entries_of fs dir) 127 ≡ 0
      → ouichefs_new_inode k vfs dir mode (record fs { calls = suc fs.calls }) ≡ ok ino fs'
      → ouichefs_create k vfs dir name mode fs
        ≡ ok ino (with_entry k dir name (fs.inodes dir).index_block ino fs')
  unfolding ouichefs_create scrub_index
  create_lem ino fs fs' fits room made =
      rw (long, reads fs.calls (fs.inodes dir).index_block, room, made, not_dir) refl
    where
      long : ltb 28 name.len ≡ false
      long = ground (arith, fits)

  pub lookup_lem :
      (ino : ℕ) (fs fs' : Fs)
      → name.len ≤ 28
      → find_name 128 0 (entries_of fs dir) name ≡ some ino
      → ouichefs_iget k vfs.iget_locked ino (record fs { calls = suc fs.calls }) ≡ ok ino fs'
      → ouichefs_lookup k vfs dir name fs ≡ ok (an_inode ino) fs'
  unfolding ouichefs_lookup
  lookup_lem ino fs fs' fits found opened =
      rw (long, reads fs.calls (fs.inodes dir).index_block)
        (ap (λ o. by_entry o read) found
          ∙ on_fail_ok (ouichefs_iget k vfs.iget_locked ino) (λ i. pure (an_inode i))
              (λ e. pure (error_pointer e)) ino read fs' opened)
    where
      read : Fs
      read = record fs { calls = suc fs.calls }

      by_entry : Option ℕ → M Attached
      by_entry o = elim o [
        | none ↦ pure null
        | some ino' ↦
            on_fail (ouichefs_iget k vfs.iget_locked ino') (λ i. pure (an_inode i))
              (λ e. pure (error_pointer e))
      ]

      long : ltb 28 name.len ≡ false
      long = ground (arith, fits)
