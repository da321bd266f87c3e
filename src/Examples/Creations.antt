-- ===== src/Examples/Creations.antt =====
-- A new file and a new directory in a directory with one entry.
use lkp_project.Prelude.{ℕ, ◌&&◌, ltb, leb, ◌≡◌, refl, arith, update, count}
use lkp_project.State.{Fs, ok}
use lkp_project.Store.{is_fresh}
use lkp_project.Directory.{DirVfs, ouichefs_create, ouichefs_unlink}
use lkp_project.Directory.Unlink.Undone.{Undone, ouichefs_unlink-ouichefs_create}
use lkp_project.Directory.Create.Steps.{Creatable}
use lkp_project.Directory.Create.Files.{Created, ouichefs_create-Created}
use lkp_project.Directory.Create.Ends.{Ends}
use lkp_project.Directory.Create.Failures.{Shows, Kept}
use lkp_project.Directory.Create.Atomic.{Added, ouichefs_create-Ends}
use lkp_project.Examples.Host.{host, host_laws, small_fs, small_sbi, blank_inode}
use lkp_project.Examples.Directories.{
  letters, letters-IsName, letters_unnamed, one_entry, one_entry-IsPacked, only_entry,
}

-- Inode 1 is a directory with block 5, which is in use, as inode 7 is.
abbrev home_fs : Fs
home_fs = record small_fs {
  sbi = record small_sbi {
    nr_free_inodes = 5;
    nr_free_blocks = 2;
    ifree_bitmap = λ j. leb 2 j && ltb j 7;
    bfree_bitmap = λ j. leb 6 j;
  };
  disk = update small_fs.disk 5 one_entry;
  inodes = update small_fs.inodes 1 (record blank_inode { i_mode = 16893; index_block = 5 });
}

abbrev plain_vfs : DirVfs
plain_vfs = record { iget_locked = λ _ _. is_fresh; owner = λ ci mode. (0, 0, mode) }

home_fs-Creatable : Creatable home_fs 1 1 (letters 5)
home_fs-Creatable = record {
  word = omega arith;
  reserved = refl;
  dir_used = refl;
  a_free = (2, omega arith, refl);
  inodes_left = λ e. absurd (omega arith);
  blocks_left = λ e. absurd (omega arith);
  packed = one_entry-IsPacked;
  room = omega arith;
  used = λ i h. ground (arith, only_entry i h);
  unnamed = letters_unnamed 5 (omega arith);
  is_name = letters-IsName 5;
  short = omega arith;
}

ouichefs_create-Created_example :
    (ino : ℕ) × (fs' : Fs) × (ouichefs_create host plain_vfs 1 (letters 5) 33188 home_fs
      ≡ ok ino fs')
    × Created host plain_vfs home_fs 1 1 (letters 5) 33188 ino fs'
ouichefs_create-Created_example =
    ouichefs_create-Created host_laws (λ t b. refl) plain_vfs (λ t i e. cc e) 1 1 (letters 5) 33188
      home_fs refl refl home_fs-Creatable

ouichefs_unlink-ouichefs_create_example :
    (ino : ℕ) × (fs' : Fs) × (fs'' : Fs) × (ouichefs_create host plain_vfs 1
        (letters 5)
        33188
        home_fs
      ≡ ok ino fs')
    × (ouichefs_unlink host 1 1 ino fs' ≡ ok tt fs'')
    × Undone home_fs 1 1 ino fs''
ouichefs_unlink-ouichefs_create_example =
    ouichefs_unlink-ouichefs_create host_laws (λ t b. refl) plain_vfs (λ t i e. cc e)
      (λ ci mode. refl) 1 1 1 (letters 5) 33188 home_fs refl refl home_fs-Creatable (omega arith)

home_fs-Kept : Kept home_fs.sbi
unfolding count
home_fs-Kept = record {
  counted = record { word = omega arith; reserved = refl; counted = refl };
  word = omega arith;
  reserved = refl;
  small = omega arith;
}

ouichefs_create-Ends_example :
    Ends
      (Added home_fs 5 (letters 5))
      (Shows home_fs.sbi home_fs.disk)
      (ouichefs_create host plain_vfs 1 (letters 5) 16877 home_fs)
ouichefs_create-Ends_example =
    ouichefs_create-Ends host_laws plain_vfs 1 (letters 5) 16877 home_fs home_fs-Kept refl
