-- ===== src/Directory/Rename/Halves.antt =====
-- The two halves of a rename into another directory (ouichefs_rename, inode.c), and what is to be
-- shown of it.
use lkp_project.Prelude.{
  ℕ, suc, ◌+◌, ◌-◌, ◌*◌, ◌≤◌, ◌<◌, ◌≢◌, true, if◌then◌else◌, none, some, ◌≡◌, refl,
}
use lkp_project.Words.{u32, sub32}
use lkp_project.Kernel.{Kernel}
use lkp_project.Block.{set_u32}
use lkp_project.State.{Fs, Run, ok, panic, with_block, with_inode}
use lkp_project.Directory.{Name, is_dir, entry_inode, find_name, set_name, remove_entry, take_out}
use lkp_project.Directory.Entries.{IsPacked, old_place}
use lkp_project.Directory.Names.{IsName, IsNew}
use lkp_project.Directory.Rename.{search_old, unlink_found, unlink_old}
use lkp_project.Directory.Rename.Scan.{IsUnnamed}

abbrev pub index_of : Fs → ℕ → ℕ
index_of fs dir = (fs.inodes dir).index_block

-- Entry `p` of a directory with `n` entries is to move, under a new name of at most 27 bytes, to
-- another directory, which has room behind its `m` entries and neither the inode nor the name.
pub record Movable (fs : Fs) (old_dir ino new_dir : ℕ) (new_name : Name) (n p m : ℕ) : Type 0 where
  pub directories : old_dir ≢ new_dir
  pub blocks : index_of fs old_dir ≢ index_of fs new_dir
  pub old_packed : IsPacked (fs.disk (index_of fs old_dir)) n
  pub below : p < n
  pub entry : entry_inode (fs.disk (index_of fs old_dir)) p ≡ ino
  pub new_packed : IsPacked (fs.disk (index_of fs new_dir)) m
  pub room : m < 128
  pub is_new : IsNew (fs.disk (index_of fs new_dir)) m ino new_name
  pub unnamed : IsUnnamed (fs.disk (index_of fs new_dir)) new_name
  pub is_name : IsName new_name
  pub short : new_name.len ≤ 27

-- The name leads to the inode in the new directory, the entry is gone from the old one, whose other
-- entries keep their order, and no other block changed.
pub record Moved (fs fs' : Fs) (old_dir ino new_dir : ℕ) (new_name : Name) (n p m : ℕ)
    : Type 0 where
  pub found : find_name 128 0 (fs'.disk (index_of fs new_dir)) new_name ≡ some ino
  pub new_packed : IsPacked (fs'.disk (index_of fs new_dir)) (m + 1)
  pub old_packed : IsPacked (fs'.disk (index_of fs old_dir)) (n - 1)
  pub old_kept :
      (i c : ℕ)
      → i < n - 1
      → c < 32
      → fs'.disk (index_of fs old_dir) (32 * i + c)
        ≡ fs.disk (index_of fs old_dir) (32 * old_place p i + c)
  pub others : (b : ℕ) → b ≢ index_of fs old_dir → b ≢ index_of fs new_dir → fs'.disk b ≡ fs.disk b
  pub sbi : fs'.sbi ≡ fs.sbi

-- Where the old directory has a free entry, the file is moved. Where it is full, the search goes past
-- its block.
pub data RenameEnds (fs : Fs) (old_dir ino new_dir : ℕ) (new_name : Name) (n p m : ℕ)
    : Run (Unit {0}) → Type 0 where
  moved :
      (fs' : Fs)
      → n < 128
      → Moved fs fs' old_dir ino new_dir new_name n p m
      → RenameEnds fs old_dir ino new_dir new_name n p m (ok tt fs')
  passed_end : (fs' : Fs) → n ≡ 128 → RenameEnds fs old_dir ino new_dir new_name n p m (panic fs')

module _ (k : Kernel) (reads : (t b : ℕ) → k.bread t b ≡ true) where
  -- The states after the two halves.
  unfoldable pub linked : ℕ → ℕ → Name → ℕ → Fs → Fs
  linked new_dir m new_name ino fs =
      with_inode new_dir
        (λ ci. record ci {
          i_atime = k.now fs.calls;
          i_ctime = k.now fs.calls;
          i_mtime = k.now fs.calls;
          i_nlink = if is_dir (fs.inodes ino).i_mode then u32 (ci.i_nlink + 1) else ci.i_nlink;
        })
        (record (with_block (index_of fs new_dir)
          (λ b. set_name (set_u32 b (32 * m) ino) m new_name) fs) { calls = suc fs.calls })

  unfoldable pub unlinked : ℕ → ℕ → ℕ → ℕ → Fs → Fs
  unlinked old_dir ino p n fs =
      with_inode old_dir
        (λ ci. record ci {
          i_ctime = k.now (suc fs.calls);
          i_mtime = k.now (suc fs.calls);
          i_nlink = if is_dir (fs.inodes ino).i_mode then sub32 ci.i_nlink 1 else ci.i_nlink;
        })
        (record (with_block (index_of fs old_dir) (remove_entry p n) fs) {
          calls = suc (suc fs.calls);
        })

  pub unlink_old_lem :
      (old_dir ino p n : ℕ) (fs : Fs)
      → search_old 128 0 (fs.disk (index_of fs old_dir)) ino none ≡ some (some p, n)
      → unlink_old k old_dir ino fs ≡ ok tt (unlinked old_dir ino p n fs)
  unfolding unlink_old unlinked unlink_found take_out
  unlink_old_lem old_dir ino p n fs found = rw (reads fs.calls (index_of fs old_dir), found) refl

  pub unlink_old_full :
      (old_dir ino : ℕ) (fs : Fs)
      → search_old 128 0 (fs.disk (index_of fs old_dir)) ino none ≡ none
      → unlink_old k old_dir ino fs ≡ panic (record fs { calls = suc fs.calls })
  unfolding unlink_old unlink_found
  unlink_old_full old_dir ino fs found = rw (reads fs.calls (index_of fs old_dir), found) refl
