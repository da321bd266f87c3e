-- ===== src/Directory/Rename.antt =====
-- inode.c: ouichefs_rename.
pub mod Scan
pub mod Halves
pub mod Moves
use lkp_project.Prelude.{
  ℕ, zero, suc, ◌+◌, ◌-◌, ◌*◌, ◌/◌, ◌%◌, Bool, true, false, not, ◌&&◌, ltb, ◌==◌, if◌then◌else◌,
  Option, none, some,
}
use lkp_project.Words.{u32, sub32}
use lkp_project.Kernel.{Kernel}
use lkp_project.Block.{Block, set_u32}
use lkp_project.State.{
  eio, einval, eexist, enametoolong, emlink, panic, M, pure, throw, ◌>>=◌, ◌>>◌, gets, modify,
  with_block, with_inode, sb_bread, current_time, filename_len, max_subfiles,
}
use lkp_project.Directory.{Name, is_dir, entry_inode, entry_name, same_name, set_name, take_out}

-- What the first loop knows: the last entry with the old name, when both directories are the same,
-- and the first free entry.
pub record Places : Type 0 where
  pub f_pos : Option ℕ
  pub new_pos : Option ℕ

abbrev pub or_else : Option ℕ → ℕ → Option ℕ
or_else none i = some i
or_else (some j) i = some j

-- The first loop, from entry `i` on; nothing where an entry has the new name.
unfoldable pub scan_new : Bool → Name → Name → ℕ → ℕ → Block → Places → Option Places
scan_new same old_name new_name zero i b p = some p
scan_new same old_name new_name (suc rounds) i b p =
    let named =
      if same && same_name filename_len 0 (entry_name b i) old_name.chars
      then some i
      else p.f_pos in
    let free = if entry_inode b i == 0 then or_else p.new_pos i else p.new_pos in
    let rest =
      scan_new same old_name new_name rounds (i + 1) b (record { f_pos = named; new_pos = free }) in
    if same_name filename_len 0 (entry_name b i) new_name.chars then none else rest

-- The second loop, `for (i = 0; OUICHEFS_MAX_SUBFILES; i++)`, which ends only at a free entry. It has
-- no result where it passes the end of the block.
unfoldable pub search_old : ℕ → ℕ → Block → ℕ → Option ℕ → Option (Option ℕ × ℕ)
search_old zero i b ino f_id = none
search_old (suc rounds) i b ino f_id =
    let found = search_old rounds (i + 1) b ino (some i) in
    let rest = search_old rounds (i + 1) b ino f_id in
    if entry_inode b i == ino
    then found
    else (if entry_inode b i == 0 then some (f_id, i) else rest)

-- RENAME_EXCHANGE | RENAME_WHITEOUT
abbrev pub is_unsupported : ℕ → Bool
is_unsupported flags = not (flags / 2 % 4 == 0)

module _ (k : Kernel) where
  -- In one directory the name is replaced. Without an entry of the old name the source writes before
  -- the block, which is taken for a stop here.
  unfoldable pub rename_entry : ℕ → Option ℕ → Name → M (Unit {0})
  rename_entry index_block none new_name = λ fs. panic fs
  rename_entry index_block (some f_pos) new_name =
      modify (with_block index_block (λ b. set_name b f_pos new_name))

  -- The entry in the new parent directory, and its inode.
  unfoldable pub link_new : ℕ → ℕ → Name → ℕ → M (Unit {0})
  link_new new_dir new_pos new_name ino = do
    src ← gets (λ fs. fs.inodes ino)
    ci_new ← gets (λ fs. fs.inodes new_dir)
    modify (
        with_block ci_new.index_block
          (λ b. set_name (set_u32 b (32 * new_pos) ino) new_pos new_name))
    time ← current_time k
    modify (
        with_inode new_dir (λ ci. record ci {
          i_atime = time;
          i_ctime = time;
          i_mtime = time;
          i_nlink = if is_dir src.i_mode then u32 (ci.i_nlink + 1) else ci.i_nlink;
        }))

  -- A search that passed the end of the block reads what is behind it, which is taken for a stop.
  unfoldable pub unlink_found : ℕ → Option (Option ℕ × ℕ) → M (Unit {0})
  unlink_found index_block none = λ fs. panic fs
  unlink_found index_block (some found) = take_out k index_block found

  -- The entry is taken out of the old parent directory.
  unfoldable pub unlink_old : ℕ → ℕ → M (Unit {0})
  unlink_old old_dir ino = do
    src ← gets (λ fs. fs.inodes ino)
    ci_old ← gets (λ fs. fs.inodes old_dir)
    got ← sb_bread k ci_old.index_block
    if not got then throw eio else do
      b ← gets (λ fs. fs.disk ci_old.index_block)
      unlink_found ci_old.index_block (search_old max_subfiles 0 b ino none)
      time ← current_time k
      modify (
          with_inode old_dir (λ ci. record ci {
            i_ctime = time;
            i_mtime = time;
            i_nlink = if is_dir src.i_mode then sub32 ci.i_nlink 1 else ci.i_nlink;
          }))

  -- What follows the first loop.
  unfoldable pub rename_to : ℕ → ℕ → Name → ℕ → ℕ → Option Places → M (Unit {0})
  rename_to old_dir ino new_name new_dir index_block none = throw eexist
  rename_to old_dir ino new_name new_dir index_block (some p) =
      if old_dir == new_dir then rename_entry index_block p.f_pos new_name else (elim p.new_pos [
        | none ↦ throw emlink
        | some new_pos ↦ do link_new new_dir new_pos new_name ino; unlink_old old_dir ino
      ])

  unfoldable pub ouichefs_rename : ℕ → ℕ → Name → ℕ → Name → ℕ → M (Unit {0})
  ouichefs_rename old_dir ino old_name new_dir new_name flags =
      if is_unsupported flags
      then throw einval
      else (if ltb filename_len new_name.len then throw enametoolong else (do
        ci_new ← gets (λ fs. fs.inodes new_dir)
        got ← sb_bread k ci_new.index_block
        if not got then throw eio else do
          b ← gets (λ fs. fs.disk ci_new.index_block)
          rename_to old_dir ino new_name new_dir ci_new.index_block (
              scan_new (new_dir == old_dir) old_name new_name max_subfiles 0 b
                (record { f_pos = none; new_pos = none }))))
