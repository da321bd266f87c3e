-- ===== src/Directory.antt =====
-- inode.c: directories. The index block of a directory has 128 entries of 32 bytes, each an inode
-- number and a name; an entry with number 0 is free. A dentry is modelled by its name and the number
-- of its inode. The VFS calls these operations with existing names, under the locks of both inodes.
pub mod Entries
pub mod SameName
pub mod Names
pub mod Iterate
pub mod Rename
pub mod Create
pub mod Unlink
use lkp_project.Prelude.{
  ℕ, zero, suc, ◌+◌, ◌-◌, ◌*◌, ◌/◌, ◌%◌, ◌^◌, Bool, true, false, not, ◌&&◌, ◌||◌, ◌==◌, ltb,
  if◌then◌else◌, Option, none, some,
}
use lkp_project.Words.{u32, sub32}
use lkp_project.Kernel.{Kernel}
use lkp_project.Block.{Block, block_size, within, get_u32, set_u32, memset}
use lkp_project.State.{
  InodeInfo, Errno, eio, einval, enospc, enametoolong, emlink, enotempty, panic, M, pure, throw,
  on_fail, ◌>>=◌, ◌>>◌, gets, modify, with_block, with_sbi, with_inode, sb_bread, current_time,
  filename_len, max_subfiles,
}
use lkp_project.Bitmap.{get_free_inode, put_inode}
use lkp_project.Slice.{alloc_block, free_block, delete_slice_and_clear_inode}
use lkp_project.Store.{Locked, ouichefs_iget}
use lkp_project.File.Reads.{index_entry}

-- S_ISDIR and S_ISREG
abbrev pub is_dir : ℕ → Bool
is_dir mode = mode / 4096 % 16 == 4

abbrev pub is_reg : ℕ → Bool
is_reg mode = mode / 4096 % 16 == 8

-- A name: its bytes, which end with a 0, and their number without it.
pub record Name : Type 0 where
  pub len : ℕ
  pub chars : Block

-- The inode number and the name of entry `i`.
abbrev pub entry_inode : Block → ℕ → ℕ
entry_inode b i = get_u32 b (32 * i)

abbrev pub entry_name : Block → ℕ → Block
entry_name b i j = b (32 * i + 4 + j)

-- strncmp(a, b, n) == 0, from byte `j` on.
unfoldable pub same_name : ℕ → ℕ → Block → Block → Bool
same_name zero j a b = true
same_name (suc n) j a b = let rest = same_name n (j + 1) a b in (a j == b j) && ((a j == 0) || rest)

-- strscpy(filename, name, OUICHEFS_FILENAME_LEN): at most 27 bytes and a 0.
unfoldable pub set_name : Block → ℕ → Name → Block
set_name b i name j =
    let copied = if ltb name.len filename_len then name.len else filename_len - 1 in
    if within (32 * i + 4) copied j
    then name.chars (j - (32 * i + 4))
    else (if j == 32 * i + 4 + copied then 0 else b j)

-- The loop of ouichefs_lookup: the inode number of the first entry with the name.
unfoldable pub find_name : ℕ → ℕ → Block → Name → Option ℕ
find_name zero i b name = none
find_name (suc rounds) i b name =
    let rest = find_name rounds (i + 1) b name in
    if entry_inode b i == 0
    then none
    else (if same_name filename_len 0 (entry_name b i) name.chars
        then some (entry_inode b i)
        else rest)

-- The loop of ouichefs_create: the first free entry, from `i` on.
unfoldable pub first_free : ℕ → ℕ → Block → ℕ
first_free zero i b = i
first_free (suc rounds) i b =
    let rest = first_free rounds (i + 1) b in if entry_inode b i == 0 then i else rest

-- The entry that ouichefs_create writes.
unfoldable pub add_entry : ℕ → Name → Block → Block
add_entry ino name b =
    let i = first_free max_subfiles 0 b in set_name (set_u32 b (32 * i) ino) i name

-- The loop of ouichefs_unlink: the last entry with the inode, and the number of entries.
unfoldable pub find_inode : ℕ → ℕ → Block → ℕ → Option ℕ → Option ℕ × ℕ
find_inode zero i b ino f_id = (f_id, i)
find_inode (suc rounds) i b ino f_id =
    let found = find_inode rounds (i + 1) b ino (some i) in
    let rest = find_inode rounds (i + 1) b ino f_id in
    if entry_inode b i == ino then found else (if entry_inode b i == 0 then (f_id, i) else rest)

abbrev pub memmove : Block → ℕ → ℕ → ℕ → Block
memmove b dst src n j = if within dst n j then b (src + (j - dst)) else b j

-- The entries behind entry `f_id` move down, and the last of the `nr_subs` is zeroed.
unfoldable pub remove_entry : ℕ → ℕ → Block → Block
remove_entry f_id nr_subs b =
    memset
      (if f_id == max_subfiles - 1
        then b
        else memmove b (32 * f_id) (32 * (f_id + 1)) ((nr_subs - f_id - 1) * 32))
      (32 * (nr_subs - 1)) 0 32

-- What the operations take from the VFS: iget_locked, and what inode_init_owner gives a new inode in
-- a directory: its owner, group and mode.
pub record DirVfs : Type 0 where
  pub iget_locked : ℕ → ℕ → Locked
  pub owner : InodeInfo → ℕ → ℕ × ℕ × ℕ

-- The inode pointer that ouichefs_lookup gives to d_add: NULL, an inode, or an error pointer.
pub data Attached : Type 0 where
  null : Attached
  an_inode : ℕ → Attached
  error_pointer : Errno → Attached

module _ (k : Kernel) where
  -- What d_add gets. ouichefs_lookup returns NULL then, also for an error pointer.
  unfoldable pub ouichefs_lookup : DirVfs → ℕ → Name → M Attached
  ouichefs_lookup vfs dir name = if ltb filename_len name.len then throw enametoolong else do
    ci_dir ← gets (λ fs. fs.inodes dir)
    got ← sb_bread k ci_dir.index_block
    if not got then throw eio else do
      b ← gets (λ fs. fs.disk ci_dir.index_block)
      elim (find_name max_subfiles 0 b name) [
        | none ↦ pure null
        | some ino ↦
            on_fail (ouichefs_iget k vfs.iget_locked ino) (λ i. pure (an_inode i))
              (λ e. pure (error_pointer e))
      ]

  -- The index block of a new directory; a file gets its own at the first write.
  unfoldable pub new_index : ℕ → ℕ → M (Unit {0})
  new_index ino mode =
      if is_dir mode
      then (do
        bno ← alloc_block k
        if bno == 0
            then throw enospc
            else modify (with_inode ino (λ ci. record ci { index_block = bno })))
      else modify (with_inode ino (λ ci. record ci { index_block = 0 }))

  unfoldable pub init_inode : DirVfs → ℕ → ℕ → ℕ → M (Unit {0})
  init_inode vfs dir ino mode = do
    ci_dir ← gets (λ fs. fs.inodes dir)
    time ← current_time k
    modify (
        with_inode ino (λ ci.
          let (uid, gid, mode') = vfs.owner ci_dir mode in
          record ci {
            num_slices = 0;
            i_uid = uid;
            i_gid = gid;
            i_mode = mode';
            i_blocks = if is_dir mode then 1 else 0;
            i_size = if is_dir mode then block_size else (if is_reg mode then 0 else ci.i_size);
            i_nlink = 1;
            i_ctime = time;
            i_atime = time;
            i_mtime = time;
          }))

  -- `put_ino`: the inode number is given back.
  unfoldable pub or_put_inode : {A : Type 0} → ℕ → M A → M A
  or_put_inode ino m =
      on_fail m (λ a. pure a) (λ e. do modify (with_sbi (λ sbi. put_inode k sbi ino)); throw e)

  unfoldable pub ouichefs_new_inode : DirVfs → ℕ → ℕ → M ℕ
  ouichefs_new_inode vfs dir mode =
      if not (is_dir mode) && not (is_reg mode) then throw einval else do
        sbi ← gets (λ fs. fs.sbi)
        if sbi.nr_free_inodes == 0 || sbi.nr_free_blocks == 0 then throw enospc else do
          let (ino, taken) = get_free_inode k sbi
          modify (with_sbi (λ _. taken))
          if ino == 0 then throw enospc else do
            or_put_inode ino (do ouichefs_iget k vfs.iget_locked ino; new_index ino mode)
            init_inode vfs dir ino mode
            pure ino

  -- The new inode's index block is zeroed when it is a directory.
  unfoldable pub scrub_index : ℕ → ℕ → M (Unit {0})
  scrub_index ino mode =
      if is_dir mode
      then (do
        ci ← gets (λ fs. fs.inodes ino)
        got ← sb_bread k ci.index_block
        if got then modify (with_block ci.index_block (λ b. memset b 0 0 block_size)) else do
          free_block k ci.index_block
          modify (with_sbi (λ sbi. put_inode k sbi ino))
          throw eio)
      else pure tt

  unfoldable pub ouichefs_create : DirVfs → ℕ → Name → ℕ → M ℕ
  ouichefs_create vfs dir name mode = if ltb filename_len name.len then throw enametoolong else do
    ci_dir ← gets (λ fs. fs.inodes dir)
    got ← sb_bread k ci_dir.index_block
    if not got then throw eio else do
      b ← gets (λ fs. fs.disk ci_dir.index_block)
      if not (entry_inode b (max_subfiles - 1) == 0) then throw emlink else do
        ino ← ouichefs_new_inode vfs dir mode
        scrub_index ino mode
        modify (with_block ci_dir.index_block (add_entry ino name))
        time ← current_time k
        modify (
            with_inode dir (λ ci. record ci {
              i_mtime = time;
              i_ctime = time;
              i_nlink = if is_dir mode then u32 (ci.i_nlink + 1) else ci.i_nlink;
            }))
        pure ino

  abbrev pub ouichefs_mkdir : DirVfs → ℕ → Name → ℕ → M ℕ
  ouichefs_mkdir vfs dir name mode =
      ouichefs_create vfs dir name (if mode / 16384 % 2 == 1 then mode else mode + 16384)

  -- The loop of ouichefs_unlink over the blocks of a big file.
  unfoldable pub put_blocks : ℕ → ℕ → ℕ → M (Unit {0})
  put_blocks zero i index_block = pure tt
  put_blocks (suc rounds) i index_block = do
    entry ← gets (λ fs. index_entry (fs.disk index_block) i)
    if entry == 0 then pure tt else do
      got ← sb_bread k entry
      modify (λ fs. if got then with_block entry (λ b. memset b 0 0 block_size) fs else fs)
      again ← gets (λ fs. index_entry (fs.disk index_block) i)
      free_block k again
    put_blocks rounds (i + 1) index_block

  -- `clean_inode`. The index block of a small file was given back with its slices.
  unfoldable pub clean_inode : ℕ → ℕ → Bool → M (Unit {0})
  clean_inode ino bno small_file = do
    modify (
        with_inode ino (λ ci. record ci {
          i_blocks = 0;
          index_block = 0;
          i_size = 0;
          i_uid = 0;
          i_gid = 0;
          i_mode = 0;
          i_ctime = record { tv_sec = 0; tv_nsec = 0 };
          i_mtime = record { tv_sec = 0; tv_nsec = 0 };
          i_atime = record { tv_sec = 0; tv_nsec = 0 };
          i_nlink = sub32 ci.i_nlink 1;
        }))
    if not (bno == 0) && not small_file then free_block k bno else pure tt
    modify (with_sbi (λ sbi. put_inode k sbi ino))

  -- The entry that the search found is taken out. Without an entry of the inode the source moves
  -- memory from before the block, which is taken for a stop here.
  unfoldable pub take_out : ℕ → Option ℕ × ℕ → M (Unit {0})
  take_out index_block (none, nr_subs) = λ fs. panic fs
  take_out index_block (some f_id, nr_subs) =
      modify (with_block index_block (remove_entry f_id nr_subs))

  unfoldable pub drop_entry : ℕ → ℕ → M (Unit {0})
  drop_entry index_block ino = do
    b ← gets (λ fs. fs.disk index_block)
    take_out index_block (find_inode max_subfiles 0 b ino none)

  unfoldable pub ouichefs_unlink : ℕ → ℕ → ℕ → M (Unit {0})
  ouichefs_unlink fuel dir ino = do
    inode ← gets (λ fs. fs.inodes ino)
    ci_dir ← gets (λ fs. fs.inodes dir)
    got ← sb_bread k ci_dir.index_block
    if not got then throw eio else do
      drop_entry ci_dir.index_block ino
      time ← current_time k
      modify (
          with_inode dir (λ ci. record ci {
            i_mtime = time;
            i_ctime = time;
            i_nlink = if is_dir inode.i_mode then sub32 ci.i_nlink 1 else ci.i_nlink;
          }))
      let small_file = (inode.i_blocks == 0) && not (is_dir inode.i_mode)
      let bno = inode.index_block
      if small_file
          then on_fail (delete_slice_and_clear_inode k fuel ino) (λ _. clean_inode ino bno true)
              (λ e. clean_inode ino bno true)
          else if bno == 0
          then (λ fs. panic fs)
          else do
            got_index ← sb_bread k bno
            if not got_index then clean_inode ino bno false else do
              if is_dir inode.i_mode then pure tt else put_blocks (inode.i_blocks - 1) 0 bno
              modify (with_block bno (λ b. memset b 0 0 block_size))
              clean_inode ino bno false

  unfoldable pub ouichefs_rmdir : ℕ → ℕ → ℕ → M (Unit {0})
  ouichefs_rmdir fuel dir ino = do
    inode ← gets (λ fs. fs.inodes ino)
    if ltb 2 inode.i_nlink then throw enotempty else do
      got ← sb_bread k inode.index_block
      if not got then throw eio else do
        b ← gets (λ fs. fs.disk inode.index_block)
        if not (entry_inode b 0 == 0) then throw enotempty else ouichefs_unlink fuel dir ino
