-- ===== src/File/PageCache.antt =====
-- file.c: the operations of the page cache. The calls of the VFS that they lead to are parameters,
-- which get ouichefs_file_get_block as an argument.
pub mod Gets
pub mod Frees
pub mod WriteEnd
use lkp_project.Prelude.{
  ℕ, zero, suc, ◌+◌, ◌-◌, ◌*◌, ◌/◌, ◌%◌, ◌^◌, max, Bool, true, false, not, ltb, leb, ◌==◌,
  if◌then◌else◌, Option, none, some,
}
use lkp_project.Words.{u32, sub32, div_round_up}
use lkp_project.Kernel.{Kernel}
use lkp_project.Block.{block_size, set_u32}
use lkp_project.State.{
  efbig, eio, enospc, M, pure, throw, on_fail, errno_number, ◌>>=◌, ◌>>◌, gets, modify, with_block,
  with_inode, sb_bread, current_time, max_filesize,
}
use lkp_project.Slice.{alloc_block, free_block}
use lkp_project.File.Reads.{index_entry, max_links}

-- A get_block_t of an inode: a block of the file, and whether to create it. It gives the number of the
-- block on disk, unless the buffer stays unmapped.
abbrev pub GetBlock : Type 0
GetBlock = ℕ → Bool → M (Option ℕ)

-- mpage_readahead and block_write_full_page over the blocks of their argument, block_write_begin with
-- the position and the length, and generic_write_end with them and the number of copied bytes.
pub record PageVfs : Type 0 where
  pub mpage_readahead : ℕ → GetBlock → M (Unit {0})
  pub block_write_full_page : ℕ → GetBlock → M (Unit {0})
  pub block_write_begin : ℕ → ℕ → GetBlock → M (Unit {0})
  pub generic_write_end : ℕ → ℕ → ℕ → ℕ → M ℕ

-- `i_blocks - 1` on blkcnt_t
abbrev pub sub_one64 : ℕ → ℕ
sub_one64 n = (n + 2 ^ 64 - 1) % 2 ^ 64

-- The blocks that ouichefs_write_begin asks for.
unfoldable pub allocs_needed : ℕ → ℕ → ℕ → ℕ
allocs_needed end i_size i_blocks =
    let nr_allocs = u32 (max end i_size / block_size) in
    if ltb (sub_one64 i_blocks) nr_allocs then nr_allocs - sub_one64 i_blocks else 0

module _ (k : Kernel) where
  unfoldable pub ouichefs_file_get_block : ℕ → GetBlock
  ouichefs_file_get_block ino iblock create = if leb max_links iblock then throw efbig else do
    ci ← gets (λ fs. fs.inodes ino)
    got ← sb_bread k ci.index_block
    if not got then throw eio else do
      entry ← gets (λ fs. index_entry (fs.disk ci.index_block) iblock)
      if not (entry == 0) then pure (some entry) else if not create then pure none else do
        bno ← alloc_block k
        if bno == 0 then throw enospc else do
          modify (with_block ci.index_block (λ b. set_u32 b (4 * iblock) bno))
          pure (some bno)

  module _ (v : PageVfs) where
    abbrev pub ouichefs_readahead : ℕ → ℕ → M (Unit {0})
    ouichefs_readahead ino pages = v.mpage_readahead pages (ouichefs_file_get_block ino)

    abbrev pub ouichefs_writepage : ℕ → ℕ → M (Unit {0})
    ouichefs_writepage ino page = v.block_write_full_page page (ouichefs_file_get_block ino)

    unfoldable pub ouichefs_write_begin : ℕ → ℕ → ℕ → M (Unit {0})
    ouichefs_write_begin ino pos len = if ltb max_filesize (pos + len) then throw enospc else do
      inode ← gets (λ fs. fs.inodes ino)
      nr_free_blocks ← gets (λ fs. fs.sbi.nr_free_blocks)
      if ltb nr_free_blocks (allocs_needed (pos + len) inode.i_size inode.i_blocks)
          then throw enospc
          else v.block_write_begin pos len (ouichefs_file_get_block ino)

  -- The loop of ouichefs_write_end, from entry `i` on.
  unfoldable pub free_entries : ℕ → ℕ → ℕ → M (Unit {0})
  free_entries zero i index_block = pure tt
  free_entries (suc rounds) i index_block = do
    entry ← gets (λ fs. index_entry (fs.disk index_block) i)
    free_block k entry
    modify (with_block index_block (λ b. set_u32 b (4 * i) 0))
    free_entries rounds (i + 1) index_block

  -- What is done when the file got smaller. Without its index block the blocks are lost.
  unfoldable pub shrink : ℕ → ℕ → M (Unit {0})
  shrink ino nr_blocks_old = do
    inode ← gets (λ fs. fs.inodes ino)
    if not (ltb inode.i_blocks nr_blocks_old) then pure tt else do
      got ← sb_bread k inode.index_block
      if not got
          then pure tt
          else free_entries (nr_blocks_old - inode.i_blocks) (inode.i_blocks - 1) inode.index_block

  -- The metadata of a file after a write, and its blocks behind its end.
  unfoldable pub update_file : ℕ → M (Unit {0})
  update_file ino = do
    old ← gets (λ fs. fs.inodes ino)
    time ← current_time k
    modify (
        with_inode ino (λ ci. record ci {
          i_blocks = div_round_up ci.i_size block_size + 1;
          i_mtime = time;
          i_ctime = time;
        }))
    shrink ino (u32 old.i_blocks)

  -- `ret < len` compares unsigned numbers, so a negative errno counts as a large number.
  unfoldable pub ouichefs_write_end : PageVfs → ℕ → ℕ → ℕ → ℕ → M ℕ
  ouichefs_write_end v ino pos len copied =
      on_fail (v.generic_write_end ino pos len copied)
        (λ ret. if ltb ret len then pure ret else do update_file ino; pure ret)
        (λ e. if ltb (2 ^ 32 - errno_number e) len then throw e else do update_file ino; throw e)
