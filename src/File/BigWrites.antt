-- ===== src/File/BigWrites.antt =====
-- file.c: write_big_file.
use lkp_project.Prelude.{
  ℕ, zero, suc, ◌+◌, ◌-◌, ◌*◌, ◌/◌, ◌%◌, ◌^◌, Bool, not, ◌&&◌, ◌==◌, ltb, leb, if◌then◌else◌, max,
  min,
}
use lkp_project.Words.{u32, div_round_up}
use lkp_project.Kernel.{Kernel}
use lkp_project.Block.{Block, block_size, set_u32, memcpy, memset}
use lkp_project.State.{
  InodeInfo, eio, efault, enospc, efbig, out_of_fuel, M, pure, throw, ◌>>=◌, ◌>>◌, gets, modify,
  with_io, with_block, with_inode, sb_bread, current_time, copy_from_iter,
}
use lkp_project.Slice.{alloc_block}
use lkp_project.File.Reads.{index_entry, max_links}
use lkp_project.File.SmallWrites.{write_pos}

-- `i_blocks - 1`, on 64 bits: it wraps for a file that has no block yet.
abbrev pub blocks_below : ℕ → ℕ
blocks_below i_blocks = (i_blocks + 2 ^ 64 - 1) % 2 ^ 64

-- The check for free blocks before the write: whether there are too few.
unfoldable pub lacks_blocks : ℕ → InodeInfo → ℕ → Bool
lacks_blocks nr_free_blocks inode new_size =
    let nr_allocs = u32 (div_round_up new_size block_size) in
    ltb (blocks_below inode.i_blocks) nr_allocs
    && ltb nr_free_blocks (u32 (nr_allocs + 2 ^ 64 - blocks_below inode.i_blocks))

-- The bytes between the end of the file and `pos` are zeroed in the block that the file ends in.
unfoldable pub zero_gap : ℕ → ℕ → ℕ → Block → Block
zero_gap i_size pos block_idx b =
    if ltb i_size pos && i_size / block_size == block_idx
    then memset b (i_size % block_size) 0 (min (pos - i_size) (block_size - i_size % block_size))
    else b

module _ (k : Kernel) where
  -- The index block, allocated at the first write. It is not scrubbed.
  unfoldable pub index_block_of : ℕ → M ℕ
  index_block_of ino = do
    inode ← gets (λ fs. fs.inodes ino)
    if not (inode.index_block == 0) then pure inode.index_block else do
      bno ← alloc_block k
      if bno == 0
          then throw enospc
          else do modify (with_inode ino (λ ci. record ci { index_block = bno })); pure bno

  -- The block behind entry `block_idx` of the index, allocated if there is none.
  unfoldable pub block_of : ℕ → ℕ → M ℕ
  block_of index_block block_idx = do
    entry ← gets (λ fs. index_entry (fs.disk index_block) block_idx)
    if not (entry == 0) then pure entry else do
      bno ← alloc_block k
      if bno == 0
          then throw enospc
          else do modify (with_block index_block (λ b. set_u32 b (4 * block_idx) bno)); pure bno

  -- The bytes of a round go to their block, behind the zeroes of a gap.
  unfoldable pub write_to_block : ℕ → ℕ → ℕ → ℕ → M (Unit {0})
  write_to_block ino physical_block pos to_write = do
    got ← sb_bread k physical_block
    if not got then throw eio else do
      i_size ← gets (λ fs. (fs.inodes ino).i_size)
      modify (with_block physical_block (zero_gap i_size pos (pos / block_size)))
      (copied, bytes) ← copy_from_iter k to_write
      modify (with_block physical_block (λ b. memcpy b (pos % block_size) bytes copied))
      if not (copied == to_write) then throw efault else pure tt

  -- One round of the loop: `to_write` bytes go to the block of `pos`.
  unfoldable pub write_block : ℕ → ℕ → ℕ → ℕ → M (Unit {0})
  write_block ino index_block pos to_write = do
    physical_block ← block_of index_block (pos / block_size)
    write_to_block ino physical_block pos to_write

  -- `while (count > 0)`: every round moves at least a byte. The result is the position reached.
  unfoldable pub write_blocks : ℕ → ℕ → ℕ → ℕ → ℕ → M ℕ
  write_blocks zero ino index_block pos count = λ _. out_of_fuel
  write_blocks (suc fuel) ino index_block pos count = if count == 0 then pure pos else do
    let to_write = min count (block_size - pos % block_size)
    if leb max_links (pos / block_size) then throw efbig else do
      write_block ino index_block pos to_write
      write_blocks fuel ino index_block (pos + to_write) (count - to_write)

  -- The metadata after the loop.
  unfoldable pub finish_big : ℕ → ℕ → M (Unit {0})
  finish_big ino pos = do
    time ← current_time k
    modify (
        with_inode ino (λ ci.
          let size = if ltb ci.i_size pos then pos else ci.i_size in
          record ci {
            i_size = size;
            i_blocks = div_round_up size block_size + 1;
            i_mtime = time;
            i_ctime = time;
          }))
    modify (with_io (λ io. record io { ki_pos = pos }))

  unfoldable pub write_big_file : ℕ → M ℕ
  write_big_file ino = do
    inode ← gets (λ fs. fs.inodes ino)
    pos ← write_pos inode
    count ← gets (λ fs. fs.io.count)
    let new_size = max (pos + count) inode.i_size
    index_block ← index_block_of ino
    nr_free_blocks ← gets (λ fs. fs.sbi.nr_free_blocks)
    if lacks_blocks nr_free_blocks inode new_size then throw enospc else do
      got ← sb_bread k index_block
      if not got then throw eio else do
        end_pos ← write_blocks (suc count) ino index_block pos count
        finish_big ino end_pos
        pure count
