-- ===== src/File/Reads.antt =====
-- file.c: is_small_file and custom_read_iter.
use lkp_project.Prelude.{
  ℕ, zero, suc, ◌+◌, ◌-◌, ◌*◌, ◌/◌, ◌%◌, Bool, not, ◌||◌, ◌==◌, ltb, leb, if◌then◌else◌, min,
}
use lkp_project.Kernel.{Kernel}
use lkp_project.Block.{Block, block_size, get_u32}
use lkp_project.State.{
  InodeInfo, eio, efault, efbig, out_of_fuel, M, pure, throw, ◌>>=◌, ◌>>◌, gets, modify, with_io,
  sb_bread, copy_to_iter, slice_size,
}
use lkp_project.Slice.{small_file_get_bno, small_file_get_slice}

unfoldable pub is_small_file : InodeInfo → Bool
is_small_file inode = inode.i_blocks == 0

-- `index->blocks[i]` of a struct ouichefs_file_index_block, which has 1024 entries.
abbrev pub index_entry : Block → ℕ → ℕ
index_entry index i = get_u32 index (4 * i)

abbrev pub max_links : ℕ
max_links = 1024

-- The number of bytes that the call can give: `count` after the limit to the file size.
abbrev pub read_count : ℕ → ℕ → ℕ → ℕ
read_count pos count size = if ltb size (pos + count) then size - pos else count

module _ (k : Kernel) where
  -- The bytes come from the start of the slice, wherever `pos` is.
  unfoldable pub read_small : InodeInfo → ℕ → M ℕ
  read_small ci count = do
    let bno = small_file_get_bno ci.index_block
    let slice_no = small_file_get_slice ci.index_block
    got ← sb_bread k bno
    if not got
        then throw eio
        else if slice_no == 0 || leb (slice_size / 4) slice_no
        then throw eio
        else do
          data_block ← gets (λ fs. fs.disk bno)
          copied ← copy_to_iter k (λ j. data_block (slice_no * slice_size + j)) count
          if not (copied == count)
              then throw efault
              else do modify (with_io (λ io. record io { ki_pos = count })); pure count

  -- One round of the loop for a big file, at offset `block_offset` of a block of the file.
  unfoldable pub read_block : ℕ → ℕ → ℕ → M (Unit {0})
  read_block physical_block block_offset to_read =
      if physical_block == 0
      then (do
        copied ← copy_to_iter k (λ _. 0) to_read
        if not (copied == to_read) then throw efault else pure tt)
      else (do
        got ← sb_bread k physical_block
        if not got then throw eio else do
          data_block ← gets (λ fs. fs.disk physical_block)
          copied ← copy_to_iter k (λ j. data_block (block_offset + j)) to_read
          if not (copied == to_read) then throw efault else pure tt)

  -- `while (count > 0)`: every round moves at least a byte. The result is the position reached.
  unfoldable pub read_blocks : ℕ → ℕ → ℕ → ℕ → M ℕ
  read_blocks zero index_block pos count = λ _. out_of_fuel
  read_blocks (suc fuel) index_block pos count = if count == 0 then pure pos else do
    let block_idx = pos / block_size
    let block_offset = pos % block_size
    let to_read = min count (block_size - block_offset)
    if leb max_links block_idx then throw efbig else do
      physical_block ← gets (λ fs. index_entry (fs.disk index_block) block_idx)
      read_block physical_block block_offset to_read
      read_blocks fuel index_block (pos + to_read) (count - to_read)

  unfoldable pub read_big : InodeInfo → ℕ → ℕ → M ℕ
  read_big ci pos count = if ci.index_block == 0 then pure 0 else do
    got ← sb_bread k ci.index_block
    if not got then throw eio else do
      end_pos ← read_blocks (suc count) ci.index_block pos count
      modify (with_io (λ io. record io { ki_pos = end_pos }))
      pure count

  unfoldable pub custom_read_iter : ℕ → M ℕ
  custom_read_iter ino = do
    ci ← gets (λ fs. fs.inodes ino)
    pos ← gets (λ fs. fs.io.ki_pos)
    asked ← gets (λ fs. fs.io.count)
    if leb ci.i_size pos then pure 0 else do
      let count = read_count pos asked ci.i_size
      if count == 0
          then pure 0
          else (if is_small_file ci then read_small ci count else read_big ci pos count)
