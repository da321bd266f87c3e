-- ===== src/File/Writes.antt =====
-- file.c: convert_small_to_big, custom_write_iter and ouichefs_open.
use lkp_project.Prelude.{
  ℕ, zero, suc, ◌+◌, ◌-◌, ◌*◌, Bool, false, not, ◌||◌, ◌&&◌, ◌==◌, ltb, leb, if◌then◌else◌, max,
}
use lkp_project.Kernel.{Kernel}
use lkp_project.Block.{Block, block_size, set_u32}
use lkp_project.State.{
  InodeInfo, eio, efault, enomem, einval, out_of_fuel, M, pure, throw, on_fail, ◌>>=◌, ◌>>◌, gets,
  modify, with_io, with_block, with_inode, sb_bread, kmalloc, copy_from_iter, slice_size,
}
use lkp_project.Slice.{small_file_get_bno, small_file_get_slice, delete_slice, free_block}
use lkp_project.File.Reads.{is_small_file, index_entry}
use lkp_project.File.SmallWrites.{write_pos, combined, restore_file, write_small_file}
use lkp_project.File.BigWrites.{write_big_file}

unfoldable pub is_new : ℕ → Bool
is_new index_block = index_block == 0

unfoldable pub will_be_small : ℕ → Bool
will_be_small new_size = leb new_size (block_size - slice_size)

-- The int that delete_slice returns where it does not fail.
abbrev pub success : Unit {0} → ℕ
success _ = 0

module _ (k : Kernel) where
  -- write_big_file of a whole file that lies in a buffer: the copy new_iocb of the call starts at 0
  -- without IOCB_APPEND, and the call itself is as before afterwards.
  unfoldable pub write_whole : ℕ → Block → ℕ → M ℕ
  write_whole ino content size = do
    saved ← gets (λ fs. fs.io)
    modify (
        with_io (λ io. record io { ki_pos = 0; ki_append = false; count = size; source = content }))
    on_fail (write_big_file k ino) (λ ret. do modify (with_io (λ _. saved)); pure ret)
        (λ e. do modify (with_io (λ _. saved)); throw e)

  -- The new file as one buffer: kmalloc, the old bytes, the user's bytes, and a second kmalloc.
  unfoldable pub gather : InodeInfo → ℕ → ℕ → ℕ → M Block
  gather old write_at count new_file_size = do
    got ← kmalloc k new_file_size
    if not got then throw enomem else do
      old_block ← gets (λ fs. fs.disk (small_file_get_bno old.index_block))
      (copied, bytes) ← copy_from_iter k count
      if not (copied == count) then throw efault else do
        got_kv ← kmalloc k 16
        if not got_kv
            then throw enomem
            else pure (
                combined (λ j. old_block (small_file_get_slice old.index_block * slice_size + j))
                  old.i_size write_at bytes count)

  -- index_block still holds the small file's block and slice when write_big_file is called, and the
  -- result is that of delete_slice.
  unfoldable pub convert_small_to_big : ℕ → ℕ → M ℕ
  convert_small_to_big fuel ino = do
    old ← gets (λ fs. fs.inodes ino)
    old_pos ← gets (λ fs. fs.io.ki_pos)
    count ← gets (λ fs. fs.io.count)
    write_at ← write_pos old
    let new_file_size = max (write_at + count) old.i_size
    got ← sb_bread k (small_file_get_bno old.index_block)
    if not got then throw eio else do
      content ← gather old write_at count new_file_size
      modify (with_inode ino (λ ci. record ci { i_size = 0 }))
      on_fail (write_whole ino content new_file_size)
          (λ ret.
            if ltb 0 ret
            then (do
              modify (with_io (λ io. record io { ki_pos = write_at + count }))
              ci ← gets (λ fs. fs.inodes ino)
              deleted ←
                  delete_slice k fuel (small_file_get_bno ci.index_block)
                    (small_file_get_slice ci.index_block) ci.num_slices
              pure (success deleted))
            else (do modify (restore_file ino old old_pos); pure ret))
          (λ e. do modify (restore_file ino old old_pos); throw e)

  unfoldable pub custom_write_iter : ℕ → ℕ → M ℕ
  custom_write_iter fuel ino = do
    inode ← gets (λ fs. fs.inodes ino)
    pos ← gets (λ fs. fs.io.ki_pos)
    count ← gets (λ fs. fs.io.count)
    let new_size = max (pos + count) inode.i_size
    if is_new inode.index_block
        then (if will_be_small new_size then write_small_file k fuel ino else write_big_file k ino)
        else (if not (is_small_file inode)
            then write_big_file k ino
            else (if will_be_small new_size
                then write_small_file k fuel ino
                else (if not (will_be_small new_size) && is_small_file inode
                    then convert_small_to_big fuel ino
                    else throw einval)))

  -- The loop of ouichefs_open over the entries of the index block. It ends at the first 0 and at
  -- nothing else.
  unfoldable pub truncate_blocks : ℕ → ℕ → ℕ → M (Unit {0})
  truncate_blocks zero index_block iblock = λ _. out_of_fuel
  truncate_blocks (suc fuel) index_block iblock = do
    entry ← gets (λ fs. index_entry (fs.disk index_block) iblock)
    if entry == 0 then pure tt else do
      free_block k entry
      modify (with_block index_block (λ b. set_u32 b (4 * iblock) 0))
      truncate_blocks fuel index_block (iblock + 1)

  unfoldable pub ouichefs_open : ℕ → ℕ → Bool → Bool → Bool → M (Unit {0})
  ouichefs_open fuel ino wronly rdwr trunc = do
    inode ← gets (λ fs. fs.inodes ino)
    if (wronly || rdwr) && (trunc && not (inode.i_size == 0))
        then (do
          got ← sb_bread k inode.index_block
          if not got then throw eio else do
            truncate_blocks fuel inode.index_block 0
            modify (with_inode ino (λ ci. record ci { i_size = 0 })))
        else pure tt
