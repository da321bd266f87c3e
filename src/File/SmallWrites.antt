-- ===== src/File/SmallWrites.antt =====
-- file.c: write_small_file.
use lkp_project.Prelude.{
  ℕ, zero, suc, ◌+◌, ◌-◌, ◌*◌, ◌^◌, false, not, ◌||◌, ◌==◌, ltb, if◌then◌else◌, max,
}
use lkp_project.Words.{add32}
use lkp_project.Kernel.{Kernel}
use lkp_project.Block.{Block, memcpy, memset}
use lkp_project.State.{
  InodeInfo, Fs, errno_number, eio, efault, enomem, panic, out_of_fuel, M, pure, throw, on_fail,
  ◌>>=◌, ◌>>◌, gets, modify, with_io, with_sbi, with_block, with_inode, sb_bread, kmalloc,
  current_time, copy_from_iter, slice_size,
}
use lkp_project.Slice.{
  sb_next, sb_set_next, small_file_get_bno, small_file_get_slice, small_file_index, slices_needed,
  get_consequitive_free_slices, allocate_and_init_slice_block, delete_slice,
}

-- The position that a write starts at: the end of the file under IOCB_APPEND.
abbrev pub write_pos : InodeInfo → M ℕ
write_pos inode = gets (λ fs. if fs.io.ki_append then inode.i_size else fs.io.ki_pos)

-- What the user's bytes and a file's make together, in a buffer of their own: the old bytes, zeroes
-- up to `pos`, and the new bytes.
abbrev pub combined : Block → ℕ → ℕ → Block → ℕ → Block
combined old old_size pos new count =
    memcpy
      (if ltb old_size pos
        then memset (memcpy (λ _. 0) 0 old old_size) old_size 0 (pos - old_size)
        else memcpy (λ _. 0) 0 old old_size)
      pos new count

-- The inode and the position as they were before a write that failed.
abbrev pub restore_file : ℕ → InodeInfo → ℕ → Fs → Fs
restore_file ino old pos fs =
    with_io (λ io. record io { ki_pos = pos })
      (with_inode ino (λ ci. record ci { index_block = old.index_block; i_size = old.i_size }) fs)

module _ (k : Kernel) where
  -- `while (slice_to_write == 0)`: the list of sliced blocks is walked from `bno` to the first
  -- block with room, and a new block is put behind its last. The result is the block and the slice.
  unfoldable pub find_room : ℕ → ℕ → ℕ → ℕ → M (ℕ × ℕ)
  find_room zero bno ino new_size = λ _. out_of_fuel
  find_room (suc fuel) bno ino new_size = do
    slice ← get_consequitive_free_slices bno ino new_size
    if not (slice == 0) then pure (bno, slice) else do
      next ← gets (λ fs. sb_next (fs.disk bno))
      following ←
          (if next == 0
            then (do
              new_block ← allocate_and_init_slice_block k
              modify (with_block bno (sb_set_next new_block))
              pure new_block)
            else (do got ← sb_bread k next; if got then pure next else throw eio))
      find_room fuel following ino new_size

  -- The first sliced block. When there is none and none can be allocated, the negative errno is
  -- taken for a block number, since block_to_write is unsigned, and the null buffer is followed.
  unfoldable pub first_sliced_block : M ℕ
  first_sliced_block = do
    head ← gets (λ fs. fs.sbi.s_free_sliced_blocks)
    if head == 0
        then on_fail (allocate_and_init_slice_block k)
            (λ bno. do
              modify (with_sbi (λ sbi. record sbi { s_free_sliced_blocks = bno }))
              pure bno)
            (λ e fs.
              panic (
                with_sbi (λ sbi. record sbi { s_free_sliced_blocks = 2 ^ 32 - errno_number e }) fs))
        else (do got ← sb_bread k head; if got then pure head else throw eio)

  -- The end of write_small_file: the bytes are copied and the inode is updated.
  unfoldable pub store_small : ℕ → ℕ → ℕ → ℕ → ℕ → ℕ → M ℕ
  store_small ino block slice pos count new_size = do
    (copied, bytes) ← copy_from_iter k count
    modify (with_block block (λ b. memcpy b (slice * slice_size + pos) bytes copied))
    if not (copied == count) then throw efault else do
      modify (
          with_sbi (λ sbi. record sbi {
            nr_used_slices = add32 sbi.nr_used_slices (slices_needed new_size);
          }))
      time ← current_time k
      modify (
          with_inode ino (λ ci. record ci {
            i_size = new_size;
            i_mtime = time;
            i_ctime = time;
            index_block = small_file_index block slice;
          }))
      modify (with_io (λ io. record io { ki_pos = pos }))
      pure count

  -- write_small_file of a file that has no slice.
  unfoldable pub write_small_new : ℕ → ℕ → M ℕ
  write_small_new fuel ino = do
    inode ← gets (λ fs. fs.inodes ino)
    pos ← write_pos inode
    count ← gets (λ fs. fs.io.count)
    let new_size = max (pos + count) inode.i_size
    head ← first_sliced_block
    (block, slice) ← find_room fuel head ino new_size
    store_small ino block slice pos count new_size

  -- The new contents are put together in a buffer, and the call is made to write that buffer.
  unfoldable pub stage_rewrite : InodeInfo → ℕ → ℕ → ℕ → M (Unit {0})
  stage_rewrite old pos count new_size = do
    got ← kmalloc k new_size
    if not got then throw enomem else do
      old_block ← gets (λ fs. fs.disk (small_file_get_bno old.index_block))
      (copied, bytes) ← copy_from_iter k count
      if not (copied == count) then throw efault else do
        got_kv ← kmalloc k 16
        if not got_kv
            then throw enomem
            else modify (
                with_io (λ io. record io {
                  ki_pos = 0;
                  ki_append = false;
                  count = new_size;
                  source =
                      combined
                        (λ j. old_block (small_file_get_slice old.index_block * slice_size + j))
                        old.i_size pos bytes count;
                }))

  -- After the rewrite: the old slices are deleted, whether that works or not, or the inode is
  -- restored when the rewrite wrote nothing.
  unfoldable pub finish_rewrite : ℕ → ℕ → InodeInfo → ℕ → ℕ → ℕ → M ℕ
  finish_rewrite fuel ino old pos count ret =
      if ltb 0 ret
      then (do
        modify (with_io (λ io. record io { ki_pos = pos + count }))
        on_fail
            (delete_slice k fuel (small_file_get_bno old.index_block)
              (small_file_get_slice old.index_block) old.num_slices)
            (λ _. pure count) (λ _. pure count))
      else (do modify (restore_file ino old pos); pure ret)

  -- A file whose number of slices changes is written anew. What the recursive call is given has
  -- index_block 0, which is why it is write_small_new.
  unfoldable pub rewrite_small : ℕ → ℕ → InodeInfo → ℕ → ℕ → ℕ → M ℕ
  rewrite_small fuel ino old pos count new_size = do
    modify (with_inode ino (λ ci. record ci { index_block = 0; i_size = 0 }))
    if pos == 0 then pure tt else stage_rewrite old pos count new_size
    on_fail (write_small_new fuel ino) (finish_rewrite fuel ino old pos count)
        (λ e. do modify (restore_file ino old pos); throw e)

  unfoldable pub write_small_file : ℕ → ℕ → M ℕ
  write_small_file fuel ino = do
    inode ← gets (λ fs. fs.inodes ino)
    if inode.index_block == 0 then write_small_new fuel ino else do
      pos ← write_pos inode
      count ← gets (λ fs. fs.io.count)
      let new_size = max (pos + count) inode.i_size
      let old_bno = small_file_get_bno inode.index_block
      let old_slice_no = small_file_get_slice inode.index_block
      if inode.num_slices == 0 || (old_bno == 0 || old_slice_no == 0) then throw eio else do
        got ← sb_bread k old_bno
        if not got
            then throw eio
            else if inode.num_slices == slices_needed new_size
            then store_small ino old_bno old_slice_no pos count new_size
            else rewrite_small fuel ino inode pos count new_size
