-- ===== src/Slice.antt =====
-- file.c and ouichefs.h: the slices of small files. A sliced block holds a word with a bit for
-- each of its slices (1 is free; slice 0 is this header), a word with the next sliced block, and
-- the slices themselves. A `struct buffer_head` is modelled by the number of its block; marking
-- it dirty, releasing it and the messages have no counterpart.
pub mod Allocate
pub mod Chain
pub mod Delete
pub mod Inodes
pub mod Find
pub mod Index
pub mod Swept
pub mod Sweep
pub mod Take
use Prim.Native.Nat.{bit_and, bit_or}
use lkp_project.Prelude.{
  ℕ, zero, suc, ◌+◌, ◌-◌, ◌*◌, ◌/◌, ◌%◌, ◌^◌, ◌≤◌, ◌<◌, Bool, true, false, not, ◌||◌, ◌==◌, ltb,
  if◌then◌else◌, Option, none, some, update,
}
use lkp_project.Words.{u32, u16, add32, sub32, shl32, shr32, not32, div_round_up}
use lkp_project.Kernel.{Kernel}
use lkp_project.Block.{Block, block_size, get_u32, set_u32, memset}
use lkp_project.State.{
  SbInfo, InodeInfo, Fs, eio, enospc, Run, ok, out_of_fuel, M, pure, throw, ◌>>=◌, ◌>>◌, gets,
  modify, with_sbi, with_block, with_inode, sb_bread, slice_size,
}
use lkp_project.Bitmap.{get_free_block, put_block}

-- OUICHEFS_BITMAP_ALL_FREE
abbrev pub bitmap_all_free : ℕ
bitmap_all_free = 4294967294

-- OUICHEFS_SLICED_BLOCK_SB_BITMAP, …_SB_NEXT and …_SB_SET_NEXT
abbrev pub sb_bitmap : Block → ℕ
sb_bitmap b = get_u32 b 0

abbrev pub sb_next : Block → ℕ
sb_next b = get_u32 b 4

abbrev pub sb_set_next : ℕ → Block → Block
sb_set_next next b = set_u32 b 4 next

-- OUICHEFS_SMALL_FILE_GET_BNO and OUICHEFS_SMALL_FILE_GET_SLICE of an index_block, and the
-- index_block that write_small_file stores.
unfoldable pub small_file_get_bno : ℕ → ℕ
small_file_get_bno index_block = shr32 index_block 5

unfoldable pub small_file_get_slice : ℕ → ℕ
small_file_get_slice index_block = bit_and index_block 31

unfoldable pub small_file_index : ℕ → ℕ → ℕ
small_file_index block slice = add32 (shl32 block 5) slice

-- The loop of get_consequitive_free_slices: the first position, with its mask, where the bits of
-- the mask are all free. The first argument counts the rounds left.
unfoldable pub find_slices : ℕ → ℕ → ℕ → ℕ → Option (ℕ × ℕ)
find_slices zero bitmap mask i = none
find_slices (suc rounds) bitmap mask i =
    let rest = find_slices rounds bitmap (shl32 mask 1) (i + 1) in
    if bit_or bitmap mask == bitmap then some (i, mask) else rest

-- num_slices_needed
abbrev pub slices_needed : ℕ → ℕ
slices_needed file_size = u32 (div_round_up file_size slice_size)

-- What the loop does when it breaks: the slices are taken in the block and counted in the inode.
unfoldable pub take_slices : ℕ → ℕ → ℕ → Option (ℕ × ℕ) → M ℕ
take_slices bno ino needed none = pure 0
take_slices bno ino needed (some (slice, mask)) = do
  modify (with_block bno (λ b. set_u32 b 0 (bit_and (sb_bitmap b) (not32 mask))))
  modify (with_inode ino (λ ci. record ci { num_slices = u16 needed }))
  pure slice

-- The result is 0 when there is no such run.
unfoldable pub get_consequitive_free_slices : ℕ → ℕ → ℕ → M ℕ
get_consequitive_free_slices bno ino file_size = if ltb block_size file_size then pure 0 else do
  bitmap ← gets (λ fs. sb_bitmap (fs.disk bno))
  let needed = slices_needed file_size
  let mask = shl32 (sub32 (shl32 1 needed) 1) 1
  take_slices bno ino needed (find_slices (32 - needed) bitmap mask 1)

-- The four bytes that init_slice_block writes. The rest of the block stays as it was.
unfoldable pub init_slice_header : Block → Block
init_slice_header b = update (update (update (update b 0 254) 1 255) 2 255) 3 255

module _ (k : Kernel) where
  -- get_free_block and put_block on the mounted partition
  abbrev pub alloc_block : M ℕ
  alloc_block fs = let (bno, sbi) = get_free_block k fs.sbi in ok bno (record fs { sbi = sbi })

  abbrev pub free_block : ℕ → M (Unit {0})
  free_block bno = modify (with_sbi (λ sbi. put_block k sbi bno))

  unfoldable pub init_slice_block : ℕ → M Bool
  init_slice_block block = do
    got ← sb_bread k block
    if got then (do modify (with_block block init_slice_header); pure true) else pure false

  -- allocate_and_init_slice_block once get_free_block has returned
  unfoldable pub init_allocated : ℕ → M ℕ
  unfolding init_slice_block
  init_allocated bno =
      if bno == 0 || ltb (2 ^ 27) bno then (do free_block bno; throw enospc) else do
        got ← init_slice_block bno
        if not got then (do free_block bno; throw eio) else do
          modify (with_sbi (λ sbi. record sbi { nr_sliced_blocks = add32 sbi.nr_sliced_blocks 1 }))
          pure bno

  unfoldable pub allocate_and_init_slice_block : M ℕ
  unfolding init_allocated
  allocate_and_init_slice_block = do bno ← alloc_block; init_allocated bno

-- The first half of delete_slice: the slices are marked free and zeroed.
unfoldable pub clear_slices : ℕ → ℕ → Block → Block
clear_slices slice_no num_slices b =
    let mask = shl32 (sub32 (shl32 1 num_slices) 1) slice_no in
    memset (set_u32 b 0 (bit_or (sb_bitmap b) mask)) (u32 (slice_no * slice_size)) 0
      (u32 (num_slices * slice_size))

-- What bh_prev points to: the previous sliced block that stays, if there is one.
abbrev pub repoint : Option ℕ → ℕ → Fs → Fs
repoint (some prev) next = with_block prev (sb_set_next next)
repoint none next = with_sbi (λ sbi. record sbi { s_free_sliced_blocks = next })

module _ (k : Kernel) where
  -- A block of the list that is free throughout is unlinked, zeroed and put back.
  unfoldable pub unlink_block : Option ℕ → ℕ → ℕ → Fs → Fs
  unlink_block prev current next fs =
      with_sbi (λ sbi. put_block k sbi current)
        (with_block current (λ b. memset b 0 0 block_size)
          (with_sbi (λ sbi. record sbi { nr_sliced_blocks = sub32 sbi.nr_sliced_blocks 1 })
            (repoint prev next fs)))

  -- The second half of delete_slice, `while (current_bno)`: every block of the list that is free
  -- throughout is dropped.
  unfoldable pub sweep : ℕ → Option ℕ → ℕ → M (Unit {0})
  sweep zero prev current = λ _. out_of_fuel
  sweep (suc fuel) prev current = if current == 0 then pure tt else do
    got ← sb_bread k current
    if not got then throw eio else do
      b ← gets (λ fs. fs.disk current)
      let all_free = sb_bitmap b == bitmap_all_free
      modify (λ fs. if all_free then unlink_block prev current (sb_next b) fs else fs)
      sweep fuel (if all_free then prev else some current) (sb_next b)

  unfoldable pub delete_slice : ℕ → ℕ → ℕ → ℕ → M (Unit {0})
  delete_slice fuel bno slice_no num_slices = if bno == 0 || num_slices == 0 then pure tt else do
    got ← sb_bread k bno
    if not got then throw eio else do
      modify (with_block bno (clear_slices slice_no num_slices))
      modify (with_sbi (λ sbi. record sbi { nr_used_slices = sub32 sbi.nr_used_slices num_slices }))
      first_bno ← gets (λ fs. fs.sbi.s_free_sliced_blocks)
      sweep fuel none first_bno

  -- The inode keeps its num_slices, as in the source.
  unfoldable pub delete_slice_and_clear_inode : ℕ → ℕ → M (Unit {0})
  delete_slice_and_clear_inode fuel ino = do
    ci ← gets (λ fs. fs.inodes ino)
    delete_slice fuel (small_file_get_bno ci.index_block) (small_file_get_slice ci.index_block)
        ci.num_slices
    modify (with_inode ino (λ ci. record ci { index_block = 0; i_size = 0 }))
