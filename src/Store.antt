-- ===== src/Store.antt =====
-- The inode store: ouichefs_write_inode of super.c and ouichefs_iget of inode.c. Block 0 is the super
-- block, and the inodes follow from block 1 on, 51 of 80 bytes in a block.
pub mod RoundTrip
pub mod Apart
use lkp_project.Prelude.{
  ℕ, ◌+◌, ◌*◌, ◌/◌, ◌%◌, ◌^◌, Bool, true, false, not, leb, if◌then◌else◌, List, [], ◌∷◌,
}
use lkp_project.Kernel.{Kernel}
use lkp_project.Block.{Block, block_size, get_u32}
use lkp_project.Block.Fields.{get_u16, set_u16, get_u64, set_words}
use lkp_project.State.{
  InodeInfo, Fs, eio, enomem, einval, M, pure, throw, ◌>>=◌, ◌>>◌, gets, modify, with_block,
  with_inode, sb_bread,
}

-- sizeof(struct ouichefs_inode), with the padding of its 64-bit fields
abbrev pub inode_size : ℕ
inode_size = 80

abbrev pub inodes_per_block : ℕ
inodes_per_block = block_size / inode_size

abbrev pub inode_block : ℕ → ℕ
inode_block ino = ino / inodes_per_block + 1

abbrev pub inode_offset : ℕ → ℕ
inode_offset ino = ino % inodes_per_block * inode_size

-- The words of struct ouichefs_inode up to num_slices.
abbrev pub inode_words : InodeInfo → List (ℕ × ℕ)
inode_words ci =
    (0, ci.i_mode)
    ∷ (4, ci.i_uid)
    ∷ (8, ci.i_gid)
    ∷ (12, ci.i_size)
    ∷ (16, ci.i_ctime.tv_sec)
    ∷ (24, ci.i_ctime.tv_nsec)
    ∷ (28, ci.i_ctime.tv_nsec / 2 ^ 32)
    ∷ (32, ci.i_atime.tv_sec)
    ∷ (40, ci.i_atime.tv_nsec)
    ∷ (44, ci.i_atime.tv_nsec / 2 ^ 32)
    ∷ (48, ci.i_mtime.tv_sec)
    ∷ (56, ci.i_mtime.tv_nsec)
    ∷ (60, ci.i_mtime.tv_nsec / 2 ^ 32)
    ∷ (64, ci.i_blocks)
    ∷ (68, ci.i_nlink)
    ∷ (72, ci.index_block)
    ∷ []

unfoldable pub store_inode : ℕ → InodeInfo → Block → Block
store_inode base ci b = set_u16 (set_words base (inode_words ci) b) (base + 76) ci.num_slices

unfoldable pub load_inode : ℕ → Block → InodeInfo
load_inode base b = record {
  i_mode = get_u32 b (base + 0);
  i_uid = get_u32 b (base + 4);
  i_gid = get_u32 b (base + 8);
  i_size = get_u32 b (base + 12);
  i_ctime = record { tv_sec = get_u32 b (base + 16); tv_nsec = get_u64 b (base + 24) };
  i_atime = record { tv_sec = get_u32 b (base + 32); tv_nsec = get_u64 b (base + 40) };
  i_mtime = record { tv_sec = get_u32 b (base + 48); tv_nsec = get_u64 b (base + 56) };
  i_blocks = get_u32 b (base + 64);
  i_nlink = get_u32 b (base + 68);
  index_block = get_u32 b (base + 72);
  num_slices = get_u16 b (base + 76);
}

-- What iget_locked gives: nothing, an inode of the cache, or a new one with I_NEW set.
pub data Locked : Type 0 where
  no_inode in_cache is_fresh : Locked

module _ (k : Kernel) where
  unfoldable pub ouichefs_write_inode : ℕ → M (Unit {0})
  ouichefs_write_inode ino = do
    inode ← gets (λ fs. fs.inodes ino)
    nr_inodes ← gets (λ fs. fs.sbi.nr_inodes)
    if leb nr_inodes ino then pure tt else do
      got ← sb_bread k (inode_block ino)
      if not got
          then throw eio
          else modify (with_block (inode_block ino) (store_inode (inode_offset ino) inode))

  -- The inode of an inode number from disk.
  unfoldable pub fill_inode : ℕ → M ℕ
  fill_inode ino = do
    got ← sb_bread k (inode_block ino)
    if not got then throw eio else do
      b ← gets (λ fs. fs.disk (inode_block ino))
      modify (with_inode ino (λ _. load_inode (inode_offset ino) b))
      pure ino

  unfoldable pub ouichefs_iget : (ℕ → ℕ → Locked) → ℕ → M ℕ
  ouichefs_iget iget_locked ino = do
    nr_inodes ← gets (λ fs. fs.sbi.nr_inodes)
    calls ← gets (λ fs. fs.calls)
    if leb nr_inodes ino then throw einval else elim (iget_locked calls ino) [
      | no_inode ↦ throw enomem
      | in_cache ↦ pure ino
      | is_fresh ↦ fill_inode ino
    ]
