-- ===== src/Super.antt =====
-- super.c: the super block and the bitmaps on disk, ouichefs_sync_fs and ouichefs_fill_super, with
-- the copies of bitmap.h between the bitmaps in memory and the blocks.
pub mod Bits
pub mod Sync
pub mod Fill
pub mod Mount
pub mod Statfs
use lkp_project.Words.{u32}
use lkp_project.Words.Digits.{testbit}
use lkp_project.Prelude.{
  ℕ, zero, suc, ◌+◌, ◌-◌, ◌*◌, ◌/◌, ◌%◌, ◌^◌, Bool, true, false, not, ltb, ◌==◌, if◌then◌else◌,
  List, [], ◌∷◌, Option, none, some,
}
use lkp_project.Kernel.{Kernel, Bitmap}
use lkp_project.Block.{Block, block_size, within, get_u32}
use lkp_project.Block.Fields.{set_words}
use lkp_project.State.{
  SbInfo, InodeInfo, Errno, eperm, eio, enomem, M, pure, throw, ◌>>=◌, ◌>>◌, gets, modify,
  with_block, with_sbi, with_inode, sb_bread, kmalloc, filename_len,
}
use lkp_project.Store.{Locked, ouichefs_iget}

abbrev pub ouichefs_magic : ℕ
ouichefs_magic = 0x48434957

-- The words that sync_sb_info writes to block 0. The magic number is not one of them.
abbrev pub sb_words : SbInfo → List (ℕ × ℕ)
sb_words sbi =
    (4, sbi.nr_blocks)
    ∷ (8, sbi.nr_inodes)
    ∷ (12, sbi.nr_istore_blocks)
    ∷ (16, sbi.nr_ifree_blocks)
    ∷ (20, sbi.nr_bfree_blocks)
    ∷ (32, sbi.nr_free_blocks)
    ∷ (28, sbi.nr_free_inodes)
    ∷ (40, sbi.s_free_sliced_blocks)
    ∷ (36, sbi.nr_used_slices)
    ∷ (24, sbi.nr_sliced_blocks)
    ∷ []

-- What ouichefs_fill_super takes from block 0 into zeroed memory.
unfoldable pub load_sb : Block → SbInfo
load_sb b = record {
  magic = 0;
  nr_blocks = get_u32 b 4;
  nr_inodes = get_u32 b 8;
  nr_istore_blocks = get_u32 b 12;
  nr_ifree_blocks = get_u32 b 16;
  nr_bfree_blocks = get_u32 b 20;
  nr_sliced_blocks = get_u32 b 24;
  nr_free_inodes = get_u32 b 28;
  nr_free_blocks = get_u32 b 32;
  nr_used_slices = get_u32 b 36;
  s_free_sliced_blocks = get_u32 b 40;
  ifree_bitmap = λ _. false;
  bfree_bitmap = λ _. false;
}

abbrev pub bits_per_block : ℕ
bits_per_block = 32768

abbrev pub bit_value : Bool → ℕ
bit_value true = 1
bit_value false = 0

-- The number whose digits are bits `s` to `s + n - 1` of a bitmap.
unfoldable pub bits : Bitmap → ℕ → ℕ → ℕ
bits m s zero = 0
bits m s (suc n) = bit_value (m s) + 2 * bits m (s + 1) n

-- A bit of the bytes of a block.
abbrev pub bit_of : Block → ℕ → Bool
bit_of b j = testbit (b (j / 8) % 256) (j % 8)

-- copy_bitmap_to_le64 and copy_bitmap_from_le64 of the `i`-th block of a bitmap.
unfoldable pub copy_bitmap_to_le64 : Bitmap → ℕ → Block → Block
copy_bitmap_to_le64 m i b j =
    if ltb j block_size then bits m (i * bits_per_block + 8 * j) 8 else b j

unfoldable pub copy_bitmap_from_le64 : Bitmap → ℕ → Block → Bitmap
copy_bitmap_from_le64 m i b j =
    if within (i * bits_per_block) bits_per_block j then bit_of b (j - i * bits_per_block) else m j

-- What mounting takes from the VFS besides the calls of `Kernel`.
pub record Vfs : Type 0 where
  pub iget_locked : ℕ → ℕ → Locked
  pub sb_info_size : ℕ  -- sizeof(struct ouichefs_sb_info)
  pub fsuid : ℕ
  pub fsgid : ℕ
  pub makes_root : ℕ → Bool  -- does d_make_root succeed
  pub register_sysfs : ℕ → Option Errno

module _ (k : Kernel) where
  unfoldable pub sync_sb_info : M (Unit {0})
  sync_sb_info = do
    sbi ← gets (λ fs. fs.sbi)
    got ← sb_bread k 0
    if not got then throw eio else modify (with_block 0 (set_words 0 (sb_words sbi)))

  -- The loops of sync_ifree and sync_bfree: `first` is the block of the bitmap's start.
  unfoldable pub sync_bitmap : ℕ → ℕ → ℕ → Bitmap → M (Unit {0})
  sync_bitmap zero i first m = pure tt
  sync_bitmap (suc rounds) i first m = do
    got ← sb_bread k (first + i)
    if not got then throw eio else do
      modify (with_block (first + i) (copy_bitmap_to_le64 m i))
      sync_bitmap rounds (i + 1) first m

  unfoldable pub sync_ifree : M (Unit {0})
  sync_ifree = do
    sbi ← gets (λ fs. fs.sbi)
    sync_bitmap sbi.nr_ifree_blocks 0 (sbi.nr_istore_blocks + 1) sbi.ifree_bitmap

  unfoldable pub sync_bfree : M (Unit {0})
  sync_bfree = do
    sbi ← gets (λ fs. fs.sbi)
    sync_bitmap sbi.nr_bfree_blocks 0 (sbi.nr_istore_blocks + sbi.nr_ifree_blocks + 1)
        sbi.bfree_bitmap

  unfoldable pub ouichefs_sync_fs : M (Unit {0})
  ouichefs_sync_fs = do sync_sb_info; sync_ifree; sync_bfree

  -- The loops of ouichefs_fill_super over the blocks of a bitmap.
  unfoldable pub load_bitmap : ℕ → ℕ → ℕ → Bitmap → M Bitmap
  load_bitmap zero i first m = pure m
  load_bitmap (suc rounds) i first m = do
    got ← sb_bread k (first + i)
    if not got then throw eio else do
      b ← gets (λ fs. fs.disk (first + i))
      load_bitmap rounds (i + 1) first (copy_bitmap_from_le64 m i b)

  -- kzalloc of a bitmap and its loop.
  unfoldable pub alloc_bitmap : ℕ → ℕ → M Bitmap
  alloc_bitmap nr first = do
    got ← kmalloc k (u32 (nr * block_size))
    if not got then throw enomem else load_bitmap nr 0 first (λ _. false)

  -- The root inode, its owner, its dentry and the entry in sysfs.
  unfoldable pub mount_root : Vfs → M (Unit {0})
  mount_root vfs = do
    root ← ouichefs_iget k vfs.iget_locked 1
    modify (with_inode root (λ ci. record ci { i_uid = vfs.fsuid; i_gid = vfs.fsgid }))
    calls ← gets (λ fs. fs.calls)
    if not (vfs.makes_root calls)
        then throw enomem
        else elim (vfs.register_sysfs calls) [ none ↦ pure tt | some e ↦ throw e ]

  unfoldable pub ouichefs_fill_super : Vfs → M (Unit {0})
  ouichefs_fill_super vfs = do
    got ← sb_bread k 0
    if not got then throw eio else do
      csb ← gets (λ fs. fs.disk 0)
      if not (get_u32 csb 0 == ouichefs_magic) then throw eperm else do
        got_sbi ← kmalloc k vfs.sb_info_size
        if not got_sbi then throw enomem else do
          let sbi = load_sb csb
          modify (with_sbi (λ _. sbi))
          ifree ← alloc_bitmap sbi.nr_ifree_blocks (sbi.nr_istore_blocks + 1)
          modify (with_sbi (λ sbi. record sbi { ifree_bitmap = ifree }))
          bfree ← alloc_bitmap sbi.nr_bfree_blocks (sbi.nr_istore_blocks + sbi.nr_ifree_blocks + 1)
          modify (with_sbi (λ sbi. record sbi { bfree_bitmap = bfree }))
          mount_root vfs
