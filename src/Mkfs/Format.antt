-- ===== src/Mkfs/Format.antt =====
-- mkfs/mkfs-ouichefs.c: the areas that the tool writes, one after the other, and main.
pub mod Written
pub mod Areas
pub mod Sequence
pub mod Bits
pub mod Lines
pub mod Main
pub mod Loads
pub mod Mounts
pub mod Allocations
use Prim.Native.Nat.{bit_and}
use lkp_project.Prelude.{
  ℕ, zero, suc, ◌+◌, ◌-◌, ◌*◌, ◌%◌, ◌^◌, min, Bool, true, false, not, ◌||◌, ltb, ◌==◌,
  if◌then◌else◌, Option, none, some, ◌∷◌, update,
}
use lkp_project.Words.{add32}
use lkp_project.Block.{Block, block_size, memset, memcpy}
use lkp_project.Block.Fields.{set_u64, set_words}
use lkp_project.State.{SbInfo, InodeInfo}
use lkp_project.Store.{inode_size, store_inode}
use lkp_project.Super.{sb_words}
use lkp_project.Mkfs.{superblock}

-- The C library: whether a malloc gives memory or a write moves the whole block, and how many bytes a
-- write moves otherwise, none where it fails. The number counts the calls made so far.
pub record Libc : Type 0 where
  pub succeeds : ℕ → Bool
  pub moved : ℕ → ℕ

-- The bytes that a write moves.
abbrev pub written : Libc → ℕ → ℕ
written libc t = if libc.succeeds t then block_size else min (libc.moved t) (block_size - 1)

-- The open file as blocks, and the block at the file's offset.
pub record Image : Type 0 where
  pub contents : ℕ → Block
  pub next : ℕ
  pub calls : ℕ

-- A routine of the tool returns a value or gives up.
abbrev pub Act : Type 0 → Type 0
Act A = Image → Option A × Image

abbrev pub done : {A : Type 0} → A → Act A
done a im = (some a, im)

module _ {A B : Type 0} where
  abbrev pub after : Option A × Image → (A → Act B) → Option B × Image
  after (some a, im) f = f a im
  after (none, im) f = (none, im)

  infixl 5 ◌>>=◌ ◌>>◌
  abbrev pub ◌>>=◌ : Act A → (A → Act B) → Act B
  ◌>>=◌ m f im = after (m im) f

  abbrev pub ◌>>◌ : Act A → Act B → Act B
  ◌>>◌ m n im = after (m im) (λ _. n)

abbrev pub filled_block : ℕ → Block
filled_block c = memset (λ _. 0) 0 c block_size

-- The words of struct ouichefs_superblock.
abbrev pub super_block : SbInfo → Block
super_block sb = set_words 0 ((0, sb.magic) ∷ sb_words sb) (filled_block 0)

abbrev pub first_data_block : SbInfo → ℕ
first_data_block sb =
    add32 (add32 (add32 1 sb.nr_bfree_blocks) sb.nr_ifree_blocks) sb.nr_istore_blocks

-- Inode 1: S_IFDIR with mode 0775.
abbrev pub root_inode : SbInfo → InodeInfo
root_inode sb = record {
  num_slices = 0;
  index_block = first_data_block sb;
  i_mode = 16893;
  i_uid = 0;
  i_gid = 0;
  i_size = block_size;
  i_blocks = 1;
  i_nlink = 2;
  i_ctime = record { tv_sec = 0; tv_nsec = 0 };
  i_atime = record { tv_sec = 0; tv_nsec = 0 };
  i_mtime = record { tv_sec = 0; tv_nsec = 0 };
}

abbrev pub ones_block : Block
ones_block = filled_block 0xff

-- `~mask` and `mask << 1` on uint64_t.
abbrev pub not64 : ℕ → ℕ
not64 a = 2 ^ 64 - 1 - a

abbrev pub shl64 : ℕ → ℕ
shl64 a = a * 2 % 2 ^ 64

-- The inner loop of write_bfree_blocks: the line, and what is left of nr_used. `rounds` is fuel: the
-- mask is 0 after 64 of them.
unfoldable pub clear_line : ℕ → ℕ → ℕ → ℕ → ℕ × ℕ
clear_line zero mask line nr_used = (line, nr_used)
clear_line (suc rounds) mask line nr_used =
    let rest = clear_line rounds (shl64 mask) (bit_and line (not64 mask)) (nr_used - 1) in
    if mask == 0
    then (line, nr_used)
    else (if nr_used - 1 == 0 then (bit_and line (not64 mask), 0) else rest)

-- Its outer loop. `rounds` is fuel: each round takes at least one from nr_used.
unfoldable pub clear_lines : ℕ → ℕ → ℕ → Block → Block
clear_lines zero i nr_used bfree = bfree
clear_lines (suc rounds) i nr_used bfree =
    let (line, left) = clear_line 65 1 (2 ^ 64 - 1) nr_used in
    let rest = clear_lines rounds (i + 1) left (set_u64 bfree (8 * i) line) in
    if nr_used == 0 then bfree else rest

abbrev pub nr_used_blocks : SbInfo → ℕ
nr_used_blocks sb =
    add32 (add32 (add32 sb.nr_istore_blocks sb.nr_ifree_blocks) sb.nr_bfree_blocks) 2

abbrev pub first_bfree_block : SbInfo → Block
first_bfree_block sb = clear_lines (nr_used_blocks sb) 0 (nr_used_blocks sb) ones_block

abbrev pub first_ifree_block : Block
first_ifree_block = set_u64 ones_block 0 0xfffffffffffffffc

module _ (libc : Libc) where
  unfoldable pub malloc : Act (Unit {0})
  malloc im = (if libc.succeeds im.calls then some tt else none, record im { calls = suc im.calls })

  -- write of a block. A short one is the last: the tool gives up.
  unfoldable pub write : Block → Act (Unit {0})
  write b im =
      let n = written libc im.calls in
      if n == block_size
      then (
        some tt,
        record {
          contents = update im.contents im.next b;
          next = suc im.next;
          calls = suc im.calls;
        },
      )
      else (
        none,
        record im {
          contents = update im.contents im.next (memcpy (im.contents im.next) 0 b n);
          calls = suc im.calls;
        },
      )

  -- The loops that write a block again and again.
  unfoldable pub write_copies : ℕ → Block → Act (Unit {0})
  write_copies zero b = done tt
  write_copies (suc n) b = do write b; write_copies n b

  unfoldable pub write_superblock : ℕ → Act SbInfo
  write_superblock partition_size = do
    malloc
    write (super_block (superblock partition_size))
    done (superblock partition_size)

  unfoldable pub write_inode_store : SbInfo → Act (Unit {0})
  write_inode_store sb = do
    malloc
    write (store_inode inode_size (root_inode sb) (filled_block 0))
    write_copies (sb.nr_istore_blocks - 1) (filled_block 0)

  unfoldable pub write_ifree_blocks : SbInfo → Act (Unit {0})
  write_ifree_blocks sb = do
    malloc
    write first_ifree_block
    write_copies (sb.nr_ifree_blocks - 1) (set_u64 first_ifree_block 0 (2 ^ 64 - 1))

  unfoldable pub write_bfree_blocks : SbInfo → Act (Unit {0})
  write_bfree_blocks sb = do
    malloc
    write (first_bfree_block sb)
    write_copies (sb.nr_bfree_blocks - 1) ones_block

  unfoldable pub write_root_index_block : SbInfo → Act (Unit {0})
  write_root_index_block sb = do malloc; write (filled_block 0)

  unfoldable pub write_data_blocks : SbInfo → Act (Unit {0})
  write_data_blocks sb = done tt

  -- The last part of main.
  unfoldable pub write_areas : ℕ → Act (Unit {0})
  write_areas partition_size = do
    sb ← write_superblock partition_size
    write_inode_store sb
    write_ifree_blocks sb
    write_bfree_blocks sb
    write_root_index_block sb
    write_data_blocks sb

-- The command line and the file that it names: argc, the first character of argv[1], and what open,
-- fstat and get_blockdev_size give.
pub record Command : Type 0 where
  pub argc : ℕ
  pub first : ℕ
  pub opens : Bool
  pub has_stat : Bool
  pub is_blk : Bool
  pub st_size : ℕ
  pub blk_size : Option ℕ

abbrev pub size_of : Command → Option ℕ
size_of c = if c.is_blk then c.blk_size else some c.st_size

abbrev pub min_size : ℕ
min_size = 100 * block_size

abbrev pub exit_status : Option (Unit {0}) × Image → ℕ × Image
exit_status (some _, im) = (0, im)
exit_status (none, im) = (1, im)

unfoldable pub main : Libc → Command → Image → ℕ × Image
main libc c im =
    if not (c.argc == 2) || (c.first == 45)
    then (1, im)
    else (if not c.opens || not c.has_stat then (1, im) else elim (size_of c) [
      | none ↦ (1, im)
      | some partition_size ↦
          if ltb partition_size min_size
          then (1, im)
          else exit_status (write_areas libc partition_size im)
    ])
