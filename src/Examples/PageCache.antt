-- ===== src/Examples/PageCache.antt =====
-- The operations of the page cache on a big file, with and without a block.
use lkp_project.Prelude.{
  ℕ, ◌+◌, ◌*◌, ◌≤◌, ◌<◌, true, ◌==◌, if◌then◌else◌, ◌≡◌, refl, arith, ◌∙◌, inl, inr, different,
  update,
}
use lkp_project.Block.{Block, set_u32}
use lkp_project.Block.Laws.{get_u32-set_u32_self, get_u32-set_u32_apart}
use lkp_project.State.{Fs, ok, pure}
use lkp_project.File.Reads.{index_entry}
use lkp_project.File.BigContents.{same-or-other, IndexOk}
use lkp_project.File.PageCache.{PageVfs, ouichefs_file_get_block, ouichefs_write_end, allocs_needed}
use lkp_project.File.PageCache.Gets.{GetsBlock, ouichefs_file_get_block-GetsBlock}
use lkp_project.File.PageCache.Frees.{IsBlock, Freed}
use lkp_project.File.PageCache.WriteEnd.{blocks_for, updated, ouichefs_write_end-Freed}
use lkp_project.Examples.Host.{host, host_laws, blank_block, blank_inode, small_fs}
use lkp_project.Examples.Files.{one_free, one_free-BlocksCounted, no_entry}

-- Block 6 is the first block of the file with index block 5.
abbrev one_link : Block
one_link = set_u32 blank_block 0 6

-- Inode 2 with size 0 and two blocks.
abbrev linked_fs : Fs
linked_fs = record small_fs {
  sbi = one_free;
  disk = update small_fs.disk 5 one_link;
  inodes =
      update small_fs.inodes 2 (record blank_inode { index_block = 5; i_size = 0; i_blocks = 2 });
}

link_lem : (i : ℕ) → index_entry one_link i ≡ (if i == 0 then 6 else 0)
link_lem i = elim (same-or-other i 0) [
  | inl first ↦ rw first (get_u32-set_u32_self blank_block 0 6 (omega arith))
  | inr other ↦
      rw (different i 0 other)
        (get_u32-set_u32_apart blank_block 0 (4 * i) 6 (ground (arith, other)) ∙ no_entry i)
]

linked_fs-IndexOk : IndexOk 5 linked_fs
linked_fs-IndexOk = record {
  counted = one_free-BlocksCounted;
  some_index = λ e. absurd (omega arith);
  index_used = refl;
  used = λ i h some. ground (arith, link_lem i);
  apart = λ i h e. absurd (ground (arith, link_lem i, e));
  distinct = λ i j hi hj some e. ground (arith, link_lem i, link_lem j, some, e);
}

ouichefs_file_get_block-GetsBlock_example :
    GetsBlock host 5 1 true linked_fs (ouichefs_file_get_block host 2 1 true linked_fs)
ouichefs_file_get_block-GetsBlock_example =
    ouichefs_file_get_block-GetsBlock host_laws 2 1 true linked_fs linked_fs-IndexOk

-- The VFS moves nothing and reports the number of copied bytes.
abbrev quiet_vfs : PageVfs
quiet_vfs = record {
  mpage_readahead = λ pages get. pure tt;
  block_write_full_page = λ page get. pure tt;
  block_write_begin = λ pos len get. pure tt;
  generic_write_end = λ ino pos len copied. pure copied;
}

first-IsBlock : (j : ℕ) → blocks_for 0 ≤ j + 1 → j + 1 < 2 → IsBlock 5 linked_fs j
first-IsBlock j p q =
    (λ e. absurd (ground (arith, link_lem j, e, q)), ground (arith, link_lem j, q))

ouichefs_write_end-Freed_example :
    (fs' : Fs) × (ouichefs_write_end host quiet_vfs 2 0 0 0 linked_fs ≡ ok 0 fs')
    × Freed 5 0 1 (updated 2 (host.now 0) linked_fs) fs'
ouichefs_write_end-Freed_example =
    ouichefs_write_end-Freed host_laws (λ t b. refl) quiet_vfs 2 0 0 0 0 linked_fs linked_fs refl
      (omega arith) (omega arith) linked_fs-IndexOk first-IsBlock

-- A file of 5000 bytes in a block and a half that grows to 9000 asks for one block, and a file without
-- blocks asks for none.
allocs_needed_runs : (allocs_needed 9000 5000 2 ≡ 1) × (allocs_needed 9000 0 0 ≡ 0)
unfolding allocs_needed
allocs_needed_runs = (refl, refl)
