-- ===== src/File/PageCache/WriteEnd.antt =====
-- ouichefs_write_end of file.c.
use lkp_project.Prelude.{
  ◌∙◌, ==_self, ℕ, suc, ◌+◌, ◌-◌, ◌≤◌, ◌<◌, true, ltb, ◌≡◌, refl, arith, inl, inr, Bool-cases,
}
use lkp_project.Words.{div_round_up}
use lkp_project.Kernel.{Kernel, BitmapLaws, Timespec}
use lkp_project.Block.{block_size}
use lkp_project.State.{InodeInfo, Fs, ok, with_inode}
use lkp_project.File.BigContents.{IndexOk}
use lkp_project.File.Outcomes.{on_fail_ok}
use lkp_project.File.PageCache.{
  update_file, free_entries, u32, false, PageVfs, ouichefs_write_end, shrink,
}
use lkp_project.File.PageCache.Gets.{called, called-IndexOk}
use lkp_project.File.PageCache.Frees.{IsBlock, Freed, Freed-none, Freed-called, free_entries-Freed}

-- The blocks count of a file of this size: those of its bytes and the index block.
abbrev pub blocks_for : ℕ → ℕ
blocks_for size = div_round_up size block_size + 1

-- The state once the metadata of inode `ino` was updated.
abbrev pub updated : ℕ → Timespec → Fs → Fs
updated ino time fs =
    with_inode ino
      (λ ci. record ci { i_blocks = blocks_for ci.i_size; i_mtime = time; i_ctime = time })
      (record fs { calls = suc fs.calls })

updated-IndexOk :
    (ib ino : ℕ) (time : Timespec) (fs : Fs) → IndexOk ib fs → IndexOk ib (updated ino time fs)
updated-IndexOk ib ino time fs v = record {
  counted = v.counted;
  some_index = v.some_index;
  index_used = v.index_used;
  used = v.used;
  apart = v.apart;
  distinct = v.distinct;
}

module _ {k : Kernel} (laws : BitmapLaws k) (reads : (t b : ℕ) → k.bread t b ≡ true) where
  shrink-Freed :
      (ino old ib new : ℕ) (fs : Fs)
      → (fs.inodes ino).index_block ≡ ib
      → (fs.inodes ino).i_blocks ≡ new
      → old ≤ 1025
      → 0 < new
      → IndexOk ib fs
      → ((j : ℕ) → new ≤ j + 1 → j + 1 < old → IsBlock ib fs j)
      → (fs' : Fs) × (shrink k ino old fs ≡ ok tt fs') × Freed ib (new - 1) (old - new) fs fs'
  unfolding shrink
  shrink-Freed ino old ib new fs index count small pos v blocks = elim (Bool-cases (ltb new old)) [
    | inl smaller ↦
        let (fs', runs, freed) =
          free_entries-Freed laws (old - new) (new - 1) ib (called fs) (ground (arith, smaller))
            (called-IndexOk ib fs v)
            (λ j p q. blocks j (omega (arith, p)) (ground (arith, smaller, q, pos))) in
        (fs', run smaller ∙ runs, Freed-called freed)
    | inr not_smaller ↦
        let none : old - new ≡ 0 = ground (arith, not_smaller) in
        (fs, rw (count, not_smaller) refl, rw none (Freed-none ib (new - 1) fs v))
  ]
    where
      run :
          ltb new old ≡ true
          → shrink k ino old fs ≡ free_entries k (old - new) (new - 1) ib (called fs)
      run smaller = rw (index, count, smaller, reads fs.calls ib) refl

  -- Where generic_write_end reports at least the length of the write, every read succeeds, the index is
  -- well-formed, the old blocks count is at most 1025 and each entry behind the new end names a block of
  -- the partition other than 0: ouichefs_write_end
  -- returns that result with the blocks count of the new size, and gives back exactly the blocks behind
  -- the end, whose entries are zeroed.
  pub ouichefs_write_end-Freed :
      (v : PageVfs) (ino pos len copied ret : ℕ) (fs fs1 : Fs)
      → v.generic_write_end ino pos len copied fs ≡ ok ret fs1
      → len ≤ ret
      → (fs1.inodes ino).i_blocks ≤ 1025
      → IndexOk (fs1.inodes ino).index_block fs1
      → ((j : ℕ)
          → blocks_for (fs1.inodes ino).i_size ≤ j + 1
          → j + 1 < (fs1.inodes ino).i_blocks
          → IsBlock (fs1.inodes ino).index_block fs1 j)
      → (fs' : Fs) × (ouichefs_write_end k v ino pos len copied fs ≡ ok ret fs')
        × Freed
            (fs1.inodes ino).index_block
            (blocks_for (fs1.inodes ino).i_size - 1)
            ((fs1.inodes ino).i_blocks - blocks_for (fs1.inodes ino).i_size)
            (updated ino (k.now fs1.calls) fs1)
            fs'
  unfolding ouichefs_write_end update_file
  ouichefs_write_end-Freed v ino pos len copied ret fs fs1 writes whole small valid blocks =
      let inode : InodeInfo = fs1.inodes ino in
      let long : ltb ret len ≡ false = ground (arith, whole) in
      let old : u32 inode.i_blocks ≡ inode.i_blocks = omega (arith, small) in
      let time : Timespec = k.now fs1.calls in
      let (fs', runs, freed) =
        shrink-Freed ino inode.i_blocks inode.index_block (blocks_for inode.i_size)
          (updated ino time fs1) (rw (==_self ino) refl) (rw (==_self ino) refl) small (omega arith)
          (updated-IndexOk inode.index_block ino time fs1 valid) blocks in
      (
        fs',
        on_fail_ok (v.generic_write_end ino pos len copied) _ _ ret fs fs1 writes
            ∙ (rw (long, old, runs) refl),
        freed,
      )
