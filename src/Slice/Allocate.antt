-- ===== src/Slice/Allocate.antt =====
-- allocate_and_init_slice_block on every branch.
use lkp_project.Prelude.{
  refl, ◌≢◌, count_zero, ℕ, suc, ◌^◌, ◌≤◌, ◌<◌, ◌≡◌, arith, true, false, ltb, ◌==◌, Bool-cases, inl,
  inr, update, ap,
}
use lkp_project.Words.{add32}
use lkp_project.Kernel.{Kernel, BitmapLaws}
use lkp_project.Block.{Block, get_u32}
use lkp_project.State.{Fs, Run, ok, fail, eio, enospc, with_sbi}
use lkp_project.Bitmap.{put_block}
use lkp_project.Bitmap.Blocks.{
  BlocksCounted, exhausted, allocated, take_block, give_block, get_free_block_lem,
  put_block-give_block, put_block-take_block,
}
use lkp_project.Slice.{
  sb_bitmap, sb_next, bitmap_all_free, init_slice_header, init_allocated,
  allocate_and_init_slice_block,
}

-- The header that init_slice_block writes frees every slice but the first, and leaves the next
-- word to whatever the block held.
pub init_slice_header_lem :
    (b : Block)
    → (sb_bitmap (init_slice_header b) ≡ bitmap_all_free)
      × (sb_next (init_slice_header b) ≡ sb_next b)
unfolding init_slice_header get_u32
init_slice_header_lem b = ground arith

-- `fs'` is `fs` with the free block `bno` made a sliced block that has all its slices free. The
-- rest of that block, its next word included, is what it was.
pub record IsSliced (bno : ℕ) (fs fs' : Fs) : Type 0 where
  pub sbi :
      fs'.sbi
      ≡ record (take_block fs.sbi bno) { nr_sliced_blocks = add32 fs.sbi.nr_sliced_blocks 1 }
  pub header : sb_bitmap (fs'.disk bno) ≡ bitmap_all_free
  pub stale : (j : ℕ) → 4 ≤ j → fs'.disk bno j ≡ fs.disk bno j
  pub others : (b : ℕ) → b ≢ bno → fs'.disk b ≡ fs.disk b
  pub inodes : fs'.inodes ≡ fs.inodes
  pub io : fs'.io ≡ fs.io

sliced_state : ℕ → Fs → Fs
sliced_state bno fs = record fs {
  sbi = record (take_block fs.sbi bno) { nr_sliced_blocks = add32 fs.sbi.nr_sliced_blocks 1 };
  disk = update fs.disk bno (init_slice_header (fs.disk bno));
  calls = suc fs.calls;
}

sliced_state-IsSliced : (bno : ℕ) (fs : Fs) → IsSliced bno fs (sliced_state bno fs)
unfolding sliced_state
sliced_state-IsSliced bno fs = record {
  sbi = refl;
  header = ground (arith, init_slice_header_lem (fs.disk bno));
  stale = λ j p. unfold init_slice_header in ground arith;
  others = λ b p. ground arith;
  inodes = refl;
  io = refl;
}

pub data AllocatesSliced (k : Kernel) (fs : Fs) (r : Run ℕ) : Type 0 where
  no_block :
      ((j : ℕ) → j < fs.sbi.nr_blocks → fs.sbi.bfree_bitmap j ≡ false)
      → r ≡ fail enospc (with_sbi (λ sbi. give_block sbi 0) fs)
      → AllocatesSliced k fs r
  too_far :
      (bno : ℕ)
      → 2 ^ 27 < bno
      → bno < fs.sbi.nr_blocks
      → fs.sbi.bfree_bitmap bno ≡ true
      → r ≡ fail enospc fs
      → AllocatesSliced k fs r
  unreadable :
      (bno : ℕ)
      → k.bread fs.calls bno ≡ false
      → bno < fs.sbi.nr_blocks
      → fs.sbi.bfree_bitmap bno ≡ true
      → r ≡ fail eio (record fs { calls = suc fs.calls })
      → AllocatesSliced k fs r
  allocates :
      (bno : ℕ) (fs' : Fs)
      → 0 < bno
      → bno < fs.sbi.nr_blocks
      → bno ≤ 2 ^ 27
      → fs.sbi.bfree_bitmap bno ≡ true
      → IsSliced bno fs fs'
      → r ≡ ok bno fs'
      → AllocatesSliced k fs r

module _ {k : Kernel} (laws : BitmapLaws k) {fs : Fs} (v : BlocksCounted fs.sbi) where
  -- allocate_and_init_slice_block takes a free block and makes it a sliced block; when it cannot
  -- read the block, or its number is too large, everything is as before; but when there is no free
  -- block, it marks block 0, the super block, free.
  pub allocate_and_init_slice_block_lem : AllocatesSliced k fs (allocate_and_init_slice_block k fs)
  unfolding allocate_and_init_slice_block
  allocate_and_init_slice_block_lem = elim (get_free_block_lem laws v) [
    | exhausted used e ↦
        no_block used (rw e (ap (λ sbi. fail enospc (record fs { sbi = sbi })) (freed_zero used)))
    | allocated bno pos lt free least e ↦ rw e (branches bno pos lt free)
  ]
    where
      freed_zero :
          ((j : ℕ) → j < fs.sbi.nr_blocks → fs.sbi.bfree_bitmap j ≡ false)
          → put_block k fs.sbi 0 ≡ give_block fs.sbi 0
      freed_zero used =
          put_block-give_block laws v 0 (omega arith)
            (omega (arith, v.counted, count_zero fs.sbi.bfree_bitmap fs.sbi.nr_blocks used))

      nonzero : (bno : ℕ) → 0 < bno → (bno == 0) ≡ false
      nonzero bno pos = ground arith

      branches :
          (bno : ℕ)
          → 0 < bno
          → bno < fs.sbi.nr_blocks
          → fs.sbi.bfree_bitmap bno ≡ true
          → AllocatesSliced k fs (init_allocated k bno (record fs { sbi = take_block fs.sbi bno }))
      branches bno pos lt free = elim (Bool-cases (ltb (2 ^ 27) bno)) [
        | inl far ↦
            too_far bno (ground arith) lt free
              (rw (nonzero bno pos, far, put_block-take_block laws v bno lt free))
        | inr near ↦ elim (Bool-cases (k.bread fs.calls bno)) [
          | inl got ↦
              allocates bno (sliced_state bno fs) pos lt (ground arith) free
                (sliced_state-IsSliced bno fs)
                (unfold sliced_state in rw (nonzero bno pos, near, got))
          | inr lost ↦
              unreadable bno lost lt free
                (rw (nonzero bno pos, near, lost, put_block-take_block laws v bno lt free))
        ]
      ]
