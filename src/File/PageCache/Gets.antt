-- ===== src/File/PageCache/Gets.antt =====
-- ouichefs_file_get_block of file.c on a big file with a well-formed index.
use lkp_project.Prelude.{
  ℕ, suc, ◌≤◌, ◌<◌, ◌≢◌, ◌⊎◌, Bool, true, false, leb, ◌==◌, Option, none, some, ◌≡◌, refl, arith,
  Bool-cases, inl, inr,
}
use lkp_project.Kernel.{Kernel, BitmapLaws}
use lkp_project.State.{Fs, Run, ok, fail, efbig, eio, enospc, and_then, pure}
use lkp_project.Bitmap.{get_free_block}
use lkp_project.File.Reads.{index_entry}
use lkp_project.File.BigWrites.{block_of}
use lkp_project.File.BigContents.{block_of_lem, there-HasBlock, IndexOk, HasBlock}
use lkp_project.File.PageCache.{ouichefs_file_get_block}

-- One call with one read.
abbrev pub called : Fs → Fs
called fs = record fs { calls = suc fs.calls }

-- The outcomes: EFBIG behind the last entry; EIO where the index block cannot be read; no mapping for a
-- hole that is only read; ENOSPC where a hole is to be filled and no block is free; and the block
-- behind the entry, which is one that was free where there was a hole.
pub data GetsBlock (k : Kernel) (ib iblock : ℕ) (create : Bool) (fs : Fs)
    : Run (Option ℕ) → Type 0 where
  unreadable :
      iblock < 1024
      → k.bread fs.calls ib ≡ false
      → GetsBlock k ib iblock create fs (fail eio (called fs))
  too_far : 1024 ≤ iblock → GetsBlock k ib iblock create fs (fail efbig fs)
  hole :
      create ≡ false
      → index_entry (fs.disk ib) iblock ≡ 0
      → GetsBlock k ib iblock create fs (ok none (called fs))
  no_space :
      create ≡ true
      → index_entry (fs.disk ib) iblock ≡ 0
      → ((j : ℕ) → j < fs.sbi.nr_blocks → fs.sbi.bfree_bitmap j ≡ false)
      → GetsBlock k ib iblock create fs (fail enospc (called fs))
  mapped :
      (bno : ℕ) (fs' : Fs)
      → (create ≡ true) ⊎ (index_entry (fs.disk ib) iblock ≢ 0)
      → HasBlock ib iblock (called fs) bno fs'
      → GetsBlock k ib iblock create fs (ok (some bno) fs')

pub called-IndexOk : (ib : ℕ) (fs : Fs) → IndexOk ib fs → IndexOk ib (called fs)
called-IndexOk ib fs v = record {
  counted = v.counted;
  some_index = v.some_index;
  index_used = v.index_used;
  used = v.used;
  apart = v.apart;
  distinct = v.distinct;
}

module _ {k : Kernel} (laws : BitmapLaws k) where
  -- Where a block is to be created, the call is block_of, whose block it maps.
  creates :
      (ino iblock : ℕ) (fs : Fs)
      → iblock < 1024
      → k.bread fs.calls (fs.inodes ino).index_block ≡ true
      → ouichefs_file_get_block k ino iblock true fs
        ≡ and_then (block_of k (fs.inodes ino).index_block iblock (called fs)) (λ b. pure (some b))
  unfolding ouichefs_file_get_block block_of
  creates ino iblock fs low got =
      let ib : ℕ = (fs.inodes ino).index_block in
      elim (Bool-cases (index_entry (fs.disk ib) iblock == 0)) [
        | inr there ↦ rw (inside, got, there) refl
        | inl is_hole ↦ elim (Bool-cases ((get_free_block k fs.sbi).0 == 0)) [
          | inl none_free ↦ rw (inside, got, is_hole, none_free) refl
          | inr some_free ↦ rw (inside, got, is_hole, some_free) refl
        ]
      ]
    where
      inside : leb 1024 iblock ≡ false
      inside = ground (arith, low)

  gets_too_far :
      (ino iblock : ℕ) (create : Bool) (fs : Fs)
      → leb 1024 iblock ≡ true
      → GetsBlock k
          (fs.inodes ino).index_block
          iblock
          create
          fs
          (ouichefs_file_get_block k ino iblock create fs)
  unfolding ouichefs_file_get_block
  gets_too_far ino iblock create fs far = rw far (too_far (ground (arith, far)))

  gets_created :
      (ino iblock : ℕ) (fs : Fs)
      → IndexOk (fs.inodes ino).index_block fs
      → iblock < 1024
      → k.bread fs.calls (fs.inodes ino).index_block ≡ true
      → GetsBlock k
          (fs.inodes ino).index_block
          iblock
          true
          fs
          (ouichefs_file_get_block k ino iblock true fs)
  gets_created ino iblock fs v low got =
      let ib : ℕ = (fs.inodes ino).index_block in
      rw (creates ino iblock fs low got)
        (elim (block_of_lem laws ib iblock (called fs) low (called-IndexOk ib fs v)) [
          | inl (bno, fs', has, runs) ↦ rw runs (mapped bno fs' (inl refl) has)
          | inr (is_hole, none_free, runs) ↦ rw runs (no_space refl is_hole none_free)
        ])

  gets_existing :
      (ino iblock : ℕ) (fs : Fs)
      → IndexOk (fs.inodes ino).index_block fs
      → iblock < 1024
      → k.bread fs.calls (fs.inodes ino).index_block ≡ true
      → GetsBlock k
          (fs.inodes ino).index_block
          iblock
          false
          fs
          (ouichefs_file_get_block k ino iblock false fs)
  unfolding ouichefs_file_get_block
  gets_existing ino iblock fs v low got =
      let ib : ℕ = (fs.inodes ino).index_block in
      let inside : leb 1024 iblock ≡ false = ground (arith, low) in
      elim (Bool-cases (index_entry (fs.disk ib) iblock == 0)) [
        | inl is_hole ↦ rw (inside, got, is_hole) (hole refl (ground (arith, is_hole)))
        | inr there ↦
            rw (inside, got, there)
              (mapped (index_entry (fs.disk ib) iblock) (called fs) (inr (ground (arith, there))) (
                there-HasBlock ib iblock (called fs) (called-IndexOk ib fs v)
                  (ground (arith, there))))
      ]

  gets_unreadable :
      (ino iblock : ℕ) (create : Bool) (fs : Fs)
      → iblock < 1024
      → k.bread fs.calls (fs.inodes ino).index_block ≡ false
      → GetsBlock k
          (fs.inodes ino).index_block
          iblock
          create
          fs
          (ouichefs_file_get_block k ino iblock create fs)
  unfolding ouichefs_file_get_block
  gets_unreadable ino iblock create fs low lost =
      let inside : leb 1024 iblock ≡ false = ground (arith, low) in
      rw (inside, lost) (unreadable low lost)

  -- ouichefs_file_get_block of an inode whose index is well-formed, on every branch: the error, or the
  -- block that is mapped; a block is taken only for a hole that is to be filled, and it was free; the
  -- index stays well-formed, and one entry changes at most.
  pub ouichefs_file_get_block-GetsBlock :
      (ino iblock : ℕ) (create : Bool) (fs : Fs)
      → IndexOk (fs.inodes ino).index_block fs
      → GetsBlock k
          (fs.inodes ino).index_block
          iblock
          create
          fs
          (ouichefs_file_get_block k ino iblock create fs)
  ouichefs_file_get_block-GetsBlock ino iblock create fs v = elim (Bool-cases (leb 1024 iblock)) [
    | inl far ↦ gets_too_far ino iblock create fs far
    | inr near ↦ elim (Bool-cases (k.bread fs.calls (fs.inodes ino).index_block)) [
      | inr lost ↦ gets_unreadable ino iblock create fs (ground (arith, near)) lost
      | inl got ↦ with_create create (ground (arith, near)) got
    ]
  ]
    where
      with_create :
          (create : Bool)
          → iblock < 1024
          → k.bread fs.calls (fs.inodes ino).index_block ≡ true
          → GetsBlock k
              (fs.inodes ino).index_block
              iblock
              create
              fs
              (ouichefs_file_get_block k ino iblock create fs)
      with_create true low got = gets_created ino iblock fs v low got
      with_create false low got = gets_existing ino iblock fs v low got
