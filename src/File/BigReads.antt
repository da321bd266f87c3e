-- ===== src/File/BigReads.antt =====
-- Big files: the loop of custom_read_iter and the bytes that it delivers.
use mathlib.Core.Path.{subst}
use lkp_project.Prelude.{
  ◌≢◌, leb, zero, min, min, ◌*◌, sym, ◌∙◌, ◌⊎◌, ℕ, suc, ◌+◌, ◌-◌, ◌/◌, ◌%◌, ◌≤◌, ◌<◌, false, ◌==◌,
  ◌≡◌, arith, refl, ap, inl, inr,
}
use lkp_project.Kernel.{Kernel}
use lkp_project.Block.{block_size}
use lkp_project.State.{with_io, max_filesize, Fs, ok}
use lkp_project.File.Reads.{
  read_big, is_small_file, read_count, custom_read_iter, max_links, read_blocks, index_entry,
  read_block,
}
use lkp_project.File.SmallReads.{Succeeds}
use lkp_project.File.BigBytes.{big_byte, Delivers, Delivers-trans, Delivers-ext, read_block_lem}

module _ {k : Kernel} (s : Succeeds k) where
  -- A round followed by the rest of the loop.
  read_blocks_step :
      (fuel index_block pos count n : ℕ) (fs fs1 fs2 : Fs)
      → 0 < count
      → n ≡ min count (block_size - pos % block_size)
      → pos + count ≤ max_links * block_size
      → read_block k (index_entry (fs.disk index_block) (pos / block_size)) (pos % block_size) n fs
        ≡ ok tt fs1
      → Delivers (λ j. big_byte fs.disk index_block (pos + j)) n fs fs1
      → read_blocks k fuel index_block (pos + n) (count - n) fs1 ≡ ok (pos + n + (count - n)) fs2
      → Delivers (λ j. big_byte fs1.disk index_block (pos + n + j)) (count - n) fs1 fs2
      → (read_blocks k (suc fuel) index_block pos count fs ≡ ok (pos + count) fs2)
        × Delivers (λ j. big_byte fs.disk index_block (pos + j)) count fs fs2
  unfolding read_blocks
  read_blocks_step fuel index_block pos count n fs fs1 fs2 more e fits read one reads two =
      (rw (some_bytes, sym e, in_reach, read) (rw (sym total) reads), whole)
    where
      some_bytes : (count == 0) ≡ false
      some_bytes = ground arith

      in_reach : leb max_links (pos / block_size) ≡ false
      in_reach = ground arith

      total : pos + n + (count - n) ≡ pos + count
      total = omega arith

      rest : Delivers (λ j. big_byte fs.disk index_block (pos + (n + j))) (count - n) fs1 fs2
      rest =
          Delivers-ext {calls = fs1.calls}
            (λ j p.
              ap (λ d. big_byte d index_block (pos + n + j)) one.disk
              ∙ ap (big_byte fs.disk index_block) (omega arith))
            two

      whole : Delivers (λ j. big_byte fs.disk index_block (pos + j)) count fs fs2
      whole =
          subst (λ c. Delivers (λ j. big_byte fs.disk index_block (pos + j)) c fs fs2) (omega arith)
            (Delivers-trans one rest)

  -- The loop ends normally behind the bytes asked for and delivers them.
  ReadsAll : (fuel index_block pos count : ℕ) → Fs → Type 0
  ReadsAll fuel index_block pos count fs =
      (fs' : Fs) × (read_blocks k fuel index_block pos count fs ≡ ok (pos + count) fs')
      × Delivers (λ j. big_byte fs.disk index_block (pos + j)) count fs fs'

  read_blocks_rounds :
      (fuel index_block pos count n : ℕ) (fs : Fs)
      → 0 < count
      → n ≡ min count (block_size - pos % block_size)
      → count ≤ fs.io.count
      → pos + count ≤ max_links * block_size
      → ((fs1 : Fs)
          → count - n ≤ fs1.io.count
          → ReadsAll fuel index_block (pos + n) (count - n) fs1)
      → ReadsAll (suc fuel) index_block pos count fs
  unfolding ReadsAll
  read_blocks_rounds fuel index_block pos count n fs more e le fits go_on =
      let (fs1, read, one) = read_block_lem s index_block pos n fs (omega arith) (omega arith) in
      let (fs2, reads, two) = go_on fs1 (omega (arith, one.count)) in
      let (runs, whole) =
        read_blocks_step fuel index_block pos count n fs fs1 fs2 more e fits read one reads two in
      (fs2, runs, whole)

  zero-or-more : (n : ℕ) → (n ≡ 0) ⊎ (0 < n)
  zero-or-more n = omega arith

  read_blocks_none : (fuel index_block pos : ℕ) (fs : Fs) → ReadsAll (suc fuel) index_block pos 0 fs
  unfolding ReadsAll read_blocks
  read_blocks_none fuel index_block pos fs = (
    fs,
    ap (λ p. ok p fs) (omega arith),
    record {
      bytes = λ j p. absurd (omega arith);
      before = λ j p. refl;
      filled = omega arith;
      count = omega arith;
      sbi = refl;
      disk = refl;
      inodes = refl;
    },
  )

  read_blocks_lem :
      (fuel index_block pos count : ℕ) (fs : Fs)
      → count < fuel
      → count ≤ fs.io.count
      → pos + count ≤ max_links * block_size
      → ReadsAll fuel index_block pos count fs
  read_blocks_lem zero index_block pos count fs f le fits = absurd (omega arith)
  read_blocks_lem (suc fuel) index_block pos count fs f le fits = elim (zero-or-more count) [
    | inl e ↦ rw e (read_blocks_none fuel index_block pos fs)
    | inr more ↦
        read_blocks_rounds fuel index_block pos count (min count (block_size - pos % block_size)) fs
          more refl le fits
          (λ fs1 le1.
            read_blocks_lem fuel index_block (pos + min count (block_size - pos % block_size))
              (count - min count (block_size - pos % block_size)) fs1 (omega arith) le1
              (omega arith))
  ]

  -- A read of a big file ends normally and gives as many bytes as there are behind the position and
  -- are asked for. They are the file's bytes from the position on, zeroes where the index has no
  -- block; the position moves behind them, and the partition stays as it was.
  pub custom_read_iter_big :
      (ino : ℕ) (fs : Fs)
      → (fs.inodes ino).i_blocks ≢ 0
      → (fs.inodes ino).index_block ≢ 0
      → fs.io.ki_pos < (fs.inodes ino).i_size
      → (fs.inodes ino).i_size ≤ max_filesize
      → 0 < fs.io.count
      → let n = min fs.io.count ((fs.inodes ino).i_size - fs.io.ki_pos) in
        (fs' : Fs) × (custom_read_iter k ino fs ≡ ok n fs')
        × ((j : ℕ)
            → j < n
            → fs'.io.sink (fs.io.filled + j)
              ≡ big_byte fs.disk (fs.inodes ino).index_block (fs.io.ki_pos + j))
        × (fs'.io.ki_pos ≡ fs.io.ki_pos + n)
        × (fs'.disk ≡ fs.disk)
        × (fs'.inodes ≡ fs.inodes)
        × (fs'.sbi ≡ fs.sbi)
  unfolding ReadsAll
  custom_read_iter_big ino fs blocks index before size asked =
      let (fs1, reads, all) =
        read_blocks_lem (suc n) (fs.inodes ino).index_block fs.io.ki_pos n now (omega arith)
          (omega arith) (omega arith) in
      (
        with_io (λ io. record io { ki_pos = fs.io.ki_pos + n }) fs1,
        unfold custom_read_iter read_big in
            rw (inside, limited, some_bytes, is_big, has_index, s.reads fs.calls _, reads) refl,
        all.bytes,
        refl,
        all.disk,
        all.inodes,
        all.sbi,
      )
    where
      n : ℕ
      n = min fs.io.count ((fs.inodes ino).i_size - fs.io.ki_pos)

      now : Fs
      now = record fs { calls = suc fs.calls }

      inside : leb (fs.inodes ino).i_size fs.io.ki_pos ≡ false
      inside = ground arith

      limited : read_count fs.io.ki_pos fs.io.count (fs.inodes ino).i_size ≡ n
      limited = ground arith

      some_bytes : (n == 0) ≡ false
      some_bytes = ground arith

      is_big : is_small_file (fs.inodes ino) ≡ false
      is_big = unfold is_small_file in ground (arith, blocks)

      has_index : ((fs.inodes ino).index_block == 0) ≡ false
      has_index = ground (arith, index)
