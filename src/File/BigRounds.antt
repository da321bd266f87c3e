-- ===== src/File/BigRounds.antt =====
-- The rounds of write_big_file: the bytes that the file has after them.
use lkp_project.File.BigContents.{same-or-other}
use lkp_project.File.BigTaken.{Took, HasBlock-Took}
use mathlib.Core.Path.{subst}
use lkp_project.Prelude.{
  different, ℕ, suc, ◌+◌, ◌-◌, ◌*◌, ◌/◌, ◌%◌, ◌≤◌, ◌<◌, ◌≢◌, ◌⊎◌, true, false, ◌==◌, ltb, ◌&&◌, min,
  ◌≡◌, refl, arith, ◌∙◌, ap, sym, Bool-cases, inl, inr, ==_self, update,
}
use lkp_project.Kernel.{Kernel, BitmapLaws}
use lkp_project.Block.{Block, block_size, within, memcpy, memset}
use lkp_project.State.{Fs, ok}
use lkp_project.File.Reads.{index_entry}
use lkp_project.File.SmallReads.{Succeeds, full_copy}
use lkp_project.File.BigBytes.{big_byte}
use lkp_project.File.BigWrites.{zero_gap, write_to_block, write_block}
use lkp_project.File.BigContents.{IndexOk, HasBlock, OrFull, done, full, block_of-OrFull}

-- `fs'` is `fs` after `n` bytes of the user went to the file at `pos`, for a file of `size` bytes.
pub record Wrote (ib size pos n : ℕ) (fs fs' : Fs) : Type 0 where
  pub valid : IndexOk ib fs'
  pub bytes : (p : ℕ) → pos ≤ p → p < pos + n → big_byte fs'.disk ib p ≡ fs.io.source (p - pos)
  pub present : (p : ℕ) → pos ≤ p → p < pos + n → index_entry (fs'.disk ib) (p / 4096) ≢ 0
  pub kept :
      (p : ℕ)
      → p < 4194304
      → ((p < pos) × ((p < size) ⊎ (p < pos / 4096 * 4096))) ⊎ (pos + n ≤ p)
      → index_entry (fs.disk ib) (p / 4096) ≢ 0
      → big_byte fs'.disk ib p ≡ big_byte fs.disk ib p
  pub entries :
      (i : ℕ)
      → index_entry (fs.disk ib) i ≢ 0
      → index_entry (fs'.disk ib) i ≡ index_entry (fs.disk ib) i
  pub took : Took ib fs fs'
  pub source : (j : ℕ) → fs'.io.source j ≡ fs.io.source (j + n)
  pub left : fs'.io.count ≡ fs.io.count - n
  pub inodes : fs'.inodes ≡ fs.inodes

-- The state after the bytes of a round went to block `phys`.
filled : ℕ → ℕ → ℕ → ℕ → Fs → Fs
filled ino phys pos n fs = record fs {
  disk =
      update
        (update fs.disk phys
          (zero_gap (fs.inodes ino).i_size pos (pos / block_size) (fs.disk phys)))
        phys
        (memcpy
          (update fs.disk phys
            (zero_gap (fs.inodes ino).i_size pos (pos / block_size) (fs.disk phys)) phys)
          (pos % block_size) fs.io.source n);
  io = record fs.io { count = fs.io.count - n; source = λ j. fs.io.source (j + n) };
  calls = suc (suc fs.calls);
}

filled_there :
    (ino phys pos n : ℕ) (fs : Fs)
    → (filled ino phys pos n fs).disk phys
      ≡ memcpy
          (zero_gap (fs.inodes ino).i_size pos (pos / block_size) (fs.disk phys))
          (pos % block_size)
          fs.io.source
          n
unfolding filled
filled_there ino phys pos n fs = rw (==_self phys) refl

filled_other :
    (ino phys pos n : ℕ) (fs : Fs) (b : ℕ)
    → b ≢ phys
    → (filled ino phys pos n fs).disk b ≡ fs.disk b
unfolding filled
filled_other ino phys pos n fs b other = ground arith

-- The bytes of a block: those of the round, and those that the gap leaves.
filled_byte :
    (size pos n q : ℕ) (old source : Block)
    → pos % 4096 ≤ q
    → q < pos % 4096 + n
    → memcpy (zero_gap size pos (pos / block_size) old) (pos % block_size) source n q
      ≡ source (q - pos % 4096)
unfolding memcpy
filled_byte size pos n q old source lo hi = ground arith

kept_byte :
    (size pos n p : ℕ) (old source : Block)
    → p / 4096 ≡ pos / 4096
    → ((p < pos) × ((p < size) ⊎ (p < pos / 4096 * 4096))) ⊎ (pos + n ≤ p)
    → memcpy (zero_gap size pos (pos / block_size) old) (pos % block_size) source n (p % 4096)
      ≡ old (p % 4096)
unfolding memcpy zero_gap memset
kept_byte size pos n p old source same out =
    rw outside (elim (Bool-cases (ltb size pos && size / block_size == pos / block_size)) [
      | inr none ↦ rw none refl
      | inl gap ↦ rw (gap, no_zero gap) refl
    ])
  where
    outside : within (pos % 4096) n (p % 4096) ≡ false
    outside = ground (arith, same, out)

    no_zero :
        (ltb size pos && size / block_size == pos / block_size) ≡ true
        → within (size % 4096) (min (pos - size) (4096 - size % 4096)) (p % 4096) ≡ false
    no_zero gap = ground (arith, same, out, gap)

module _ {k : Kernel} (s : Succeeds k) where
  write_to_block_ok :
      (ino phys pos n : ℕ) (fs : Fs)
      → n ≤ fs.io.count
      → write_to_block k ino phys pos n fs ≡ ok tt (filled ino phys pos n fs)
  unfolding write_to_block filled
  write_to_block_ok ino phys pos n fs le =
      rw (s.reads fs.calls phys, full_copy s (suc fs.calls) n fs.io.count le, ==_self n) refl

-- A round at `pos` that went to block `phys` of the file.
module _ (ino ib phys pos n : ℕ) (fs fs1 : Fs) (has : HasBlock ib (pos / 4096) fs phys fs1)
    (in_block : pos % 4096 + n ≤ 4096) (fits : pos < 4194304) where
  fs2 : Fs
  fs2 = filled ino phys pos n fs1

  phys-ib : phys ≢ ib
  phys-ib e = has.valid.apart (pos / 4096) (omega arith) (has.entry ∙ e)

  same_index : fs2.disk ib ≡ fs1.disk ib
  same_index = unfold fs2 in filled_other ino phys pos n fs1 ib (λ e. phys-ib (sym e))

  same_entry : (i : ℕ) → index_entry (fs2.disk ib) i ≡ index_entry (fs1.disk ib) i
  same_entry i = ap (λ b. index_entry b i) same_index

  used1 :
      (i : ℕ)
      → i < 1024
      → index_entry (fs1.disk ib) i ≢ 0
      → fs2.sbi.bfree_bitmap (index_entry (fs1.disk ib) i) ≡ false
  used1 i h some = unfold fs2 filled in has.valid.used i h some

  there :
      fs2.disk phys
      ≡ memcpy
          (zero_gap (fs1.inodes ino).i_size pos (pos / block_size) (fs1.disk phys))
          (pos % block_size)
          fs1.io.source
          n
  there = unfold fs2 in filled_there ino phys pos n fs1

  others2 : (b : ℕ) → b ≢ phys → fs2.disk b ≡ fs1.disk b
  others2 b other = unfold fs2 in filled_other ino phys pos n fs1 b other

  fs2-IndexOk : IndexOk ib fs2
  fs2-IndexOk = record {
    counted = unfold fs2 filled in has.valid.counted;
    some_index = has.valid.some_index;
    index_used = unfold fs2 filled in has.valid.index_used;
    used = λ i h some.
        ap fs2.sbi.bfree_bitmap (same_entry i) ∙ used1 i h (λ z. some (same_entry i ∙ z));
    apart = λ i h e. has.valid.apart i h (sym (same_entry i) ∙ e);
    distinct = λ i j hi hj some e.
        has.valid.distinct i j hi hj (λ z. some (same_entry i ∙ z))
          (sym (same_entry i) ∙ e ∙ same_entry j);
  }

  entries2 :
      (i : ℕ)
      → index_entry (fs.disk ib) i ≢ 0
      → index_entry (fs2.disk ib) i ≡ index_entry (fs.disk ib) i
  entries2 i some = same_entry i ∙ (elim (same-or-other i (pos / 4096)) [
    | inl e ↦ rw e (has.entry ∙ sym (has.had (λ z. some (ap (index_entry (fs.disk ib)) e ∙ z))))
    | inr other ↦ has.kept i other
  ])

  -- A byte of a block of the file that has the entry `entry`.
  byte_of_entry :
      (disk : ℕ → Block) (p entry : ℕ)
      → index_entry (disk ib) (p / 4096) ≡ entry
      → entry ≢ 0
      → big_byte disk ib p ≡ disk entry (p % 4096)
  unfolding big_byte
  byte_of_entry disk p entry e some = rw (e, different entry 0 some) refl

  bytes2 : (p : ℕ) → pos ≤ p → p < pos + n → big_byte fs2.disk ib p ≡ fs1.io.source (p - pos)
  bytes2 p lo hi =
      byte_of_entry fs2.disk p phys
        (ap (index_entry (fs2.disk ib)) (omega arith) ∙ same_entry (pos / 4096) ∙ has.entry)
        has.some_block
      ∙ ap (λ b. b (p % 4096)) there
      ∙ filled_byte (fs1.inodes ino).i_size pos n (p % 4096) (fs1.disk phys) fs1.io.source
          (omega arith) (omega arith)
      ∙ ap fs1.io.source (omega arith)

  kept2 :
      (p : ℕ)
      → p < 4194304
      → ((p < pos) × ((p < (fs1.inodes ino).i_size) ⊎ (p < pos / 4096 * 4096))) ⊎ (pos + n ≤ p)
      → index_entry (fs.disk ib) (p / 4096) ≢ 0
      → big_byte fs2.disk ib p ≡ big_byte fs.disk ib p
  kept2 p low out some =
      byte_of_entry fs2.disk p (index_entry (fs.disk ib) (p / 4096)) (entries2 (p / 4096) some) some
      ∙ same_byte (same-or-other (p / 4096) (pos / 4096))
      ∙ sym (byte_of_entry fs.disk p (index_entry (fs.disk ib) (p / 4096)) refl some)
    where
      is_phys : p / 4096 ≡ pos / 4096 → index_entry (fs.disk ib) (p / 4096) ≡ phys
      is_phys e =
          ap (index_entry (fs.disk ib)) e
          ∙ has.had (λ z. some (ap (index_entry (fs.disk ib)) e ∙ z))

      not_phys : p / 4096 ≢ pos / 4096 → index_entry (fs.disk ib) (p / 4096) ≢ phys
      not_phys other e = other (
          has.valid.distinct (p / 4096) (pos / 4096) (omega arith) (omega arith)
            (λ z. some (sym (has.kept (p / 4096) other) ∙ z))
            (has.kept (p / 4096) other ∙ e ∙ sym has.entry))

      not_ib : p / 4096 ≢ pos / 4096 → index_entry (fs.disk ib) (p / 4096) ≢ ib
      not_ib other e = has.valid.apart (p / 4096) (omega arith) (has.kept (p / 4096) other ∙ e)

      same_byte :
          (p / 4096 ≡ pos / 4096) ⊎ (p / 4096 ≢ pos / 4096)
          → fs2.disk (index_entry (fs.disk ib) (p / 4096)) (p % 4096)
            ≡ fs.disk (index_entry (fs.disk ib) (p / 4096)) (p % 4096)
      same_byte (inl e) =
          ap (λ b. fs2.disk b (p % 4096)) (is_phys e)
          ∙ ap (λ b. b (p % 4096)) there
          ∙ kept_byte (fs1.inodes ino).i_size pos n p (fs1.disk phys) fs1.io.source e out
          ∙ ap (λ b. b (p % 4096)) (has.others phys phys-ib)
          ∙ ap (λ b. fs.disk b (p % 4096)) (sym (is_phys e))
      same_byte (inr other) =
          ap (λ b. b (p % 4096)) (others2 _ (not_phys other) ∙ has.others _ (not_ib other))

  fs2-Wrote : (size : ℕ) → size ≡ (fs1.inodes ino).i_size → Wrote ib size pos n fs fs2
  fs2-Wrote size e = record {
    valid = fs2-IndexOk;
    present = λ p lo hi z. has.some_block (
        sym has.entry
        ∙ sym (same_entry (pos / 4096))
        ∙ ap (index_entry (fs2.disk ib)) (same_block p lo hi)
        ∙ z);
    bytes = λ p lo hi. bytes2 p lo hi ∙ ap (λ io. io.source (p - pos)) has.io;
    kept = λ p low out some. kept2 p low (rw (sym e) out) some;
    entries = entries2;
    took =
        HasBlock-Took ib (pos / 4096) phys fs fs1 fs2 has (unfold fs2 filled in refl) same_index
          others2;
    source = λ j. (unfold fs2 filled in ap (λ io. io.source (j + n)) has.io);
    left = unfold fs2 filled in ap (λ io. io.count - n) has.io;
    inodes = unfold fs2 filled in has.inodes;
  }
    where
      same_block : (p : ℕ) → pos ≤ p → p < pos + n → pos / 4096 ≡ p / 4096
      same_block p lo hi = omega arith

module _ {k : Kernel} (laws : BitmapLaws k) (s : Succeeds k) (ino ib : ℕ) where
  -- A round ends with its bytes written, or with ENOSPC where no block is free.
  pub write_block-OrFull :
      (pos n : ℕ) (fs : Fs)
      → IndexOk ib fs
      → n ≤ fs.io.count
      → pos % 4096 + n ≤ 4096
      → pos < 4194304
      → OrFull
          (λ u fs'. Wrote ib (fs.inodes ino).i_size pos n fs fs')
          (write_block k ino ib pos n fs)
  unfolding write_block fs2
  write_block-OrFull pos n fs v le in_block fits =
      elim (block_of-OrFull laws ib (pos / 4096) fs (omega arith) v) [
        | done phys fs1 has e ↦
            done tt (filled ino phys pos n fs1)
              (fs2-Wrote ino ib phys pos n fs fs1 has in_block fits (fs.inodes ino).i_size
                (ap (λ f. (f ino).i_size) (sym has.inodes)))
              (rw e (
                write_to_block_ok s ino phys pos n fs1
                  (subst (λ io. n ≤ io.count) (sym has.io) le)))
        | full fs1 none e ↦ full fs1 none (rw e refl)
      ]
