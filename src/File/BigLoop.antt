-- ===== src/File/BigLoop.antt =====
-- The loop of write_big_file, round after round.
use mathlib.Core.Path.{subst}
use lkp_project.File.BigRounds.{Wrote, write_block-OrFull}
use lkp_project.Prelude.{
  different, ℕ, zero, suc, ◌+◌, ◌-◌, ◌*◌, ◌/◌, ◌%◌, ◌≤◌, ◌<◌, ◌⊎◌, false, leb, min, ◌≡◌, refl,
  arith, ◌∙◌, ap, sym, inl, inr,
}
use lkp_project.Kernel.{Kernel, BitmapLaws}
use lkp_project.Block.{block_size}
use lkp_project.State.{Fs, ok}
use lkp_project.File.Reads.{max_links}
use lkp_project.File.SmallReads.{Succeeds}
use lkp_project.File.BigBytes.{big_byte}
use lkp_project.File.BigWrites.{write_blocks}
use lkp_project.File.BigTaken.{Took-trans}
use lkp_project.File.BigContents.{IndexOk, OrFull, done, full}

-- Two writes in a row, when the first ends with a block.
Wrote-trans :
    (ib size pos n m : ℕ) (fs fs1 fs2 : Fs)
    → (pos + n) % 4096 ≡ 0
    → pos + n + m ≤ 4194304
    → Wrote ib size pos n fs fs1
    → Wrote ib size (pos + n) m fs1 fs2
    → Wrote ib size pos (n + m) fs fs2
Wrote-trans ib size pos n m fs fs1 fs2 aligned fits one two = record {
  valid = two.valid;
  present = λ p lo hi. elim (first-or-second p) [
    | inl before ↦
        λ z. one.present p lo before (sym (two.entries (p / 4096) (one.present p lo before)) ∙ z)
    | inr after ↦ two.present p after (omega arith)
  ];
  bytes = bytes_lem;
  kept = λ p low out some.
      two.kept p low (out_of_second p out) (λ z. some (sym (one.entries (p / 4096) some) ∙ z))
      ∙ one.kept p low (out_of_first p out) some;
  entries = λ i some. two.entries i (λ z. some (sym (one.entries i some) ∙ z)) ∙ one.entries i some;
  took = Took-trans ib fs fs1 fs2 one.took two.took;
  source = λ j. two.source j ∙ one.source (j + m) ∙ ap fs.io.source (omega arith);
  left = omega (arith, one.left, two.left);
  inodes = two.inodes ∙ one.inodes;
}
  where
    first-or-second : (p : ℕ) → (p < pos + n) ⊎ (pos + n ≤ p)
    first-or-second p = omega arith

    bytes_lem :
        (p : ℕ) → pos ≤ p → p < pos + (n + m) → big_byte fs2.disk ib p ≡ fs.io.source (p - pos)
    bytes_lem p lo hi = elim (first-or-second p) [
      | inl before ↦
          two.kept p (omega arith) (inl (before, inr (omega arith))) (one.present p lo before)
          ∙ one.bytes p lo before
      | inr after ↦
          two.bytes p after (omega arith)
          ∙ one.source (p - (pos + n))
          ∙ ap fs.io.source (omega arith)
    ]

    out_of_second :
        (p : ℕ)
        → ((p < pos) × ((p < size) ⊎ (p < pos / 4096 * 4096))) ⊎ (pos + (n + m) ≤ p)
        → ((p < pos + n) × ((p < size) ⊎ (p < (pos + n) / 4096 * 4096))) ⊎ (pos + n + m ≤ p)
    out_of_second p (inl (before, w)) = inl (omega arith, inr (omega arith))
    out_of_second p (inr after) = inr (omega arith)

    out_of_first :
        (p : ℕ)
        → ((p < pos) × ((p < size) ⊎ (p < pos / 4096 * 4096))) ⊎ (pos + (n + m) ≤ p)
        → ((p < pos) × ((p < size) ⊎ (p < pos / 4096 * 4096))) ⊎ (pos + n ≤ p)
    out_of_first p (inl w) = inl w
    out_of_first p (inr after) = inr (omega arith)

module _ {k : Kernel} (laws : BitmapLaws k) (s : Succeeds k) (ino ib : ℕ) where
  -- What the loop comes to.
  WritesAll : (fuel pos count : ℕ) → Fs → Type 0
  WritesAll fuel pos count fs =
      OrFull (λ p fs'. (p ≡ pos + count) × Wrote ib (fs.inodes ino).i_size pos count fs fs')
        (write_blocks k fuel ino ib pos count fs)

  -- No round is left.
  write_blocks_none :
      (fuel pos : ℕ) (fs : Fs) → 0 < fuel → write_blocks k fuel ino ib pos 0 fs ≡ ok pos fs
  unfolding write_blocks
  write_blocks_none zero pos fs some = absurd (omega arith)
  write_blocks_none (suc fuel) pos fs some = refl

  nothing-or-more : (count n : ℕ) → (count - n ≡ 0) ⊎ (0 < count - n)
  nothing-or-more count n = omega arith

  write_blocks_rounds :
      (fuel pos count n : ℕ) (fs : Fs)
      → count < suc fuel
      → IndexOk ib fs
      → 0 < count
      → n ≡ min count (block_size - pos % block_size)
      → count ≤ fs.io.count
      → pos + count ≤ 4194304
      → ((fs1 : Fs)
          → IndexOk ib fs1
          → 0 < count - n
          → count - n ≤ fs1.io.count
          → WritesAll fuel (pos + n) (count - n) fs1)
      → WritesAll (suc fuel) pos count fs
  unfolding write_blocks WritesAll
  write_blocks_rounds fuel pos count n fs enough v some e le fits go_on =
      rw (different count 0 (λ z. absurd (omega arith)), near, sym e)
        (elim (write_block-OrFull laws s ino ib pos n fs v (omega arith) (omega arith)
          (omega arith)) [
            | full fs1 none run ↦ full fs1 none (rw run refl)
            | done u fs1 wrote run ↦ elim (nothing-or-more count n) [
              | inl last ↦
                  done (pos + n) fs1
                    (
                      omega arith,
                      subst (λ c. Wrote ib (fs.inodes ino).i_size pos c fs fs1) (omega arith) wrote,
                    )
                    (rw (run, last) (write_blocks_none fuel (pos + n) fs1 (omega arith)))
              | inr more ↦ elim (go_on fs1 wrote.valid more (omega (arith, wrote.left))) [
                | full fs2 none runs ↦ full fs2 none (rw run runs)
                | done p fs2 (at, wrote2) runs ↦
                    done p fs2 (omega arith, joined more fs1 fs2 wrote wrote2) (rw run runs)
              ]
            ]
          ])
    where
      near : leb max_links (pos / block_size) ≡ false
      near = ground arith

      joined :
          0 < count - n
          → (fs1 fs2 : Fs) → Wrote ib (fs.inodes ino).i_size pos n fs fs1
          → Wrote ib (fs1.inodes ino).i_size (pos + n) (count - n) fs1 fs2
          → Wrote ib (fs.inodes ino).i_size pos count fs fs2
      joined more fs1 fs2 one two =
          subst (λ c. Wrote ib (fs.inodes ino).i_size pos c fs fs2) (omega arith)
            (Wrote-trans ib (fs.inodes ino).i_size pos n (count - n) fs fs1 fs2 (omega arith)
              (omega arith) one
              (subst (λ f. Wrote ib (f ino).i_size (pos + n) (count - n) fs1 fs2) one.inodes two))

  all_rounds :
      (fuel pos count : ℕ) (fs : Fs)
      → count < fuel
      → IndexOk ib fs
      → 0 < count
      → count ≤ fs.io.count
      → pos + count ≤ 4194304
      → WritesAll fuel pos count fs
  all_rounds zero pos count fs enough v some le fits = absurd (omega arith)
  all_rounds (suc fuel) pos count fs enough v some le fits =
      write_blocks_rounds fuel pos count (min count (block_size - pos % block_size)) fs enough v
        some refl le fits
        (λ fs1 v1 more le1.
          all_rounds fuel (pos + min count (block_size - pos % block_size))
            (count - min count (block_size - pos % block_size)) fs1 (omega arith) v1 more le1
            (omega arith))

  -- The loop of write_big_file, for a write that ends within the largest file size, on enough fuel, with
  -- a well-formed index and where reads and copies succeed, ends: the
  -- bytes of the user are the file's bytes from the position on; every byte that stood in a block of
  -- the file is as before, outside of the write and of the gap between the end of the file and the
  -- write in the block where the write starts; the blocks taken were free, each of them stands behind
  -- an entry that was 0, and blocks in use that are not the file's are as before; or it ends with
  -- ENOSPC, where no block is free.
  pub write_blocks-OrFull :
      (fuel pos count : ℕ) (fs : Fs)
      → count < fuel
      → IndexOk ib fs
      → 0 < count
      → count ≤ fs.io.count
      → pos + count ≤ 4194304
      → OrFull
          (λ p fs'. (p ≡ pos + count) × Wrote ib (fs.inodes ino).i_size pos count fs fs')
          (write_blocks k fuel ino ib pos count fs)
  unfolding WritesAll
  write_blocks-OrFull fuel pos count fs enough v some le fits =
      all_rounds fuel pos count fs enough v some le fits
