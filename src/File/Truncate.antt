-- ===== src/File/Truncate.antt =====
-- The truncation of ouichefs_open.
use lkp_project.Prelude.{
  ◌⊎◌, ℕ, zero, suc, ◌+◌, ◌*◌, ◌≤◌, ◌<◌, true, false, ◌==◌, ◌≡◌, ◌≢◌, arith, refl, ap, inl, inr,
  sym, update, ==_self, ◌∙◌,
}
use lkp_project.Kernel.{Kernel}
use lkp_project.Block.{Block, set_u32}
use lkp_project.Block.Laws.{get_u32-set_u32_self, get_u32-set_u32_apart}
use lkp_project.Bitmap.{put_block}
use lkp_project.State.{SbInfo, Fs, ok}
use lkp_project.File.Reads.{index_entry}
use lkp_project.File.Writes.{truncate_blocks}

module _ (k : Kernel) where
  -- put_block of entries `i` to `i + n - 1` of an index block, in that order.
  unfoldable pub put_entries : Block → ℕ → ℕ → SbInfo → SbInfo
  put_entries index i zero sbi = sbi
  put_entries index i (suc n) sbi =
      put_entries index (i + 1) n (put_block k sbi (index_entry index i))

  -- `fs'` is `fs` with the `n` entries of the index block from `i` on given back and set to 0.
  pub record IsTruncated (index_block i n : ℕ) (fs fs' : Fs) : Type 0 where
    pub freed : fs'.sbi ≡ put_entries (fs.disk index_block) i n fs.sbi
    pub zeroed : (j : ℕ) → i ≤ j → j < i + n → index_entry (fs'.disk index_block) j ≡ 0
    pub later :
        (j : ℕ)
        → i + n ≤ j
        → index_entry (fs'.disk index_block) j ≡ index_entry (fs.disk index_block) j
    pub earlier :
        (j : ℕ) → j < i → index_entry (fs'.disk index_block) j ≡ index_entry (fs.disk index_block) j
    pub others : (b : ℕ) → b ≢ index_block → fs'.disk b ≡ fs.disk b
    pub inodes : fs'.inodes ≡ fs.inodes

  put_entries-ext :
      (b c : Block) (i n : ℕ) (sbi : SbInfo)
      → ((j : ℕ) → i ≤ j → index_entry b j ≡ index_entry c j)
      → put_entries b i n sbi ≡ put_entries c i n sbi
  unfolding put_entries
  put_entries-ext b c i zero sbi same = refl
  put_entries-ext b c i (suc n) sbi same =
      rw (same i (omega arith)) (put_entries-ext b c (i + 1) n _ (λ j p. same j (omega arith)))

  entry-set_self : (b : Block) (i : ℕ) → index_entry (set_u32 b (4 * i) 0) i ≡ 0
  entry-set_self b i = get_u32-set_u32_self b (4 * i) 0 (omega arith)

  entry-set_apart :
      (b : Block) (i j : ℕ) → i ≢ j → index_entry (set_u32 b (4 * i) 0) j ≡ index_entry b j
  entry-set_apart b i j p = get_u32-set_u32_apart b (4 * i) (4 * j) 0 (ground (arith, p))

  truncated_one : ℕ → ℕ → Fs → Fs
  truncated_one index_block i fs = record fs {
    sbi = put_block k fs.sbi (index_entry (fs.disk index_block) i);
    disk = update fs.disk index_block (set_u32 (fs.disk index_block) (4 * i) 0);
  }

  truncated_block :
      (index_block i : ℕ) (fs : Fs)
      → (truncated_one index_block i fs).disk index_block ≡ set_u32 (fs.disk index_block) (4 * i) 0
  unfolding truncated_one
  truncated_block index_block i fs = rw (==_self index_block) refl

  IsTruncated-cons :
      (index_block i n : ℕ) (fs fs' : Fs)
      → IsTruncated index_block (i + 1) n (truncated_one index_block i fs) fs'
      → IsTruncated index_block i (suc n) fs fs'
  IsTruncated-cons index_block i n fs fs' rest = record {
    freed = rest.freed ∙ freed_lem;
    zeroed = zeroed_lem;
    later = λ j p.
        rest.later j (omega arith)
        ∙ ap (λ b. index_entry b j) (truncated_block index_block i fs)
        ∙ entry-set_apart (fs.disk index_block) i j (λ e. absurd (omega arith));
    earlier = λ j p.
        rest.earlier j (omega arith)
        ∙ ap (λ b. index_entry b j) (truncated_block index_block i fs)
        ∙ entry-set_apart (fs.disk index_block) i j (λ e. absurd (omega arith));
    others = λ b p. rest.others b p ∙ (unfold truncated_one in ground arith);
    inodes = rest.inodes ∙ (unfold truncated_one in refl);
  }
    where
      freed_lem :
          put_entries
            ((truncated_one index_block i fs).disk index_block)
            (i + 1)
            n
            (truncated_one index_block i fs).sbi
          ≡ put_entries (fs.disk index_block) i (suc n) fs.sbi
      freed_lem = rw (truncated_block index_block i fs) (
          unfold put_entries truncated_one in
          put_entries-ext _ (fs.disk index_block) (i + 1) n _
            (λ j p. entry-set_apart (fs.disk index_block) i j (λ e. absurd (omega arith))))

      first-or-later : (j : ℕ) → i ≤ j → (i ≡ j) ⊎ (i + 1 ≤ j)
      first-or-later j p = omega arith

      first_zero : index_entry (fs'.disk index_block) i ≡ 0
      first_zero =
          rest.earlier i (omega arith)
          ∙ ap (λ b. index_entry b i) (truncated_block index_block i fs)
          ∙ entry-set_self (fs.disk index_block) i

      zeroed_lem : (j : ℕ) → i ≤ j → j < i + suc n → index_entry (fs'.disk index_block) j ≡ 0
      zeroed_lem j p q = elim (first-or-later j p) [
        | inl e ↦ rw (sym e) first_zero
        | inr r ↦ rest.zeroed j r (omega arith)
      ]

  -- The loop of ouichefs_open ends at the first entry that is 0 and gives back what is before it, in
  -- order. What stands behind that entry is left: the blocks behind a hole are not freed.
  pub truncate_blocks-IsTruncated :
      (fuel index_block i n : ℕ) (fs : Fs)
      → n < fuel
      → ((j : ℕ) → i ≤ j → j < i + n → index_entry (fs.disk index_block) j ≢ 0)
      → index_entry (fs.disk index_block) (i + n) ≡ 0
      → (fs' : Fs) × (truncate_blocks k fuel index_block i fs ≡ ok tt fs')
        × IsTruncated index_block i n fs fs'
  unfolding truncate_blocks put_entries
  truncate_blocks-IsTruncated zero index_block i n fs enough some last = absurd (omega arith)
  truncate_blocks-IsTruncated (suc fuel) index_block i zero fs enough some last = (
    fs,
    rw (at_end last) refl,
    record {
      freed = refl;
      zeroed = λ j p q. absurd (omega arith);
      later = λ j p. refl;
      earlier = λ j p. refl;
      others = λ b p. refl;
      inodes = refl;
    },
  )
    where
      at_end :
          index_entry (fs.disk index_block) (i + 0) ≡ 0
          → (index_entry (fs.disk index_block) i == 0) ≡ true
      at_end h = let e : i + 0 ≡ i = omega arith in rw (sym e, h) refl
  truncate_blocks-IsTruncated (suc fuel) index_block i (suc n) fs enough some last =
      let (fs', runs, rest) =
        truncate_blocks-IsTruncated fuel index_block (i + 1) n (truncated_one index_block i fs)
          (omega arith) (λ j p q. λ z. some j (omega arith) (omega arith) (sym (moved j p) ∙ z))
          (moved (i + 1 + n) (omega arith)
            ∙ ap (index_entry (fs.disk index_block)) (omega arith)
            ∙ last) in
      (
        fs',
        round (some i (omega arith) (omega arith)) runs,
        IsTruncated-cons index_block i n fs fs' rest,
      )
    where
      moved :
          (j : ℕ)
          → i + 1 ≤ j
          → index_entry ((truncated_one index_block i fs).disk index_block) j
            ≡ index_entry (fs.disk index_block) j
      moved j p =
          ap (λ b. index_entry b j) (truncated_block index_block i fs)
          ∙ entry-set_apart (fs.disk index_block) i j (λ e. absurd (omega arith))

      in_use :
          index_entry (fs.disk index_block) i ≢ 0
          → (index_entry (fs.disk index_block) i == 0) ≡ false
      in_use h = ground (arith, h)

      round :
          {fs' : Fs}
          → index_entry (fs.disk index_block) i ≢ 0
          → truncate_blocks k fuel index_block (i + 1) (truncated_one index_block i fs) ≡ ok tt fs'
          → truncate_blocks k (suc fuel) index_block i fs ≡ ok tt fs'
      round h runs = rw (in_use h) (unfold truncated_one in runs)
