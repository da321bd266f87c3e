-- ===== src/Super/Sync.antt =====
-- What ouichefs_sync_fs writes, and what ouichefs_fill_super loads of it.
use lkp_project.Prelude.{
  sym, ◌⊎◌, fun_ext, ◌⊎◌, ℕ, zero, suc, ◌+◌, ◌-◌, ◌*◌, ◌/◌, ◌%◌, ◌≤◌, ◌<◌, ◌≢◌, true, false,
  if◌then◌else◌, ◌≡◌, refl, arith, ◌∙◌, ap, update, Bool-cases, inl, inr, ==_self,
}
use lkp_project.Kernel.{Kernel, Bitmap}
use lkp_project.Block.{Block, within}
use lkp_project.State.{Fs, ok}
use lkp_project.Super.{
  bits_per_block, bit_of, copy_bitmap_to_le64, copy_bitmap_from_le64, sync_bitmap, load_bitmap,
}

-- `fs'` is `fs` with blocks `i` to `i + n - 1` of a bitmap copied to the blocks from `first + i` on.
pub record Synced (first i n : ℕ) (m : Bitmap) (fs fs' : Fs) : Type 0 where
  pub written :
      (j : ℕ)
      → i ≤ j
      → j < i + n
      → fs'.disk (first + j) ≡ copy_bitmap_to_le64 m j (fs.disk (first + j))
  pub outside : (b : ℕ) → (b < first + i) ⊎ (first + i + n ≤ b) → fs'.disk b ≡ fs.disk b
  pub sbi : fs'.sbi ≡ fs.sbi
  pub inodes : fs'.inodes ≡ fs.inodes

synced_one : ℕ → ℕ → Bitmap → Fs → Fs
synced_one first i m fs = record fs {
  disk = update fs.disk (first + i) (copy_bitmap_to_le64 m i (fs.disk (first + i)));
  calls = suc fs.calls;
}

one_block :
    (first i : ℕ) (m : Bitmap) (fs : Fs)
    → (synced_one first i m fs).disk (first + i) ≡ copy_bitmap_to_le64 m i (fs.disk (first + i))
unfolding synced_one
one_block first i m fs = rw (==_self (first + i)) refl

other_block :
    (first i : ℕ) (m : Bitmap) (fs : Fs) (b : ℕ)
    → b ≢ first + i
    → (synced_one first i m fs).disk b ≡ fs.disk b
unfolding synced_one
other_block first i m fs b p = ground arith

Synced-cons :
    (first i n : ℕ) (m : Bitmap) (fs fs' : Fs)
    → Synced first (i + 1) n m (synced_one first i m fs) fs'
    → Synced first i (suc n) m fs fs'
Synced-cons first i n m fs fs' rest = record {
  written = written_lem;
  outside = λ b p. rest.outside b (omega arith) ∙ other_block first i m fs b (ground (arith, p));
  sbi = rest.sbi ∙ (unfold synced_one in refl);
  inodes = rest.inodes ∙ (unfold synced_one in refl);
}
  where
    first-or-later : (j : ℕ) → i ≤ j → (i ≡ j) ⊎ (i + 1 ≤ j)
    first-or-later j p = omega arith

    here : fs'.disk (first + i) ≡ copy_bitmap_to_le64 m i (fs.disk (first + i))
    here = rest.outside (first + i) (omega arith) ∙ one_block first i m fs

    written_lem :
        (j : ℕ)
        → i ≤ j
        → j < i + suc n
        → fs'.disk (first + j) ≡ copy_bitmap_to_le64 m j (fs.disk (first + j))
    written_lem j p q = elim (first-or-later j p) [
      | inl e ↦ rw (sym e) here
      | inr r ↦
          rest.written j r (omega arith)
          ∙ ap (copy_bitmap_to_le64 m j)
              (other_block first i m fs (first + j) (λ e. absurd (omega arith)))
    ]

-- The bits that the loop over the blocks of a bitmap loads, in a bitmap that was `m` before.
abbrev pub loaded : ℕ → ℕ → ℕ → Bitmap → (ℕ → Block) → Bitmap
loaded n i first m disk j =
    if within (i * bits_per_block) (n * bits_per_block) j
    then bit_of (disk (first + j / bits_per_block)) (j % bits_per_block)
    else m j

loaded-none :
    (i first : ℕ) (m : Bitmap) (disk : ℕ → Block) (j : ℕ) → m j ≡ loaded 0 i first m disk j
loaded-none i first m disk j =
    let e : within (i * bits_per_block) (0 * bits_per_block) j ≡ false = ground arith in rw e refl

loaded-more :
    (n i first : ℕ) (m : Bitmap) (disk : ℕ → Block) (j : ℕ)
    → loaded n (i + 1) first (copy_bitmap_from_le64 m i (disk (first + i))) disk j
      ≡ loaded (suc n) i first m disk j
unfolding copy_bitmap_from_le64
loaded-more n i first m disk j = elim (Bool-cases (within (i * bits_per_block) bits_per_block j)) [
  | inl here ↦
      let before : within ((i + 1) * bits_per_block) (n * bits_per_block) j ≡ false =
        ground (arith, here) in
      let all : within (i * bits_per_block) (suc n * bits_per_block) j ≡ true =
        ground (arith, here) in
      let index : j / bits_per_block ≡ i = ground (arith, here) in
      let rest : j % bits_per_block ≡ j - i * bits_per_block = ground (arith, here) in
      rw (before, all, here, index, rest) refl
  | inr other ↦
      let same : within ((i + 1) * bits_per_block) (n * bits_per_block) j
          ≡ within (i * bits_per_block) (suc n * bits_per_block) j =
        ground (arith, other) in
      rw (same, other) refl
]

module _ (k : Kernel) (reads : (t b : ℕ) → k.bread t b ≡ true) where
  -- The loop ends, and it writes each block of the bitmap and no other block.
  pub sync_bitmap-Synced :
      (n i first : ℕ) (m : Bitmap) (fs : Fs)
      → (fs' : Fs) × (sync_bitmap k n i first m fs ≡ ok tt fs') × Synced first i n m fs fs'
  unfolding sync_bitmap synced_one
  sync_bitmap-Synced zero i first m fs = (
    fs,
    refl,
    record {
      written = λ j p q. absurd (omega arith);
      outside = λ b p. refl;
      sbi = refl;
      inodes = refl;
    },
  )
  sync_bitmap-Synced (suc n) i first m fs =
      let (fs', runs, rest) = sync_bitmap-Synced n (i + 1) first m (synced_one first i m fs) in
      (fs', rw (reads fs.calls (first + i)) runs, Synced-cons first i n m fs fs' rest)

  pub load_bitmap_lem :
      (n i first : ℕ) (m : Bitmap) (fs : Fs)
      → load_bitmap k n i first m fs
        ≡ ok (loaded n i first m fs.disk) (record fs { calls = fs.calls + n })
  unfolding load_bitmap
  load_bitmap_lem zero i first m fs =
      λ t. ok (fun_ext (loaded-none i first m fs.disk) t) (record fs { calls = no_calls t })
    where
      no_calls : fs.calls ≡ fs.calls + 0
      no_calls = omega arith
  load_bitmap_lem (suc n) i first m fs =
      rw
        (
          reads fs.calls (first + i),
          load_bitmap_lem n (i + 1) first (copy_bitmap_from_le64 m i (fs.disk (first + i)))
              (record fs { calls = suc fs.calls }),
        )
        (λ t. ok (fun_ext (loaded-more n i first m fs.disk) t) (record fs { calls = more_calls t }))
    where
      more_calls : suc fs.calls + n ≡ fs.calls + suc n
      more_calls = omega arith
