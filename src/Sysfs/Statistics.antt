-- ===== src/Sysfs/Statistics.antt =====
-- What the statistics of sysfs.c report of a readable partition.
use lkp_project.Prelude.{inr, inl, ◌⊎◌, ℕ, suc, ◌+◌, ◌-◌, ◌^◌, ◌≤◌, ◌<◌, ◌≡◌, arith, ◌∙◌, ap}
use lkp_project.Kernel.{Kernel}
use lkp_project.State.{panic, Run, InodeInfo, Fs, ok}
use lkp_project.Sysfs.{
  total_file_count, add32, total_data_size, count_small, count_file, used_inodes,
  total_small_file_count, SysfsHost, add_size,
}
use lkp_project.Sysfs.Counts.{
  span, file_weight, small_weight, Readable, with_calls, fold, fold_sizes, fold_count,
  each_inode_lem, each_inode_past_end,
}

-- total_small_file_count counts the small files up to the inode number `used_inodes`, unless every
-- inode is in use: then it follows an error pointer.
pub data SmallCount (fs : Fs) : Run ℕ → Type 0 where
  counted :
      (c : ℕ)
      → used_inodes fs.sbi < fs.sbi.nr_inodes
      → SmallCount fs
          (ok (span (λ i. small_weight (fs.inodes i)) 1 (used_inodes fs.sbi)) (with_calls fs c))
  crashed : (fs' : Fs) → used_inodes fs.sbi ≡ fs.sbi.nr_inodes → SmallCount fs (panic fs')

count_file_adds :
    (inode : InodeInfo) (a : ℕ) → a + 1 < 2 ^ 32 → count_file inode a ≡ a + file_weight inode
count_file_adds inode a small = ground (arith, small)

count_small_adds :
    (inode : InodeInfo) (a : ℕ) → a + 1 < 2 ^ 32 → count_small inode a ≡ a + small_weight inode
count_small_adds inode a small = ground (arith, small)

file_weight-le : (inode : InodeInfo) → file_weight inode ≤ 1
file_weight-le inode = ground arith

small_weight-le : (inode : InodeInfo) → small_weight inode ≤ 1
small_weight-le inode = ground arith

module _ (k : Kernel) (h : SysfsHost) (fs : Fs) (r : Readable k h fs)
    (counter : fs.sbi.nr_free_inodes ≤ fs.sbi.nr_inodes) (word : fs.sbi.nr_inodes + 1 < 2 ^ 32)
    (some_inode : 0 < fs.sbi.nr_inodes) where
  abbrev used : ℕ
  used = used_inodes fs.sbi

  used-le : used ≤ fs.sbi.nr_inodes
  used-le = omega (arith, counter, word)

  total_small_file_count_lem : SmallCount fs (total_small_file_count k h fs)
  unfolding total_small_file_count
  total_small_file_count_lem = elim (below-or-all used-le) [
    | inl below ↦
        let (c, runs) = each_inode_lem k h count_small used 1 0 fs r (omega (arith, below)) in
        rw (rounds, runs, counts) (counted c below)
    | inr all ↦
        let (fs', runs) =
          each_inode_past_end k h count_small (fs.sbi.nr_inodes - 1) 1 0 fs r
            (omega (arith, some_inode)) in
        rw (all_rounds all, runs) (crashed fs' all)
  ]
    where
      below-or-all : {a b : ℕ} → a ≤ b → (a < b) ⊎ (a ≡ b)
      below-or-all h = omega arith

      rounds : add32 used 1 - 1 ≡ used
      rounds = omega (arith, used-le, word)

      all_rounds : used ≡ fs.sbi.nr_inodes → add32 used 1 - 1 ≡ suc (fs.sbi.nr_inodes - 1)
      all_rounds e = omega (arith, e, word, some_inode)

      counts : fold count_small used 1 0 fs.inodes ≡ span (λ i. small_weight (fs.inodes i)) 1 used
      counts =
          fold_count count_small small_weight used 1 0 fs.inodes count_small_adds small_weight-le
            (omega (arith, used-le, word))
          ∙ omega arith

  -- On a partition whose inodes can be read, the sizes and the files are those of the inodes from 1
  -- up to the number of used inodes, without the last one; the small files include the last one, or
  -- the routine follows an error pointer where every inode is in use.
  pub statistics_lem :
      ((c : ℕ) × (total_data_size k h fs
          ≡ ok (span (λ i. (fs.inodes i).i_size) 1 (used_inodes fs.sbi - 1)) (with_calls fs c)))
      × ((c : ℕ) × (total_file_count k h fs
            ≡ ok
                (span (λ i. file_weight (fs.inodes i)) 1 (used_inodes fs.sbi - 1))
                (with_calls fs c)))
      × SmallCount fs (total_small_file_count k h fs)
  unfolding total_data_size total_file_count
  statistics_lem =
      let (c, run) = each_inode_lem k h add_size (used - 1) 1 0 fs r inside in
      let (c', run') = each_inode_lem k h count_file (used - 1) 1 0 fs r inside in
      (
        (c, run ∙ ap (λ n. ok n (with_calls fs c)) sizes),
        (c', run' ∙ ap (λ n. ok n (with_calls fs c')) files),
        total_small_file_count_lem,
      )
    where
      inside : 1 + (used - 1) ≤ fs.sbi.nr_inodes
      inside = omega (arith, used-le, some_inode)

      sizes :
          fold add_size (used - 1) 1 0 fs.inodes
          ≡ span (λ i. (fs.inodes i).i_size) 1 (used_inodes fs.sbi - 1)
      sizes = fold_sizes (used - 1) 1 0 fs.inodes ∙ omega arith

      files :
          fold count_file (used - 1) 1 0 fs.inodes
          ≡ span (λ i. file_weight (fs.inodes i)) 1 (used_inodes fs.sbi - 1)
      files =
          fold_count count_file file_weight (used - 1) 1 0 fs.inodes count_file_adds file_weight-le
            (omega (arith, used-le, word))
          ∙ omega arith
