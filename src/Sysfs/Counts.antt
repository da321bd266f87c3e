-- ===== src/Sysfs/Counts.antt =====
-- The loops of sysfs.c over the inodes, as sums over the inode table.
use lkp_project.Prelude.{
  ℕ, zero, suc, ◌+◌, ◌^◌, ◌≤◌, ◌<◌, true, false, leb, ◌==◌, if◌then◌else◌, ◌≡◌, ◌≢◌, refl, arith,
  ◌∙◌, ap, fun_ext, update,
}
use lkp_project.Kernel.{Kernel}
use lkp_project.State.{panic, InodeInfo, Fs, ok}
use lkp_project.Store.{Locked, no_inode, in_cache, is_fresh, inode_block, ouichefs_iget, fill_inode}
use lkp_project.Store.Apart.{stored}
use lkp_project.Directory.{is_dir}
use lkp_project.Sysfs.{SysfsHost, followed_iget, each_inode, add_size}

-- The sum of a weight over the `n` numbers from `i` on.
unfoldable pub span : (ℕ → ℕ) → ℕ → ℕ → ℕ
span w i zero = 0
span w i (suc n) = w i + span w (i + 1) n

abbrev pub file_weight : InodeInfo → ℕ
file_weight inode = if is_dir inode.i_mode then 0 else 1

abbrev pub small_weight : InodeInfo → ℕ
small_weight inode = if is_dir inode.i_mode then 0 else (if inode.i_blocks == 0 then 1 else 0)

-- Every inode can be read, and the inode cache agrees with the disk.
pub record Readable (k : Kernel) (h : SysfsHost) (fs : Fs) : Type 0 where
  pub reads : (t b : ℕ) → k.bread t b ≡ true
  pub has_inode : (t i : ℕ) → h.iget_locked t i ≢ no_inode
  pub agrees : (i : ℕ) → i < fs.sbi.nr_inodes → stored fs.disk i ≡ fs.inodes i

abbrev pub with_calls : Fs → ℕ → Fs
with_calls fs c = record fs { calls = c }

-- What a loop over the table adds up.
pub fold : (InodeInfo → ℕ → ℕ) → ℕ → ℕ → ℕ → (ℕ → InodeInfo) → ℕ
fold f zero i acc table = acc
fold f (suc n) i acc table = fold f n (i + 1) (f (table i) acc) table

pub fold_sizes :
    (n i acc : ℕ) (table : ℕ → InodeInfo)
    → fold add_size n i acc table ≡ acc + span (λ j. (table j).i_size) i n
unfolding fold span
fold_sizes zero i acc table = omega arith
fold_sizes (suc n) i acc table = fold_sizes n (i + 1) (acc + (table i).i_size) table ∙ omega arith

-- A counter that does not wrap.
pub fold_count :
    (f : InodeInfo → ℕ → ℕ) (w : InodeInfo → ℕ) (n i acc : ℕ) (table : ℕ → InodeInfo)
    → ((inode : InodeInfo) (a : ℕ) → a + 1 < 2 ^ 32 → f inode a ≡ a + w inode)
    → ((inode : InodeInfo) → w inode ≤ 1)
    → acc + n < 2 ^ 32
    → fold f n i acc table ≡ acc + span (λ j. w (table j)) i n
unfolding fold span
fold_count f w zero i acc table adds one small = omega arith
fold_count f w (suc n) i acc table adds one small =
    fold_count f w n (i + 1) (f (table i) acc) table adds one
      (omega (arith, adds (table i) acc (omega arith), one (table i)))
    ∙ omega (arith, adds (table i) acc (omega arith))

module _ (k : Kernel) (h : SysfsHost) where
  ouichefs_iget_lem :
      (fs : Fs) (i : ℕ) (l : Locked)
      → Readable k h fs
      → i < fs.sbi.nr_inodes
      → h.iget_locked fs.calls i ≡ l
      → (c : ℕ) × (ouichefs_iget k h.iget_locked i fs ≡ ok i (with_calls fs c))
  unfolding ouichefs_iget fill_inode
  ouichefs_iget_lem fs i no_inode r inside e = absurd (r.has_inode fs.calls i e)
  ouichefs_iget_lem fs i in_cache r inside e =
      let known : leb fs.sbi.nr_inodes i ≡ false = ground (arith, inside) in
      (fs.calls, rw (known, e) refl)
  ouichefs_iget_lem fs i is_fresh r inside e =
      let known : leb fs.sbi.nr_inodes i ≡ false = ground (arith, inside) in
      (
        suc fs.calls,
        rw (known, e, r.reads fs.calls (inode_block i))
            (λ t. ok i (record fs { inodes = same t; calls = suc fs.calls })),
      )
    where
      same : update fs.inodes i (stored fs.disk i) ≡ fs.inodes
      same = fun_ext λ j. ground (arith, r.agrees i inside, ap fs.inodes)

  followed_iget_lem :
      (fs : Fs) (i : ℕ)
      → Readable k h fs
      → i < fs.sbi.nr_inodes
      → (c : ℕ) × (followed_iget k h i fs ≡ ok (fs.inodes i) (with_calls fs c))
  unfolding followed_iget
  followed_iget_lem fs i r inside =
      let (c, runs) = ouichefs_iget_lem fs i (h.iget_locked fs.calls i) r inside refl in
      (c, rw runs refl)

  pub each_inode_lem :
      (f : InodeInfo → ℕ → ℕ) (n i acc : ℕ) (fs : Fs)
      → Readable k h fs
      → i + n ≤ fs.sbi.nr_inodes
      → (c : ℕ) × (each_inode k h f n i acc fs ≡ ok (fold f n i acc fs.inodes) (with_calls fs c))
  unfolding each_inode fold
  each_inode_lem f zero i acc fs r room = (fs.calls, refl)
  each_inode_lem f (suc n) i acc fs r room =
      let (c, here) = followed_iget_lem fs i r (omega arith) in
      let (c', rest) =
        each_inode_lem f n (i + 1) (f (fs.inodes i) acc) (with_calls fs c)
          (record { reads = r.reads; has_inode = r.has_inode; agrees = r.agrees }) (omega arith) in
      (c', rw here rest)

  followed_past_end : (fs : Fs) (i : ℕ) → i ≡ fs.sbi.nr_inodes → followed_iget k h i fs ≡ panic fs
  unfolding followed_iget ouichefs_iget
  followed_past_end fs i last =
      let known : leb fs.sbi.nr_inodes i ≡ true = ground (arith, last) in rw known refl

  -- The inode number past the last one gives an error pointer.
  pub each_inode_past_end :
      (f : InodeInfo → ℕ → ℕ) (n i acc : ℕ) (fs : Fs)
      → Readable k h fs
      → i + n ≡ fs.sbi.nr_inodes
      → (fs' : Fs) × (each_inode k h f (suc n) i acc fs ≡ panic fs')
  unfolding each_inode
  each_inode_past_end f zero i acc fs r last =
      (fs, rw (followed_past_end fs i (omega (arith, last))) refl)
  each_inode_past_end f (suc n) i acc fs r last =
      let (c, here) = followed_iget_lem fs i r (omega arith) in
      let (fs', rest) =
        each_inode_past_end f n (i + 1) (f (fs.inodes i) acc) (with_calls fs c)
          (record { reads = r.reads; has_inode = r.has_inode; agrees = r.agrees }) (omega arith) in
      (fs', rw here rest)
