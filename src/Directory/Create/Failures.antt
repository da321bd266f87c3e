-- ===== src/Directory/Create/Failures.antt =====
-- The failures of ouichefs_create (inode.c): the routines that it calls, whatever the kernel does.
use mathlib.Core.Path.{subst}
use lkp_project.Prelude.{
  ℕ, ◌^◌, ◌<◌, true, false, leb, ◌≡◌, refl, arith, ap, ◌∙◌, sym, Bool-cases, inl, inr, different,
  ==_self,
}
use lkp_project.Kernel.{Kernel, BitmapLaws}
use lkp_project.Block.{Block}
use lkp_project.State.{
  SbInfo, Fs, ok, throw, with_sbi, eio, einval, enomem, enospc, modify, pure, ◌>>◌,
}
use lkp_project.Bitmap.{put_inode}
use lkp_project.Bitmap.Blocks.{BlocksCounted, take_block, exhausted, allocated, get_free_block_lem}
use lkp_project.Bitmap.Inodes.{take_inode}
use lkp_project.Store.{Locked, no_inode, in_cache, is_fresh, inode_block, ouichefs_iget, fill_inode}
use lkp_project.Directory.{DirVfs, is_dir, new_index, init_inode, or_put_inode}
use lkp_project.Directory.Create.Ends.{Ends, returns, fails, Ends-and_then, Ends-on_fail}

-- The super block information is `sbi` and the blocks are `disk`.
pub record Shows (sbi : SbInfo) (disk : ℕ → Block) (fs : Fs) : Type 0 where
  pub numbers : fs.sbi ≡ sbi
  pub blocks : fs.disk ≡ disk

-- What new_index leaves: a directory has a block that was free.
pub data HasIndex (mode ino : ℕ) (sbi : SbInfo) (disk : ℕ → Block) (fs : Fs) : Type 0 where
  a_file : is_dir mode ≡ false → Shows sbi disk fs → HasIndex mode ino sbi disk fs
  a_directory :
      is_dir mode ≡ true
      → (bno : ℕ) → 0 < bno
      → bno < sbi.nr_blocks
      → sbi.bfree_bitmap bno ≡ true
      → (fs.inodes ino).index_block ≡ bno
      → Shows (take_block sbi bno) disk fs
      → HasIndex mode ino sbi disk fs

module _ (k : Kernel) where
  pub ouichefs_iget-Shows :
      (iget_locked : ℕ → ℕ → Locked) (ino : ℕ) (fs : Fs)
      → Ends (λ i. Shows fs.sbi fs.disk) (Shows fs.sbi fs.disk) (ouichefs_iget k iget_locked ino fs)
  unfolding ouichefs_iget fill_inode
  ouichefs_iget-Shows iget_locked ino fs = elim (Bool-cases (leb fs.sbi.nr_inodes ino)) [
    | inl high ↦ rw high (fails einval fs same)
    | inr low ↦ by_lock (iget_locked fs.calls ino) refl low
  ]
    where
      same : Shows fs.sbi fs.disk fs
      same = record { numbers = refl; blocks = refl }

      by_lock :
          (l : Locked)
          → iget_locked fs.calls ino ≡ l
          → leb fs.sbi.nr_inodes ino ≡ false
          → Ends
              (λ i. Shows fs.sbi fs.disk)
              (Shows fs.sbi fs.disk)
              (ouichefs_iget k iget_locked ino fs)
      by_lock no_inode e low = rw (low, e) (fails enomem fs same)
      by_lock in_cache e low = rw (low, e) (returns ino fs same)
      by_lock is_fresh e low = elim (Bool-cases (k.bread fs.calls (inode_block ino))) [
        | inl got ↦ rw (low, e, got) (returns ino _ (record { numbers = refl; blocks = refl }))
        | inr lost ↦ rw (low, e, lost) (fails eio _ (record { numbers = refl; blocks = refl }))
      ]

  pub new_index-HasIndex :
      (laws : BitmapLaws k) (ino mode : ℕ) (fs : Fs) (v : BlocksCounted fs.sbi)
      → Ends
          (λ u. HasIndex mode ino fs.sbi fs.disk)
          (Shows fs.sbi fs.disk)
          (new_index k ino mode fs)
  unfolding new_index
  new_index-HasIndex laws ino mode fs v = elim (Bool-cases (is_dir mode)) [
    | inr file ↦ rw file (returns tt _ (a_file file (record { numbers = refl; blocks = refl })))
    | inl directory ↦ elim (get_free_block_lem laws v) [
      | exhausted used e ↦
          rw (directory, e) (fails enospc _ (record { numbers = refl; blocks = refl }))
      | allocated bno pos low free least e ↦
          rw (directory, e, different bno 0 (λ z. absurd (omega arith)))
            (returns tt _ (
              a_directory directory bno pos low free (rw (==_self ino) refl)
                (record { numbers = refl; blocks = refl })))
    ]
  ]

  pub new_index-Shows :
      (laws : BitmapLaws k) (ino mode : ℕ) (sbi : SbInfo) (disk : ℕ → Block) (fs : Fs)
      → BlocksCounted sbi
      → Shows sbi disk fs
      → Ends (λ u. HasIndex mode ino sbi disk) (Shows sbi disk) (new_index k ino mode fs)
  new_index-Shows laws ino mode sbi disk fs v h =
      subst (λ s. Ends (λ u. HasIndex mode ino s disk) (Shows s disk) (new_index k ino mode fs))
        h.numbers
        (subst
          (λ d. Ends (λ u. HasIndex mode ino fs.sbi d) (Shows fs.sbi d) (new_index k ino mode fs))
          h.blocks (new_index-HasIndex laws ino mode fs (subst BlocksCounted (sym h.numbers) v)))

-- The bitmaps are kept as get_free_inode and get_free_block need them.
pub record Kept (sbi : SbInfo) : Type 0 where
  pub counted : BlocksCounted sbi
  pub word : sbi.nr_inodes < 2 ^ 32
  pub reserved : sbi.ifree_bitmap 0 ≡ false
  pub small : sbi.nr_free_inodes < 2 ^ 32

-- What ouichefs_new_inode leaves of `sbi`: the least free inode is taken.
pub record NewInode (mode : ℕ) (sbi : SbInfo) (disk : ℕ → Block) (ino : ℕ) (fs : Fs) : Type 0 where
  pub positive : 0 < ino
  pub below : ino < sbi.nr_inodes
  pub was_free : sbi.ifree_bitmap ino ≡ true
  pub least : (j : ℕ) → j < ino → sbi.ifree_bitmap j ≡ false
  pub some_left : 0 < sbi.nr_free_inodes
  pub index : HasIndex mode ino (take_inode sbi ino) disk fs

module _ {k : Kernel} (laws : BitmapLaws k) where
  pub take_inode-BlocksCounted :
      (sbi : SbInfo) (ino : ℕ) → BlocksCounted sbi → BlocksCounted (take_inode sbi ino)
  take_inode-BlocksCounted sbi ino v = record {
    word = v.word;
    reserved = v.reserved;
    counted = v.counted;
  }

  -- Where ouichefs_iget or new_index fails, the inode is given back.
  pub gets_inode :
      (iget_locked : ℕ → ℕ → Locked) (ino mode : ℕ) (sbi : SbInfo) (fs : Fs)
      → BlocksCounted sbi
      → fs.sbi ≡ take_inode sbi ino
      → put_inode k (take_inode sbi ino) ino ≡ sbi
      → Ends
          (λ u. HasIndex mode ino (take_inode sbi ino) fs.disk)
          (Shows sbi fs.disk)
          (or_put_inode k ino (ouichefs_iget k iget_locked ino >> new_index k ino mode) fs)
  unfolding or_put_inode
  gets_inode iget_locked ino mode sbi fs v taken back =
      Ends-on_fail (ouichefs_iget k iget_locked ino >> new_index k ino mode) (λ a. pure a)
        (λ e. modify (with_sbi (λ s. put_inode k s ino)) >> throw e) fs
        (Ends-and_then (λ i. new_index k ino mode) opened
          (λ i fs' h.
            new_index-Shows k laws ino mode (take_inode sbi ino) fs.disk fs'
              (take_inode-BlocksCounted sbi ino v) h))
        (λ u fs' h. returns u fs' h)
        (λ e fs' h.
          fails e _
            (record { numbers = ap (λ s. put_inode k s ino) h.numbers ∙ back; blocks = h.blocks }))
    where
      opened :
          Ends
            (λ i. Shows (take_inode sbi ino) fs.disk)
            (Shows (take_inode sbi ino) fs.disk)
            (ouichefs_iget k iget_locked ino fs)
      opened =
          subst
            (λ s.
              Ends (λ i. Shows s fs.disk) (Shows s fs.disk) (ouichefs_iget k iget_locked ino fs))
            taken (ouichefs_iget-Shows k iget_locked ino fs)

  pub init_inode-HasIndex :
      (vfs : DirVfs) (dir ino mode : ℕ) (sbi : SbInfo) (disk : ℕ → Block) (fs : Fs)
      → HasIndex mode ino sbi disk fs
      → (fs' : Fs) × (init_inode k vfs dir ino mode fs ≡ ok tt fs') × HasIndex mode ino sbi disk fs'
  unfolding init_inode
  init_inode-HasIndex vfs dir ino mode sbi disk fs (a_file file h) =
      (_, refl, a_file file (record { numbers = h.numbers; blocks = h.blocks }))
  init_inode-HasIndex vfs dir ino mode sbi disk fs (a_directory d bno pos low free index h) = (
    _,
    refl,
    a_directory d bno pos low free (rw (==_self ino) index)
        (record { numbers = h.numbers; blocks = h.blocks }),
  )
