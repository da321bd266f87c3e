-- ===== src/Directory/Create/Opened.antt =====
-- How the operations of inode.c get an inode: ouichefs_iget where the VFS gives an inode and every read
-- succeeds, and the routines that undo something when it fails.
use lkp_project.Prelude.{update, ℕ, suc, ◌<◌, ◌≢◌, true, false, leb, ◌≡◌, refl, arith, different}
use lkp_project.Kernel.{Kernel}
use lkp_project.State.{Fs, M, ok}
use lkp_project.Store.{
  Locked, no_inode, in_cache, is_fresh, inode_block, inode_offset, load_inode, fill_inode,
  ouichefs_iget,
}
use lkp_project.File.Outcomes.{on_fail_ok}
use lkp_project.Directory.{or_put_inode}

pub or_put_inode_ok :
    {A : Type 0} (k : Kernel) (ino : ℕ) (m : M A) (a : A) (fs fs' : Fs)
    → m fs ≡ ok a fs'
    → or_put_inode k ino m fs ≡ ok a fs'
unfolding or_put_inode
or_put_inode_ok k ino m a fs fs' e = on_fail_ok m _ _ a fs fs' e

-- Only inode `ino` in memory may have changed.
pub record Opened (ino : ℕ) (fs fs' : Fs) : Type 0 where
  pub sbi : fs'.sbi ≡ fs.sbi
  pub disk : fs'.disk ≡ fs.disk
  pub others : (i : ℕ) → i ≢ ino → fs'.inodes i ≡ fs.inodes i

pub ouichefs_iget-Opened :
    (k : Kernel)
    → ((t b : ℕ) → k.bread t b ≡ true)
    → (iget_locked : ℕ → ℕ → Locked) → ((t i : ℕ) → iget_locked t i ≢ no_inode)
    → (ino : ℕ) (fs : Fs) → ino < fs.sbi.nr_inodes
    → (fs' : Fs) × (ouichefs_iget k iget_locked ino fs ≡ ok ino fs') × Opened ino fs fs'
unfolding ouichefs_iget fill_inode
ouichefs_iget-Opened k reads iget_locked gives ino fs low = by_lock (iget_locked fs.calls ino) refl
  where
    inside : leb fs.sbi.nr_inodes ino ≡ false
    inside = ground (arith, low)

    filled : Fs
    filled = record fs {
      inodes = update fs.inodes ino (load_inode (inode_offset ino) (fs.disk (inode_block ino)));
      calls = suc fs.calls;
    }

    by_lock :
        (l : Locked)
        → iget_locked fs.calls ino ≡ l
        → (fs' : Fs) × (ouichefs_iget k iget_locked ino fs ≡ ok ino fs') × Opened ino fs fs'
    by_lock no_inode e = absurd (gives fs.calls ino e)
    by_lock in_cache e =
        (fs, rw (inside, e) refl, record { sbi = refl; disk = refl; others = λ i h. refl })
    by_lock is_fresh e = (
      filled,
      rw (inside, e, reads fs.calls (inode_block ino)) refl,
      record { sbi = refl; disk = refl; others = λ i h. rw (different i ino h) refl },
    )
