-- ===== src/Directory/Unlink/Empty.antt =====
-- ouichefs_unlink of an empty regular file.
use lkp_project.Prelude.{
  ℕ, suc, ◌+◌, ◌-◌, ◌*◌, ◌<◌, ◌≢◌, true, false, ◌≡◌, refl, ap, ◌∙◌, sym, different, ==_self,
}
use lkp_project.Words.{sub32}
use lkp_project.Kernel.{Kernel}
use lkp_project.State.{Fs, InodeInfo, ok, with_inode, with_sbi}
use lkp_project.Bitmap.{put_inode}
use lkp_project.Slice.{small_file_get_bno, delete_slice, delete_slice_and_clear_inode}
use lkp_project.Directory.{is_dir, entry_inode, drop_entry, clean_inode, ouichefs_unlink}
use lkp_project.Directory.Entries.{IsPacked, old_place, drop_entry-IsPacked}
use lkp_project.File.Outcomes.{on_fail_ok}
use lkp_project.Directory.Create.Steps.{entries_of}

pub record IsEmptyFile (ci : InodeInfo) : Type 0 where
  pub type : is_dir ci.i_mode ≡ false
  pub no_blocks : ci.i_blocks ≡ 0
  pub no_index : ci.index_block ≡ 0

-- `fs'` is `fs` without the inode `ino`, whose entry was the one at `p` of `n`.
pub record Unlinked (k : Kernel) (fs : Fs) (dir n p ino : ℕ) (fs' : Fs) : Type 0 where
  pub numbers : fs'.sbi ≡ put_inode k fs.sbi ino
  pub index : (fs'.inodes dir).index_block ≡ (fs.inodes dir).index_block
  pub packed : IsPacked (entries_of fs' dir) (n - 1)
  pub kept :
      (i c : ℕ)
      → i < n - 1
      → c < 32
      → entries_of fs' dir (32 * i + c) ≡ entries_of fs dir (32 * old_place p i + c)
  pub blocks : (b : ℕ) → b ≢ (fs.inodes dir).index_block → fs'.disk b ≡ fs.disk b
  pub others : (i : ℕ) → i ≢ ino → i ≢ dir → fs'.inodes i ≡ fs.inodes i

module _ (k : Kernel) (reads : (t b : ℕ) → k.bread t b ≡ true) (fuel dir ino : ℕ)
    (apart : dir ≢ ino) where
  -- Nothing is cleared for a file without slices.
  cleared : Fs → Fs
  cleared fs = with_inode ino (λ ci. record ci { index_block = 0; i_size = 0 }) fs

  nothing_to_delete :
      (fs : Fs)
      → (fs.inodes ino).index_block ≡ 0
      → delete_slice_and_clear_inode k fuel ino fs ≡ ok tt (cleared fs)
  unfolding delete_slice_and_clear_inode delete_slice small_file_get_bno cleared
  nothing_to_delete fs e = rw e refl

  -- The states of ouichefs_unlink after drop_entry.
  dated : Fs → Fs
  dated fs =
      with_inode dir (λ ci. record ci { i_mtime = k.now fs.calls; i_ctime = k.now fs.calls })
        (record fs { calls = suc fs.calls })

  wiped : Fs → Fs
  wiped fs =
      with_sbi (λ sbi. put_inode k sbi ino)
        (with_inode ino
          (λ ci. record ci {
            i_blocks = 0;
            index_block = 0;
            i_size = 0;
            i_uid = 0;
            i_gid = 0;
            i_mode = 0;
            i_ctime = record { tv_sec = 0; tv_nsec = 0 };
            i_mtime = record { tv_sec = 0; tv_nsec = 0 };
            i_atime = record { tv_sec = 0; tv_nsec = 0 };
            i_nlink = sub32 ci.i_nlink 1;
          })
          fs)

  run_lem :
      (fs fs1 : Fs)
      → IsEmptyFile (fs.inodes ino)
      → fs1.inodes ≡ fs.inodes
      → drop_entry k (fs.inodes dir).index_block ino (record fs { calls = suc fs.calls })
        ≡ ok tt fs1
      → ouichefs_unlink k fuel dir ino fs ≡ ok tt (wiped (cleared (dated fs1)))
  unfolding ouichefs_unlink dated
  run_lem fs fs1 e same dropped =
      rw (e.type, e.no_blocks, e.no_index, reads fs.calls (fs.inodes dir).index_block, dropped)
        (on_fail_ok (delete_slice_and_clear_inode k fuel ino) (λ u. clean_inode k ino 0 true)
            (λ u. clean_inode k ino 0 true) tt (dated fs1) (cleared (dated fs1))
            (nothing_to_delete (dated fs1) no_index)
          ∙ cleans (cleared (dated fs1)))
    where
      no_index : ((dated fs1).inodes ino).index_block ≡ 0
      no_index = rw (different ino dir (λ z. apart (sym z)), same) e.no_index

      cleans : (fs2 : Fs) → clean_inode k ino 0 true fs2 ≡ ok tt (wiped fs2)
      cleans fs2 = unfold clean_inode wiped in refl

  -- Unlinking an empty regular file whose entry is in a packed directory: the run ends normally, the
  -- entry is taken out and the others keep their order, the inode is given back, and nothing else
  -- changes.
  pub ouichefs_unlink-Unlinked :
      (n p : ℕ) (fs : Fs)
      → IsEmptyFile (fs.inodes ino)
      → IsPacked (entries_of fs dir) n
      → p < n
      → entry_inode (entries_of fs dir) p ≡ ino
      → (fs' : Fs) × (ouichefs_unlink k fuel dir ino fs ≡ ok tt fs') × Unlinked k fs dir n p ino fs'
  ouichefs_unlink-Unlinked n p fs e packed low here =
      let (fs1, dropped, packed', kept, blocks, inodes, numbers) =
        drop_entry-IsPacked k (fs.inodes dir).index_block n p (record fs { calls = suc fs.calls })
          packed low in
      let drop : drop_entry k (fs.inodes dir).index_block ino (record fs { calls = suc fs.calls })
          ≡ ok tt fs1 =
        rw (sym here) dropped in
      let final : Fs = wiped (cleared (dated fs1)) in
      let index : (final.inodes dir).index_block ≡ (fs.inodes dir).index_block =
        at_dir fs1 ∙ ap (λ f. (f dir).index_block) inodes in
      (
        final,
        run_lem fs fs1 e inodes drop,
        record {
          numbers = on_sbi fs1 ∙ ap (λ s. put_inode k s ino) numbers;
          index = index;
          packed = rw (entries fs1 index) packed';
          kept = λ i c h q. ap (λ b. b (32 * i + c)) (entries fs1 index) ∙ kept i c h q;
          blocks = λ b h. ap (λ d. d b) (on_disk fs1) ∙ blocks b h;
          others = λ i h g. other fs1 i h g ∙ ap (λ f. f i) inodes;
        },
      )
    where
      on_sbi : (fs1 : Fs) → (wiped (cleared (dated fs1))).sbi ≡ put_inode k fs1.sbi ino
      on_sbi fs1 = unfold wiped cleared dated in refl

      on_disk : (fs1 : Fs) → (wiped (cleared (dated fs1))).disk ≡ fs1.disk
      on_disk fs1 = unfold wiped cleared dated in refl

      entries :
          (fs1 : Fs)
          → ((wiped (cleared (dated fs1))).inodes dir).index_block ≡ (fs.inodes dir).index_block
          → entries_of (wiped (cleared (dated fs1))) dir ≡ fs1.disk (fs.inodes dir).index_block
      entries fs1 e =
          ap (wiped (cleared (dated fs1))).disk e
          ∙ ap (λ d. d (fs.inodes dir).index_block) (on_disk fs1)

      at_dir :
          (fs1 : Fs)
          → ((wiped (cleared (dated fs1))).inodes dir).index_block ≡ (fs1.inodes dir).index_block
      at_dir fs1 = unfold wiped cleared dated in rw (different dir ino apart, ==_self dir) refl

      other :
          (fs1 : Fs) (i : ℕ)
          → i ≢ ino
          → i ≢ dir
          → (wiped (cleared (dated fs1))).inodes i ≡ fs1.inodes i
      other fs1 i h g = unfold wiped cleared dated in rw (different i ino h, different i dir g) refl
