-- ===== src/Super/Mount.antt =====
-- ouichefs_sync_fs, and ouichefs_fill_super of what it wrote.
use lkp_project.Prelude.{
  ℕ, suc, ◌+◌, ◌*◌, ◌/◌, ◌%◌, ◌<◌, true, false, ◌≡◌, refl, arith, ◌∙◌, ap, update,
}
use lkp_project.Super.Fill.{
  IsWide, numbers, load_sb-set_words, same_magic, MountSucceeds, ouichefs_fill_super_lem,
}
use lkp_project.Kernel.{Kernel, Bitmap}
use lkp_project.Block.{Block, within, get_u32}
use lkp_project.Block.Fields.{set_words}
use lkp_project.State.{InodeInfo, Fs, SbInfo, ok}
use lkp_project.Super.{ouichefs_magic, ouichefs_fill_super, sync_bitmap}
use lkp_project.Super.{
  bits_per_block, bit_of, sb_words, load_sb, Vfs, sync_sb_info, sync_ifree, sync_bfree,
  ouichefs_sync_fs,
}
use lkp_project.Super.Bits.{bit_of-copy_bitmap_to_le64}
use lkp_project.Super.Sync.{Synced, sync_bitmap-Synced, loaded}

-- The bits loaded from blocks that hold what a sync wrote.
loaded-Synced :
    (first n : ℕ) (m : Bitmap) (fs fs' : Fs) (disk : ℕ → Block)
    → Synced first 0 n m fs fs'
    → ((j : ℕ) → j < n → disk (first + j) ≡ fs'.disk (first + j))
    → (j : ℕ) → j < n * bits_per_block
    → loaded n 0 first (λ _. false) disk j ≡ m j
loaded-Synced first n m fs fs' disk synced same j h =
    let inside : within (0 * bits_per_block) (n * bits_per_block) j ≡ true = ground arith in
    rw inside (
      ap (λ b. bit_of b (j % bits_per_block))
        (same (j / bits_per_block) (omega arith)
          ∙ synced.written (j / bits_per_block) (omega arith) (omega arith))
      ∙ bit_of-copy_bitmap_to_le64 m (j / bits_per_block) (fs.disk (first + j / bits_per_block))
          (j % bits_per_block) (omega arith)
      ∙ ap m (omega arith))

module _ (k : Kernel) (vfs : Vfs) (s : MountSucceeds k vfs) where
  -- What ouichefs_sync_fs leaves in the block of the super block and in those of the bitmaps.
  pub record IsSynced (fs fs' : Fs) : Type 0 where
    pub numbers : fs'.disk 0 ≡ set_words 0 (sb_words fs.sbi) (fs.disk 0)
    pub ifree :
        (j : ℕ)
        → j < fs.sbi.nr_ifree_blocks * bits_per_block
        → loaded fs.sbi.nr_ifree_blocks 0 (fs.sbi.nr_istore_blocks + 1) (λ _. false) fs'.disk j
          ≡ fs.sbi.ifree_bitmap j
    pub bfree :
        (j : ℕ)
        → j < fs.sbi.nr_bfree_blocks * bits_per_block
        → loaded fs.sbi.nr_bfree_blocks 0
            (fs.sbi.nr_istore_blocks + fs.sbi.nr_ifree_blocks + 1)
            (λ _. false)
            fs'.disk
            j
          ≡ fs.sbi.bfree_bitmap j
    pub sbi : fs'.sbi ≡ fs.sbi

  after_numbers : Fs → Fs
  after_numbers fs = record fs {
    disk = update fs.disk 0 (set_words 0 (sb_words fs.sbi) (fs.disk 0));
    calls = suc fs.calls;
  }

  sync_bfree_run :
      (fs fs1 fs2 : Fs)
      → fs1.sbi ≡ fs.sbi
      → sync_bitmap k fs.sbi.nr_bfree_blocks 0
          (fs.sbi.nr_istore_blocks + fs.sbi.nr_ifree_blocks + 1)
          fs.sbi.bfree_bitmap
          fs1
        ≡ ok tt fs2
      → sync_bfree k fs1 ≡ ok tt fs2
  unfolding sync_bfree
  sync_bfree_run fs fs1 fs2 same runs =
      ap
        (λ sbi.
          sync_bitmap k sbi.nr_bfree_blocks 0 (sbi.nr_istore_blocks + sbi.nr_ifree_blocks + 1)
            sbi.bfree_bitmap fs1)
        same
      ∙ runs

  pub ouichefs_sync_fs-IsSynced :
      (fs : Fs) → (fs' : Fs) × (ouichefs_sync_fs k fs ≡ ok tt fs') × IsSynced fs fs'
  unfolding ouichefs_sync_fs sync_sb_info sync_ifree after_numbers
  ouichefs_sync_fs-IsSynced fs =
      let ifree_first = fs.sbi.nr_istore_blocks + 1 in
      let bfree_first = fs.sbi.nr_istore_blocks + fs.sbi.nr_ifree_blocks + 1 in
      let (fs1, run1, synced1) =
        sync_bitmap-Synced k s.reads fs.sbi.nr_ifree_blocks 0 ifree_first fs.sbi.ifree_bitmap
          (after_numbers fs) in
      let (fs2, run2, synced2) =
        sync_bitmap-Synced k s.reads fs.sbi.nr_bfree_blocks 0 bfree_first fs.sbi.bfree_bitmap fs1 in
      (
        fs2,
        rw (s.reads fs.calls 0, run1) (sync_bfree_run fs fs1 fs2 synced1.sbi run2),
        record {
          numbers = synced2.outside 0 (omega arith) ∙ synced1.outside 0 (omega arith);
          ifree =
              loaded-Synced ifree_first fs.sbi.nr_ifree_blocks fs.sbi.ifree_bitmap
                (after_numbers fs) fs1 fs2.disk synced1
                (λ j p. synced2.outside (ifree_first + j) (omega arith));
          bfree =
              loaded-Synced bfree_first fs.sbi.nr_bfree_blocks fs.sbi.bfree_bitmap fs1 fs2 fs2.disk
                synced2 (λ j p. refl);
          sbi = synced2.sbi ∙ synced1.sbi;
        },
      )

  -- Mounting what was synced: whatever is in memory, ouichefs_fill_super then succeeds, and it has
  -- the numbers of the super block and every bit of both bitmaps.
  pub ouichefs_fill_super-ouichefs_sync_fs :
      (fs : Fs) (sbi : SbInfo) (memory : ℕ → InodeInfo)
      → IsWide fs.sbi
      → get_u32 (fs.disk 0) 0 ≡ ouichefs_magic
      → 1 < fs.sbi.nr_inodes
      → (fs1 : Fs) × (fs2 : Fs) × (ouichefs_sync_fs k fs ≡ ok tt fs1)
        × (ouichefs_fill_super k vfs (record fs1 { sbi = sbi; inodes = memory }) ≡ ok tt fs2)
        × (numbers fs2.sbi ≡ numbers fs.sbi)
        × ((j : ℕ)
            → j < fs.sbi.nr_ifree_blocks * bits_per_block
            → fs2.sbi.ifree_bitmap j ≡ fs.sbi.ifree_bitmap j)
        × ((j : ℕ)
            → j < fs.sbi.nr_bfree_blocks * bits_per_block
            → fs2.sbi.bfree_bitmap j ≡ fs.sbi.bfree_bitmap j)
  ouichefs_fill_super-ouichefs_sync_fs fs sbi memory wide magic enough =
      let (fs1, synced, is_synced) = ouichefs_sync_fs-IsSynced fs in
      let (fs2, fills, same, _, _) =
        ouichefs_fill_super_lem k vfs s (record fs1 { sbi = sbi; inodes = memory }) fs.sbi
          (is_magic fs1 is_synced) (loads fs1 is_synced) enough in
      (
        fs1,
        fs2,
        synced,
        fills,
        ap numbers same,
        λ j p. ap (λ sbi. sbi.ifree_bitmap j) same ∙ is_synced.ifree j p,
        λ j p. ap (λ sbi. sbi.bfree_bitmap j) same ∙ is_synced.bfree j p,
      )
    where
      is_magic : (fs1 : Fs) → IsSynced fs fs1 → get_u32 (fs1.disk 0) 0 ≡ ouichefs_magic
      is_magic fs1 is_synced = rw (is_synced.numbers, same_magic fs.sbi (fs.disk 0)) magic

      loads : (fs1 : Fs) → IsSynced fs fs1 → load_sb (fs1.disk 0) ≡ numbers fs.sbi
      loads fs1 is_synced = rw is_synced.numbers (load_sb-set_words fs.sbi (fs.disk 0) wide)
