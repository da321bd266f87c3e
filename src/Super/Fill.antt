-- ===== src/Super/Fill.antt =====
-- ouichefs_fill_super, of a partition with a magic number.
use lkp_project.Prelude.{
  ◌==◌, ℕ, suc, ◌+◌, ◌*◌, ◌%◌, ◌^◌, ◌<◌, true, false, leb, none, some, ◌≡◌, refl, arith, ◌∙◌, ap,
  sym,
}
use lkp_project.Words.{u32}
use lkp_project.Kernel.{Kernel}
use lkp_project.Block.{Block, block_size, get_u32}
use lkp_project.Block.Fields.{stored_or, set_words, get_u32-set_words, word_at}
use lkp_project.Block.Fields.{stored_or}
use lkp_project.State.{with_inode, Fs, SbInfo, ok}
use lkp_project.Super.{ouichefs_magic, ouichefs_fill_super}
use lkp_project.Store.{load_inode, inode_block, inode_offset, is_fresh, ouichefs_iget, fill_inode}
use lkp_project.Super.{sb_words, load_sb, Vfs, alloc_bitmap, mount_root}
use lkp_project.Super.Sync.{loaded, load_bitmap_lem}

-- The numbers of the super block are uint32_t.
pub record IsWide (sbi : SbInfo) : Type 0 where
  pub blocks : sbi.nr_blocks < 2 ^ 32
  pub inodes : sbi.nr_inodes < 2 ^ 32
  pub istore : sbi.nr_istore_blocks < 2 ^ 32
  pub ifree : sbi.nr_ifree_blocks < 2 ^ 32
  pub bfree : sbi.nr_bfree_blocks < 2 ^ 32
  pub sliced : sbi.nr_sliced_blocks < 2 ^ 32
  pub free_inodes : sbi.nr_free_inodes < 2 ^ 32
  pub free_blocks : sbi.nr_free_blocks < 2 ^ 32
  pub used : sbi.nr_used_slices < 2 ^ 32
  pub head : sbi.s_free_sliced_blocks < 2 ^ 32

-- The numbers alone.
abbrev pub numbers : SbInfo → SbInfo
numbers sbi = record sbi { magic = 0; ifree_bitmap = λ _. false; bfree_bitmap = λ _. false }

module _ (sbi : SbInfo) (b : Block) where
  sb_word :
      (p v : ℕ)
      → p % 4 ≡ 0
      → word_at p (sb_words sbi) ≡ some v
      → v < 2 ^ 32
      → get_u32 (set_words 0 (sb_words sbi) b) p ≡ v
  sb_word p v aligned there fits =
      let e : 0 + p ≡ p = omega arith in
      rw (sym e) (
        get_u32-set_words 0 p (sb_words sbi) b refl aligned
        ∙ ap (stored_or (get_u32 b (0 + p))) there
        ∙ omega arith)

  pub load_sb-set_words : IsWide sbi → load_sb (set_words 0 (sb_words sbi) b) ≡ numbers sbi
  unfolding load_sb
  load_sb-set_words w = λ i. record {
    magic = 0;
    nr_blocks = sb_word 4 sbi.nr_blocks refl refl w.blocks i;
    nr_inodes = sb_word 8 sbi.nr_inodes refl refl w.inodes i;
    nr_istore_blocks = sb_word 12 sbi.nr_istore_blocks refl refl w.istore i;
    nr_ifree_blocks = sb_word 16 sbi.nr_ifree_blocks refl refl w.ifree i;
    nr_bfree_blocks = sb_word 20 sbi.nr_bfree_blocks refl refl w.bfree i;
    nr_sliced_blocks = sb_word 24 sbi.nr_sliced_blocks refl refl w.sliced i;
    nr_free_inodes = sb_word 28 sbi.nr_free_inodes refl refl w.free_inodes i;
    nr_free_blocks = sb_word 32 sbi.nr_free_blocks refl refl w.free_blocks i;
    nr_used_slices = sb_word 36 sbi.nr_used_slices refl refl w.used i;
    s_free_sliced_blocks = sb_word 40 sbi.s_free_sliced_blocks refl refl w.head i;
    ifree_bitmap = λ _. false;
    bfree_bitmap = λ _. false;
  }

  pub same_magic : get_u32 (set_words 0 (sb_words sbi) b) 0 ≡ get_u32 b 0
  same_magic = get_u32-set_words 0 0 (sb_words sbi) b refl refl

-- The calls of a mount that succeeds.
pub record MountSucceeds (k : Kernel) (vfs : Vfs) : Type 0 where
  pub reads : (t b : ℕ) → k.bread t b ≡ true
  pub allocs : (t n : ℕ) → k.kmalloc t n ≡ true
  pub fresh : (t : ℕ) → vfs.iget_locked t 1 ≡ is_fresh
  pub root : (t : ℕ) → vfs.makes_root t ≡ true
  pub sysfs : (t : ℕ) → vfs.register_sysfs t ≡ none

-- The super block after mounting from `fs`, with the numbers of `sbi`.
abbrev pub mounted_sbi : SbInfo → (ℕ → Block) → SbInfo
mounted_sbi sbi disk = record (numbers sbi) {
  ifree_bitmap = loaded sbi.nr_ifree_blocks 0 (sbi.nr_istore_blocks + 1) (λ _. false) disk;
  bfree_bitmap =
      loaded sbi.nr_bfree_blocks 0 (sbi.nr_istore_blocks + sbi.nr_ifree_blocks + 1) (λ _. false)
        disk;
}

module _ (k : Kernel) (vfs : Vfs) (s : MountSucceeds k vfs) where
  alloc_bitmap_lem :
      (nr first : ℕ) (fs : Fs)
      → alloc_bitmap k nr first fs
        ≡ ok (loaded nr 0 first (λ _. false) fs.disk) (record fs { calls = suc fs.calls + nr })
  unfolding alloc_bitmap
  alloc_bitmap_lem nr first fs =
      rw (s.allocs fs.calls (u32 (nr * block_size)))
        (load_bitmap_lem k s.reads nr 0 first (λ _. false) (record fs { calls = suc fs.calls }))

  mount_root_lem :
      (fs : Fs)
      → 1 < fs.sbi.nr_inodes
      → (fs' : Fs) × (mount_root k vfs fs ≡ ok tt fs')
        × (fs'.sbi ≡ fs.sbi)
        × (fs'.disk ≡ fs.disk)
        × (fs'.inodes 1 ≡ record (load_inode (inode_offset 1) (fs.disk (inode_block 1))) {
          i_uid = vfs.fsuid;
          i_gid = vfs.fsgid;
        })
  unfolding mount_root ouichefs_iget fill_inode
  mount_root_lem fs enough = (
    mounted,
    rw (inside, s.fresh fs.calls, s.reads fs.calls 1, s.root (suc fs.calls), s.sysfs (suc fs.calls))
        refl,
    refl,
    refl,
    refl,
  )
    where
      inside : leb fs.sbi.nr_inodes 1 ≡ false
      inside = ground arith

      mounted : Fs
      mounted =
          with_inode 1 (λ ci. record ci { i_uid = vfs.fsuid; i_gid = vfs.fsgid })
            (with_inode 1 (λ _. load_inode (inode_offset 1) (fs.disk (inode_block 1)))
              (record fs { calls = suc fs.calls }))

  -- A partition with a magic number and these numbers is mounted, whatever else it holds.
  pub ouichefs_fill_super_lem :
      (fs : Fs) (sbi : SbInfo)
      → get_u32 (fs.disk 0) 0 ≡ ouichefs_magic
      → load_sb (fs.disk 0) ≡ numbers sbi
      → 1 < sbi.nr_inodes
      → (fs' : Fs) × (ouichefs_fill_super k vfs fs ≡ ok tt fs')
        × (fs'.sbi ≡ mounted_sbi sbi fs.disk)
        × (fs'.disk ≡ fs.disk)
        × (fs'.inodes 1 ≡ record (load_inode (inode_offset 1) (fs.disk (inode_block 1))) {
          i_uid = vfs.fsuid;
          i_gid = vfs.fsgid;
        })
  unfolding ouichefs_fill_super
  ouichefs_fill_super_lem fs sbi magic loads enough =
      let (fs', root, same, kept, loaded_root) = mount_root_lem before_root enough in
      (
        fs',
        rw
            (
              s.reads fs.calls 0,
              is_magic,
              s.allocs (suc fs.calls) vfs.sb_info_size,
              loads,
              alloc_bitmap_lem sbi.nr_ifree_blocks (sbi.nr_istore_blocks + 1) _,
              alloc_bitmap_lem sbi.nr_bfree_blocks (sbi.nr_istore_blocks + sbi.nr_ifree_blocks + 1)
                  _,
            )
            root,
        same,
        kept,
        loaded_root,
      )
    where
      before_root : Fs
      before_root = record fs {
        sbi = mounted_sbi sbi fs.disk;
        calls = suc (suc (suc (suc fs.calls)) + sbi.nr_ifree_blocks) + sbi.nr_bfree_blocks;
      }

      is_magic : (get_u32 (fs.disk 0) 0 == ouichefs_magic) ≡ true
      is_magic = rw magic refl
