-- ===== src/Store/Apart.antt =====
-- The inode store as a table of inodes by number.
use lkp_project.State.{with_inode}
use lkp_project.Prelude.{
  Bool-cases, ◌==◌, suc, suc, ℕ, ◌+◌, ◌≤◌, ◌<◌, ◌⊎◌, ◌≡◌, ◌≢◌, refl, arith, false, true, Bool, ◌&&◌,
  leb, update, ==_self, ◌∙◌, ap, List, [], ◌∷◌, inl, inr,
}
use lkp_project.Kernel.{Kernel}
use lkp_project.Block.{Block, get_u32, set_u32}
use lkp_project.Block.Laws.{set_u32_outside}
use lkp_project.Block.Fields.{get_u64, get_u16, set_u16, set_words}
use lkp_project.State.{InodeInfo, Fs, ok}
use lkp_project.Store.{
  store_inode, load_inode, inode_words, inode_block, inode_offset, Locked, is_fresh,
  ouichefs_write_inode, ouichefs_iget, fill_inode,
}
use lkp_project.Store.RoundTrip.{FitsDisk, load_inode-store_inode}

abbrev are_below : ℕ → List (ℕ × ℕ) → Bool
are_below n [] = true
are_below n ((o, v) ∷ ws) = leb (o + 4) n && are_below n ws

set_words_outside :
    (base n : ℕ) (ws : List (ℕ × ℕ)) (b : Block) (j : ℕ)
    → are_below n ws ≡ true
    → (j < base) ⊎ (base + n ≤ j)
    → set_words base ws b j ≡ b j
unfolding set_words
set_words_outside base n [] b j below out = refl
set_words_outside base n ((o, v) ∷ ws) b j below out =
    set_words_outside base n ws (set_u32 b (base + o) v) j (rest (leb (o + 4) n) below) out
    ∙ set_u32_outside b (base + o) v j (beyond (first (leb (o + 4) n) below))
  where
    rest : (x : Bool) → (x && are_below n ws) ≡ true → are_below n ws ≡ true
    rest true h = h
    rest false h = absurd (ground (arith, h))

    first : (x : Bool) → (x && are_below n ws) ≡ true → x ≡ true
    first true h = refl
    first false h = absurd (ground (arith, h))

    beyond : leb (o + 4) n ≡ true → (j < base + o) ⊎ (base + o + 4 ≤ j)
    beyond h = ground (arith, h, out)

store_inode_outside :
    (base : ℕ) (ci : InodeInfo) (b : Block) (j : ℕ)
    → (j < base) ⊎ (base + 80 ≤ j)
    → store_inode base ci b j ≡ b j
unfolding store_inode
store_inode_outside base ci b j out =
    past (set_words base (inode_words ci) b)
    ∙ set_words_outside base 76 (inode_words ci) b j refl (omega arith)
  where
    past : (c : Block) → set_u16 c (base + 76) ci.num_slices j ≡ c j
    past c = unfold set_u16 in ground (arith, out)

-- Blocks that agree where an inode stands hold the same inode.
module _ (base : ℕ) (b c : Block) (same : (j : ℕ) → base ≤ j → j < base + 80 → b j ≡ c j) where
  word_ext : (p : ℕ) → p + 4 ≤ 80 → get_u32 b (base + p) ≡ get_u32 c (base + p)
  unfolding get_u32
  word_ext p low =
      rw
        (
          same (base + p) (omega arith) (omega arith),
          same (base + p + 1) (omega arith) (omega arith),
          same (base + p + 2) (omega arith) (omega arith),
          same (base + p + 3) (omega arith) (omega arith),
        )
        refl

  long_ext : (p : ℕ) → p + 8 ≤ 80 → get_u64 b (base + p) ≡ get_u64 c (base + p)
  long_ext p low =
      let e : base + p + 4 ≡ base + (p + 4) = omega arith in
      rw (e, word_ext p (omega arith), word_ext (p + 4) (omega arith)) refl

  short_ext : get_u16 b (base + 76) ≡ get_u16 c (base + 76)
  unfolding get_u16
  short_ext =
      rw
        (
          same (base + 76) (omega arith) (omega arith),
          same (base + 76 + 1) (omega arith) (omega arith),
        )
        refl

  load_inode_ext : load_inode base b ≡ load_inode base c
  unfolding load_inode
  load_inode_ext = λ i. record {
    i_mode = word_ext 0 (omega arith) i;
    i_uid = word_ext 4 (omega arith) i;
    i_gid = word_ext 8 (omega arith) i;
    i_size = word_ext 12 (omega arith) i;
    i_ctime = record {
      tv_sec = word_ext 16 (omega arith) i;
      tv_nsec = long_ext 24 (omega arith) i;
    };
    i_atime = record {
      tv_sec = word_ext 32 (omega arith) i;
      tv_nsec = long_ext 40 (omega arith) i;
    };
    i_mtime = record {
      tv_sec = word_ext 48 (omega arith) i;
      tv_nsec = long_ext 56 (omega arith) i;
    };
    i_blocks = word_ext 64 (omega arith) i;
    i_nlink = word_ext 68 (omega arith) i;
    index_block = word_ext 72 (omega arith) i;
    num_slices = short_ext i;
  }

-- The inode that the store holds under a number.
abbrev pub stored : (ℕ → Block) → ℕ → InodeInfo
stored disk ino = load_inode (inode_offset ino) (disk (inode_block ino))

module _ (k : Kernel) (reads : (t b : ℕ) → k.bread t b ≡ true) where
  -- Writing an inode that fits on the disk succeeds. The store then holds it, and every other inode
  -- as before, and no block but its own has changed.
  pub ouichefs_write_inode_lem :
      (ino : ℕ) (fs : Fs)
      → ino < fs.sbi.nr_inodes
      → FitsDisk (fs.inodes ino)
      → (fs' : Fs) × (ouichefs_write_inode k ino fs ≡ ok tt fs')
        × (stored fs'.disk ino ≡ fs.inodes ino)
        × ((i : ℕ) → i ≢ ino → stored fs'.disk i ≡ stored fs.disk i)
        × ((b : ℕ) → b ≢ inode_block ino → fs'.disk b ≡ fs.disk b)
        × (fs'.inodes ≡ fs.inodes)
        × (fs'.sbi ≡ fs.sbi)
  unfolding ouichefs_write_inode
  ouichefs_write_inode_lem ino fs below fits = (
    after,
    rw (inside, reads fs.calls (inode_block ino)) refl,
    written,
    others,
    λ b p. ground arith,
    refl,
    refl,
  )
    where
      after : Fs
      after = record fs {
        disk =
            update fs.disk (inode_block ino)
              (store_inode (inode_offset ino) (fs.inodes ino) (fs.disk (inode_block ino)));
        calls = suc fs.calls;
      }

      inside : leb fs.sbi.nr_inodes ino ≡ false
      inside = ground arith

      written : stored after.disk ino ≡ fs.inodes ino
      written = rw (==_self (inode_block ino)) (
          load_inode-store_inode (inode_offset ino) (fs.inodes ino) (fs.disk (inode_block ino))
            fits)

      outside :
          (i : ℕ)
          → i ≢ ino
          → inode_block i ≡ inode_block ino
          → (j : ℕ) → inode_offset i ≤ j
          → j < inode_offset i + 80
          → (j < inode_offset ino) ⊎ (inode_offset ino + 80 ≤ j)
      outside i p e j lo hi = ground arith

      agree :
          (i : ℕ)
          → i ≢ ino
          → (j : ℕ) → inode_offset i ≤ j
          → j < inode_offset i + 80
          → after.disk (inode_block i) j ≡ fs.disk (inode_block i) j
      agree i p j lo hi = elim (Bool-cases (inode_block i == inode_block ino)) [
        | inr other ↦ rw other refl
        | inl same ↦
            let e : inode_block i ≡ inode_block ino = ground (arith, same) in
            rw (same, e)
              (store_inode_outside (inode_offset ino) (fs.inodes ino) (fs.disk (inode_block ino)) j
                (outside i p e j lo hi))
      ]

      others : (i : ℕ) → i ≢ ino → stored after.disk i ≡ stored fs.disk i
      others i p =
          load_inode_ext (inode_offset i) (after.disk (inode_block i)) (fs.disk (inode_block i))
            (agree i p)

  -- What was written is read back: when the inode is not in memory any more, ouichefs_iget on the
  -- same blocks gives it, with every field.
  pub ouichefs_iget-ouichefs_write_inode :
      (ino : ℕ) (fs : Fs) (memory : ℕ → InodeInfo) (iget_locked : ℕ → ℕ → Locked)
      → ino < fs.sbi.nr_inodes
      → FitsDisk (fs.inodes ino)
      → ((t : ℕ) → iget_locked t ino ≡ is_fresh)
      → (fs1 : Fs) × (fs2 : Fs) × (ouichefs_write_inode k ino fs ≡ ok tt fs1)
        × (ouichefs_iget k iget_locked ino (record fs1 { inodes = memory }) ≡ ok ino fs2)
        × (fs2.inodes ino ≡ fs.inodes ino)
        × ((i : ℕ) → i ≢ ino → fs2.inodes i ≡ memory i)
  unfolding ouichefs_iget fill_inode
  ouichefs_iget-ouichefs_write_inode ino fs memory iget_locked below fits fresh =
      let (fs1, wrote, written, others, blocks, inodes, sbi) =
        ouichefs_write_inode_lem ino fs below fits in
      (
        fs1,
        with_inode ino (λ _. stored fs1.disk ino)
            (record fs1 { inodes = memory; calls = suc fs1.calls }),
        wrote,
        run fs1 sbi,
        rw (==_self ino) written,
        λ i p. ground arith,
      )
    where
      run :
          (fs1 : Fs)
          → fs1.sbi ≡ fs.sbi
          → ouichefs_iget k iget_locked ino (record fs1 { inodes = memory })
            ≡ ok ino (
                with_inode ino
                  (λ _. stored fs1.disk ino)
                  (record fs1 { inodes = memory; calls = suc fs1.calls }))
      run fs1 same =
          rw
            (
              inside (ap (λ sbi. sbi.nr_inodes) same),
              fresh fs1.calls,
              reads fs1.calls (inode_block ino),
            )
            refl
        where
          inside : fs1.sbi.nr_inodes ≡ fs.sbi.nr_inodes → leb fs1.sbi.nr_inodes ino ≡ false
          inside e = ground (arith, e)
