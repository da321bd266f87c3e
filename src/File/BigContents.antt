-- ===== src/File/BigContents.antt =====
-- The contents of a big file after a write, with the blocks that it allocates.
use mathlib.Core.Path.{subst}
use lkp_project.Prelude.{
  ℕ, ◌*◌, ◌^◌, ◌<◌, ◌≢◌, ◌⊎◌, true, false, ◌==◌, ◌≡◌, refl, arith, ◌∙◌, ap, sym, Bool-cases, inl,
  inr, ==_self, update,
}
use lkp_project.Kernel.{Kernel, BitmapLaws}
use lkp_project.Block.{set_u32}
use lkp_project.Block.Laws.{get_u32-set_u32_self, get_u32-set_u32_apart}
use lkp_project.State.{Fs, Run, ok, fail, enospc}
use lkp_project.Bitmap.{get_free_block}
use lkp_project.Bitmap.Blocks.{
  BlocksCounted, exhausted, allocated, take_block, get_free_block_lem, get_free_block-BlocksCounted,
}
use lkp_project.File.Reads.{index_entry}
use lkp_project.File.BigWrites.{block_of}

-- The index block `ib` of a file: its entries are blocks in use, different from each other and from
-- it, or 0.
pub record IndexOk (ib : ℕ) (fs : Fs) : Type 0 where
  pub counted : BlocksCounted fs.sbi
  pub some_index : ib ≢ 0
  pub index_used : fs.sbi.bfree_bitmap ib ≡ false
  pub used :
      (i : ℕ)
      → i < 1024
      → index_entry (fs.disk ib) i ≢ 0
      → fs.sbi.bfree_bitmap (index_entry (fs.disk ib) i) ≡ false
  pub apart : (i : ℕ) → i < 1024 → index_entry (fs.disk ib) i ≢ ib
  pub distinct :
      (i j : ℕ)
      → i < 1024
      → j < 1024
      → index_entry (fs.disk ib) i ≢ 0
      → index_entry (fs.disk ib) i ≡ index_entry (fs.disk ib) j
      → i ≡ j

-- `fs'` is `fs` with block `bno` behind entry `idx` of the index: the one that was there, and no block
-- is taken; or a block that was free, and it alone is taken.
pub record HasBlock (ib idx : ℕ) (fs : Fs) (bno : ℕ) (fs' : Fs) : Type 0 where
  pub valid : IndexOk ib fs'
  pub some_block : bno ≢ 0
  pub entry : index_entry (fs'.disk ib) idx ≡ bno
  pub kept : (i : ℕ) → i ≢ idx → index_entry (fs'.disk ib) i ≡ index_entry (fs.disk ib) i
  pub had : index_entry (fs.disk ib) idx ≢ 0 → index_entry (fs.disk ib) idx ≡ bno
  pub fresh :
      index_entry (fs.disk ib) idx ≡ 0
      → (fs.sbi.bfree_bitmap bno ≡ true)
        × (bno < fs.sbi.nr_blocks)
        × (fs'.sbi ≡ take_block fs.sbi bno)
  pub same_sbi : index_entry (fs.disk ib) idx ≢ 0 → fs'.sbi ≡ fs.sbi
  pub others : (b : ℕ) → b ≢ ib → fs'.disk b ≡ fs.disk b
  pub inodes : fs'.inodes ≡ fs.inodes
  pub io : fs'.io ≡ fs.io

-- A run that gives a value for which `p` holds, or ends with ENOSPC where no block is free.
pub data OrFull {A : Type 0} (p : A → Fs → Type 0) (r : Run A) : Type 0 where
  done : (a : A) (fs : Fs) → p a fs → r ≡ ok a fs → OrFull p r
  full :
      (fs : Fs)
      → ((j : ℕ) → j < fs.sbi.nr_blocks → fs.sbi.bfree_bitmap j ≡ false)
      → r ≡ fail enospc fs
      → OrFull p r

with_new : ℕ → ℕ → ℕ → Fs → Fs
with_new ib idx bno fs = record fs {
  sbi = take_block fs.sbi bno;
  disk = update fs.disk ib (set_u32 (fs.disk ib) (4 * idx) bno);
}

module _ (ib idx bno : ℕ) (fs : Fs) (small : bno < 2 ^ 32) where
  new_index : (with_new ib idx bno fs).disk ib ≡ set_u32 (fs.disk ib) (4 * idx) bno
  new_index = unfold with_new in rw (==_self ib) refl

  new_entry : index_entry ((with_new ib idx bno fs).disk ib) idx ≡ bno
  new_entry = rw new_index (get_u32-set_u32_self (fs.disk ib) (4 * idx) bno small)

  old_entry :
      (i : ℕ)
      → i ≢ idx
      → index_entry ((with_new ib idx bno fs).disk ib) i ≡ index_entry (fs.disk ib) i
  old_entry i other =
      rw new_index
        (get_u32-set_u32_apart (fs.disk ib) (4 * idx) (4 * i) bno (ground (arith, other)))

pub same-or-other : (i j : ℕ) → (i ≡ j) ⊎ (i ≢ j)
same-or-other i j = elim (Bool-cases (i == j)) [
  | inl e ↦ inl (ground (arith, e))
  | inr e ↦ inr (ground (arith, e))
]

-- A free block put behind an entry that was 0.
module _ (ib idx bno : ℕ) (fs : Fs) (low : idx < 1024) (v : IndexOk ib fs) (pos : 0 < bno)
    (lt : bno < fs.sbi.nr_blocks) (free : fs.sbi.bfree_bitmap bno ≡ true)
    (counted : BlocksCounted (take_block fs.sbi bno)) where
  small : bno < 2 ^ 32
  small = omega (arith, v.counted.word)

  fs1 : Fs
  fs1 = with_new ib idx bno fs

  entry1 : ℕ → ℕ
  entry1 i = index_entry (fs1.disk ib) i

  not_free : (x : ℕ) → fs.sbi.bfree_bitmap x ≡ false → x ≢ bno
  not_free x h e = absurd (ground (arith, sym h ∙ ap fs.sbi.bfree_bitmap e ∙ free))

  used1 : (x : ℕ) → fs.sbi.bfree_bitmap x ≡ false → fs1.sbi.bfree_bitmap x ≡ false
  unfolding fs1 with_new
  used1 x h = ground (arith, h)

  taken1 : fs1.sbi.bfree_bitmap bno ≡ false
  unfolding fs1 with_new
  taken1 = rw (==_self bno) refl

  at_idx : entry1 idx ≡ bno
  unfolding fs1 entry1
  at_idx = new_entry ib idx bno fs small

  elsewhere : (i : ℕ) → i ≢ idx → entry1 i ≡ index_entry (fs.disk ib) i
  unfolding fs1 entry1
  elsewhere i other = old_entry ib idx bno fs small i other

  -- A statement about entry `i` from the two cases.
  by_entry :
      (p : ℕ → Type 0) (i : ℕ)
      → (i ≡ idx → p bno)
      → (i ≢ idx → p (index_entry (fs.disk ib) i))
      → p (entry1 i)
  by_entry p i here there = elim (same-or-other i idx) [
    | inl e ↦ subst (λ x. p (entry1 x)) (sym e) (subst p (sym at_idx) (here e))
    | inr other ↦ subst p (sym (elsewhere i other)) (there other)
  ]

  -- No old entry is the new block.
  fresh : (i : ℕ) → i < 1024 → index_entry (fs.disk ib) i ≢ bno
  fresh i h e =
      not_free (index_entry (fs.disk ib) i) (v.used i h (λ z. absurd (omega (arith, z, e)))) e

  with_new-IndexOk : IndexOk ib fs1
  unfolding entry1
  with_new-IndexOk = record {
    counted = unfold fs1 with_new in counted;
    some_index = v.some_index;
    index_used = used1 ib v.index_used;
    used = λ i h.
        by_entry (λ x. x ≢ 0 → fs1.sbi.bfree_bitmap x ≡ false) i (λ e some. taken1)
          (λ other some. used1 _ (v.used i h some));
    apart = λ i h.
        by_entry (λ x. x ≢ ib) i (λ e z. not_free ib v.index_used (sym z)) (λ other. v.apart i h);
    distinct = λ i j hi hj. distinct1 i j hi hj;
  }
    where
      distinct1 : (i j : ℕ) → i < 1024 → j < 1024 → entry1 i ≢ 0 → entry1 i ≡ entry1 j → i ≡ j
      distinct1 i j hi hj =
          by_entry (λ x. x ≢ 0 → x ≡ entry1 j → i ≡ j) i
            (λ e some.
              by_entry (λ y. bno ≡ y → i ≡ j) j (λ e' same. e ∙ sym e')
                (λ other same. absurd (fresh j hj (sym same))))
            (λ other some.
              by_entry (λ y. index_entry (fs.disk ib) i ≡ y → i ≡ j) j
                (λ e' same. absurd (fresh i hi same))
                (λ other' same. v.distinct i j hi hj some same))

  with_new-HasBlock : index_entry (fs.disk ib) idx ≡ 0 → HasBlock ib idx fs bno fs1
  unfolding entry1
  with_new-HasBlock hole = record {
    valid = with_new-IndexOk;
    some_block = λ e. absurd (omega arith);
    entry = at_idx;
    kept = elsewhere;
    had = λ some. absurd (some hole);
    fresh = λ z. (free, lt, unfold fs1 with_new in refl);
    same_sbi = λ some. absurd (some hole);
    others = λ b p. unfold fs1 with_new in ground arith;
    inodes = unfold fs1 with_new in refl;
    io = unfold fs1 with_new in refl;
  }

-- A block that is there.
pub there-HasBlock :
    (ib idx : ℕ) (fs : Fs)
    → IndexOk ib fs
    → index_entry (fs.disk ib) idx ≢ 0
    → HasBlock ib idx fs (index_entry (fs.disk ib) idx) fs
there-HasBlock ib idx fs v there = record {
  valid = v;
  some_block = there;
  entry = refl;
  kept = λ i p. refl;
  had = λ p. refl;
  fresh = λ z. absurd (there z);
  same_sbi = λ p. refl;
  others = λ b p. refl;
  inodes = refl;
  io = refl;
}

module _ {k : Kernel} (laws : BitmapLaws k) where
  -- block_of gives the block behind an entry, or takes a free one for it; or no block is free, and it
  -- changes nothing.
  pub block_of_lem :
      (ib idx : ℕ) (fs : Fs)
      → idx < 1024
      → IndexOk ib fs
      → ((bno : ℕ) × (fs' : Fs) × HasBlock ib idx fs bno fs' × (block_of k ib idx fs ≡ ok bno fs'))
        ⊎ ((index_entry (fs.disk ib) idx ≡ 0)
            × ((j : ℕ) → j < fs.sbi.nr_blocks → fs.sbi.bfree_bitmap j ≡ false)
            × (block_of k ib idx fs ≡ fail enospc fs))
  unfolding block_of fs1 with_new
  block_of_lem ib idx fs low v = elim (Bool-cases (index_entry (fs.disk ib) idx == 0)) [
    | inr there ↦ inl (
      index_entry (fs.disk ib) idx,
      fs,
      there-HasBlock ib idx fs v (ground (arith, there)),
      rw there refl,
    )
    | inl hole ↦ elim (get_free_block_lem laws v.counted) [
      | exhausted none e ↦ inr (ground (arith, hole), none, rw (hole, e) refl)
      | allocated bno pos lt free least e ↦ inl (
        bno,
        fs1 ib idx bno fs low v pos lt free (counted e),
        with_new-HasBlock ib idx bno fs low v pos lt free (counted e) (ground (arith, hole)),
        rw (hole, e, different bno pos) refl,
      )
    ]
  ]
    where
      different : (bno : ℕ) → 0 < bno → (bno == 0) ≡ false
      different bno pos = ground arith

      counted :
          {bno : ℕ}
          → get_free_block k fs.sbi ≡ (bno, take_block fs.sbi bno)
          → BlocksCounted (take_block fs.sbi bno)
      counted e =
          subst BlocksCounted (ap (λ x. x.1) e) (get_free_block-BlocksCounted laws v.counted)

  pub block_of-OrFull :
      (ib idx : ℕ) (fs : Fs)
      → idx < 1024
      → IndexOk ib fs
      → OrFull (HasBlock ib idx fs) (block_of k ib idx fs)
  block_of-OrFull ib idx fs low v = elim (block_of_lem ib idx fs low v) [
    | inl (bno, fs', has, runs) ↦ done bno fs' has runs
    | inr (_, none, runs) ↦ full fs none runs
  ]
