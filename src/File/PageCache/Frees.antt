-- ===== src/File/PageCache/Frees.antt =====
-- The loop of ouichefs_write_end (file.c) that gives back the blocks behind the end of a file.
use mathlib.Core.Path.{subst}
use lkp_project.Prelude.{
  ℕ, zero, suc, ◌+◌, ◌*◌, ◌≤◌, ◌<◌, ◌≢◌, ◌⊎◌, true, false, ◌≡◌, refl, arith, ◌∙◌, ap, sym, inl, inr,
  ==_self, different,
}
use lkp_project.Kernel.{Kernel, BitmapLaws}
use lkp_project.Block.{set_u32}
use lkp_project.Block.Laws.{get_u32-set_u32_self, get_u32-set_u32_apart}
use lkp_project.State.{Fs, ok, with_block}
use lkp_project.Bitmap.{put_block}
use lkp_project.Bitmap.Blocks.{
  BlocksCounted, IsAllocated, give_block, put_block-give_block, put_block-BlocksCounted,
  allocated_small,
}
use lkp_project.File.Reads.{index_entry}
use lkp_project.File.BigContents.{IndexOk, same-or-other}
use lkp_project.File.PageCache.{free_entries}

-- The entry names a block of the partition.
abbrev pub IsBlock : ℕ → Fs → ℕ → Type 0
IsBlock ib fs j = (index_entry (fs.disk ib) j ≢ 0) × (index_entry (fs.disk ib) j < fs.sbi.nr_blocks)

-- `fs'` is `fs` with the blocks behind the `n` entries from `i` on given back, and the entries zeroed.
pub record Freed (ib i n : ℕ) (fs fs' : Fs) : Type 0 where
  pub valid : IndexOk ib fs'
  pub zeroed : (j : ℕ) → i ≤ j → j < i + n → index_entry (fs'.disk ib) j ≡ 0
  pub given : (j : ℕ) → i ≤ j → j < i + n → fs'.sbi.bfree_bitmap (index_entry (fs.disk ib) j) ≡ true
  pub kept :
      (j : ℕ) → (j < i) ⊎ (i + n ≤ j) → index_entry (fs'.disk ib) j ≡ index_entry (fs.disk ib) j
  pub stays_free : (b : ℕ) → fs.sbi.bfree_bitmap b ≡ true → fs'.sbi.bfree_bitmap b ≡ true
  pub count : fs'.sbi.nr_free_blocks ≡ fs.sbi.nr_free_blocks + n
  pub nr_blocks : fs'.sbi.nr_blocks ≡ fs.sbi.nr_blocks
  pub others : (b : ℕ) → b ≢ ib → fs'.disk b ≡ fs.disk b
  pub inodes : fs'.inodes ≡ fs.inodes

pub Freed-none : (ib i : ℕ) (fs : Fs) → IndexOk ib fs → Freed ib i 0 fs fs
Freed-none ib i fs v = record {
  valid = v;
  zeroed = λ j p q. absurd (omega arith);
  given = λ j p q. absurd (omega arith);
  kept = λ j h. refl;
  stays_free = λ b h. h;
  count = omega arith;
  nr_blocks = refl;
  others = λ b h. refl;
  inodes = refl;
}

-- The number of calls does not matter.
pub Freed-called :
    {ib i n : ℕ} {fs fs' : Fs}
    → Freed ib i n (record fs { calls = suc fs.calls }) fs'
    → Freed ib i n fs fs'
Freed-called r = record {
  valid = r.valid;
  zeroed = r.zeroed;
  given = r.given;
  kept = r.kept;
  stays_free = r.stays_free;
  count = r.count;
  nr_blocks = r.nr_blocks;
  others = r.others;
  inodes = r.inodes;
}

-- One round.
freed_one : ℕ → ℕ → Fs → Fs
freed_one ib i fs =
    with_block ib (λ b. set_u32 b (4 * i) 0)
      (record fs { sbi = give_block fs.sbi (index_entry (fs.disk ib) i) })

module _ (ib i : ℕ) (fs : Fs) where
  at_index : (freed_one ib i fs).disk ib ≡ set_u32 (fs.disk ib) (4 * i) 0
  at_index = unfold freed_one in rw (==_self ib) refl

  entry_here : index_entry ((freed_one ib i fs).disk ib) i ≡ 0
  entry_here = rw at_index (get_u32-set_u32_self (fs.disk ib) (4 * i) 0 (omega arith))

  entry_there :
      (j : ℕ) → j ≢ i → index_entry ((freed_one ib i fs).disk ib) j ≡ index_entry (fs.disk ib) j
  entry_there j other =
      rw at_index (get_u32-set_u32_apart (fs.disk ib) (4 * i) (4 * j) 0 (ground (arith, other)))

  -- A statement about entry `j` from the two cases.
  by_entry :
      (p : ℕ → Type 0) (j : ℕ)
      → (j ≡ i → p 0)
      → (j ≢ i → p (index_entry (fs.disk ib) j))
      → p (index_entry ((freed_one ib i fs).disk ib) j)
  by_entry p j here there = elim (same-or-other j i) [
    | inl e ↦
        subst (λ x. p (index_entry ((freed_one ib i fs).disk ib) x)) (sym e)
          (subst p (sym entry_here) (here e))
    | inr other ↦ subst p (sym (entry_there j other)) (there other)
  ]

  free_there : (freed_one ib i fs).sbi.bfree_bitmap (index_entry (fs.disk ib) i) ≡ true
  free_there = unfold freed_one in rw (==_self (index_entry (fs.disk ib) i)) refl

  free_stays :
      (b : ℕ) → fs.sbi.bfree_bitmap b ≡ true → (freed_one ib i fs).sbi.bfree_bitmap b ≡ true
  unfolding freed_one
  free_stays b h = ground (arith, h)

  used_stays :
      (b : ℕ)
      → b ≢ index_entry (fs.disk ib) i
      → fs.sbi.bfree_bitmap b ≡ false
      → (freed_one ib i fs).sbi.bfree_bitmap b ≡ false
  unfolding freed_one
  used_stays b other h = rw (different b (index_entry (fs.disk ib) i) other) h

  other_block : (b : ℕ) → b ≢ ib → (freed_one ib i fs).disk b ≡ fs.disk b
  unfolding freed_one
  other_block b other = rw (different b ib other) refl

  IsBlock-freed_one : (j : ℕ) → j ≢ i → IsBlock ib fs j → IsBlock ib (freed_one ib i fs) j
  unfolding freed_one
  IsBlock-freed_one j other block =
      subst (λ x. (x ≢ 0) × (x < fs.sbi.nr_blocks)) (sym (entry_there j other)) block

  Freed-cons :
      {n : ℕ} {fs' : Fs} → Freed ib (i + 1) n (freed_one ib i fs) fs' → Freed ib i (suc n) fs fs'
  unfolding freed_one
  Freed-cons {n} {fs'} rest = record {
    valid = rest.valid;
    zeroed = λ j p q. elim (same-or-other j i) [
      | inl e ↦ rw e (rest.kept i (inl (omega arith)) ∙ entry_here)
      | inr other ↦ rest.zeroed j (ground (arith, other, p)) (omega arith)
    ];
    given = λ j p q. elim (same-or-other j i) [
      | inl e ↦ rw e (rest.stays_free (index_entry (fs.disk ib) i) free_there)
      | inr other ↦
          ap fs'.sbi.bfree_bitmap (sym (entry_there j other))
          ∙ rest.given j (ground (arith, other, p)) (omega arith)
    ];
    kept =
        λ j h. rest.kept j (omega (arith, h)) ∙ entry_there j (λ e. absurd (omega (arith, e, h)));
    stays_free = λ b h. rest.stays_free b (free_stays b h);
    count = rest.count ∙ omega arith;
    nr_blocks = rest.nr_blocks;
    others = λ b h. rest.others b h ∙ other_block b h;
    inodes = rest.inodes;
  }

module _ {k : Kernel} (laws : BitmapLaws k) where
  is_allocated :
      (ib i : ℕ) (fs : Fs)
      → i < 1024
      → IndexOk ib fs
      → IsBlock ib fs i
      → IsAllocated fs.sbi (index_entry (fs.disk ib) i)
  is_allocated ib i fs low v is_block = record {
    positive = grind (arith, is_block.0);
    below = is_block.1;
    in_use = v.used i low is_block.0;
  }

  put_block_lem :
      (ib i : ℕ) (fs : Fs)
      → i < 1024
      → IndexOk ib fs
      → IsBlock ib fs i
      → put_block k fs.sbi (index_entry (fs.disk ib) i)
        ≡ give_block fs.sbi (index_entry (fs.disk ib) i)
  put_block_lem ib i fs low v is_block =
      put_block-give_block laws v.counted (index_entry (fs.disk ib) i) (omega (arith, is_block.1)) (
        allocated_small laws v.counted (index_entry (fs.disk ib) i)
          (is_allocated ib i fs low v is_block))

  -- One round on a well-formed index.
  freed_one-IndexOk :
      (ib i : ℕ) (fs : Fs)
      → i < 1024
      → IndexOk ib fs
      → IsBlock ib fs i
      → IndexOk ib (freed_one ib i fs)
  freed_one-IndexOk ib i fs low v is_block = record {
    counted =
        unfold freed_one in
        subst BlocksCounted (put_block_lem ib i fs low v is_block) (
          put_block-BlocksCounted laws v.counted (index_entry (fs.disk ib) i)
            (is_allocated ib i fs low v is_block));
    some_index = v.some_index;
    index_used = used_stays ib i fs ib (λ e. v.apart i low (sym e)) v.index_used;
    used = λ j h.
        by_entry ib i fs (λ x. x ≢ 0 → (freed_one ib i fs).sbi.bfree_bitmap x ≡ false) j
          (λ e some. absurd (some refl))
          (λ other some.
            used_stays ib i fs _ (λ same. other (v.distinct j i h low some same))
              (v.used j h some));
    apart = λ j h.
        by_entry ib i fs (λ x. x ≢ ib) j (λ e z. v.some_index (sym z)) (λ other. v.apart j h);
    distinct = λ j l hj hl.
        by_entry ib i fs (λ x. x ≢ 0 → x ≡ index_entry ((freed_one ib i fs).disk ib) l → j ≡ l) j
          (λ e some. absurd (some refl))
          (λ other some.
            by_entry ib i fs (λ y. index_entry (fs.disk ib) j ≡ y → j ≡ l) l
              (λ e same. absurd (some same)) (λ other' same. v.distinct j l hj hl some same));
  }

  -- The loop.
  pub free_entries-Freed :
      (n i ib : ℕ) (fs : Fs)
      → i + n ≤ 1024
      → IndexOk ib fs
      → ((j : ℕ) → i ≤ j → j < i + n → IsBlock ib fs j)
      → (fs' : Fs) × (free_entries k n i ib fs ≡ ok tt fs') × Freed ib i n fs fs'
  unfolding free_entries freed_one
  free_entries-Freed zero i ib fs room v blocks = (fs, refl, Freed-none ib i fs v)
  free_entries-Freed (suc n) i ib fs room v blocks =
      let is_block : IsBlock ib fs i = blocks i (omega arith) (omega arith) in
      let (fs', runs, rest) =
        free_entries-Freed n (i + 1) ib (freed_one ib i fs) (omega arith)
          (freed_one-IndexOk ib i fs (omega arith) v is_block)
          (λ j p q.
            IsBlock-freed_one ib i fs j (λ e. absurd (omega (arith, e, p)))
              (blocks j (omega arith) (omega arith))) in
      (fs', rw (put_block_lem ib i fs (omega arith) v is_block) runs, Freed-cons ib i fs rest)
