-- ===== src/File/BigTaken.antt =====
-- The blocks that a write of a big file takes.
use lkp_project.Prelude.{
  ℕ, ◌≢◌, true, false, ◌==◌, ◌&&◌, if◌then◌else◌, ◌≡◌, arith, ◌∙◌, ap, sym, Bool-cases, inl, inr,
}
use lkp_project.State.{Fs}
use lkp_project.File.Reads.{index_entry}
use lkp_project.File.BigContents.{HasBlock, same-or-other}

-- The blocks taken from `fs` to `fs'` are those behind the entries of index block `ib` that were holes,
-- each was free, and the blocks in use that are not the file's are as before.
pub record Took (ib : ℕ) (fs fs' : Fs) : Type 0 where
  pub entries :
      (i : ℕ)
      → index_entry (fs.disk ib) i ≢ 0
      → index_entry (fs'.disk ib) i ≡ index_entry (fs.disk ib) i
  pub fresh :
      (i : ℕ)
      → index_entry (fs.disk ib) i ≡ 0
      → index_entry (fs'.disk ib) i ≢ 0
      → fs.sbi.bfree_bitmap (index_entry (fs'.disk ib) i) ≡ true
  pub stays_used : (b : ℕ) → fs.sbi.bfree_bitmap b ≡ false → fs'.sbi.bfree_bitmap b ≡ false
  pub taken :
      (b : ℕ)
      → fs.sbi.bfree_bitmap b ≡ true
      → fs'.sbi.bfree_bitmap b ≡ false
      → (i : ℕ) × (index_entry (fs.disk ib) i ≡ 0) × (index_entry (fs'.disk ib) i ≡ b) × (b ≢ 0)
  pub foreign :
      (b : ℕ)
      → b ≢ ib
      → fs.sbi.bfree_bitmap b ≡ false
      → ((i : ℕ) → index_entry (fs.disk ib) i ≢ b)
      → fs'.disk b ≡ fs.disk b

module _ (ib : ℕ) (fs fs1 fs2 : Fs) (one : Took ib fs fs1) (two : Took ib fs1 fs2) where
  kept_entry :
      (i : ℕ)
      → index_entry (fs1.disk ib) i ≢ 0
      → index_entry (fs2.disk ib) i ≡ index_entry (fs1.disk ib) i
  kept_entry i some = two.entries i some

  still_some : (i : ℕ) → index_entry (fs.disk ib) i ≢ 0 → index_entry (fs1.disk ib) i ≢ 0
  still_some i some z = some (sym (one.entries i some) ∙ z)

  was_hole : (i : ℕ) → index_entry (fs1.disk ib) i ≡ 0 → index_entry (fs.disk ib) i ≡ 0
  was_hole i z = elim (same-or-other (index_entry (fs.disk ib) i) 0) [
    | inl e ↦ e
    | inr some ↦ absurd (still_some i some z)
  ]

  -- A block that was free later was free before.
  was_free : (b : ℕ) → fs1.sbi.bfree_bitmap b ≡ true → fs.sbi.bfree_bitmap b ≡ true
  was_free b free = elim (Bool-cases (fs.sbi.bfree_bitmap b)) [
    | inl e ↦ e
    | inr used ↦ absurd (ground (arith, one.stays_used b used, free))
  ]

  pub Took-trans : Took ib fs fs2
  Took-trans = record {
    entries = λ i some. two.entries i (still_some i some) ∙ one.entries i some;
    fresh = λ i hole some. elim (same-or-other (index_entry (fs1.disk ib) i) 0) [
      | inl z ↦ was_free (index_entry (fs2.disk ib) i) (two.fresh i z some)
      | inr there ↦ ap fs.sbi.bfree_bitmap (kept_entry i there) ∙ one.fresh i hole there
    ];
    stays_used = λ b used. two.stays_used b (one.stays_used b used);
    taken = λ b free used. elim (Bool-cases (fs1.sbi.bfree_bitmap b)) [
      | inr used1 ↦
          let (i, hole, e, some) = one.taken b free used1 in
          (i, hole, kept_entry i (λ z. some (sym e ∙ z)) ∙ e, some)
      | inl free1 ↦ let (i, hole, e, some) = two.taken b free1 used in (i, was_hole i hole, e, some)
    ];
    foreign = λ b other used not_its.
        two.foreign b other (one.stays_used b used) (λ i e.
          elim (same-or-other (index_entry (fs.disk ib) i) 0) [
            | inr some ↦ not_its i (sym (one.entries i some) ∙ e)
            | inl hole ↦ elim (same-or-other b 0) [
              | inl z ↦ not_its i (hole ∙ sym z)
              | inr b_some ↦ absurd (
                  ground (
                    arith,
                    sym (ap fs.sbi.bfree_bitmap e) ∙ one.fresh i hole (λ z. b_some (sym e ∙ z)),
                    used,
                  ))
            ]
          ])
        ∙ one.foreign b other used not_its;
  }

-- One block behind an entry, and a change of its bytes.
module _ (ib idx bno : ℕ) (fs fs1 fs2 : Fs) (has : HasBlock ib idx fs bno fs1)
    (sbi : fs2.sbi ≡ fs1.sbi) (index : fs2.disk ib ≡ fs1.disk ib)
    (others : (b : ℕ) → b ≢ bno → fs2.disk b ≡ fs1.disk b) where
  entry2 : (i : ℕ) → index_entry (fs2.disk ib) i ≡ index_entry (fs1.disk ib) i
  entry2 i = ap (λ b. index_entry b i) index

  bitmap2 :
      (b : ℕ)
      → fs2.sbi.bfree_bitmap b ≡ (
          if (index_entry (fs.disk ib) idx == 0) && (b == bno)
          then false
          else fs.sbi.bfree_bitmap b)
  bitmap2 b = elim (same-or-other (index_entry (fs.disk ib) idx) 0) [
    | inl hole ↦ ap (λ s. s.bfree_bitmap b) (sbi ∙ (has.fresh hole).2) ∙ (ground (arith, hole))
    | inr some ↦ ap (λ s. s.bfree_bitmap b) (sbi ∙ has.same_sbi some) ∙ (ground (arith, some))
  ]

  -- The entry is the only one that may change.
  is_idx : (i : ℕ) → index_entry (fs.disk ib) i ≡ 0 → index_entry (fs2.disk ib) i ≢ 0 → i ≡ idx
  is_idx i hole some = elim (same-or-other i idx) [
    | inl e ↦ e
    | inr other ↦ absurd (some (entry2 i ∙ has.kept i other ∙ hole))
  ]

  pub HasBlock-Took : Took ib fs fs2
  HasBlock-Took = record {
    entries = λ i some. entry2 i ∙ (elim (same-or-other i idx) [
      | inl e ↦ rw e (has.entry ∙ sym (has.had (λ z. some (ap (index_entry (fs.disk ib)) e ∙ z))))
      | inr other ↦ has.kept i other
    ]);
    fresh = λ i hole some.
        let e : i ≡ idx = is_idx i hole some in
        ap fs.sbi.bfree_bitmap (entry2 i ∙ ap (index_entry (fs1.disk ib)) e ∙ has.entry)
        ∙ (has.fresh (ap (index_entry (fs.disk ib)) (sym e) ∙ hole)).0;
    stays_used = λ b used. ground (arith, bitmap2 b, used);
    taken = λ b free used.
        let both : (index_entry (fs.disk ib) idx ≡ 0) × (b ≡ bno) =
          ground (arith, bitmap2 b, free, used) in
        (idx, both.0, entry2 idx ∙ has.entry ∙ sym both.1, λ z. has.some_block (sym both.1 ∙ z));
    foreign = λ b other used not_its.
        others b (λ e. elim (same-or-other (index_entry (fs.disk ib) idx) 0) [
          | inl hole ↦
              absurd (ground (arith, sym (ap fs.sbi.bfree_bitmap e) ∙ used, (has.fresh hole).0))
          | inr some ↦ not_its idx (has.had some ∙ sym e)
        ])
        ∙ has.others b other;
  }
