-- ===== src/Bitmap/Blocks.antt =====
-- get_free_block and put_block: what they do on every branch, and the count of free blocks.
use lkp_project.Prelude.{
  ◌↔◌, ◌≢◌, suc, ap, count_zero, count_ext, ℕ, ◌+◌, ◌-◌, ◌^◌, ◌≤◌, ◌<◌, true, false, update, ◌≡◌,
  inl, inr, fun_ext, arith, count, count-clear, count-set, count-le,
}
use lkp_project.Kernel.{Kernel, BitmapLaws}
use lkp_project.State.{SbInfo}
use lkp_project.Bitmap.{get_first_free_bit, get_free_block, put_free_bit, put_block}
use lkp_project.Bitmap.First.{get_first_free_bit_lem, bitmap_set_one}

-- Block 0, the super block, is in use, and the counter is the number of free blocks.
pub record BlocksCounted (sbi : SbInfo) : Type 0 where
  pub word : sbi.nr_blocks < 2 ^ 32
  pub reserved : sbi.bfree_bitmap 0 ≡ false
  pub counted : sbi.nr_free_blocks ≡ count sbi.bfree_bitmap sbi.nr_blocks

-- A block that is in use and that the bitmap covers.
pub record IsAllocated (sbi : SbInfo) (bno : ℕ) : Type 0 where
  pub positive : 0 < bno
  pub below : bno < sbi.nr_blocks
  pub in_use : sbi.bfree_bitmap bno ≡ false

-- `bno` taken out of the free blocks, and put back.
abbrev pub take_block : SbInfo → ℕ → SbInfo
take_block sbi bno = record sbi {
  bfree_bitmap = update sbi.bfree_bitmap bno false;
  nr_free_blocks = sbi.nr_free_blocks - 1;
}

abbrev pub give_block : SbInfo → ℕ → SbInfo
give_block sbi bno = record sbi {
  bfree_bitmap = update sbi.bfree_bitmap bno true;
  nr_free_blocks = sbi.nr_free_blocks + 1;
}

-- Either every block is in use, and nothing changes, or the least free block is taken.
pub data AllocatesBlock (sbi : SbInfo) (out : ℕ × SbInfo) : Type 0 where
  exhausted :
      ((j : ℕ) → j < sbi.nr_blocks → sbi.bfree_bitmap j ≡ false)
      → out ≡ (0, sbi)
      → AllocatesBlock sbi out
  allocated :
      (bno : ℕ)
      → 0 < bno
      → bno < sbi.nr_blocks
      → sbi.bfree_bitmap bno ≡ true
      → ((j : ℕ) → j < bno → sbi.bfree_bitmap j ≡ false)
      → out ≡ (bno, take_block sbi bno)
      → AllocatesBlock sbi out

module _ {k : Kernel} (laws : BitmapLaws k) {sbi : SbInfo} (v : BlocksCounted sbi) where
  positive_count :
      (bno : ℕ) → bno < sbi.nr_blocks → sbi.bfree_bitmap bno ≡ true → 0 < sbi.nr_free_blocks
  positive_count bno lt free =
      omega (arith, v.counted, count-clear sbi.bfree_bitmap bno sbi.nr_blocks lt free)

  pub word_count : sbi.nr_free_blocks < 2 ^ 32
  word_count = omega (arith, v.counted, v.word, count-le sbi.bfree_bitmap sbi.nr_blocks)

  -- get_free_block takes the least free block, or returns 0 when there is none.
  pub get_free_block_lem : AllocatesBlock sbi (get_free_block k sbi)
  unfolding get_free_block
  get_free_block_lem =
      elim (get_first_free_bit_lem laws sbi.bfree_bitmap sbi.nr_blocks v.word v.reserved) [
        | inl none_left ↦
            exhausted none_left.all_used (ground (arith, none_left.result, none_left.unchanged))
        | inr first ↦
            allocated (get_first_free_bit k sbi.bfree_bitmap sbi.nr_blocks).0 first.positive
              first.below first.was_free first.least
              (ground (
                arith,
                first.positive,
                first.taken,
                word_count,
                positive_count _ first.below first.was_free,
              ))
      ]

  -- The counter of free blocks tells whether get_free_block succeeds.
  pub get_free_block_iff : (0 < (get_free_block k sbi).0) ↔ (0 < sbi.nr_free_blocks)
  get_free_block_iff = elim get_free_block_lem [
    | exhausted used e ↦
        rw e (omega (arith, v.counted, count_zero sbi.bfree_bitmap sbi.nr_blocks used))
    | allocated bno pos lt free least e ↦ rw e (λ _. positive_count bno lt free, λ _. pos)
  ]

  -- get_free_block keeps the counter equal to the number of free blocks.
  pub get_free_block-BlocksCounted : BlocksCounted (get_free_block k sbi).1
  get_free_block-BlocksCounted = elim get_free_block_lem [
    | exhausted used e ↦ rw e v
    | allocated bno pos lt free least e ↦ rw e (record {
      word = v.word;
      reserved = ground (arith, v.reserved);
      counted = omega (arith, v.counted, count-clear sbi.bfree_bitmap bno sbi.nr_blocks lt free);
    })
  ]

  -- The block that get_free_block returns is in use afterwards. Every block that was in use
  -- before it is still in use, and is another one.
  pub get_free_block_fresh :
      0 < (get_free_block k sbi).0
      → IsAllocated (get_free_block k sbi).1 (get_free_block k sbi).0
        × ((bno : ℕ)
            → IsAllocated sbi bno
            → IsAllocated (get_free_block k sbi).1 bno × (bno ≢ (get_free_block k sbi).0))
  get_free_block_fresh got = elim get_free_block_lem [
    | exhausted used e ↦ absurd (omega (arith, got, ap (λ (p : ℕ × SbInfo). p.0) e))
    | allocated new pos lt free least e ↦ rw e (
      record { positive = pos; below = lt; in_use = ground arith },
      λ bno a. (
        record { positive = a.positive; below = a.below; in_use = ground (arith, a.in_use) },
        λ same. cc (free, a.in_use, ap sbi.bfree_bitmap same),
      ),
    )
  ]

  -- put_block of a block in use frees it, and counts it.
  pub put_block-give_block :
      (bno : ℕ)
      → bno ≤ sbi.nr_blocks
      → sbi.nr_free_blocks + 1 < 2 ^ 32
      → put_block k sbi bno ≡ give_block sbi bno
  unfolding put_block put_free_bit
  put_block-give_block bno le small = ground (arith, bitmap_set_one laws sbi.bfree_bitmap bno)

  allocated_count :
      (bno : ℕ)
      → IsAllocated sbi bno
      → suc sbi.nr_free_blocks ≡ count (update sbi.bfree_bitmap bno true) sbi.nr_blocks
  allocated_count bno a =
      omega (arith, v.counted, count-set sbi.bfree_bitmap bno sbi.nr_blocks a.below a.in_use)

  pub allocated_small : (bno : ℕ) → IsAllocated sbi bno → sbi.nr_free_blocks + 1 < 2 ^ 32
  allocated_small bno a = omega (
    arith,
    allocated_count bno a,
    v.word,
    count-le (update sbi.bfree_bitmap bno true) sbi.nr_blocks,
  )

  -- put_block of a block in use keeps the counter equal to the number of free blocks.
  pub put_block-BlocksCounted :
      (bno : ℕ) → IsAllocated sbi bno → BlocksCounted (put_block k sbi bno)
  put_block-BlocksCounted bno a =
      rw (put_block-give_block bno (omega (arith, a.below)) (allocated_small bno a)) (record {
        word = v.word;
        reserved = ground (arith, v.reserved, a.positive);
        counted = omega (arith, allocated_count bno a);
      })

  pub put_block-take_block :
      (bno : ℕ)
      → bno < sbi.nr_blocks
      → sbi.bfree_bitmap bno ≡ true
      → put_block k (take_block sbi bno) bno ≡ sbi
  unfolding put_block put_free_bit
  put_block-take_block bno lt free = ground (
    arith,
    bitmap_set_one laws (update sbi.bfree_bitmap bno false) bno,
    restored,
    positive_count bno lt free,
    word_count,
  )
    where
      restored : update (update sbi.bfree_bitmap bno false) bno true ≡ sbi.bfree_bitmap
      restored = fun_ext λ j. ground (arith, ap sbi.bfree_bitmap)

  -- put_block undoes get_free_block: the bitmap and the counter are as before.
  pub put_block-get_free_block :
      0 < (get_free_block k sbi).0
      → put_block k (get_free_block k sbi).1 (get_free_block k sbi).0 ≡ sbi
  put_block-get_free_block got = elim get_free_block_lem [
    | exhausted used e ↦ absurd (omega (arith, got, ap (λ (p : ℕ × SbInfo). p.0) e))
    | allocated bno pos lt free least e ↦ rw e (put_block-take_block bno lt free)
  ]

  -- The guard of put_free_bit lets `i == size` through: a block number just past the end is
  -- accepted, and the counter no longer is the number of free blocks.
  pub put_block_past_end :
      sbi.nr_free_blocks + 1 < 2 ^ 32 → ¬ BlocksCounted (put_block k sbi sbi.nr_blocks)
  put_block_past_end small after =
      let a : BlocksCounted (give_block sbi sbi.nr_blocks) =
        rw (put_block-give_block sbi.nr_blocks (omega arith) small) at after in
      omega (
        arith,
        v.counted,
        a.counted,
        count_ext (update sbi.bfree_bitmap sbi.nr_blocks true) sbi.bfree_bitmap sbi.nr_blocks
            (λ j p. ground arith),
      )
