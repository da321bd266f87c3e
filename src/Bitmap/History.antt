-- ===== src/Bitmap/History.antt =====
-- Sequences of get_free_block and put_block (bitmap.h) on a mounted partition.
use lkp_project.Prelude.{ℕ, ◌≤◌, ◌<◌, ◌⊎◌, false, ◌≡◌, refl, arith, inl, inr}
use lkp_project.Kernel.{Kernel, BitmapLaws}
use lkp_project.State.{SbInfo}
use lkp_project.Bitmap.{get_free_block, put_block}
use lkp_project.Bitmap.Blocks.{
  BlocksCounted, IsAllocated, give_block, exhausted, allocated, get_free_block_lem,
  get_free_block-BlocksCounted, put_block-give_block, put_block-BlocksCounted, allocated_small,
}

-- The routines that work on files and directories take a block, or give one back that is in use and
-- lies behind the `base` blocks of the areas.
pub data BlockStep (k : Kernel) (base : ℕ) (sbi : SbInfo) : SbInfo → Type 0 where
  takes : BlockStep k base sbi (get_free_block k sbi).1
  gives : (bno : ℕ) → IsAllocated sbi bno → base ≤ bno → BlockStep k base sbi (put_block k sbi bno)

pub data Reaches (k : Kernel) (base : ℕ) (sbi0 : SbInfo) : SbInfo → Type 0 where
  start : Reaches k base sbi0 sbi0
  later : {s t : SbInfo} → Reaches k base sbi0 s → BlockStep k base s t → Reaches k base sbi0 t

-- The counter is exact, and the first `base` blocks are in use.
pub record IsKept (base nr_blocks : ℕ) (sbi : SbInfo) : Type 0 where
  pub counted : BlocksCounted sbi
  pub reserved : (j : ℕ) → j < base → sbi.bfree_bitmap j ≡ false
  pub same : sbi.nr_blocks ≡ nr_blocks

module _ {k : Kernel} (laws : BitmapLaws k) (base nr_blocks : ℕ) where
  takes-IsKept :
      (sbi : SbInfo) → IsKept base nr_blocks sbi → IsKept base nr_blocks (get_free_block k sbi).1
  takes-IsKept sbi v = elim (get_free_block_lem laws v.counted) [
    | exhausted used e ↦ rw e v
    | allocated bno pos lt free least e ↦ record {
      counted = get_free_block-BlocksCounted laws v.counted;
      reserved = rw e (λ j h. ground (arith, v.reserved j h));
      same = rw e v.same;
    }
  ]

  gives-IsKept :
      (sbi : SbInfo) (bno : ℕ)
      → IsKept base nr_blocks sbi
      → IsAllocated sbi bno
      → base ≤ bno
      → IsKept base nr_blocks (put_block k sbi bno)
  gives-IsKept sbi bno v a behind =
      let given : put_block k sbi bno ≡ give_block sbi bno =
        put_block-give_block laws v.counted bno (omega (arith, a.below))
          (allocated_small laws v.counted bno a) in
      record {
        counted = put_block-BlocksCounted laws v.counted bno a;
        reserved = rw given (λ j h. ground (arith, v.reserved j h, behind));
        same = rw given v.same;
      }

  BlockStep-IsKept :
      {s t : SbInfo} → BlockStep k base s t → IsKept base nr_blocks s → IsKept base nr_blocks t
  BlockStep-IsKept {s} takes v = takes-IsKept s v
  BlockStep-IsKept {s} (gives bno a behind) v = gives-IsKept s bno v a behind

  pub Reaches-IsKept :
      {s t : SbInfo} → IsKept base nr_blocks s → Reaches k base s t → IsKept base nr_blocks t
  Reaches-IsKept v start = v
  Reaches-IsKept v (later r step) = BlockStep-IsKept step (Reaches-IsKept v r)

  -- What get_free_block returns in such a state.
  pub IsKept-get_free_block :
      (sbi : SbInfo)
      → IsKept base nr_blocks sbi
      → ((get_free_block k sbi).0 ≡ 0) ⊎ (base ≤ (get_free_block k sbi).0)
  IsKept-get_free_block sbi v = elim (get_free_block_lem laws v.counted) [
    | exhausted used e ↦ rw e (inl refl)
    | allocated bno pos lt free least e ↦ rw e (inr (grind (arith, free, v.reserved bno)))
  ]
