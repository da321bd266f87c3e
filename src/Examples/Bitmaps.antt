-- ===== src/Examples/Bitmaps.antt =====
-- The allocation of blocks on a small partition.
use lkp_project.Prelude.{ℕ, ◌<◌, ◌≡◌, ◌≢◌, arith, refl, count}
use lkp_project.Bitmap.{get_first_free_bit, get_free_block, put_block}
use lkp_project.Bitmap.Blocks.{
  BlocksCounted, IsAllocated, AllocatesBlock, get_free_block_lem, get_free_block_iff,
  get_free_block_fresh, put_block_past_end,
}
use lkp_project.Examples.Host.{host, host_laws, scan, small_sbi, full_sbi}

pub small_sbi-BlocksCounted : BlocksCounted small_sbi
unfolding count
small_sbi-BlocksCounted = record { word = omega arith; reserved = refl; counted = refl }

takes_first : (get_free_block host small_sbi).0 ≡ 5
unfolding get_free_block get_first_free_bit scan
takes_first = refl

takes_none : get_free_block host full_sbi ≡ (0, full_sbi)
unfolding get_free_block get_first_free_bit scan
takes_none = refl

get_free_block_lem_example : AllocatesBlock small_sbi (get_free_block host small_sbi)
get_free_block_lem_example = get_free_block_lem host_laws small_sbi-BlocksCounted

got_block : 0 < (get_free_block host small_sbi).0
got_block = (get_free_block_iff host_laws small_sbi-BlocksCounted).1 (omega arith)

get_free_block_fresh_example :
    IsAllocated (get_free_block host small_sbi).1 (get_free_block host small_sbi).0
    × ((bno : ℕ)
        → IsAllocated small_sbi bno
        → IsAllocated (get_free_block host small_sbi).1 bno
          × (bno ≢ (get_free_block host small_sbi).0))
get_free_block_fresh_example = get_free_block_fresh host_laws small_sbi-BlocksCounted got_block

put_block_past_end_example : ¬ BlocksCounted (put_block host small_sbi 8)
put_block_past_end_example = put_block_past_end host_laws small_sbi-BlocksCounted (omega arith)
