-- ===== src/Examples/Slices.antt =====
-- Slices taken and deleted in small sliced blocks.
use lkp_project.Prelude.{false, ◌≡◌, [], ◌∷◌, none, some, arith, refl, update}
use lkp_project.Words.{div_round_up}
use lkp_project.Block.{get_u32}
use lkp_project.State.{state_of, Fs, ok}
use lkp_project.Slice.{
  sb_bitmap, take_slices, init_slice_header, clear_slices, delete_slice,
  get_consequitive_free_slices, find_slices, small_file_index, small_file_get_bno,
  small_file_get_slice, allocate_and_init_slice_block,
}
use lkp_project.Slice.Take.{TakesFirst, get_consequitive_free_slices_lem}
use lkp_project.Slice.Chain.{Chain, nil, cons}
use lkp_project.Slice.Swept.{IsSwept}
use lkp_project.Slice.Delete.{
  clear_slices-get_consequitive_free_slices, IsCleared, cleared, clear_slices-IsCleared,
  delete_slice-IsSwept,
}
use lkp_project.Slice.Index.{small_file_index_parts, small_file_index-get}
use lkp_project.Slice.Allocate.{AllocatesSliced, allocate_and_init_slice_block_lem}
use lkp_project.Examples.Host.{host, host_laws, small_fs, blank_block, small_sbi}
use lkp_project.Examples.Bitmaps.{small_sbi-BlocksCounted}

-- Block 5 is a sliced block, and the only one of the list.
abbrev sliced_fs : Fs
sliced_fs = record small_fs {
  sbi = record small_sbi {
    s_free_sliced_blocks = 5;
    nr_sliced_blocks = 1;
    bfree_bitmap = λ j. false;
  };
  disk = update (λ _. blank_block) 5 (init_slice_header blank_block);
}

sliced_fs-Chain : Chain sliced_fs.disk 5 (5 ∷ [])
unfolding init_slice_header get_u32
sliced_fs-Chain = cons 0 (λ e. absurd (omega arith)) refl refl nil

-- The same with three slices taken for inode 2.
abbrev taken_fs : Fs
taken_fs = state_of sliced_fs (get_consequitive_free_slices 5 2 300 sliced_fs)

find_second : find_slices 30 0b11010 0b110 1 ≡ some (3, 0b11000)
unfolding find_slices
find_second = refl

get_consequitive_free_slices_lem_example :
    TakesFirst 5 2 (div_round_up 300 128) sliced_fs (get_consequitive_free_slices 5 2 300 sliced_fs)
get_consequitive_free_slices_lem_example =
    get_consequitive_free_slices_lem 5 2 300 sliced_fs (omega arith)

small_file_index_parts_example :
    (small_file_get_bno (small_file_index 77 3) ≡ 77)
    × (small_file_get_slice (small_file_index 77 3) ≡ 3)
small_file_index_parts_example = small_file_index_parts 77 3 (omega arith) (omega arith)

small_file_index-get_example :
    small_file_index (small_file_get_bno 2467) (small_file_get_slice 2467) ≡ 2467
small_file_index-get_example = small_file_index-get 2467 (omega arith)

clear_slices-IsCleared_example : IsCleared 3 2 blank_block (clear_slices 3 2 blank_block)
clear_slices-IsCleared_example =
    clear_slices-IsCleared 3 2 blank_block (omega arith) (omega arith) (omega arith)

delete_slice-IsSwept_example :
    (fs' : Fs) × (delete_slice host 2 5 1 3 sliced_fs ≡ ok tt fs')
    × IsSwept host none (5 ∷ []) (cleared 5 1 3 sliced_fs) fs'
delete_slice-IsSwept_example =
    delete_slice-IsSwept host 2 5 1 3 sliced_fs (λ t b. refl) (λ e. absurd (omega arith))
      (λ e. absurd (omega arith)) (omega arith) (omega arith) (omega arith) sliced_fs-Chain
      (omega arith)

allocate_and_init_slice_block_lem_example :
    AllocatesSliced host small_fs (allocate_and_init_slice_block host small_fs)
allocate_and_init_slice_block_lem_example =
    allocate_and_init_slice_block_lem host_laws {fs = small_fs} small_sbi-BlocksCounted

clear_slices-get_consequitive_free_slices_example :
    sb_bitmap (clear_slices 1 (div_round_up 300 128) (taken_fs.disk 5))
    ≡ sb_bitmap (sliced_fs.disk 5)
unfolding get_consequitive_free_slices take_slices find_slices init_slice_header get_u32
clear_slices-get_consequitive_free_slices_example =
    clear_slices-get_consequitive_free_slices 5 2 300 1 sliced_fs taken_fs (omega arith)
      (λ e. absurd (omega arith)) refl
