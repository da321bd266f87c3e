-- ===== src/Slice/Index.antt =====
-- The index_block of a small file: a block number of 27 bits and a slice number of 5.
use Prim.Native.Nat.{bit_and}
use lkp_project.Prelude.{ℕ, zero, suc, ◌+◌, ◌*◌, ◌/◌, ◌%◌, ◌^◌, ◌≤◌, ◌<◌, ◌≡◌, refl, arith}
use lkp_project.Words.Digits.{bit_and_lowest}
use lkp_project.Slice.{small_file_get_bno, small_file_get_slice, small_file_index}

bit_and_zero : (n a : ℕ) → a ≤ n → bit_and a 0 ≡ 0
bit_and_zero zero a h = let e : a ≡ 0 = omega arith in rw e refl
bit_and_zero (suc n) zero h = bit_and_zero n 0 (omega arith)
bit_and_zero (suc n) (suc a) h =
    omega (arith, bit_and_lowest (suc a) 0, bit_and_zero n (suc a / 2) (omega arith))

bit_and_low : (a : ℕ) → bit_and a 31 ≡ a % 32
bit_and_low a = omega (
  arith,
  bit_and_lowest a 31,
  bit_and_lowest (a / 2) 15,
  bit_and_lowest (a / 2 / 2) 7,
  bit_and_lowest (a / 2 / 2 / 2) 3,
  bit_and_lowest (a / 2 / 2 / 2 / 2) 1,
  bit_and_zero a (a / 2 / 2 / 2 / 2 / 2) (omega arith),
)

pub small_file_get_slice-lt : (i : ℕ) → small_file_get_slice i < 32
unfolding small_file_get_slice
small_file_get_slice-lt i = omega (arith, bit_and_low i)

-- The block and the slice read from the index that write_small_file stores are the ones that it
-- stored, for a block number below 2^27 and a slice number below 32.
pub small_file_index_parts :
    (block slice : ℕ)
    → block < 2 ^ 27
    → slice < 32
    → (small_file_get_bno (small_file_index block slice) ≡ block)
      × (small_file_get_slice (small_file_index block slice) ≡ slice)
unfolding small_file_get_bno small_file_get_slice small_file_index
small_file_index_parts block slice p q =
    omega (arith, bit_and_low (((block * 2 ^ 5) % 2 ^ 32 + slice) % 2 ^ 32))

-- Every index is the one stored for its two parts.
pub small_file_index-get :
    (i : ℕ) → i < 2 ^ 32 → small_file_index (small_file_get_bno i) (small_file_get_slice i) ≡ i
unfolding small_file_get_bno small_file_get_slice small_file_index
small_file_index-get i h = omega (arith, bit_and_low i)

-- Block 2^27, which allocate_and_init_slice_block lets through, does not fit in the index: it
-- reads back as block 0.
pub small_file_index_too_far :
    (slice : ℕ) → slice < 32 → small_file_get_bno (small_file_index (2 ^ 27) slice) ≡ 0
unfolding small_file_get_bno small_file_index
small_file_index_too_far slice h = omega arith
