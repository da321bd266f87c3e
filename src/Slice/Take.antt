-- ===== src/Slice/Take.antt =====
-- get_consequitive_free_slices: first fit over the slices of a block.
use Prim.Native.Nat.{bit_and, bit_and-bitwise}
use native.Mathlib.Nat.{pow-suc, pow-le-pow_right, one-le-pow}
use lkp_project.Prelude.{
  ℕ, zero, suc, ◌+◌, ◌-◌, ◌/◌, ◌^◌, ◌≤◌, ◌<◌, false, not, ◌&&◌, ltb, leb, Option, ◌≡◌, ◌≢◌, refl,
  arith,
}
use lkp_project.Words.{u16, sub32, shl32, not32, div_round_up}
use lkp_project.Words.Digits.{testbit, testbit-bit_and, testbit-complement, bit_and_lowest}
use lkp_project.Words.Mask.{run_mask, run_mask-lt, testbit-run_mask}
use lkp_project.Block.{block_size, set_u32}
use lkp_project.Block.Laws.{get_u32-lt, get_u32-set_u32_self, set_u32_outside}
use lkp_project.State.{Fs, Run, ok, with_block, with_inode}
use lkp_project.Slice.{sb_bitmap, slices_needed, take_slices, get_consequitive_free_slices}
use lkp_project.Slice.Find.{FreeRun, Finds, nowhere, first, find_slices_lem}

-- `fs'` is `fs` with the run of `n` slices at `s` of block `bno` taken for inode `ino`.
pub record IsTaken (bno ino n s : ℕ) (fs fs' : Fs) : Type 0 where
  pub bits :
      (j : ℕ)
      → j < 32
      → testbit (sb_bitmap (fs'.disk bno)) j
        ≡ (testbit (sb_bitmap (fs.disk bno)) j && not (leb s j && ltb j (s + n)))
  pub rest_of_block : (j : ℕ) → 4 ≤ j → fs'.disk bno j ≡ fs.disk bno j
  pub other_blocks : (b : ℕ) → b ≢ bno → fs'.disk b ≡ fs.disk b
  pub counted : (fs'.inodes ino).num_slices ≡ n
  pub same_place : (fs'.inodes ino).index_block ≡ (fs.inodes ino).index_block
  pub other_inodes : (i : ℕ) → i ≢ ino → fs'.inodes i ≡ fs.inodes i
  pub same_sbi : fs'.sbi ≡ fs.sbi

-- Either there is no run of `n` free slices, and nothing changes, or the first one is taken.
pub data TakesFirst (bno ino n : ℕ) (fs : Fs) (r : Run ℕ) : Type 0 where
  no_room :
      ((s : ℕ) → 1 ≤ s → s + n ≤ 32 → ¬ FreeRun (sb_bitmap (fs.disk bno)) n s)
      → r ≡ ok 0 fs
      → TakesFirst bno ino n fs r
  takes :
      (s : ℕ) (fs' : Fs)
      → 1 ≤ s
      → s + n ≤ 32
      → FreeRun (sb_bitmap (fs.disk bno)) n s
      → ((t : ℕ) → 1 ≤ t → t < s → ¬ FreeRun (sb_bitmap (fs.disk bno)) n t)
      → r ≡ ok s fs'
      → IsTaken bno ino n s fs fs'
      → TakesFirst bno ino n fs r

bit_and-lt : (k a b : ℕ) → a < 2 ^ k → bit_and a b < 2 ^ k
bit_and-lt zero a b h =
    let a0 : a ≡ 0 = omega arith in rw a0 (omega (arith, bit_and_lowest 0 b, zero_lem b))
  where
    zero_lem : (b : ℕ) → bit_and 0 b ≡ 0
    zero_lem b = simp bit_and-bitwise
bit_and-lt (suc k) a b h = omega (
  arith,
  bit_and_lowest a b,
  pow-suc 2 k,
  bit_and-lt k (a / 2) (b / 2) (omega (arith, pow-suc 2 k)),
)

taken_bits :
    (w n s j : ℕ)
    → n + s ≤ 32
    → j < 32
    → testbit (bit_and w (not32 (run_mask n s))) j ≡ (testbit w j && not (leb s j && ltb j (s + n)))
taken_bits w n s j fits lt = ground (
  arith,
  testbit-bit_and w (not32 (run_mask n s)) j,
  testbit-complement 32 (run_mask n s) j (run_mask-lt n s fits) lt,
  testbit-run_mask n s j,
)

first_mask : (n : ℕ) → n ≤ 31 → shl32 (sub32 (shl32 1 n) 1) 1 ≡ run_mask n 1
first_mask n h = omega (arith, pow-le-pow_right {n = 2} (omega arith) h, one-le-pow n 2)

taken_state : ℕ → ℕ → ℕ → ℕ → Fs → Fs
taken_state bno ino n s fs =
    with_inode ino (λ ci. record ci { num_slices = u16 n })
      (with_block bno (λ b. set_u32 b 0 (bit_and (sb_bitmap b) (not32 (run_mask n s)))) fs)

module _ (bno ino n s : ℕ) (fs : Fs) (fits : n + s ≤ 32) where
  word_lem :
      sb_bitmap ((taken_state bno ino n s fs).disk bno)
      ≡ bit_and (sb_bitmap (fs.disk bno)) (not32 (run_mask n s))
  unfolding taken_state
  word_lem = ground (
    arith,
    get_u32-set_u32_self (fs.disk bno) 0 (bit_and (sb_bitmap (fs.disk bno)) (not32 (run_mask n s)))
        (bit_and-lt 32 _ _ (get_u32-lt (fs.disk bno) 0)),
  )

  taken_state-IsTaken : IsTaken bno ino n s fs (taken_state bno ino n s fs)
  unfolding taken_state
  taken_state-IsTaken = record {
    bits = λ j p. rw word_lem (taken_bits (sb_bitmap (fs.disk bno)) n s j fits p);
    rest_of_block = λ j p. ground (
      arith,
      set_u32_outside (fs.disk bno) 0 (bit_and (sb_bitmap (fs.disk bno)) (not32 (run_mask n s))) j,
    );
    other_blocks = λ b p. ground arith;
    counted = ground arith;
    same_place = ground arith;
    other_inodes = λ i p. ground arith;
    same_sbi = refl;
  }

take_slices_lem :
    (bno ino n : ℕ) (fs : Fs) {out : Option (ℕ × ℕ)}
    → n ≤ 32
    → Finds (sb_bitmap (fs.disk bno)) n 1 out
    → TakesFirst bno ino n fs (take_slices bno ino n out fs)
unfolding take_slices taken_state
take_slices_lem bno ino n fs small (nowhere none_there e) = rw e (no_room none_there refl)
take_slices_lem bno ino n fs small (first s p q run least e) = rw e (
    takes s (taken_state bno ino n s fs) p q run least refl
      (taken_state-IsTaken bno ino n s fs (omega arith)))

-- get_consequitive_free_slices is first fit: it takes the first run of free slices that is long
-- enough, or returns 0 and changes nothing when there is none.
pub get_consequitive_free_slices_lem :
    (bno ino size : ℕ) (fs : Fs)
    → size ≤ block_size
    → TakesFirst bno ino (div_round_up size 128) fs (get_consequitive_free_slices bno ino size fs)
unfolding get_consequitive_free_slices
get_consequitive_free_slices_lem bno ino size fs small =
    rw (fits, narrow)
      (take_slices_lem bno ino (div_round_up size 128) fs (omega arith) (
        find_slices_lem (sb_bitmap (fs.disk bno)) (div_round_up size 128)
          (get_u32-lt (fs.disk bno) 0) (32 - div_round_up size 128) _ 1 (omega arith)
          (λ p. first_mask (div_round_up size 128) (omega arith))))
  where
    fits : ltb block_size size ≡ false
    fits = ground arith

    narrow : slices_needed size ≡ div_round_up size 128
    narrow = omega arith
