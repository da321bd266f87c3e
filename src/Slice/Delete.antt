-- ===== src/Slice/Delete.antt =====
-- delete_slice: what it frees and what it zeroes.
use Prim.Native.Nat.{bit_or}
use native.Mathlib.Nat.{pow-le-pow_right, one-le-pow}
use lkp_project.Prelude.{
  sym, ℕ, suc, ◌+◌, ◌-◌, ◌*◌, ◌^◌, ◌≤◌, ◌<◌, true, false, ◌||◌, ◌&&◌, ◌==◌, ltb, leb, none, List,
  ◌≡◌, ◌≢◌, ◌⊎◌, inl, refl, ap, ◌∙◌, arith, length,
}
use lkp_project.Words.{u32, sub32, shl32}
use lkp_project.Words.Digits.{testbit, testbit-bit_or, testbit_ext}
use lkp_project.Words.Mask.{run_mask, run_mask-lt, testbit-run_mask}
use lkp_project.Kernel.{Kernel}
use lkp_project.Block.{Block, set_u32, memset}
use lkp_project.Block.Laws.{
  get_u32-lt, get_u32-set_u32_self, get_u32-memset_apart, get_u32-set_u32_apart, set_u32_outside,
}
use lkp_project.State.{state_of, returned, Fs, ok, with_block, with_sbi}
use lkp_project.Slice.{
  div_round_up, get_consequitive_free_slices, sb_bitmap, sb_next, clear_slices, delete_slice,
}
use lkp_project.Slice.Find.{FreeRun, bit_or-lt}
use lkp_project.Slice.Take.{takes, no_room, get_consequitive_free_slices_lem, IsTaken}
use lkp_project.Slice.Chain.{Chain, Chain-frame}
use lkp_project.Slice.Swept.{IsSwept}
use lkp_project.Slice.Sweep.{sweep-IsSwept}

-- `b'` is `b` with the run of `n` slices at `s` free and zeroed, and the rest as it was.
pub record IsCleared (s n : ℕ) (b b' : Block) : Type 0 where
  pub bits :
      (j : ℕ)
      → j < 32
      → testbit (sb_bitmap b') j ≡ (testbit (sb_bitmap b) j || (leb s j && ltb j (s + n)))
  pub zeroed : (j : ℕ) → s * 128 ≤ j → j < (s + n) * 128 → b' j ≡ 0
  pub kept : (j : ℕ) → 4 ≤ j → (j < s * 128) ⊎ ((s + n) * 128 ≤ j) → b' j ≡ b j

clear_mask : (n s : ℕ) → n ≤ 31 → n + s ≤ 32 → shl32 (sub32 (shl32 1 n) 1) s ≡ run_mask n s
clear_mask n s h fits =
    omega (arith, run_mask-lt n s fits, one-le-pow n 2, ap (λ (t : ℕ). t * 2 ^ s) (ones_lem n h))
  where
    ones_lem : (n : ℕ) → n ≤ 31 → sub32 (shl32 1 n) 1 ≡ 2 ^ n - 1
    ones_lem n h = omega (arith, pow-le-pow_right {n = 2} (omega arith) h, one-le-pow n 2)

module _ (s n : ℕ) (b : Block) (pos : 1 ≤ s) (small : n ≤ 31) (fits : n + s ≤ 32) where
  cleared_word : sb_bitmap (clear_slices s n b) ≡ bit_or (sb_bitmap b) (run_mask n s)
  unfolding clear_slices
  cleared_word = rw (clear_mask n s small fits) (
      get_u32-memset_apart (set_u32 b 0 (bit_or (sb_bitmap b) (run_mask n s))) (u32 (s * 128)) 0
        (u32 (n * 128)) 0 (inl (omega arith))
      ∙ get_u32-set_u32_self b 0 (bit_or (sb_bitmap b) (run_mask n s))
          (bit_or-lt 32 (sb_bitmap b) (run_mask n s) (get_u32-lt b 0) (run_mask-lt n s fits)))

  -- The first half of delete_slice, in the block of the `n` slices from `s` on, for up to 31 slices
  -- behind the header and within the block: exactly their bits are
  -- set in the free word, exactly their bytes are zeroed, and the other bytes behind the word stay.
  pub clear_slices-IsCleared : IsCleared s n b (clear_slices s n b)
  clear_slices-IsCleared = record {
    bits = λ j p.
        rw cleared_word
          (ground (arith, testbit-bit_or (sb_bitmap b) (run_mask n s) j, testbit-run_mask n s j));
    zeroed = λ j p q. unfold clear_slices memset in ground arith;
    kept = λ j p q.
        unfold clear_slices memset in
        ground
          (arith, set_u32_outside b 0 (bit_or (sb_bitmap b) (shl32 (sub32 (shl32 1 n) 1) s)) j);
  }

-- Clearing a run that was free and has been taken gives the word back.
clear_slices_undoes :
    (bno ino n s : ℕ) (fs fs' : Fs)
    → 1 ≤ s
    → n ≤ 31
    → n + s ≤ 32
    → FreeRun (sb_bitmap (fs.disk bno)) n s
    → IsTaken bno ino n s fs fs'
    → sb_bitmap (clear_slices s n (fs'.disk bno)) ≡ sb_bitmap (fs.disk bno)
clear_slices_undoes bno ino n s fs fs' pos small fits run taken =
    testbit_ext 32 _ _ (get_u32-lt (clear_slices s n (fs'.disk bno)) 0) (get_u32-lt (fs.disk bno) 0)
      (λ j p. ground (
        arith,
        (clear_slices-IsCleared s n (fs'.disk bno) pos small fits).bits j,
        taken.bits j,
        run j,
      ))

-- Slices that get_consequitive_free_slices took for a small file are given back by delete_slice:
-- the word of free slices is the one from before.
pub clear_slices-get_consequitive_free_slices :
    (bno ino size s : ℕ) (fs fs' : Fs)
    → size ≤ 3968
    → s ≢ 0
    → get_consequitive_free_slices bno ino size fs ≡ ok s fs'
    → sb_bitmap (clear_slices s (div_round_up size 128) (fs'.disk bno)) ≡ sb_bitmap (fs.disk bno)
clear_slices-get_consequitive_free_slices bno ino size s fs fs' small ne e =
    elim (get_consequitive_free_slices_lem bno ino size fs (omega arith)) [
      | no_room _ none_taken ↦ absurd (ne (ap (returned 0) (sym e ∙ none_taken)))
      | takes t fs1 pos fits run least took taken ↦
          rw (ap (returned 0) (sym e ∙ took), ap (state_of fs) (sym e ∙ took))
            (clear_slices_undoes bno ino (div_round_up size 128) t fs fs1 pos (omega arith)
              (omega arith) run taken)
    ]

-- The state between the two halves of delete_slice.
abbrev pub cleared : ℕ → ℕ → ℕ → Fs → Fs
cleared bno s n fs =
    with_sbi (λ sbi. record sbi { nr_used_slices = sub32 sbi.nr_used_slices n })
      (with_block bno (clear_slices s n) (record fs { calls = suc fs.calls }))

abbrev clear_word : ℕ → ℕ → Block → ℕ
clear_word s n b = bit_or (sb_bitmap b) (shl32 (sub32 (shl32 1 n) 1) s)

cleared-Chain :
    (bno s n : ℕ) (fs : Fs) {head : ℕ} {xs : List ℕ}
    → 1 ≤ s
    → n ≤ 31
    → n + s ≤ 32
    → Chain fs.disk head xs
    → Chain (cleared bno s n fs).disk head xs
cleared-Chain bno s n fs pos small fits c = Chain-frame c λ b _. ground (arith, next_lem)
  where
    next_lem : sb_next (clear_slices s n (fs.disk bno)) ≡ sb_next (fs.disk bno)
    next_lem =
        unfold clear_slices in
        get_u32-memset_apart (set_u32 (fs.disk bno) 0 (clear_word s n (fs.disk bno)))
          (u32 (s * 128)) 0 (u32 (n * 128)) 4 (inl (omega arith))
        ∙ get_u32-set_u32_apart (fs.disk bno) 0 4 (clear_word s n (fs.disk bno)) (inl (omega arith))

-- delete_slice ends, and does the two halves: the slices of the file are cleared in its block, and
-- the list of sliced blocks loses the blocks that are then free throughout.
pub delete_slice-IsSwept :
    (k : Kernel) (fuel bno s n : ℕ) (fs : Fs) {xs : List ℕ}
    → ((t b : ℕ) → k.bread t b ≡ true)
    → bno ≢ 0
    → n ≢ 0
    → 1 ≤ s
    → n ≤ 31
    → n + s ≤ 32
    → Chain fs.disk fs.sbi.s_free_sliced_blocks xs
    → length xs < fuel
    → (fs' : Fs) × (delete_slice k fuel bno s n fs ≡ ok tt fs')
      × IsSwept k none xs (cleared bno s n fs) fs'
unfolding delete_slice
delete_slice-IsSwept k fuel bno s n fs reads bno_ne n_ne pos small fits c enough =
    let zero_bno : (bno == 0) ≡ false = ground arith in
    let zero_n : (n == 0) ≡ false = ground arith in
    rw (zero_bno, zero_n, reads fs.calls bno)
      (sweep-IsSwept k reads fuel none (cleared bno s n fs)
        (cleared-Chain bno s n fs pos small fits c) (λ d p. refl) refl enough)
