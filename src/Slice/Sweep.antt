-- ===== src/Slice/Sweep.antt =====
-- The second half of delete_slice, against a list of sliced blocks.
use lkp_project.Prelude.{
  ℕ, zero, suc, ◌<◌, true, false, ◌==◌, Option, some, List, ◌∷◌, ◌≡◌, ◌≢◌, inl, inr, refl, ◌∙◌,
  arith, Bool-cases, length,
}
use lkp_project.Kernel.{Kernel}
use lkp_project.Block.Laws.{get_u32-lt}
use lkp_project.State.{Fs, ok}
use lkp_project.Slice.{sb_next, unlink_block, sweep}
use lkp_project.Slice.Chain.{
  nil, cons, all_free, has, Chain, SameHeaders, same_word, kept_frame, dropped_frame, Chain-frame,
}
use lkp_project.Slice.Swept.{
  link_of, IsSwept, Apart, IsUnlinked, unlink_block_lem, IsSwept-keep, IsSwept-drop, IsSwept-calls,
}

module _ (k : Kernel) where
  -- The state after one more call.
  abbrev seen : Fs → Fs
  seen fs = record fs { calls = suc fs.calls }

  module _ (fuel : ℕ) (prev : Option ℕ) (b : ℕ) (fs : Fs) (ne : (b == 0) ≡ false)
      (reads : k.bread fs.calls b ≡ true) where
    sweep-keep :
        all_free (fs.disk b) ≡ false
        → sweep k (suc fuel) prev b fs ≡ sweep k fuel (some b) (sb_next (fs.disk b)) (seen fs)
    unfolding sweep
    sweep-keep stays = rw (ne, reads, stays)

    sweep-drop :
        all_free (fs.disk b) ≡ true
        → sweep k (suc fuel) prev b fs
          ≡ sweep k fuel prev
              (sb_next (fs.disk b))
              (unlink_block k prev b (sb_next (fs.disk b)) (seen fs))
    unfolding sweep
    sweep-drop goes = rw (ne, reads, goes)

  abbrev Sweeps : ℕ → Option ℕ → ℕ → List ℕ → Fs → Type 0
  Sweeps fuel prev current xs fs =
      (fs' : Fs) × (sweep k fuel prev current fs ≡ ok tt fs') × IsSwept k prev xs fs fs'

  Sweeps-keep :
      (fuel : ℕ) (prev : Option ℕ) (b : ℕ) (xs : List ℕ) (fs : Fs)
      → b ≢ 0
      → k.bread fs.calls b ≡ true
      → has b xs ≡ false
      → Apart prev (b ∷ xs)
      → link_of prev fs ≡ b
      → all_free (fs.disk b) ≡ false
      → Sweeps fuel (some b) (sb_next (fs.disk b)) xs (seen fs)
      → Sweeps (suc fuel) prev b (b ∷ xs) fs
  Sweeps-keep fuel prev b xs fs ne reads out apart link stays (fs', runs, swept) = (
    fs',
    sweep-keep fuel prev b fs (ground arith) reads stays ∙ runs,
    IsSwept-keep k prev b xs fs fs' ne stays out apart link
        (IsSwept-calls k (some b) xs fs (suc fs.calls) swept),
  )

  after_drop : (prev : Option ℕ) (b : ℕ) → Fs → Fs
  after_drop prev b fs = unlink_block k prev b (sb_next (fs.disk b)) (seen fs)

  after_drop-IsUnlinked :
      (prev : Option ℕ) (b : ℕ) (xs : List ℕ) (fs : Fs)
      → Apart prev (b ∷ xs)
      → IsUnlinked k prev b (sb_next (fs.disk b)) (seen fs) (after_drop prev b fs)
  unfolding after_drop
  after_drop-IsUnlinked prev b xs fs apart =
      unlink_block_lem k prev b (sb_next (fs.disk b)) (seen fs) (apart b (ground arith))
        (get_u32-lt (fs.disk b) 4)

  drop-headers :
      (prev : Option ℕ) (b : ℕ) (xs : List ℕ) (fs : Fs)
      → has b xs ≡ false
      → Apart prev (b ∷ xs)
      → SameHeaders xs fs.disk (after_drop prev b fs).disk
  drop-headers prev b xs fs out apart c j p =
      (after_drop-IsUnlinked prev b xs fs apart).others c j (ground arith)
        (inl (apart c (ground arith)))

  Sweeps-drop :
      (fuel : ℕ) (prev : Option ℕ) (b : ℕ) (xs : List ℕ) (fs : Fs)
      → b ≢ 0
      → k.bread fs.calls b ≡ true
      → has b xs ≡ false
      → Apart prev (b ∷ xs)
      → all_free (fs.disk b) ≡ true
      → Sweeps fuel prev (sb_next (fs.disk b)) xs (after_drop prev b fs)
      → Sweeps (suc fuel) prev b (b ∷ xs) fs
  unfolding after_drop
  Sweeps-drop fuel prev b xs fs ne reads out apart goes (fs', runs, swept) = (
    fs',
    sweep-drop fuel prev b fs (ground arith) reads goes ∙ runs,
    IsSwept-calls k prev (b ∷ xs) fs (suc fs.calls) (
        IsSwept-drop k prev b (sb_next (fs.disk b)) xs (seen fs) (after_drop prev b fs) fs' goes out
          apart (after_drop-IsUnlinked prev b xs fs apart)
          (kept_frame fs.disk _ xs (drop-headers prev b xs fs out apart))
          (dropped_frame fs.disk _ xs (drop-headers prev b xs fs out apart)) swept),
  )

  -- With more fuel than the list has blocks, and when every block can be read, the sweep ends, and
  -- has swept the list.
  pub sweep-IsSwept :
      ((t b : ℕ) → k.bread t b ≡ true)
      → (fuel : ℕ) (prev : Option ℕ) (fs : Fs) {current : ℕ} {xs : List ℕ}
      → Chain fs.disk current xs
      → Apart prev xs
      → link_of prev fs ≡ current
      → length xs < fuel
      → Sweeps fuel prev current xs fs
  sweep-IsSwept reads zero prev fs c apart link enough = absurd (omega arith)
  sweep-IsSwept reads (suc fuel) prev fs nil apart link enough = (
    fs,
    unfold sweep in refl,
    record {
      chain = rw link nil;
      sbi = refl;
      zeroed = λ b j p q. absurd (cc);
      data_kept = λ b j p q. refl;
      outside = λ b j p q. refl;
      inodes = refl;
      head = λ p e. refl;
    },
  )
  sweep-IsSwept reads (suc fuel) prev fs (cons {b} {xs} next ne e out c) apart link enough =
      let c' : Chain fs.disk (sb_next (fs.disk b)) xs = rw e c in
      elim (Bool-cases (all_free (fs.disk b))) [
        | inl goes ↦ Sweeps-drop fuel prev b xs fs ne (reads _ b) out apart goes (
            sweep-IsSwept reads fuel prev (after_drop prev b fs)
              (Chain-frame c' (λ d p.
                same_word fs.disk (after_drop prev b fs).disk d 4
                  (λ j. drop-headers prev b xs fs out apart d j p)))
              (λ d p. apart d (ground arith)) (after_drop-IsUnlinked prev b xs fs apart).link
              (omega arith))
        | inr stays ↦ Sweeps-keep fuel prev b xs fs ne (reads _ b) out apart link stays (
            sweep-IsSwept reads fuel (some b) (seen fs) c' (λ d p. ground arith) refl (omega arith))
      ]
