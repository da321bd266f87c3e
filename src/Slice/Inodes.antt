-- ===== src/Slice/Inodes.antt =====
-- delete_slice changes no inode.
use mathlib.Core.Path.{subst}
use lkp_project.Prelude.{
  ◌==◌, false, suc, Bool, false, ℕ, if◌then◌else◌, ◌≡◌, refl, Bool-cases, inl, inr, zero, true,
  Option, none, some, ◌||◌,
}
use lkp_project.Kernel.{Kernel}
use lkp_project.Slice.{delete_slice}
use lkp_project.State.{Fs}
use lkp_project.File.Outcomes.{After}
use lkp_project.Slice.{sb_bitmap, sb_next, unlink_block, sweep, bitmap_all_free}

module _ (k : Kernel) (fuel : ℕ) where
  sweep_inodes :
      (rounds : ℕ) (prev : Option ℕ) (current : ℕ) (fs : Fs)
      → After (λ u fs'. fs'.inodes ≡ fs.inodes) (sweep k rounds prev current fs)
  unfolding sweep
  sweep_inodes zero prev current fs = tt
  sweep_inodes (suc rounds) prev current fs = elim (Bool-cases (current == 0)) [
    | inl last ↦ rw last refl
    | inr more ↦ elim (Bool-cases (k.bread fs.calls current)) [
      | inr lost ↦ rw (more, lost) tt
      | inl got ↦
          rw (more, got)
            (subst
              (λ f.
                After (λ u fs'. fs'.inodes ≡ f)
                  (sweep k rounds
                    (if sb_bitmap (fs.disk current) == bitmap_all_free then prev else some current)
                    (sb_next (fs.disk current)) next))
              (dropped_inodes prev (sb_bitmap (fs.disk current) == bitmap_all_free))
              (sweep_inodes rounds _ _ next))
    ]
  ]
    where
      read : Fs
      read = record fs { calls = suc fs.calls }

      next : Fs
      next =
          if sb_bitmap (fs.disk current) == bitmap_all_free
          then unlink_block k prev current (sb_next (fs.disk current)) read
          else read

      dropped_inodes :
          (prev : Option ℕ) (all_free : Bool)
          → (if all_free
              then unlink_block k prev current (sb_next (fs.disk current)) read
              else read).inodes
            ≡ fs.inodes
      dropped_inodes prev false = refl
      dropped_inodes none true = unfold unlink_block in refl
      dropped_inodes (some p) true = unfold unlink_block in refl

  pub delete_slice_inodes :
      (bno slice_no num_slices : ℕ) (fs : Fs)
      → After (λ u fs'. fs'.inodes ≡ fs.inodes) (delete_slice k fuel bno slice_no num_slices fs)
  unfolding delete_slice
  delete_slice_inodes bno slice_no num_slices fs =
      elim (Bool-cases ((bno == 0) || (num_slices == 0))) [
        | inl nothing ↦ rw nothing refl
        | inr had ↦ elim (Bool-cases (k.bread fs.calls bno)) [
          | inr lost ↦ rw (had, lost) tt
          | inl got ↦ rw (had, got) (sweep_inodes fuel none _ _)
        ]
      ]
