-- ===== src/File/Limits.antt =====
-- Small files that do not fit in any block.
use lkp_project.File.Outcomes.{on_fail-none}
use lkp_project.File.SmallWrites.{write_small_file, rewrite_small}
use lkp_project.File.Reads.{is_small_file}
use lkp_project.File.Writes.{is_new, will_be_small}
use lkp_project.Prelude.{
  ℕ, zero, suc, ◌+◌, ◌≤◌, ◌<◌, true, false, Bool, ◌||◌, ◌==◌, ltb, min, max, ◌≡◌, ◌≢◌, arith, refl,
  Bool-cases, inl, inr,
}
use lkp_project.Kernel.{Kernel}
use lkp_project.Block.{block_size}
use lkp_project.State.{InodeInfo, Fs, ok}
use lkp_project.Slice.{
  small_file_get_slice, small_file_get_bno, slices_needed, get_consequitive_free_slices,
}
use lkp_project.Slice.Take.{no_room, takes, get_consequitive_free_slices_lem}
use lkp_project.File.Writes.{custom_write_iter}
use lkp_project.File.SmallReads.{IsSmall}
use lkp_project.File.Outcomes.{is_ok, After, After-is_ok, is_ok-first, is_ok-second}
use lkp_project.File.InPlace.{nonzero_index, start_of}
use lkp_project.File.SmallWrites.{
  first_sliced_block, stage_rewrite, stage_rewrite, find_room, write_small_new,
}

too_long :
    (bno ino size : ℕ) (fs : Fs)
    → 3968 < size
    → get_consequitive_free_slices bno ino size fs ≡ ok 0 fs
too_long bno ino size fs big = elim (Bool-cases (ltb block_size size)) [
  | inl past ↦ unfold get_consequitive_free_slices in rw past refl
  | inr within ↦ elim (get_consequitive_free_slices_lem bno ino size fs (ground arith)) [
    | no_room none_there e ↦ e
    | takes s fs' p q run least e taken ↦ absurd (omega arith)
  ]
]

module _ (k : Kernel) where
  -- There is no room for more than 31 slices in any block.
  pub find_room-too_long :
      (fuel bno ino size : ℕ) (fs : Fs)
      → 3968 < size
      → is_ok (find_room k fuel bno ino size fs) ≡ false
  unfolding find_room
  find_room-too_long zero bno ino size fs big = refl
  find_room-too_long (suc fuel) bno ino size fs big =
      rw (too_long bno ino size fs big)
        (is_ok-second _ _ (λ following fs'. find_room-too_long fuel following ino size fs' big))

  pub write_small_new-too_long :
      (fuel ino : ℕ) (fs : Fs)
      → 3968 < max (start_of (fs.inodes ino) fs + fs.io.count) (fs.inodes ino).i_size
      → is_ok (write_small_new k fuel ino fs) ≡ false
  unfolding write_small_new
  write_small_new-too_long fuel ino fs big =
      is_ok-second {B = ℕ} (first_sliced_block k fs) _ (λ head fs'.
        is_ok-first {B = ℕ}
          (find_room k fuel head ino
            (max (start_of (fs.inodes ino) fs + fs.io.count) (fs.inodes ino).i_size) fs')
          _ (find_room-too_long fuel head ino _ fs' big))

  -- The state that stage_rewrite leaves: the whole new file is what is to be written.
  stage_rewrite_lem :
      (old : InodeInfo) (pos count size : ℕ) (fs : Fs)
      → After
          (λ _ fs'. (fs'.io.count ≡ size) × (fs'.io.ki_pos ≡ 0) × (fs'.io.ki_append ≡ false))
          (stage_rewrite k old pos count size fs)
  unfolding stage_rewrite
  stage_rewrite_lem old pos count size fs = elim (Bool-cases (k.kmalloc fs.calls size)) [
    | inr none ↦ rw none tt
    | inl some ↦
        rw some
          (elim (Bool-cases
            (min (k.copied (suc fs.calls) count) (min count fs.io.count) == count)) [
              | inr short ↦ rw short tt
              | inl all ↦ rw all (elim (Bool-cases (k.kmalloc (suc (suc fs.calls)) 16)) [
                | inr none ↦ rw none tt
                | inl some ↦ rw some (refl, refl, refl)
              ])
            ])
  ]

  rewrite_small-too_long :
      (fuel ino : ℕ) (old : InodeInfo) (pos count size : ℕ) (fs : Fs)
      → 0 < pos
      → 3968 < size
      → is_ok (rewrite_small k fuel ino old pos count size fs) ≡ false
  unfolding rewrite_small
  rewrite_small-too_long fuel ino old pos count size fs some big = rw inside (
      After-is_ok staged (stage_rewrite k old pos count size _) _
        (stage_rewrite_lem old pos count size _)
        (λ u fs1 after.
          on_fail-none (write_small_new k fuel ino fs1) fs1 _ _
            (write_small_new-too_long fuel ino fs1 (ground (arith, after))) (λ e fs2. refl)))
    where
      staged : Unit {0} → Fs → Type 0
      staged u fs' = (fs'.io.count ≡ size) × (fs'.io.ki_pos ≡ 0) × (fs'.io.ki_append ≡ false)

      inside : (pos == 0) ≡ false
      inside = ground arith

  write_small_file-append :
      (fuel ino : ℕ) (fs : Fs)
      → IsSmall (fs.inodes ino)
      → (fs.inodes ino).num_slices ≢ slices_needed ((fs.inodes ino).i_size + fs.io.count)
      → fs.io.ki_append ≡ true
      → 0 < (fs.inodes ino).i_size
      → 3968 < (fs.inodes ino).i_size + fs.io.count
      → is_ok (write_small_file k fuel ino fs) ≡ false
  unfolding write_small_file
  write_small_file-append fuel ino fs small grows append some far =
      rw (nonzero_index (fs.inodes ino).index_block small.block, append)
        (elim (Bool-cases invalid) [
          | inl bad ↦ rw bad refl
          | inr good ↦ rw good (elim (Bool-cases (k.bread fs.calls bno)) [
            | inr lost ↦ rw lost refl
            | inl got ↦
                rw (got, changed)
                  (rewrite_small-too_long fuel ino (fs.inodes ino) (fs.inodes ino).i_size
                    fs.io.count size _ some (omega arith))
          ])
        ])
    where
      bno : ℕ
      bno = small_file_get_bno (fs.inodes ino).index_block

      size : ℕ
      size = max ((fs.inodes ino).i_size + fs.io.count) (fs.inodes ino).i_size

      invalid : Bool
      invalid =
          (fs.inodes ino).num_slices == 0
          || (bno == 0 || small_file_get_slice (fs.inodes ino).index_block == 0)

      changed : ((fs.inodes ino).num_slices == slices_needed size) ≡ false
      changed =
          let same : size ≡ (fs.inodes ino).i_size + fs.io.count = omega arith in
          rw same (different _ _ grows)
        where
          different : (a b : ℕ) → a ≢ b → (a == b) ≡ false
          different a b h = ground arith

  -- With O_APPEND, a small file that grows past 3968 bytes by it is still taken for a small one when
  -- the position of the file is near its start, since custom_write_iter computes the new size from
  -- that position. Then there is no room for it anywhere, and the write returns no value.
  pub custom_write_iter-append :
      (fuel ino : ℕ) (fs : Fs)
      → IsSmall (fs.inodes ino)
      → (fs.inodes ino).num_slices ≢ slices_needed ((fs.inodes ino).i_size + fs.io.count)
      → fs.io.ki_append ≡ true
      → 0 < (fs.inodes ino).i_size
      → (fs.inodes ino).i_size ≤ 3968
      → fs.io.ki_pos + fs.io.count ≤ 3968
      → 3968 < (fs.inodes ino).i_size + fs.io.count
      → is_ok (custom_write_iter k fuel ino fs) ≡ false
  unfolding custom_write_iter
  custom_write_iter-append fuel ino fs small grows append some fits near far =
      rw (has_slice, is_small, will_fit)
        (write_small_file-append fuel ino fs small grows append some far)
    where
      has_slice : is_new (fs.inodes ino).index_block ≡ false
      has_slice = unfold is_new in nonzero_index (fs.inodes ino).index_block small.block

      is_small : is_small_file (fs.inodes ino) ≡ true
      is_small = unfold is_small_file in ground (arith, small.no_blocks)

      will_fit : will_be_small (max (fs.io.ki_pos + fs.io.count) (fs.inodes ino).i_size) ≡ true
      will_fit = unfold will_be_small in ground arith
