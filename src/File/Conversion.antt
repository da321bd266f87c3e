-- ===== src/File/Conversion.antt =====
-- convert_small_to_big, and the index block that it works with.
use lkp_project.State.{InodeInfo, with_inode}
use lkp_project.Block.{Block}
use lkp_project.File.BigWrites.{write_big_file, lacks_blocks, index_block_of}
use lkp_project.File.Outcomes.{is_ok, After-is_ok, on_fail-none}
use lkp_project.Prelude.{
  ◌==◌, ap, ==_self, sym, ◌≢◌, false, min, suc, ◌∙◌, Bool, false, ◌≢◌, ℕ, ◌+◌, ltb, max,
  if◌then◌else◌, ◌≡◌, arith, refl, Bool-cases, inl, inr, true, ◌<◌,
}
use lkp_project.Kernel.{Kernel}
use lkp_project.File.SmallWrites.{restore_file}
use lkp_project.Slice.{delete_slice}
use lkp_project.State.{modify, with_io, gets, pure, ◌>>=◌, ◌>>◌, Fs}
use lkp_project.Slice.{small_file_get_bno, small_file_get_slice}
use lkp_project.File.Outcomes.{After-on_fail_with, After-and_then, After}
use lkp_project.File.BigEnds.{BigWritten, write_big_file-Ends}
use lkp_project.File.Reads.{is_small_file}
use lkp_project.File.Writes.{success}
use lkp_project.Slice.Inodes.{delete_slice_inodes}
use lkp_project.State.{M}
use lkp_project.File.Writes.{write_whole, gather, convert_small_to_big}

module _ (k : Kernel) (fuel ino : ℕ) where
  -- The new file of a conversion: its start and its size.
  abbrev start : Fs → ℕ
  start fs = if fs.io.ki_append then (fs.inodes ino).i_size else fs.io.ki_pos

  abbrev whole_size : Fs → ℕ
  whole_size fs = max (start fs + fs.io.count) (fs.inodes ino).i_size

  write_big_file-unreadable :
      (fs : Fs)
      → (fs.inodes ino).index_block ≢ 0
      → ((t : ℕ) → k.bread t (fs.inodes ino).index_block ≡ false)
      → is_ok (write_big_file k ino fs) ≡ false
  unfolding write_big_file index_block_of
  write_big_file-unreadable fs had unreadable =
      rw (different (fs.inodes ino).index_block had) (elim (Bool-cases lacks) [
        | inl few ↦ rw few refl
        | inr enough ↦ rw (enough, unreadable fs.calls) refl
      ])
    where
      different : (n : ℕ) → n ≢ 0 → (n == 0) ≡ false
      different n h = ground arith

      lacks : Bool
      lacks = lacks_blocks fs.sbi.nr_free_blocks (fs.inodes ino) (whole_size fs)

  write_whole-unreadable :
      (content : Block) (size : ℕ) (fs : Fs)
      → (fs.inodes ino).index_block ≢ 0
      → ((t : ℕ) → k.bread t (fs.inodes ino).index_block ≡ false)
      → is_ok (write_whole k ino content size fs) ≡ false
  unfolding write_whole
  write_whole-unreadable content size fs had unreadable =
      on_fail-none {B = ℕ} (write_big_file k ino (called fs)) fs _ _
        (write_big_file-unreadable (called fs) had unreadable) (λ e fs2. refl)
    where
      called : Fs → Fs
      called =
          with_io
            (λ io. record io { ki_pos = 0; ki_append = false; count = size; source = content })

  gather_lem :
      (old : InodeInfo) (write_at count size : ℕ) (fs : Fs)
      → After (λ _ fs'. fs'.inodes ≡ fs.inodes) (gather k old write_at count size fs)
  unfolding gather
  gather_lem old write_at count size fs = elim (Bool-cases (k.kmalloc fs.calls size)) [
    | inr lacks ↦ rw lacks tt
    | inl had ↦
        rw had
          (elim (Bool-cases
            (min (k.copied (suc fs.calls) count) (min count fs.io.count) == count)) [
              | inr short ↦ rw short tt
              | inl all ↦ rw all (elim (Bool-cases (k.kmalloc (suc (suc fs.calls)) 16)) [
                | inr lacks ↦ rw lacks tt
                | inl had ↦ rw had refl
              ])
            ])
  ]

  -- Where the packed block and slice is no block of the partition, the conversion returns no value,
  -- whatever else succeeds.
  convert_small_to_big-unreadable :
      (fs : Fs)
      → (fs.inodes ino).index_block ≢ 0
      → ((t : ℕ) → k.bread t (fs.inodes ino).index_block ≡ false)
      → is_ok (convert_small_to_big k fuel ino fs) ≡ false
  unfolding convert_small_to_big
  convert_small_to_big-unreadable fs had unreadable =
      elim (Bool-cases (k.bread fs.calls (small_file_get_bno (fs.inodes ino).index_block))) [
        | inr lost ↦ rw lost refl
        | inl got ↦ rw got (
            After-is_ok {B = ℕ} (λ _ fs1. fs1.inodes ≡ fs.inodes)
              (gather k (fs.inodes ino) (start fs) fs.io.count (whole_size fs) _) _
              (gather_lem (fs.inodes ino) (start fs) fs.io.count (whole_size fs) _)
              (λ content fs1 same.
                on_fail-none {B = ℕ} (write_whole k ino content (whole_size fs) (emptied fs1)) fs1 _
                  _
                  (write_whole-unreadable content (whole_size fs) (emptied fs1)
                    (λ e. had (sym (kept fs1 same) ∙ e)) (λ t. rw (kept fs1 same) (unreadable t)))
                  (λ e fs2. refl)))
      ]
    where
      emptied : Fs → Fs
      emptied = with_inode ino (λ ci. record ci { i_size = 0 })

      kept :
          (fs1 : Fs)
          → fs1.inodes ≡ fs.inodes
          → ((emptied fs1).inodes ino).index_block ≡ (fs.inodes ino).index_block
      kept fs1 same = rw (==_self ino) (ap (λ f. (f ino).index_block) same)

  -- What write_whole leaves where it succeeds: a big file with the index block that the inode had.
  abbrev IsWhole : ℕ → InodeInfo → ℕ → Fs → Type 0
  IsWhole size old ret fs' =
      (ret ≡ size)
      × ((fs'.inodes ino).index_block ≡ old.index_block)
      × ((fs'.inodes ino).i_size ≡ size)
      × ((fs'.inodes ino).i_blocks ≢ 0)

  write_whole-IsWhole :
      (content : Block) (size : ℕ) (fs : Fs)
      → (fs.inodes ino).index_block ≢ 0
      → (fs.inodes ino).i_size ≡ 0
      → After (IsWhole size (fs.inodes ino)) (write_whole k ino content size fs)
  unfolding write_whole
  write_whole-IsWhole content size fs had empty =
      After-on_fail_with {B = ℕ} (BigWritten k ino called) _ (write_big_file k ino called) fs _ _
        (write_big_file-Ends k ino called).after
        (λ ret fs1 w. (
          w.all,
          w.same_index had,
          w.size ∙ omega (arith, empty),
          λ z. absurd (omega (arith, w.blocks, z)),
        ))
        (λ e fs1. tt)
    where
      called : Fs
      called =
          with_io
            (λ io. record io { ki_pos = 0; ki_append = false; count = size; source = content }) fs

  -- What convert_small_to_big does with the result of write_big_file.
  abbrev finished : InodeInfo → ℕ → ℕ → ℕ → M ℕ
  finished old old_pos end_pos ret =
      if ltb 0 ret
      then (do
        modify (with_io (λ io. record io { ki_pos = end_pos }))
        ci ← gets (λ fs. fs.inodes ino)
        deleted ←
            delete_slice k fuel (small_file_get_bno ci.index_block)
              (small_file_get_slice ci.index_block) ci.num_slices
        pure (success deleted))
      else (do modify (restore_file ino old old_pos); pure ret)

  -- What a conversion that returns a value leaves: a big file with the packed block and slice of the
  -- small file as the number of its index block, and 0 reported.
  pub record IsPacked (fs : Fs) (ret : ℕ) (fs' : Fs) : Type 0 where
    pub index : (fs'.inodes ino).index_block ≡ (fs.inodes ino).index_block
    pub big : is_small_file (fs'.inodes ino) ≡ false
    pub size : (fs'.inodes ino).i_size ≡ whole_size fs
    pub reported : ret ≡ 0

  -- A conversion of a file whose index_block and new size are not 0, whichever of the kernel's calls
  -- fail: where it
  -- returns a value, the file is big, and its index block is still the number that packs the small
  -- file's block and slice; where that number is no block of the partition, it returns no value.
  pub convert_small_to_big-IsPacked :
      (fs : Fs)
      → (fs.inodes ino).index_block ≢ 0
      → 0 < whole_size fs
      → After (IsPacked fs) (convert_small_to_big k fuel ino fs)
        × (((t : ℕ) → k.bread t (fs.inodes ino).index_block ≡ false)
            → is_ok (convert_small_to_big k fuel ino fs) ≡ false)
  unfolding convert_small_to_big
  convert_small_to_big-IsPacked fs had more = (
    elim (Bool-cases (k.bread fs.calls (small_file_get_bno (fs.inodes ino).index_block))) [
      | inr lost ↦ rw lost tt
      | inl got ↦ rw got (
          After-and_then {B = ℕ} (λ _ fs1. fs1.inodes ≡ fs.inodes) (IsPacked fs)
            (gather k (fs.inodes ino) (start fs) fs.io.count (whole_size fs) _) _
            (gather_lem (fs.inodes ino) (start fs) fs.io.count (whole_size fs) _)
            (λ content fs1 same.
              After-on_fail_with {B = ℕ} (IsWhole (whole_size fs) ((emptied fs1).inodes ino)) _
                (write_whole k ino content (whole_size fs) (emptied fs1)) fs1 _ _
                (write_whole-IsWhole content (whole_size fs) (emptied fs1)
                  (λ e. had (sym (kept fs1 same) ∙ e)) (rw (==_self ino) refl))
                (λ ret fs2 w. deleted ret fs2 (w.0, w.1 ∙ kept fs1 same, w.2, w.3)) (λ e fs2. tt)))
    ],
    convert_small_to_big-unreadable fs had,
  )
    where
      emptied : Fs → Fs
      emptied = with_inode ino (λ ci. record ci { i_size = 0 })

      kept :
          (fs1 : Fs)
          → fs1.inodes ≡ fs.inodes
          → ((emptied fs1).inodes ino).index_block ≡ (fs.inodes ino).index_block
      kept fs1 same = rw (==_self ino) (ap (λ f. (f ino).index_block) same)

      deleted :
          (ret : ℕ) (fs2 : Fs)
          → IsWhole (whole_size fs) (fs.inodes ino) ret fs2
          → After
              (IsPacked fs)
              (finished (fs.inodes ino) fs.io.ki_pos (start fs + fs.io.count) ret fs2)
      deleted ret fs2 w = rw (positive (w.0)) (
          After-and_then {B = ℕ} (λ u fs3. fs3.inodes ≡ fs2.inodes) (IsPacked fs)
            (delete_slice k fuel _ _ _ _) _ (delete_slice_inodes k fuel _ _ _ _)
            (λ u fs3 same. record {
              index = ap (λ f. (f ino).index_block) same ∙ w.1;
              big = unfold is_small_file in ground (arith, ap (λ f. (f ino).i_blocks) same, w.3);
              size = ap (λ f. (f ino).i_size) same ∙ w.2;
              reported = refl;
            }))
        where
          positive : ret ≡ whole_size fs → ltb 0 ret ≡ true
          positive e = ground (arith, e, more)
