-- ===== src/Directory/Iterate/Reads.antt =====
-- Reading a directory to its end with ouichefs_iterate (dir.c).
use mathlib.Core.List.{append-nil}
use lkp_project.Prelude.{
  refl, ◌-◌, sym, ℕ, zero, suc, ◌+◌, ◌≤◌, ◌<◌, true, false, [], ◌++◌, ◌≡◌, arith, ◌∙◌, ap,
}
use lkp_project.Block.{Block}
use lkp_project.State.{Fs, ok, max_subfiles}
use lkp_project.Directory.{ltb, is_dir, Kernel}
use lkp_project.Directory.Entries.{IsPacked}
use lkp_project.Directory.Iterate.{
  read_directory, ouichefs_iterate, DirContext, Emitter, emit_entries,
}
use lkp_project.Directory.Iterate.Emits.{entries, Emits, emit_entries-Emits, entries_split}

-- The documented behaviour of dir_emit_dots behind the dots, and a buffer that takes an entry.
pub record EmitterLaws (e : Emitter) : Type 0 where
  pub behind_dots : (ctx : DirContext) → 2 ≤ ctx.pos → e.dir_emit_dots ctx ≡ (true, ctx)
  pub takes_one : e.has_room [] ≡ true

module _ (k : Kernel) (reads : (t b : ℕ) → k.bread t b ≡ true) (e : Emitter) (laws : EmitterLaws e)
    (dir n : ℕ) where
  -- A directory with `n` entries.
  abbrev IsDirectory : Fs → Type 0
  IsDirectory fs =
      (is_dir (fs.inodes dir).i_mode ≡ true) × IsPacked (fs.disk (fs.inodes dir).index_block) n

  ouichefs_iterate_lem :
      (i : ℕ) (ctx : DirContext) (fs : Fs)
      → IsDirectory fs
      → i ≤ n
      → ctx.pos ≡ 2 + i
      → ouichefs_iterate k e dir ctx fs
        ≡ ok
            (emit_entries e (128 - i) i (fs.disk (fs.inodes dir).index_block) ctx)
            (record fs { calls = suc fs.calls })
  unfolding ouichefs_iterate
  ouichefs_iterate_lem i ctx fs d le at =
      rw
        (
          d.0,
          in_range,
          laws.behind_dots ctx (omega (arith, at)),
          reads fs.calls (fs.inodes dir).index_block,
          place,
        )
        refl
    where
      in_range : ltb (max_subfiles + 2) ctx.pos ≡ false
      in_range = ground (arith, at, le, d.1.fits)

      place : ctx.pos - 2 ≡ i
      place = omega (arith, at)

  read_directory_from :
      (m i : ℕ) (ctx : DirContext) (fs : Fs)
      → IsDirectory fs
      → i ≤ n
      → n ≤ i + m
      → ctx.pos ≡ 2 + i
      → (c : ℕ) × (read_directory k e m dir ctx fs
          ≡ ok
              (record {
                pos = 2 + n;
                emitted = ctx.emitted ++ entries (fs.disk (fs.inodes dir).index_block) i (n - i);
              })
              (record fs { calls = c }))
  unfolding read_directory entries
  read_directory_from zero i ctx fs d le enough at =
      (fs.calls, λ t. ok (record { pos = last t; emitted = nothing t }) fs)
    where
      last : ctx.pos ≡ 2 + n
      last = omega (arith, le, enough, at)

      none_left : n - i ≡ 0
      none_left = omega (arith, le, enough)

      nothing : ctx.emitted ≡ ctx.emitted ++ entries (fs.disk (fs.inodes dir).index_block) i (n - i)
      nothing = rw none_left (sym (append-nil ctx.emitted))
  read_directory_from (suc m) i ctx fs d le enough at =
      let b : Block = fs.disk (fs.inodes dir).index_block in
      let start : DirContext = record { pos = ctx.pos; emitted = [] } in
      let more : DirContext = emit_entries e (128 - i) i b start in
      let first : Emits e b n i start more =
        emit_entries-Emits e (128 - i) i n b start d.1 le (omega (arith, le, d.1.fits)) in
      let next : DirContext = record { pos = more.pos; emitted = ctx.emitted ++ more.emitted } in
      let (c, rest) =
        read_directory_from m (i + first.number) next (record fs { calls = suc fs.calls }) d
          first.within_entries
          (grind (arith, enough, λ (lt : i < n). first.moves lt laws.takes_one))
          (ap (λ c. c.pos) first.result ∙ omega (arith, at)) in
      let total : next.emitted ++ entries b (i + first.number) (n - (i + first.number))
          ≡ ctx.emitted ++ entries b i (n - i) =
        ap
          (λ (c : DirContext).
            (ctx.emitted ++ c.emitted) ++ entries b (i + first.number) (n - (i + first.number)))
          first.result
        ∙ entries_split b i first.number n ctx.emitted first.within_entries in
      (
        c,
        rw (ouichefs_iterate_lem i start fs d le at)
            (rest ∙ λ t. ok (record { pos = 2 + n; emitted = total t }) (record fs { calls = c })),
      )

  -- A packed directory is read to its end, by as many calls as it has entries or more, whatever
  -- number of entries the buffer takes in each: behind the dots, every entry is emitted once and in
  -- order, and the last position is behind the entries.
  pub read_directory_lem :
      (m : ℕ) (fs : Fs)
      → is_dir (fs.inodes dir).i_mode ≡ true
      → IsPacked (fs.disk (fs.inodes dir).index_block) n
      → n ≤ m
      → (c : ℕ) × (read_directory k e m dir (record { pos = 2; emitted = [] }) fs
          ≡ ok
              (record { pos = 2 + n; emitted = entries (fs.disk (fs.inodes dir).index_block) 0 n })
              (record fs { calls = c }))
  read_directory_lem m fs is_directory packed enough =
      let b : Block = fs.disk (fs.inodes dir).index_block in
      let whole : n - 0 ≡ n = omega arith in
      let (c, run) =
        read_directory_from m 0 (record { pos = 2; emitted = [] }) fs (is_directory, packed)
          (omega arith) (omega (arith, enough)) refl in
      (
        c,
        run
            ∙ ap
                (λ (j : ℕ).
                  ok (record { pos = 2 + n; emitted = entries b 0 j }) (record fs { calls = c }))
                whole,
      )
