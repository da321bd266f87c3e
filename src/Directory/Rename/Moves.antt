-- ===== src/Directory/Rename/Moves.antt =====
-- Renaming into another directory: ouichefs_rename of inode.c.
use mathlib.Core.Path.{subst}
use lkp_project.Prelude.{
  ℕ, suc, ◌≤◌, ◌<◌, ◌≢◌, ◌⊎◌, true, false, ltb, none, some, ◌≡◌, refl, arith, ◌∙◌, ap, sym,
  different, ==_self, inl, inr,
}
use lkp_project.Kernel.{Kernel}
use lkp_project.State.{Fs}
use lkp_project.Directory.{Name, find_inode, add_entry, remove_entry}
use lkp_project.Directory.Entries.{
  IsPacked, first_free_lem, find_inode_lem, remove_entry-kept, remove_entry-IsPacked,
}
use lkp_project.Directory.Names.{find_name-add_entry}
use lkp_project.Directory.Rename.{
  is_unsupported, search_old, link_new, unlink_old, rename_to, ouichefs_rename,
}
use lkp_project.Directory.Rename.Scan.{scan_new_lem, search_old_lem, search_old_full}
use lkp_project.Directory.Rename.Halves.{
  index_of, Movable, Moved, RenameEnds, moved, passed_end, linked, unlinked, unlink_old_lem,
  unlink_old_full,
}

module _ (k : Kernel) (reads : (t b : ℕ) → k.bread t b ≡ true) (old_dir ino new_dir : ℕ)
    (old_name new_name : Name) (flags n p m : ℕ) (fs : Fs)
    (supported : is_unsupported flags ≡ false)
    (v : Movable fs old_dir ino new_dir new_name n p m) where
  middle : Fs
  middle = linked k reads new_dir m new_name ino (record fs { calls = suc fs.calls })

  -- The first half.
  first_half :
      ouichefs_rename k old_dir ino old_name new_dir new_name flags fs
      ≡ unlink_old k old_dir ino middle
  unfolding ouichefs_rename rename_to link_new linked middle
  first_half =
      rw
        (
          supported,
          long,
          reads fs.calls (index_of fs new_dir),
          different new_dir old_dir (λ e. v.directories (sym e)),
          scan_new_lem 128 0 m (fs.disk (index_of fs new_dir)) old_name new_name none refl
              v.new_packed v.room v.unnamed (inl (omega arith, refl)),
          different old_dir new_dir v.directories,
        )
        refl
    where
      long : ltb 28 new_name.len ≡ false
      long = ground (arith, v.short)

  old_index : index_of middle old_dir ≡ index_of fs old_dir
  unfolding middle linked
  old_index = rw (index_of, different old_dir new_dir v.directories) refl

  old_block : middle.disk (index_of fs old_dir) ≡ fs.disk (index_of fs old_dir)
  unfolding middle linked
  old_block = rw (different (index_of fs old_dir) (index_of fs new_dir) v.blocks) refl

  new_block :
      middle.disk (index_of fs new_dir) ≡ add_entry ino new_name (fs.disk (index_of fs new_dir))
  unfolding middle linked add_entry
  new_block =
      rw
        (
          ==_self (index_of fs new_dir),
          first_free_lem 128 0 m (fs.disk (index_of fs new_dir)) (omega arith) refl v.new_packed,
        )
        refl

  after : Fs
  after = unlinked k reads old_dir ino p n middle

  after_old : after.disk (index_of fs old_dir) ≡ remove_entry p n (fs.disk (index_of fs old_dir))
  unfolding after unlinked
  after_old = rw (old_index, ==_self (index_of fs old_dir), old_block) refl

  after_other : (b : ℕ) → b ≢ index_of fs old_dir → after.disk b ≡ middle.disk b
  unfolding after unlinked
  after_other b h = rw (old_index, different b (index_of fs old_dir) h) refl

  middle_other : (b : ℕ) → b ≢ index_of fs new_dir → middle.disk b ≡ fs.disk b
  unfolding middle linked
  middle_other b h = rw (different b (index_of fs new_dir) h) refl

  after_sbi : after.sbi ≡ fs.sbi
  unfolding after unlinked middle linked
  after_sbi = refl

  after-Moved : Moved fs after old_dir ino new_dir new_name n p m
  after-Moved =
      let added =
        find_name-add_entry (fs.disk (index_of fs new_dir)) m ino new_name v.room v.new_packed
          v.is_new v.is_name v.short in
      let new_after : after.disk (index_of fs new_dir)
          ≡ add_entry ino new_name (fs.disk (index_of fs new_dir)) =
        after_other (index_of fs new_dir) (λ e. v.blocks (sym e)) ∙ new_block in
      record {
        found = rw new_after added.0;
        new_packed = rw new_after added.1;
        old_packed =
            rw after_old
              (remove_entry-IsPacked p n (fs.disk (index_of fs old_dir)) v.below v.old_packed);
        old_kept = λ i c h low.
            rw after_old (
              remove_entry-kept p n (fs.disk (index_of fs old_dir)) v.below v.old_packed i c h low);
        others = λ b h h'. after_other b h ∙ middle_other b h';
        sbi = after_sbi;
      }

  -- The search in the old directory.
  search :
      n < 128 → search_old 128 0 (middle.disk (index_of middle old_dir)) ino none ≡ some (some p, n)
  search room =
      rw (old_index, old_block)
        (search_old_lem 128 0 n ino (fs.disk (index_of fs old_dir)) none (omega arith) refl
            v.old_packed room v.is_new.number.0
          ∙ ap some found)
    where
      found : find_inode 128 0 (fs.disk (index_of fs old_dir)) ino none ≡ (some p, n)
      found =
          ap (λ i. find_inode 128 0 (fs.disk (index_of fs old_dir)) i none) (sym v.entry)
          ∙ find_inode_lem 128 0 n p (fs.disk (index_of fs old_dir)) none (omega arith) refl
              v.old_packed v.below (inl (omega arith))

  search_full : n ≡ 128 → search_old 128 0 (middle.disk (index_of middle old_dir)) ino none ≡ none
  search_full full =
      rw (old_index, old_block)
        (search_old_full 128 0 ino (fs.disk (index_of fs old_dir)) none refl
          (subst (IsPacked (fs.disk (index_of fs old_dir))) full v.old_packed))

  -- Moving an entry to another directory that has room, with the inode's number and under the new
  -- name, when every read succeeds.
  pub ouichefs_rename-RenameEnds :
      RenameEnds fs old_dir ino new_dir new_name n p m
        (ouichefs_rename k old_dir ino old_name new_dir new_name flags fs)
  unfolding after
  ouichefs_rename-RenameEnds = rw first_half (elim (room-or-full v.old_packed.fits) [
    | inl room ↦
        rw (unlink_old_lem k reads old_dir ino p n middle (search room))
          (moved after room after-Moved)
    | inr full ↦
        rw (unlink_old_full k reads old_dir ino middle (search_full full)) (passed_end _ full)
  ])
    where
      room-or-full : {n : ℕ} → n ≤ 128 → (n < 128) ⊎ (n ≡ 128)
      room-or-full h = omega arith
