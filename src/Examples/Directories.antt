-- ===== src/Examples/Directories.antt =====
-- A directory with one entry.
use lkp_project.Prelude.{
  [], length, ◌==◌, inl, true, ℕ, ◌+◌, ◌*◌, ◌<◌, ◌≢◌, ltb, if◌then◌else◌, none, ◌≡◌, refl, arith,
  ◌∙◌, false, update,
}
use lkp_project.Block.{Block, get_u32, set_u32}
use lkp_project.Block.Laws.{get_u32-set_u32_apart}
use lkp_project.State.{Fs, ok}
use lkp_project.Directory.{
  Name, entry_inode, entry_name, same_name, find_name, add_entry, drop_entry,
}
use lkp_project.Directory.Entries.{IsPacked, old_place, drop_entry-IsPacked}
use lkp_project.Directory.Names.{IsName, IsNew, find_name-add_entry_cut}
use lkp_project.Directory.Iterate.{Emitter, read_directory}
use lkp_project.Directory.Iterate.Emits.{entries}
use lkp_project.Directory.Iterate.Reads.{EmitterLaws, read_directory_lem}
use lkp_project.Directory.Rename.{ouichefs_rename}
use lkp_project.Directory.Rename.Scan.{IsUnnamed}
use lkp_project.Directory.Rename.Halves.{Movable, RenameEnds}
use lkp_project.Directory.Rename.Moves.{ouichefs_rename-RenameEnds}
use lkp_project.Examples.Host.{host, small_fs, blank_block, blank_inode}

-- Inode 7, with an empty name.
abbrev pub one_entry : Block
one_entry = set_u32 blank_block 0 7

pub only_entry : (i : ℕ) → i < 1 → entry_inode one_entry i ≡ 7
unfolding get_u32 set_u32
only_entry i h = let e : i ≡ 0 = omega arith in rw e refl

blank_entry : (i : ℕ) → entry_inode blank_block i ≡ 0
unfolding get_u32
blank_entry i = refl

pub one_entry-IsPacked : IsPacked one_entry 1
one_entry-IsPacked = record {
  fits = omega arith;
  in_use = λ i h z. absurd (omega (arith, only_entry i h));
  free =
      λ i h low. get_u32-set_u32_apart blank_block 0 (32 * i) 7 (inl (omega arith)) ∙ blank_entry i;
  distinct = λ i j hi hj e. omega arith;
}

-- `len` times the letter a.
abbrev pub letters : ℕ → Name
letters len = record { len = len; chars = λ j. if ltb j len then 97 else 0 }

pub letters-IsName : (len : ℕ) → IsName (letters len)
letters-IsName len = record { goes_on = λ j h. ground arith; ends = ground arith }

pub letters_unnamed :
    (len : ℕ)
    → 0 < len
    → (i : ℕ) → i < 1
    → same_name 28 0 (entry_name one_entry i) (letters len).chars ≡ false
unfolding same_name set_u32
letters_unnamed len more i h =
    let e : i ≡ 0 = omega arith in let first : ltb 0 len ≡ true = ground arith in rw (e, first) refl

letters-IsNew : (len : ℕ) → 0 < len → IsNew one_entry 1 2 (letters len)
letters-IsNew len some_letters = record {
  number = (λ e. absurd (omega arith), omega arith);
  unused = λ i h e. absurd (omega (arith, only_entry i h));
  unnamed = λ i h. letters_unnamed len some_letters i h;
}

find_name-add_entry_cut_example :
    find_name 128 0 (add_entry 2 (letters 28) one_entry) (letters 28) ≡ none
find_name-add_entry_cut_example =
    find_name-add_entry_cut one_entry 1 2 (letters 28) (omega arith) one_entry-IsPacked
      (letters-IsNew 28 (omega arith)) (letters-IsName 28) refl

abbrev directory_fs : Fs
directory_fs = record small_fs { disk = update small_fs.disk 5 one_entry }

drop_entry-IsPacked_example :
    (fs' : Fs) × (drop_entry host 5 (entry_inode one_entry 0) directory_fs ≡ ok tt fs')
    × IsPacked (fs'.disk 5) 0
    × ((i c : ℕ) → i < 0 → c < 32 → fs'.disk 5 (32 * i + c) ≡ one_entry (32 * old_place 0 i + c))
    × ((b : ℕ) → b ≢ 5 → fs'.disk b ≡ directory_fs.disk b)
    × (fs'.inodes ≡ directory_fs.inodes)
    × (fs'.sbi ≡ directory_fs.sbi)
drop_entry-IsPacked_example =
    drop_entry-IsPacked host 5 1 0 directory_fs one_entry-IsPacked (omega arith)

-- A directory, inode 1, with index block 5, and another one, inode 3, with index block 6.
abbrev two_directories : Fs
two_directories = record directory_fs {
  inodes =
      update (update directory_fs.inodes 1 (record blank_inode { i_mode = 16893; index_block = 5 }))
        3 (record blank_inode { i_mode = 16893; index_block = 6 });
}

blank-IsPacked : IsPacked blank_block 0
blank-IsPacked = record {
  fits = omega arith;
  in_use = λ i h. absurd (omega arith);
  free = λ i h low. blank_entry i;
  distinct = λ i j h. absurd (omega arith);
}

blank-IsUnnamed : IsUnnamed blank_block (letters 5)
unfolding same_name
blank-IsUnnamed i h = refl

blank-IsNew : IsNew blank_block 0 7 (letters 5)
blank-IsNew = record {
  number = (λ e. absurd (omega arith), omega arith);
  unused = λ i h. absurd (omega arith);
  unnamed = λ i h. absurd (omega arith);
}

two_directories-Movable : Movable two_directories 1 7 3 (letters 5) 1 0 0
two_directories-Movable = record {
  directories = λ e. absurd (omega arith);
  blocks = λ e. absurd (omega arith);
  old_packed = one_entry-IsPacked;
  below = omega arith;
  entry = only_entry 0 (omega arith);
  new_packed = blank-IsPacked;
  room = omega arith;
  is_new = blank-IsNew;
  unnamed = blank-IsUnnamed;
  is_name = letters-IsName 5;
  short = omega arith;
}

ouichefs_rename-RenameEnds_example :
    RenameEnds two_directories 1 7 3
      (letters 5)
      1
      0
      0
      (ouichefs_rename host 1 7 (letters 0) 3 (letters 5) 0 two_directories)
ouichefs_rename-RenameEnds_example =
    ouichefs_rename-RenameEnds host (λ t b. refl) 1 7 3 (letters 0) (letters 5) 0 1 0 0
      two_directories refl two_directories-Movable

-- A buffer for one entry, and the two entries . and .. behind which a read goes on.
abbrev one_by_one : Emitter
one_by_one = record {
  has_room = λ l. length l == 0;
  dir_emit_dots = λ ctx. (true, record ctx { pos = if ltb ctx.pos 2 then 2 else ctx.pos });
}

one_by_one-EmitterLaws : EmitterLaws one_by_one
one_by_one-EmitterLaws = record {
  behind_dots = λ ctx h. let e : ltb ctx.pos 2 ≡ false = ground arith in rw e refl;
  takes_one = refl;
}

read_directory_lem_example :
    (c : ℕ) × (read_directory host one_by_one 3 1 (record { pos = 2; emitted = [] }) two_directories
      ≡ ok
          (record { pos = 3; emitted = entries one_entry 0 1 })
          (record two_directories { calls = c }))
read_directory_lem_example =
    read_directory_lem host (λ t b. refl) one_by_one one_by_one-EmitterLaws 1 1 3 two_directories
      refl one_entry-IsPacked (omega arith)
