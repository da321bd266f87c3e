-- ===== src/Directory/Rename/Scan.antt =====
-- The loops of ouichefs_rename (inode.c) over a directory.
use lkp_project.Prelude.{
  ℕ, zero, suc, ◌+◌, ◌≤◌, ◌<◌, ◌≢◌, ◌⊎◌, true, false, ◌==◌, Option, none, some, ◌≡◌, refl, arith,
  ap, Bool-cases, inl, inr,
}
use lkp_project.Block.{Block}
use lkp_project.Directory.{Name, entry_inode, entry_name, same_name, find_inode}
use lkp_project.Directory.Entries.{IsPacked}
use lkp_project.Directory.Rename.{scan_new, search_old}

-- No entry, in use or free, has the name.
abbrev pub IsUnnamed : Block → Name → Type 0
IsUnnamed b name = (i : ℕ) → i < 128 → same_name 28 0 (entry_name b i) name.chars ≡ false

-- The first loop finds the first free entry of another directory that has room.
pub scan_new_lem :
    (rounds i n : ℕ) (b : Block) (old_name new_name : Name) (new_pos : Option ℕ)
    → i + rounds ≡ 128
    → IsPacked b n
    → n < 128
    → IsUnnamed b new_name
    → ((i ≤ n) × (new_pos ≡ none)) ⊎ ((n < i) × (new_pos ≡ some n))
    → scan_new false old_name new_name rounds i b (record { f_pos = none; new_pos = new_pos })
      ≡ some (record { f_pos = none; new_pos = some n })
unfolding scan_new
scan_new_lem zero i n b old_name new_name new_pos all packed room unnamed (inl h) =
    absurd (omega (arith, h.0))
scan_new_lem zero i n b old_name new_name new_pos all packed room unnamed (inr (h, e)) = rw e refl
scan_new_lem (suc rounds) i n b old_name new_name new_pos all packed room unnamed h =
    elim (place i n new_pos h) [
      | inl (before, e) ↦
          let used : (entry_inode b i == 0) ≡ false = ground (arith, packed.in_use i before) in
          rw (unnamed i (omega arith), used)
            (scan_new_lem rounds (i + 1) n b old_name new_name new_pos (omega arith) packed room
              unnamed (inl (omega arith, e)))
      | inr (inl (here, e)) ↦
          rw (unnamed i (omega arith), free (omega arith), e)
            (scan_new_lem rounds (i + 1) n b old_name new_name (some i) (omega arith) packed room
              unnamed (inr (omega arith, ap some here)))
      | inr (inr (after, e)) ↦
          rw (unnamed i (omega arith), free (omega arith), e)
            (scan_new_lem rounds (i + 1) n b old_name new_name (some n) (omega arith) packed room
              unnamed (inr (omega arith, refl)))
    ]
  where
    free : n ≤ i → (entry_inode b i == 0) ≡ true
    free le = ground (arith, packed.free i le (omega arith))

    below-or-here : (i n : ℕ) → i ≤ n → (i < n) ⊎ (i ≡ n)
    below-or-here i n le = omega arith

    place :
        (i n : ℕ) (new_pos : Option ℕ)
        → ((i ≤ n) × (new_pos ≡ none)) ⊎ ((n < i) × (new_pos ≡ some n))
        → ((i < n) × (new_pos ≡ none))
          ⊎ (((i ≡ n) × (new_pos ≡ none)) ⊎ ((n < i) × (new_pos ≡ some n)))
    place i n new_pos (inl (le, e)) = elim (below-or-here i n le) [
      | inl lt ↦ inl (lt, e)
      | inr here ↦ inr (inl (here, e))
    ]
    place i n new_pos (inr h) = inr (inr h)

-- Where there is a free entry, the second loop is the one of ouichefs_unlink.
pub search_old_lem :
    (rounds i n ino : ℕ) (b : Block) (f : Option ℕ)
    → i ≤ n
    → i + rounds ≡ 128
    → IsPacked b n
    → n < 128
    → ino ≢ 0
    → search_old rounds i b ino f ≡ some (find_inode rounds i b ino f)
unfolding search_old find_inode
search_old_lem zero i n ino b f le all packed room some_ino = absurd (omega arith)
search_old_lem (suc rounds) i n ino b f le all packed room some_ino =
    elim (Bool-cases (entry_inode b i == ino)) [
      | inl it ↦ rw it (
          search_old_lem rounds (i + 1) n ino b (some i) (before it) (omega arith) packed room
            some_ino)
      | inr other ↦ elim (Bool-cases (entry_inode b i == 0)) [
        | inl free ↦ rw (other, free) refl
        | inr used ↦
            rw (other, used)
              (search_old_lem rounds (i + 1) n ino b f (in_use used) (omega arith) packed room
                some_ino)
      ]
    ]
  where
    before : (entry_inode b i == ino) ≡ true → i + 1 ≤ n
    before it = ground (arith, it, some_ino, le, packed.free i)

    in_use : (entry_inode b i == 0) ≡ false → i + 1 ≤ n
    in_use used = ground (arith, used, le, packed.free i)

-- Where there is none, it does not end in the block.
pub search_old_full :
    (rounds i ino : ℕ) (b : Block) (f : Option ℕ)
    → i + rounds ≡ 128
    → IsPacked b 128
    → search_old rounds i b ino f ≡ none
unfolding search_old
search_old_full zero i ino b f all packed = refl
search_old_full (suc rounds) i ino b f all packed =
    let used : (entry_inode b i == 0) ≡ false = ground (arith, packed.in_use i (omega arith)) in
    elim (Bool-cases (entry_inode b i == ino)) [
      | inl it ↦ rw it (search_old_full rounds (i + 1) ino b (some i) (omega arith) packed)
      | inr other ↦ rw (other, used) (search_old_full rounds (i + 1) ino b f (omega arith) packed)
    ]
