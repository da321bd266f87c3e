-- ===== src/Directory/Entries.antt =====
-- The entries of a directory, and the removal of one.
use lkp_project.Kernel.{Kernel}
use lkp_project.State.{Fs, ok, with_block}
use lkp_project.Directory.{take_out, drop_entry}
use lkp_project.Prelude.{
  different, ==_self, ==_self, ℕ, zero, suc, ◌+◌, ◌-◌, ◌*◌, ◌≤◌, ◌<◌, ◌≢◌, ◌⊎◌, true, false, ◌==◌,
  ltb, if◌then◌else◌, Option, none, some, ◌≡◌, refl, arith, ◌∙◌, ap, sym, Bool-cases, inl, inr,
}
use lkp_project.Block.{Block, get_u32, memset, within}
use lkp_project.State.{max_subfiles}
use lkp_project.Directory.{entry_inode, first_free, find_inode, remove_entry}

-- `n` entries in use, from the first on, with different inode numbers.
pub record IsPacked (b : Block) (n : ℕ) : Type 0 where
  pub fits : n ≤ 128
  pub in_use : (i : ℕ) → i < n → entry_inode b i ≢ 0
  pub free : (i : ℕ) → n ≤ i → i < 128 → entry_inode b i ≡ 0
  pub distinct : (i j : ℕ) → i < n → j < n → entry_inode b i ≡ entry_inode b j → i ≡ j

pub first_free_lem :
    (rounds i n : ℕ) (b : Block)
    → i ≤ n
    → i + rounds ≡ 128
    → IsPacked b n
    → first_free rounds i b ≡ n
unfolding first_free
first_free_lem zero i n b le all p = omega (arith, p.fits)
first_free_lem (suc rounds) i n b le all p = elim (here-or-later i n le) [
  | inl e ↦ rw (free_there e) e
  | inr lt ↦ rw (used_there lt) (first_free_lem rounds (i + 1) n b (omega arith) (omega arith) p)
]
  where
    here-or-later : (i n : ℕ) → i ≤ n → (i ≡ n) ⊎ (i < n)
    here-or-later i n h = omega arith

    free_there : i ≡ n → (entry_inode b i == 0) ≡ true
    free_there e = ground (arith, p.free i (omega arith) (omega arith))

    used_there : i < n → (entry_inode b i == 0) ≡ false
    used_there lt = ground (arith, p.in_use i lt)

-- The search ends with the entry of the inode, if it is below `n`, and the number of entries.
pub find_inode_lem :
    (rounds i n p : ℕ) (b : Block) (f : Option ℕ)
    → i ≤ n
    → i + rounds ≡ 128
    → IsPacked b n
    → p < n
    → (i ≤ p) ⊎ ((p < i) × (f ≡ some p))
    → find_inode rounds i b (entry_inode b p) f ≡ (some p, n)
unfolding find_inode
find_inode_lem zero i n p b f le all packed lt where_is =
    let found : f ≡ some p = found_lem where_is in
    let at_end : i ≡ n = omega (arith, packed.fits) in rw (found, at_end) refl
  where
    found_lem : (i ≤ p) ⊎ ((p < i) × (f ≡ some p)) → f ≡ some p
    found_lem (inl h) = absurd (omega (arith, packed.fits))
    found_lem (inr (h, e)) = e
find_inode_lem (suc rounds) i n p b f le all packed lt where_is = elim (end-here-other i n p le) [
  | inl e ↦ rw (free_not_it e, free_there e, found_before e) (ap (λ x. (some p, x)) e)
  | inr (inl e) ↦ rw (it e) (
      find_inode_lem rounds (i + 1) n p b (some i) (omega arith) (omega arith) packed lt
        (inr (omega arith, ap some e)))
  | inr (inr (below, other)) ↦
      rw (not_it below other, used_there below)
        (find_inode_lem rounds (i + 1) n p b f (omega arith) (omega arith) packed lt
          (still other where_is))
]
  where
    end-here-other : (i n p : ℕ) → i ≤ n → (i ≡ n) ⊎ ((i ≡ p) ⊎ ((i < n) × (i ≢ p)))
    end-here-other i n p h = elim (compared i n) [
      | inl more ↦ absurd (omega arith)
      | inr (inl e) ↦ inl e
      | inr (inr below) ↦ elim (compared i p) [
        | inl past ↦ inr (inr (below, λ e. absurd (omega arith)))
        | inr (inl e) ↦ inr (inl e)
        | inr (inr before) ↦ inr (inr (below, λ e. absurd (omega arith)))
      ]
    ]
      where
        compared : (a b : ℕ) → (b < a) ⊎ ((a ≡ b) ⊎ (a < b))
        compared a b = omega arith

    free_there : i ≡ n → (entry_inode b i == 0) ≡ true
    free_there e = ground (arith, packed.free i (omega arith) (omega arith))

    free_not_it : i ≡ n → (entry_inode b i == entry_inode b p) ≡ false
    free_not_it e = ground (arith, packed.free i (omega arith) (omega arith), packed.in_use p lt)

    it : i ≡ p → (entry_inode b i == entry_inode b p) ≡ true
    it e = rw e (==_self (entry_inode b p))

    not_it : i < n → i ≢ p → (entry_inode b i == entry_inode b p) ≡ false
    not_it below other = different _ _ (λ same. other (packed.distinct i p below lt same))

    used_there : i < n → (entry_inode b i == 0) ≡ false
    used_there below = ground (arith, packed.in_use i below)

    found_before : i ≡ n → f ≡ some p
    found_before e = elim where_is [ inl h ↦ absurd (omega arith) | inr (h, same) ↦ same ]

    still : i ≢ p → (i ≤ p) ⊎ ((p < i) × (f ≡ some p)) → (i + 1 ≤ p) ⊎ ((p < i + 1) × (f ≡ some p))
    still other (inl h) = inl (ground (arith, other))
    still other (inr (h, same)) = inr (omega arith, same)

-- The bytes of an entry after a removal: entries before it and behind the last stay, those between
-- move down by one, and the last is zeroed.
module _ (f n : ℕ) (b : Block) (lt : f < n) (fits : n ≤ 128) where
  before_removed : (i c : ℕ) → c < 32 → i < f → remove_entry f n b (32 * i + c) ≡ b (32 * i + c)
  unfolding remove_entry memset
  before_removed i c h g = ground arith

  behind_last : (i c : ℕ) → c < 32 → n ≤ i → remove_entry f n b (32 * i + c) ≡ b (32 * i + c)
  unfolding remove_entry memset
  behind_last i c h g = ground arith

  last_zeroed : (c : ℕ) → c < 32 → remove_entry f n b (32 * (n - 1) + c) ≡ 0
  unfolding remove_entry memset
  last_zeroed c h = ground arith

  moved_down :
      (i c : ℕ)
      → c < 32
      → f ≤ i
      → i + 1 < n
      → remove_entry f n b (32 * i + c) ≡ b (32 * (i + 1) + c)
  unfolding remove_entry memset
  moved_down i c h g more =
      let not_last : (f == max_subfiles - 1) ≡ false = ground arith in
      let not_zeroed : within (32 * (n - 1)) 32 (32 * i + c) ≡ false = ground arith in
      let in_range : within (32 * f) ((n - f - 1) * 32) (32 * i + c) ≡ true = ground arith in
      let place : 32 * (f + 1) + (32 * i + c - 32 * f) ≡ 32 * (i + 1) + c = omega arith in
      rw (not_last, not_zeroed, in_range, place) refl

-- The numbers of two entries whose bytes agree.
pub entry_ext :
    (b c : Block) (i j : ℕ)
    → ((x : ℕ) → x < 32 → b (32 * i + x) ≡ c (32 * j + x))
    → entry_inode b i ≡ entry_inode c j
unfolding get_u32
entry_ext b c i j same =
    let first : b (32 * i) ≡ c (32 * j) =
      ap b (omega arith) ∙ same 0 (omega arith) ∙ ap c (omega arith) in
    rw (first, same 1 (omega arith), same 2 (omega arith), same 3 (omega arith)) refl

-- Where the entry at `i` after a removal stood before.
abbrev pub old_place : ℕ → ℕ → ℕ
old_place f i = if ltb i f then i else i + 1

module _ (f n : ℕ) (b : Block) (lt : f < n) (p : IsPacked b n) where
  -- Every entry that stays keeps its number and its name.
  pub remove_entry-kept :
      (i c : ℕ) → i < n - 1 → c < 32 → remove_entry f n b (32 * i + c) ≡ b (32 * old_place f i + c)
  remove_entry-kept i c h low = elim (Bool-cases (ltb i f)) [
    | inl before ↦ rw before (before_removed f n b lt p.fits i c low (ground (arith, before)))
    | inr after ↦
        rw after (moved_down f n b lt p.fits i c low (ground (arith, after)) (omega arith))
  ]

  kept_inode :
      (i : ℕ) → i < n - 1 → entry_inode (remove_entry f n b) i ≡ entry_inode b (old_place f i)
  kept_inode i h =
      entry_ext (remove_entry f n b) b i (old_place f i) (λ x low. remove_entry-kept i x h low)

  old_place-lt : (i : ℕ) → i < n - 1 → old_place f i < n
  old_place-lt i h = ground arith

  old_place-injective : (i j : ℕ) → old_place f i ≡ old_place f j → i ≡ j
  old_place-injective i j e = ground (arith, e)

  last_free : entry_inode (remove_entry f n b) (n - 1) ≡ 0
  last_free =
      entry_ext (remove_entry f n b) (λ x. 0) (n - 1) 0 (last_zeroed f n b lt p.fits) ∙ zero_entry
    where
      zero_entry : entry_inode (λ x. 0) 0 ≡ 0
      zero_entry = unfold get_u32 in refl

  free_after : (i : ℕ) → n - 1 ≤ i → i < 128 → entry_inode (remove_entry f n b) i ≡ 0
  free_after i h low = elim (last-or-behind i h) [
    | inl e ↦ rw e last_free
    | inr g ↦
        entry_ext (remove_entry f n b) b i i (λ x l. behind_last f n b lt p.fits i x l g)
        ∙ p.free i g low
  ]
    where
      last-or-behind : (i : ℕ) → n - 1 ≤ i → (i ≡ n - 1) ⊎ (n ≤ i)
      last-or-behind i h = omega arith

  -- A directory of `n` entries has `n - 1` after a removal, packed and with different numbers.
  pub remove_entry-IsPacked : IsPacked (remove_entry f n b) (n - 1)
  remove_entry-IsPacked = record {
    fits = omega (arith, p.fits);
    in_use = λ i h z. p.in_use (old_place f i) (old_place-lt i h) (sym (kept_inode i h) ∙ z);
    free = free_after;
    distinct = λ i j hi hj e. old_place-injective i j (
        p.distinct (old_place f i) (old_place f j) (old_place-lt i hi) (old_place-lt j hj)
          (sym (kept_inode i hi) ∙ e ∙ kept_inode j hj));
  }

module _ (k : Kernel) where
  -- Taking an inode's entry out of a packed directory: the run ends normally, the entries before it
  -- stay, those behind it move down by one with their names, the directory is packed with one entry
  -- less, and no other block changes.
  pub drop_entry-IsPacked :
      (index_block n p : ℕ) (fs : Fs)
      → IsPacked (fs.disk index_block) n
      → p < n
      → (fs' : Fs) × (drop_entry k index_block (entry_inode (fs.disk index_block) p) fs ≡ ok tt fs')
        × IsPacked (fs'.disk index_block) (n - 1)
        × ((i c : ℕ)
            → i < n - 1
            → c < 32
            → fs'.disk index_block (32 * i + c) ≡ fs.disk index_block (32 * old_place p i + c))
        × ((b : ℕ) → b ≢ index_block → fs'.disk b ≡ fs.disk b)
        × (fs'.inodes ≡ fs.inodes)
        × (fs'.sbi ≡ fs.sbi)
  unfolding drop_entry take_out
  drop_entry-IsPacked index_block n p fs packed lt = (
    after,
    rw
        (find_inode_lem 128 0 n p (fs.disk index_block) none (omega arith) refl packed lt
          (inl (omega arith)))
        refl,
    rw here (remove_entry-IsPacked p n (fs.disk index_block) lt packed),
    λ i c h low. rw here (remove_entry-kept p n (fs.disk index_block) lt packed i c h low),
    λ b h. ground arith,
    refl,
    refl,
  )
    where
      after : Fs
      after = with_block index_block (remove_entry p n) fs

      here : after.disk index_block ≡ remove_entry p n (fs.disk index_block)
      here = rw (==_self index_block) refl
