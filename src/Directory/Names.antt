-- ===== src/Directory/Names.antt =====
-- The names in a directory: the entry that ouichefs_create adds and the search of ouichefs_lookup.
use lkp_project.Prelude.{
  different, ℕ, zero, suc, ◌+◌, ◌-◌, ◌*◌, ◌^◌, ◌≤◌, ◌<◌, ◌≢◌, ◌⊎◌, Bool, true, false, ◌==◌, ltb,
  if◌then◌else◌, none, some, ◌≡◌, refl, arith, ◌∙◌, ap, sym, inl, inr,
}
use lkp_project.Block.{Block, get_u32, set_u32, within}
use lkp_project.Block.Laws.{get_u32-set_u32_self, set_u32_outside}
use lkp_project.Directory.{Name, entry_inode, entry_name, same_name, set_name, find_name, add_entry}
use lkp_project.Directory.Entries.{IsPacked, first_free_lem, entry_ext}
use lkp_project.Directory.SameName.{same_name-ends, same_name-differs, same_name_ext}

-- A name as the VFS gives it.
pub record IsName (name : Name) : Type 0 where
  pub goes_on : (j : ℕ) → j < name.len → name.chars j ≢ 0
  pub ends : name.chars name.len ≡ 0

-- `name` and `ino` are new in a directory of `n` entries.
pub record IsNew (b : Block) (n ino : ℕ) (name : Name) : Type 0 where
  pub number : (ino ≢ 0) × (ino < 2 ^ 32)
  pub unused : (i : ℕ) → i < n → entry_inode b i ≢ ino
  pub unnamed : (i : ℕ) → i < n → same_name 28 0 (entry_name b i) name.chars ≡ false

module _ (b : Block) (n ino : ℕ) (name : Name) (room : n < 128) (packed : IsPacked b n) where
  added : Block
  added = set_name (set_u32 b (32 * n) ino) n name

  added_lem : add_entry ino name b ≡ added
  unfolding add_entry added
  added_lem = rw (first_free_lem 128 0 n b (omega arith) refl packed) refl

  added_other : (i c : ℕ) → i ≢ n → c < 32 → added (32 * i + c) ≡ b (32 * i + c)
  unfolding added set_name
  added_other i c other low = ground (arith, other, set_u32_outside b (32 * n) ino (32 * i + c))

  added_inode : ino < 2 ^ 32 → entry_inode added n ≡ ino
  unfolding added
  added_inode wide = same (set_u32 b (32 * n) ino) ∙ get_u32-set_u32_self b (32 * n) ino wide
    where
      same : (c : Block) → get_u32 (set_name c n name) (32 * n) ≡ get_u32 c (32 * n)
      same c = unfold set_name get_u32 in ground arith

  -- The entry that was added, and the others.
  pub add_entry_last : ino < 2 ^ 32 → entry_inode (add_entry ino name b) n ≡ ino
  add_entry_last wide = rw added_lem (added_inode wide)

  pub add_entry_other :
      (i c : ℕ) → i ≢ n → c < 32 → add_entry ino name b (32 * i + c) ≡ b (32 * i + c)
  add_entry_other i c other low = rw added_lem (added_other i c other low)

  added_byte :
      (j : ℕ) → name.len ≤ 27 → IsName name → j ≤ name.len → entry_name added n j ≡ name.chars j
  unfolding added set_name
  added_byte j short is_name low = elim (before-or-end j name.len low) [
    | inl lt ↦
        let inside : within (32 * n + 4) (if ltb name.len 28 then name.len else 27) (32 * n + 4 + j)
            ≡ true =
          ground arith in
        let back : 32 * n + 4 + j - (32 * n + 4) ≡ j = omega arith in rw (inside, back) refl
    | inr e ↦
        let outside : within (32 * n + 4) (if ltb name.len 28 then name.len else 27)
              (32 * n + 4 + j)
            ≡ false =
          ground arith in
        let at_end : (32 * n + 4 + j == 32 * n + 4 + (if ltb name.len 28 then name.len else 27))
            ≡ true =
          ground arith in
        rw (outside, at_end) (sym is_name.ends ∙ ap name.chars (sym e))
  ]
    where
      before-or-end : (j l : ℕ) → j ≤ l → (j < l) ⊎ (j ≡ l)
      before-or-end j l h = omega arith

  added_cut : name.len ≡ 28 → entry_name added n 27 ≡ 0
  unfolding added set_name
  added_cut e =
      let outside : within (32 * n + 4) (if ltb name.len 28 then name.len else 27) (32 * n + 4 + 27)
          ≡ false =
        ground arith in
      let at_end : (32 * n + 4 + 27 == 32 * n + 4 + (if ltb name.len 28 then name.len else 27))
          ≡ true =
        ground arith in
      rw (outside, at_end) refl

  added_kept : name.len ≡ 28 → (j : ℕ) → j < 27 → entry_name added n j ≡ name.chars j
  unfolding added set_name
  added_kept e j low =
      let inside : within (32 * n + 4) (if ltb name.len 28 then name.len else 27) (32 * n + 4 + j)
          ≡ true =
        ground arith in
      let back : 32 * n + 4 + j - (32 * n + 4) ≡ j = omega arith in rw (inside, back) refl

  other_name :
      (i : ℕ)
      → i ≢ n
      → same_name 28 0 (entry_name added i) name.chars ≡ same_name 28 0 (entry_name b i) name.chars
  other_name i other =
      same_name_ext 28 0 (entry_name added i) (entry_name b i) name.chars (omega arith) (λ x h.
        ap added (omega arith) ∙ added_other i (4 + x) other (omega arith) ∙ ap b (omega arith))

  other_inode : (i : ℕ) → i ≢ n → entry_inode added i ≡ entry_inode b i
  other_inode i other = entry_ext added b i i (λ x low. added_other i x other low)

  find_name-behind :
      (rounds : ℕ) → n + 1 + rounds ≡ 128 → find_name rounds (n + 1) added name ≡ none
  unfolding find_name
  find_name-behind zero all = refl
  find_name-behind (suc rounds) all =
      let free : entry_inode added (n + 1) ≡ 0 =
        other_inode (n + 1) (λ e. absurd (omega arith))
        ∙ packed.free (n + 1) (omega arith) (omega arith) in
      rw free refl

  -- The search behind `i` when the entry at `n` has the name, or has it not.
  find_name-added :
      (rounds i : ℕ) (found : Bool)
      → i ≤ n
      → i + rounds ≡ 128
      → IsNew b n ino name
      → same_name 28 0 (entry_name added n) name.chars ≡ found
      → find_name rounds i added name ≡ (if found then some ino else none)
  unfolding find_name
  find_name-added zero i found le all new e = absurd (omega arith)
  find_name-added (suc rounds) i found le all new e = elim (here-or-before i n le) [
    | inr before ↦
        let other : i ≢ n = λ same. absurd (omega arith) in
        rw
          (
            other_inode i other,
            different (entry_inode b i) 0 (packed.in_use i before),
            other_name i other ∙ new.unnamed i before,
          )
          (find_name-added rounds (i + 1) found (omega arith) (omega arith) new e)
    | inl here ↦
        rw (here, e, added_inode new.number.1, different ino 0 new.number.0)
          (at_entry found (omega arith))
  ]
    where
      here-or-before : (i n : ℕ) → i ≤ n → (i ≡ n) ⊎ (i < n)
      here-or-before i n h = omega arith

      at_entry :
          (found : Bool)
          → n + 1 + rounds ≡ 128
          → (if found then some ino else find_name rounds (n + 1) added name)
            ≡ (if found then some ino else none)
      at_entry true left = refl
      at_entry false left = find_name-behind rounds left

  added-IsPacked : IsNew b n ino name → IsPacked added (n + 1)
  added-IsPacked new = record {
    fits = omega arith;
    in_use = λ i h.
        by_place i h (λ before z. packed.in_use i before (sym (below i before) ∙ z))
          (λ here z. new.number.0 (sym (at_end i here) ∙ z));
    free = λ i h low. other_inode i (λ e. absurd (omega arith)) ∙ packed.free i (omega arith) low;
    distinct = λ i j hi hj e.
        by_place i hi
          (λ before.
            by_place j hj
              (λ before'.
                packed.distinct i j before before' (sym (below i before) ∙ e ∙ below j before'))
              (λ here'. absurd (new.unused i before (sym (below i before) ∙ e ∙ at_end j here'))))
          (λ here.
            by_place j hj
              (λ before'.
                absurd (new.unused j before' (sym (below j before') ∙ sym e ∙ at_end i here)))
              (λ here'. here ∙ sym here'));
  }
    where
      by_place : {A : Type 0} (i : ℕ) → i < n + 1 → (i < n → A) → (i ≡ n → A) → A
      by_place i h f g = elim (two i h) [ inl before ↦ f before | inr here ↦ g here ]
        where
          two : (i : ℕ) → i < n + 1 → (i < n) ⊎ (i ≡ n)
          two i h = omega arith

      below : (i : ℕ) → i < n → entry_inode added i ≡ entry_inode b i
      below i before = other_inode i (λ e. absurd (omega arith))

      at_end : (i : ℕ) → i ≡ n → entry_inode added i ≡ ino
      at_end i here = rw here (added_inode new.number.1)

  -- A new name of at most 27 bytes is found after ouichefs_create added it, with its inode, and the
  -- directory is packed with one entry more.
  pub find_name-add_entry :
      IsNew b n ino name
      → IsName name
      → name.len ≤ 27
      → (find_name 128 0 (add_entry ino name b) name ≡ some ino)
        × IsPacked (add_entry ino name b) (n + 1)
  find_name-add_entry new is_name short =
      rw added_lem (find_name-added 128 0 true (omega arith) refl new same, added-IsPacked new)
    where
      same : same_name 28 0 (entry_name added n) name.chars ≡ true
      same =
          same_name-ends 28 0 name.len (entry_name added n) name.chars (omega arith)
            (λ x h. added_byte x short is_name h)
            (added_byte name.len short is_name (omega arith) ∙ is_name.ends)

  -- A name of 28 bytes passes the check of its length, but it is cut when it is stored, and
  -- ouichefs_lookup does not find it.
  pub find_name-add_entry_cut :
      IsNew b n ino name
      → IsName name
      → name.len ≡ 28
      → find_name 128 0 (add_entry ino name b) name ≡ none
  find_name-add_entry_cut new is_name long =
      rw added_lem (find_name-added 128 0 false (omega arith) refl new other)
    where
      other : same_name 28 0 (entry_name added n) name.chars ≡ false
      other =
          same_name-differs 28 0 27 (entry_name added n) name.chars (omega arith) (omega arith)
            (λ x p q z. is_name.goes_on x (omega arith) (sym (added_kept long x q) ∙ z))
            (λ z. is_name.goes_on 27 (omega arith) (sym z ∙ added_cut long))
