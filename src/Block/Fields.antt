-- ===== src/Block/Fields.antt =====
-- The little-endian fields of a struct in a block, written one after the other.
use lkp_project.Prelude.{
  ℕ, ◌+◌, ◌-◌, ◌*◌, ◌/◌, ◌%◌, ◌^◌, ◌≤◌, ◌<◌, ◌⊎◌, Bool, true, false, ◌&&◌, ◌==◌, if◌then◌else◌,
  List, [], ◌∷◌, Option, none, some, ◌≡◌, refl, ◌∙◌, arith, Bool-cases, inl, inr,
}
use lkp_project.Block.{Block, within, get_u32, set_u32}
use lkp_project.Block.Laws.{get_u32-set_u32_apart}

unfoldable pub get_u16 : Block → ℕ → ℕ
get_u16 b o = b o % 256 + 256 * (b (o + 1) % 256)

unfoldable pub set_u16 : Block → ℕ → ℕ → Block
set_u16 b o v j = if j == o then v % 256 else (if j == o + 1 then v / 256 % 256 else b j)

abbrev pub get_u64 : Block → ℕ → ℕ
get_u64 b o = get_u32 b o + 2 ^ 32 * get_u32 b (o + 4)

-- The 64-bit word at `o`.
unfoldable pub set_u64 : Block → ℕ → ℕ → Block
set_u64 b o v j = if within o 8 j then v / 2 ^ (8 * (j - o)) % 256 else b j

-- The words of a struct at `base`: each is an offset with a value, stored in turn.
unfoldable pub set_words : ℕ → List (ℕ × ℕ) → Block → Block
set_words base [] b = b
set_words base ((o, v) ∷ ws) b = set_words base ws (set_u32 b (base + o) v)

-- The value that is stored last at an offset.
abbrev pub word_at : ℕ → List (ℕ × ℕ) → Option ℕ
word_at p [] = none
word_at p ((o, v) ∷ ws) = elim (word_at p ws) [
  | some w ↦ some w
  | none ↦ if o == p then some v else none
]

abbrev pub are_aligned : List (ℕ × ℕ) → Bool
are_aligned [] = true
are_aligned ((o, v) ∷ ws) = (o % 4 == 0) && are_aligned ws

abbrev pub stored_or : ℕ → Option ℕ → ℕ
stored_or old none = old
stored_or old (some v) = v % 2 ^ 32

-- A word stored whatever its size keeps its lowest 32 bits.
pub get_u32-set_u32_wrap : (b : Block) (o v : ℕ) → get_u32 (set_u32 b o v) o ≡ v % 2 ^ 32
unfolding get_u32 set_u32
get_u32-set_u32_wrap b o v = ground arith

pub get_u32-set_words :
    (base p : ℕ) (ws : List (ℕ × ℕ)) (b : Block)
    → are_aligned ws ≡ true
    → p % 4 ≡ 0
    → get_u32 (set_words base ws b) (base + p) ≡ stored_or (get_u32 b (base + p)) (word_at p ws)
unfolding set_words
get_u32-set_words base p [] b fine aligned = refl
get_u32-set_words base p ((o, v) ∷ ws) b fine aligned =
    get_u32-set_words base p ws (set_u32 b (base + o) v) (later_fine (o % 4 == 0) fine) aligned
    ∙ by_later (word_at p ws)
  where
    later_fine : (x : Bool) → (x && are_aligned ws) ≡ true → are_aligned ws ≡ true
    later_fine true h = h
    later_fine false h = absurd (ground (arith, h))

    first_fine : (x : Bool) → (x && are_aligned ws) ≡ true → x ≡ true
    first_fine true h = refl
    first_fine false h = absurd (ground (arith, h))

    offset : (o % 4 == 0) ≡ true
    offset = first_fine (o % 4 == 0) fine

    here :
        get_u32 (set_u32 b (base + o) v) (base + p)
        ≡ stored_or (get_u32 b (base + p)) (if o == p then some v else none)
    here = elim (Bool-cases (o == p)) [
      | inl same ↦
          let e : o ≡ p = ground (arith, same) in rw (same, e) (get_u32-set_u32_wrap b (base + p) v)
      | inr other ↦
          rw other (get_u32-set_u32_apart b (base + o) (base + p) v (ground (arith, other, offset)))
    ]

    by_later :
        (x : Option ℕ)
        → stored_or (get_u32 (set_u32 b (base + o) v) (base + p)) x
          ≡ stored_or
              (get_u32 b (base + p))
              (elim x [ some w ↦ some w | none ↦ if o == p then some v else none ])
    by_later (some w) = refl
    by_later none = here

pub get_u16-set_u16_self : (b : Block) (o v : ℕ) → v < 2 ^ 16 → get_u16 (set_u16 b o v) o ≡ v
unfolding get_u16 set_u16
get_u16-set_u16_self b o v h = ground arith

pub get_u32-set_u16_apart :
    (b : Block) (o p v : ℕ) → (o + 2 ≤ p) ⊎ (p + 4 ≤ o) → get_u32 (set_u16 b o v) p ≡ get_u32 b p
unfolding get_u32 set_u16
get_u32-set_u16_apart b o p v h = ground arith
