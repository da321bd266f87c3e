-- ===== src/Mkfs/Format/Lines.antt =====
-- The lines that write_bfree_blocks of mkfs/mkfs-ouichefs.c clears bit by bit.
use Prim.Native.Nat.{bit_and}
use native.Mathlib.Nat.{one-le-pow, pow-le-pow_right, pow-suc}
use lkp_project.Prelude.{
  ◌⊎◌, ℕ, zero, suc, ◌+◌, ◌-◌, ◌*◌, ◌%◌, ◌^◌, ◌≤◌, ◌<◌, true, false, not, ◌&&◌, ltb, leb, ◌==◌, ◌≡◌,
  refl, arith, ◌∙◌, ap, inl, inr, Bool-cases,
}
use lkp_project.Words.Digits.{testbit, testbit-bit_and, testbit-complement}
use lkp_project.Words.Mask.{two-pow-add, testbit-run_mask, run_mask, testbit_ones}
use lkp_project.Block.{Block, within}
use lkp_project.Block.Fields.{set_u64}
use lkp_project.Super.{bits_per_block, bit_of}
use lkp_project.Mkfs.Format.{ones_block, not64, shl64, clear_line, clear_lines}
use lkp_project.Mkfs.Format.Bits.{bit_of-set_u64, bit_of-ones}

pow-lt : (c : ℕ) → c < 64 → 2 ^ c < 2 ^ 64
pow-lt c h = omega (
  arith,
  pow-suc 2 c,
  one-le-pow c 2,
  pow-le-pow_right {n = 2} (omega arith) {i = suc c} {j = 64} (omega arith),
)

-- One digit cleared.
testbit-clear :
    (line c i : ℕ)
    → c < 64
    → i < 64
    → testbit (bit_and line (not64 (2 ^ c))) i ≡ (testbit line i && not (i == c))
testbit-clear line c i h p =
    testbit-bit_and line (not64 (2 ^ c)) i
    ∙ ground (
      arith,
      testbit-complement 64 (2 ^ c) i (pow-lt c h) p,
      ap (λ n. testbit n i) one,
      testbit-run_mask 1 c i,
    )
  where
    one : 2 ^ c ≡ run_mask 1 c
    one = omega arith

-- The digits from `c` on, of `n` blocks, are cleared, and the blocks beyond the line are left.
record IsCleared (c n line : ℕ) (out : ℕ × ℕ) : Type 0 where
  left : out.1 ≡ n - (64 - c)
  digits : (i : ℕ) → i < 64 → testbit out.0 i ≡ (testbit line i && not (leb c i && ltb i (c + n)))

IsCleared-last :
    (c n line : ℕ) → c < 64 → n ≡ 1 → IsCleared c n line (bit_and line (not64 (2 ^ c)), 0)
IsCleared-last c n line h one = record {
  left = omega arith;
  digits = λ i p. testbit-clear line c i h p ∙ ground arith;
}

IsCleared-more :
    (c n line : ℕ) (out : ℕ × ℕ)
    → c < 64
    → 1 < n
    → IsCleared (c + 1) (n - 1) (bit_and line (not64 (2 ^ c))) out
    → IsCleared c n line out
IsCleared-more c n line out h many rest = record {
  left = omega (arith, rest.left);
  digits = λ i p. rest.digits i p ∙ ground (arith, testbit-clear line c i h p);
}

clear_line-IsCleared :
    (rounds c n line : ℕ)
    → c ≤ 64
    → 65 ≤ rounds + c
    → 0 < n
    → IsCleared c n line (clear_line rounds (2 ^ c % 2 ^ 64) line n)
unfolding clear_line
clear_line-IsCleared zero c n line h enough pos = absurd (omega arith)
clear_line-IsCleared (suc rounds) c n line h enough pos = elim (last-or-before c h) [
  | inl e ↦
      let out : (2 ^ c % 2 ^ 64 == 0) ≡ true = rw e refl in
      rw out (record { left = omega arith; digits = λ i p. ground arith })
  | inr before ↦ elim (Bool-cases (n - 1 == 0)) [
    | inl one ↦
        rw (mask before, is_mask before, one)
          (IsCleared-last c n line before (ground (arith, pos, one)))
    | inr many ↦
        rw (mask before, is_mask before, many, shifted)
          (IsCleared-more c n line
            (clear_line rounds (2 ^ (c + 1) % 2 ^ 64) (bit_and line (not64 (2 ^ c))) (n - 1)) before
            (ground (arith, pos, many))
            (clear_line-IsCleared rounds (c + 1) (n - 1) (bit_and line (not64 (2 ^ c)))
              (omega arith) (omega arith) (ground (arith, pos, many))))
  ]
]
  where
    last-or-before : (c : ℕ) → c ≤ 64 → (c ≡ 64) ⊎ (c < 64)
    last-or-before c h = omega arith

    mask : c < 64 → 2 ^ c % 2 ^ 64 ≡ 2 ^ c
    mask before = omega (arith, pow-lt c before)

    is_mask : c < 64 → (2 ^ c == 0) ≡ false
    is_mask before = ground (arith, one-le-pow c 2)

    shifted : shl64 (2 ^ c) ≡ 2 ^ (c + 1) % 2 ^ 64
    shifted = ap (λ n. n % 2 ^ 64) (omega (arith, two-pow-add c 1))

-- The bits of the lines from `i` on, of `n` blocks, are cleared in a block of ones.
IsMarked : ℕ → ℕ → Block → Block → Type 0
IsMarked i n b out =
    (j : ℕ) → j < bits_per_block → bit_of out j ≡ (bit_of b j && not (within (64 * i) n j))

IsMarked-more :
    (i n line left : ℕ) (b out : Block)
    → ((j : ℕ) → 64 * i ≤ j → j < bits_per_block → bit_of b j ≡ true)
    → IsCleared 0 n (2 ^ 64 - 1) (line, left)
    → IsMarked (i + 1) left (set_u64 b (8 * i) line) out
    → IsMarked i n b out
unfolding IsMarked
IsMarked-more i n line left b out ones cleared rest j h =
    rest j h
    ∙ ground (
      arith,
      bit_of-set_u64 b i line j,
      ones j,
      cleared.left,
      cleared.digits (j - 64 * i),
      testbit_ones 64 (j - 64 * i),
    )

clear_lines-IsMarked :
    (rounds i n : ℕ) (b : Block)
    → n ≤ rounds
    → ((j : ℕ) → 64 * i ≤ j → j < bits_per_block → bit_of b j ≡ true)
    → IsMarked i n b (clear_lines rounds i n b)
unfolding clear_lines IsMarked
clear_lines-IsMarked zero i n b enough ones = λ j h. ground (arith, enough)
clear_lines-IsMarked (suc rounds) i n b enough ones = elim (Bool-cases (n == 0)) [
  | inl e ↦ rw e (λ j h. ground (arith, e))
  | inr e ↦
      let line = clear_line 65 1 (2 ^ 64 - 1) n in
      let cleared : IsCleared 0 n (2 ^ 64 - 1) line =
        clear_line-IsCleared 65 0 n (2 ^ 64 - 1) (omega arith) (omega arith) (ground (arith, e)) in
      let next : Block = set_u64 b (8 * i) line.0 in
      rw e (
        IsMarked-more i n line.0 line.1 b (clear_lines rounds (i + 1) line.1 next) ones cleared (
          clear_lines-IsMarked rounds (i + 1) line.1 next (ground (arith, enough, e, cleared.left))
            (λ j p q. ground (arith, bit_of-set_u64 b i line.0 j, ones j, p, q))))
]

-- The first block of the block bitmap: the first `n` blocks are in use.
pub bit_of-clear_lines :
    (n j : ℕ) → j < bits_per_block → bit_of (clear_lines n 0 n ones_block) j ≡ leb n j
unfolding IsMarked
bit_of-clear_lines n j h =
    clear_lines-IsMarked n 0 n ones_block (omega arith) (λ j _. bit_of-ones j) j h
    ∙ ground (arith, bit_of-ones j h)
