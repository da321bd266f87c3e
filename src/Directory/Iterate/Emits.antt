-- ===== src/Directory/Iterate/Emits.antt =====
-- What one call of ouichefs_iterate (dir.c) emits.
use mathlib.Core.Path.{ap₂}
use mathlib.Core.List.{append-nil, append_assoc}
use lkp_project.Prelude.{
  ◌-◌, sym, ℕ, zero, suc, ◌+◌, ◌≤◌, ◌<◌, true, false, ◌==◌, List, [], ◌∷◌, ◌++◌, ◌≡◌, arith, ◌∙◌,
  ap, Bool-cases, inl, inr,
}
use lkp_project.Block.{Block}
use lkp_project.Directory.{entry_inode}
use lkp_project.Directory.Entries.{IsPacked}
use lkp_project.Directory.Iterate.{DirContext, Emitter, entry_at, emit, emit_entries}

-- The `n` entries from `i` on.
unfoldable pub entries : Block → ℕ → ℕ → List (ℕ × Block)
entries b i zero = []
entries b i (suc n) = entry_at b i ∷ entries b (i + 1) n

entries-add : (b : Block) (i n m : ℕ) → entries b i n ++ entries b (i + n) m ≡ entries b i (n + m)
unfolding entries
entries-add b i zero m = ap₂ (entries b) none zero_more
  where
    none : i + 0 ≡ i
    none = omega arith

    zero_more : m ≡ 0 + m
    zero_more = omega arith
entries-add b i (suc n) m =
    ap (λ j. entry_at b i ∷ entries b (i + 1) n ++ entries b j m) next
    ∙ ap (λ l. entry_at b i ∷ l) (entries-add b (i + 1) n m)
    ∙ ap (entries b i) more
  where
    next : i + suc n ≡ i + 1 + n
    next = omega arith

    more : suc (n + m) ≡ suc n + m
    more = omega arith

-- A context after `c` more entries from `i` on.
abbrev pub emitted_more : Block → ℕ → ℕ → DirContext → DirContext
emitted_more b i c ctx = record { pos = ctx.pos + c; emitted = ctx.emitted ++ entries b i c }

emitted_none : (b : Block) (i : ℕ) (ctx : DirContext) → ctx ≡ emitted_more b i 0 ctx
unfolding entries
emitted_none b i ctx = λ t. record { pos = none t; emitted = sym (append-nil ctx.emitted) t }
  where
    none : ctx.pos ≡ ctx.pos + 0
    none = omega arith

emitted_one :
    (b : Block) (i c : ℕ) (ctx : DirContext)
    → emitted_more b (i + 1) c (emit (entry_at b i) ctx) ≡ emitted_more b i (suc c) ctx
unfolding entries
emitted_one b i c ctx = λ t. record {
  pos = more t;
  emitted = append_assoc ctx.emitted (entry_at b i ∷ []) (entries b (i + 1) c) t;
}
  where
    more : ctx.pos + 1 + c ≡ ctx.pos + suc c
    more = omega arith

-- One call goes on with some of the entries, and with at least one where there is one and the buffer
-- takes it.
pub record Emits (e : Emitter) (b : Block) (n i : ℕ) (ctx ctx' : DirContext) : Type 0 where
  pub number : ℕ
  pub within_entries : i + number ≤ n
  pub moves : i < n → e.has_room ctx.emitted ≡ true → 0 < number
  pub result : ctx' ≡ emitted_more b i number ctx

pub emit_entries-Emits :
    (e : Emitter) (rounds i n : ℕ) (b : Block) (ctx : DirContext)
    → IsPacked b n
    → i ≤ n
    → i + rounds ≡ 128
    → Emits e b n i ctx (emit_entries e rounds i b ctx)
unfolding emit_entries
emit_entries-Emits e zero i n b ctx p le all = record {
  number = 0;
  within_entries = omega arith;
  moves = λ lt room. absurd (omega (arith, p.fits));
  result = emitted_none b i ctx;
}
emit_entries-Emits e (suc rounds) i n b ctx p le all = elim (Bool-cases (entry_inode b i == 0)) [
  | inl free ↦ rw free (record {
    number = 0;
    within_entries = omega (arith, le);
    moves = λ lt room. absurd (p.in_use i lt (ground (arith, free)));
    result = emitted_none b i ctx;
  })
  | inr used ↦ elim (Bool-cases (e.has_room ctx.emitted)) [
    | inl room ↦
        let rest =
          emit_entries-Emits e rounds (i + 1) n b (emit (entry_at b i) ctx) p (below used)
            (omega arith) in
        rw (used, room)
          (record {
            number = suc rest.number;
            within_entries = omega (arith, rest.within_entries);
            moves = λ _ _. omega arith;
            result = rest.result ∙ emitted_one b i rest.number ctx;
          })
    | inr full ↦
        rw (used, full)
          (record {
            number = 0;
            within_entries = omega (arith, le);
            moves = λ lt room. cc (room, full);
            result = emitted_none b i ctx;
          })
  ]
]
  where
    below : (entry_inode b i == 0) ≡ false → i + 1 ≤ n
    below used = ground (arith, used, p.free i)

-- What some calls emit and what the later ones do.
pub entries_split :
    (b : Block) (i c n : ℕ) (out : List (ℕ × Block))
    → i + c ≤ n
    → (out ++ entries b i c) ++ entries b (i + c) (n - (i + c)) ≡ out ++ entries b i (n - i)
entries_split b i c n out h =
    append_assoc out (entries b i c) (entries b (i + c) (n - (i + c)))
    ∙ ap (λ l. out ++ l) (entries-add b i c (n - (i + c)) ∙ ap (entries b i) whole)
  where
    whole : c + (n - (i + c)) ≡ n - i
    whole = omega (arith, h)
