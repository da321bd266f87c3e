-- ===== src/Slice/Swept.antt =====
-- What the second half of delete_slice makes of a list of sliced blocks, block by block.
use lkp_project.Prelude.{
  ℕ, ◌^◌, ◌≤◌, ◌<◌, Bool, true, false, ◌==◌, Option, none, some, List, [], ◌∷◌, ◌≡◌, ◌≢◌, ◌⊎◌, inl,
  inr, refl, ap, ◌∙◌, arith, Bool-cases, ==_iff,
}
use lkp_project.Words.{sub32}
use lkp_project.Kernel.{Kernel}
use lkp_project.Block.{memset}
use lkp_project.Block.Laws.{get_u32-set_u32_self, set_u32_outside}
use lkp_project.State.{SbInfo, Fs}
use lkp_project.Bitmap.{put_block}
use lkp_project.Slice.{sb_next, unlink_block}
use lkp_project.Slice.Chain.{cons, all_free, has, Chain, kept, dropped, has-kept, same_word}

-- What dropping these blocks makes of the super block information, but for the list's head.
abbrev pub put_blocks : Kernel → List ℕ → SbInfo → SbInfo
put_blocks k [] sbi = sbi
put_blocks k (b ∷ xs) sbi =
    put_blocks k xs (put_block k (record sbi { nr_sliced_blocks = sub32 sbi.nr_sliced_blocks 1 }) b)

abbrev pub with_head : ℕ → SbInfo → SbInfo
with_head head sbi = record sbi { s_free_sliced_blocks = head }

-- Where the link that leads to the current block is kept.
abbrev pub link_of : Option ℕ → Fs → ℕ
link_of none fs = fs.sbi.s_free_sliced_blocks
link_of (some prev) fs = sb_next (fs.disk prev)

abbrev is_prev : Option ℕ → ℕ → Bool
is_prev none b = false
is_prev (some p) b = b == p

-- `fs'` is `fs` after the sweep of the list `xs` that `prev` leads to.
pub record IsSwept (k : Kernel) (prev : Option ℕ) (xs : List ℕ) (fs fs' : Fs) : Type 0 where
  pub chain : Chain fs'.disk (link_of prev fs') (kept fs.disk xs)
  pub sbi :
      fs'.sbi ≡ with_head fs'.sbi.s_free_sliced_blocks (put_blocks k (dropped fs.disk xs) fs.sbi)
  pub zeroed : (b j : ℕ) → has b (dropped fs.disk xs) ≡ true → j < 4096 → fs'.disk b j ≡ 0
  pub data_kept :
      (b j : ℕ)
      → has b (dropped fs.disk xs) ≡ false
      → (j < 4) ⊎ (8 ≤ j)
      → fs'.disk b j ≡ fs.disk b j
  pub outside : (b j : ℕ) → has b xs ≡ false → is_prev prev b ≡ false → fs'.disk b j ≡ fs.disk b j
  pub inodes : fs'.inodes ≡ fs.inodes
  pub head : (p : ℕ) → prev ≡ some p → fs'.sbi.s_free_sliced_blocks ≡ fs.sbi.s_free_sliced_blocks

-- The previous block is none of `xs`.
abbrev pub Apart : Option ℕ → List ℕ → Type 0
Apart prev xs = (c : ℕ) → has c xs ≡ true → is_prev prev c ≡ false

put_block-with_head :
    (k : Kernel) (h b : ℕ) (sbi : SbInfo)
    → put_block k (with_head h sbi) b ≡ with_head h (put_block k sbi b)
unfolding put_block
put_block-with_head k h b sbi = ground arith

put_blocks-with_head :
    (k : Kernel) (h : ℕ) (xs : List ℕ) (sbi : SbInfo)
    → put_blocks k xs (with_head h sbi) ≡ with_head h (put_blocks k xs sbi)
put_blocks-with_head k h [] sbi = refl
put_blocks-with_head k h (b ∷ xs) sbi =
    rw (put_block-with_head k h b (record sbi { nr_sliced_blocks = sub32 sbi.nr_sliced_blocks 1 }))
      (put_blocks-with_head k h xs _)

-- One block dropped.
pub record IsUnlinked (k : Kernel) (prev : Option ℕ) (b next : ℕ) (fs fs' : Fs) : Type 0 where
  pub link : link_of prev fs' ≡ next
  pub zeroed : (j : ℕ) → j < 4096 → fs'.disk b j ≡ 0
  pub others :
      (c j : ℕ)
      → c ≢ b
      → (is_prev prev c ≡ false) ⊎ ((j < 4) ⊎ (8 ≤ j))
      → fs'.disk c j ≡ fs.disk c j
  pub sbi :
      fs'.sbi
      ≡ with_head fs'.sbi.s_free_sliced_blocks
          (put_block k (record fs.sbi { nr_sliced_blocks = sub32 fs.sbi.nr_sliced_blocks 1 }) b)
  pub inodes : fs'.inodes ≡ fs.inodes
  pub head : (p : ℕ) → prev ≡ some p → fs'.sbi.s_free_sliced_blocks ≡ fs.sbi.s_free_sliced_blocks

pub unlink_block_lem :
    (k : Kernel) (prev : Option ℕ) (b next : ℕ) (fs : Fs)
    → is_prev prev b ≡ false
    → next < 2 ^ 32
    → IsUnlinked k prev b next fs (unlink_block k prev b next fs)
unfolding unlink_block memset put_block
unlink_block_lem k none b next fs apart lt = record {
  link = ground arith;
  zeroed = λ j p. ground arith;
  others = λ c j p q. ground arith;
  sbi = ground arith;
  inodes = refl;
  head = λ p e. absurd (cc);
}
unlink_block_lem k (some p) b next fs apart lt = record {
  link = ground (arith, get_u32-set_u32_self (fs.disk p) 4 next lt);
  zeroed = λ j p. ground arith;
  others = λ c j q r. ground (arith, set_u32_outside (fs.disk p) 4 next j);
  sbi = ground arith;
  inodes = refl;
  head = λ p e. ground arith;
}

module _ (k : Kernel) where
  link-keep :
      (prev : Option ℕ) (b : ℕ) (xs : List ℕ) (fs fs' : Fs)
      → Apart prev (b ∷ xs)
      → link_of prev fs ≡ b
      → IsSwept k (some b) xs fs fs'
      → link_of prev fs' ≡ b
  link-keep none b xs fs fs' apart link rest = rest.head b refl ∙ link
  link-keep (some p) b xs fs fs' apart link rest =
      same_word fs.disk fs'.disk p 4
        (λ j. rest.outside p j (ground (arith, apart p)) (ground (arith, apart p)))
      ∙ link

  -- A block that stays becomes the previous one.
  pub IsSwept-keep :
      (prev : Option ℕ) (b : ℕ) (xs : List ℕ) (fs fs' : Fs)
      → b ≢ 0
      → all_free (fs.disk b) ≡ false
      → has b xs ≡ false
      → Apart prev (b ∷ xs)
      → link_of prev fs ≡ b
      → IsSwept k (some b) xs fs fs'
      → IsSwept k prev (b ∷ xs) fs fs'
  IsSwept-keep prev b xs fs fs' ne stays out apart link rest = record {
    chain =
        rw (stays, link-keep prev b xs fs fs' apart link rest)
          (cons (sb_next (fs'.disk b)) ne refl (has-kept fs.disk b xs out) rest.chain);
    sbi = rw stays rest.sbi;
    zeroed = rw stays rest.zeroed;
    data_kept = rw stays rest.data_kept;
    outside = λ c j p q. rest.outside c j (ground arith) (ground arith);
    inodes = rest.inodes;
    head = λ p e. rest.head b refl;
  }

  -- A block that goes leaves the previous one in its place.
  pub IsSwept-drop :
      (prev : Option ℕ) (b next : ℕ) (xs : List ℕ) (fs mid fs' : Fs)
      → all_free (fs.disk b) ≡ true
      → has b xs ≡ false
      → Apart prev (b ∷ xs)
      → IsUnlinked k prev b next fs mid
      → kept mid.disk xs ≡ kept fs.disk xs
      → dropped mid.disk xs ≡ dropped fs.disk xs
      → IsSwept k prev xs mid fs'
      → IsSwept k prev (b ∷ xs) fs fs'
  IsSwept-drop prev b next xs fs mid fs' goes out apart gone same_kept same_dropped rest = record {
    chain = rw (goes, ← same_kept) rest.chain;
    sbi = rw (goes, ← same_dropped) sbi_lem;
    zeroed = rw goes (λ c j p q. elim (Bool-cases (c == b)) [
      | inl e ↦
          let same : c ≡ b = (==_iff c b).0 e in
          rw same (rest.outside b j out (apart b (ground arith)) ∙ gone.zeroed j q)
      | inr e ↦ rest.zeroed c j (rw same_dropped (ground arith)) q
    ]);
    data_kept = rw goes (λ c j p q.
        rest.data_kept c j (rw same_dropped (ground arith)) q
        ∙ gone.others c j (ground arith) (inr q));
    outside = λ c j p q. rest.outside c j (ground arith) q ∙ gone.others c j (ground arith) (inl q);
    inodes = rest.inodes ∙ gone.inodes;
    head = λ p e. rest.head p e ∙ gone.head p e;
  }
    where
      gone_sbi : SbInfo
      gone_sbi =
          put_block k (record fs.sbi { nr_sliced_blocks = sub32 fs.sbi.nr_sliced_blocks 1 }) b

      sbi_lem :
          fs'.sbi
          ≡ with_head fs'.sbi.s_free_sliced_blocks (put_blocks k (dropped mid.disk xs) gone_sbi)
      sbi_lem =
          rest.sbi
          ∙ ap (λ s. with_head fs'.sbi.s_free_sliced_blocks (put_blocks k (dropped mid.disk xs) s))
              gone.sbi
          ∙ ap (with_head fs'.sbi.s_free_sliced_blocks)
              (put_blocks-with_head k mid.sbi.s_free_sliced_blocks (dropped mid.disk xs) gone_sbi)

  pub IsSwept-calls :
      (prev : Option ℕ) (xs : List ℕ) (fs : Fs) (n : ℕ) {fs' : Fs}
      → IsSwept k prev xs (record fs { calls = n }) fs'
      → IsSwept k prev xs fs fs'
  IsSwept-calls prev xs fs n rest = record {
    chain = rest.chain;
    sbi = rest.sbi;
    zeroed = rest.zeroed;
    data_kept = rest.data_kept;
    outside = rest.outside;
    inodes = rest.inodes;
    head = rest.head;
  }
