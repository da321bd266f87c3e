-- ===== src/File/BigBytes.antt =====
-- Big files: the bytes of a block, and what one round of custom_read_iter delivers.
use lkp_project.Prelude.{
  ==_self, sym, ◌∙◌, ◌⊎◌, ℕ, suc, ◌+◌, ◌-◌, ◌/◌, ◌%◌, ◌≤◌, ◌<◌, true, false, ◌==◌, if◌then◌else◌,
  ◌≡◌, arith, refl, ap, Bool-cases, inl, inr,
}
use lkp_project.Kernel.{Kernel}
use lkp_project.Block.{Block, memcpy, block_size}
use lkp_project.State.{Fs, ok}
use lkp_project.File.Reads.{index_entry, read_block}
use lkp_project.File.SmallReads.{Succeeds, full_copy}

-- The byte at position `p` of the file with the given index block: 0 in a hole.
unfoldable pub big_byte : (ℕ → Block) → ℕ → ℕ → ℕ
big_byte disk index_block p =
    let entry = index_entry (disk index_block) (p / block_size) in
    if entry == 0 then 0 else disk entry (p % block_size)

-- `fs'` is `fs` after the first `n` bytes of `src` were given to the user.
pub record Delivers (src : Block) (n : ℕ) (fs fs' : Fs) : Type 0 where
  pub bytes : (j : ℕ) → j < n → fs'.io.sink (fs.io.filled + j) ≡ src j
  pub before : (j : ℕ) → j < fs.io.filled → fs'.io.sink j ≡ fs.io.sink j
  pub filled : fs'.io.filled ≡ fs.io.filled + n
  pub count : fs'.io.count ≡ fs.io.count - n
  pub sbi : fs'.sbi ≡ fs.sbi
  pub disk : fs'.disk ≡ fs.disk
  pub inodes : fs'.inodes ≡ fs.inodes

below-or-past : (j n : ℕ) → (j < n) ⊎ (n + (j - n) ≡ j)
below-or-past j n = omega arith

-- Two deliveries in a row.
pub Delivers-trans :
    {src : Block} {n m : ℕ} {fs fs' fs'' : Fs}
    → Delivers src n fs fs'
    → Delivers (λ j. src (n + j)) m fs' fs''
    → Delivers src (n + m) fs fs''
Delivers-trans {src} {n} {m} {fs} {fs'} {fs''} one two = record {
  bytes = joined;
  before = λ j p. two.before j (omega (arith, one.filled)) ∙ one.before j p;
  filled = omega (arith, one.filled, two.filled);
  count = omega (arith, one.count, two.count);
  sbi = two.sbi ∙ one.sbi;
  disk = two.disk ∙ one.disk;
  inodes = two.inodes ∙ one.inodes;
}
  where
    later : (j : ℕ) → j < m → fs''.io.sink (fs.io.filled + (n + j)) ≡ src (n + j)
    later j p = ap fs''.io.sink (omega (arith, one.filled)) ∙ two.bytes j p

    joined : (j : ℕ) → j < n + m → fs''.io.sink (fs.io.filled + j) ≡ src j
    joined j p = elim (below-or-past j n) [
      | inl lt ↦ two.before (fs.io.filled + j) (omega (arith, one.filled)) ∙ one.bytes j lt
      | inr ge ↦ rw (sym ge) (later (j - n) (omega arith))
    ]

-- The same delivery with the bytes described otherwise, and from a state with other calls behind it.
pub Delivers-ext :
    {src src' : Block} {n calls : ℕ} {fs fs' : Fs}
    → ((j : ℕ) → j < n → src j ≡ src' j)
    → Delivers src n (record fs { calls = calls }) fs'
    → Delivers src' n fs fs'
Delivers-ext same one = record {
  bytes = λ j p. one.bytes j p ∙ same j p;
  before = one.before;
  filled = one.filled;
  count = one.count;
  sbi = one.sbi;
  disk = one.disk;
  inodes = one.inodes;
}

-- The bytes of one block of the file.
big_byte-hole :
    (disk : ℕ → Block) (index_block pos n j : ℕ)
    → pos % block_size + n ≤ block_size
    → j < n
    → (index_entry (disk index_block) (pos / block_size) == 0) ≡ true
    → big_byte disk index_block (pos + j) ≡ 0
unfolding big_byte
big_byte-hole disk index_block pos n j fits lt hole =
    let same_block : (pos + j) / block_size ≡ pos / block_size = omega arith in
    rw (same_block, hole) refl

big_byte-there :
    (disk : ℕ → Block) (index_block pos n j : ℕ)
    → pos % block_size + n ≤ block_size
    → j < n
    → (index_entry (disk index_block) (pos / block_size) == 0) ≡ false
    → big_byte disk index_block (pos + j)
      ≡ disk (index_entry (disk index_block) (pos / block_size)) (pos % block_size + j)
unfolding big_byte
big_byte-there disk index_block pos n j fits lt there =
    let same_block : (pos + j) / block_size ≡ pos / block_size = omega arith in
    let offset : (pos + j) % block_size ≡ pos % block_size + j = omega arith in
    rw (same_block, there, offset) refl

module _ {k : Kernel} (s : Succeeds k) where
  delivered : Block → ℕ → Fs → Fs
  delivered src n fs = record fs {
    io = record fs.io {
      count = fs.io.count - n;
      sink = memcpy fs.io.sink fs.io.filled src n;
      filled = fs.io.filled + n;
    };
    calls = suc fs.calls;
  }

  delivered-Delivers : (src : Block) (n : ℕ) (fs : Fs) → Delivers src n fs (delivered src n fs)
  unfolding delivered memcpy
  delivered-Delivers src n fs = record {
    bytes = λ j p. ground (arith, ap src (back j));
    before = λ j p. ground arith;
    filled = refl;
    count = refl;
    sbi = refl;
    disk = refl;
    inodes = refl;
  }
    where
      back : (j : ℕ) → fs.io.filled + j - fs.io.filled ≡ j
      back j = omega arith

  pub read_block_lem :
      (index_block pos n : ℕ) (fs : Fs)
      → n ≤ fs.io.count
      → pos % block_size + n ≤ block_size
      → (fs' : Fs) × (read_block k
            (index_entry (fs.disk index_block) (pos / block_size))
            (pos % block_size)
            n
            fs
          ≡ ok tt fs')
        × Delivers (λ j. big_byte fs.disk index_block (pos + j)) n fs fs'
  unfolding delivered
  read_block_lem index_block pos n fs le fits = elim (Bool-cases (entry == 0)) [
    | inl hole ↦ (
      delivered (λ _. 0) n fs,
      unfold read_block in rw (hole, full_copy s fs.calls n fs.io.count le, ==_self n) refl,
      Delivers-ext (λ j p. sym (big_byte-hole fs.disk index_block pos n j fits p hole))
          (delivered-Delivers (λ _. 0) n fs),
    )
    | inr there ↦ (
      delivered (bytes) n now,
      unfold read_block in
          rw (there, s.reads fs.calls entry, full_copy s (suc fs.calls) n fs.io.count le, ==_self n)
            refl,
      Delivers-ext (λ j p. sym (big_byte-there fs.disk index_block pos n j fits p there))
          (delivered-Delivers (bytes) n now),
    )
  ]
    where
      entry : ℕ
      entry = index_entry (fs.disk index_block) (pos / block_size)

      now : Fs
      now = record fs { calls = suc fs.calls }

      bytes : Block
      bytes j = fs.disk entry (pos % block_size + j)
