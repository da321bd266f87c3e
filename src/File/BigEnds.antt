-- ===== src/File/BigEnds.antt =====
-- write_big_file: its end, and what it leaves in the inode.
use lkp_project.Prelude.{
  ◌∙◌, ℕ, zero, suc, ◌+◌, ◌-◌, ◌/◌, ◌%◌, ◌<◌, true, false, Bool, ◌==◌, leb, ltb, min, max,
  if◌then◌else◌, ◌≡◌, ◌≢◌, arith, refl, ap, Bool-cases, inl, inr, sym, update, ==_self,
}
use lkp_project.Words.{div_round_up}
use lkp_project.Kernel.{Kernel}
use lkp_project.Block.{block_size}
use lkp_project.Bitmap.{get_free_block}
use lkp_project.State.{
  out_of_fuel, panic, and_then, Run, panic, and_then, Run, InodeInfo, Fs, ok, fail, M,
}
use lkp_project.File.Reads.{index_entry, max_links}
use lkp_project.File.InPlace.{start_of}
use lkp_project.File.Outcomes.{ends, After}
use lkp_project.File.BigWrites.{
  block_of, write_block, write_to_block, write_blocks, finish_big, index_block_of, lacks_blocks,
  write_big_file,
}

-- The run ends, and `p` holds of what it returns, if it returns.
pub record Ends {A : Type 0} (p : A → Fs → Type 0) (r : Run A) : Type 0 where
  pub ended : ends r ≡ true
  pub after : After p r

pub Ends-and_then :
    {A B : Type 0} (p : A → Fs → Type 0) (q : B → Fs → Type 0) (r : Run A) (f : A → M B)
    → Ends p r
    → ((a : A) (fs : Fs) → p a fs → Ends q (f a fs))
    → Ends q (and_then r f)
Ends-and_then p q (ok a fs) f e go = go a fs e.after
Ends-and_then p q (fail er fs) f e go = record { ended = refl; after = tt }
Ends-and_then p q (panic fs) f e go = record { ended = refl; after = tt }
Ends-and_then p q out_of_fuel f e go = absurd (ground (arith, e.ended))

pub Ends-map :
    {A : Type 0} (p q : A → Fs → Type 0) (r : Run A)
    → Ends p r
    → ((a : A) (fs : Fs) → p a fs → q a fs)
    → Ends q r
Ends-map p q (ok a fs) e go = record { ended = refl; after = go a fs e.after }
Ends-map p q (fail er fs) e go = record { ended = refl; after = tt }
Ends-map p q (panic fs) e go = record { ended = refl; after = tt }
Ends-map p q out_of_fuel e go = absurd (ground (arith, e.ended))

module _ (k : Kernel) where
  -- What a round keeps: the inodes.
  abbrev Keeps : {A : Type 0} → (ℕ → InodeInfo) → A → Fs → Type 0
  Keeps inodes a fs = fs.inodes ≡ inodes

  block_of-Ends :
      (index_block block_idx : ℕ) (fs : Fs)
      → Ends (Keeps fs.inodes) (block_of k index_block block_idx fs)
  unfolding block_of
  block_of-Ends index_block block_idx fs =
      elim (Bool-cases (index_entry (fs.disk index_block) block_idx == 0)) [
        | inr there ↦ rw there (record { ended = refl; after = refl })
        | inl hole ↦ rw hole (elim (Bool-cases ((get_free_block k fs.sbi).0 == 0)) [
          | inl full ↦ rw full (record { ended = refl; after = tt })
          | inr got ↦ rw got (record { ended = refl; after = refl })
        ])
      ]

  write_block-Ends :
      (ino index_block pos to_write : ℕ) (fs : Fs)
      → Ends (Keeps fs.inodes) (write_block k ino index_block pos to_write fs)
  unfolding write_block write_to_block
  write_block-Ends ino index_block pos to_write fs =
      Ends-and_then {B = Unit {0}} (Keeps fs.inodes) _
        (block_of k index_block (pos / block_size) fs) _
        (block_of-Ends index_block (pos / block_size) fs)
        (λ physical_block fs1 same. rw (sym same) (fill physical_block fs1))
    where
      moved : Fs → ℕ
      moved fs1 = min (k.copied (suc fs1.calls) to_write) (min to_write fs1.io.count)

      fill :
          (physical_block : ℕ) (fs1 : Fs)
          → Ends (Keeps fs1.inodes) (write_to_block k ino physical_block pos to_write fs1)
      fill physical_block fs1 = elim (Bool-cases (k.bread fs1.calls physical_block)) [
        | inr lost ↦ rw lost (record { ended = refl; after = tt })
        | inl got ↦ rw got (elim (Bool-cases (moved fs1 == to_write)) [
          | inr short ↦ rw short (record { ended = refl; after = tt })
          | inl all ↦ rw all (record { ended = refl; after = refl })
        ])
      ]

  write_blocks-Ends :
      (fuel ino index_block pos count : ℕ) (fs : Fs)
      → count < fuel
      → Ends
          (λ p fs'. (p ≡ pos + count) × (fs'.inodes ≡ fs.inodes))
          (write_blocks k fuel ino index_block pos count fs)
  unfolding write_blocks
  write_blocks-Ends zero ino index_block pos count fs enough = absurd (omega arith)
  write_blocks-Ends (suc fuel) ino index_block pos count fs enough =
      elim (Bool-cases (count == 0)) [
        | inl done ↦ rw done (record { ended = refl; after = (ground (arith, done), refl) })
        | inr more ↦ rw more (elim (Bool-cases (leb max_links (pos / block_size))) [
          | inl far ↦ rw far (record { ended = refl; after = tt })
          | inr near ↦ rw near (
              Ends-and_then {B = ℕ} (Keeps fs.inodes) _
                (write_block k ino index_block pos to_write fs) _
                (write_block-Ends ino index_block pos to_write fs)
                (λ u fs1 same.
                  Ends-map _ _ _
                    (write_blocks-Ends fuel ino index_block (pos + to_write) (count - to_write) fs1
                      (ground (arith, more)))
                    (λ p fs2 (e, kept). (omega arith, kept ∙ same))))
        ])
      ]
    where
      to_write : ℕ
      to_write = min count (block_size - pos % block_size)

  -- After index_block_of: only the inode's index_block may be another.
  HasIndex : ℕ → Fs → ℕ → Fs → Type 0
  HasIndex ino fs bno fs' =
      (bno ≢ 0)
      × ((fs'.inodes ino) ≡ record (fs.inodes ino) { index_block = bno })
      × ((i : ℕ) → i ≢ ino → fs'.inodes i ≡ fs.inodes i)
      × ((fs.inodes ino).index_block ≢ 0 → bno ≡ (fs.inodes ino).index_block)

  index_block_of-Ends : (ino : ℕ) (fs : Fs) → Ends (HasIndex ino fs) (index_block_of k ino fs)
  unfolding index_block_of HasIndex
  index_block_of-Ends ino fs = elim (Bool-cases ((fs.inodes ino).index_block == 0)) [
    | inr has ↦
        rw has (record { ended = refl; after = (different _ has, refl, λ i p. refl, λ some. refl) })
    | inl none ↦ rw none (elim (Bool-cases ((get_free_block k fs.sbi).0 == 0)) [
      | inl full ↦ rw full (record { ended = refl; after = tt })
      | inr got ↦ rw got (record {
        ended = refl;
        after = (
          different _ got,
          rw (==_self ino) refl,
          λ i p. ground arith,
          λ some. absurd (some (ground (arith, none))),
        );
      })
    ])
  ]
    where
      different : (n : ℕ) → (n == 0) ≡ false → n ≢ 0
      different n h = ground (arith, h)

  -- What a successful write_big_file leaves.
  pub record BigWritten (ino : ℕ) (fs : Fs) (ret : ℕ) (fs' : Fs) : Type 0 where
    pub all : ret ≡ fs.io.count
    pub size :
        (fs'.inodes ino).i_size
        ≡ max (start_of (fs.inodes ino) fs + fs.io.count) (fs.inodes ino).i_size
    pub blocks : (fs'.inodes ino).i_blocks ≡ div_round_up (fs'.inodes ino).i_size block_size + 1
    pub index : (fs'.inodes ino).index_block ≢ 0
    pub same_index :
        (fs.inodes ino).index_block ≢ 0 → (fs'.inodes ino).index_block ≡ (fs.inodes ino).index_block
    pub position : fs'.io.ki_pos ≡ start_of (fs.inodes ino) fs + fs.io.count
    pub others : (i : ℕ) → i ≢ ino → fs'.inodes i ≡ fs.inodes i

  finish_big-Ends :
      (ino pos bno : ℕ) (fs fs1 fs2 : Fs)
      → HasIndex ino fs bno fs1
      → fs2.inodes ≡ fs1.inodes
      → pos ≡ start_of (fs.inodes ino) fs + fs.io.count
      → Ends (λ u fs'. BigWritten ino fs fs.io.count fs') (finish_big k ino pos fs2)
  unfolding finish_big HasIndex
  finish_big-Ends ino pos bno fs fs1 fs2 (some, e, rest, kept) same at = record {
    ended = refl;
    after = record {
      all = refl;
      size =
          ap (λ ci. ci.i_size) at_ino
          ∙ new_size (fs2.inodes ino).i_size
              (ap (λ f. (f ino).i_size) same ∙ ap (λ ci. ci.i_size) e);
      blocks =
          ap (λ ci. ci.i_blocks) at_ino
          ∙ ap (λ ci. div_round_up ci.i_size block_size + 1) (sym at_ino);
      index = λ z. some (
          sym (ap (λ f. (f ino).index_block) same ∙ ap (λ ci. ci.index_block) e)
          ∙ sym (ap (λ ci. ci.index_block) at_ino)
          ∙ z);
      same_index = λ had.
          ap (λ ci. ci.index_block) at_ino
          ∙ ap (λ f. (f ino).index_block) same
          ∙ ap (λ ci. ci.index_block) e
          ∙ kept had;
      position = at;
      others = λ i p. elsewhere i p ∙ ap (λ f. f i) same ∙ rest i p;
    };
  }
    where
      new : InodeInfo
      new =
          let size = if ltb (fs2.inodes ino).i_size pos then pos else (fs2.inodes ino).i_size in
          record (fs2.inodes ino) {
            i_size = size;
            i_blocks = div_round_up size block_size + 1;
            i_mtime = k.now fs2.calls;
            i_ctime = k.now fs2.calls;
          }

      at_ino : update fs2.inodes ino new ino ≡ new
      at_ino = rw (==_self ino) refl

      elsewhere : (i : ℕ) → i ≢ ino → update fs2.inodes ino new i ≡ fs2.inodes i
      elsewhere i p = ground arith

      new_size :
          (n : ℕ)
          → n ≡ (fs.inodes ino).i_size
          → (if ltb n pos then pos else n)
            ≡ max (start_of (fs.inodes ino) fs + fs.io.count) (fs.inodes ino).i_size
      new_size n h = ground (arith, at)

  -- A write of a big file always ends, whatever the kernel's calls give. When it succeeds, it reports
  -- all the bytes, the size is the larger of the old one and the end of the write, the inode has an
  -- index block and counts its blocks from its size, the position is behind the write, and other
  -- inodes are as before.
  pub write_big_file-Ends : (ino : ℕ) (fs : Fs) → Ends (BigWritten ino fs) (write_big_file k ino fs)
  unfolding write_big_file
  write_big_file-Ends ino fs =
      Ends-and_then {B = ℕ} (HasIndex ino fs) _ (index_block_of k ino fs) _
        (index_block_of-Ends ino fs)
        (λ bno fs1 has. elim (Bool-cases (lacks fs1)) [
          | inl few ↦ rw few (record { ended = refl; after = tt })
          | inr enough ↦ rw enough (elim (Bool-cases (k.bread fs1.calls bno)) [
            | inr lost ↦ rw lost (record { ended = refl; after = tt })
            | inl got ↦ rw got (
                Ends-and_then {B = ℕ} _ _
                  (write_blocks k (suc fs.io.count) ino bno pos fs.io.count _) _
                  (write_blocks-Ends (suc fs.io.count) ino bno pos fs.io.count _ (omega arith))
                  (λ end_pos fs2 (e, same).
                    Ends-and_then {B = ℕ} _ _ (finish_big k ino end_pos fs2) _
                      (finish_big-Ends ino end_pos bno fs fs1 fs2 has same e)
                      (λ u fs3 written. record { ended = refl; after = written })))
          ])
        ])
    where
      pos : ℕ
      pos = start_of (fs.inodes ino) fs

      lacks : Fs → Bool
      lacks fs1 =
          lacks_blocks fs1.sbi.nr_free_blocks (fs.inodes ino)
            (max (pos + fs.io.count) (fs.inodes ino).i_size)
