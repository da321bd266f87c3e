-- ===== src/Store/RoundTrip.antt =====
-- The fields of an inode on disk, stored and loaded.
use lkp_project.Block.Fields.{get_u16}
use lkp_project.Prelude.{ap, inr, ap, ℕ, ◌+◌, ◌/◌, ◌%◌, ◌^◌, ◌<◌, ◌≡◌, refl, arith, some, ◌∙◌}
use lkp_project.Kernel.{Timespec}
use lkp_project.Block.{Block, get_u32}
use lkp_project.Block.Fields.{
  get_u64, word_at, set_words, get_u32-set_words, get_u16-set_u16_self, get_u32-set_u16_apart,
  stored_or,
}
use lkp_project.State.{InodeInfo}
use lkp_project.Store.{store_inode, load_inode, inode_words}

-- The times and numbers of an inode that the disk has room for.
pub record FitsDisk (ci : InodeInfo) : Type 0 where
  pub mode : ci.i_mode < 2 ^ 32
  pub uid : ci.i_uid < 2 ^ 32
  pub gid : ci.i_gid < 2 ^ 32
  pub size : ci.i_size < 2 ^ 32
  pub ctime : (ci.i_ctime.tv_sec < 2 ^ 32) × (ci.i_ctime.tv_nsec < 2 ^ 64)
  pub atime : (ci.i_atime.tv_sec < 2 ^ 32) × (ci.i_atime.tv_nsec < 2 ^ 64)
  pub mtime : (ci.i_mtime.tv_sec < 2 ^ 32) × (ci.i_mtime.tv_nsec < 2 ^ 64)
  pub blocks : ci.i_blocks < 2 ^ 32
  pub nlink : ci.i_nlink < 2 ^ 32
  pub index : ci.index_block < 2 ^ 32
  pub slices : ci.num_slices < 2 ^ 16

module _ (base : ℕ) (ci : InodeInfo) (b : Block) where
  -- The word at an offset of the stored inode.
  stored_word :
      (p v : ℕ)
      → p % 4 ≡ 0
      → p < 76
      → word_at p (inode_words ci) ≡ some v
      → get_u32 (store_inode base ci b) (base + p) ≡ v % 2 ^ 32
  unfolding store_inode
  stored_word p v aligned low there =
      get_u32-set_u16_apart (set_words base (inode_words ci) b) (base + 76) (base + p) ci.num_slices
        (inr (omega arith))
      ∙ get_u32-set_words base p (inode_words ci) b refl aligned
      ∙ ap (stored_or (get_u32 b (base + p))) there

  small_word :
      (p v : ℕ)
      → p % 4 ≡ 0
      → p < 76
      → word_at p (inode_words ci) ≡ some v
      → v < 2 ^ 32
      → get_u32 (store_inode base ci b) (base + p) ≡ v
  small_word p v aligned low there fits = stored_word p v aligned low there ∙ omega arith

  -- A 64-bit field, as two words.
  long_word :
      (p v : ℕ)
      → p % 4 ≡ 0
      → p < 72
      → word_at p (inode_words ci) ≡ some v
      → word_at (p + 4) (inode_words ci) ≡ some (v / 2 ^ 32)
      → v < 2 ^ 64
      → get_u64 (store_inode base ci b) (base + p) ≡ v
  long_word p v aligned low there after fits =
      let same : base + p + 4 ≡ base + (p + 4) = omega arith in
      rw
        (
          same,
          stored_word p v aligned (omega arith) there,
          stored_word (p + 4) (v / 2 ^ 32) (omega arith) (omega arith) after,
        )
        (omega arith)

  stored_time :
      (p q : ℕ) (t : Timespec)
      → get_u32 (store_inode base ci b) (base + p) ≡ t.tv_sec
      → get_u64 (store_inode base ci b) (base + q) ≡ t.tv_nsec
      → record {
        tv_sec = get_u32 (store_inode base ci b) (base + p);
        tv_nsec = get_u64 (store_inode base ci b) (base + q);
      }
        ≡ t
  stored_time p q t sec nsec = λ i. record { tv_sec = sec i; tv_nsec = nsec i }

  pub load_inode-store_inode : FitsDisk ci → load_inode base (store_inode base ci b) ≡ ci
  unfolding load_inode
  load_inode-store_inode fits = λ i. record {
    i_mode = small_word 0 ci.i_mode refl (omega arith) refl fits.mode i;
    i_uid = small_word 4 ci.i_uid refl (omega arith) refl fits.uid i;
    i_gid = small_word 8 ci.i_gid refl (omega arith) refl fits.gid i;
    i_size = small_word 12 ci.i_size refl (omega arith) refl fits.size i;
    i_ctime =
        stored_time 16 24 ci.i_ctime
          (small_word 16 ci.i_ctime.tv_sec refl (omega arith) refl fits.ctime.0)
          (long_word 24 ci.i_ctime.tv_nsec refl (omega arith) refl refl fits.ctime.1) i;
    i_atime =
        stored_time 32 40 ci.i_atime
          (small_word 32 ci.i_atime.tv_sec refl (omega arith) refl fits.atime.0)
          (long_word 40 ci.i_atime.tv_nsec refl (omega arith) refl refl fits.atime.1) i;
    i_mtime =
        stored_time 48 56 ci.i_mtime
          (small_word 48 ci.i_mtime.tv_sec refl (omega arith) refl fits.mtime.0)
          (long_word 56 ci.i_mtime.tv_nsec refl (omega arith) refl refl fits.mtime.1) i;
    i_blocks = small_word 64 ci.i_blocks refl (omega arith) refl fits.blocks i;
    i_nlink = small_word 68 ci.i_nlink refl (omega arith) refl fits.nlink i;
    index_block = small_word 72 ci.index_block refl (omega arith) refl fits.index i;
    num_slices = stored_slices fits.slices i;
  }
    where
      stored_slices :
          ci.num_slices < 2 ^ 16 → get_u16 (store_inode base ci b) (base + 76) ≡ ci.num_slices
      stored_slices h =
          unfold store_inode in
          get_u16-set_u16_self (set_words base (inode_words ci) b) (base + 76) ci.num_slices h
