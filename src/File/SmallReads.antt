-- ===== src/File/SmallReads.antt =====
-- Small files: what custom_read_iter delivers.
use lkp_project.Prelude.{
  ==_self, ℕ, suc, ◌+◌, ◌-◌, ◌*◌, ◌/◌, ◌^◌, ◌≤◌, ◌<◌, true, false, ◌||◌, ◌==◌, leb, min, ◌≡◌, ◌≢◌,
  arith, refl, ap,
}
use lkp_project.Kernel.{Kernel}
use lkp_project.Block.{memcpy}
use lkp_project.State.{InodeInfo, Fs, ok}
use lkp_project.Slice.{small_file_get_bno, small_file_get_slice}
use lkp_project.Slice.Index.{small_file_get_slice-lt}
use lkp_project.File.Reads.{is_small_file, read_small, read_count, custom_read_iter}

-- A kernel in which reads of blocks and copies from and to user space succeed.
pub record Succeeds (k : Kernel) : Type 0 where
  pub reads : (t b : ℕ) → k.bread t b ≡ true
  pub copies : (t n : ℕ) → n ≤ k.copied t n

-- The bytes of a small file that has a slice.
abbrev pub small_byte : Fs → ℕ → ℕ → ℕ
small_byte fs ino j =
    fs.disk (small_file_get_bno (fs.inodes ino).index_block)
      (small_file_get_slice (fs.inodes ino).index_block * 128 + j)

-- An inode that stands for a small file with a slice.
pub record IsSmall (ci : InodeInfo) : Type 0 where
  pub no_blocks : ci.i_blocks ≡ 0
  pub word : ci.index_block < 2 ^ 32
  pub block : small_file_get_bno ci.index_block ≢ 0
  pub slice : small_file_get_slice ci.index_block ≢ 0

module _ {k : Kernel} (s : Succeeds k) where
  pub full_copy : (t n count : ℕ) → n ≤ count → min (k.copied t n) (min n count) ≡ n
  full_copy t n count h = omega (arith, s.copies t n)

  -- The state after a read of `n` bytes of a small file.
  abbrev read_state : ℕ → ℕ → Fs → Fs
  read_state ino n fs = record fs {
    io = record fs.io {
      ki_pos = n;
      count = fs.io.count - n;
      sink = memcpy fs.io.sink fs.io.filled (small_byte fs ino) n;
      filled = fs.io.filled + n;
    };
    calls = suc (suc fs.calls);
  }

  read_small_ok :
      (ino n : ℕ) (fs : Fs)
      → IsSmall (fs.inodes ino)
      → n ≤ fs.io.count
      → read_small k (fs.inodes ino) n fs ≡ ok n (read_state ino n fs)
  unfolding read_small
  read_small_ok ino n fs small le =
      rw (s.reads fs.calls _, some_slice, full_copy (suc fs.calls) n fs.io.count le, ==_self n)
    where
      some_slice :
          (small_file_get_slice (fs.inodes ino).index_block == 0
            || leb (128 / 4) (small_file_get_slice (fs.inodes ino).index_block))
          ≡ false
      some_slice = ground (arith, small.slice, small_file_get_slice-lt (fs.inodes ino).index_block)

  -- A read of a small file ends normally, gives as many bytes as there are behind the position and
  -- are asked for, and the bytes are those from the start of the file, wherever the position is.
  pub custom_read_iter_small :
      (ino : ℕ) (fs : Fs)
      → IsSmall (fs.inodes ino)
      → fs.io.ki_pos < (fs.inodes ino).i_size
      → 0 < fs.io.count
      → let n = min fs.io.count ((fs.inodes ino).i_size - fs.io.ki_pos) in
        (fs' : Fs) × (custom_read_iter k ino fs ≡ ok n fs')
        × ((j : ℕ) → j < n → fs'.io.sink (fs.io.filled + j) ≡ small_byte fs ino j)
        × (fs'.io.ki_pos ≡ n)
        × (fs'.disk ≡ fs.disk)
        × (fs'.inodes ≡ fs.inodes)
  custom_read_iter_small ino fs small before asked =
      (read_state ino n fs, runs, delivered, refl, refl, refl)
    where
      n : ℕ
      n = min fs.io.count ((fs.inodes ino).i_size - fs.io.ki_pos)

      inside : leb (fs.inodes ino).i_size fs.io.ki_pos ≡ false
      inside = ground arith

      limited : read_count fs.io.ki_pos fs.io.count (fs.inodes ino).i_size ≡ n
      limited = ground arith

      some_bytes : (n == 0) ≡ false
      some_bytes = ground arith

      is_small : is_small_file (fs.inodes ino) ≡ true
      is_small = unfold is_small_file in ground (arith, small.no_blocks)

      runs : custom_read_iter k ino fs ≡ ok n (read_state ino n fs)
      runs =
          unfold custom_read_iter in
          rw (inside, limited, some_bytes, is_small) (read_small_ok ino n fs small (omega arith))

      delivered :
          (j : ℕ) → j < n → (read_state ino n fs).io.sink (fs.io.filled + j) ≡ small_byte fs ino j
      delivered j lt = unfold memcpy in ground (arith, ap (small_byte fs ino) (back j))
        where
          back : (j : ℕ) → fs.io.filled + j - fs.io.filled ≡ j
          back j = omega arith
