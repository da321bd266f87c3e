-- ===== src/State.antt =====
-- The state of a mounted partition, from ouichefs.h, and the runs of a kernel routine over it.
use lkp_project.Prelude.{◌+◌, min, ◌-◌, ℕ, suc, Bool, update}
use lkp_project.Kernel.{Kernel, Bitmap, Timespec}
use lkp_project.Block.{Block, memcpy}

abbrev pub filename_len : ℕ
filename_len = 28

abbrev pub max_subfiles : ℕ
max_subfiles = 128

abbrev pub max_filesize : ℕ
max_filesize = 4194304

abbrev pub slice_size : ℕ
slice_size = 128

abbrev pub slices_per_sliced_block : ℕ
slices_per_sliced_block = 31

-- struct ouichefs_sb_info, without the kobject and the back reference
pub record SbInfo : Type 0 where
  pub magic : ℕ
  pub nr_blocks : ℕ
  pub nr_inodes : ℕ
  pub nr_istore_blocks : ℕ
  pub nr_ifree_blocks : ℕ
  pub nr_bfree_blocks : ℕ
  pub nr_sliced_blocks : ℕ
  pub nr_free_inodes : ℕ
  pub nr_free_blocks : ℕ
  pub nr_used_slices : ℕ
  pub s_free_sliced_blocks : ℕ
  pub ifree_bitmap : Bitmap
  pub bfree_bitmap : Bitmap

-- struct ouichefs_inode_info with the fields of its vfs_inode that the sources use
pub record InodeInfo : Type 0 where
  pub num_slices : ℕ  -- uint16_t
  pub index_block : ℕ  -- uint32_t
  pub i_mode : ℕ
  pub i_uid : ℕ
  pub i_gid : ℕ
  pub i_size : ℕ  -- loff_t, never negative
  pub i_blocks : ℕ  -- blkcnt_t, 64 bits
  pub i_nlink : ℕ
  pub i_ctime : Timespec
  pub i_atime : Timespec
  pub i_mtime : Timespec

-- The call in progress: struct kiocb and struct iov_iter. `source` holds the bytes that the user
-- still gives from index 0 on, `count` is iov_iter_count, and `sink` holds the `filled` bytes that
-- the user was given.
pub record Io : Type 0 where
  pub ki_pos : ℕ
  pub ki_append : Bool
  pub count : ℕ
  pub source : Block
  pub sink : Block
  pub filled : ℕ

-- The super block, the blocks as the buffer cache shows them, and the inodes in memory by number.
pub record Fs : Type 0 where
  pub sbi : SbInfo
  pub disk : ℕ → Block
  pub inodes : ℕ → InodeInfo
  pub io : Io
  pub calls : ℕ  -- how many calls with an outcome were made

-- The error codes that the sources return, with their numbers.
pub data Errno : Type 0 where
  eperm enoent eio enomem efault eexist enotdir einval enospc efbig enametoolong emlink enotempty :
      Errno

abbrev pub errno_number : Errno → ℕ
errno_number eperm = 1
errno_number enoent = 2
errno_number eio = 5
errno_number enomem = 12
errno_number efault = 14
errno_number eexist = 17
errno_number enotdir = 20
errno_number einval = 22
errno_number efbig = 27
errno_number enospc = 28
errno_number emlink = 31
errno_number enametoolong = 36
errno_number enotempty = 39

-- A routine returns a value or a negative errno, stops the kernel (panic, or a null pointer that
-- is followed), or, in the model, runs out of fuel.
pub data Run (A : Type 0) : Type 0 where
  ok : A → Fs → Run A
  fail : Errno → Fs → Run A
  panic : Fs → Run A
  out_of_fuel : Run A

-- The value and the state of a normal return, or what is given for another outcome.
abbrev pub returned : {A : Type 0} → A → Run A → A
returned d (ok a fs) = a
returned d (fail e fs) = d
returned d (panic fs) = d
returned d out_of_fuel = d

abbrev pub state_of : {A : Type 0} → Fs → Run A → Fs
state_of d (ok a fs) = fs
state_of d (fail e fs) = fs
state_of d (panic fs) = fs
state_of d out_of_fuel = d

abbrev pub M : Type 0 → Type 0
M A = Fs → Run A

abbrev pub pure : {A : Type 0} → A → M A
pure a fs = ok a fs

abbrev pub throw : {A : Type 0} → Errno → M A
throw e fs = fail e fs

module _ {A B : Type 0} where
  abbrev pub and_then : Run A → (A → M B) → Run B
  and_then (ok a fs) f = f a fs
  and_then (fail e fs) f = fail e fs
  and_then (panic fs) f = panic fs
  and_then out_of_fuel f = out_of_fuel

  infixl 5 ◌>>=◌ ◌>>◌
  abbrev pub ◌>>=◌ : M A → (A → M B) → M B
  ◌>>=◌ m f fs = and_then (m fs) f

  abbrev pub ◌>>◌ : M A → M B → M B
  ◌>>◌ m n fs = and_then (m fs) (λ _. n)

  -- `ret = m(); if (ret < 0) …`: the caller looks at the error itself.
  abbrev pub on_fail : M A → (A → M B) → (Errno → M B) → M B
  on_fail m good bad fs = elim (m fs) [
    | ok a fs' ↦ good a fs'
    | fail e fs' ↦ bad e fs'
    | panic fs' ↦ panic fs'
    | out_of_fuel ↦ out_of_fuel
  ]

-- A value read from the state, and a change of the state.
abbrev pub gets : {A : Type 0} → (Fs → A) → M A
gets f fs = ok (f fs) fs

abbrev pub modify : (Fs → Fs) → M (Unit {0})
modify f fs = ok tt (f fs)

abbrev pub with_sbi : (SbInfo → SbInfo) → Fs → Fs
with_sbi f fs = record fs { sbi = f fs.sbi }

abbrev pub with_block : ℕ → (Block → Block) → Fs → Fs
with_block bno f fs = record fs { disk = update fs.disk bno (f (fs.disk bno)) }

abbrev pub with_inode : ℕ → (InodeInfo → InodeInfo) → Fs → Fs
with_inode ino f fs = record fs { inodes = update fs.inodes ino (f (fs.inodes ino)) }

abbrev pub with_io : (Io → Io) → Fs → Fs
with_io f fs = record fs { io = f fs.io }

-- sb_bread: whether there is a buffer. The buffer of a block is its entry of `disk`.
abbrev pub sb_bread : Kernel → ℕ → M Bool
sb_bread k bno fs = ok (k.bread fs.calls bno) (record fs { calls = suc fs.calls })

abbrev pub kmalloc : Kernel → ℕ → M Bool
kmalloc k size fs = ok (k.kmalloc fs.calls size) (record fs { calls = suc fs.calls })

abbrev pub current_time : Kernel → M Timespec
current_time k fs = ok (k.now fs.calls) (record fs { calls = suc fs.calls })

-- copy_from_iter of `n` bytes: how many were moved, and the bytes. Those are gone from the source.
abbrev pub copy_from_iter : Kernel → ℕ → M (ℕ × Block)
copy_from_iter k n fs =
    let moved = min (k.copied fs.calls n) (min n fs.io.count) in
    ok (moved, fs.io.source)
      (record fs {
        io = record fs.io { count = fs.io.count - moved; source = λ j. fs.io.source (j + moved) };
        calls = suc fs.calls;
      })

-- copy_to_iter of `n` bytes from `src`, and iov_iter_zero with a source of zeroes.
abbrev pub copy_to_iter : Kernel → Block → ℕ → M ℕ
copy_to_iter k src n fs =
    let moved = min (k.copied fs.calls n) (min n fs.io.count) in
    ok moved (record fs {
      io = record fs.io {
        count = fs.io.count - moved;
        sink = memcpy fs.io.sink fs.io.filled src moved;
        filled = fs.io.filled + moved;
      };
      calls = suc fs.calls;
    })
