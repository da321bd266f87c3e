-- ===== src/Module/Ioctl.antt =====
-- ioctl.c: the device's operations.
use lkp_project.Prelude.{ℕ, ◌+◌, Bool, not, ◌==◌, if◌then◌else◌, Option, none, some}
use lkp_project.Kernel.{Kernel}
use lkp_project.Block.{Block}
use lkp_project.State.{Fs, Run, einval, enoent, efault, eio, M, pure, throw, ◌>>=◌, gets, sb_bread}
use lkp_project.Slice.{small_file_get_bno}

-- A call of ioctl: its command and OUICHEFS_DEBUG_IOCTL, whether the argument can be read, the address
-- in it, the inode of the file that fget finds, and whether the block can be copied out.
pub record DebugCall : Type 0 where
  pub cmd : ℕ
  pub debug_cmd : ℕ
  pub is_readable : Bool
  pub data_address : ℕ
  pub target : Option ℕ
  pub is_writable : Bool

module _ (k : Kernel) where
  -- What is done with the file: the block that the user gets.
  unfoldable pub show_block : DebugCall → ℕ → M (Option Block)
  show_block c ino = do
    ci ← gets (λ fs. fs.inodes ino)
    if not (ci.i_blocks == 0) then throw einval else do
      got ← sb_bread k (small_file_get_bno ci.index_block)
      if not got then throw eio else do
        b ← gets (λ fs. fs.disk (small_file_get_bno ci.index_block))
        if not c.is_writable then throw efault else pure (some b)

  -- The references that are held afterwards on the target file, of `held` before, and the outcome.
  unfoldable pub ouichefs_ioctl : DebugCall → ℕ → Fs → ℕ × Run (Option Block)
  ouichefs_ioctl c held fs =
      if not (c.cmd == c.debug_cmd)
      then (held, pure none fs)
      else (if not c.is_readable
          then (held, throw efault fs)
          else (if c.data_address == 0 then (held, throw einval fs) else elim c.target [
            | none ↦ (held, throw enoent fs)
            | some ino ↦ (held + 1, show_block c ino fs)
          ]))
