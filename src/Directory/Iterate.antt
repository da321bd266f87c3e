-- ===== src/Directory/Iterate.antt =====
-- dir.c: ouichefs_iterate, and a program that reads a directory to its end with it.
pub mod Emits
pub mod Reads
use lkp_project.Prelude.{
  ℕ, zero, suc, ◌+◌, ◌-◌, Bool, not, ltb, ◌==◌, if◌then◌else◌, List, [], ◌∷◌, ◌++◌,
}
use lkp_project.Kernel.{Kernel}
use lkp_project.Block.{Block}
use lkp_project.State.{eio, enotdir, M, pure, throw, ◌>>=◌, gets, sb_bread, max_subfiles}
use lkp_project.Directory.{is_dir, entry_inode, entry_name}

-- struct dir_context: the position, and what was emitted: an inode number and a name of 28 bytes each.
pub record DirContext : Type 0 where
  pub pos : ℕ
  pub emitted : List (ℕ × Block)

-- The VFS: whether dir_emit finds room for an entry behind those that were emitted, and
-- dir_emit_dots.
pub record Emitter : Type 0 where
  pub has_room : List (ℕ × Block) → Bool
  pub dir_emit_dots : DirContext → Bool × DirContext

abbrev pub entry_at : Block → ℕ → ℕ × Block
entry_at b i = (entry_inode b i, entry_name b i)

abbrev pub emit : ℕ × Block → DirContext → DirContext
emit entry ctx = record { pos = ctx.pos + 1; emitted = ctx.emitted ++ entry ∷ [] }

-- The loop over the entries from `i` on.
unfoldable pub emit_entries : Emitter → ℕ → ℕ → Block → DirContext → DirContext
emit_entries e zero i b ctx = ctx
emit_entries e (suc rounds) i b ctx =
    let rest = emit_entries e rounds (i + 1) b (emit (entry_at b i) ctx) in
    if entry_inode b i == 0 then ctx else (if e.has_room ctx.emitted then rest else ctx)

module _ (k : Kernel) (e : Emitter) where
  unfoldable pub ouichefs_iterate : ℕ → DirContext → M DirContext
  ouichefs_iterate dir ctx = do
    inode ← gets (λ fs. fs.inodes dir)
    if not (is_dir inode.i_mode)
        then throw enotdir
        else if ltb (max_subfiles + 2) ctx.pos
        then pure ctx
        else do
          let (fine, ctx') = e.dir_emit_dots ctx
          if not fine then pure ctx' else do
            got ← sb_bread k inode.index_block
            if not got then throw eio else do
              b ← gets (λ fs. fs.disk inode.index_block)
              pure (emit_entries e (max_subfiles - (ctx'.pos - 2)) (ctx'.pos - 2) b ctx')

  -- A program that calls it again and again, each time with an empty buffer: the position and
  -- everything that was emitted.
  unfoldable pub read_directory : ℕ → ℕ → DirContext → M DirContext
  read_directory zero dir ctx = pure ctx
  read_directory (suc calls) dir ctx = do
    more ← ouichefs_iterate dir (record { pos = ctx.pos; emitted = [] })
    read_directory calls dir (record { pos = more.pos; emitted = ctx.emitted ++ more.emitted })
