-- ===== src/Mkfs/Format/Areas.antt =====
-- An area of the file that mkfs/mkfs-ouichefs.c writes, and the layout of a partition.
use mathlib.Core.Path.{subst}
use lkp_project.Prelude.{◌^◌, ap, ℕ, ◌+◌, ◌-◌, ◌<◌, if◌then◌else◌, Option, ◌≡◌, arith}
use lkp_project.Block.{within, Block}
use lkp_project.Block.Fields.{set_u64}
use lkp_project.State.{SbInfo}
use lkp_project.Store.{inode_size, store_inode}
use lkp_project.Mkfs.Format.{
  Libc, Image, Act, ◌>>◌, malloc, write, write_copies, super_block, root_inode, filled_block,
  ones_block, first_ifree_block, first_bfree_block,
}
use lkp_project.Mkfs.Format.Written.{
  Ends, Ends-after, Ends-weaken, Wrote, append, Wrote-append, malloc-Ends, write-Ends,
  write_copies-Ends,
}

-- An area: its first block, and what the others are.
abbrev pub area : Block → Block → ℕ → Block
area first copy = append 1 (λ _. first) (λ _. copy)

abbrev pub inode_area : SbInfo → ℕ → Block
inode_area sb = area (store_inode inode_size (root_inode sb) (filled_block 0)) (filled_block 0)

abbrev pub ifree_area : ℕ → Block
ifree_area = area first_ifree_block (set_u64 first_ifree_block 0 (2 ^ 64 - 1))

abbrev pub bfree_area : SbInfo → ℕ → Block
bfree_area sb = area (first_bfree_block sb) ones_block

-- The blocks of a formatted partition: the super block, the three areas and the root's index block.
abbrev pub from_bfree : SbInfo → ℕ → Block
from_bfree sb = append sb.nr_bfree_blocks (bfree_area sb) (λ _. filled_block 0)

abbrev pub from_ifree : SbInfo → ℕ → Block
from_ifree sb = append sb.nr_ifree_blocks ifree_area (from_bfree sb)

abbrev pub layout : SbInfo → ℕ → Block
layout sb =
    append 1 (λ _. super_block sb) (append sb.nr_istore_blocks (inode_area sb) (from_ifree sb))

abbrev pub layout_size : SbInfo → ℕ
layout_size sb = 1 + (sb.nr_istore_blocks + (sb.nr_ifree_blocks + (sb.nr_bfree_blocks + 1)))

-- A malloc writes nothing.
pub Wrote-none :
    {n : ℕ} {none : ℕ → Block} {blocks : ℕ → Block} {im im1 im2 : Image}
    → Wrote 0 none im im1
    → Wrote n blocks im1 im2
    → Wrote n blocks im im2
Wrote-none {n} {none} {blocks} {im} {im1} {im2} w v = record {
  contents = contents_lem;
  next = omega (arith, w.next, v.next);
  calls = omega (arith, w.calls, v.calls);
}
  where
    place : (x : ℕ) → x - im1.next ≡ x - im.next
    place x = omega (arith, w.next)

    contents_lem :
        (x : ℕ)
        → im2.contents x ≡ (if within im.next n x then blocks (x - im.next) else im.contents x)
    contents_lem x = ground (arith, w.contents x, v.contents x, w.next, ap blocks (place x))

module _ (libc : Libc) where
  -- A run of blocks, and what follows it.
  pub then-Ends :
      {A : Type 0} (n m : ℕ) (first second : ℕ → Block) (im im1 : Image) (r : Option A × Image)
      → Wrote n first im im1
      → Ends libc im1 (λ _ im'. Wrote m second im1 im') r
      → Ends libc im1 (λ _ im'. Wrote (n + m) (append n first second) im im') r
  then-Ends n m first second im im1 r w =
      Ends-weaken libc im1 _ _ r (λ _ im2 v. Wrote-append n m first second im im1 im2 w v)

  -- A routine that writes an area, and the routines behind it.
  pub chain-Ends :
      (n m : ℕ) (first second : ℕ → Block) (f g : Act (Unit {0})) (im : Image)
      → Ends libc im (λ _ im'. Wrote n first im im') (f im)
      → ((im1 : Image) → Ends libc im1 (λ _ im'. Wrote m second im1 im') (g im1))
      → Ends libc im (λ _ im'. Wrote (n + m) (append n first second) im im') ((f >> g) im)
  chain-Ends n m first second f g im p q =
      Ends-after libc im (λ _ im'. Wrote n first im im')
        (λ _ im'. Wrote (n + m) (append n first second) im im') (f im) (λ _. g) p
        (λ _ im1 w. (w.calls, then-Ends n m first second im im1 (g im1) w (q im1)))

  -- malloc, and then a routine that writes.
  pub malloc-then-Ends :
      (n : ℕ) (blocks : ℕ → Block) (f : Act (Unit {0})) (im : Image)
      → ((im1 : Image) → Ends libc im1 (λ _ im'. Wrote n blocks im1 im') (f im1))
      → Ends libc im (λ _ im'. Wrote n blocks im im') ((malloc libc >> f) im)
  malloc-then-Ends n blocks f im p =
      Ends-after libc im (λ _ im'. Wrote 0 blocks im im') (λ _ im'. Wrote n blocks im im')
        (malloc libc im) (λ _. f) (malloc-Ends libc im blocks)
        (λ _ im1 w. (
          w.calls,
          Ends-weaken libc im1 (λ _ im'. Wrote n blocks im1 im') (λ _ im'. Wrote n blocks im im')
              (f im1) (λ _ im'. Wrote-none w) (p im1),
        ))

  -- malloc, the first block, and the loop over the others.
  pub area-Ends :
      (n : ℕ) (first copy : Block) (im : Image)
      → 0 < n
      → Ends libc im
          (λ _ im'. Wrote n (area first copy) im im')
          ((do malloc libc; write libc first; write_copies libc (n - 1) copy) im)
  area-Ends n first copy im pos =
      malloc-then-Ends n (area first copy) (do write libc first; write_copies libc (n - 1) copy) im
        (λ im1.
          subst
            (λ m.
              Ends libc im1 (λ _ im'. Wrote m (area first copy) im1 im')
                ((do write libc first; write_copies libc (n - 1) copy) im1))
            whole
            (chain-Ends 1 (n - 1) (λ _. first) (λ _. copy) (write libc first)
              (write_copies libc (n - 1) copy) im1 (write-Ends libc first im1)
              (write_copies-Ends libc (n - 1) copy)))
    where
      whole : 1 + (n - 1) ≡ n
      whole = omega arith
