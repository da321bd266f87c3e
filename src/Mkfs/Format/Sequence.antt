-- ===== src/Mkfs/Format/Sequence.antt =====
-- The areas that mkfs/mkfs-ouichefs.c writes, one after the other.
use mathlib.Core.Path.{subst}
use lkp_project.Prelude.{sym, ◌^◌, ℕ, ◌+◌, ◌-◌, ◌<◌, ◌≡◌, refl}
use lkp_project.Block.Fields.{set_u64}
use lkp_project.State.{SbInfo}
use lkp_project.Store.{inode_size, store_inode}
use lkp_project.Mkfs.{superblock}
use lkp_project.Mkfs.Format.{
  write_data_blocks, done, Libc, Image, Act, ◌>>◌, malloc, write, super_block, root_inode,
  filled_block, ones_block, first_ifree_block, first_bfree_block, write_superblock,
  write_inode_store, write_ifree_blocks, write_bfree_blocks, write_root_index_block, write_areas,
}
use lkp_project.Mkfs.Format.Written.{Ends, Ends-after, Wrote, append, malloc-Ends, write-Ends}
use lkp_project.Mkfs.Format.Areas.{
  inode_area, ifree_area, bfree_area, from_bfree, from_ifree, layout, layout_size, Wrote-none,
  then-Ends, chain-Ends, malloc-then-Ends, area-Ends,
}

module _ (libc : Libc) where
  module _ (sb : SbInfo) where
    abbrev index_on : Act (Unit {0})
    index_on = do write_root_index_block libc sb; write_data_blocks libc sb

    abbrev bfree_on : Act (Unit {0})
    bfree_on = do write_bfree_blocks libc sb; index_on

    abbrev ifree_on : Act (Unit {0})
    ifree_on = do write_ifree_blocks libc sb; bfree_on

    abbrev istore_on : Act (Unit {0})
    istore_on = do write_inode_store libc sb; ifree_on

    index_on-Ends :
        (im : Image) → Ends libc im (λ _ im'. Wrote 1 (λ _. filled_block 0) im im') (index_on im)
    unfolding write_root_index_block write_data_blocks
    index_on-Ends im =
        Ends-after libc im (λ _ im'. Wrote 1 (λ _. filled_block 0) im im')
          (λ _ im'. Wrote 1 (λ _. filled_block 0) im im') (write_root_index_block libc sb im)
          (λ _. write_data_blocks libc sb)
          (malloc-then-Ends libc 1 (λ _. filled_block 0) (write libc (filled_block 0)) im
            (write-Ends libc (filled_block 0)))
          (λ _ im1 w. (w.calls, w))

    bfree_on-Ends :
        0 < sb.nr_bfree_blocks
        → (im : Image)
        → Ends libc im
            (λ _ im'. Wrote (sb.nr_bfree_blocks + 1) (from_bfree sb) im im')
            (bfree_on im)
    unfolding write_bfree_blocks
    bfree_on-Ends pos im =
        chain-Ends libc sb.nr_bfree_blocks 1 (bfree_area sb) (λ _. filled_block 0)
          (write_bfree_blocks libc sb) index_on im
          (area-Ends libc sb.nr_bfree_blocks (first_bfree_block sb) ones_block im pos) index_on-Ends

    ifree_on-Ends :
        0 < sb.nr_ifree_blocks
        → 0 < sb.nr_bfree_blocks
        → (im : Image)
        → Ends libc im
            (λ _ im'. Wrote (sb.nr_ifree_blocks + (sb.nr_bfree_blocks + 1)) (from_ifree sb) im im')
            (ifree_on im)
    unfolding write_ifree_blocks
    ifree_on-Ends pos pos' im =
        chain-Ends libc sb.nr_ifree_blocks (sb.nr_bfree_blocks + 1) ifree_area (from_bfree sb)
          (write_ifree_blocks libc sb) bfree_on im
          (area-Ends libc sb.nr_ifree_blocks first_ifree_block
            (set_u64 first_ifree_block 0 (2 ^ 64 - 1)) im pos)
          (bfree_on-Ends pos')

    istore_on-Ends :
        0 < sb.nr_istore_blocks
        → 0 < sb.nr_ifree_blocks
        → 0 < sb.nr_bfree_blocks
        → (im : Image)
        → Ends libc im
            (λ _ im'.
              Wrote
                (sb.nr_istore_blocks + (sb.nr_ifree_blocks + (sb.nr_bfree_blocks + 1)))
                (append sb.nr_istore_blocks (inode_area sb) (from_ifree sb))
                im
                im')
            (istore_on im)
    unfolding write_inode_store
    istore_on-Ends pos pos' pos'' im =
        chain-Ends libc sb.nr_istore_blocks (sb.nr_ifree_blocks + (sb.nr_bfree_blocks + 1))
          (inode_area sb) (from_ifree sb) (write_inode_store libc sb) ifree_on im
          (area-Ends libc sb.nr_istore_blocks
            (store_inode inode_size (root_inode sb) (filled_block 0)) (filled_block 0) im pos)
          (ifree_on-Ends pos' pos'')

  module _ (partition_size : ℕ) where
    abbrev fresh : SbInfo
    fresh = superblock partition_size

    -- The block of the super block was written, and `a` is what it holds.
    abbrev HasSuper : Image → SbInfo → Image → Type 0
    HasSuper im a im' = (a ≡ fresh) × Wrote 1 (λ _. super_block fresh) im im'

    write_superblock-Ends :
        (im : Image) → Ends libc im (HasSuper im) (write_superblock libc partition_size im)
    unfolding write_superblock
    write_superblock-Ends im =
        Ends-after libc im (λ _ im'. Wrote 0 (λ _. super_block fresh) im im') (HasSuper im)
          (malloc libc im) (λ _. do write libc (super_block fresh); done fresh)
          (malloc-Ends libc im (λ _. super_block fresh))
          (λ _ im1 w. (
            w.calls,
            Ends-after libc im1 (λ _ im'. Wrote 1 (λ _. super_block fresh) im1 im') (HasSuper im)
                (write libc (super_block fresh) im1) (λ _. done fresh)
                (write-Ends libc (super_block fresh) im1)
                (λ _ im2 v. (v.calls, (refl, Wrote-none w v))),
          ))

    -- The areas, one after the other.
    pub write_areas-Ends :
        0 < fresh.nr_istore_blocks
        → 0 < fresh.nr_ifree_blocks
        → 0 < fresh.nr_bfree_blocks
        → (im : Image)
        → Ends libc im
            (λ _ im'. Wrote (layout_size fresh) (layout fresh) im im')
            (write_areas libc partition_size im)
    unfolding write_areas
    write_areas-Ends pos pos' pos'' im =
        Ends-after libc im (HasSuper im) (λ _ im'. Wrote (layout_size fresh) (layout fresh) im im')
          (write_superblock libc partition_size im) istore_on (write_superblock-Ends im)
          (λ a im1 h. (
            h.1.calls,
            subst
                (λ sb.
                  Ends libc im1 (λ _ im'. Wrote (layout_size fresh) (layout fresh) im im')
                    (istore_on sb im1))
                (sym h.0)
                (then-Ends libc 1
                  (fresh.nr_istore_blocks + (fresh.nr_ifree_blocks + (fresh.nr_bfree_blocks + 1)))
                  (λ _. super_block fresh)
                  (append fresh.nr_istore_blocks (inode_area fresh) (from_ifree fresh)) im im1
                  (istore_on fresh im1) h.1 (istore_on-Ends fresh pos pos' pos'' im1)),
          ))
