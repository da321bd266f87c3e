-- ===== src/Mkfs/Format/Mounts.antt =====
-- Mounting what mkfs/mkfs-ouichefs.c wrote: ouichefs_fill_super of super.c.
use lkp_project.Prelude.{
  ℕ, ◌-◌, ◌*◌, ◌^◌, ◌≤◌, ◌<◌, leb, ltb, some, ◌≡◌, refl, arith, ◌∙◌, ap, sym, count_ext,
}
use lkp_project.Kernel.{Kernel}
use lkp_project.Block.{Block, get_u32, set_u32, memset}
use lkp_project.Block.Fields.{set_words}
use lkp_project.State.{SbInfo, InodeInfo, Fs, ok}
use lkp_project.Store.{inode_size, load_inode}
use lkp_project.Store.RoundTrip.{FitsDisk, load_inode-store_inode}
use lkp_project.Super.{ouichefs_magic, bits_per_block, load_sb, Vfs, ouichefs_fill_super}
use lkp_project.Super.Fill.{
  numbers, load_sb-set_words, same_magic, MountSucceeds, mounted_sbi, ouichefs_fill_super_lem,
}
use lkp_project.Bitmap.Blocks.{BlocksCounted}
use lkp_project.Directory.{entry_inode}
use lkp_project.Mkfs.{superblock}
use lkp_project.Mkfs.Geometry.{IsLaidOut, superblock-IsLaidOut}
use lkp_project.Mkfs.Format.{
  set_words, Libc, Image, Command, size_of, min_size, main, super_block, root_inode, filled_block,
  first_data_block, nr_used_blocks,
}
use lkp_project.Mkfs.Format.Written.{Wrote}
use lkp_project.Mkfs.Format.Areas.{layout, layout_size}
use lkp_project.Mkfs.Format.Main.{
  main-MainEnds, IsAccepted, MainEnds, rejected, formatted, interrupted,
}
use lkp_project.Mkfs.Format.Loads.{
  HasRoom, superblock-HasRoom, superblock-IsWide, count-leb, at_super, at_inodes, at_index,
  loaded_ifree, loaded_bfree,
}

-- A mounted partition as it is after formatting: the numbers of the super block; inodes 0 and 1 and
-- the blocks of the areas and of the root directory are in use, and no other; the counter of free
-- blocks is right; and the root directory is empty.
pub record IsFresh (vfs : Vfs) (sb : SbInfo) (fs : Fs) : Type 0 where
  pub same_numbers : numbers fs.sbi ≡ numbers sb
  pub ifree : (j : ℕ) → j < sb.nr_ifree_blocks * bits_per_block → fs.sbi.ifree_bitmap j ≡ leb 2 j
  pub bfree :
      (j : ℕ)
      → j < sb.nr_bfree_blocks * bits_per_block
      → fs.sbi.bfree_bitmap j ≡ ltb (first_data_block sb) j
  pub counted : BlocksCounted fs.sbi
  pub root : fs.inodes 1 ≡ record (root_inode sb) { i_uid = vfs.fsuid; i_gid = vfs.fsgid }
  pub is_empty : (i : ℕ) → entry_inode (fs.disk (fs.inodes 1).index_block) i ≡ 0

-- A run of main that returns 0 wrote the layout.
status_zero :
    {libc : Libc} {c : Command} {im : Image} (r : ℕ × Image)
    → MainEnds libc c im r
    → r.0 ≡ 0
    → (partition_size : ℕ) × IsAccepted c partition_size
      × Wrote (layout_size (superblock partition_size)) (layout (superblock partition_size)) im r.1
status_zero r (rejected refused) e = absurd (omega (arith, e))
status_zero r (formatted partition_size im' a w) e = (partition_size, a, w)
status_zero r (interrupted partition_size im' a f) e = absurd (omega (arith, e))

Wrote-contents :
    {n : ℕ} {blocks : ℕ → Block} {im im' : Image}
    → Wrote n blocks im im'
    → im.next ≡ 0
    → (x : ℕ) → x < n
    → im'.contents x ≡ blocks x
Wrote-contents {n} {blocks} {im} w start x h =
    w.contents x ∙ ground (arith, start, h, ap blocks place)
  where
    place : x - im.next ≡ x
    place = omega (arith, start)

entry_of_filled : (i : ℕ) → entry_inode (filled_block 0) i ≡ 0
unfolding get_u32 memset
entry_of_filled i = ground arith

root_inode-FitsDisk : (sb : SbInfo) → FitsDisk (root_inode sb)
root_inode-FitsDisk sb = record {
  mode = omega arith;
  uid = omega arith;
  gid = omega arith;
  size = omega arith;
  ctime = (omega arith, omega arith);
  atime = (omega arith, omega arith);
  mtime = (omega arith, omega arith);
  blocks = omega arith;
  nlink = omega arith;
  index = omega arith;
  slices = omega arith;
}

-- A block with the magic number alone.
abbrev marked_block : Block
marked_block = set_u32 (filled_block 0) 0 ouichefs_magic

marked_block_magic : get_u32 marked_block 0 ≡ ouichefs_magic
unfolding get_u32 set_u32
marked_block_magic = refl

super_block_magic :
    (partition_size : ℕ) → get_u32 (super_block (superblock partition_size)) 0 ≡ ouichefs_magic
unfolding set_words superblock
super_block_magic partition_size =
    same_magic (superblock partition_size) marked_block ∙ marked_block_magic

load_sb-super_block :
    (partition_size : ℕ)
    → load_sb (super_block (superblock partition_size)) ≡ numbers (superblock partition_size)
unfolding set_words superblock
load_sb-super_block partition_size =
    load_sb-set_words (superblock partition_size) marked_block (superblock-IsWide partition_size)

module _ (k : Kernel) (vfs : Vfs) (s : MountSucceeds k vfs) (partition_size : ℕ)
    (enough : min_size ≤ partition_size) (fits : partition_size ≤ 6 * 2 ^ 30) (fs : Fs)
    (holds : (x : ℕ)
      → x < layout_size (superblock partition_size)
      → fs.disk x ≡ layout (superblock partition_size) x) where
  abbrev sb : SbInfo
  sb = superblock partition_size

  room : HasRoom sb
  room = superblock-HasRoom partition_size enough fits

  mounted-BlocksCounted : BlocksCounted (mounted_sbi sb fs.disk)
  mounted-BlocksCounted = record {
    word = (superblock-IsWide partition_size).blocks;
    reserved = bfree_bit 0 (omega (arith, room.bfree)) ∙ ground (arith, room.used);
    counted = sym (
        count_ext (mounted_sbi sb fs.disk).bfree_bitmap (λ j. leb (nr_used_blocks sb) j)
          sb.nr_blocks (λ j h. bfree_bit j (omega (arith, laid.bfree, h)))
        ∙ count-leb (nr_used_blocks sb) sb.nr_blocks
        ∙ omega (arith, laid.total, room.used, room.first));
  }
    where
      laid : IsLaidOut sb
      laid = superblock-IsLaidOut partition_size enough (omega arith)

      bfree_bit :
          (j : ℕ)
          → j < sb.nr_bfree_blocks * bits_per_block
          → (mounted_sbi sb fs.disk).bfree_bitmap j ≡ leb (nr_used_blocks sb) j
      bfree_bit = loaded_bfree sb room fs.disk holds

  mounts : (fs' : Fs) × (ouichefs_fill_super k vfs fs ≡ ok tt fs') × IsFresh vfs sb fs'
  mounts =
      let (fs', fills, same, kept, root) =
        ouichefs_fill_super_lem k vfs s fs sb
          (ap (λ b. get_u32 b 0) (at_super sb room fs.disk holds)
            ∙ super_block_magic partition_size)
          (ap load_sb (at_super sb room fs.disk holds) ∙ load_sb-super_block partition_size)
          room.inodes in
      (fs', fills, fresh fs' same kept root)
    where
      loaded_root : load_inode inode_size (fs.disk 1) ≡ root_inode sb
      loaded_root =
          ap (load_inode inode_size) (at_inodes sb room fs.disk holds)
          ∙ load_inode-store_inode inode_size (root_inode sb) (filled_block 0)
              (root_inode-FitsDisk sb)

      owned : InodeInfo → InodeInfo
      owned ci = record ci { i_uid = vfs.fsuid; i_gid = vfs.fsgid }

      fresh :
          (fs' : Fs)
          → fs'.sbi ≡ mounted_sbi sb fs.disk
          → fs'.disk ≡ fs.disk
          → fs'.inodes 1 ≡ owned (load_inode inode_size (fs.disk 1))
          → IsFresh vfs sb fs'
      fresh fs' same kept root = record {
        same_numbers = ap numbers same;
        ifree = λ j h. ap (λ sbi. sbi.ifree_bitmap j) same ∙ loaded_ifree sb room fs.disk holds j h;
        bfree = λ j h.
            ap (λ sbi. sbi.bfree_bitmap j) same
            ∙ loaded_bfree sb room fs.disk holds j h
            ∙ ground (arith, room.used);
        counted = rw same mounted-BlocksCounted;
        root = root ∙ ap owned loaded_root;
        is_empty = λ i.
            rw (kept, root ∙ ap owned loaded_root, at_index sb room fs.disk holds)
              (entry_of_filled i);
      }

-- A partition that mkfs formatted, up to 6 GiB, is mounted by every kernel whose calls succeed, and
-- it is fresh.
pub ouichefs_fill_super-main :
    (k : Kernel) (vfs : Vfs)
    → MountSucceeds k vfs
    → (libc : Libc) (c : Command) (im : Image) (fs : Fs)
    → ((partition_size : ℕ) → size_of c ≡ some partition_size → partition_size ≤ 6 * 2 ^ 30)
    → im.next ≡ 0
    → (main libc c im).0 ≡ 0
    → (partition_size : ℕ) × (fs' : Fs) × (size_of c ≡ some partition_size)
      × (ouichefs_fill_super k vfs (record fs { disk = (main libc c im).1.contents }) ≡ ok tt fs')
      × IsFresh vfs (superblock partition_size) fs'
ouichefs_fill_super-main k vfs s libc c im fs fits start success =
    let (partition_size, a, w) =
      status_zero (main libc c im) (main-MainEnds libc c im (λ size e. omega (arith, fits size e)))
        success in
    let (fs', fills, fresh) =
      mounts k vfs s partition_size a.enough (fits partition_size a.size)
        (record fs { disk = (main libc c im).1.contents }) (Wrote-contents w start) in
    (partition_size, fs', a.size, fills, fresh)
