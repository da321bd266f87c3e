-- ===== src/Examples/Host.antt =====
-- A concrete kernel, in which every call succeeds, and small partitions to run on.
use lkp_project.Prelude.{
  ℕ, zero, suc, ◌+◌, ◌≤◌, ◌<◌, true, false, ltb, leb, ◌&&◌, ◌≡◌, if◌then◌else◌, arith, refl,
}
use lkp_project.Kernel.{Kernel, Bitmap, BitmapLaws}
use lkp_project.Block.{Block}
use lkp_project.State.{SbInfo, InodeInfo, Fs, Io}

-- The first set bit from `i` on, within `n` bits.
unfoldable pub scan : Bitmap → ℕ → ℕ → ℕ
scan m i zero = i
scan m i (suc n) = let rest = scan m (i + 1) n in if m i then i else rest

scan_bounds : (m : Bitmap) (i n : ℕ) → (i ≤ scan m i n) × (scan m i n ≤ i + n)
unfolding scan
scan_bounds m i zero = omega arith
scan_bounds m i (suc n) = ground (arith, scan_bounds m (i + 1) n)

scan_set : (m : Bitmap) (i n : ℕ) → scan m i n < i + n → m (scan m i n) ≡ true
unfolding scan
scan_set m i zero h = absurd (omega arith)
scan_set m i (suc n) h = ground (arith, scan_set m (i + 1) n)

scan_least : (m : Bitmap) (i n j : ℕ) → i ≤ j → j < scan m i n → m j ≡ false
unfolding scan
scan_least m i zero j p q = absurd (omega arith)
scan_least m i (suc n) j p q = ground (arith, scan_least m (i + 1) n j)

abbrev pub host : Kernel
host = record {
  find_first_bit = λ m size. scan m 0 size;
  bitmap_clear = λ m start n j. if leb start j && ltb j (start + n) then false else m j;
  bitmap_set = λ m start n j. if leb start j && ltb j (start + n) then true else m j;
  bread = λ _ _. true;
  kmalloc = λ _ _. true;
  copied = λ _ n. n;
  now = λ t. record { tv_sec = t; tv_nsec = 0 };
}

pub host_laws : BitmapLaws host
host_laws = record {
  first-le = λ m size. omega (arith, scan_bounds m 0 size);
  first-set = λ m size h. scan_set m 0 size (omega arith);
  first-least = λ m size j h. scan_least m 0 size j (omega arith) h;
  clear_lem = λ m start n j. refl;
  set_lem = λ m start n j. refl;
}

-- Eight blocks, of which 5, 6 and 7 are free, and eight inodes, of which 2 to 7 are free.
abbrev pub small_sbi : SbInfo
small_sbi = record {
  magic = 0x48434957;
  nr_blocks = 8;
  nr_inodes = 8;
  nr_istore_blocks = 1;
  nr_ifree_blocks = 1;
  nr_bfree_blocks = 1;
  nr_sliced_blocks = 0;
  nr_free_inodes = 6;
  nr_free_blocks = 3;
  nr_used_slices = 0;
  s_free_sliced_blocks = 0;
  ifree_bitmap = λ j. leb 2 j;
  bfree_bitmap = λ j. leb 5 j;
}

abbrev pub full_sbi : SbInfo
full_sbi = record small_sbi { nr_free_blocks = 0; bfree_bitmap = λ j. leb 8 j }

abbrev pub blank_inode : InodeInfo
blank_inode = record {
  num_slices = 0;
  index_block = 0;
  i_mode = 0;
  i_uid = 0;
  i_gid = 0;
  i_size = 0;
  i_blocks = 0;
  i_nlink = 1;
  i_ctime = record { tv_sec = 0; tv_nsec = 0 };
  i_atime = record { tv_sec = 0; tv_nsec = 0 };
  i_mtime = record { tv_sec = 0; tv_nsec = 0 };
}

abbrev pub blank_block : Block
blank_block = λ _. 0

abbrev pub idle : Io
idle = record {
  ki_pos = 0;
  ki_append = false;
  count = 0;
  source = blank_block;
  sink = blank_block;
  filled = 0;
}

abbrev pub small_fs : Fs
small_fs = record {
  sbi = small_sbi;
  disk = λ _. blank_block;
  inodes = λ _. blank_inode;
  io = idle;
  calls = 0;
}
