-- ===== src/Examples/Files.antt =====
-- Files read and written on small partitions.
use lkp_project.Block.{get_u32, memcpy}
use lkp_project.State.{SbInfo}
use lkp_project.File.BigContents.{IndexOk, OrFull}
use lkp_project.File.BigRounds.{Wrote}
use lkp_project.File.BigLoop.{write_blocks-OrFull}
use lkp_project.File.BigWrites.{
  write_blocks, write_block, block_of, index_block_of, lacks_blocks, write_to_block, finish_big,
}
use lkp_project.Prelude.{
  [], ◌∷◌, map, count, ℕ, ◌+◌, ◌-◌, ◌^◌, ◌<◌, true, false, ◌&&◌, leb, ltb, if◌then◌else◌, ◌≡◌,
  arith, refl, update,
}
use lkp_project.Kernel.{Kernel}
use lkp_project.State.{state_of, InodeInfo, Io, Fs, ok, fail, panic, enomem, with_io, with_sbi}
use lkp_project.Bitmap.Blocks.{BlocksCounted, give_block}
use lkp_project.Slice.{small_file_get_bno, small_file_get_slice, delete_slice, sweep}
use lkp_project.File.Reads.{read_small, is_small_file, custom_read_iter, index_entry}
use lkp_project.File.SmallReads.{Succeeds, IsSmall, small_byte, custom_read_iter_small}
use lkp_project.File.SmallWrites.{write_small_file}
use lkp_project.File.InPlace.{
  IsStored, write_small_file-IsStored, custom_read_iter-write_small_file,
}
use lkp_project.File.BigBytes.{big_byte}
use lkp_project.File.BigReads.{custom_read_iter_big}
use lkp_project.File.BigWrites.{write_big_file}
use lkp_project.File.BigEnds.{Ends, BigWritten, write_big_file-Ends}
use lkp_project.File.Writes.{custom_write_iter, convert_small_to_big, gather, write_whole}
use lkp_project.File.Outcomes.{is_ok, After}
use lkp_project.File.Limits.{custom_write_iter-append}
use lkp_project.File.Failures.{custom_write_iter-full, write_small_file-enomem}
use lkp_project.File.Conversion.{IsPacked, convert_small_to_big-IsPacked}
use lkp_project.Examples.Host.{
  small_sbi, host, host_laws, small_fs, blank_block, blank_inode, full_sbi, idle,
}

host-Succeeds : Succeeds host
host-Succeeds = record { reads = λ t b. refl; copies = λ t n. omega arith }

-- 300 bytes in slices 1 to 3 of block 5, and a write of 20 bytes at 10.
abbrev pub small_file : InodeInfo
small_file = record blank_inode { num_slices = 3; index_block = 161; i_size = 300 }

abbrev small_call : Io
small_call = record idle { ki_pos = 10; count = 20; source = λ j. j + 65 }

abbrev pub small_file_fs : Fs
small_file_fs = record small_fs { inodes = λ _. small_file; disk = λ b j. b + j; io = small_call }

small_file-IsSmall : IsSmall small_file
unfolding small_file_get_bno small_file_get_slice
small_file-IsSmall = record {
  no_blocks = refl;
  word = omega arith;
  block = λ e. absurd (omega arith);
  slice = λ e. absurd (omega arith);
}

-- The bytes that a call of custom_read_iter gave.
read_three :
    map (state_of small_file_fs (custom_read_iter host 2 small_file_fs)).io.sink (0 ∷ 1 ∷ 2 ∷ [])
    ≡ 133 ∷ 134 ∷ 135 ∷ []
unfolding custom_read_iter is_small_file read_small small_file_get_bno small_file_get_slice memcpy
read_three = refl

custom_read_iter_small_example :
    (fs' : Fs) × (custom_read_iter host 2 small_file_fs ≡ ok 20 fs')
    × ((j : ℕ) → j < 20 → fs'.io.sink (0 + j) ≡ small_byte small_file_fs 2 j)
    × (fs'.io.ki_pos ≡ 20)
    × (fs'.disk ≡ small_file_fs.disk)
    × (fs'.inodes ≡ small_file_fs.inodes)
custom_read_iter_small_example =
    custom_read_iter_small host-Succeeds 2 small_file_fs small_file-IsSmall (omega arith)
      (omega arith)

write_small_file-IsStored_example :
    (fs' : Fs) × (write_small_file host 9 2 small_file_fs ≡ ok 20 fs')
    × IsStored 2 10 20 small_file_fs fs'
write_small_file-IsStored_example =
    write_small_file-IsStored host-Succeeds 9 2 small_file_fs small_file-IsSmall
      (λ e. absurd (omega arith)) refl

custom_read_iter-write_small_file_example :
    (fs1 : Fs) × (fs2 : Fs) × (write_small_file host 9 2 small_file_fs ≡ ok 20 fs1)
    × (custom_read_iter host 2 (with_io (λ _. record idle { count = 50 }) fs1) ≡ ok 50 fs2)
    × ((j : ℕ)
        → j < 50
        → fs2.io.sink (0 + j)
          ≡ (if leb 10 j && ltb j (10 + 20) then j - 10 + 65 else small_byte small_file_fs 2 j))
custom_read_iter-write_small_file_example =
    custom_read_iter-write_small_file host-Succeeds 9 2 small_file_fs (record idle { count = 50 })
      small_file-IsSmall (λ e. absurd (omega arith)) refl (omega arith) (omega arith)

-- A big file with index block 5, whose only block is 6: its first 4096 bytes are a hole.
abbrev big_file : InodeInfo
big_file = record blank_inode { index_block = 5; i_size = 5000; i_blocks = 3 }

abbrev big_file_fs : Fs
big_file_fs = record small_fs {
  inodes = λ _. big_file;
  disk = update (λ b j. j) 5 (update blank_block 4 6);
  io = record idle { ki_pos = 4090; count = 20; source = λ j. j + 65 };
}

custom_read_iter_big_example :
    (fs' : Fs) × (custom_read_iter host 2 big_file_fs ≡ ok 20 fs')
    × ((j : ℕ) → j < 20 → fs'.io.sink (0 + j) ≡ big_byte big_file_fs.disk 5 (4090 + j))
    × (fs'.io.ki_pos ≡ 4110)
    × (fs'.disk ≡ big_file_fs.disk)
    × (fs'.inodes ≡ big_file_fs.inodes)
    × (fs'.sbi ≡ big_file_fs.sbi)
custom_read_iter_big_example =
    custom_read_iter_big host-Succeeds 2 big_file_fs (λ e. absurd (omega arith))
      (λ e. absurd (omega arith)) (omega arith) (omega arith) (omega arith)

write_big_file-Ends_example :
    Ends (BigWritten host 2 big_file_fs) (write_big_file host 2 big_file_fs)
write_big_file-Ends_example = write_big_file-Ends host 2 big_file_fs

-- A file of 3900 bytes, and 100 bytes to append.
abbrev append_fs : Fs
append_fs = record small_fs {
  inodes = λ _. record small_file { num_slices = 31; i_size = 3900 };
  io = record idle { ki_append = true; count = 100 };
}

append_fs-IsSmall : IsSmall (append_fs.inodes 2)
append_fs-IsSmall = record {
  no_blocks = refl;
  word = omega arith;
  block = small_file-IsSmall.block;
  slice = small_file-IsSmall.slice;
}

custom_write_iter-append_example : is_ok (custom_write_iter host 9 2 append_fs) ≡ false
custom_write_iter-append_example =
    custom_write_iter-append host 9 2 append_fs append_fs-IsSmall (λ e. absurd (omega arith)) refl
      (omega arith) (omega arith) (omega arith) (omega arith)

-- A new file on a partition that has no free block.
abbrev full_fs : Fs
full_fs = record small_fs { sbi = full_sbi; io = record idle { count = 5 } }

full_sbi-BlocksCounted : BlocksCounted full_sbi
unfolding count
full_sbi-BlocksCounted = record { word = omega arith; reserved = refl; counted = refl }

custom_write_iter-full_example :
    custom_write_iter host 9 2 full_fs
    ≡ panic
        (with_sbi (λ sbi. record (give_block sbi 0) { s_free_sliced_blocks = 2 ^ 32 - 28 }) full_fs)
custom_write_iter-full_example =
    custom_write_iter-full host_laws 9 2 full_fs full_sbi-BlocksCounted refl refl (omega arith)
      (λ j p. ground arith)

-- The same kernel without memory.
abbrev tight : Kernel
tight = record host { kmalloc = λ _ _. false }

abbrev grow_fs : Fs
grow_fs = record small_file_fs { io = record small_call { count = 600 } }

write_small_file-enomem_example :
    (fs' : Fs) × (write_small_file tight 9 2 grow_fs ≡ fail enomem fs')
    × ((fs'.inodes 2).index_block ≡ 0)
    × ((fs'.inodes 2).i_size ≡ 0)
    × (fs'.disk ≡ grow_fs.disk)
    × (fs'.sbi ≡ grow_fs.sbi)
write_small_file-enomem_example =
    write_small_file-enomem tight 9 2 grow_fs small_file-IsSmall (λ e. absurd (omega arith))
      (λ e. absurd (omega arith)) (omega arith) refl refl

-- The same kernel on a device of eight blocks.
abbrev short : Kernel
short = record host { bread = λ t b. ltb b 8 }

-- On a device that has a block of that number, the conversion returns a value.
grow-converted : is_ok (convert_small_to_big host 9 2 grow_fs) ≡ true
unfolding convert_small_to_big gather write_whole write_big_file index_block_of lacks_blocks
    write_blocks write_block block_of get_u32 write_to_block finish_big delete_slice
    small_file_get_bno sweep
grow-converted = refl

convert_small_to_big-IsPacked_example :
    After (IsPacked short 9 2 grow_fs) (convert_small_to_big short 9 2 grow_fs)
    × (((t : ℕ) → short.bread t 161 ≡ false)
        → is_ok (convert_small_to_big short 9 2 grow_fs) ≡ false)
convert_small_to_big-IsPacked_example =
    convert_small_to_big-IsPacked short 9 2 grow_fs (λ e. absurd (omega arith)) (omega arith)

-- The first block of the file is 6, and the others are holes.
abbrev one_block_fs : Fs
one_block_fs = record big_file_fs { disk = update (λ b j. j) 5 (update blank_block 0 6) }

-- A big file without blocks, with index block 5, on a partition where only block 7 is free.
abbrev pub one_free : SbInfo
one_free = record small_sbi { nr_free_blocks = 1; bfree_bitmap = λ j. leb 7 j }

abbrev empty_index_fs : Fs
empty_index_fs = record small_fs {
  sbi = one_free;
  io = record idle { ki_pos = 10; count = 20; source = λ j. j + 65 };
}

pub one_free-BlocksCounted : BlocksCounted one_free
unfolding count
one_free-BlocksCounted = record { word = omega arith; reserved = refl; counted = refl }

pub no_entry : (i : ℕ) → index_entry blank_block i ≡ 0
unfolding get_u32
no_entry i = refl

empty_index_fs-IndexOk : IndexOk 5 empty_index_fs
empty_index_fs-IndexOk = record {
  counted = one_free-BlocksCounted;
  some_index = λ e. absurd (omega arith);
  index_used = refl;
  used = λ i h some. absurd (some (no_entry i));
  apart = λ i h e. absurd (omega (arith, e, no_entry i));
  distinct = λ i j hi hj some e. absurd (some (no_entry i));
}

write_blocks-OrFull_example :
    OrFull
      (λ p fs'. (p ≡ 10 + 20) × Wrote 5 0 10 20 empty_index_fs fs')
      (write_blocks host 21 2 5 10 20 empty_index_fs)
write_blocks-OrFull_example =
    write_blocks-OrFull host_laws host-Succeeds 2 5 21 10 20 empty_index_fs (omega arith)
      empty_index_fs-IndexOk (omega arith) (omega arith) (omega arith)
