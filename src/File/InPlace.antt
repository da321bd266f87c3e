-- ===== src/File/InPlace.antt =====
-- write_small_file of a file whose number of slices does not change, and the read after it.
use lkp_project.Prelude.{
  ==_self, sym, min, ◌<◌, ◌||◌, false, ◌∙◌, ℕ, suc, ◌+◌, ◌-◌, ◌*◌, true, ◌&&◌, ◌==◌, leb, ltb, max,
  if◌then◌else◌, ◌≡◌, ◌≢◌, arith, refl, ap, update,
}
use lkp_project.Words.{add32}
use lkp_project.Kernel.{Kernel, Timespec}
use lkp_project.Block.{memcpy}
use lkp_project.State.{Io, with_io, Io, InodeInfo, Fs, ok}
use lkp_project.Slice.{small_file_get_bno, small_file_get_slice, small_file_index, slices_needed}
use lkp_project.Slice.Index.{small_file_index-get}
use lkp_project.File.SmallWrites.{write_small_file, store_small}
use lkp_project.File.Reads.{custom_read_iter}
use lkp_project.File.SmallReads.{custom_read_iter_small, Succeeds, small_byte, IsSmall, full_copy}

-- Where the write starts.
abbrev pub start_of : InodeInfo → Fs → ℕ
start_of inode fs = if fs.io.ki_append then inode.i_size else fs.io.ki_pos

-- `fs'` is `fs` after `count` bytes of the user went to small file `ino` at `pos`, in place.
pub record IsStored (ino pos count : ℕ) (fs fs' : Fs) : Type 0 where
  pub bytes :
      (j : ℕ)
      → small_byte fs' ino j
        ≡ (if leb pos j && ltb j (pos + count) then fs.io.source (j - pos) else small_byte fs ino j)
  pub others : (b : ℕ) → b ≢ small_file_get_bno (fs.inodes ino).index_block → fs'.disk b ≡ fs.disk b
  pub size : (fs'.inodes ino).i_size ≡ max (pos + count) (fs.inodes ino).i_size
  pub small : IsSmall (fs'.inodes ino)
  pub other_inodes : (i : ℕ) → i ≢ ino → fs'.inodes i ≡ fs.inodes i
  pub consumed : fs'.io.count ≡ 0
  pub position : fs'.io.ki_pos ≡ pos
  pub before :
      (j : ℕ)
      → j < small_file_get_slice (fs.inodes ino).index_block * 128
      → fs'.disk (small_file_get_bno (fs.inodes ino).index_block) j
        ≡ fs.disk (small_file_get_bno (fs.inodes ino).index_block) j
  pub inode :
      (time : Timespec) × (fs'.inodes ino ≡ record (fs.inodes ino) {
        i_size = max (pos + count) (fs.inodes ino).i_size;
        i_mtime = time;
        i_ctime = time;
      })
  pub sbi : fs'.sbi ≡ record fs.sbi {
    nr_used_slices =
        add32 fs.sbi.nr_used_slices (slices_needed (max (pos + count) (fs.inodes ino).i_size));
  }

pub nonzero_index : (i : ℕ) → small_file_get_bno i ≢ 0 → (i == 0) ≡ false
unfolding small_file_get_bno
nonzero_index i h = ground arith

module _ {k : Kernel} (s : Succeeds k) (ino pos : ℕ) (fs : Fs)
    (small : IsSmall (fs.inodes ino)) where
  abbrev block : ℕ
  block = small_file_get_bno (fs.inodes ino).index_block

  abbrev slice : ℕ
  slice = small_file_get_slice (fs.inodes ino).index_block

  abbrev new_size : ℕ
  new_size = max (pos + fs.io.count) (fs.inodes ino).i_size

  new_inode : InodeInfo
  new_inode = record (fs.inodes ino) {
    i_size = new_size;
    i_mtime = k.now (suc fs.calls);
    i_ctime = k.now (suc fs.calls);
    index_block = small_file_index block slice;
  }

  stored : Fs
  stored = record {
    sbi = record fs.sbi { nr_used_slices = add32 fs.sbi.nr_used_slices (slices_needed new_size) };
    disk =
        update fs.disk block (memcpy (fs.disk block) (slice * 128 + pos) fs.io.source fs.io.count);
    inodes = update fs.inodes ino new_inode;
    io = record fs.io {
      ki_pos = pos;
      count = fs.io.count - fs.io.count;
      source = λ j. fs.io.source (j + fs.io.count);
    };
    calls = suc (suc fs.calls);
  }

  store_small_ok : store_small k ino block slice pos fs.io.count new_size fs ≡ ok fs.io.count stored
  unfolding store_small stored new_inode
  store_small_ok =
      rw (full_copy s fs.calls fs.io.count fs.io.count (omega arith), ==_self fs.io.count) refl

  stored_inode : stored.inodes ino ≡ new_inode
  unfolding stored
  stored_inode = rw (==_self ino) refl

  same_index : new_inode.index_block ≡ (fs.inodes ino).index_block
  unfolding new_inode
  same_index = small_file_index-get (fs.inodes ino).index_block small.word

  stored_block :
      stored.disk block ≡ memcpy (fs.disk block) (slice * 128 + pos) fs.io.source fs.io.count
  unfolding stored
  stored_block = rw (==_self block) refl

  stored_bytes :
      (j : ℕ)
      → small_byte stored ino j ≡ (
          if leb pos j && ltb j (pos + fs.io.count)
          then fs.io.source (j - pos)
          else small_byte fs ino j)
  unfolding memcpy
  stored_bytes j =
      ap
        (λ ci.
          stored.disk (small_file_get_bno ci.index_block)
            (small_file_get_slice ci.index_block * 128 + j))
        stored_inode
      ∙ ap (λ w. stored.disk (small_file_get_bno w) (small_file_get_slice w * 128 + j)) same_index
      ∙ ap (λ b. b (slice * 128 + j)) stored_block
      ∙ ground (arith, ap fs.io.source (back slice))
    where
      back : (n : ℕ) → n * 128 + j - (n * 128 + pos) ≡ j - pos
      back n = omega arith

  stored-IsStored : IsStored ino pos fs.io.count fs stored
  stored-IsStored = record {
    bytes = stored_bytes;
    others = λ b p. unfold stored in ground arith;
    size = rw stored_inode (unfold new_inode in refl);
    small = rw stored_inode (record {
      no_blocks = unfold new_inode in small.no_blocks;
      word = rw same_index small.word;
      block = rw same_index small.block;
      slice = rw same_index small.slice;
    });
    other_inodes = λ i p. unfold stored in ground arith;
    consumed = unfold stored in omega arith;
    position = unfold stored in refl;
    before = λ j h. ap (λ b. b j) stored_block ∙ (unfold memcpy in ground (arith, h));
    inode = (
      k.now (suc fs.calls),
      stored_inode
          ∙ (unfold new_inode in
              ap
                (λ w. record (fs.inodes ino) {
                  i_size = new_size;
                  i_mtime = k.now (suc fs.calls);
                  i_ctime = k.now (suc fs.calls);
                  index_block = w;
                })
                (small_file_index-get (fs.inodes ino).index_block small.word)),
    );
    sbi = unfold stored in refl;
  }

module _ {k : Kernel} (s : Succeeds k) where
  -- A write of a small file that has slices and keeps their number, where reads and copies succeed, ends
  -- normally and puts the user's bytes at the start position. The other bytes of the file, those before
  -- its slices in the block, other blocks and other inodes stay; the inode gets its new size and times;
  -- the position of the file stays at the start of the write; and of the super block information only
  -- nr_used_slices changes, which counts the file's slices once more.
  pub write_small_file-IsStored :
      (fuel ino : ℕ) (fs : Fs)
      → IsSmall (fs.inodes ino)
      → let pos = start_of (fs.inodes ino) fs in
        (fs.inodes ino).num_slices ≢ 0
        → (fs.inodes ino).num_slices
          ≡ slices_needed (max (pos + fs.io.count) (fs.inodes ino).i_size)
        → (fs' : Fs) × (write_small_file k fuel ino fs ≡ ok fs.io.count fs')
          × IsStored ino pos fs.io.count fs fs'
  write_small_file-IsStored fuel ino fs small some_slices same = (
    later,
    runs,
    record {
      bytes = stores.bytes;
      others = stores.others;
      size = stores.size;
      small = stores.small;
      other_inodes = stores.other_inodes;
      consumed = stores.consumed;
      position = stores.position;
      before = stores.before;
      inode = stores.inode;
      sbi = stores.sbi;
    },
  )
    where
      pos : ℕ
      pos = start_of (fs.inodes ino) fs

      now : Fs
      now = record fs { calls = suc fs.calls }

      later : Fs
      later = stored s ino pos now small

      stores : IsStored ino pos fs.io.count now later
      stores = stored-IsStored s ino pos now small

      has_index : ((fs.inodes ino).index_block == 0) ≡ false
      has_index = nonzero_index (fs.inodes ino).index_block small.block

      valid :
          ((fs.inodes ino).num_slices == 0
            || (small_file_get_bno (fs.inodes ino).index_block == 0
                || small_file_get_slice (fs.inodes ino).index_block == 0))
          ≡ false
      valid = ground (arith, some_slices, small.block, small.slice)

      unchanged :
          ((fs.inodes ino).num_slices
            == slices_needed (max (pos + fs.io.count) (fs.inodes ino).i_size))
          ≡ true
      unchanged = rw same (==_self (slices_needed (max (pos + fs.io.count) (fs.inodes ino).i_size)))

      runs : write_small_file k fuel ino fs ≡ ok fs.io.count later
      runs =
          unfold write_small_file in
          rw (has_index, valid, s.reads fs.calls _, unchanged) (store_small_ok s ino pos now small)

  -- A small file that was written in place can be read: a call `io` that starts within the file
  -- ends normally and delivers, from the start of the file on, the bytes that the write gave, and
  -- between them and around them the bytes that the file had.
  pub custom_read_iter-write_small_file :
      (fuel ino : ℕ) (fs : Fs) (io : Io)
      → IsSmall (fs.inodes ino)
      → let pos = start_of (fs.inodes ino) fs in
        let size = max (pos + fs.io.count) (fs.inodes ino).i_size in
        (fs.inodes ino).num_slices ≢ 0
        → (fs.inodes ino).num_slices ≡ slices_needed size
        → io.ki_pos < size
        → 0 < io.count
        → let n = min io.count (size - io.ki_pos) in
          (fs1 : Fs) × (fs2 : Fs) × (write_small_file k fuel ino fs ≡ ok fs.io.count fs1)
          × (custom_read_iter k ino (with_io (λ _. io) fs1) ≡ ok n fs2)
          × ((j : ℕ)
              → j < n
              → fs2.io.sink (io.filled + j) ≡ (
                  if leb pos j && ltb j (pos + fs.io.count)
                  then fs.io.source (j - pos)
                  else small_byte fs ino j))
  custom_read_iter-write_small_file fuel ino fs io small some_slices same before asked =
      let (fs1, wrote, stores) = write_small_file-IsStored fuel ino fs small some_slices same in
      let (fs2, read, delivered, rest1, rest2, rest3) =
        custom_read_iter_small s ino (with_io (λ _. io) fs1) stores.small (rw stores.size before)
          asked in
      let same_size = ap (λ size. min io.count (size - io.ki_pos)) (sym stores.size) in
      (
        fs1,
        fs2,
        wrote,
        rw same_size read,
        λ j p. delivered j (rw (sym same_size) p) ∙ stores.bytes j,
      )
