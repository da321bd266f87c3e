-- ===== src/Kernel.antt =====
-- What the sources take from the Linux kernel: its bitmap routines and the outcome of its calls.
use lkp_project.Prelude.{ℕ, ◌+◌, ◌≤◌, ◌<◌, ◌≡◌, Bool, true, false, ◌&&◌, ltb, leb, if◌then◌else◌}

-- A bitmap in memory. Bit `i` is set where what it stands for is free.
abbrev pub Bitmap : Type 0
Bitmap = ℕ → Bool

pub record Timespec : Type 0 where
  pub tv_sec : ℕ
  pub tv_nsec : ℕ

-- The kernel as the sources see it. The first number given to an outcome counts the calls made
-- so far, so that one call may fail and a later one, with the same arguments, succeed.
pub record Kernel : Type 0 where
  pub find_first_bit : Bitmap → ℕ → ℕ
  pub bitmap_clear : Bitmap → ℕ → ℕ → Bitmap
  pub bitmap_set : Bitmap → ℕ → ℕ → Bitmap
  pub bread : ℕ → ℕ → Bool  -- does sb_bread of this block give a buffer
  pub kmalloc : ℕ → ℕ → Bool  -- does an allocation of this size succeed
  pub copied : ℕ → ℕ → ℕ  -- how many bytes a copy from or to user space moves
  pub now : ℕ → Timespec  -- current_time

-- The documented behaviour of find_first_bit, bitmap_clear and bitmap_set.
pub record BitmapLaws (k : Kernel) : Type 0 where
  pub first-le : (m : Bitmap) (size : ℕ) → k.find_first_bit m size ≤ size
  pub first-set :
      (m : Bitmap) (size : ℕ) → k.find_first_bit m size < size → m (k.find_first_bit m size) ≡ true
  pub first-least : (m : Bitmap) (size j : ℕ) → j < k.find_first_bit m size → m j ≡ false
  pub clear_lem :
      (m : Bitmap) (start n j : ℕ)
      → k.bitmap_clear m start n j ≡ (if leb start j && ltb j (start + n) then false else m j)
  pub set_lem :
      (m : Bitmap) (start n j : ℕ)
      → k.bitmap_set m start n j ≡ (if leb start j && ltb j (start + n) then true else m j)
