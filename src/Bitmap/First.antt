-- ===== src/Bitmap/First.antt =====
-- get_first_free_bit against its description.
use lkp_project.Prelude.{
  ℕ, ◌^◌, ◌<◌, true, false, ◌==◌, update, ◌≡◌, ◌⊎◌, inl, inr, Bool-cases, fun_ext, arith, refl,
}
use lkp_project.Words.{u32}
use lkp_project.Kernel.{Kernel, Bitmap, BitmapLaws}
use lkp_project.Bitmap.{get_first_free_bit}

-- No bit below `size` is free: the result is 0 and the map is as it was.
pub record IsExhausted (m : Bitmap) (size : ℕ) (out : ℕ × Bitmap) : Type 0 where
  pub result : out.0 ≡ 0
  pub unchanged : out.1 ≡ m
  pub all_used : (j : ℕ) → j < size → m j ≡ false

-- The result is the least free bit, and the only change is that it is now taken.
pub record IsFirst (m : Bitmap) (size : ℕ) (out : ℕ × Bitmap) : Type 0 where
  pub positive : 0 < out.0
  pub below : out.0 < size
  pub was_free : m out.0 ≡ true
  pub least : (j : ℕ) → j < out.0 → m j ≡ false
  pub taken : out.1 ≡ update m out.0 false

module _ {k : Kernel} (laws : BitmapLaws k) where
  pub bitmap_clear_one : (m : Bitmap) (i : ℕ) → k.bitmap_clear m i 1 ≡ update m i false
  bitmap_clear_one m i = fun_ext λ j. ground (arith, laws.clear_lem m i 1 j)

  pub bitmap_set_one : (m : Bitmap) (i : ℕ) → k.bitmap_set m i 1 ≡ update m i true
  bitmap_set_one m i = fun_ext λ j. ground (arith, laws.set_lem m i 1 j)

  pub get_first_free_bit_lem :
      (m : Bitmap) (size : ℕ)
      → size < 2 ^ 32
      → m 0 ≡ false
      → IsExhausted m size (get_first_free_bit k m size)
        ⊎ IsFirst m size (get_first_free_bit k m size)
  unfolding get_first_free_bit
  get_first_free_bit_lem m size fits zero_used =
      elim (Bool-cases (u32 (k.find_first_bit m size) == size)) [
        | inl e ↦ inl (
            rw e (record {
              result = refl;
              unchanged = refl;
              all_used = λ j p. laws.first-least m size j (ground (arith, laws.first-le m size));
            }))
        | inr e ↦ inr (
            rw e (record {
              positive = ground (arith, laws.first-le m size, laws.first-set m size);
              below = ground (arith, laws.first-le m size);
              was_free =
                  let narrow : u32 (k.find_first_bit m size) ≡ k.find_first_bit m size =
                    omega (arith, laws.first-le m size) in
                  rw narrow (laws.first-set m size (ground (arith, laws.first-le m size)));
              least = λ j p. laws.first-least m size j (ground (arith, laws.first-le m size));
              taken = bitmap_clear_one m (u32 (k.find_first_bit m size));
            }))
      ]
