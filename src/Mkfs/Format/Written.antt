-- ===== src/Mkfs/Format/Written.antt =====
-- What the routines of mkfs/mkfs-ouichefs.c leave in the file.
use lkp_project.Prelude.{
  ◌≤◌, ap, ℕ, zero, suc, ◌+◌, ◌-◌, false, ltb, ◌==◌, if◌then◌else◌, Option, none, some, ◌≡◌, refl,
  arith, inl, inr, Bool-cases,
}
use lkp_project.Block.{Block, block_size, within}
use lkp_project.Mkfs.Format.{min, Libc, Image, Act, after, malloc, write, write_copies}

-- The last call that was made failed, and it was made after `im`.
pub record Failed (libc : Libc) (im im' : Image) : Type 0 where
  pub call : ℕ
  pub made : im.calls ≤ call
  pub is_last : im'.calls ≡ suc call
  pub fails : libc.succeeds call ≡ false

-- The routine returned, with this, or a call failed.
abbrev pub Ends : {A : Type 0} → Libc → Image → (A → Image → Type 0) → Option A × Image → Type 0
Ends libc im P (some a, im') = P a im'
Ends libc im P (none, im') = Failed libc im im'

-- The same from an image before it.
pub Ends-earlier :
    {A : Type 0} (libc : Libc) (P : A → Image → Type 0) (r : Option A × Image) (im im1 : Image)
    → im.calls ≤ im1.calls
    → Ends libc im1 P r
    → Ends libc im P r
Ends-earlier libc P (some a, im') im im1 le p = p
Ends-earlier libc P (none, im') im im1 le p = record {
  call = p.call;
  made = omega (arith, le, p.made);
  is_last = p.is_last;
  fails = p.fails;
}

pub Ends-after :
    {A B : Type 0} (libc : Libc) (im : Image) (P : A → Image → Type 0) (Q : B → Image → Type 0)
    (r : Option A × Image) (f : A → Act B)
    → Ends libc im P r
    → ((a : A) (im1 : Image) → P a im1 → (im.calls ≤ im1.calls) × Ends libc im1 Q (f a im1))
    → Ends libc im Q (after r f)
Ends-after libc im P Q (some a, im1) f p q =
    Ends-earlier libc Q (f a im1) im im1 (q a im1 p).0 (q a im1 p).1
Ends-after libc im P Q (none, im1) f p q = p

-- `n` blocks were written, from the offset on.
pub record Wrote (n : ℕ) (blocks : ℕ → Block) (im im' : Image) : Type 0 where
  pub contents :
      (x : ℕ)
      → im'.contents x ≡ (if within im.next n x then blocks (x - im.next) else im.contents x)
  pub next : im'.next ≡ im.next + n
  pub calls : im.calls ≤ im'.calls

-- One run of blocks and then another.
abbrev pub append : ℕ → (ℕ → Block) → (ℕ → Block) → ℕ → Block
append n first second i = if ltb i n then first i else second (i - n)

pub Wrote-append :
    (n m : ℕ) (first second : ℕ → Block) (im im1 im2 : Image)
    → Wrote n first im im1
    → Wrote m second im1 im2
    → Wrote (n + m) (append n first second) im im2
Wrote-append n m first second im im1 im2 w v = record {
  contents = contents_lem;
  next = omega (arith, w.next, v.next);
  calls = omega (arith, w.calls, v.calls);
}
  where
    place : (x : ℕ) → x - im1.next ≡ x - im.next - n
    place x = omega (arith, w.next)

    contents_lem :
        (x : ℕ)
        → im2.contents x ≡ (
            if within im.next (n + m) x then append n first second (x - im.next) else im.contents x)
    contents_lem x = ground (arith, w.contents x, v.contents x, w.next, ap second (place x))

-- The same block again.
Wrote-same :
    {n : ℕ} {im im1 im2 : Image} (b : Block)
    → Wrote 1 (λ _. b) im im1
    → Wrote n (λ _. b) im1 im2
    → Wrote (suc n) (λ _. b) im im2
Wrote-same b w v = record {
  contents = λ x. ground (arith, w.contents x, v.contents x, w.next);
  next = omega (arith, w.next, v.next);
  calls = omega (arith, w.calls, v.calls);
}

pub Ends-weaken :
    {A : Type 0} (libc : Libc) (im : Image) (P Q : A → Image → Type 0) (r : Option A × Image)
    → ((a : A) (im' : Image) → P a im' → Q a im')
    → Ends libc im P r
    → Ends libc im Q r
Ends-weaken libc im P Q (some a, im') f p = f a im' p
Ends-weaken libc im P Q (none, im') f p = p

module _ (libc : Libc) where
  last-Failed :
      (im im' : Image)
      → im'.calls ≡ suc im.calls
      → libc.succeeds im.calls ≡ false
      → Failed libc im im'
  last-Failed im im' e fails = record {
    call = im.calls;
    made = omega arith;
    is_last = e;
    fails = fails;
  }

  pub malloc-Ends :
      (im : Image) (blocks : ℕ → Block)
      → Ends libc im (λ _ im'. Wrote 0 blocks im im') (malloc libc im)
  unfolding malloc
  malloc-Ends im blocks = elim (Bool-cases (libc.succeeds im.calls)) [
    | inl e ↦
        rw e (record { contents = λ x. ground arith; next = omega arith; calls = omega arith })
    | inr e ↦ rw e (last-Failed im _ refl e)
  ]

  is_short : (m : ℕ) → (min m (block_size - 1) == block_size) ≡ false
  is_short m = ground arith

  pub write-Ends :
      (b : Block) (im : Image) → Ends libc im (λ _ im'. Wrote 1 (λ _. b) im im') (write libc b im)
  unfolding write
  write-Ends b im = elim (Bool-cases (libc.succeeds im.calls)) [
    | inl e ↦
        rw e (record { contents = λ x. ground arith; next = omega arith; calls = omega arith })
    | inr e ↦ rw (e, is_short (libc.moved im.calls)) (last-Failed im _ refl e)
  ]

  pub write_copies-Ends :
      (n : ℕ) (b : Block) (im : Image)
      → Ends libc im (λ _ im'. Wrote n (λ _. b) im im') (write_copies libc n b im)
  unfolding write_copies
  write_copies-Ends zero b im = record {
    contents = λ x. ground arith;
    next = omega arith;
    calls = omega arith;
  }
  write_copies-Ends (suc n) b im =
      Ends-after libc im (λ _ im'. Wrote 1 (λ _. b) im im') _ (write libc b im) _ (write-Ends b im)
        (λ _ im1 first. (
          first.calls,
          Ends-weaken libc im1 _ _ (write_copies libc n b im1)
              (λ _ im2 rest. Wrote-same b first rest) (write_copies-Ends n b im1),
        ))
