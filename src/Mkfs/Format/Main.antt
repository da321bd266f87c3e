-- ===== src/Mkfs/Format/Main.antt =====
-- How main of mkfs/mkfs-ouichefs.c ends, whichever calls fail.
use lkp_project.Prelude.{
  ℕ, ◌≤◌, ◌<◌, ◌^◌, ◌≢◌, true, not, ltb, ◌==◌, ◌||◌, if◌then◌else◌, Option, none, some, ◌≡◌, refl,
  arith, inl, inr, Bool-cases,
}
use lkp_project.Mkfs.{superblock}
use lkp_project.Mkfs.Geometry.{IsLaidOut, superblock-IsLaidOut}
use lkp_project.Mkfs.Format.{
  Libc, Image, write_areas, exit_status, Command, size_of, min_size, main,
}
use lkp_project.Mkfs.Format.Written.{Failed, Ends, Wrote}
use lkp_project.Mkfs.Format.Areas.{layout, layout_size}
use lkp_project.Mkfs.Format.Sequence.{write_areas-Ends}

-- The arguments name a file of this size that is large enough.
pub record IsAccepted (c : Command) (partition_size : ℕ) : Type 0 where
  pub one_argument : c.argc ≡ 2
  pub no_option : c.first ≢ 45
  pub opens : c.opens ≡ true
  pub has_stat : c.has_stat ≡ true
  pub size : size_of c ≡ some partition_size
  pub enough : min_size ≤ partition_size

-- main rejects its arguments or the file, and writes nothing; or it writes the whole layout at the
-- file's offset and returns 0; or the last malloc or write that it made failed, and it returns 1.
pub data MainEnds (libc : Libc) (c : Command) (im : Image) : ℕ × Image → Type 0 where
  rejected : ((partition_size : ℕ) → ¬ IsAccepted c partition_size) → MainEnds libc c im (1, im)
  formatted :
      (partition_size : ℕ) (im' : Image)
      → IsAccepted c partition_size
      → Wrote (layout_size (superblock partition_size)) (layout (superblock partition_size)) im im'
      → MainEnds libc c im (0, im')
  interrupted :
      (partition_size : ℕ) (im' : Image)
      → IsAccepted c partition_size
      → Failed libc im im'
      → MainEnds libc c im (1, im')

exit_status-MainEnds :
    (libc : Libc) (c : Command) (im : Image) (partition_size : ℕ) (r : Option (Unit {0}) × Image)
    → IsAccepted c partition_size
    → Ends libc im
        (λ _ im'.
          Wrote
            (layout_size (superblock partition_size))
            (layout (superblock partition_size))
            im
            im')
        r
    → MainEnds libc c im (exit_status r)
exit_status-MainEnds libc c im partition_size (some u, im') a w = formatted partition_size im' a w
exit_status-MainEnds libc c im partition_size (none, im') a failed =
    interrupted partition_size im' a failed

positive_areas :
    (partition_size : ℕ)
    → min_size ≤ partition_size
    → partition_size < 2 ^ 43
    → (0 < (superblock partition_size).nr_istore_blocks)
      × (0 < (superblock partition_size).nr_ifree_blocks)
      × (0 < (superblock partition_size).nr_bfree_blocks)
unfolding superblock
positive_areas partition_size enough fits =
    let laid : IsLaidOut (superblock partition_size) =
      superblock-IsLaidOut partition_size enough fits in
    let blocks : 0 < (superblock partition_size).nr_blocks = omega arith in
    (
      omega (arith, blocks, laid.inodes, laid.istore),
      omega (arith, blocks, laid.inodes, laid.ifree),
      omega (arith, blocks, laid.bfree),
    )

module _ (libc : Libc) (c : Command) (im : Image) where
  with_size :
      (size : Option ℕ)
      → size_of c ≡ size
      → c.argc ≡ 2
      → c.first ≢ 45
      → c.opens ≡ true
      → c.has_stat ≡ true
      → ((partition_size : ℕ) → size_of c ≡ some partition_size → partition_size < 2 ^ 43)
      → MainEnds libc c im (elim size [
        | none ↦ (1, im)
        | some partition_size ↦
            if ltb partition_size min_size
            then (1, im)
            else exit_status (write_areas libc partition_size im)
      ])
  with_size none e two no_option opens has_stat fits = rejected λ s a. cc (e, a.size)
  with_size (some partition_size) e two no_option opens has_stat fits =
      elim (Bool-cases (ltb partition_size min_size)) [
        | inl small ↦ rw small (rejected λ s a. ground (arith, small, e, a.size, a.enough))
        | inr large ↦ rw large (
            exit_status-MainEnds libc c im partition_size (write_areas libc partition_size im)
              (record {
                one_argument = two;
                no_option = no_option;
                opens = opens;
                has_stat = has_stat;
                size = e;
                enough = ground (arith, large);
              })
              (let positive =
                  positive_areas partition_size (ground (arith, large)) (fits partition_size e) in
                write_areas-Ends libc partition_size positive.0 positive.1 positive.2 im))
      ]

  -- main, whichever calls of the C library fail, for a file below 2^43 bytes: it returns 1 and
  -- writes nothing, where its arguments or the file are not what it takes; or it writes
  -- the whole layout of the partition and returns 0; or it returns 1, and the last call that it made
  -- failed.
  pub main-MainEnds :
      ((partition_size : ℕ) → size_of c ≡ some partition_size → partition_size < 2 ^ 43)
      → MainEnds libc c im (main libc c im)
  unfolding main
  main-MainEnds fits = elim (Bool-cases (not (c.argc == 2) || (c.first == 45))) [
    | inl bad ↦ rw bad (rejected λ s a. absurd (ground (arith, bad, a.one_argument, a.no_option)))
    | inr good ↦ elim (Bool-cases (not c.opens || not c.has_stat)) [
      | inl bad ↦ rw (good, bad) (rejected λ s a. absurd (ground (arith, bad, a.opens, a.has_stat)))
      | inr fine ↦
          rw (good, fine)
            (with_size (size_of c) refl (ground (arith, good)) (ground (arith, good))
              (ground (arith, fine)) (ground (arith, fine)) fits)
    ]
  ]
