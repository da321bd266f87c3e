-- ===== src/Directory/Create/Ends.antt =====
-- How a run ends: with a value that has a property, or with an error in a state that has one. A run
-- that stops the kernel or runs out of fuel ends in neither way.
use lkp_project.State.{Fs, Run, M, Errno, ok, fail, panic, out_of_fuel, and_then, on_fail}

pub data Ends {A : Type 0} (good : A → Fs → Type 0) (bad : Fs → Type 0) : Run A → Type 0 where
  returns : (a : A) (fs : Fs) → good a fs → Ends good bad (ok a fs)
  fails : (e : Errno) (fs : Fs) → bad fs → Ends good bad (fail e fs)

module _ {A B : Type 0} {good : A → Fs → Type 0} {good' : B → Fs → Type 0} {bad : Fs → Type 0} where
  pub Ends-and_then :
      {r : Run A} (f : A → M B)
      → Ends good bad r
      → ((a : A) (fs : Fs) → good a fs → Ends good' bad (f a fs))
      → Ends good' bad (and_then r f)
  Ends-and_then f (returns a fs h) go = go a fs h
  Ends-and_then f (fails e fs h) go = fails e fs h

  pub Ends-on_fail :
      {bad' : Fs → Type 0} (m : M A) (g : A → M B) (h : Errno → M B) (fs : Fs)
      → Ends good bad (m fs)
      → ((a : A) (fs' : Fs) → good a fs' → Ends good' bad' (g a fs'))
      → ((e : Errno) (fs' : Fs) → bad fs' → Ends good' bad' (h e fs'))
      → Ends good' bad' (on_fail m g h fs)
  Ends-on_fail {bad'} m g h fs end go back = by_run end
    where
      by_run :
          {r : Run A}
          → Ends good bad r
          → Ends good' bad' (elim r [
            | ok a fs' ↦ g a fs'
            | fail e fs' ↦ h e fs'
            | panic fs' ↦ panic fs'
            | out_of_fuel ↦ out_of_fuel
          ])
      by_run (returns a fs' p) = go a fs' p
      by_run (fails e fs' p) = back e fs' p
