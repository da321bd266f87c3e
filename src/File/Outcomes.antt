-- ===== src/File/Outcomes.antt =====
-- What holds of a run if it returns a value, and that a run returns none.
use lkp_project.Prelude.{true, false, Bool, ◌≡◌, refl, arith, ap}
use lkp_project.State.{on_fail, Errno, Fs, Run, M, ok, fail, panic, out_of_fuel, and_then}

-- Whether a run returns a value.
abbrev pub is_ok : {A : Type 0} → Run A → Bool
is_ok (ok a fs) = true
is_ok (fail e fs) = false
is_ok (panic fs) = false
is_ok out_of_fuel = false

-- Whether a run ends, as a value, an error or a stop.
abbrev pub ends : {A : Type 0} → Run A → Bool
ends (ok a fs) = true
ends (fail e fs) = true
ends (panic fs) = true
ends out_of_fuel = false

-- A property of the value and the state, when there are any.
abbrev pub After : {A : Type 0} → (A → Fs → Type 0) → Run A → Type 0
After p (ok a fs) = p a fs
After p (fail e fs) = Unit
After p (panic fs) = Unit
After p out_of_fuel = Unit

pub After-true :
    {A : Type 0} (p : A → Fs → Type 0) (r : Run A) → ((a : A) (fs : Fs) → p a fs) → After p r
After-true p (ok a fs) h = h a fs
After-true p (fail e fs) h = tt
After-true p (panic fs) h = tt
After-true p out_of_fuel h = tt

module _ {A B : Type 0} where
  pub After-and_then :
      (p : A → Fs → Type 0) (q : B → Fs → Type 0) (r : Run A) (f : A → M B)
      → After p r
      → ((a : A) (fs : Fs) → p a fs → After q (f a fs))
      → After q (and_then r f)
  After-and_then p q (ok a fs) f h go = go a fs h
  After-and_then p q (fail e fs) f h go = tt
  After-and_then p q (panic fs) f h go = tt
  After-and_then p q out_of_fuel f h go = tt

  -- A chain returns no value when its second part returns none after what the first leaves.
  pub After-is_ok :
      (p : A → Fs → Type 0) (r : Run A) (f : A → M B)
      → After p r
      → ((a : A) (fs : Fs) → p a fs → is_ok (f a fs) ≡ false)
      → is_ok (and_then r f) ≡ false
  After-is_ok p (ok a fs) f h go = go a fs h
  After-is_ok p (fail e fs) f h go = refl
  After-is_ok p (panic fs) f h go = refl
  After-is_ok p out_of_fuel f h go = refl

  pub is_ok-second :
      (r : Run A) (f : A → M B)
      → ((a : A) (fs : Fs) → is_ok (f a fs) ≡ false)
      → is_ok (and_then r f) ≡ false
  is_ok-second r f h =
      After-is_ok (λ a fs. Unit) r f (After-true _ r (λ a fs. tt)) (λ a fs u. h a fs)

  pub is_ok-first : (r : Run A) (f : A → M B) → is_ok r ≡ false → is_ok (and_then r f) ≡ false
  is_ok-first (ok a fs) f h = absurd (ground (arith, h))
  is_ok-first (fail e fs) f h = refl
  is_ok-first (panic fs) f h = refl
  is_ok-first out_of_fuel f h = refl

  -- A chain ends when its parts do.
  pub ends-and_then :
      (r : Run A) (f : A → M B)
      → ends r ≡ true
      → ((a : A) (fs : Fs) → ends (f a fs) ≡ true)
      → ends (and_then r f) ≡ true
  ends-and_then (ok a fs) f h go = go a fs
  ends-and_then (fail e fs) f h go = refl
  ends-and_then (panic fs) f h go = refl
  ends-and_then out_of_fuel f h go = absurd (ground (arith, h))

  pub on_fail-none :
      (r : Run A) (fs0 : Fs) (good : A → M B) (bad : Errno → M B)
      → is_ok r ≡ false
      → ((e : Errno) (fs : Fs) → is_ok (bad e fs) ≡ false)
      → is_ok (on_fail (λ _. r) good bad fs0) ≡ false
  on_fail-none (ok a fs) fs0 good bad h go = absurd (ground (arith, h))
  on_fail-none (fail e fs) fs0 good bad h go = go e fs
  on_fail-none (panic fs) fs0 good bad h go = refl
  on_fail-none out_of_fuel fs0 good bad h go = refl

  pub on_fail_ok :
      (m : M A) (good : A → M B) (bad : Errno → M B) (a : A) (fs fs' : Fs)
      → m fs ≡ ok a fs'
      → on_fail m good bad fs ≡ good a fs'
  on_fail_ok m good bad a fs fs' e =
      ap
        (λ (r : Run A). elim r [
          | ok a fs' ↦ good a fs'
          | fail e fs' ↦ bad e fs'
          | panic fs' ↦ panic fs'
          | out_of_fuel ↦ out_of_fuel
        ])
        e

  pub on_fail-fail :
      (m : M A) (good : A → M B) (bad : Errno → M B) {e : Errno} {fs fs' : Fs}
      → m fs ≡ fail e fs'
      → on_fail m good bad fs ≡ bad e fs'
  on_fail-fail m good bad e = rw (on_fail, e) refl

  pub After-on_fail :
      (q : B → Fs → Type 0) (r : Run A) (fs0 : Fs) (good : A → M B) (bad : Errno → M B)
      → ((a : A) (fs : Fs) → After q (good a fs))
      → ((e : Errno) (fs : Fs) → After q (bad e fs))
      → After q (on_fail (λ _. r) good bad fs0)
  After-on_fail q (ok a fs) fs0 good bad h go = h a fs
  After-on_fail q (fail e fs) fs0 good bad h go = go e fs
  After-on_fail q (panic fs) fs0 good bad h go = tt
  After-on_fail q out_of_fuel fs0 good bad h go = tt

  -- The same when the first part leaves a property behind.
  pub After-on_fail_with :
      (p : A → Fs → Type 0) (q : B → Fs → Type 0) (r : Run A) (fs0 : Fs) (good : A → M B)
      (bad : Errno → M B)
      → After p r
      → ((a : A) (fs : Fs) → p a fs → After q (good a fs))
      → ((e : Errno) (fs : Fs) → After q (bad e fs))
      → After q (on_fail (λ _. r) good bad fs0)
  After-on_fail_with p q (ok a fs) fs0 good bad had h go = h a fs had
  After-on_fail_with p q (fail e fs) fs0 good bad had h go = go e fs
  After-on_fail_with p q (panic fs) fs0 good bad had h go = tt
  After-on_fail_with p q out_of_fuel fs0 good bad had h go = tt

  pub After-second :
      (q : B → Fs → Type 0) (r : Run A) (f : A → M B)
      → ((a : A) (fs : Fs) → After q (f a fs))
      → After q (and_then r f)
  After-second q r f h =
      After-and_then (λ a fs. Unit) q r f (After-true _ r (λ a fs. tt)) (λ a fs u. h a fs)
