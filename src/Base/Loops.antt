-- ===== src/Base/Loops.antt =====
-- What a loop over a list has logged when it ends without an error.
use mathlib.Core.Path.{◌≡◌, refl}
use mathlib.Core.Logic.{◌⊎◌, inl, inr}
use mathlib.Core.Bool.{Bool, true, false}
use mathlib.Core.List.{List, [], ◌∷◌, map}
use native.Mathlib.Omega.{arith}
use controller.Base.Tests.{if◌then◌else◌}
use controller.Base.Lists.{keep}
use controller.Base.Effects.{Error, Result, ok, err, World, Act, for_each}

-- `xs` logged one after another on top of `log`.
unfoldable pub log_each {ℓ} : {C : Type ℓ} → List C → List C → List C
log_each [] log = log
log_each (x ∷ xs) log = log_each xs (x ∷ log)

pub Result-cases : (r : Result (Unit {0})) → (r ≡ ok tt) ⊎ ((e : Error) × (r ≡ err e))
Result-cases (ok tt) = inl refl
Result-cases (err e) = inr (e, refl)

-- The result of a test that may fail.
pub Verdict-cases : (r : Result Bool) → (r ≡ ok true) ⊎ (r ≡ ok false) ⊎ ((e : Error) × (r ≡ err e))
Verdict-cases (ok true) = inl refl
Verdict-cases (ok false) = inr (inl refl)
Verdict-cases (err e) = inr (inr (e, refl))

module _ {S C A : Type 0} (f : A → Act (World S C) (Unit {0})) (p : A → Bool) (c : A → C) where
  -- Where each round that succeeds logs `c x` exactly if `p x`, the loop logs the calls of the
  -- elements that pass the test, in order.
  pub for_each-log :
      ((x : A) (w : World S C)
        → (f x w).0 ≡ ok tt
        → (f x w).1.calls ≡ (if p x then c x ∷ w.calls else w.calls))
      → (xs : List A) (w : World S C) → (for_each f xs w).0 ≡ ok tt
      → (for_each f xs w).1.calls ≡ log_each (map c (keep p xs)) w.calls
  unfolding for_each log_each
  for_each-log step [] w h = refl
  for_each-log step (x ∷ xs) w h = elim (Result-cases (f x w).0) [
    | inr (e, bad) ↦ absurd (ground (arith, bad))
    | inl good ↦ ground (arith, good, step x w, for_each-log step xs (f x w).1)
  ]
