-- ===== src/Base/Safety.antt =====
-- What an action may log: `Only P m` says that every call that `m` adds to the log satisfies `P`,
-- whatever the server answers and whether `m` returns or fails. One rule for each combinator.
use mathlib.Core.Path.{◌≡◌, refl}
use mathlib.Core.Bool.{Bool, true, false}
use mathlib.Core.List.{List, [], ◌∷◌}
use controller.Base.Tests.{if◌then◌else◌}
use controller.Base.Lists.{All}
use controller.Base.Effects.{
  Error, Result, ok, err, is_ok, World, Act, pure, raise, attempt, wrapping, find, ignore_not_found,
  fail_if, when, for_each, reads, observes, writes, emits, lift, continue, ◌>>=◌,
}

pub record Only {S C A : Type 0} (P : C → Type 0) (m : Act (World S C) A) : Type 0 where
  pub at : (w : World S C) → All P w.calls → All P (m w).1.calls

module _ {S C A : Type 0} {P : C → Type 0} where
  pub Only-pure : (a : A) → Only {S = S} P (pure a)
  unfolding pure
  Only-pure a = record { at = λ w h. h }

  pub Only-raise : (e : Error) → Only {S = S} {A = A} P (raise e)
  unfolding raise
  Only-raise e = record { at = λ w h. h }

  pub Only-lift : (r : Result A) → Only {S = S} P (lift r)
  unfolding lift
  Only-lift r = record { at = λ w h. h }

  pub Only-attempt : (m : Act (World S C) A) → Only P m → Only P (attempt m)
  unfolding attempt
  Only-attempt m k = record { at = k.at }

  pub Only-wrapping : (text : _) (m : Act (World S C) A) → Only P m → Only P (wrapping text m)
  unfolding wrapping
  Only-wrapping text m k = record { at = k.at }

  pub Only-find : (m : Act (World S C) A) → Only P m → Only P (find m)
  unfolding find
  Only-find m k = record { at = k.at }

  pub Only-reads : (f : S → Result A × S) → Only P (reads f)
  unfolding reads
  Only-reads f = record { at = λ w h. h }

  pub Only-observes : (f : S → A × S) → Only P (observes f)
  unfolding observes
  Only-observes f = record { at = λ w h. h }

  pub Only-writes : (c : C) (f : S → Result A × S) → P c → Only P (writes c f)
  unfolding writes
  Only-writes c f p = record { at = λ w h. (p, h) }

  pub Only-if :
      (b : Bool) (m n : Act (World S C) A)
      → (b ≡ true → Only P m)
      → (b ≡ false → Only P n)
      → Only P (if b then m else n)
  Only-if true m n km kn = km refl
  Only-if false m n km kn = kn refl

module _ {S C : Type 0} {P : C → Type 0} where
  pub Only-ignore_not_found :
      (m : Act (World S C) (Unit {0})) → Only P m → Only P (ignore_not_found m)
  unfolding ignore_not_found
  Only-ignore_not_found m k = record { at = k.at }

  pub Only-emits : (c : C) → P c → Only {S = S} P (emits c)
  unfolding emits
  Only-emits c p = record { at = λ w h. (p, h) }

  pub Only-fail_if : (b : Bool) (e : Error) → Only {S = S} P (fail_if b e)
  unfolding fail_if
  Only-fail_if true e = record { at = λ w h. h }
  Only-fail_if false e = record { at = λ w h. h }

  pub Only-when :
      (b : Bool) (m : Act (World S C) (Unit {0})) → (b ≡ true → Only P m) → Only P (when b m)
  unfolding when
  Only-when true m k = k refl
  Only-when false m k = record { at = λ w h. h }

module _ {S C A B : Type 0} {P : C → Type 0} where
  pub Only-continue :
      (r : Result A) (f : A → Act (World S C) B)
      → ((a : A) → Only P (f a))
      → (w : World S C) → All P w.calls
      → All P (continue r f w).1.calls
  Only-continue (ok a) f k w h = (k a).at w h
  Only-continue (err e) f k w h = h

  pub Only-bind :
      (m : Act (World S C) A) (f : A → Act (World S C) B)
      → Only P m
      → ((a : A) → Only P (f a))
      → Only P (m >>= f)
  unfolding ◌>>=◌
  Only-bind m f km kf = record { at = λ w h. Only-continue (m w).0 f kf (m w).1 (km.at w h) }

module _ {S C A B : Type 0} {P : C → Type 0} where
  continue-Only :
      (r : Result A) (f : A → Act (World S C) B)
      → ((a : A) → r ≡ ok a → Only P (f a))
      → (w : World S C) → All P w.calls
      → All P (continue r f w).1.calls
  continue-Only (ok a) f k w h = (k a refl).at w h
  continue-Only (err e) f k w h = h

  -- What follows may use what the first part has returned.
  pub Only-bind-ok :
      (m : Act (World S C) A) (f : A → Act (World S C) B)
      → Only P m
      → ((a : A) (w : World S C) → (m w).0 ≡ ok a → Only P (f a))
      → Only P (m >>= f)
  unfolding ◌>>=◌
  Only-bind-ok m f km kf = record {
    at = λ w h. continue-Only (m w).0 f (λ a e. kf a w e) (m w).1 (km.at w h);
  }

module _ {S C A B : Type 0} {P : C → Type 0} where
  -- What follows may use that `r` is no error.
  pub Only-bind-lift :
      (r : Result A) (f : A → Act (World S C) B)
      → ((a : A) → r ≡ ok a → Only P (f a))
      → Only P (lift r >>= f)
  unfolding ◌>>=◌
  Only-bind-lift (ok a) f k = k a refl
  Only-bind-lift (err e) f k = record { at = λ w h. h }

module _ {S C B : Type 0} {P : C → Type 0} where
  -- What follows a guard may use that it has passed.
  pub Only-guard :
      (b : Bool) (e : Error) (f : Unit {0} → Act (World S C) B)
      → (b ≡ false → Only P (f tt))
      → Only P (fail_if b e >>= f)
  unfolding ◌>>=◌
  Only-guard true e f k = record { at = λ w h. h }
  Only-guard false e f k = k refl

-- The rules at one world, where what follows may use how the first part has left it.
module _ {S C A B : Type 0} (P : C → Type 0) where
  continue-at :
      (r : Result A) (f : A → Act (World S C) B) (w : World S C)
      → All P w.calls
      → ((a : A) → r ≡ ok a → All P (f a w).1.calls)
      → All P (continue r f w).1.calls
  continue-at (ok a) f w h k = k a refl
  continue-at (err e) f w h k = h

  pub bind-at :
      (m : Act (World S C) A) (f : A → Act (World S C) B) (w : World S C)
      → All P (m w).1.calls
      → ((a : A) → (m w).0 ≡ ok a → All P (f a (m w).1).1.calls)
      → All P ((m >>= f) w).1.calls
  unfolding ◌>>=◌
  bind-at m f w h k = continue-at (m w).0 f (m w).1 h k

module _ {S C B : Type 0} (P : C → Type 0) where
  pub guard-at :
      (b : Bool) (e : Error) (f : Unit {0} → Act (World S C) B) (w : World S C)
      → All P w.calls
      → (b ≡ false → All P (f tt w).1.calls)
      → All P ((fail_if b e >>= f) w).1.calls
  unfolding ◌>>=◌
  guard-at true e f w h k = h
  guard-at false e f w h k = k refl

module _ {S C A : Type 0} {P : C → Type 0} (f : A → Act (World S C) (Unit {0})) where
  for_each-keeps :
      ((a : A) → Only P (f a))
      → (xs : List A) (w : World S C) → All P w.calls
      → All P (for_each f xs w).1.calls
  unfolding for_each
  for_each-keeps k [] w h = h
  for_each-keeps k (x ∷ xs) w h =
      Only-continue (f x w).0 (λ _. for_each f xs) (λ _. record { at = for_each-keeps k xs })
        (f x w).1 ((k x).at w h)

  pub Only-for_each : (xs : List A) → ((a : A) → Only P (f a)) → Only P (for_each f xs)
  Only-for_each xs k = record { at = for_each-keeps k xs }

-- An action that cannot succeed makes what it is part of fail.
module _ {S C A B : Type 0} where
  fails-continue :
      (r : Result A) (f : A → Act (World S C) B) (w : World S C)
      → ((a : A) (v : World S C) → r ≡ ok a → is_ok (f a v).0 ≡ false)
      → is_ok (continue r f w).0 ≡ false
  fails-continue (ok a) f w h = h a w refl
  fails-continue (err e) f w h = refl

  pub fails-bind :
      (m : Act (World S C) A) (f : A → Act (World S C) B) (w : World S C)
      → ((a : A) (v : World S C) → (m w).0 ≡ ok a → is_ok (f a v).0 ≡ false)
      → is_ok ((m >>= f) w).0 ≡ false
  unfolding ◌>>=◌
  fails-bind m f w h = fails-continue (m w).0 f (m w).1 h

pub ruleset only_rules = (
  Only-pure, Only-raise, Only-lift, Only-attempt, Only-wrapping, Only-find, Only-reads,
  Only-observes, Only-writes, Only-if, Only-ignore_not_found, Only-emits, Only-fail_if, Only-when,
  Only-bind, Only-for_each,
)
