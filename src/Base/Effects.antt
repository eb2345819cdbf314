-- ===== src/Base/Effects.antt =====
-- What every reconciler shares: errors, results, and actions on a world that a server and a log
-- of the writing calls make up. The server is a parameter: it may answer any call in any way,
-- so what is proved of the log holds whatever other clients do between two calls.
use Prim.Native.String.{String, ◌++◌}
use mathlib.Core.Bool.{Bool, true, false}
use mathlib.Core.Option.{Option, none, some}
use mathlib.Core.List.{List, [], ◌∷◌}
use controller.Base.Tests.{if◌then◌else◌}

-- The classes of API errors that the code tells apart.
pub data Reason : Type 0 where
  not_found conflict already_exists invalid bad_request unknown : Reason

-- `api` is an error of the client, `fault` is made by `fmt.Errorf`, `wrap` by `fmt.Errorf` with %w.
pub data Error : Type 0 where
  api : Reason → String → Error
  fault : String → Error
  wrap : String → Error → Error

pub data Result {ℓ} (A : Type ℓ) : Type ℓ where
  ok : A → Result A
  err : Error → Result A

-- `apierrors.ReasonForError` looks through wrapped errors.
abbrev pub reason_of : Error → Reason
reason_of (api r text) = r
reason_of (fault text) = unknown
reason_of (wrap text e) = reason_of e

abbrev pub is_not_found : Error → Bool
is_not_found e = elim (reason_of e) [ not_found ↦ true | _ ↦ false ]

abbrev pub is_conflict : Error → Bool
is_conflict e = elim (reason_of e) [ conflict ↦ true | _ ↦ false ]

-- The text of `err.Error()`.
abbrev pub message : Error → String
message (api r text) = text
message (fault text) = text
message (wrap text e) = text ++ ": " ++ message e

abbrev pub is_ok {ℓ} : {A : Type ℓ} → Result A → Bool
is_ok (ok a) = true
is_ok (err e) = false

pub record World (S C : Type 0) : Type 0 where
  pub server : S
  pub calls : List C  -- the last call first

-- A method of a reconciler. What was written before an error stays written.
abbrev pub Act {ℓ} : Type ℓ → Type ℓ → Type ℓ
Act W A = W → Result A × W

module _ {ℓ} {A : Type ℓ} where
  -- `if err != nil { return fmt.Errorf(text+": %w", err) }`
  abbrev pub wrap_result : String → Result A → Result A
  wrap_result text (ok a) = ok a
  wrap_result text (err e) = err (wrap text e)

  abbrev pub missing_ok : Result A → Result (Option A)
  missing_ok (ok a) = ok (some a)
  missing_ok (err e) = if is_not_found e then ok none else err e

module _ {ℓ} {W A : Type ℓ} where
  unfoldable pub pure : A → Act W A
  pure a w = (ok a, w)

  unfoldable pub raise : Error → Act W A
  raise e w = (err e, w)

  -- The result as a value: `err := f()` whose error is looked at.
  unfoldable pub attempt : Act W A → Act W (Result A)
  attempt m w = (ok (m w).0, (m w).1)

  unfoldable pub wrapping : String → Act W A → Act W A
  wrapping text m w = (wrap_result text (m w).0, (m w).1)

  -- A read for which NotFound is an answer.
  unfoldable pub find : Act W A → Act W (Option A)
  find m w = (missing_ok (m w).0, (m w).1)

abbrev pub gone_ok : Result (Unit {0}) → Result (Unit {0})
gone_ok (ok a) = ok a
gone_ok (err e) = if is_not_found e then ok tt else err e

-- `if err := r.Delete(…); err != nil && !errors.IsNotFound(err) { return err }`
unfoldable pub ignore_not_found : {W : Type 0} → Act W (Unit {0}) → Act W (Unit {0})
ignore_not_found m w = (gone_ok (m w).0, (m w).1)

module _ {ℓ} {W A B : Type ℓ} where
  abbrev pub continue : Result A → (A → Act W B) → Act W B
  continue (ok a) f w = f a w
  continue (err e) f w = (err e, w)

unfoldable pub fail_if : {W : Type 0} → Bool → Error → Act W (Unit {0})
fail_if true e w = (err e, w)
fail_if false e w = (ok tt, w)

unfoldable pub when : {W : Type 0} → Bool → Act W (Unit {0}) → Act W (Unit {0})
when true m = m
when false m = λ w. (ok tt, w)

-- A pure result as an action.
unfoldable pub lift : {W A : Type 0} → Result A → Act W A
lift r w = (r, w)

-- `for _, x := range xs { if err := f(x); err != nil { return err } }`
unfoldable pub for_each : {W A : Type 0} → (A → Act W (Unit {0})) → List A → Act W (Unit {0})
for_each f [] w = (ok tt, w)
for_each f (x ∷ xs) w = continue (f x w).0 (λ _. for_each f xs) (f x w).1

module _ {S C A : Type 0} where
  -- A call that only reads.
  unfoldable pub reads : (S → Result A × S) → Act (World S C) A
  reads f w = ((f w.server).0, record w { server = (f w.server).1 })

  -- An observation that cannot fail, such as the time.
  unfoldable pub observes : (S → A × S) → Act (World S C) A
  observes f w = (ok (f w.server).0, record w { server = (f w.server).1 })

  -- A call that writes: it is logged, whether it succeeds or not.
  unfoldable pub writes : C → (S → Result A × S) → Act (World S C) A
  writes c f w = ((f w.server).0, record { server = (f w.server).1; calls = c ∷ w.calls })

-- An event is only recorded.
unfoldable pub emits : {S C : Type 0} → C → Act (World S C) (Unit {0})
emits c w = (ok tt, record w { calls = c ∷ w.calls })

module _ {ℓ} {W A B : Type ℓ} where
  infixl 10 ◌>>=◌
  -- Opening this opens the other combinators, but not the loop.
  unfoldable pub ◌>>=◌ : Act W A → (A → Act W B) → Act W B
  unfolding pure raise attempt wrapping find ignore_not_found fail_if when lift reads observes
      writes emits
  ◌>>=◌ m f w = continue (m w).0 f (m w).1

infixl 10 ◌>>◌
abbrev pub ◌>>◌ : {W B : Type 0} → Act W (Unit {0}) → Act W B → Act W B
m >> n = m >>= λ _. n
