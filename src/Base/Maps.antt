-- ===== src/Base/Maps.antt =====
-- Go's map[string]string as an association list. `at_key` is `m[k]`, which gives "" on a missing
-- key; `put_all` is the loop that copies every entry of one map into another.
use Prim.Native.String.{String}
use mathlib.Core.Path.{◌≡◌, refl}
use mathlib.Core.Bool.{Bool, true, false}
use mathlib.Core.Option.{Option, none, some}
use mathlib.Core.List.{List, [], ◌∷◌}
use native.Mathlib.Omega.{arith}
use text.Mathlib.TextEquality.{eq_iff}
use text.Mathlib.TextPositions.{eq_refl}
use controller.Base.Tests.{◌==◌, if◌then◌else◌}

module _ {ℓ} {V : Type ℓ} where
  unfoldable pub lookup : String → List (String × V) → Option V
  lookup k [] = none
  lookup k ((j, v) ∷ m) = if j == k then some v else lookup k m

  unfoldable pub put : String → V → List (String × V) → List (String × V)
  put k v [] = (k, v) ∷ []
  put k v ((j, w) ∷ m) = if j == k then (k, v) ∷ m else (j, w) ∷ put k v m

  unfoldable pub delete : String → List (String × V) → List (String × V)
  delete k [] = []
  delete k ((j, v) ∷ m) = let rest = delete k m in if j == k then rest else (j, v) ∷ rest

  unfoldable pub put_all : List (String × V) → List (String × V) → List (String × V)
  put_all [] m = m
  put_all ((k, v) ∷ more) m = put k v (put_all more m)

  abbrev pub or_else : Option V → Option V → Option V
  or_else none o = o
  or_else (some v) o = some v

  pub lookup-put :
      (k j : String) (v : V) (m : List (String × V))
      → lookup j (put k v m) ≡ (if k == j then some v else lookup j m)
  unfolding lookup put
  lookup-put k j v [] = refl
  lookup-put k j v ((i, w) ∷ m) =
      ground (arith, eq_iff k j, eq_iff i k, eq_iff i j, lookup-put k j v m)

  pub lookup-delete :
      (k j : String) (m : List (String × V))
      → lookup j (delete k m) ≡ (if k == j then none else lookup j m)
  unfolding lookup delete
  lookup-delete k j [] = ground arith
  lookup-delete k j ((i, w) ∷ m) =
      ground (arith, lookup-delete k j m, eq_iff i k, eq_iff i j, eq_iff k j)

  -- The copied entries win over those that were there.
  pub lookup-put_all :
      (j : String) (src m : List (String × V))
      → lookup j (put_all src m) ≡ or_else (lookup j src) (lookup j m)
  unfolding lookup put_all
  lookup-put_all j [] m = refl
  lookup-put_all j ((k, v) ∷ more) m =
      ground (arith, lookup-put k j v (put_all more m), lookup-put_all j more m, eq_iff k j)

abbrev pub Map : Type 0
Map = List (String × String)

abbrev pub text_or : Option String → String
text_or none = ""
text_or (some s) = s

abbrev pub at_key : Map → String → String
at_key m k = text_or (lookup k m)

abbrev pub has_key {ℓ} : {V : Type ℓ} → List (String × V) → String → Bool
has_key m k = elim (lookup k m) [ none ↦ false | some v ↦ true ]

-- For `simp` and `grind`.
pub ruleset map_laws = (lookup-put, lookup-delete, lookup-put_all, eq_refl)
