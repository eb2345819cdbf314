-- ===== src/Base/Integers.antt =====
-- Go's signed integers, as the library's ℤ writes them: `negsuc n` is -(n + 1).
use native.Mathlib.Decide.{ℕ_discrete}
use Prim.Native.Nat.{ℕ, suc, ◌-◌, ◌%◌, ◌^◌}
use mathlib.Core.Path.{◌≡◌, refl}
use mathlib.Core.Bool.{Bool, true, false}
use native.Mathlib.Omega.{arith}
use controller.Base.Tests.{ltb, decided}

pub data ℤ : Type 0 where
  pos : ℕ → ℤ
  negsuc : ℕ → ℤ

unfoldable pub ℤ-discrete : Discrete ℤ
ℤ-discrete = hlevel ℕ_discrete

abbrev pub eq_int : ℤ → ℤ → Bool
eq_int a b = decided (ℤ-discrete a b)

-- `a < b`.
abbrev pub ltb_int : ℤ → ℤ → Bool
ltb_int (pos a) (pos b) = ltb a b
ltb_int (pos a) (negsuc b) = false
ltb_int (negsuc a) (pos b) = true
ltb_int (negsuc a) (negsuc b) = ltb b a

-- The conversion of an int64 to uint64.
abbrev pub to_uint64 : ℤ → ℕ
to_uint64 (pos n) = n
to_uint64 (negsuc n) = (2 ^ 64 - suc n) % 2 ^ 64

-- The order that `ltb_int` tests.
abbrev pub IsAtMost : ℤ → ℤ → Type 0
IsAtMost a b = ltb_int b a ≡ false

pub IsAtMost-refl : (a : ℤ) → IsAtMost a a
IsAtMost-refl (pos a) = ground arith
IsAtMost-refl (negsuc a) = ground arith

pub IsAtMost-trans : (a b c : ℤ) → IsAtMost a b → IsAtMost b c → IsAtMost a c
IsAtMost-trans (pos a) (pos b) (pos c) h k = ground arith
IsAtMost-trans (pos a) (pos b) (negsuc c) h k = k
IsAtMost-trans (pos a) (negsuc b) c h k = absurd (ground arith)
IsAtMost-trans (negsuc a) (pos b) (pos c) h k = refl
IsAtMost-trans (negsuc a) (pos b) (negsuc c) h k = absurd (ground arith)
IsAtMost-trans (negsuc a) (negsuc b) (pos c) h k = refl
IsAtMost-trans (negsuc a) (negsuc b) (negsuc c) h k = ground arith

pub IsAtMost-lt : (a b : ℤ) → ltb_int a b ≡ true → IsAtMost a b
IsAtMost-lt (pos a) (pos b) h = ground arith
IsAtMost-lt (pos a) (negsuc b) h = absurd (ground arith)
IsAtMost-lt (negsuc a) (pos b) h = refl
IsAtMost-lt (negsuc a) (negsuc b) h = ground arith
