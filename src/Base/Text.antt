-- ===== src/Base/Text.antt =====
-- The functions of Go's package strings that the code calls.
use Prim.Native.Nat.{ℕ, zero, suc, ◌-◌, ◌≤◌}
use Prim.Native.String.{String, [], ◌∷◌, ◌++◌, count}
use mathlib.Core.Path.{◌≡◌, refl}
use text.Mathlib.Text.{starts_with}
use Prim.Native.Char.{Char, code}
use mathlib.Core.Bool.{Bool, true, false}
use native.Mathlib.Omega.{arith}
use controller.Base.Tests.{nat_eq, leb, if◌then◌else◌}

-- `skip` characters are left of the occurrence that was replaced last.
replace_from : String → String → ℕ → String → String
replace_from old new skip [] = []
replace_from old new (suc skip) (c ∷ s) = replace_from old new skip s
replace_from old new zero (c ∷ s) =
    let hit = new ++ replace_from old new (count old - 1) s in
    let miss = c ∷ replace_from old new zero s in if starts_with (c ∷ s) old then hit else miss

-- strings.ReplaceAll with a nonempty `old`.
unfoldable pub replace_all : String → String → String → String
unfolding replace_from
replace_all old new s = replace_from old new zero s

replace_all_test : replace_all "{{u}}" "bob" "ws-{{u}}-{{u}" ≡ "ws-bob-{{u}"
unfolding replace_all
replace_all_test = refl

-- The characters of `s` that pass the test.
unfoldable pub keep_chars : (Char → Bool) → String → String
keep_chars p [] = []
keep_chars p (c ∷ s) = let rest = keep_chars p s in if p c then c ∷ rest else rest

-- strings.TrimLeft and strings.TrimRight with a one-character cutset.
unfoldable pub trim_left : ℕ → String → String
trim_left k [] = []
trim_left k (c ∷ s) = let rest = trim_left k s in if nat_eq (code c) k then rest else c ∷ s

abbrev attach_unless : ℕ → Char → String → String
attach_unless k c [] = if nat_eq (code c) k then [] else c ∷ []
attach_unless k c (d ∷ s) = c ∷ d ∷ s

unfoldable pub trim_right : ℕ → String → String
trim_right k [] = []
trim_right k (c ∷ s) = attach_unless k c (trim_right k s)

-- The first `n` characters, which are `s[:n]` where `s` is ASCII.
unfoldable pub take_chars : ℕ → String → String
take_chars zero s = []
take_chars (suc n) [] = []
take_chars (suc n) (c ∷ s) = c ∷ take_chars n s

-- The characters after the first `n`.
unfoldable pub drop_chars : ℕ → String → String
drop_chars zero s = s
drop_chars (suc n) [] = []
drop_chars (suc n) (c ∷ s) = drop_chars n s

-- The number of characters, which is `len(s)` where `s` is ASCII.
abbrev pub chars : String → ℕ
chars [] = 0
chars (c ∷ s) = suc (chars s)

-- strings.TrimPrefix
unfoldable pub trim_prefix : String → String → String
trim_prefix s prefix = if starts_with s prefix then drop_chars (chars prefix) s else s

abbrev pub AllChars : (Char → Type 0) → String → Type 0
AllChars P [] = Unit
AllChars P (c ∷ s) = P c × AllChars P s

text_tests :
    (trim_right b'-' (trim_left b'-' "--a-b--") ≡ "a-b")
    × (take_chars 3 "abcde" ≡ "abc")
    × (keep_chars (λ c. leb b'a' (code c)) "aBc" ≡ "ac")
unfolding trim_right trim_left take_chars keep_chars
text_tests = (refl, refl, refl)

pub keep_chars-AllChars :
    (p : Char → Bool) (s : String) → AllChars (λ c. p c ≡ true) (keep_chars p s)
unfolding keep_chars
keep_chars-AllChars p [] = tt
keep_chars-AllChars p (c ∷ s) = ground (arith, keep_chars-AllChars p s)

module _ (P : Char → Type 0) where
  AllChars-if :
      (b : Bool) (s t : String) → AllChars P s → AllChars P t → AllChars P (if b then s else t)
  AllChars-if true s t hs ht = hs
  AllChars-if false s t hs ht = ht

  pub trim_left-AllChars : (k : ℕ) (s : String) → AllChars P s → AllChars P (trim_left k s)
  unfolding trim_left
  trim_left-AllChars k [] h = tt
  trim_left-AllChars k (c ∷ s) (h, hs) =
      AllChars-if (nat_eq (code c) k) (trim_left k s) (c ∷ s) (trim_left-AllChars k s hs) (h, hs)

  attached : (k : ℕ) (c : Char) (s : String) → P c → AllChars P s → AllChars P (attach_unless k c s)
  attached k c [] h hs = AllChars-if (nat_eq (code c) k) [] (c ∷ []) tt (h, tt)
  attached k c (d ∷ s) h hs = (h, hs)

  pub trim_right-AllChars : (k : ℕ) (s : String) → AllChars P s → AllChars P (trim_right k s)
  unfolding trim_right
  trim_right-AllChars k [] h = tt
  trim_right-AllChars k (c ∷ s) (h, hs) =
      attached k c (trim_right k s) h (trim_right-AllChars k s hs)

  pub take_chars-AllChars : (n : ℕ) (s : String) → AllChars P s → AllChars P (take_chars n s)
  unfolding take_chars
  take_chars-AllChars zero s h = tt
  take_chars-AllChars (suc n) [] h = tt
  take_chars-AllChars (suc n) (c ∷ s) (h, hs) = (h, take_chars-AllChars n s hs)

pub take_chars-bound : (n : ℕ) (s : String) → chars (take_chars n s) ≤ n
unfolding take_chars
take_chars-bound zero s = omega arith
take_chars-bound (suc n) [] = omega arith
take_chars-bound (suc n) (c ∷ s) = omega (arith, take_chars-bound n s)
