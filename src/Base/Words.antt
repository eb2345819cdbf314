-- ===== src/Base/Words.antt =====
-- More of Go's package strings, on characters that a test picks out.
use Prim.Native.Nat.{ℕ}
use Prim.Native.Char.{Char, code}
use Prim.Native.String.{String, [], ◌∷◌}
use mathlib.Core.Path.{◌≡◌, refl}
use mathlib.Core.Bool.{Bool, true, false, ◌||◌}
use text.Mathlib.Text.{starts_with}
use controller.Base.Tests.{nat_eq, ◌==◌, if◌then◌else◌}

-- strings.HasPrefix
abbrev pub has_prefix : String → String → Bool
has_prefix s prefix = starts_with s prefix

-- strings.HasSuffix
unfoldable pub has_suffix : String → String → Bool
has_suffix [] suffix = suffix == ""
has_suffix (c ∷ s) suffix = let later = has_suffix s suffix in (c ∷ s) == suffix || later

-- strings.Contains with one character.
unfoldable pub contains_char : ℕ → String → Bool
contains_char k [] = false
contains_char k (c ∷ s) = nat_eq (code c) k || contains_char k s

-- `s[strings.LastIndex(s, k)+1:]`
unfoldable pub after_last : ℕ → String → String
after_last k [] = []
after_last k (c ∷ s) =
    let rest = after_last k s in
    if contains_char k s then rest else if nat_eq (code c) k then s else c ∷ s

abbrev keep_unless : (Char → Bool) → Char → String → String
keep_unless p c [] = if p c then [] else c ∷ []
keep_unless p c (d ∷ s) = c ∷ d ∷ s

-- strings.TrimRight, the cutset given by its test.
unfoldable pub trim_right_set : (Char → Bool) → String → String
trim_right_set p [] = []
trim_right_set p (c ∷ s) = keep_unless p c (trim_right_set p s)

words_tests :
    (has_suffix "nginx:latest" ":latest" ≡ true)
    × (after_last b'/' "ghcr.io/a/b:1" ≡ "b:1")
    × (after_last b'/' "b" ≡ "b")
    × (trim_right_set (λ c. nat_eq (code c) b'-' || nat_eq (code c) b'.') "a.b-." ≡ "a.b")
unfolding has_suffix contains_char after_last trim_right_set
words_tests = (refl, refl, refl, refl)
