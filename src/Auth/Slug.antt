-- ===== src/Auth/Slug.antt =====
-- Names and passwords of localauth.go: slugifyEmail, localAuthSecretName, generatePassword,
-- hashPassword.
use Prim.Native.Char.{Char, code}
use Prim.Native.String.{◌∷◌}
use controller.Base.{
  ℕ, zero, suc, String, ◌<>◌, Bool, ◌&&◌, ◌||◌, Option, none, some, leb, ltb, nat_eq, if◌then◌else◌,
  replace_all, keep_chars, trim_left, trim_right, take_chars, chars,
}
use controller.Base.Effects.{fault, pure, raise, wrapping, ◌>>=◌, reads}
use controller.Auth.Client.{AuthClient, Run, generated_password_length, password_charset}

abbrev pub is_slug_char : Char → Bool
is_slug_char c =
    (leb b'a' (code c) && leb (code c) b'z')
    || (leb b'0' (code c) && leb (code c) b'9')
    || nat_eq (code c) b'-'

-- `lower` is strings.ToLower.
unfoldable pub slugify_email : (String → String) → String → String
slugify_email lower email =
    let dashed = replace_all "_" "-" (replace_all "." "-" (replace_all "@" "-at-" (lower email))) in
    let s = trim_right b'-' (trim_left b'-' (keep_chars is_slug_char dashed)) in
    if ltb 63 (chars s) then take_chars 63 s else s

unfoldable pub local_auth_secret_name : (String → String) → String → String
local_auth_secret_name sha256_prefix uid = "kw-password-" <> sha256_prefix uid

-- `s[i]` of an ASCII text; an index out of range is a panic.
unfoldable pub char_at : String → ℕ → Option Char
char_at String.[] i = none
char_at (c ∷ s) zero = some c
char_at (c ∷ s) (suc i) = char_at s i

unfoldable pub pick_char : {S : Type 0} → Option Char → Run S Char
pick_char (some c) = pure c
pick_char none = raise (fault "panic: index out of range")

module _ {S : Type 0} (api : AuthClient S) where
  -- The loop over the bytes of the password; `k` are left.
  unfoldable pub generate_chars : ℕ → Run S String
  generate_chars zero = pure ""
  generate_chars (suc k) = do
    n ←
        wrapping "failed to generate random password"
          (reads (api.rand_int (chars password_charset)))
    c ← pick_char (char_at password_charset n)
    rest ← generate_chars k
    pure (c ∷ rest)

  unfoldable pub generate_password : Run S String
  generate_password = generate_chars generated_password_length

  unfoldable pub hash_password : String → Run S String
  hash_password password = wrapping "failed to hash password" (reads (api.generate_hash password))
