-- ===== src/Auth/Names.antt =====
-- What is known of the names and passwords of localauth.go.
use Prim.Native.Char.{Char, code}
use Prim.Native.String.{◌∷◌}
use controller.Base.{
  ℕ, zero, suc, ◌≤◌, ◌<◌, String, Bool, true, ◌≡◌, refl, ap, ◌⊎◌, some, ltb, leb, ◌&&◌, ◌||◌, arith,
  if◌then◌else◌, keep_chars, trim_left, trim_right, take_chars, chars, AllChars, replace_all,
  keep_chars-AllChars, trim_left-AllChars, trim_right-AllChars, take_chars-AllChars,
  take_chars-bound,
}
use controller.Base.Effects.{ok, World, ◌>>=◌}
use controller.Auth.Client.{AuthClient, Call, password_charset}
use controller.Auth.Slug.{
  is_slug_char, slugify_email, char_at, pick_char, generate_chars, generate_password,
}

abbrev pub IsSlugChar : Char → Type 0
IsSlugChar c = is_slug_char c ≡ true

-- The name that an email is turned into has at most 63 characters, each one a lower-case letter,
-- a digit or a dash, whatever the email is and however it is put in lower case.
pub slugify_email-IsName :
    (lower : String → String) (email : String)
    → (chars (slugify_email lower email) ≤ 63) × AllChars IsSlugChar (slugify_email lower email)
unfolding slugify_email
slugify_email-IsName lower email = go s all
  where
    s : String
    s = trim_right b'-' (
        trim_left b'-' (
          keep_chars is_slug_char
            (replace_all "_" "-" (replace_all "." "-" (replace_all "@" "-at-" (lower email))))))

    all : AllChars IsSlugChar s
    all =
        trim_right-AllChars IsSlugChar b'-' _
          (trim_left-AllChars IsSlugChar b'-' _ (keep_chars-AllChars is_slug_char _))

    go :
        (t : String)
        → AllChars IsSlugChar t
        → (chars (if ltb 63 (chars t) then take_chars 63 t else t) ≤ 63)
          × AllChars IsSlugChar (if ltb 63 (chars t) then take_chars 63 t else t)
    go t h = ground (arith, take_chars-bound 63 t, take_chars-AllChars IsSlugChar 63 t)

abbrev pub IsAlphanumeric : Char → Type 0
IsAlphanumeric c =
    (b'A' ≤ code c × code c ≤ b'Z')
    ⊎ (b'a' ≤ code c × code c ≤ b'z')
    ⊎ (b'0' ≤ code c × code c ≤ b'9')

-- `AllChars` as a test, by which the kernel reads a long text at once.
is_alphanumeric : Char → Bool
is_alphanumeric c =
    (leb b'A' (code c) && leb (code c) b'Z')
    || (leb b'a' (code c) && leb (code c) b'z')
    || (leb b'0' (code c) && leb (code c) b'9')

char_at-Is :
    (p : Char → Bool) (s : String) (n : ℕ)
    → n < chars s
    → AllChars (λ c. p c ≡ true) s
    → (c : Char) × (char_at s n ≡ some c) × (p c ≡ true)
unfolding char_at
char_at-Is p String.[] n h a = absurd (ground arith)
char_at-Is p (c ∷ s) zero h (a, b) = (c, refl, a)
char_at-Is p (c ∷ s) (suc n) h (a, b) = char_at-Is p s n (omega arith) b

all_chars : (Char → Bool) → String → Bool
all_chars p String.[] = true
all_chars p (c ∷ s) = p c && all_chars p s

all_chars-AllChars :
    (p : Char → Bool) (s : String) → all_chars p s ≡ true → AllChars (λ c. p c ≡ true) s
unfolding all_chars
all_chars-AllChars p String.[] h = tt
all_chars-AllChars p (c ∷ s) h = (ground arith, all_chars-AllChars p s (ground arith))

charset : AllChars (λ c. is_alphanumeric c ≡ true) password_charset
unfolding is_alphanumeric all_chars
charset = all_chars-AllChars is_alphanumeric password_charset refl

module _ {S : Type 0} (api : AuthClient S) where
  picked :
      (n : ℕ) (w : World S Call)
      → n < chars password_charset
      → (c : Char) × (IsAlphanumeric c) × (pick_char (char_at password_charset n) w ≡ (ok c, w))
  unfolding pick_char ◌>>=◌ is_alphanumeric
  picked n w h =
      let (c, e, a) = char_at-Is is_alphanumeric password_charset n h charset in
      (c, ground arith, rw e refl)

  module _
      (random : (v : S)
        → (n : ℕ) × (n < chars password_charset)
          × ((api.rand_int (chars password_charset) v).0 ≡ ok n)) where
    generated :
        (k : ℕ) (w : World S Call)
        → (p : String) × (chars p ≡ k)
          × AllChars IsAlphanumeric p
          × ((generate_chars api k w).0 ≡ ok p)
    unfolding generate_chars ◌>>=◌
    generated zero w = ("", refl, tt, refl)
    generated (suc k) w =
        let v = record w { server = (api.rand_int (chars password_charset) w.server).1 } in
        let (n, small, drawn) = random w.server in
        let (c, good, e) = picked n v small in
        let (p, len, all, e') = generated k v in
        (c ∷ p, ap suc len, (good, all), rw (drawn, e, e') refl)

    -- Where the random source always gives a number below its bound, a password is generated,
    -- of 20 characters, each one a letter or a digit: no index into the charset is out of range.
    pub generated_password_is_strong :
        (w : World S Call)
        → (p : String) × (chars p ≡ 20)
          × AllChars IsAlphanumeric p
          × ((generate_password api w).0 ≡ ok p)
    unfolding generate_password
    generated_password_is_strong w = generated 20 w
