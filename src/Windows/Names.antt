-- ===== src/Windows/Names.antt =====
-- vm_windows_guest.go: the identity, the hostname, the enrollment token and the answer file.
use controller.Base.{ℕ, zero, suc, ◌+◌, ◌*◌, ◌/◌, ◌%◌, String, ◌<>◌, List, [], ◌∷◌}
use controller.Base.Effects.{Result, ok, err, lift, ◌>>=◌, reads, observes}
use controller.Api.Workspace.{Workspace}
use controller.Workspace.Client.{WorkspaceClient, Run, generation_of, or_fault}
use controller.Windows.Client.{WindowsClient, EnrollmentToken}

abbrev pub first : ℕ → List ℕ → List ℕ
first zero bytes = []
first (suc n) [] = []
first (suc n) (b ∷ bytes) = b ∷ first n bytes

abbrev pub skip : ℕ → List ℕ → List ℕ
skip zero bytes = bytes
skip (suc n) [] = []
skip (suc n) (b ∷ bytes) = skip n bytes

-- `bytes[at] = f(bytes[at])`
unfoldable pub update_byte : ℕ → (ℕ → ℕ) → List ℕ → List ℕ
update_byte at f [] = []
update_byte zero f (b ∷ bytes) = f b ∷ bytes
update_byte (suc at) f (b ∷ bytes) = b ∷ update_byte at f bytes

-- The version 4 and the variant of RFC 4122.
unfoldable pub stamp_version : List ℕ → List ℕ
stamp_version bytes = update_byte 8 (λ b. b % 64 + 128) (update_byte 6 (λ b. b % 16 + 64) bytes)

abbrev pub lifetime_seconds : ℕ
lifetime_seconds = 7 * 24 * 3600

unfoldable pub answer_text : (hostname username password : String) → String
answer_text hostname username password =
    "<?xml version=\"1.0\" encoding=\"UTF-8\"?>\n<unattend xmlns=\"urn:schemas-microsoft-com:unattend\" xmlns:wcm=\"http://schemas.microsoft.com/WMIConfig/2002/State\"><settings pass=\"specialize\"><component name=\"Microsoft-Windows-Shell-Setup\" processorArchitecture=\"amd64\" publicKeyToken=\"31bf3856ad364e35\" language=\"neutral\" versionScope=\"nonSxS\"><ComputerName>"
    <> hostname
    <> "</ComputerName><TimeZone>UTC</TimeZone></component></settings><settings pass=\"oobeSystem\"><component name=\"Microsoft-Windows-International-Core\" processorArchitecture=\"amd64\" publicKeyToken=\"31bf3856ad364e35\" language=\"neutral\" versionScope=\"nonSxS\"><InputLocale>en-US</InputLocale><SystemLocale>en-US</SystemLocale><UILanguage>en-US</UILanguage><UserLocale>en-US</UserLocale></component><component name=\"Microsoft-Windows-Shell-Setup\" processorArchitecture=\"amd64\" publicKeyToken=\"31bf3856ad364e35\" language=\"neutral\" versionScope=\"nonSxS\"><OOBE><HideEULAPage>true</HideEULAPage><HideOnlineAccountScreens>true</HideOnlineAccountScreens><HideWirelessSetupInOOBE>true</HideWirelessSetupInOOBE><ProtectYourPC>3</ProtectYourPC></OOBE><UserAccounts><LocalAccounts><LocalAccount wcm:action=\"add\"><Name>"
    <> username
    <> "</Name><DisplayName>Workspace</DisplayName><Group>Administrators</Group><Password><Value>"
    <> password
    <> "</Value><PlainText>true</PlainText></Password></LocalAccount></LocalAccounts></UserAccounts></component></settings></unattend>"

module _ {S : Type 0} (api : WorkspaceClient S) (win : WindowsClient S) where
  unfoldable pub windows_identity : Workspace → String
  windows_identity ws =
      let sum = stamp_version (win.sha256_bytes (ws.uid <> "/" <> generation_of ws)) in
      win.encode_hex (first 4 sum)
      <> "-"
      <> win.encode_hex (first 2 (skip 4 sum))
      <> "-"
      <> win.encode_hex (first 2 (skip 6 sum))
      <> "-"
      <> win.encode_hex (first 2 (skip 8 sum))
      <> "-"
      <> win.encode_hex (first 6 (skip 10 sum))

  unfoldable pub windows_hostname : Workspace → String
  windows_hostname ws =
      "KW-" <> win.encode_upper_hex (first 6 (win.sha256_bytes (windows_identity ws)))

  -- A time is a number of nanoseconds.
  unfoldable pub new_token : (uid generation : String) → List ℕ → ℕ → EnrollmentToken
  new_token uid generation nonce now = record {
    token = win.encode_hex nonce;
    workspace_uid = uid;
    workspace_generation = generation;
    expires_at = now / 1000000000 + lifetime_seconds;
  }

  abbrev pub read_random : String → S → Result (List ℕ) × S
  read_random text s = (or_fault text (win.random_bytes s).0, (win.random_bytes s).1)

  -- The time is an argument of windowsEnrollmentToken, so it is read before the bytes.
  unfoldable pub windows_enrollment_token : (uid generation : String) → Run S String
  windows_enrollment_token uid generation = do
    now ← observes api.now
    nonce ← reads (read_random "unable to generate enrollment token")
    lift (
        or_fault "unable to render enrollment token"
          (win.encode_token (new_token uid generation nonce now)))

  abbrev pub escape_password : (hostname username : String) → Result String → Result String
  escape_password hostname username (ok password) = ok (answer_text hostname username password)
  escape_password hostname username (err e) = err e

  abbrev pub escape_username : (hostname password : String) → Result String → Result String
  escape_username hostname password (ok username) =
      escape_password hostname username (win.escape_text password)
  escape_username hostname password (err e) = err e

  abbrev pub escape_hostname : (username password : String) → Result String → Result String
  escape_hostname username password (ok hostname) =
      escape_username hostname password (win.escape_text username)
  escape_hostname username password (err e) = err e

  -- The values are escaped from the first to the last.
  unfoldable pub windows_answer_file : (hostname username password : String) → Result String
  windows_answer_file hostname username password =
      escape_hostname username password (win.escape_text hostname)
