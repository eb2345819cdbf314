-- ===== src/Windows/Bootstrap.antt =====
-- vm_windows_guest.go: reconcileWindowsBootstrap, the Secret with the first credentials. The code
-- is reached only with a resolved profile.
use controller.Base.{
  String, ◌<>◌, Bool, true, false, ◌&&◌, ◌||◌, flip, Option, none, some, [], ◌∷◌, Map, at_key, put,
  ◌==◌, ◌/=◌,
}
use controller.Base.Effects.{Result, fault, lift, find, when, fail_if, ◌>>=◌, ◌>>◌, reads, writes}
use controller.Api.Meta.{Secret, new_meta}
use controller.Api.Workspace.{Workspace, ResolvedVmProfile}
use controller.Workspace.Client.{
  WorkspaceClient, Run, create_secret, update_secret, windows_provisioned_generation, generation_of,
  or_fault,
}
use controller.Workspace.ContainerInit.{with_content, with_meta}
use controller.Workspace.Reset.{windows_bootstrap_secret_name}
use controller.Windows.Client.{WindowsClient}
use controller.Windows.Names.{
  windows_hostname, windows_enrollment_token, windows_answer_file, read_random,
}

abbrev pub answer_key : String
answer_key = "autounattend.xml"

abbrev pub token_key : String
token_key = "enrollment-token.json"

abbrev pub import_secret_of : Option ResolvedVmProfile → String
import_secret_of none = ""
import_secret_of (some p) = p.import_secret_name

abbrev pub import_certificates_of : Option ResolvedVmProfile → String
import_certificates_of none = ""
import_certificates_of (some p) = p.import_cert_config_map_name

unfoldable pub is_provisioned : Workspace → Bool
is_provisioned ws = at_key ws.annotations windows_provisioned_generation == generation_of ws

abbrev pub is_empty : Map → Bool
is_empty [] = true
is_empty (e ∷ m) = false

unfoldable pub is_incomplete : Workspace → Secret → Bool
is_incomplete ws secret =
    at_key secret.content "password" == ""
    || (flip (is_provisioned ws) && at_key secret.content answer_key == "")

module _ {S : Type 0} (api : WorkspaceClient S) (win : WindowsClient S) where
  abbrev pub read_registry : (name namespace : String) → S → Result Secret × S
  read_registry name namespace s = (
    or_fault "windows CDI registry credentials are unavailable" (api.get_secret name namespace s).0,
    (api.get_secret name namespace s).1,
  )

  abbrev pub read_certificates : (name namespace : String) → S → Result Map × S
  read_certificates name namespace s = (
    or_fault "windows CDI registry CA certificates are unavailable"
        (win.get_config_map name namespace s).0,
    (win.get_config_map name namespace s).1,
  )

  unfoldable pub check_registry : Workspace → String → Run S (Unit {0})
  check_registry ws name = do
    registry ← reads (read_registry name ws.namespace)
    fail_if
        (at_key registry.content "accessKeyId" == "" || at_key registry.content "secretKey" == "")
        (fault "windows CDI pod imports require accessKeyId and secretKey credentials")

  unfoldable pub check_certificates : Workspace → String → Run S (Unit {0})
  check_certificates ws name = do
    certificates ← reads (read_certificates name ws.namespace)
    fail_if (is_empty certificates) (fault "windows CDI registry CA certificates are unavailable")

  abbrev pub with_token : Secret → String → Secret
  with_token secret token = with_content api secret (put token_key token secret.content)

  -- The token is added once to a Secret that was made before tokens.
  unfoldable pub backfill_token : Workspace → Secret → Run S (Unit {0})
  backfill_token ws secret = do
    token ← windows_enrollment_token api win ws.uid (generation_of ws)
    writes (update_secret (with_token secret token)) (api.secret_update (with_token secret token))

  unfoldable pub keep_credentials : Workspace → Secret → Run S (Unit {0})
  keep_credentials ws secret = do
    fail_if (flip (api.is_controlled_by secret.meta ws.meta))
        (fault "windows bootstrap Secret is owned by another resource")
    fail_if (is_incomplete ws secret) (fault "windows bootstrap Secret is incomplete")
    when (flip (is_provisioned ws) && at_key secret.content token_key == "")
        (backfill_token ws secret)

  unfoldable pub windows_secret : Workspace → (answer password token : String) → Secret
  windows_secret ws answer password token = record {
    meta = record (new_meta (windows_bootstrap_secret_name api ws) ws.namespace) {
      labels = ("kubeworkspaces.io/windows-generation", generation_of ws) ∷ [];
    };
    type = "Opaque";
    immutable = none;
    content =
        (answer_key, answer)
        ∷ ("username", "workspace")
        ∷ ("password", password)
        ∷ (token_key, token)
        ∷ [];
  }

  unfoldable pub make_credentials : Workspace → Run S (Unit {0})
  make_credentials ws = do
    fail_if (is_provisioned ws)
        (fault "windows initial credentials are missing; explicit recovery or Reset is required")
    bytes ← reads (read_random api win "unable to generate Windows bootstrap credentials")
    let password = win.encode_bytes bytes <> "!9aA"
    answer ← lift (
        or_fault "unable to render Windows bootstrap"
          (windows_answer_file api win (windows_hostname api win ws) "workspace" password))
    token ← windows_enrollment_token api win ws.uid (generation_of ws)
    meta ← lift (api.set_controller ws.meta (windows_secret ws answer password token).meta)
    let made = with_meta api (windows_secret ws answer password token) meta
    writes (create_secret made) (api.secret_create made)

  unfoldable pub bootstrap_with : Workspace → Option Secret → Run S (Unit {0})
  bootstrap_with ws (some secret) = keep_credentials ws secret
  bootstrap_with ws none = make_credentials ws

  unfoldable pub reconcile_windows_bootstrap : Workspace → Run S (Unit {0})
  reconcile_windows_bootstrap ws = do
    when (import_secret_of ws.spec.vm_profile /= "")
        (check_registry ws (import_secret_of ws.spec.vm_profile))
    when (import_certificates_of ws.spec.vm_profile /= "")
        (check_certificates ws (import_certificates_of ws.spec.vm_profile))
    found ← find (reads (api.get_secret (windows_bootstrap_secret_name api ws) ws.namespace))
    bootstrap_with ws found
