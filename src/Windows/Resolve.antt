-- ===== src/Windows/Resolve.antt =====
-- vm_windows_guest.go: resolveWindowsProfile, with windowsRemoteDesktopTransport.
use controller.Base.{
  ◌-◌, ◌%◌, ◌^◌, ℤ, pos, negsuc, String, ◌<>◌, Bool, true, false, ◌||◌, flip, Option, none, some,
  List, [], ◌∷◌, lookup, Map, ltb, ◌==◌, ◌/=◌, if◌then◌else◌,
}
use controller.Base.Effects.{
  fault, pure, raise, find, fail_if, ◌>>=◌, ◌>>◌, reads, observes, writes,
}
use controller.Api.Workspace.{Workspace, Container, ResolvedVmProfile}
use controller.Api.Image.{Image, ImageSpec, ImageRemoteDesktop}
use controller.Workspace.Client.{WorkspaceClient, Run, Vm, update_workspace, windows_11_amd64_v1}
use controller.Workspace.Reset.{set_generation}
use controller.Windows.Client.{WindowsClient}
use controller.Windows.Profile.{validate_windows_profile}

-- The conversion `int32(x)`, which wraps around.
unfoldable pub to_int32 : ℤ → ℤ
to_int32 (pos n) =
    if ltb (n % 2 ^ 32) (2 ^ 31) then pos (n % 2 ^ 32) else negsuc (2 ^ 32 - 1 - n % 2 ^ 32)
to_int32 (negsuc n) =
    if ltb (n % 2 ^ 32) (2 ^ 31) then negsuc (n % 2 ^ 32) else pos (2 ^ 32 - 1 - n % 2 ^ 32)

abbrev pub with_profile : Workspace → Option ResolvedVmProfile → Workspace
with_profile ws profile = record {
  meta = ws.meta;
  spec = record ws.spec { vm_profile = profile };
  status = ws.status;
}

unfoldable pub windows_remote_desktop_transport : Option ImageRemoteDesktop → Bool
windows_remote_desktop_transport none = true
windows_remote_desktop_transport (some d) = d.protocol == "agent"

abbrev pub protocol_of : Option ImageRemoteDesktop → String
protocol_of none = ""
protocol_of (some d) = d.protocol

unfoldable pub is_private_root : ImageSpec → Bool
is_private_root spec = flip (
    flip spec.persistent_root_disk
    || spec.default_cloud_init
    || spec.default_user_data /= ""
    || spec.default_password /= "")

module _ {S : Type 0} (api : WorkspaceClient S) (win : WindowsClient S) where
  abbrev pub cores : Option String → ℤ
  cores none = pos 4
  cores (some cpu) = to_int32 (win.quantity_value cpu)

  abbrev pub memory : Option String → String
  memory none = "8Gi"
  memory (some text) = text

  -- The limits of the one container; none where there is another number of containers.
  abbrev pub sole_limits : List Container → Map
  sole_limits (c ∷ []) = c.limits
  sole_limits _ = []

  unfoldable pub resolved_profile : ImageSpec → String → List Container → ResolvedVmProfile
  resolved_profile spec generation containers = record {
    gpu = none;
    id = spec.vm_profile;
    image = spec.image;
    generation = generation;
    root_disk_size =
        if spec.persistent_root_disk_size == "" then "80Gi" else spec.persistent_root_disk_size;
    cpu_cores = cores (lookup "cpu" (sole_limits containers));
    guest_memory = memory (lookup "memory" (sole_limits containers));
    import_secret_name = "";
    import_cert_config_map_name = "";
    storage_class_name = "";
  }

  abbrev pub save_profile : Workspace → Run S (Workspace × Bool)
  save_profile ws = do
    written ← writes (update_workspace ws) (api.workspace_update ws)
    pure (written, true)

  abbrev pub refuse_legacy : Option Vm → Run S (Unit {0})
  refuse_legacy none = pure tt
  refuse_legacy (some vm) =
      raise (fault "an existing legacy VM cannot change guest profile without an explicit Reset")

  -- A protocol has no character that %q escapes.
  unfoldable pub resolve_image : Workspace → ImageSpec → Run S (Workspace × Bool)
  resolve_image ws spec = do
    fail_if (spec.vm_profile /= windows_11_amd64_v1) (fault "unsupported Image VM profile")
    fail_if (flip (is_private_root spec)) (
        fault
          "windows images require persistent generalised roots, native Sysprep and no shared password")
    fail_if (flip (windows_remote_desktop_transport spec.remote_desktop)) (
        fault (
          "windows images support only the agent remote desktop transport, not \""
          <> protocol_of spec.remote_desktop
          <> "\""))
    existing ← find (reads (api.get_vm ws.name ws.namespace))
    refuse_legacy existing
    generation ← observes api.new_uuid
    let profile = resolved_profile spec generation ws.spec.template.containers
    let resolved = with_profile ws (some profile)
    validate_windows_profile api win resolved
    save_profile resolved

  unfoldable pub resolve_new : Workspace → Option Image → Run S (Workspace × Bool)
  resolve_new ws none = pure (ws, false)
  resolve_new ws (some img) =
      if img.spec.vm_profile == "" then pure (ws, false) else resolve_image ws img.spec

  unfoldable pub renew_generation : Workspace → Run S (Workspace × Bool)
  renew_generation ws = do
    generation ← observes api.new_uuid
    save_profile (with_profile ws (set_generation generation ws.spec.vm_profile))

  abbrev pub keep_profile : Workspace → Run S (Workspace × Bool)
  keep_profile ws = do validate_windows_profile api win ws; pure (ws, false)

  unfoldable pub resolve_with :
      Workspace → Option Image → Option ResolvedVmProfile → Run S (Workspace × Bool)
  resolve_with ws img (some p) = if p.generation == "" then renew_generation ws else keep_profile ws
  resolve_with ws img none = resolve_new ws img

  -- The workspace after it, and whether its profile was written.
  unfoldable pub resolve_windows_profile : Workspace → Option Image → Run S (Workspace × Bool)
  resolve_windows_profile ws img = resolve_with ws img ws.spec.vm_profile
