-- ===== src/Machine/Agent.antt =====
-- vm_linux_agent.go: the generation of the agent, and vm_root_disk.go: the root image.
use controller.Base.{
  String, ◌<>◌, Bool, false, ◌&&◌, ◌||◌, flip, Option, none, some, List, [], ◌∷◌, at_key, put, ◌==◌,
  ◌/=◌, if◌then◌else◌, has_prefix,
}
use controller.Base.Effects.{fault, pure, fail_if, ◌>>=◌, ◌>>◌, observes, writes}
use controller.Api.Workspace.{Workspace, Container}
use controller.Api.Image.{Image, ImageSpec, ImageRemoteDesktop}
use controller.Workspace.Client.{
  WorkspaceClient, Run, update_workspace, windows_workspace, workspace_type_vm,
}
use controller.Workspace.Reset.{annotation_agent_generation, set_annotations}
use controller.Machine.Client.{MachineClient, Url}

unfoldable pub is_agent_desktop : Option ImageRemoteDesktop → Bool
is_agent_desktop none = false
is_agent_desktop (some d) = d.protocol == "agent"

unfoldable pub linux_agent_image : Option Image → Bool
linux_agent_image none = false
linux_agent_image (some img) = img.spec.vm_profile == "" && is_agent_desktop img.spec.remote_desktop

abbrev pub is_agent_capable : ImageSpec → Bool
is_agent_capable spec =
    flip (flip spec.default_cloud_init || flip spec.persistent_root_disk || spec.default_user == "")

abbrev pub is_capable : Option Image → Bool
is_capable none = false
is_capable (some img) = is_agent_capable img.spec

unfoldable pub with_agent_generation : Workspace → String → Workspace
with_agent_generation ws generation =
    set_annotations ws (put annotation_agent_generation generation ws.annotations)

-- An Image that may be the root of a VirtualMachine by its URL.
unfoldable pub is_url_root : Option Image → Bool
is_url_root none = false
is_url_root (some img) =
    img.spec.persistent_root_disk && img.spec.vm_profile == "" && (elim img.spec.workspace_types [
      | [] ↦ false
      | type ∷ types ↦ elim types [ [] ↦ type == workspace_type_vm | _ ∷ _ ↦ false ]
    ])

unfoldable pub is_plain_url : Option Url → Bool
is_plain_url none = false
is_plain_url (some u) = flip (
    (u.scheme /= "https" && u.scheme /= "http")
    || u.hostname == ""
    || u.has_user
    || u.fragment /= "")

-- The source of a root disk.
pub data DiskSource : Type 0 where
  http_source registry_source : (url : String) → DiskSource

module _ {S : Type 0} (api : WorkspaceClient S) (vms : MachineClient S) where
  unfoldable pub renew_agent : Workspace → Run S Workspace
  renew_agent ws = if at_key ws.annotations annotation_agent_generation /= "" then pure ws else do
    generation ← observes api.new_uuid
    let bound = with_agent_generation ws generation
    writes (update_workspace bound) (api.workspace_update bound)

  -- The workspace after it.
  unfoldable pub ensure_linux_agent_generation : Workspace → Option Image → Run S Workspace
  ensure_linux_agent_generation ws img = if flip (linux_agent_image img) then pure ws else do
    fail_if (flip (is_capable img))
        (fault "linux agent images require cloud-init, a persistent root and defaultUser")
    renew_agent ws

  unfoldable pub validate_reference : Option Image → String → Run S (Unit {0})
  validate_reference img ref = if flip (vms.has_text ref "://") then pure tt else do
    fail_if (flip (is_plain_url (vms.parse_url ref)) || vms.has_space ref) (
        fault
          "VM cloud image must be an absolute HTTP(S) URL without credentials, whitespace or a fragment")
    fail_if (flip (is_url_root img))
        (fault "HTTP(S) VM roots require a VM-only Image with persistentRootDisk enabled")

  abbrev pub validate_main : Option Image → List Container → Run S (Unit {0})
  validate_main img [] = pure tt
  validate_main img (c ∷ cs) = validate_reference img c.image

  unfoldable pub validate_vm_root_image : Workspace → Option Image → Run S (Unit {0})
  validate_vm_root_image ws img =
      if windows_workspace ws then pure tt else validate_main img ws.spec.template.containers

  unfoldable pub vm_root_disk_source : String → DiskSource
  vm_root_disk_source image =
      let lower = vms.to_lower image in
      if has_prefix lower "https://" || has_prefix lower "http://"
      then http_source image
      else registry_source ("docker://" <> image)
