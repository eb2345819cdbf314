-- ===== src/Windows/Lifecycle.antt =====
-- vm_windows_guest.go: from the first boot of a guest to its readiness. The code is reached only
-- with a resolved profile. An action returns the workspace as the caller sees it after it.
use controller.Base.{
  String, Bool, true, false, ◌&&◌, ◌||◌, flip, Option, none, some, any, at_key, has_key, put,
  delete, ◌==◌, ◌/=◌, if◌then◌else◌,
}
use controller.Base.Effects.{
  Result, ok, err, fault, pure, attempt, find, when, fail_if, ◌>>=◌, ◌>>◌, reads, writes,
}
use controller.Api.Meta.{Secret}
use controller.Api.Workspace.{Workspace}
use controller.Workspace.Client.{
  WorkspaceClient, Run, Pod, Vmi, update_workspace, update_secret, complete_bootstrap,
  stage_enrollment, annotation_stopped, windows_provisioned_generation,
  windows_detaching_generation, windows_reboot_annotation, generation_of, or_fault,
}
use controller.Workspace.ContainerInit.{with_content}
use controller.Workspace.Reset.{set_annotations, windows_bootstrap_secret_name}
use controller.Windows.Client.{WindowsClient, GuestAgent}
use controller.Windows.Names.{windows_hostname}
use controller.Windows.Bootstrap.{is_provisioned, answer_key, token_key}

unfoldable pub is_detaching : Workspace → Bool
is_detaching ws = at_key ws.annotations windows_detaching_generation == generation_of ws

unfoldable pub is_rebooting : Workspace → Bool
is_rebooting ws = at_key ws.annotations windows_reboot_annotation /= ""

unfoldable pub is_stopped : Workspace → Bool
is_stopped ws = has_key ws.annotations annotation_stopped

-- spec.running of the VirtualMachine, in generateWindowsVirtualMachine.
unfoldable pub wants_running : Workspace → Bool
wants_running ws = flip (is_stopped ws || is_detaching ws || is_rebooting ws)

-- The VirtualMachine has the CD with the answer file, in generateWindowsVirtualMachine.
unfoldable pub has_bootstrap_disk : Workspace → Bool
has_bootstrap_disk ws = flip (is_provisioned ws)

unfoldable pub mark_provisioned : Workspace → Workspace
mark_provisioned ws = set_annotations ws (
    put windows_detaching_generation (generation_of ws)
      (put windows_provisioned_generation (generation_of ws) ws.annotations))

unfoldable pub clear_detaching : Workspace → Workspace
clear_detaching ws = set_annotations ws (delete windows_detaching_generation ws.annotations)

unfoldable pub clear_reboot : Workspace → Workspace
clear_reboot ws = set_annotations ws (delete windows_reboot_annotation ws.annotations)

unfoldable pub is_connected : Result Vmi → Bool
is_connected (ok vmi) = any (λ c. c.0 == "AgentConnected" && c.1 == "True") vmi.conditions
is_connected (err e) = false

module _ {S : Type 0} (api : WorkspaceClient S) (win : WindowsClient S) where
  unfoldable pub windows_agent_connected : Workspace → Run S Bool
  windows_agent_connected ws = do
    found ← attempt (reads (api.get_vmi ws.name ws.namespace))
    pure (is_connected found)

  unfoldable pub stage_windows_enrollment : GuestAgent S → Workspace → String → Run S (Unit {0})
  stage_windows_enrollment agent ws pod = do
    secret ← reads (api.get_secret (windows_bootstrap_secret_name api ws) ws.namespace)
    let token = at_key secret.content token_key
    when (token /= "") (
        writes (stage_enrollment pod token) (agent.stage_enrollment ws.namespace pod ws.name token))

  unfoldable pub finish_provisioning :
      GuestAgent S → Workspace → String → Bool → Run S (Workspace × Bool)
  finish_provisioning agent ws pod false = pure (ws, false)
  finish_provisioning agent ws pod true = do
    stage_windows_enrollment agent ws pod
    let marked = mark_provisioned ws
    written ← writes (update_workspace marked) (api.workspace_update marked)
    pure (written, false)

  unfoldable pub provision_guest :
      Workspace → Option Pod → Option (GuestAgent S) → Run S (Workspace × Bool)
  provision_guest ws (some pod) (some agent) = do
    vmi ← reads (api.get_vmi ws.name ws.namespace)
    fail_if (flip (has_key vmi.active_pods pod.uid))
        (fault "windows provisioning requires the active KubeVirt launcher")
    let hostname = windows_hostname api win ws
    complete ←
        writes (complete_bootstrap pod.name hostname)
          (agent.complete_bootstrap ws.namespace pod.name ws.name hostname)
    finish_provisioning agent ws pod.name complete
  provision_guest ws _ _ = pure (ws, false)

  unfoldable pub reconcile_windows_provisioning : Workspace → Option Pod → Run S (Workspace × Bool)
  reconcile_windows_provisioning ws pod =
      if is_detaching ws
      then pure (ws, false)
      else if is_provisioned ws
      then pure (ws, true)
      else provision_guest ws pod win.guest_agent

  unfoldable pub windows_ready : Workspace → Option Pod → Bool → Run S (Workspace × Bool)
  windows_ready ws pod running =
      if is_stopped ws || is_rebooting ws || flip running then pure (ws, false) else do
        connected ← windows_agent_connected ws
        if connected then reconcile_windows_provisioning ws pod else pure (ws, false)

  abbrev pub read_credentials : Workspace → S → Result Secret × S
  read_credentials ws s = (
    or_fault "windows initial credentials are unavailable during bootstrap removal"
        (api.get_secret (windows_bootstrap_secret_name api ws) ws.namespace s).0,
    (api.get_secret (windows_bootstrap_secret_name api ws) ws.namespace s).1,
  )

  abbrev pub without_answer : Secret → Secret
  without_answer secret = with_content api secret (delete answer_key secret.content)

  unfoldable pub remove_bootstrap : Workspace → Option Vmi → Run S Workspace
  remove_bootstrap ws (some vmi) = pure ws
  remove_bootstrap ws none = do
    secret ← reads (read_credentials ws)
    fail_if (flip (api.is_controlled_by secret.meta ws.meta))
        (fault "windows bootstrap Secret is owned by another resource")
    let kept = without_answer secret
    writes (update_secret kept) (api.secret_update kept)
    writes (update_workspace (clear_detaching ws)) (api.workspace_update (clear_detaching ws))

  unfoldable pub finish_windows_detach : Workspace → Run S Workspace
  finish_windows_detach ws =
      if flip (is_detaching ws)
      then pure ws
      else do vmi ← find (reads (api.get_vmi ws.name ws.namespace)); remove_bootstrap ws vmi

  unfoldable pub end_reboot : Workspace → Option Vmi → Run S Workspace
  end_reboot ws (some vmi) = pure ws
  end_reboot ws none =
      writes (update_workspace (clear_reboot ws)) (api.workspace_update (clear_reboot ws))

  unfoldable pub finish_windows_reboot : Workspace → Run S Workspace
  finish_windows_reboot ws =
      if flip (is_rebooting ws)
      then pure ws
      else do vmi ← find (reads (api.get_vmi ws.name ws.namespace)); end_reboot ws vmi

  unfoldable pub finish_windows_lifecycle : Workspace → Run S Workspace
  finish_windows_lifecycle ws = do
    detached ← finish_windows_detach ws
    finish_windows_reboot detached
