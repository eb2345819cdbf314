-- ===== src/Machine/GuestBootstrap.antt =====
-- workspace_controller.go: reconcileVMGuestBootstrap. What the source of a VirtualMachine needs is made
-- before the machine may refer to it.
use controller.Base.{String, ◌||◌, Option, List, [], if◌then◌else◌}
use controller.Base.Effects.{pure, lift, ◌>>=◌, ◌>>◌}
use controller.Api.Workspace.{Workspace}
use controller.Api.Image.{Image}
use controller.Workspace.Client.{WorkspaceClient, Run, windows_workspace}
use controller.Windows.Client.{WindowsClient}
use controller.Windows.Profile.{validate_windows_profile}
use controller.Windows.Preflight.{preflight_windows}
use controller.Windows.Bootstrap.{reconcile_windows_bootstrap}
use controller.Windows.Lifecycle.{is_stopped, is_detaching, is_rebooting}
use controller.Machine.Client.{MachineClient}
use controller.Machine.Disks.{claim_vm_disks}
use controller.Machine.Secrets.{
  uses_guest_agent_ssh, reconcile_cloud_init_secret, reconcile_ssh_key_secret,
  ssh_authorized_keys_for_workspace,
}
use controller.Machine.CloudInit.{vm_cloud_init_user_data}

module _ {S : Type 0} (api : WorkspaceClient S) (win : WindowsClient S)
    (vms : MachineClient S) where
  unfoldable pub windows_guest_bootstrap : Workspace → Run S (List String)
  windows_guest_bootstrap ws =
      if is_stopped ws || is_detaching ws || is_rebooting ws
      then (do validate_windows_profile api win ws; pure [])
      else do preflight_windows api win ws; reconcile_windows_bootstrap api win ws; pure []

  -- The keys that are left to the user data: none where the guest agent sets them.
  unfoldable pub propagate_keys : Workspace → Option Image → List String → Run S (List String)
  propagate_keys ws img keys =
      if uses_guest_agent_ssh img
      then (do reconcile_ssh_key_secret api vms ws keys; pure [])
      else pure keys

  unfoldable pub linux_guest_bootstrap : Workspace → Option Image → Run S (List String)
  linux_guest_bootstrap ws img = do
    keys ← ssh_authorized_keys_for_workspace api vms ws.namespace
    seeded ← propagate_keys ws img keys
    text ← lift (vm_cloud_init_user_data api vms ws img seeded)
    claim_vm_disks api vms ws
    reconcile_cloud_init_secret api vms ws text
    pure seeded

  unfoldable pub reconcile_vm_guest_bootstrap : Workspace → Option Image → Run S (List String)
  reconcile_vm_guest_bootstrap ws img =
      if windows_workspace ws then windows_guest_bootstrap ws else linux_guest_bootstrap ws img
