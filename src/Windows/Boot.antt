-- ===== src/Windows/Boot.antt =====
-- When a guest counts as ready, and that a first boot gets it there.
use controller.Base.{String, Bool, true, false, ◌≡◌, refl, ◌&&◌, flip, Option, none, some, arith}
use controller.Base.Effects.{Result, ok, err, World, ◌>>=◌}
use controller.Api.Workspace.{Workspace}
use controller.Workspace.Client.{WorkspaceClient, Call, Pod}
use controller.Windows.Client.{WindowsClient, GuestAgent}
use controller.Windows.Bootstrap.{is_provisioned}
use controller.Windows.Lifecycle.{
  is_detaching, is_rebooting, is_stopped, is_connected, windows_agent_connected,
  stage_windows_enrollment, finish_provisioning, provision_guest, reconcile_windows_provisioning,
  windows_ready,
}

abbrev pub is_said_ready : Result (Workspace × Bool) → Bool
is_said_ready (ok (ws, said)) = said
is_said_ready (err e) = false

module _ {S : Type 0} (api : WorkspaceClient S) (win : WindowsClient S) where
  finish-unready :
      (agent : GuestAgent S) (ws : Workspace) (pod : String) (done : Bool) (w : World S Call)
      → is_said_ready (finish_provisioning api win agent ws pod done w).0 ≡ false
  unfolding finish_provisioning stage_windows_enrollment ◌>>=◌
  finish-unready agent ws pod false w = refl
  finish-unready agent ws pod true w = ground arith

  provision-unready :
      (ws : Workspace) (pod : Option Pod) (agent : Option (GuestAgent S)) (w : World S Call)
      → is_said_ready (provision_guest api win ws pod agent w).0 ≡ false
  unfolding provision_guest ◌>>=◌
  provision-unready ws (some pod) (some agent) w = grind (arith, finish-unready)
  provision-unready ws (some pod) none w = refl
  provision-unready ws none agent w = refl

  provisioning-said :
      (ws : Workspace) (pod : Option Pod) (w : World S Call)
      → is_said_ready (reconcile_windows_provisioning api win ws pod w).0
        ≡ (flip (is_detaching ws) && is_provisioned ws)
  unfolding reconcile_windows_provisioning ◌>>=◌
  provisioning-said ws pod w = ground (arith, provision-unready ws pod win.guest_agent w)

  -- A guest is said to be ready exactly where its workspace is neither stopped nor rebooting, its
  -- machine runs with a connected agent, and its generation is provisioned with the bootstrap removed.
  pub ready_means_settled :
      (ws : Workspace) (pod : Option Pod) (running : Bool) (w : World S Call)
      → is_said_ready (windows_ready api win ws pod running w).0 ≡ (
          flip (is_stopped ws)
          && flip (is_rebooting ws)
          && running
          && is_connected (api.get_vmi ws.name ws.namespace w.server).0
          && flip (is_detaching ws)
          && is_provisioned ws)
  unfolding windows_ready windows_agent_connected ◌>>=◌
  ready_means_settled ws pod running w =
      ground (arith, provisioning-said ws pod (windows_agent_connected api win ws w).1)
