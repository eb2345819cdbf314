-- ===== src/Workspace/Reset.antt =====
-- workspace_controller.go: handleReset, with resetWindowsGeneration and windowsBootstrapSecretName
-- of vm_windows_guest.go.
use controller.Base.{
  ℕ, String, ◌<>◌, false, ◌&&◌, flip, Option, none, some, Map, delete, has_key, ltb, if◌then◌else◌,
  take_chars, chars, trim_right,
}
use controller.Base.Effects.{
  fault, pure, find, fail_if, when, ignore_not_found, ◌>>=◌, ◌>>◌, reads, observes, writes,
}
use controller.Api.Meta.{Secret}
use controller.Api.Workspace.{Workspace, ResolvedVmProfile}
use controller.Workspace.Client.{
  WorkspaceClient, Run, Vm, Vmi, update_workspace, update_vm, delete_vm, delete_secret,
  annotation_reset, windows_workspace, windows_provisioned_generation, windows_detaching_generation,
  generation_of,
}
use controller.Workspace.Execution.{is_running}

abbrev pub annotation_agent_generation : String
annotation_agent_generation = "kubeworkspaces.io/agent-generation"

abbrev pub set_annotations : Workspace → Map → Workspace
set_annotations ws annotations = record {
  meta = record ws.meta { annotations = annotations };
  spec = ws.spec;
  status = ws.status;
}

abbrev pub set_generation : String → Option ResolvedVmProfile → Option ResolvedVmProfile
set_generation generation none = none
set_generation generation (some p) = some (record p { generation = generation })

-- The workspace after resetWindowsGeneration.
unfoldable pub new_generation : Workspace → String → Workspace
new_generation ws generation = record {
  meta = record ws.meta {
    annotations =
        delete windows_detaching_generation (delete windows_provisioned_generation ws.annotations);
  };
  spec = record ws.spec { vm_profile = set_generation generation ws.spec.vm_profile };
  status = ws.status;
}

unfoldable pub consume_reset : Workspace → Workspace
consume_reset ws = set_annotations ws (
    delete "kubeworkspaces.io/ready-time-recorded"
      (delete annotation_agent_generation (delete annotation_reset ws.annotations)))

module _ {S : Type 0} (api : WorkspaceClient S) where
  -- Names are ASCII, so that characters are bytes.
  unfoldable pub windows_bootstrap_secret_name : Workspace → String
  windows_bootstrap_secret_name ws =
      (if ltb 36 (chars ws.name) then trim_right b'-' (take_chars 36 ws.name) else ws.name)
      <> "-win-"
      <> api.sha256_6 (ws.name <> "/" <> generation_of ws)

  abbrev pub drop_bootstrap : Workspace → Option Secret → Run S (Unit {0})
  drop_bootstrap ws none = pure tt
  drop_bootstrap ws (some secret) = do
    fail_if (flip (api.is_controlled_by secret.meta ws.meta))
        (fault "windows bootstrap Secret is owned by another resource")
    writes (delete_secret secret) (api.secret_delete secret)

  unfoldable pub reset_windows_generation : Workspace → Run S Workspace
  reset_windows_generation ws = if flip (windows_workspace ws) then pure ws else do
    found ← find (reads (api.get_secret (windows_bootstrap_secret_name ws) ws.namespace))
    drop_bootstrap ws found
    generation ← observes api.new_uuid
    pure (new_generation ws generation)

  abbrev pub stop_vm : Vm → Vm
  stop_vm vm = record { meta = vm.meta; running = some false }

  unfoldable pub delete_machine : Vm → Run S ℕ
  delete_machine vm = do
    when (flip vm.deleting) (ignore_not_found (writes (delete_vm vm) (api.vm_delete vm)))
    pure 5

  abbrev pub unless_instance : Vm → Option Vmi → Run S ℕ
  unless_instance vm none = delete_machine vm
  unless_instance vm (some _) = pure 5

  -- A Windows machine is stopped, and its instance gone, before it is deleted.
  unfoldable pub stop_then_delete : Workspace → Vm → Run S ℕ
  stop_then_delete ws vm =
      if is_running vm.running
      then (do writes (update_vm (stop_vm vm)) (api.vm_update (stop_vm vm)); pure 5)
      else do held ← find (reads (api.get_vmi ws.name ws.namespace)); unless_instance vm held

  unfoldable pub clear_reset : Workspace → Run S ℕ
  clear_reset ws = do
    fresh ← reset_windows_generation ws
    _ ← writes (update_workspace (consume_reset fresh)) (api.workspace_update (consume_reset fresh))
    pure 3

  unfoldable pub reset_machine : Workspace → Option Vm → Run S ℕ
  reset_machine ws (some vm) =
      if windows_workspace ws && flip vm.deleting then stop_then_delete ws vm else delete_machine vm
  reset_machine ws none = clear_reset ws

  -- `none` where no reset is asked for; else the seconds until the next run.
  unfoldable pub handle_reset : Workspace → Run S (Option ℕ)
  handle_reset ws = if flip (has_key ws.annotations annotation_reset) then pure none else do
    found ← find (reads (api.get_vm ws.name ws.namespace))
    seconds ← reset_machine ws found
    pure (some seconds)
