-- ===== src/Workspace/Execution.antt =====
-- vm_execution_epoch.go, and managementVMCurrent of vm_management_bootstrap.go.
use controller.Base.{
  ℤ, pos, ltb_int, eq_int, String, Bool, false, ◌&&◌, ◌||◌, flip, Option, none, some, at_key, ◌==◌,
  ◌/=◌, if◌then◌else◌,
}
use controller.Base.Effects.{
  Result, ok, err, fault, pure, lift, fail_if, ◌>>=◌, ◌>>◌, reads, writes,
}
use controller.Api.Meta.{OwnerReference}
use controller.Api.Workspace.{Workspace, ManagementExecutionStatus}
use controller.Workspace.Client.{
  WorkspaceClient, Run, Vm, update_status, windows_workspace, generation_of,
  windows_provisioned_generation,
}

unfoldable pub requested_execution_epoch : Workspace → Result ℤ
requested_execution_epoch ws =
    if ltb_int ws.spec.execution_revocation_epoch (pos 0)
    then err (fault "execution revocation epoch must be a nonnegative int64")
    else ok ws.spec.execution_revocation_epoch

abbrev pub with_execution : Workspace → Option ManagementExecutionStatus → Workspace
with_execution ws execution = record {
  meta = ws.meta;
  spec = ws.spec;
  status = record ws.status { management_execution = execution };
}

-- The epoch that is granted: the one requested, or a later one that was granted before.
unfoldable pub granted_epoch : Option ManagementExecutionStatus → ℤ → ℤ
granted_epoch none epoch = epoch
granted_epoch (some previous) epoch =
    if ltb_int epoch previous.revocation_epoch then previous.revocation_epoch else epoch

unfoldable pub is_granted : Option ManagementExecutionStatus → String → ℤ → Bool
is_granted none uid epoch = false
is_granted (some previous) uid epoch =
    previous.vm_uid == uid && eq_int previous.revocation_epoch epoch

abbrev pub is_running : Option Bool → Bool
is_running none = false
is_running (some b) = b

-- The owner that the VirtualMachine of a workspace has.
unfoldable pub is_owner : Workspace → Option OwnerReference → Bool
is_owner ws none = false
is_owner ws (some owner) =
    owner.uid == ws.uid
    && owner.name == ws.name
    && owner.kind == "Workspace"
    && owner.api_version == "kubeworkspaces.io/v1alpha1"

unfoldable pub is_current_generation : Workspace → Vm → Bool
is_current_generation ws vm =
    generation_of ws /= ""
    && at_key ws.annotations windows_provisioned_generation == generation_of ws
    && at_key vm.annotations "kubeworkspaces.io/windows-generation" == generation_of ws

module _ {S : Type 0} (api : WorkspaceClient S) where
  unfoldable pub management_vm_current : Workspace → Vm → Vm → Bool
  management_vm_current ws vm observed =
      is_running vm.running
      && vm.uid /= ""
      && vm.uid == observed.uid
      && flip vm.deleting
      && is_owner ws (api.controller_of vm.meta)
      && (flip (windows_workspace ws) || is_current_generation ws vm)

  -- The workspace as it was read may be given a new execution epoch for the VirtualMachine.
  unfoldable pub is_epoch_current : Workspace → Workspace → Vm → Vm → Bool
  is_epoch_current instance ws current vm =
      ws.uid /= ""
      && ws.uid == instance.uid
      && flip ws.deleting
      && management_vm_current ws current vm

  abbrev pub execution_of : Vm → ℤ → ManagementExecutionStatus
  execution_of vm epoch = record { vm_uid = vm.uid; revocation_epoch = epoch }

  unfoldable pub grant_epoch : Workspace → Vm → ℤ → Run S Workspace
  grant_epoch ws vm epoch =
      if is_granted ws.status.management_execution vm.uid epoch
      then pure ws
      else writes (update_status (with_execution ws (some (execution_of vm epoch))))
          (api.status_update (with_execution ws (some (execution_of vm epoch))))

  -- What is copied into the caller's instance.
  abbrev pub copy_execution : Workspace → Workspace → Workspace
  copy_execution instance ws = record {
    meta = record instance.meta { resource_version = ws.resource_version };
    spec = instance.spec;
    status = record instance.status { management_execution = ws.status.management_execution };
  }

  unfoldable pub reconcile_execution_epoch : Workspace → Vm → Run S Workspace
  reconcile_execution_epoch instance vm = do
    ws ← reads (api.live_workspace instance.name instance.namespace)
    current ← reads (api.live_vm instance.name instance.namespace)
    fail_if (flip (is_epoch_current instance ws current vm))
        (fault "execution epoch identity is not current")
    requested ← lift (requested_execution_epoch ws)
    stored ← grant_epoch ws vm (granted_epoch ws.status.management_execution requested)
    pure (copy_execution instance stored)
