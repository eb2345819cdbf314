-- ===== src/Workspace/Epochs.antt =====
-- The execution epoch that is granted to a VirtualMachine.
use controller.Base.{
  ℤ, ltb_int, IsAtMost, IsAtMost-refl, IsAtMost-lt, false, ◌≡◌, inl, inr, Bool-cases, Option, none,
  some, arith,
}
use controller.Base.Effects.{ok, World, is_ok, ◌>>=◌}
use controller.Api.Workspace.{Workspace, ManagementExecutionStatus}
use controller.Workspace.Client.{WorkspaceClient, Call, Vm}
use controller.Workspace.Execution.{granted_epoch, is_epoch_current, reconcile_execution_epoch}

-- The epoch that a status has recorded is not taken back.
abbrev pub IsKept : Option ManagementExecutionStatus → ℤ → Type 0
IsKept none epoch = Unit
IsKept (some previous) epoch = IsAtMost previous.revocation_epoch epoch

-- The epoch that is granted is never before the one recorded, nor before the one requested.
pub granted_epoch-IsLater :
    (previous : Option ManagementExecutionStatus) (epoch : ℤ)
    → IsKept previous (granted_epoch previous epoch) × IsAtMost epoch (granted_epoch previous epoch)
unfolding granted_epoch
granted_epoch-IsLater none epoch = (tt, IsAtMost-refl epoch)
granted_epoch-IsLater (some p) epoch = elim (Bool-cases (ltb_int epoch p.revocation_epoch)) [
  | inl later ↦
      rw later (IsAtMost-refl p.revocation_epoch, IsAtMost-lt epoch p.revocation_epoch later)
  | inr no_later ↦ rw no_later (no_later, IsAtMost-refl epoch)
]

module _ {S : Type 0} (api : WorkspaceClient S) (instance ws : Workspace) (vm current : Vm)
    (w : World S Call)
    (read : (api.live_workspace instance.name instance.namespace w.server).0 ≡ ok ws)
    (vm_read : (api.live_vm instance.name instance.namespace
        (api.live_workspace instance.name instance.namespace w.server).1).0
      ≡ ok current) where
  -- A workspace that is not the one being reconciled, is being deleted, or whose VirtualMachine is
  -- not the running one it controls, is granted nothing: the call fails and writes nothing.
  pub stale_identity_is_refused :
      is_epoch_current api instance ws current vm ≡ false
      → (is_ok (reconcile_execution_epoch api instance vm w).0 ≡ false)
        × ((reconcile_execution_epoch api instance vm w).1.calls ≡ w.calls)
  unfolding reconcile_execution_epoch ◌>>=◌
  stale_identity_is_refused stale = ground (arith, read, vm_read)
