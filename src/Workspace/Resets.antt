-- ===== src/Workspace/Resets.antt =====
-- The order in which a reset stops, deletes and makes anew.
use controller.Base.{
  ℕ, List, true, false, ◌&&◌, ◌≡◌, refl, ◌⊎◌, inl, inr, Option, none, some, [], ◌∷◌, All, has_key,
  Bool-cases, flip, arith,
}
use controller.Base.Effects.{Result, ok, World, is_ok, pure, ◌>>=◌}
use controller.Base.Safety.{Only, only_rules, Only-if}
use controller.Api.Workspace.{Workspace}
use controller.Workspace.Client.{
  WorkspaceClient, Run, Call, Vm, Vmi, update_workspace, update_vm, delete_vm, annotation_reset,
  windows_workspace,
}
use controller.Workspace.Execution.{is_running}
use controller.Workspace.Reset.{
  consume_reset, new_generation, delete_machine, unless_instance, stop_then_delete, reset_machine,
  handle_reset,
}

module _ {S : Type 0} (api : WorkspaceClient S) where
  -- What a reset may do while the machine is there: stop it, or delete it where it is not being
  -- deleted and, for Windows, not running.
  abbrev pub IsPermitted : Workspace → Vm → Call → Type 0
  IsPermitted ws vm (update_vm v) =
      (windows_workspace ws ≡ true) × (v ≡ record { meta = vm.meta; running = some false })
  IsPermitted ws vm (delete_vm v) =
      (v ≡ vm) × (vm.deleting ≡ false) × ((windows_workspace ws && is_running vm.running) ≡ false)
  IsPermitted ws vm _ = ⊥

  deleted-IsPermitted :
      (ws : Workspace) (vm : Vm)
      → (vm.deleting ≡ false → (windows_workspace ws && is_running vm.running) ≡ false)
      → flip vm.deleting ≡ true
      → IsPermitted ws vm (delete_vm vm)
  deleted-IsPermitted ws vm h live = (refl, ground arith, h (ground arith))

  machine-Only :
      (ws : Workspace) (vm : Vm)
      → (vm.deleting ≡ false → (windows_workspace ws && is_running vm.running) ≡ false)
      → Only (IsPermitted ws vm) (delete_machine api vm)
  unfolding delete_machine
  machine-Only ws vm h = search (only_rules, deleted-IsPermitted) depth 12

  instance-Only :
      (ws : Workspace) (vm : Vm) (held : Option Vmi)
      → is_running vm.running ≡ false
      → Only (IsPermitted ws vm) (unless_instance api vm held)
  instance-Only ws vm none h = machine-Only ws vm (λ _. ground (arith, h))
  instance-Only ws vm (some _) h = search only_rules

  stop-Only :
      (ws : Workspace) (vm : Vm)
      → windows_workspace ws ≡ true
      → Only (IsPermitted ws vm) (stop_then_delete api ws vm)
  unfolding stop_then_delete
  stop-Only ws vm h = search (only_rules, instance-Only) depth 12

  teardown-Only :
      (ws : Workspace) (vm : Vm) → Only (IsPermitted ws vm) (reset_machine api ws (some vm))
  unfolding reset_machine
  teardown-Only ws vm =
      Only-if (windows_workspace ws && flip vm.deleting) _ _ (λ h. stop-Only ws vm (ground arith))
        (λ h. machine-Only ws vm (λ live. ground arith))

  then-Only :
      (ws : Workspace) (vm : Vm)
      → Only
          (IsPermitted ws vm)
          (reset_machine api ws (some vm) >>= (λ seconds. pure (some seconds)))
  then-Only ws vm = search (only_rules, teardown-Only)

  -- While the machine is there, a reset only tears it down: it deletes it
  -- only where it is not being deleted already and, for Windows, not running, it stops it only for Windows, and it
  -- does not touch the workspace, so that the request stays until the machine is gone.
  pub reset_waits_for_machine :
      (ws : Workspace) (vm : Vm) (w : World S Call)
      → (api.get_vm ws.name ws.namespace w.server).0 ≡ ok vm
      → w.calls ≡ []
      → All (IsPermitted ws vm) (handle_reset api ws w).1.calls
  unfolding handle_reset ◌>>=◌
  reset_waits_for_machine ws vm w found fresh =
      elim (Bool-cases (has_key ws.annotations annotation_reset)) [
        | inl asked ↦ rw (asked, found) ((then-Only ws vm).at _ (rw fresh tt))
        | inr idle ↦ rw (idle, fresh) tt
      ]

  -- What a reset makes of the workspace: for Windows it is given a new generation.
  abbrev pub IsFresh : Workspace → Workspace → Type 0
  IsFresh ws fresh =
      ((windows_workspace ws ≡ false) × (fresh ≡ ws))
      ⊎ ((windows_workspace ws ≡ true) × ((v : S) × (fresh ≡ new_generation ws (api.new_uuid v).0)))

  -- The last call is an update of the workspace that asks for no reset any more.
  abbrev pub IsConsumed : Workspace → List Call → Type 0
  IsConsumed ws (update_workspace u ∷ calls) =
      (has_key u.annotations annotation_reset ≡ false)
      × ((fresh : Workspace) × (u ≡ consume_reset fresh) × IsFresh ws fresh)
  IsConsumed ws _ = ⊥

  abbrev IsRenewed : Workspace → Workspace → Type 0
  IsRenewed ws fresh = (v : S) × (fresh ≡ new_generation ws (api.new_uuid v).0)

  -- The run fails, or ends in 3 seconds with the reset consumed.
  abbrev pub IsEnd : Workspace → Result (Option ℕ) × World S Call → Type 0
  IsEnd ws done = (is_ok done.0 ≡ false) ⊎ ((done.0 ≡ ok (some 3)) × IsConsumed ws done.1.calls)

  abbrev answer : ℕ → Run S (Option ℕ)
  answer seconds = pure (some seconds)

  abbrev soon : Workspace → Run S ℕ
  soon written = pure 3
