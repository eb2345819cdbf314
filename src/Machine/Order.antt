-- ===== src/Machine/Order.antt =====
-- The order of a reconcile of workspace_controller.go: reset, machine, and what follows it.
use controller.Base.{
  ℕ, String, Bool, true, false, ◌≡◌, refl, sym, ◌∙◌, Option, none, some, has_key, arith, eq_iff,
  ◌==◌, if◌then◌else◌,
}
use controller.Base.Effects.{
  Error, Result, ok, err, message, World, continue, pure, find, reads, ◌>>=◌,
}
use controller.Api.Workspace.{Workspace}
use controller.Workspace.Client.{
  WorkspaceClient, Run, Call, Pod, annotation_reset, workspace_type_vm, workspace_type_of,
}
use controller.Workspace.Reset.{handle_reset}
use controller.Workspace.Status.{set_not_ready_condition, is_set}
use controller.Machine.Client.{MachineClient}
use controller.Machine.Dispatch.{
  next_run, kube_virt_installed, finish_reconcile, after_machine, unless_reset, if_installed,
  reconcile_vm, refuse_container_init, reconcile_pods, reconcile_live, reconcile_found, reconcile,
}

module _ {S : Type 0} (api : WorkspaceClient S) (vms : MachineClient S)
    (machine : Workspace → Run S (Workspace × Result (ℕ × Option Pod))) where
  -- A reset that is asked for is handled.
  is_handled : Result (Option ℕ) → Bool
  is_handled (ok none) = false
  is_handled (ok (some seconds)) = true
  is_handled (err e) = true

  reset-is_handled :
      (ws : Workspace) (w : World S Call)
      → has_key ws.annotations annotation_reset ≡ true
      → is_handled (handle_reset api ws w).0 ≡ true
  unfolding handle_reset is_handled ◌>>=◌
  reset-is_handled ws w asked = ground (arith, asked)

  reset-is_all :
      (ws : Workspace) (w : World S Call)
      → has_key ws.annotations annotation_reset ≡ true
      → if_installed api vms machine ws true w ≡ handle_reset api ws w
  unfolding if_installed unless_reset is_handled ◌>>=◌
  reset-is_all ws w asked = ground (arith, reset-is_handled ws w asked)

  vm-reset :
      (ws : Workspace) (w : World S Call)
      → has_key ws.annotations annotation_reset ≡ true
      → (kube_virt_installed api vms w).0 ≡ ok true
      → reconcile_vm api vms machine ws w ≡ handle_reset api ws (kube_virt_installed api vms w).1
  unfolding ◌>>=◌
  vm-reset ws w asked installed =
      ground (arith, installed, reset-is_all ws (kube_virt_installed api vms w).1 asked)

  -- A workspace of type vm for which a reset is asked is reset and nothing else, where KubeVirt is
  -- installed and it is not being deleted: the run is that of the reset, in its calls and its result,
  -- whatever the machine would do.
  pub reset_precedes_machine :
      (name namespace : String) (ws : Workspace) (w : World S Call)
      → (find (reads (api.get_workspace name namespace)) w).0 ≡ ok (some ws)
      → ws.deleting ≡ false
      → workspace_type_of ws ≡ workspace_type_vm
      → is_set ws.spec.container_init ≡ false
      → has_key ws.annotations annotation_reset ≡ true
      → let read = (find (reads (api.get_workspace name namespace)) w).1 in
        (kube_virt_installed api vms read).0 ≡ ok true
        → reconcile api vms machine name namespace w
          ≡ handle_reset api ws (kube_virt_installed api vms read).1
  unfolding reconcile reconcile_found reconcile_live ◌>>=◌
  reset_precedes_machine name namespace ws w found live vm plain asked installed =
      let read = (find (reads (api.get_workspace name namespace)) w).1 in
      ground (
        arith,
        found,
        live,
        vm,
        plain,
        eq_iff (workspace_type_of ws) workspace_type_vm,
        vm-reset ws read asked installed,
      )

  not_ready-ok :
      (ws : Workspace) (reason text : String) (w : World S Call)
      → (set_not_ready_condition api ws reason text w).0 ≡ ok tt
  unfolding set_not_ready_condition ◌>>=◌
  not_ready-ok ws reason text w = ground arith

  finish-next :
      (ws : Workspace) (replicas : ℕ) (pod : Option Pod) (w : World S Call) (said : Option ℕ)
      → (finish_reconcile api vms ws replicas pod w).0 ≡ ok said
      → said ≡ next_run ws replicas
  unfolding finish_reconcile ◌>>=◌
  finish-next ws replicas pod w said h = ground (arith, h)

  -- An error of the machine is the error of the run, so that it is tried again; where the machine is
  -- seen to and the rest succeeds, a Windows guest that is neither stopped nor ready is looked at again
  -- after 10 seconds, and for every other workspace no further run is asked for.
  pub machine_decides_next_run :
      (ws : Workspace) (w : World S Call) (e : Error) (replicas : ℕ) (pod : Option Pod)
      (said : Option ℕ)
      → (after_machine api vms machine ws (ok (replicas, pod)) w).0 ≡ ok said
      → ((after_machine api vms machine ws (err e) w).0 ≡ err e) × (said ≡ next_run ws replicas)
  unfolding after_machine ◌>>=◌
  machine_decides_next_run ws w e replicas pod said h = (
    ground (arith, not_ready-ok ws "VMReconcileFailed" (message e) w),
    finish-next ws replicas pod w said h,
  )

module _ {S : Type 0} (api : WorkspaceClient S) (vms : MachineClient S)
    (first second : Workspace → Run S (Workspace × Result (ℕ × Option Pod))) (ws : Workspace)
    (asked : has_key ws.annotations annotation_reset ≡ true) where
  same-installed :
      (b : Bool) (w : World S Call)
      → if_installed api vms first ws b w ≡ if_installed api vms second ws b w
  unfolding if_installed
  same-installed true w =
      reset-is_all api vms first ws w asked ∙ sym (reset-is_all api vms second ws w asked)
  same-installed false w = refl

  same-continue :
      (r : Result Bool) (w : World S Call)
      → continue r (if_installed api vms first ws) w ≡ continue r (if_installed api vms second ws) w
  same-continue (ok b) w = same-installed b w
  same-continue (err e) w = refl

  same-if :
      (b : Bool) (m p q : Run S (Option ℕ)) (w : World S Call)
      → p w ≡ q w
      → (if b then m else p) w ≡ (if b then m else q) w
  same-if true m p q w h = refl
  same-if false m p q w h = h

  same-vm : (w : World S Call) → reconcile_vm api vms first ws w ≡ reconcile_vm api vms second ws w
  unfolding ◌>>=◌
  same-vm w = same-continue (kube_virt_installed api vms w).0 (kube_virt_installed api vms w).1

  same-type :
      (b c : Bool) (m n p q : Run S (Option ℕ)) (w : World S Call)
      → p w ≡ q w
      → (if b then (if c then m else p) else n) w ≡ (if b then (if c then m else q) else n) w
  same-type true c m n p q w h = same-if c m p q w h
  same-type false c m n p q w h = refl

  same-live :
      (w : World S Call) → reconcile_live api vms first ws w ≡ reconcile_live api vms second ws w
  unfolding reconcile_live refuse_container_init
  same-live w =
      same-type (workspace_type_of ws == workspace_type_vm) (is_set ws.spec.container_init)
        (refuse_container_init api vms first ws) (reconcile_pods api vms first ws)
        (reconcile_vm api vms first ws) (reconcile_vm api vms second ws) w (same-vm w)

  same-found :
      (w : World S Call)
      → reconcile_found api vms first (some ws) w ≡ reconcile_found api vms second (some ws) w
  unfolding reconcile_found
  same-found w =
      same-if ws.deleting (pure none) (reconcile_live api vms first ws)
        (reconcile_live api vms second ws) w (same-live w)

  -- While a reset is asked for, the reconcile of a workspace does not depend on what its machine's
  -- would do: with any other in its place the run makes the same calls and has the same result, of whatever
  -- type the workspace is, deleted or not, with or without KubeVirt.
  pub pending_reset_spares_machine :
      (name namespace : String) (w : World S Call)
      → (find (reads (api.get_workspace name namespace)) w).0 ≡ ok (some ws)
      → reconcile api vms first name namespace w ≡ reconcile api vms second name namespace w
  unfolding reconcile ◌>>=◌
  pending_reset_spares_machine name namespace w found =
      rw found (same-found (find (reads (api.get_workspace name namespace)) w).1)
