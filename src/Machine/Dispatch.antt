-- ===== src/Machine/Dispatch.antt =====
-- workspace_controller.go: Reconcile, with what it asks of the cluster. The reconcile of the
-- VirtualMachine is an argument: it returns the workspace as it leaves it, and the ready replicas and
-- the pod, or an error. Metrics are left out.
use controller.Base.{
  ℕ, ◌*◌, ℤ, pos, negsuc, String, Bool, true, false, ◌&&◌, ◌||◌, flip, Option, none, some, List, [],
  ◌∷◌, keep, map, put, has_key, ltb, nat_eq, ◌==◌, ◌/=◌, if◌then◌else◌,
}
use controller.Base.Effects.{
  Error, Result, ok, err, fault, message, is_not_found, pure, raise, attempt, find, when, ◌>>=◌,
  ◌>>◌, reads, observes, writes,
}
use controller.Api.Workspace.{Workspace, ContainerInitSpec}
use controller.Api.Image.{Image}
use controller.Workspace.Client.{
  WorkspaceClient, Run, Pod, PodCondition, Vmi, stateful_set, deployment, update_workspace,
  annotation_stopped, workspace_type_vm, workspace_type_scratch, workspace_type_of,
  windows_workspace,
}
use controller.Workspace.InitTemplate.{container_init_disabled}
use controller.Workspace.Services.{image_of, image_by_ref, reconcile_service}
use controller.Workspace.Deploy.{reconcile_workload}
use controller.Workspace.Reset.{set_annotations, handle_reset}
use controller.Workspace.Status.{set_not_ready_condition, update_workspace_status, is_set}
use controller.Machine.Client.{MachineClient}

abbrev pub ready_time_recorded : String
ready_time_recorded = "kubeworkspaces.io/ready-time-recorded"

-- The first Ready condition is true.
abbrev pub first_ready : List PodCondition → Bool
first_ready [] = false
first_ready (c ∷ cs) = if c.type == "Ready" then c.status == "True" else first_ready cs

unfoldable pub pod_ready : Option Pod → Bool
pod_ready none = false
pod_ready (some pod) = first_ready pod.conditions

abbrev pub is_running_instance : Result Vmi → Bool
is_running_instance (ok vmi) = vmi.phase == "Running"
is_running_instance (err e) = false

-- Between zero and 30 minutes, in nanoseconds.
unfoldable pub is_startup_time : ℤ → Bool
is_startup_time (pos n) = ltb 0 n && ltb n (1800 * 1000000000)
is_startup_time (negsuc n) = false

unfoldable pub mark_recorded : Workspace → Workspace
mark_recorded ws = set_annotations ws (put ready_time_recorded "true" ws.annotations)

-- The container initialization reads the Secret.
unfoldable pub reads_secret : String → Option ContainerInitSpec → Bool
reads_secret name none = false
reads_secret name (some cfg) =
    cfg.mode /= container_init_disabled
    && (elim cfg.user_data_secret_ref [ none ↦ false | some held ↦ held == name ])

-- A reconcile request: a namespace and a name.
abbrev pub request : Workspace → String × String
request ws = (ws.namespace, ws.name)

-- The seconds until the next run.
unfoldable pub next_run : Workspace → ℕ → Option ℕ
next_run ws replicas =
    if windows_workspace ws && flip (has_key ws.annotations annotation_stopped) && nat_eq replicas 0
    then some 10
    else none

module _ {S : Type 0} (api : WorkspaceClient S) (vms : MachineClient S) where
  unfoldable pub is_no_match_error : Error → Bool
  is_no_match_error e =
      vms.has_text (message e) "no matches for kind"
      || vms.has_text (message e) "the server could not find the requested resource"
      || vms.has_text (message e) "no kind is registered"

  unfoldable pub installed_from : Result (Unit {0}) → Run S Bool
  installed_from (ok _) = pure true
  installed_from (err e) =
      if is_not_found e then pure true else if is_no_match_error e then pure false else raise e

  unfoldable pub kube_virt_installed : Run S Bool
  kube_virt_installed = do probe ← attempt (reads vms.probe_vm); installed_from probe

  unfoldable pub vmi_is_running : Workspace → Run S Bool
  vmi_is_running ws = do
    vmi ← attempt (reads (api.get_vmi ws.name ws.namespace))
    pure (is_running_instance vmi)

  unfoldable pub lookup_vm_image : Workspace → Run S (Option Image)
  lookup_vm_image ws = if is_set ws.spec.vm_profile then pure none else do
    images ← reads api.list_images
    pure (image_by_ref (image_of ws.spec.template.containers) images)

  abbrev pub listed_or_none : Result (List Workspace) → List Workspace
  listed_or_none (ok found) = found
  listed_or_none (err e) = []

  -- A list that fails gives no requests.
  unfoldable pub workspaces_for_ssh_key : String → Run S (List (String × String))
  workspaces_for_ssh_key namespace = do
    found ← attempt (reads (vms.list_workspaces namespace))
    pure (
        map request (keep (λ ws. workspace_type_of ws == workspace_type_vm) (listed_or_none found)))

  unfoldable pub workspaces_for_container_init_secret :
      (name namespace : String) → Run S (List (String × String))
  workspaces_for_container_init_secret name namespace = do
    found ← attempt (reads (vms.list_workspaces namespace))
    pure
        (map request (keep (λ ws. reads_secret name ws.spec.container_init) (listed_or_none found)))

  unfoldable pub mark_latest : Workspace → Run S (Unit {0})
  mark_latest ws = do
    latest ← reads (api.get_workspace ws.name ws.namespace)
    _ ←
        writes (update_workspace (mark_recorded latest))
          (api.workspace_update (mark_recorded latest))
    pure tt

  -- The time to readiness is recorded once; a failure to mark it is only logged.
  unfoldable pub record_ready_time : Workspace → ℕ → Run S (Unit {0})
  record_ready_time ws replicas = when (ltb 0 replicas && ws.created) (do
    time ← observes (vms.since_creation ws.meta)
    when (is_startup_time time && flip (has_key ws.annotations ready_time_recorded))
        (do _ ← attempt (api.retry_on_conflict (mark_latest ws)); pure tt))

  unfoldable pub finish_reconcile : Workspace → ℕ → Option Pod → Run S (Option ℕ)
  finish_reconcile ws replicas pod = do
    reconcile_service api ws (workspace_type_of ws)
    update_workspace_status api ws replicas pod
    record_ready_time ws replicas
    pure (next_run ws replicas)

  module _ (machine : Workspace → Run S (Workspace × Result (ℕ × Option Pod))) where
    unfoldable pub after_machine : Workspace → Result (ℕ × Option Pod) → Run S (Option ℕ)
    after_machine ws (ok done) = finish_reconcile ws done.0 done.1
    after_machine ws (err e) = do
      set_not_ready_condition api ws "VMReconcileFailed" (message e)
      raise e

    unfoldable pub reconcile_machine : Workspace → Run S (Option ℕ)
    reconcile_machine ws = do done ← machine ws; after_machine done.0 done.1

    unfoldable pub unless_reset : Workspace → Option ℕ → Run S (Option ℕ)
    unless_reset ws (some seconds) = pure (some seconds)
    unless_reset ws none = reconcile_machine ws

    unfoldable pub if_installed : Workspace → Bool → Run S (Option ℕ)
    if_installed ws false = do
      set_not_ready_condition api ws "KubeVirtNotInstalled"
          "KubeVirt is not installed in this cluster"
      pure none
    if_installed ws true = do reset ← handle_reset api ws; unless_reset ws reset

    abbrev pub no_container_init : Error
    no_container_init =
        fault "container initialization is only supported for container and scratch workspaces"

    unfoldable pub refuse_container_init : Workspace → Run S (Option ℕ)
    refuse_container_init ws = do
      set_not_ready_condition api ws "ContainerInitFailed" (message no_container_init)
      raise no_container_init

    abbrev pub reconcile_vm : Workspace → Run S (Option ℕ)
    reconcile_vm ws = do installed ← kube_virt_installed; if_installed ws installed

    abbrev pub reconcile_pods : Workspace → Run S (Option ℕ)
    reconcile_pods ws = do
      done ←
          reconcile_workload api
            (if workspace_type_of ws == workspace_type_scratch then deployment else stateful_set) ws
      finish_reconcile ws done.0 done.1

    unfoldable pub reconcile_live : Workspace → Run S (Option ℕ)
    reconcile_live ws =
        if workspace_type_of ws == workspace_type_vm
        then (if is_set ws.spec.container_init then refuse_container_init ws else reconcile_vm ws)
        else reconcile_pods ws

    unfoldable pub reconcile_found : Option Workspace → Run S (Option ℕ)
    reconcile_found none = pure none
    reconcile_found (some ws) = if ws.deleting then pure none else reconcile_live ws

    -- The seconds until the next run, `none` where none is asked for.
    unfoldable pub reconcile : (name namespace : String) → Run S (Option ℕ)
    reconcile name namespace = do
      found ← find (reads (api.get_workspace name namespace))
      reconcile_found found
