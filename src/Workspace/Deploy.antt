-- ===== src/Workspace/Deploy.antt =====
-- workspace_controller.go: reconcileStatefulSet and reconcileDeployment, which differ in the kind of
-- the workload and in how its pod is found.
use controller.Base.{ℕ, ◌<>◌, Option}
use controller.Base.Effects.{
  Result, ok, err, message, pure, raise, attempt, lift, find, ◌>>=◌, ◌>>◌, reads,
}
use controller.Api.Workspace.{Workspace, PodTemplate}
use controller.Workspace.Client.{
  WorkspaceClient, Run, Workload, WorkloadKind, stateful_set, deployment, Pod,
}
use controller.Workspace.Workloads.{
  set_pod_template_hash, generate_workload, owned_workload, store_workload, get_pod_of,
  pod_by_label,
}
use controller.Workspace.ContainerInit.{prepare_container_init}
use controller.Workspace.Status.{set_not_ready_condition}

module _ {S : Type 0} (api : WorkspaceClient S) where
  unfoldable pub prepared_template : Workspace → Result PodTemplate → Run S PodTemplate
  prepared_template instance (ok template) = pure template
  prepared_template instance (err e) = do
    set_not_ready_condition api instance "ContainerInitFailed" (message e)
    raise e

  abbrev pub with_prepared : Workload → PodTemplate → Workload
  with_prepared w template = record {
    meta = set_pod_template_hash api w.meta template;
    replicas = w.replicas;
    match_labels = w.match_labels;
    template = template;
    ready_replicas = w.ready_replicas;
  }

  unfoldable pub workload_pod : WorkloadKind → Workspace → Run S (Option Pod)
  workload_pod stateful_set instance = get_pod_of api instance.namespace (instance.name <> "-0")
  workload_pod deployment instance =
      pod_by_label api instance.namespace "workspace-name" instance.name

  -- The ready replicas and the pod.
  unfoldable pub reconcile_workload : WorkloadKind → Workspace → Run S (ℕ × Option Pod)
  reconcile_workload kind instance = do
    let generated = generate_workload api kind instance
    prepared ← attempt (prepare_container_init api instance generated.template)
    template ← prepared_template instance prepared
    desired ← lift (owned_workload api instance (with_prepared generated template))
    found ← find (reads (api.get_workload kind desired.name desired.namespace))
    ready ← store_workload api kind desired found
    pod ← workload_pod kind instance
    pure (ready, pod)
