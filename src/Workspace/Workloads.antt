-- ===== src/Workspace/Workloads.antt =====
-- workspace_controller.go: the StatefulSet or Deployment of a workspace. generateStatefulSet and
-- generateDeployment differ in the label that selects the pods.
use controller.Base.{
  ℕ, pos, eq_int, String, Bool, false, ◌||◌, flip, Option, none, some, List, [], ◌∷◌, put, put_all,
  delete, has_key, at_key, nat_eq, ◌/=◌, if◌then◌else◌,
}
use controller.Base.Effects.{Result, ok, err, pure, find, ◌>>=◌, reads, writes}
use controller.Api.Meta.{ObjectMeta, new_meta}
use controller.Api.Workspace.{Workspace, Container, ContainerPort, PodTemplate}
use controller.Workspace.Client.{
  WorkspaceClient, Run, Workload, WorkloadKind, stateful_set, deployment, Pod, create_workload,
  update_workload, annotation_stopped,
}
use controller.Workspace.Services.{default_container_port}

abbrev pub annotation_pod_template_hash : String
annotation_pod_template_hash = "kubeworkspaces.io/pod-template-hash"

-- The label by which a workload finds its pods.
abbrev pub selector_label : WorkloadKind → String
selector_label stateful_set = "statefulset"
selector_label deployment = "deployment"

unfoldable pub desired_replicas : Workspace → ℕ
desired_replicas instance = if has_key instance.annotations annotation_stopped then 0 else 1

abbrev pub workspace_port : ContainerPort
workspace_port = record {
  name = "workspace-port";
  host_port = pos 0;
  container_port = default_container_port;
  protocol = "TCP";
  host_ip = "";
}

abbrev pub has_port : List ContainerPort → Bool
has_port [] = false
has_port (p ∷ ps) = flip (eq_int p.container_port (pos 0))

-- The first container has a port.
unfoldable pub ensure_port : List Container → List Container
ensure_port [] = []
ensure_port (c ∷ cs) =
    if has_port c.ports then c ∷ cs else record c { ports = workspace_port ∷ [] } ∷ cs

unfoldable pub workload_template : WorkloadKind → Workspace → PodTemplate
workload_template kind instance = record {
  labels =
      put_all instance.labels
        ((selector_label kind, instance.name) ∷ ("workspace-name", instance.name) ∷ []);
  annotations = put_all (delete annotation_stopped instance.annotations) [];
  spec = record instance.spec.template {
    containers = ensure_port instance.spec.template.containers;
  };
}

module _ {S : Type 0} (api : WorkspaceClient S) where
  -- The error of json.Marshal is dropped: a pod template has none.
  unfoldable pub set_pod_template_hash : ObjectMeta → PodTemplate → ObjectMeta
  set_pod_template_hash meta template = record meta {
    annotations =
        put annotation_pod_template_hash (api.sha256 (api.encode_template template))
          meta.annotations;
  }

  unfoldable pub generate_workload : WorkloadKind → Workspace → Workload
  generate_workload kind instance = record {
    meta =
        set_pod_template_hash (new_meta instance.name instance.namespace)
          (workload_template kind instance);
    replicas = desired_replicas instance;
    match_labels = (selector_label kind, instance.name) ∷ [];
    template = workload_template kind instance;
    ready_replicas = 0;
  }

  unfoldable pub pod_template_needs_update : Workload → Workload → Bool
  pod_template_needs_update desired current =
      at_key desired.annotations annotation_pod_template_hash
        /= at_key current.annotations annotation_pod_template_hash
      || flip (api.derives desired.template current.template)

  -- statefulSetNeedsUpdate and deploymentNeedsUpdate.
  unfoldable pub workload_needs_update : Workload → Workload → Bool
  workload_needs_update desired current =
      flip (nat_eq desired.replicas current.replicas) || pod_template_needs_update desired current

  -- What an update changes: the replicas, the template and its hash.
  unfoldable pub with_template : Workload → Workload → Workload
  with_template found desired = record {
    meta = set_pod_template_hash found.meta desired.template;
    replicas = desired.replicas;
    match_labels = found.match_labels;
    template = desired.template;
    ready_replicas = found.ready_replicas;
  }

  -- The ready replicas of the workload that was found; a new one has none.
  unfoldable pub store_workload : WorkloadKind → Workload → Option Workload → Run S ℕ
  store_workload kind desired none = do
    _ ← writes (create_workload kind desired) (api.workload_create kind desired)
    pure 0
  store_workload kind desired (some found) =
      if workload_needs_update desired found
      then (do
        stored ←
            writes (update_workload kind (with_template found desired))
              (api.workload_update kind (with_template found desired))
        pure stored.ready_replicas)
      else pure found.ready_replicas

  abbrev pub owned_workload : Workspace → Workload → Result Workload
  owned_workload instance workload = elim (api.set_controller instance.meta workload.meta) [
    | err e ↦ err e
    | ok meta ↦ ok (record {
      meta = meta;
      replicas = workload.replicas;
      match_labels = workload.match_labels;
      template = workload.template;
      ready_replicas = workload.ready_replicas;
    })
  ]

  unfoldable pub get_pod_of : String → String → Run S (Option Pod)
  get_pod_of namespace name = find (reads (api.get_pod name namespace))

  abbrev pub first_pod : List Pod → Option Pod
  first_pod [] = none
  first_pod (p ∷ ps) = some p

  unfoldable pub pod_by_label : String → String → String → Run S (Option Pod)
  pod_by_label namespace label value = do
    pods ← reads (api.list_pods namespace label value)
    pure (first_pod pods)
