-- ===== src/Workspace/Exposure.antt =====
-- What a workspace exposes, and that an update leaves nothing to update.
use controller.Base.{
  ◌⊎◌, Any, ℤ, pos, eq_int, true, false, ◌≡◌, refl, none, some, List, [], ◌∷◌, map, lookup,
  lookup-put, lookup-put_all, lookup-delete, has_key, put_all, delete, arith, eq_refl,
  if◌then◌else◌, eq→decided, ℤ-discrete,
}
use controller.Api.Meta.{ObjectMeta}
use controller.Api.Workspace.{Workspace, Container, PodTemplate}
use controller.Workspace.Client.{
  WorkspaceClient, Service, ServicePort, Workload, WorkloadKind, stateful_set, deployment,
  annotation_stopped,
}
use controller.Workspace.Services.{
  service_port, container_ports, add_agent_port, service_ports, default_serving_port,
  default_container_port, service_needs_update, with_ports, Map-discrete, ports-discrete,
}
use controller.Workspace.Workloads.{
  selector_label, desired_replicas, ensure_port, workload_template, set_pod_template_hash,
  generate_workload, pod_template_needs_update, workload_needs_update, with_template,
  annotation_pod_template_hash,
}

-- A port that leads to the agent: on the agent's own number, or as the container has declared it.
abbrev pub LeadsToAgent : List ServicePort → ℤ → ServicePort → Type 0
LeadsToAgent declared port p =
    (p.target_port ≡ port) × ((p.port ≡ port) ⊎ Any (λ q. q ≡ p) declared)

eq_int_refl : (a : ℤ) → eq_int a a ≡ true
eq_int_refl a = eq→decided (ℤ-discrete a a) refl

module _ {S : Type 0} (api : WorkspaceClient S) where
  -- A Service that was brought up to date needs no further update, so reconciling again writes
  -- nothing; what the update keeps of the Service is all but its ports and selector.
  pub service_update_converges :
      (found desired : Service)
      → (service_needs_update desired (with_ports api found desired) ≡ false)
        × ((with_ports api found desired).meta ≡ found.meta)
        × ((with_ports api found desired).type ≡ found.type)
  unfolding service_needs_update
  service_update_converges found desired = (
    ground (
      arith,
      eq→decided (ports-discrete desired.ports desired.ports) refl,
      eq→decided (Map-discrete desired.selector desired.selector) refl,
    ),
    refl,
    refl,
  )

  -- Where the first container declares no usable port and no agent port is given, the Service
  -- leads from port 80 to port 8080, which is the port that the pod template is given then.
  pub default_port_is_consistent :
      (instance : Workspace) (kind : WorkloadKind) (c : Container) (cs : List Container)
      → instance.spec.template.containers ≡ c ∷ cs
      → c.ports ≡ []
      → (service_ports api instance (pos 0)
          ≡ service_port "http" default_serving_port default_container_port ∷ [])
        × ((d : Container) × ((workload_template kind instance).spec.containers ≡ d ∷ cs)
            × (map (λ q. q.container_port) d.ports ≡ default_container_port ∷ []))
  unfolding service_ports container_ports add_agent_port workload_template ensure_port
  default_port_is_consistent instance kind c cs one none_declared =
      rw (one, none_declared) (refl, (record c { ports = _ }, refl, refl))

  unmarked :
      (instance : Workspace)
      → lookup annotation_stopped (put_all (delete annotation_stopped instance.annotations) [])
        ≡ none
  unfolding lookup
  unmarked instance = ground (
    arith,
    lookup-put_all annotation_stopped (delete annotation_stopped instance.annotations) [],
    lookup-delete annotation_stopped annotation_stopped instance.annotations,
  )

  -- The pods of a workload carry the label by which the workload selects them, unless a label of the
  -- workspace has the same key. They are run, one of them, exactly where the workspace is not marked
  -- as stopped, and the mark is not passed on to them.
  pub pods_are_selected :
      (kind : WorkloadKind) (instance : Workspace)
      → lookup (selector_label kind) instance.labels ≡ none
      → let w = generate_workload api kind instance in
        (lookup (selector_label kind) w.template.labels ≡ some instance.name)
        × (lookup (selector_label kind) w.match_labels ≡ some instance.name)
        × (lookup annotation_stopped w.template.annotations ≡ none)
        × (w.replicas ≡ (if has_key instance.annotations annotation_stopped then 0 else 1))
  unfolding generate_workload workload_template desired_replicas lookup
  pods_are_selected stateful_set instance free = (
    ground (
      arith,
      free,
      lookup-put_all "statefulset" instance.labels
          (("statefulset", instance.name) ∷ ("workspace-name", instance.name) ∷ []),
    ),
    refl,
    unmarked instance,
    refl,
  )
  pods_are_selected deployment instance free = (
    ground (
      arith,
      free,
      lookup-put_all "deployment" instance.labels
          (("deployment", instance.name) ∷ ("workspace-name", instance.name) ∷ []),
    ),
    refl,
    unmarked instance,
    refl,
  )

  -- A workload that was brought up to date needs no further update, where a pod template does not
  -- differ from itself for the cluster's comparison.
  pub workload_update_converges :
      (same : (t : PodTemplate) → api.derives t t ≡ true) (found desired : Workload)
      (meta : ObjectMeta)
      → desired.meta ≡ set_pod_template_hash api meta desired.template
      → workload_needs_update api desired (with_template api found desired) ≡ false
  unfolding workload_needs_update pod_template_needs_update with_template set_pod_template_hash
  workload_update_converges same found desired meta hashed = rw hashed (
      ground (
        arith,
        same desired.template,
        lookup-put annotation_pod_template_hash annotation_pod_template_hash
            (api.sha256 (api.encode_template desired.template)) meta.annotations,
        lookup-put annotation_pod_template_hash annotation_pod_template_hash
            (api.sha256 (api.encode_template desired.template)) found.annotations,
        eq_refl (api.sha256 (api.encode_template desired.template)),
      ))
