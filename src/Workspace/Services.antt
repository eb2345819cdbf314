-- ===== src/Workspace/Services.antt =====
-- workspace_controller.go: the Service of a workspace.
use controller.Base.{
  ℤ, pos, ltb_int, eq_int, String, ◌<>◌, Bool, ◌&&◌, ◌||◌, flip, Option, none, some, List, [], ◌∷◌,
  ◌++◌, map, any, Map, ◌==◌, if◌then◌else◌, decided, String-discrete, ℤ-discrete,
}
use controller.Base.Effects.{Result, ok, err, pure, attempt, lift, find, when, ◌>>=◌, reads, writes}
use controller.Api.Meta.{new_meta}
use controller.Api.Workspace.{Workspace, Container, ContainerPort}
use controller.Api.Image.{Image}
use controller.Workspace.Client.{
  WorkspaceClient, Run, Service, ServicePort, create_service, update_service, workspace_type_vm,
  workspace_type_scratch,
}

abbrev pub default_container_port : ℤ
default_container_port = pos 8080

abbrev pub default_serving_port : ℤ
default_serving_port = pos 80

unfoldable pub ports-discrete : Discrete (List ServicePort)
ports-discrete = hlevel (String-discrete, ℤ-discrete)

unfoldable pub Map-discrete : Discrete Map
Map-discrete = hlevel String-discrete

abbrev pub service_port : String → ℤ → ℤ → ServicePort
service_port name port target = record {
  name = name;
  port = port;
  target_port = target;
  protocol = "TCP";
}

abbrev pub ports_of : List Container → List ContainerPort
ports_of [] = []
ports_of (c ∷ cs) = c.ports

abbrev pub image_of : List Container → String
image_of [] = ""
image_of (c ∷ cs) = c.image

-- imageByRef: the first Image with the reference.
unfoldable pub image_by_ref : String → List Image → Option Image
image_by_ref ref [] = none
image_by_ref ref (img ∷ images) =
    if img.spec.image == ref then some img else image_by_ref ref images

unfoldable pub agent_port_for_image : Option Image → ℤ
agent_port_for_image none = pos 0
agent_port_for_image (some img) = elim img.spec.proxy_config [
  | none ↦ pos 0
  | some proxy ↦
      if ltb_int proxy.agent_port (pos 1) || ltb_int (pos 65535) proxy.agent_port
      then pos 0
      else proxy.agent_port
]

unfoldable pub service_needs_update : Service → Service → Bool
service_needs_update desired current =
    flip (decided (ports-discrete desired.ports current.ports))
    || flip (decided (Map-discrete desired.selector current.selector))

module _ {S : Type 0} (api : WorkspaceClient S) where
  -- A port after the first is exposed on its own number.
  unfoldable pub extra_port : ContainerPort → ServicePort
  extra_port cp =
      service_port (if cp.name == "" then "port-" <> api.format_int cp.container_port else cp.name)
        cp.container_port cp.container_port

  unfoldable pub container_ports : List ContainerPort → List ServicePort
  container_ports [] = []
  container_ports (cp ∷ cps) =
      if ltb_int (pos 0) cp.container_port
      then service_port "http" default_serving_port cp.container_port ∷ map extra_port cps
      else []

  -- Some port of the Service leads to the number: the map `present`.
  unfoldable pub is_present : ℤ → List ServicePort → Bool
  is_present port ports = any (λ p. eq_int p.target_port port) ports

  unfoldable pub add_agent_port : ℤ → List ServicePort → List ServicePort
  add_agent_port port ports =
      if ltb_int (pos 0) port && flip (is_present port ports)
      then ports ++ (service_port "agent" port port ∷ [])
      else ports

  abbrev pub or_default : List ServicePort → List ServicePort
  or_default [] = service_port "http" default_serving_port default_container_port ∷ []
  or_default (p ∷ ps) = p ∷ ps

  unfoldable pub service_ports : Workspace → ℤ → List ServicePort
  service_ports instance agent_port =
      or_default
        (add_agent_port agent_port (container_ports (ports_of instance.spec.template.containers)))

  unfoldable pub service_selector : Workspace → String → Map
  service_selector instance type =
      if type == workspace_type_vm || type == workspace_type_scratch
      then ("workspace-name", instance.name) ∷ []
      else ("statefulset", instance.name) ∷ []

  unfoldable pub generate_service : Workspace → String → ℤ → Service
  generate_service instance type agent_port = record {
    meta = new_meta instance.name instance.namespace;
    type = "ClusterIP";
    selector = service_selector instance type;
    ports = service_ports instance agent_port;
  }

  abbrev pub found_image : String → Result (List Image) → Option Image
  found_image ref (ok images) = image_by_ref ref images
  found_image ref (err e) = none

  -- A lookup that fails is no image.
  unfoldable pub agent_image_for_workspace : Workspace → Run S (Option Image)
  agent_image_for_workspace instance =
      if image_of instance.spec.template.containers == "" then pure none else do
        answer ← attempt (reads api.list_images)
        pure (found_image (image_of instance.spec.template.containers) answer)

  unfoldable pub agent_port_of : Workspace → String → Run S ℤ
  agent_port_of instance type =
      if type == workspace_type_vm
      then (do image ← agent_image_for_workspace instance; pure (agent_port_for_image image))
      else pure (pos 0)

  abbrev pub with_ports : Service → Service → Service
  with_ports found desired = record {
    meta = found.meta;
    type = found.type;
    selector = desired.selector;
    ports = desired.ports;
  }

  unfoldable pub store_service : Service → Option Service → Run S (Unit {0})
  store_service desired none = writes (create_service desired) (api.service_create desired)
  store_service desired (some found) = when (service_needs_update desired found) (
      writes (update_service (with_ports found desired))
        (api.service_update (with_ports found desired)))

  abbrev pub owned_service : Workspace → Service → Result Service
  owned_service instance service = elim (api.set_controller instance.meta service.meta) [
    | err e ↦ err e
    | ok meta ↦ ok (record {
      meta = meta;
      type = service.type;
      selector = service.selector;
      ports = service.ports;
    })
  ]

  unfoldable pub reconcile_service : Workspace → String → Run S (Unit {0})
  reconcile_service instance type = do
    agent_port ← agent_port_of instance type
    desired ← lift (owned_service instance (generate_service instance type agent_port))
    found ← find (reads (api.get_service desired.name desired.namespace))
    store_service desired found
