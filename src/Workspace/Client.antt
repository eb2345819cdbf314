-- ===== src/Workspace/Client.antt =====
-- The cluster and the libraries as the Workspace controller sees them.
use controller.Base.{ℕ, ℤ, String, Bool, false, Option, none, some, List, Map, ◌==◌, if◌then◌else◌}
use controller.Base.Effects.{Result, ok, err, fault, Act, World}
use controller.Api.Meta.{ObjectMeta, OwnerReference, Secret}
use controller.Api.Workspace.{Workspace, PodTemplate, ContainerState}
use controller.Api.Image.{Image}

-- A KubeVirt VirtualMachine as far as it is read: `running` is the field spec.running, `none` where
-- it is missing or no Boolean.
pub record Vm : Type 0 where
  pub meta : ObjectMeta
  pub open meta use *
  pub running : Option Bool

-- A StatefulSet or a Deployment.
pub record Workload : Type 0 where
  pub meta : ObjectMeta
  pub open meta use *
  pub replicas : ℕ
  pub match_labels : Map
  pub template : PodTemplate
  pub ready_replicas : ℕ  -- of its status

pub record ServicePort : Type 0 where
  pub name : String
  pub port : ℤ
  pub target_port : ℤ
  pub protocol : String

pub record Service : Type 0 where
  pub meta : ObjectMeta
  pub open meta use *
  pub type : String
  pub selector : Map
  pub ports : List ServicePort

-- A DataVolume as far as it is read; `is_blank` is whether it has spec.source.blank.
pub record Disk : Type 0 where
  pub meta : ObjectMeta
  pub open meta use *
  pub is_blank : Bool

pub record PodCondition : Type 0 where
  pub type : String
  pub status : String
  pub last_probe_time : Option ℕ
  pub last_transition_time : Option ℕ
  pub reason : String
  pub message : String

pub record ContainerStatus : Type 0 where
  pub state : ContainerState
  pub last_termination_state : ContainerState

-- A VirtualMachineInstance as far as it is read: the phase of its status, the nodes of its launcher
-- pods by their UID, and the type and the status of its conditions.
pub record Vmi : Type 0 where
  pub phase : String
  pub active_pods : Map
  pub conditions : List (String × String)

-- A pod; `other` is the rest of its status, printed, "" where it is empty.
pub record Pod : Type 0 where
  pub name : String
  pub uid : String
  pub conditions : List PodCondition
  pub container_statuses : List ContainerStatus
  pub other : String

pub data WorkloadKind : Type 0 where
  stateful_set deployment : WorkloadKind

pub data Call : Type 0 where
  update_workspace update_status : Workspace → Call
  update_vm delete_vm : Vm → Call
  create_secret update_secret delete_secret : Secret → Call
  create_workload update_workload : WorkloadKind → Workload → Call
  create_service update_service : Service → Call
  update_disk : Disk → Call
  put_secret : Secret → Call  -- of controllerutil.CreateOrUpdate
  complete_bootstrap : (pod hostname : String) → Call
  stage_enrollment : (pod token : String) → Call

-- The document of managementBootstrapDocument; a time is a number of nanoseconds, `none` for the
-- zero time.
pub record Document : Type 0 where
  pub version : ℕ
  pub token : String
  pub namespace : String
  pub workspace_name : String
  pub workspace_uid : String
  pub generation : String
  pub revocation_epoch : ℕ
  pub expires_at : Option ℕ

abbrev pub Run : Type 0 → Type 0 → Type 0
Run S A = Act (World S Call) A

pub record WorkspaceClient (S : Type 0) : Type 0 where
  -- `live_…` read through APIReader, which is the client where it is not set
  pub get_workspace : (name namespace : String) → S → Result Workspace × S
  pub live_workspace : (name namespace : String) → S → Result Workspace × S
  pub workspace_update : Workspace → S → Result Workspace × S
  pub status_update : Workspace → S → Result Workspace × S
  pub get_vm : (name namespace : String) → S → Result Vm × S
  pub live_vm : (name namespace : String) → S → Result Vm × S
  pub vm_update : Vm → S → Result (Unit {0}) × S
  -- with foreground propagation
  pub vm_delete : Vm → S → Result (Unit {0}) × S
  pub get_vmi : (name namespace : String) → S → Result Vmi × S
  pub get_secret : (name namespace : String) → S → Result Secret × S
  pub live_secret : (name namespace : String) → S → Result Secret × S
  pub secret_create : Secret → S → Result (Unit {0}) × S
  pub secret_update : Secret → S → Result (Unit {0}) × S
  pub secret_delete : Secret → S → Result (Unit {0}) × S
  pub get_workload : WorkloadKind → (name namespace : String) → S → Result Workload × S
  -- a created object comes back as the server has stored it
  pub workload_create : WorkloadKind → Workload → S → Result Workload × S
  pub workload_update : WorkloadKind → Workload → S → Result Workload × S
  pub get_service : (name namespace : String) → S → Result Service × S
  pub service_create : Service → S → Result (Unit {0}) × S
  pub service_update : Service → S → Result (Unit {0}) × S
  pub get_pod : (name namespace : String) → S → Result Pod × S
  pub list_pods : (namespace label value : String) → S → Result (List Pod) × S
  pub list_images : S → Result (List Image) × S
  pub now : S → ℕ × S
  -- 32 bytes of crypto/rand.Read, and uuid.NewUUID
  pub random_nonce : S → Result String × S
  pub new_uuid : S → String × S
  -- retry.RetryOnConflict with DefaultRetry
  pub retry_on_conflict : Act (World S Call) (Unit {0}) → Act (World S Call) (Unit {0})
  -- the fields of the reconciler
  pub management_namespace : String
  pub container_init_image : String
  -- metav1.IsControlledBy, metav1.GetControllerOf, ctrl.SetControllerReference
  pub is_controlled_by : ObjectMeta → ObjectMeta → Bool
  pub controller_of : ObjectMeta → Option OwnerReference
  pub set_controller : ObjectMeta → ObjectMeta → Result ObjectMeta
  -- SHA-256 in hexadecimal: of a text, and its first 6, 8 and 16 bytes
  pub sha256 : String → String
  pub sha256_6 : String → String
  pub sha256_8 : String → String
  pub sha256_16 : String → String
  pub byte_length : String → ℕ
  pub format_int : ℤ → String
  -- base64.RawURLEncoding; the decoder is `none` on an error
  pub encode_base64 : String → String
  pub decode_base64 : String → Option String
  -- encoding/json, which for the decoder knows no other fields and no second value
  pub encode_document : Document → Result String
  pub decode_document : String → Option Document
  -- validation.IsDNS1123Label reports nothing
  pub is_dns1123_label : String → Bool
  -- the JSON of a pod template, and equality.Semantic.DeepDerivative on two of them
  pub encode_template : PodTemplate → String
  pub derives : PodTemplate → PodTemplate → Bool
  -- the regular expression of account names, and the one of the steps of a failure
  pub is_account_name : String → Bool
  pub is_failure_step : String → Bool
  -- strings.TrimSpace
  pub trim_space : String → String
  -- the diagnostic of a terminated container: source, version, state, step
  pub decode_diagnostic : String → Option (String × ℤ × String × String)

abbrev pub annotation_stopped : String
annotation_stopped = "kubeworkspaces.io/stopped"

abbrev pub annotation_reset : String
annotation_reset = "kubeworkspaces.io/reset"

abbrev pub windows_11_amd64_v1 : String
windows_11_amd64_v1 = "windows11-amd64-v1"

abbrev pub workspace_type_container : String
workspace_type_container = "container"

abbrev pub workspace_type_vm : String
workspace_type_vm = "vm"

abbrev pub workspace_type_scratch : String
workspace_type_scratch = "scratch"

abbrev pub windows_provisioned_generation : String
windows_provisioned_generation = "kubeworkspaces.io/windows-provisioned-generation"

abbrev pub windows_detaching_generation : String
windows_detaching_generation = "kubeworkspaces.io/windows-detaching-generation"

abbrev pub windows_reboot_annotation : String
windows_reboot_annotation = "kubeworkspaces.io/reboot"

unfoldable pub windows_workspace : Workspace → Bool
windows_workspace ws = elim ws.spec.vm_profile [
  | none ↦ false
  | some p ↦ p.id == windows_11_amd64_v1
]

abbrev pub generation_of : Workspace → String
generation_of ws = elim ws.spec.vm_profile [ none ↦ "" | some p ↦ p.generation ]

unfoldable pub workspace_type_of : Workspace → String
workspace_type_of ws = if ws.spec.type == "" then workspace_type_container else ws.spec.type

-- `if err != nil { return fmt.Errorf(text) }`
abbrev pub or_fault : {A : Type 0} → String → Result A → Result A
or_fault text (ok a) = ok a
or_fault text (err e) = err (fault text)
