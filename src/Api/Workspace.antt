-- ===== src/Api/Workspace.antt =====
-- api/v1alpha1/workspace_types.go, container_init_types.go and vm_profile_types.go, with the parts
-- of a Kubernetes pod that the controller reads or writes. A field `other` stands for the fields of
-- an object that the code only passes on, as they are printed; it is empty where the code sets none.
use native.Mathlib.Decide.{ℕ_discrete}
use controller.Base.{ℕ, ℤ, ℤ-discrete, String, Bool, Option, List, Map, String-discrete}
use controller.Api.Meta.{ObjectMeta}

pub record ContainerInitSpec : Type 0 where
  pub mode : String
  pub default_user : String
  pub run_as_user : String
  pub user_data : String
  pub user_data_secret_ref : Option String  -- the name of the Secret

pub record VmGpuProfile : Type 0 where
  pub id : String
  pub display_name : String
  pub resource_name : String
  pub kind : String
  pub count : ℤ
  pub node_selector : Map
  pub guest_driver_version : String
  pub experimental : Bool

pub record ResolvedVmProfile : Type 0 where
  pub gpu : Option VmGpuProfile
  pub id : String
  pub image : String
  pub generation : String
  pub root_disk_size : String
  pub cpu_cores : ℤ
  pub guest_memory : String
  pub import_secret_name : String
  pub import_cert_config_map_name : String
  pub storage_class_name : String

pub record ContainerPort : Type 0 where
  pub name : String
  pub host_port : ℤ
  pub container_port : ℤ
  pub protocol : String
  pub host_ip : String

pub record VolumeMount : Type 0 where
  pub name : String
  pub read_only : Bool
  pub mount_path : String
  pub other : String

pub data VolumeSource : Type 0 where
  secret_source : (name : String) (mode : ℕ) (items : Map) → VolumeSource
  empty_dir : VolumeSource
  other_source : String → VolumeSource

pub record Volume : Type 0 where
  pub name : String
  pub source : VolumeSource

pub record SecurityContext : Type 0 where
  pub run_as_user : Option ℤ
  pub read_only_root_filesystem : Option Bool
  pub other : String

pub record Container : Type 0 where
  pub name : String
  pub image : String
  pub image_pull_policy : String
  pub command : List String
  pub args : List String
  pub ports : List ContainerPort
  pub volume_mounts : List VolumeMount
  pub requests : Map  -- of its resources
  pub limits : Map
  pub termination_message_path : String
  pub termination_message_policy : String
  pub security_context : Option SecurityContext
  pub other : String

pub record PodSpec : Type 0 where
  pub volumes : List Volume
  pub init_containers : List Container
  pub containers : List Container
  pub node_selector : Map
  pub other : String

pub record PodTemplate : Type 0 where
  pub labels : Map
  pub annotations : Map
  pub spec : PodSpec

pub record WorkspaceSpec : Type 0 where
  pub container_init : Option ContainerInitSpec
  pub execution_revocation_epoch : ℤ
  pub vm_profile : Option ResolvedVmProfile
  pub type : String
  pub template : PodSpec

-- A time is a number of nanoseconds, `none` for the zero time.
pub record WorkspaceCondition : Type 0 where
  pub type : String
  pub status : String
  pub last_probe_time : Option ℕ
  pub last_transition_time : Option ℕ
  pub reason : String
  pub message : String

pub record ManagementExecutionStatus : Type 0 where
  pub vm_uid : String
  pub revocation_epoch : ℤ

pub record Terminated : Type 0 where
  pub exit_code : ℤ
  pub message : String
  pub finished_at : Option ℕ
  pub other : String

-- corev1.ContainerState; what is said of a waiting or running container is printed.
pub record ContainerState : Type 0 where
  pub waiting : Option String
  pub running : Option String
  pub terminated : Option Terminated

pub record WorkspaceStatus : Type 0 where
  pub management_execution : Option ManagementExecutionStatus
  pub conditions : List WorkspaceCondition
  pub ready_replicas : ℕ
  pub container_state : ContainerState

pub record Workspace : Type 0 where
  pub meta : ObjectMeta
  pub open meta use *
  pub spec : WorkspaceSpec
  pub status : WorkspaceStatus

unfoldable pub WorkspaceStatus-discrete : Discrete WorkspaceStatus
WorkspaceStatus-discrete = hlevel (String-discrete, ℕ_discrete, ℤ-discrete)

unfoldable pub conditions-discrete : Discrete (List WorkspaceCondition)
conditions-discrete = hlevel (String-discrete, ℕ_discrete)
