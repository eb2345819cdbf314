-- ===== src/Windows/Client.antt =====
-- What the life cycle of a Windows guest sees besides the Workspace controller's cluster: the guest
-- agent, the inventory of the cluster, and the libraries that it calls.
use controller.Base.{ℕ, ℤ, String, Bool, Option, List, Map}
use controller.Base.Effects.{Result}
use controller.Api.Workspace.{VmGpuProfile}

-- The interface WindowsGuestAgent of vm_windows_agent.go.
pub record GuestAgent (S : Type 0) : Type 0 where
  pub complete_bootstrap : (namespace pod vm hostname : String) → S → Result Bool × S
  pub stage_enrollment : (namespace pod vm token : String) → S → Result (Unit {0}) × S

-- A node as far as it is read; an allocatable quantity is in billionths.
pub record Node : Type 0 where
  pub unschedulable : Bool
  pub labels : Map
  pub allocatable : List (String × ℤ)
  pub conditions : List (String × String)  -- the type and the status

-- A KubeVirt installation as far as it is read.
pub record KubeVirt : Type 0 where
  pub version : String
  pub phase : String
  pub use_emulation : Bool
  pub vm_state_storage_class : String
  pub pci_host_devices : List String  -- the names of the resources
  pub mediated_devices : List String

pub record StorageClass : Type 0 where
  pub name : String
  pub annotations : Map
  pub provisioner : String

-- One of the claimPropertySets of a StorageProfile.
pub record ClaimProperties : Type 0 where
  pub volume_mode : String
  pub access_modes : List String

-- The token of windowsEnrollmentToken; the time is in seconds.
pub record EnrollmentToken : Type 0 where
  pub token : String
  pub workspace_uid : String
  pub workspace_generation : String
  pub expires_at : ℕ

pub record WindowsClient (S : Type 0) : Type 0 where
  pub guest_agent : Option (GuestAgent S)  -- the field GuestAgent, which may be nil
  -- the field Data of the ConfigMap
  pub get_config_map : (name namespace : String) → S → Result Map × S
  pub list_nodes : (hostname : String) → S → Result (List Node) × S
  pub list_kubevirts : S → Result (List KubeVirt) × S
  pub list_data_volumes : (namespace : String) → S → Result (Unit {0}) × S
  pub list_storage_classes : S → Result (List StorageClass) × S
  pub get_storage_profile : (name : String) → S → Result (List ClaimProperties) × S
  -- spec.vmGPUProfiles of the PlatformConfig `default`
  pub get_gpu_profiles : S → Result (List VmGpuProfile) × S
  -- 24 bytes of crypto/rand.Read
  pub random_bytes : S → Result (List ℕ) × S
  pub sha256_bytes : String → List ℕ
  -- fmt's %x and %X, base64.RawURLEncoding, encoding/json, xml.EscapeText
  pub encode_hex : List ℕ → String
  pub encode_upper_hex : List ℕ → String
  pub encode_bytes : List ℕ → String
  pub encode_token : EnrollmentToken → Result String
  pub escape_text : String → Result String
  -- the regular expression of image digests
  pub is_image_digest : String → Bool
  -- resource.ParseQuantity, in billionths, and Value, which rounds up
  pub parse_quantity : String → Option ℤ
  pub quantity_value : String → ℤ
  -- k8s.io/apimachinery/pkg/util/validation reports nothing
  pub is_dns1123_subdomain : String → Bool
  pub is_qualified_name : String → Bool
  pub is_label_value : String → Bool
  -- strings.Split by "/"
  pub split_slash : String → List String
