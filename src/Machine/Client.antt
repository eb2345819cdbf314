-- ===== src/Machine/Client.antt =====
-- What the reconcile of a VirtualMachine sees besides the Workspace controller's cluster.
use controller.Base.{ℤ, String, Bool, Option, List, Map}
use controller.Base.Effects.{Result}
use controller.Api.Meta.{ObjectMeta, Secret}
use controller.Api.Workspace.{Workspace}
use controller.Api.SshKey.{SshKey}
use controller.Workspace.Client.{Disk, Vmi}

-- url.Parse of a reference, as far as it is read.
pub record Url : Type 0 where
  pub scheme : String
  pub hostname : String
  pub has_user : Bool
  pub fragment : String

-- An element of a sequence of a YAML document: a text, a mapping with its entries that are texts and
-- the rest of it, or anything else.
pub data Item : Type 0 where
  item : String → Item
  mapping : Map → (other : String) → Item
  other_item : String → Item

pub data Field : Type 0 where
  sequence : List Item → Field
  other_field : String → Field

abbrev pub Body : Type 0
Body = List (String × Field)

pub record MachineClient (S : Type 0) : Type 0 where
  -- `live_…` read through APIReader
  pub live_disk : (name namespace : String) → S → Result Disk × S
  pub disk_update : Disk → S → Result (Unit {0}) × S
  pub live_vmi : (name namespace : String) → S → Result Vmi × S
  -- a VirtualMachine of the name kubevirt-probe
  pub probe_vm : S → Result (Unit {0}) × S
  pub list_ssh_keys : (namespace : String) → S → Result (List SshKey) × S
  pub list_workspaces : (namespace : String) → S → Result (List Workspace) × S
  -- the two halves of controllerutil.CreateOrUpdate
  pub fetch_secret : (name namespace : String) → S → Result (Option Secret) × S
  pub store_secret : Secret → S → Result (Unit {0}) × S
  -- sort.Strings, strings.SplitN by "/" into two, path.Clean
  pub sort_strings : List String → List String
  pub split_owner : String → String × Option String
  pub clean_path : String → String
  -- SHA-256 in hexadecimal, its first 9 bytes
  pub sha256_9 : String → String
  pub to_lower : String → String
  -- the nanoseconds since the creation of an object
  pub since_creation : ObjectMeta → S → ℤ × S
  pub parse_url : String → Option Url
  -- strings.Contains, and unicode.IsSpace on some character
  pub has_text : (text part : String) → Bool
  pub has_space : String → Bool
  -- strings.Join by a line feed
  pub join_lines : List String → String
  pub trim_space : String → String
  -- yaml.Unmarshal into an empty map, which is nil after it where the document is null
  pub yaml_unmarshal : String → Result (Option Body)
  pub yaml_marshal : Body → Result String
  -- json.Marshal of the binding of an agent
  pub binding_json : (uid generation : String) → Result String
