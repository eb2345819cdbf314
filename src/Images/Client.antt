-- ===== src/Images/Client.antt =====
-- The cluster, the git library, the file system and the clock, as the ImageRepository controller
-- sees them.
use controller.Base.{ℕ, String, Bool, Option, List}
use controller.Base.Effects.{Result, Act, World}
use controller.Api.Meta.{ObjectMeta, Condition, Secret}
use controller.Api.ImageRepository.{ImageRepository}

-- An unstructured object: `spec` is printed, `none` where it is no map; `other` is all that is
-- neither read nor written.
pub record Manifest : Type 0 where
  pub meta : ObjectMeta
  pub open meta use *
  pub kind : String
  pub api_version : String
  pub spec : Option String
  pub other : String

pub record Entry : Type 0 where
  pub name : String
  pub is_dir : Bool

pub record BasicAuth : Type 0 where
  pub username : String
  pub password : String

-- The calls that write. A deletion carries the UID and the version of the object.
pub data Call : Type 0 where
  update_repository update_status : ImageRepository → Call
  create_image update_image delete_image : Manifest → Call
  remove_dir : String → Call

abbrev pub Run : Type 0 → Type 0 → Type 0
Run S A = Act (World S Call) A

pub record ImageClient (S : Type 0) : Type 0 where
  pub get_repository : (name : String) → S → Result ImageRepository × S
  pub repository_update : ImageRepository → S → Result ImageRepository × S
  pub status_update : ImageRepository → S → Result ImageRepository × S
  pub get_secret : (name namespace : String) → S → Result Secret × S
  pub get_image : (name : String) → S → Result Manifest × S
  pub image_create : Manifest → S → Result (Unit {0}) × S
  pub image_update : Manifest → S → Result (Unit {0}) × S
  pub image_delete : Manifest → S → Result (Unit {0}) × S
  pub list_images : (label value : String) → S → Result (List Manifest) × S
  -- retry.OnError with DefaultBackoff, on conflicts and on objects that exist already
  pub retry_on_error : Act (World S Call) (Unit {0}) → Act (World S Call) (Unit {0})
  pub now : S → ℕ × S
  -- wait.Jitter with the factor 0.2
  pub jitter : ℕ → S → ℕ × S
  -- go-git on the directory of a clone; `deep` fetches the whole history
  pub clone : (dir url : String) (deep : Bool) → Option BasicAuth → S → Result (Unit {0}) × S
  pub resolve_revision : (dir revision : String) → S → Result String × S
  pub open_worktree : (dir : String) → S → Result (Unit {0}) × S
  pub checkout : (dir hash : String) → S → Result (Unit {0}) × S
  pub head : (dir : String) → S → Result String × S
  -- the packages os and path/filepath
  pub make_temp_dir : S → Result String × S
  pub remove_all : (dir : String) → S → Result (Unit {0}) × S
  pub eval_symlinks : (path : String) → S → Result String × S
  pub read_dir : (path : String) → S → Result (List Entry) × S
  pub read_file : (path : String) → S → Result String × S
  pub relative : (root path : String) → Result String
  pub join : (dir name : String) → String
  pub trim_space : String → String
  pub trim_prefix : (text prefix : String) → String
  -- sigs.k8s.io/yaml and the decoder of unstructured objects
  pub yaml_to_json : String → Result String
  pub decode_manifest : String → Result Manifest
  -- k8s.io/apimachinery/pkg/api/meta
  pub set_status_condition : Condition → List Condition → List Condition
  pub is_status_condition_true : List Condition → String → Bool
  -- fmt's %d, and %.200s
  pub format_nat : ℕ → String
  pub first_200 : String → String
