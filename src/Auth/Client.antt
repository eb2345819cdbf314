-- ===== src/Auth/Client.antt =====
-- The cluster and the libraries as the AuthConfig controller sees them.
use controller.Base.{ℕ, String, Bool, List}
use controller.Base.Effects.{Result, Act, World}
use controller.Api.Meta.{ObjectMeta, OwnerReference, Condition, Secret}
use controller.Api.User.{User}
use controller.Api.Auth.{AuthConfig}

pub data Call : Type 0 where
  update_status : AuthConfig → Call
  create_user : User → Call
  update_user : User → Call
  create_secret : Secret → Call
  event : (type reason message : String) → Call

pub record AuthClient (S : Type 0) : Type 0 where
  pub get_auth_config : String → S → Result AuthConfig × S
  pub status_update : AuthConfig → S → Result AuthConfig × S
  pub list_users : S → Result (List User) × S
  pub get_user : String → S → Result User × S
  -- the object comes back with the UID that the server gave it
  pub create : User → S → Result User × S
  pub update : User → S → Result User × S
  pub get_secret : (name namespace : String) → S → Result Secret × S
  pub create_sec : Secret → S → Result (Unit {0}) × S
  pub has_recorder : Bool  -- EventRecorder is set
  pub now : S → ℕ × S
  -- crypto/rand.Int: a random number below the bound
  pub rand_int : ℕ → S → Result ℕ × S
  -- the status code of a GET, or the error of the request
  pub http_get : String → S → Result ℕ × S
  -- bcrypt.GenerateFromPassword and bcrypt.Cost
  pub generate_hash : String → S → Result String × S
  pub hash_cost : String → Result ℕ
  -- the first 24 bytes of the SHA-256 digest, in hexadecimal
  pub sha256_prefix : String → String
  -- strings.ToLower and strings.EqualFold, for Unicode's tables
  pub to_lower : String → String
  pub equal_fold : String → String → Bool
  -- metav1.IsControlledBy and metav1.NewControllerRef
  pub is_controlled_by : ObjectMeta → ObjectMeta → Bool
  pub new_controller_ref : ObjectMeta → String → OwnerReference
  -- meta.SetStatusCondition and meta.RemoveStatusCondition
  pub set_condition : List Condition → Condition → List Condition
  pub remove_condition : List Condition → String → List Condition

abbrev pub Run : Type 0 → Type 0 → Type 0
Run S A = Act (World S Call) A

abbrev pub system_namespace : String
system_namespace = "kube-workspaces-system"

abbrev pub bootstrap_owner_annotation : String
bootstrap_owner_annotation = "kubeworkspaces.io/bootstrap-authconfig-uid"

abbrev pub password_secret_hash_key : String
password_secret_hash_key = "passwordHash"

abbrev pub password_secret_plaintext_key : String
password_secret_plaintext_key = "password"

abbrev pub default_bootstrap_admin_email : String
default_bootstrap_admin_email = "admin@local"

abbrev pub generated_password_length : ℕ
generated_password_length = 20

abbrev pub password_charset : String
password_charset = "ABCDEFGHIJKLMNOPQRSTUVWXYZabcdefghijklmnopqrstuvwxyz0123456789"

abbrev pub group_version : String
group_version = "kubeworkspaces.io/v1alpha1"
