-- ===== src/User/Client.antt =====
-- The cluster as the user controller sees it, and the library functions that it calls. What a
-- method of the client answers, and how the cluster changes meanwhile, is a parameter.
use controller.Base.{ℕ, String, Bool, List, Option, Map}
use controller.Base.Effects.{Result, Act, World}
use controller.Api.Meta.{ObjectMeta, Condition}
use controller.Api.User.{User}
use controller.Api.Auth.{AuthConfig}

pub record Namespace : Type 0 where
  pub meta : ObjectMeta
  pub open meta use *

pub record Subject : Type 0 where
  pub kind : String
  pub name : String

pub record RoleRef : Type 0 where
  pub api_group : String
  pub kind : String
  pub name : String

pub record RoleBinding : Type 0 where
  pub meta : ObjectMeta
  pub open meta use *
  pub subjects : List Subject
  pub role_ref : RoleRef

pub record ResourceQuota : Type 0 where
  pub meta : ObjectMeta
  pub open meta use *
  pub hard : Map

-- The calls that write. A delete may carry the object's UID and resource version as
-- preconditions (`guarded`).
pub data Call : Type 0 where
  update_user : User → Call
  update_status : User → Call
  put_namespace : Namespace → Call
  delete_namespace : Namespace → Call
  put_role_binding : RoleBinding → Call
  delete_role_binding : (guarded : Bool) → RoleBinding → Call
  put_quota : ResourceQuota → Call
  event : (type reason message : String) → Call

-- `fetch_…` and `store_…` are the two halves of controllerutil.CreateOrUpdate: it reads the object
-- by its name, calls the mutating function on what was found or on the given object, and creates
-- the outcome, or updates it where it changed.
pub record UserClient (S : Type 0) : Type 0 where
  pub get_user : String → S → Result User × S
  pub update : User → S → Result User × S
  pub status_update : User → S → Result User × S
  pub get_auth_config : String → S → Result AuthConfig × S
  pub get_namespace : String → S → Result Namespace × S
  pub fetch_namespace : String → S → Result (Option Namespace) × S
  pub store_namespace : Namespace → S → Result (Unit {0}) × S
  pub delete_ns : Namespace → S → Result (Unit {0}) × S
  pub get_role_binding : String → String → S → Result RoleBinding × S
  pub fetch_role_binding : String → String → S → Result (Option RoleBinding) × S
  pub store_role_binding : RoleBinding → S → Result (Unit {0}) × S
  pub delete_binding : Bool → RoleBinding → S → Result (Unit {0}) × S
  pub list_role_bindings : Map → S → Result (List RoleBinding) × S
  pub fetch_quota : String → String → S → Result (Option ResourceQuota) × S
  pub store_quota : ResourceQuota → S → Result (Unit {0}) × S
  pub now : S → ℕ × S
  -- resource.ParseQuantity, to the quantity's canonical text
  pub parse_quantity : String → Result String
  -- meta.SetStatusCondition
  pub set_status_condition : List Condition → Condition → List Condition
  -- controllerutil.ContainsFinalizer, AddFinalizer and RemoveFinalizer
  pub contains_finalizer : List String → String → Bool
  pub add_finalizer : List String → String → List String
  pub remove_finalizer : List String → String → List String

abbrev pub Run : Type 0 → Type 0 → Type 0
Run S A = Act (World S Call) A

abbrev pub user_finalizer : String
user_finalizer = "kubeworkspaces.io/user-finalizer"

abbrev pub label_managed_by : String
label_managed_by = "kubeworkspaces.io/managed-by"

abbrev pub label_user_name : String
label_user_name = "kubeworkspaces.io/user"

abbrev pub label_personal_namespace : String
label_personal_namespace = "kubeworkspaces.io/personal-namespace"

abbrev pub annotation_user_email : String
annotation_user_email = "kubeworkspaces.io/user-email"

abbrev pub annotation_user_uid : String
annotation_user_uid = "kubeworkspaces.io/user-uid"

abbrev pub annotation_namespace_enabled : String
annotation_namespace_enabled = "kubeworkspaces.io/namespace-enabled"

abbrev pub managed_by_value : String
managed_by_value = "user-controller"

abbrev pub label_value_true : String
label_value_true = "true"
