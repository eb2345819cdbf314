-- ===== src/Api/Meta.antt =====
-- Kubernetes object metadata and conditions, as far as the reconcilers read or write them, and
-- the references of api/v1alpha1 that several types share.
use controller.Base.{ℕ, String, Bool, false, List, [], Option, Map}

pub record OwnerReference : Type 0 where
  pub api_version : String
  pub kind : String
  pub name : String
  pub uid : String
  pub controller : Bool

-- metav1.ObjectMeta. `deleting` is `!DeletionTimestamp.IsZero()`, `created` is
-- `!CreationTimestamp.IsZero()`.
pub record ObjectMeta : Type 0 where
  pub name : String
  pub namespace : String
  pub uid : String
  pub resource_version : String
  pub generation : ℕ
  pub labels : Map
  pub annotations : Map
  pub finalizers : List String
  pub owner_references : List OwnerReference
  pub deleting : Bool
  pub created : Bool

-- An object that no server has seen.
abbrev pub new_meta : String → String → ObjectMeta
new_meta name namespace = record {
  name = name;
  namespace = namespace;
  uid = "";
  resource_version = "";
  generation = 0;
  labels = [];
  annotations = [];
  finalizers = [];
  owner_references = [];
  deleting = false;
  created = false;
}

-- metav1.Condition. A time is a number of nanoseconds.
pub record Condition : Type 0 where
  pub type : String
  pub status : String
  pub observed_generation : ℕ
  pub last_transition_time : ℕ
  pub reason : String
  pub message : String

pub record SecretKeyRef : Type 0 where
  pub name : String
  pub key : String

pub record Secret : Type 0 where
  pub meta : ObjectMeta
  pub open meta use *
  pub type : String
  pub immutable : Option Bool
  pub content : Map  -- the field Data
