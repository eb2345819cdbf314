-- ===== src/Api/ImageRepository.antt =====
-- api/v1alpha1/imagerepository_types.go. A time and a duration are numbers of nanoseconds.
use controller.Base.{ℕ, ℤ, String, Bool, Option, List}
use controller.Api.Meta.{ObjectMeta, Condition}

pub record ImageRepositoryAuth : Type 0 where
  pub secret_ref : Option String  -- the name of the Secret
  pub type : String

pub record ImageRepositorySpec : Type 0 where
  pub url : String
  pub ref : String
  pub paths : List String
  pub auth : Option ImageRepositoryAuth
  pub sync_interval : Option ℤ
  pub suspend : Bool

pub record ImageRepositoryStatus : Type 0 where
  pub conditions : List Condition
  pub last_sync_time : Option ℕ
  pub last_sync_commit : String
  pub imported_images : List String
  pub observed_generation : ℕ

pub record ImageRepository : Type 0 where
  pub meta : ObjectMeta
  pub open meta use *
  pub spec : ImageRepositorySpec
  pub status : ImageRepositoryStatus
