-- ===== src/Api/User.antt =====
-- api/v1alpha1/user_types.go.
use native.Mathlib.Decide.{ℕ_discrete}
use controller.Base.{ℕ, String, Bool, List, Option, String-discrete}
use controller.Api.Meta.{ObjectMeta, Condition, SecretKeyRef}

abbrev pub role_admin : String
role_admin = "admin"

abbrev pub role_editor : String
role_editor = "editor"

abbrev pub role_viewer : String
role_viewer = "viewer"

pub record NamespaceAccessEntry : Type 0 where
  pub namespace : String
  pub role : String

pub record ExecutionGrant : Type 0 where
  pub namespace : String
  pub workspaces : List String
  pub permissions : List String
  pub expires_at : Option ℕ

pub record LocalAuthSpec : Type 0 where
  pub enabled : Bool
  pub password_secret_ref : SecretKeyRef
  pub must_change_password : Bool

pub record ExternalIdentityBinding : Type 0 where
  pub issuer : String
  pub subject : String

pub record UserSpec : Type 0 where
  pub email : String
  pub display_name : String
  pub role : String
  pub disabled : Bool
  pub groups : List String
  pub namespace_access : List NamespaceAccessEntry
  pub execution_grants : List ExecutionGrant
  pub local_auth : Option LocalAuthSpec
  pub external_identities : List ExternalIdentityBinding

pub record UserStatus : Type 0 where
  pub personal_namespace : String
  pub avatar_url : String
  pub last_login : Option ℕ
  pub login_count : ℕ
  pub failed_login_attempts : ℕ
  pub locked_until : Option ℕ
  pub conditions : List Condition

pub record User : Type 0 where
  pub meta : ObjectMeta
  pub open meta use *
  pub spec : UserSpec
  pub status : UserStatus

unfoldable pub UserStatus-discrete : Discrete UserStatus
UserStatus-discrete = hlevel (String-discrete, ℕ_discrete)
