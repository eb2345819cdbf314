-- ===== src/Api/Auth.antt =====
-- api/v1alpha1/authconfig_types.go.
use native.Mathlib.Decide.{ℕ_discrete}
use controller.Base.{ℕ, String, Bool, List, Option, Map, String-discrete}
use controller.Api.Meta.{ObjectMeta, Condition, SecretKeyRef}

pub record OidcConfig : Type 0 where
  pub issuer_url : String
  pub client_id : String
  pub client_secret : SecretKeyRef
  pub scopes : List String
  pub username_claim : String
  pub groups_claim : String

pub record SessionConfig : Type 0 where
  pub signing_key : SecretKeyRef
  pub token_expiry : String
  pub refresh_expiry : String

pub record PersonalNamespaceConfig : Type 0 where
  pub enabled : Bool
  pub template : String
  pub labels : Map
  pub annotations : Map
  pub resource_quota : Map

pub record RegistrationConfig : Type 0 where
  pub auto_provision : Bool
  pub default_role : String
  pub allowed_domains : List String
  pub allowed_emails : List String
  pub require_approval : Bool

pub record AuthorizationConfig : Type 0 where
  pub restrict_namespace_access : Bool

pub record BootstrapAdminConfig : Type 0 where
  pub email : String
  pub skip : Bool
  pub must_change_password : Option Bool

pub record LocalAuthConfig : Type 0 where
  pub enabled : Bool
  pub bootstrap_admin : Option BootstrapAdminConfig

pub record AuthConfigSpec : Type 0 where
  pub enabled : Bool
  pub oidc : Option OidcConfig
  pub session : Option SessionConfig
  pub personal_namespaces : Option PersonalNamespaceConfig
  pub registration : Option RegistrationConfig
  pub authorization : Option AuthorizationConfig
  pub admin_emails : List String
  pub local_auth : Option LocalAuthConfig

pub record AuthConfigStatus : Type 0 where
  pub enabled : Bool
  pub issuer_reachable : Bool
  pub last_verified : Option ℕ
  pub conditions : List Condition

pub record AuthConfig : Type 0 where
  pub meta : ObjectMeta
  pub open meta use *
  pub spec : AuthConfigSpec
  pub status : AuthConfigStatus

unfoldable pub AuthConfigStatus-discrete : Discrete AuthConfigStatus
AuthConfigStatus-discrete = hlevel (String-discrete, ℕ_discrete)
