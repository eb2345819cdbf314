-- ===== src/Api/SshKey.antt =====
-- api/v1alpha1/sshkey_types.go.
use controller.Base.{String}
use controller.Api.Meta.{ObjectMeta}

pub record SshKeySpec : Type 0 where
  pub name : String
  pub public_key : String

pub record SshKey : Type 0 where
  pub meta : ObjectMeta
  pub open meta use *
  pub spec : SshKeySpec
