-- ===== src/Auth/Bootstrap.antt =====
-- localauth.go: reconcileBootstrapAdmin.
use controller.Base.{
  String, ◌<>◌, Bool, true, false, ◌||◌, flip, Option, none, some, List, [], ◌∷◌, at_key, delete,
  ◌==◌, ◌/=◌, if◌then◌else◌,
}
use controller.Base.Effects.{
  ok, fault, pure, wrapping, find, ◌>>=◌, ◌>>◌, fail_if, when, reads, writes, emits, continue,
}
use controller.Api.Meta.{SecretKeyRef, new_meta}
use controller.Api.User.{User, role_admin}
use controller.Api.Auth.{AuthConfig, BootstrapAdminConfig, LocalAuthConfig}
use controller.Auth.Client.{
  AuthClient, Run, create_user, update_user, event, system_namespace, bootstrap_owner_annotation,
  default_bootstrap_admin_email,
}
use controller.Auth.Slug.{slugify_email, generate_password}
use controller.Auth.Local.{usable_local_admin, create_local_auth_secret}

abbrev pub admin_email : Option BootstrapAdminConfig → String
admin_email none = default_bootstrap_admin_email
admin_email (some b) = if b.email == "" then default_bootstrap_admin_email else b.email

abbrev pub true_or : Option Bool → Bool
true_or none = true
true_or (some b) = b

abbrev pub must_change : Option BootstrapAdminConfig → Bool
must_change none = true
must_change (some b) = true_or b.must_change_password

abbrev pub skips : Option BootstrapAdminConfig → Bool
skips none = false
skips (some b) = b.skip

abbrev pub has_local_auth : User → Bool
has_local_auth user = elim user.spec.local_auth [ none ↦ false | some _ ↦ true ]

-- The existing account is this AuthConfig's own unfinished bootstrap.
unfoldable pub can_resume : AuthConfig → String → User → Bool
can_resume cfg email existing = flip (
    cfg.uid == ""
    || at_key existing.annotations bootstrap_owner_annotation /= cfg.uid
    || existing.spec.email /= email
    || existing.spec.role /= role_admin
    || existing.spec.disabled
    || existing.deleting
    || has_local_auth existing)

unfoldable pub bootstrap_user : AuthConfig → String → String → User
bootstrap_user cfg slug email = record {
  meta = record (new_meta slug "") {
    annotations = (bootstrap_owner_annotation, cfg.uid) ∷ [];
    labels = ("kubeworkspaces.io/role", role_admin) ∷ [];
  };
  spec = record {
    email = email;
    display_name = "Administrator";
    role = role_admin;
    disabled = false;
    groups = [];
    namespace_access = [];
    execution_grants = [];
    local_auth = none;
    external_identities = [];
  };
  status = record {
    personal_namespace = "";
    avatar_url = "";
    last_login = none;
    login_count = 0;
    failed_login_attempts = 0;
    locked_until = none;
    conditions = [];
  };
}

-- The user with its credentials, and without the mark of the unfinished bootstrap.
unfoldable pub enable_user : User → SecretKeyRef → Bool → User
enable_user user ref change = record {
  meta = record user.meta { annotations = delete bootstrap_owner_annotation user.annotations };
  spec = record user.spec {
    local_auth =
        some (record { enabled = true; password_secret_ref = ref; must_change_password = change });
  };
  status = user.status;
}

module _ {S : Type 0} (api : AuthClient S) where
  -- The loop over the users, which stops at the first usable administrator.
  unfoldable pub any_usable : AuthConfig → List User → Run S Bool
  any_usable cfg [] w = (ok false, w)
  any_usable cfg (u ∷ us) w =
      let later = any_usable cfg us in
      continue (usable_local_admin api u cfg w).0 (λ b. if b then (λ v. (ok true, v)) else later)
        (usable_local_admin api u cfg w).1

  unfoldable pub legacy_secret_name : String → String
  legacy_secret_name slug = ("kw-user-" <> slug) <> "-local-auth"

  -- The user to give credentials to: one that can be resumed, or a new one.
  unfoldable pub resume_or_create : AuthConfig → String → String → Option User → Run S User
  resume_or_create cfg slug email (some existing) = do
    fail_if (flip (can_resume cfg email existing)) (
        fault (
          "bootstrap User " <> slug
          <> " already exists but is not a usable local administrator; recover the existing account in place"))
    pure existing
  resume_or_create cfg slug email none = do
    legacy ← find (reads (api.get_secret (legacy_secret_name slug) system_namespace))
    fail_if (elim legacy [ none ↦ false | some _ ↦ true ])
        (fault "retained legacy bootstrap credential exists; recover the original account in place")
    let user = bootstrap_user cfg slug email
    wrapping "failed to create bootstrap admin user" (writes (create_user user) (api.create user))

  unfoldable pub bootstrap : AuthConfig → Option BootstrapAdminConfig → Run S (Unit {0})
  bootstrap cfg config = do
    let email = admin_email config
    let slug = slugify_email api.to_lower email
    existing ← find (reads (api.get_user slug))
    user ← resume_or_create cfg slug email existing
    password ← generate_password api
    ref ← create_local_auth_secret api user password (must_change config)
    let enabled = enable_user user ref (must_change config)
    wrapping "failed to enable bootstrap administrator"
        (do _ ← writes (update_user enabled) (api.update enabled); pure tt)
    when api.has_recorder (
        emits (
          event "Normal" "BootstrapAdminCreated" (
            "Created default local admin user \"" <> email
            <> "\"; retrieve the generated password from secret " <> system_namespace <> "/"
            <> ref.name)))

  unfoldable pub bootstrap_unless_usable : AuthConfig → LocalAuthConfig → Run S (Unit {0})
  bootstrap_unless_usable cfg local = do
    users ← wrapping "failed to list users" (reads api.list_users)
    usable ← any_usable cfg users
    if usable then pure tt else do
      fail_if (skips local.bootstrap_admin)
          (fault "bootstrap is skipped and no usable local administrator exists")
      bootstrap cfg local.bootstrap_admin

  unfoldable pub bootstrap_with : AuthConfig → Option LocalAuthConfig → Run S (Unit {0})
  bootstrap_with cfg none = pure tt
  bootstrap_with cfg (some local) =
      if local.enabled then bootstrap_unless_usable cfg local else pure tt

  unfoldable pub reconcile_bootstrap_admin : AuthConfig → Run S (Unit {0})
  reconcile_bootstrap_admin cfg = bootstrap_with cfg cfg.spec.local_auth
