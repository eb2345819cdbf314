-- ===== src/Auth/Local.antt =====
-- localauth.go: usableLocalAdmin and createLocalAuthSecret.
use controller.Base.{
  ℕ, String, ◌<>◌, Bool, true, false, ◌&&◌, ◌||◌, flip, Option, none, some, [], ◌∷◌, any, at_key,
  put, ltb, ◌==◌, ◌/=◌, if◌then◌else◌,
}
use controller.Base.Effects.{
  Result, ok, err, fault, is_ok, pure, attempt, wrapping, find, ◌>>=◌, ◌>>◌, fail_if, reads,
  observes, writes,
}
use controller.Api.Meta.{OwnerReference, Secret, SecretKeyRef, new_meta}
use controller.Api.User.{User, LocalAuthSpec, role_admin}
use controller.Api.Auth.{AuthConfig}
use controller.Auth.Client.{
  AuthClient, Run, create_secret, system_namespace, password_secret_hash_key,
  password_secret_plaintext_key, group_version,
}
use controller.Auth.Slug.{local_auth_secret_name, hash_password}

-- The key of user_controller.go under which a secret records the UID of its user.
abbrev pub annotation_user_uid : String
annotation_user_uid = "kubeworkspaces.io/user-uid"

abbrev pub must_change_key : String
must_change_key = "mustChangePassword"

abbrev pub bool_text : Bool → String
bool_text true = "true"
bool_text false = "false"

-- An owner of kind User that is not this user.
abbrev pub is_other_owner : User → OwnerReference → Bool
is_other_owner user owner =
    owner.kind == "User"
    && (owner.uid /= user.uid || owner.name /= user.name || owner.api_version /= group_version)

abbrev pub is_locked : User → ℕ → Bool
is_locked user now = elim user.status.locked_until [ none ↦ false | some t ↦ ltb now t ]

abbrev pub hash_key : SecretKeyRef → String
hash_key ref = if ref.key == "" then password_secret_hash_key else ref.key

module _ {S : Type 0} (api : AuthClient S) where
  unfoldable pub is_admin : User → AuthConfig → Bool
  is_admin user cfg =
      user.spec.role == role_admin
      || any (λ email. api.equal_fold email user.spec.email) cfg.spec.admin_emails

  -- The secret names no other user, and its hash is one that bcrypt reads.
  unfoldable pub usable_secret : User → SecretKeyRef → Secret → Bool
  usable_secret user ref secret =
      let uid = at_key secret.annotations annotation_user_uid in
      if secret.deleting
      then false
      else if uid /= "" && uid /= user.uid
      then false
      else if any (is_other_owner user) secret.owner_references
      then false
      else is_ok (api.hash_cost (at_key secret.content (hash_key ref)))

  abbrev pub usable_answer : User → SecretKeyRef → Result Secret → Bool
  usable_answer user ref (ok secret) = usable_secret user ref secret
  usable_answer user ref (err e) = false

  unfoldable pub has_usable_secret : User → SecretKeyRef → Run S Bool
  has_usable_secret user ref = if ref.name == "" then pure false else do
    answer ← attempt (reads (api.get_secret ref.name system_namespace))
    pure (usable_answer user ref answer)

  unfoldable pub usable_with : User → AuthConfig → Option LocalAuthSpec → Run S Bool
  usable_with user cfg none = pure false
  usable_with user cfg (some local) =
      if user.spec.disabled || user.deleting || flip local.enabled || flip (is_admin user cfg)
      then pure false
      else do
        now ← observes api.now
        if is_locked user now then pure false else has_usable_secret user local.password_secret_ref

  unfoldable pub usable_local_admin : User → AuthConfig → Run S Bool
  usable_local_admin user cfg = usable_with user cfg user.spec.local_auth

  -- `createLocalAuthSecret` finds the secret there: it is taken only if it is the user's.
  unfoldable pub is_own_secret : User → Secret → Bool
  is_own_secret user existing =
      at_key existing.annotations annotation_user_uid == user.uid
      && api.is_controlled_by existing.meta user.meta
      && flip existing.deleting
      && is_ok (api.hash_cost (at_key existing.content password_secret_hash_key))

  unfoldable pub password_secret : User → String → String → Bool → Secret
  password_secret user name plaintext must_change = record {
    meta = record (new_meta name system_namespace) {
      labels =
          ("kubeworkspaces.io/managed-by", "user-controller")
          ∷ ("kubeworkspaces.io/user", user.name)
          ∷ [];
      annotations = (annotation_user_uid, user.uid) ∷ [];
      owner_references = api.new_controller_ref user.meta "User" ∷ [];
    };
    type = "Opaque";
    immutable = none;
    content =
        (must_change_key, bool_text must_change) ∷ (password_secret_plaintext_key, plaintext) ∷ [];
  }

  unfoldable pub with_hash : Secret → String → Secret
  with_hash secret hash = record {
    meta = secret.meta;
    type = secret.type;
    immutable = secret.immutable;
    content = put password_secret_hash_key hash secret.content;
  }

  unfoldable pub adopt_or_create : User → String → Bool → String → Option Secret → Run S (Unit {0})
  adopt_or_create user plaintext must_change name (some existing) =
      fail_if (flip (is_own_secret user existing)) (
        fault (
          "bootstrap password Secret " <> name
          <> " ownership or credential mismatch; refusing adoption"))
  adopt_or_create user plaintext must_change name none = do
    hash ← hash_password api plaintext
    let secret = with_hash (password_secret user name plaintext must_change) hash
    wrapping ("failed to create local-auth secret " <> system_namespace <> "/" <> name)
        (writes (create_secret secret) (api.create_sec secret))

  unfoldable pub create_local_auth_secret : User → String → Bool → Run S SecretKeyRef
  create_local_auth_secret user plaintext must_change = do
    let name = local_auth_secret_name api.sha256_prefix user.uid
    fail_if (user.uid == "") (fault "persisted User UID is required for bootstrap credentials")
    existing ← find (reads (api.get_secret name system_namespace))
    adopt_or_create user plaintext must_change name existing
    pure (record { name = name; key = password_secret_hash_key })
