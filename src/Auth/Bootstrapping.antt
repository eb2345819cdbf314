-- ===== src/Auth/Bootstrapping.antt =====
-- What the bootstrap of the local administrator may write.
use Prim.Native.Char.{Char}
use controller.Base.{
  ℕ, zero, suc, String, Bool, true, false, ◌≡◌, ◌≢◌, refl, Option, none, some, List, [], ◌∷◌, All,
  at_key, lookup, lookup-delete, arith, eq_iff, eq_refl, if◌then◌else◌, ◌==◌,
}
use controller.Base.Effects.{ok, World, ◌>>=◌}
use controller.Base.Safety.{Only, only_rules, Only-bind-ok, Only-if, Only-continue, Only-guard}
use controller.Api.Meta.{Secret, SecretKeyRef}
use controller.Api.User.{User, LocalAuthSpec, role_admin}
use controller.Api.Auth.{AuthConfig, LocalAuthConfig, BootstrapAdminConfig}
use controller.Auth.Client.{
  AuthClient, Call, update_status, create_user, update_user, create_secret, event,
  bootstrap_owner_annotation, system_namespace, generated_password_length,
}
use controller.Auth.Slug.{
  local_auth_secret_name, generate_password, generate_chars, pick_char, hash_password,
}
use controller.Auth.Local.{
  annotation_user_uid, usable_local_admin, usable_with, has_usable_secret, create_local_auth_secret,
  adopt_or_create, password_secret, with_hash,
}
use controller.Auth.Adoption.{bootstrap_email, IsOwnAdmin, own-admin}
use controller.Auth.Bootstrap.{
  any_usable, bootstrap_user, enable_user, resume_or_create, bootstrap, bootstrap_unless_usable,
  bootstrap_with, reconcile_bootstrap_admin, admin_email,
}

abbrev pub secret_name_of : Option LocalAuthSpec → String
secret_name_of none = ""
secret_name_of (some l) = l.password_secret_ref.name

-- The writes of the bootstrap. The user is created as an administrator without credentials that
-- carries the UID of the AuthConfig; the secret carries the UID of a user, controls nothing else,
-- and has its name from that UID; the user that is updated is the AuthConfig's own administrator,
-- gets the reference to the secret named after its own UID and loses the mark of the unfinished
-- bootstrap.
abbrev pub IsBootstrapWrite : {S : Type 0} → AuthClient S → AuthConfig → Call → Type 0
IsBootstrapWrite api cfg (create_user u) =
    (u.spec.role ≡ role_admin)
    × (u.spec.local_auth ≡ none)
    × (u.spec.email ≡ bootstrap_email cfg)
    × (at_key u.annotations bootstrap_owner_annotation ≡ cfg.uid)
IsBootstrapWrite api cfg (update_user u) =
    (u.uid ≢ "")
    × (lookup bootstrap_owner_annotation u.annotations ≡ none)
    × (secret_name_of u.spec.local_auth ≡ local_auth_secret_name api.sha256_prefix u.uid)
    × ((user : User) × ((ref : SecretKeyRef) × ((change : Bool) × (u ≡ enable_user user ref change)
            × IsOwnAdmin api cfg user)))
IsBootstrapWrite api cfg (create_secret s) =
    (at_key s.annotations annotation_user_uid ≢ "")
    × (s.namespace ≡ system_namespace)
    × (s.name ≡ local_auth_secret_name api.sha256_prefix (at_key s.annotations annotation_user_uid))
IsBootstrapWrite api cfg (event type reason text) = reason ≡ "BootstrapAdminCreated"
IsBootstrapWrite api cfg (update_status c) = ⊥

module _ {S : Type 0} (api : AuthClient S) where
  pub usable-silent :
      (P : Call → Type 0) (user : User) (cfg : AuthConfig)
      → Only P (usable_local_admin api user cfg)
  unfolding usable_local_admin
  usable-silent P user cfg = go user.spec.local_auth
    where
      go : (l : Option LocalAuthSpec) → Only P (usable_with api user cfg l)
      go none = unfold usable_with in search only_rules
      go (some l) = unfold usable_with has_usable_secret in search only_rules depth 12

  pub any-silent :
      (P : Call → Type 0) (cfg : AuthConfig) (users : List User) → Only P (any_usable api cfg users)
  unfolding any_usable
  any-silent P cfg [] = record { at = λ w h. h }
  any-silent P cfg (u ∷ us) = record {
    at = λ w h.
        Only-continue (usable_local_admin api u cfg w).0
          (λ b. if b then (λ v. (ok true, v)) else any_usable api cfg us)
          (λ b.
            Only-if b (λ v. (ok true, v)) (any_usable api cfg us) (λ _. record { at = λ v k. k })
              (λ _. any-silent P cfg us))
          (usable_local_admin api u cfg w).1 ((usable-silent P u cfg).at w h);
  }

  secret-IsBootstrapWrite :
      (cfg : AuthConfig) (user : User) (text hash : String) (change : Bool)
      → (user.uid == "") ≡ false
      → IsBootstrapWrite api cfg (
          create_secret (
            with_hash api
              (password_secret api user
                (local_auth_secret_name api.sha256_prefix user.uid)
                text
                change)
              hash))
  unfolding with_hash password_secret lookup
  secret-IsBootstrapWrite cfg user text hash change h =
      ((ground (arith, eq_iff user.uid "")), refl, refl)

  adopt-Only :
      (cfg : AuthConfig) (user : User) (text : String) (change : Bool) (found : Option Secret)
      → (user.uid == "") ≡ false
      → Only (IsBootstrapWrite api cfg) (
          adopt_or_create api user text change
            (local_auth_secret_name api.sha256_prefix user.uid)
            found)
  unfolding adopt_or_create hash_password
  adopt-Only cfg user text change none h = search (only_rules, secret-IsBootstrapWrite) depth 12
  adopt-Only cfg user text change (some s) h = search only_rules

  secret-Only :
      (cfg : AuthConfig) (user : User) (text : String) (change : Bool)
      → Only (IsBootstrapWrite api cfg) (create_local_auth_secret api user text change)
  unfolding create_local_auth_secret
  secret-Only cfg user text change = search (only_rules, Only-guard, adopt-Only) depth 14

  -- The reference that the secret is known by.
  secret-result :
      (user : User) (text : String) (change : Bool) (ref : SecretKeyRef) (w : World S Call)
      → (create_local_auth_secret api user text change w).0 ≡ ok ref
      → (user.uid ≢ "") × (ref.name ≡ local_auth_secret_name api.sha256_prefix user.uid)
  unfolding create_local_auth_secret ◌>>=◌
  secret-result user text change ref w h = ground (arith, eq_iff user.uid "")

  user-IsBootstrapWrite :
      (cfg : AuthConfig) (slug email : String)
      → email ≡ bootstrap_email cfg
      → IsBootstrapWrite api cfg (create_user (bootstrap_user cfg slug email))
  unfolding bootstrap_user lookup
  user-IsBootstrapWrite cfg slug email h = (refl, refl, h, refl)

  resume-Only :
      (cfg : AuthConfig) (slug email : String) (found : Option User)
      → email ≡ bootstrap_email cfg
      → Only (IsBootstrapWrite api cfg) (resume_or_create api cfg slug email found)
  unfolding resume_or_create
  resume-Only cfg slug email none h = search (only_rules, user-IsBootstrapWrite) depth 14
  resume-Only cfg slug email (some u) h = search only_rules depth 9

  pick-Only : (P : Call → Type 0) (o : Option Char) → Only {S = S} P (pick_char o)
  unfolding pick_char
  pick-Only P none = search only_rules
  pick-Only P (some c) = search only_rules

  chars-Only : (P : Call → Type 0) (k : ℕ) → Only P (generate_chars api k)
  unfolding generate_chars
  chars-Only P zero = search only_rules
  chars-Only P (suc k) = let rest = chars-Only P k in search (only_rules, pick-Only) depth 12

  password-Only : (P : Call → Type 0) → Only P (generate_password api)
  unfolding generate_password
  password-Only P = chars-Only P generated_password_length

  enabled-IsBootstrapWrite :
      (cfg : AuthConfig) (user : User) (ref : SecretKeyRef) (text : String) (change : Bool)
      (w : World S Call)
      → IsOwnAdmin api cfg user
      → (create_local_auth_secret api user text change w).0 ≡ ok ref
      → IsBootstrapWrite api cfg (update_user (enable_user user ref change))
  unfolding enable_user
  enabled-IsBootstrapWrite cfg user ref text change w own h =
      let (named, name) = secret-result user text change ref w h in
      (named, simp (lookup-delete, eq_refl), name, (user, (ref, (change, refl, own))))

  bootstrap-Only :
      (cfg : AuthConfig) (config : Option BootstrapAdminConfig)
      → admin_email config ≡ bootstrap_email cfg
      → Only (IsBootstrapWrite api cfg) (bootstrap api cfg config)
  unfolding bootstrap
  bootstrap-Only cfg config h = rw h (
      Only-bind-ok _ _ (search only_rules) (λ found v read.
        Only-bind-ok _ _ (resume-Only _ _ _ found refl) (λ user w got.
          let own = own-admin api cfg found user v w read got in
          search
            (only_rules, Only-bind-ok, password-Only, secret-Only, enabled-IsBootstrapWrite, own)
            depth 16)))

  unless-Only :
      (cfg : AuthConfig) (local : LocalAuthConfig)
      → admin_email local.bootstrap_admin ≡ bootstrap_email cfg
      → Only (IsBootstrapWrite api cfg) (bootstrap_unless_usable api cfg local)
  unfolding bootstrap_unless_usable
  unless-Only cfg local h = search (only_rules, any-silent, bootstrap-Only) depth 14

  with-Only :
      (cfg : AuthConfig) (local : Option LocalAuthConfig)
      → cfg.spec.local_auth ≡ local
      → Only (IsBootstrapWrite api cfg) (bootstrap_with api cfg local)
  unfolding bootstrap_with
  with-Only cfg none h = search only_rules
  with-Only cfg (some local) h = search (only_rules, unless-Only cfg local (rw h refl)) depth 9

  -- The bootstrap makes no other writes than these, whatever the cluster answers and also when
  -- it fails: a user it creates is an administrator with the configured email, without
  -- credentials and marked with the AuthConfig's UID; a secret it creates lies in the system
  -- namespace, carries the UID of a user and is named after that UID; a user it updates is the
  -- one it has created or this AuthConfig's own unfinished bootstrap, has a UID, refers to the secret that is named
  -- after it, and carries the mark no more.
  pub bootstrap_makes_only_its_writes :
      (cfg : AuthConfig) (w : World S Call)
      → w.calls ≡ []
      → All (IsBootstrapWrite api cfg) (reconcile_bootstrap_admin api cfg w).1.calls
  unfolding reconcile_bootstrap_admin
  bootstrap_makes_only_its_writes cfg w fresh =
      (with-Only cfg cfg.spec.local_auth refl).at w (rw fresh tt)
