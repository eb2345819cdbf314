-- ===== src/Auth/Tests.antt =====
-- A small cluster, on which the theorems on the AuthConfig controller are applied.
use controller.Base.{
  ◌≤◌, String, true, false, ◌≡◌, ◌↔◌, refl, Option, none, some, List, [], ◌∷◌, All, AllChars,
  length, differs, lookup, chars, ◌==◌, arith, eq_iff, if◌then◌else◌,
}
use controller.Base.Effects.{Error, Result, ok, err, api, fault, not_found, World, is_ok, ◌>>=◌}
use controller.Api.Meta.{new_meta, Condition, Secret}
use controller.Api.User.{User, role_admin}
use controller.Api.Auth.{AuthConfig, LocalAuthConfig, OidcConfig}
use controller.Auth.Client.{AuthClient, Call, system_namespace, password_secret_hash_key}
use controller.Auth.Slug.{slugify_email, generate_password, local_auth_secret_name}
use controller.Auth.Local.{
  annotation_user_uid, usable_local_admin, usable_with, has_usable_secret, usable_secret, is_admin,
  create_local_auth_secret, is_own_secret,
}
use controller.Auth.Bootstrap.{any_usable, reconcile_bootstrap_admin}
use controller.Auth.Bootstrapping.{IsBootstrapWrite, bootstrap_makes_only_its_writes}
use controller.Auth.Usable.{
  Some, IsOwnSecret, any_usable-finds_usable, existing_secret_is_never_replaced,
}
use controller.Auth.Names.{
  IsSlugChar, IsAlphanumeric, slugify_email-IsName, generated_password_is_strong,
}
use controller.Auth.Reconcile.{oidc_status}
use controller.Auth.Verdict.{status_of, condition_of, truth, oidc_verdict}

-- meta.SetStatusCondition and meta.RemoveStatusCondition as they are documented.
unfoldable put_condition : List Condition → Condition → List Condition
put_condition [] c = c ∷ []
put_condition (d ∷ cs) c =
    let rest = put_condition cs c in if d.type == c.type then c ∷ cs else d ∷ rest

unfoldable drop_condition : List Condition → String → List Condition
drop_condition [] type = []
drop_condition (d ∷ cs) type =
    let rest = drop_condition cs type in if d.type == type then rest else d ∷ rest

put_condition-status :
    (cs : List Condition) (c : Condition) (type : String)
    → status_of type (put_condition cs c) ≡ (if c.type == type then c.status else status_of type cs)
unfolding put_condition status_of condition_of
put_condition-status [] c type = ground arith
put_condition-status (d ∷ cs) c type = ground (
  arith,
  put_condition-status cs c type,
  eq_iff d.type c.type,
  eq_iff d.type type,
  eq_iff c.type type,
)

drop_condition-status :
    (cs : List Condition) (dropped type : String)
    → status_of type (drop_condition cs dropped)
      ≡ (if dropped == type then "" else status_of type cs)
unfolding drop_condition status_of condition_of
drop_condition-status [] dropped type = ground arith
drop_condition-status (d ∷ cs) dropped type = ground (
  arith,
  drop_condition-status cs dropped type,
  eq_iff d.type dropped,
  eq_iff d.type type,
  eq_iff dropped type,
)

abbrev local_auth : LocalAuthConfig
local_auth = record {
  enabled = true;
  bootstrap_admin =
      some (record { email = "root@example.org"; skip = false; must_change_password = none });
}

abbrev oidc : OidcConfig
oidc = record {
  issuer_url = "https://id.example.org/";
  client_id = "kw";
  client_secret = record { name = "oidc"; key = "secret" };
  scopes = [];
  username_claim = "email";
  groups_claim = "";
}

abbrev auth : Option OidcConfig → AuthConfig
auth method = record {
  meta = record (new_meta "default" "") { uid = "c1" };
  spec = record {
    enabled = true;
    oidc = method;
    session = none;
    personal_namespaces = none;
    registration = none;
    authorization = none;
    admin_emails = [];
    local_auth = some local_auth;
  };
  status = record {
    enabled = true;
    issuer_reachable = true;
    last_verified = none;
    conditions = [];
  };
}

-- An administrator whose local sign-in has the secret `name`.
abbrev admin : String → User
admin name = record {
  meta = record (new_meta "root-at-example-org" "") { uid = "u1" };
  spec = record {
    email = "root@example.org";
    display_name = "Administrator";
    role = role_admin;
    disabled = false;
    groups = [];
    namespace_access = [];
    execution_grants = [];
    local_auth = some (record {
      enabled = true;
      password_secret_ref = record { name = name; key = "" };
      must_change_password = true;
    });
    external_identities = [];
  };
  status = record {
    personal_namespace = "";
    avatar_url = "";
    last_login = none;
    login_count = 0;
    failed_login_attempts = 0;
    locked_until = none;
    conditions = [];
  };
}

abbrev held : Secret
held = record {
  meta = record (new_meta "kw-password-u1" system_namespace) {
    annotations = (annotation_user_uid, "u1") ∷ [];
  };
  type = "Opaque";
  immutable = none;
  content = (password_secret_hash_key, "hash") ∷ [];
}

abbrev no_object : Error
no_object = api not_found "not found"

-- The server has the users and answers every read of a secret and of a user as given.
abbrev cluster : List User → Result User → Result Secret → AuthClient (Unit {0})
cluster users user secret = record {
  get_auth_config = λ name s. (ok (auth none), s);
  status_update = λ c s. (ok c, s);
  list_users = λ s. (ok users, s);
  get_user = λ name s. (user, s);
  create = λ u s. (ok u, s);
  update = λ u s. (ok u, s);
  get_secret = λ name namespace s. (secret, s);
  create_sec = λ x s. (ok tt, s);
  has_recorder = true;
  now = λ s. (1000, s);
  rand_int = λ bound s. (ok 7, s);
  http_get = λ url s. (ok 503, s);
  generate_hash = λ password s. (ok "hash", s);
  hash_cost = λ hash. if hash == "hash" then ok 10 else err (fault "no hash");
  sha256_prefix = λ uid. uid;
  to_lower = λ email. email;
  equal_fold = λ a b. a == b;
  is_controlled_by = λ object owner. true;
  new_controller_ref = λ owner kind. record {
    api_version = "kubeworkspaces.io/v1alpha1";
    kind = kind;
    name = owner.name;
    uid = owner.uid;
    controller = true;
  };
  set_condition = put_condition;
  remove_condition = drop_condition;
}

abbrev start : World (Unit {0}) Call
start = record { server = tt; calls = [] }

abbrev empty : AuthClient (Unit {0})
empty = cluster [] (err no_object) (err no_object)

abbrev full : AuthClient (Unit {0})
full = cluster (admin "kw-password-u1" ∷ []) (ok (admin "")) (ok held)

-- The server gives a UID to the user that is created.
abbrev fresh : AuthClient (Unit {0})
fresh = record empty { create = λ u s. (ok (record u { meta = record u.meta { uid = "u9" } }), s) }

bootstrap_makes_only_its_writes_example :
    All
      (IsBootstrapWrite fresh (auth none))
      (reconcile_bootstrap_admin fresh (auth none) start).1.calls
bootstrap_makes_only_its_writes_example =
    bootstrap_makes_only_its_writes fresh (auth none) start refl

-- That run creates the user and the secret, updates the user and records an event.
bootstrap_is_written : length (reconcile_bootstrap_admin fresh (auth none) start).1.calls ≡ 4
unfolding reconcile_bootstrap_admin controller.Auth.Bootstrap.bootstrap_with
    controller.Auth.Bootstrap.bootstrap_unless_usable ◌>>=◌ any_usable
    controller.Auth.Bootstrap.bootstrap controller.Auth.Bootstrap.resume_or_create generate_password
    controller.Auth.Slug.generate_chars controller.Auth.Slug.pick_char controller.Auth.Slug.char_at
    create_local_auth_secret controller.Auth.Local.adopt_or_create
    controller.Auth.Slug.hash_password
bootstrap_is_written = refl

any_usable-finds_usable_example : Some full (auth none) (admin "kw-password-u1" ∷ []) start
unfolding any_usable usable_local_admin usable_with has_usable_secret usable_secret is_admin lookup
    ◌>>=◌
any_usable-finds_usable_example =
    any_usable-finds_usable full (auth none) (admin "kw-password-u1" ∷ []) start refl

existing_secret_is_never_replaced_example :
    let done = create_local_auth_secret full (admin "") "secret" true start in
    ((done.0 ≡ ok (record { name = "kw-password-u1"; key = password_secret_hash_key }))
      ↔ IsOwnSecret full (admin "") held)
    × ((is_ok done.0 ≡ true) ↔ IsOwnSecret full (admin "") held)
    × (done.1.calls ≡ [])
unfolding local_auth_secret_name
existing_secret_is_never_replaced_example =
    existing_secret_is_never_replaced full (admin "") "secret" true held start
      (differs "u1" "" refl) refl

slugify_email-IsName_example :
    (chars (slugify_email (λ s. s) "a.b_c@x.org") ≤ 63)
    × AllChars IsSlugChar (slugify_email (λ s. s) "a.b_c@x.org")
slugify_email-IsName_example = slugify_email-IsName (λ s. s) "a.b_c@x.org"

generated_password_is_strong_example :
    (p : String) × (chars p ≡ 20)
    × AllChars IsAlphanumeric p
    × ((generate_password empty start).0 ≡ ok p)
generated_password_is_strong_example =
    generated_password_is_strong empty (λ v. (7, ground arith, refl)) start

oidc_verdict_example :
    let status = oidc_status empty (auth (some oidc)) (ok tt) false 5 in
    (status_of "OIDCReady" status.conditions ≡ truth false)
    × (status_of "LocalAuthReady" status.conditions ≡ truth true)
    × (status_of "Ready" status.conditions ≡ truth true)
    × (status.issuer_reachable ≡ false)
    × (status.last_verified ≡ some 5)
    × (status.enabled ≡ true)
oidc_verdict_example =
    oidc_verdict empty put_condition-status drop_condition-status (auth (some oidc)) (ok tt) false 5
      refl
