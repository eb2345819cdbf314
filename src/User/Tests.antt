-- ===== src/User/Tests.antt =====
-- A small cluster, on which the theorems on the user controller are applied.
use controller.Base.{
  ℕ, String, Bool, true, false, ◌≡◌, refl, ◌⊎◌, none, some, List, [], ◌∷◌, All, map, contains, keep,
  flip, differs, lookup, ◌==◌, arith, if◌then◌else◌,
}
use controller.Base.Effects.{Error, ok, err, api, not_found, World, ◌>>=◌, for_each}
use controller.Base.Loops.{log_each}
use controller.Api.Meta.{ObjectMeta, new_meta}
use controller.Api.User.{User, role_editor}
use controller.Api.Auth.{PersonalNamespaceConfig}
use controller.User.Client.{
  UserClient, Call, Namespace, RoleBinding, put_role_binding, delete_role_binding, update_user,
  update_status, user_finalizer, label_managed_by, managed_by_value, label_user_name,
  label_personal_namespace, label_value_true, annotation_user_uid,
}
use controller.User.Bindings.{
  cleanup_stale_role_bindings, delete_unless_desired, desired_namespaces, ensure_role_binding,
  grant, new_role_binding,
}
use controller.User.Namespaces.{
  personal_namespace_matches, stamp_namespace, cleanup_user, reconcile_personal_namespace,
}
use controller.User.Reconcile.{
  same_status, mark_disabled, set_finalizers, reconcile_disabled, write_changed_status,
  reconcile_deletion, reconcile,
}
use controller.User.Revocation.{
  IsRevocation, stale, disabled_user_only_loses_grants, cleanup-deletes_stale,
  disabled_user_loses_all_bindings,
}
use controller.User.Ownership.{
  IsOwnClaim, stamped_namespace_matches, personal_namespace_claims_are_own,
}
use controller.User.Deletion.{
  IsOwnDelete, cleanup_deletes_only_own_namespace, finalizer_released_after_cleanup,
}
use controller.User.Access.{role_change_replaces_binding}

abbrev user_meta : ObjectMeta
user_meta = record (new_meta "ann" "") {
  uid = "u1";
  resource_version = "7";
  finalizers = user_finalizer ∷ [];
}

abbrev ann : Bool → User
ann disabled = record {
  meta = user_meta;
  spec = record {
    email = "ann@example.org";
    display_name = "Ann";
    role = role_editor;
    disabled = disabled;
    groups = [];
    namespace_access = record { namespace = "lab"; role = "viewer" } ∷ [];
    execution_grants = [];
    local_auth = none;
    external_identities = [];
  };
  status = record {
    personal_namespace = "ann";
    avatar_url = "";
    last_login = none;
    login_count = 3;
    failed_login_attempts = 0;
    locked_until = none;
    conditions = [];
  };
}

abbrev binding : String → String → RoleBinding
binding namespace role = record {
  meta = record (new_meta "ann-shared" namespace) {
    resource_version = "3";
    labels = (label_managed_by, managed_by_value) ∷ (label_user_name, "ann") ∷ [];
  };
  subjects = [];
  role_ref = record { api_group = "rbac.authorization.k8s.io"; kind = "ClusterRole"; name = role };
}

-- A namespace `ann` of a user with that UID.
abbrev namespace_of : String → Namespace
namespace_of uid = record {
  meta = record (new_meta "ann" "") {
    created = true;
    resource_version = "1";
    labels =
        (label_managed_by, managed_by_value)
        ∷ (label_user_name, "ann")
        ∷ (label_personal_namespace, label_value_true)
        ∷ [];
    annotations = (annotation_user_uid, uid) ∷ [];
  };
}

abbrev no_object : Error
no_object = api not_found "not found"

abbrev config : PersonalNamespaceConfig
config = record {
  enabled = true;
  template = "ws-{{username}}";
  labels = (label_user_name, "other") ∷ [];
  annotations = [];
  resource_quota = [];
}

abbrev items : List RoleBinding
items = binding "ann" "workspace-editor-role" ∷ binding "old" "workspace-editor-role" ∷ []

-- The server has one user, two bindings, one namespace and the binding `rb` under any name.
abbrev cluster : User → Namespace → RoleBinding → UserClient (Unit {0})
cluster user ns rb = record {
  get_user = λ name s. (ok user, s);
  update = λ u s. (ok u, s);
  status_update = λ u s. (ok u, s);
  get_auth_config = λ name s. (err no_object, s);
  get_namespace = λ name s. (ok ns, s);
  fetch_namespace = λ name s. (ok (some ns), s);
  store_namespace = λ n s. (ok tt, s);
  delete_ns = λ n s. (ok tt, s);
  get_role_binding = λ namespace name s. (ok rb, s);
  fetch_role_binding = λ namespace name s. (ok none, s);
  store_role_binding = λ r s. (ok tt, s);
  delete_binding = λ guarded r s. (ok tt, s);
  list_role_bindings = λ labels s. (ok items, s);
  fetch_quota = λ namespace name s. (ok none, s);
  store_quota = λ q s. (ok tt, s);
  now = λ s. (0, s);
  parse_quantity = λ q. ok q;
  set_status_condition = λ cs c. c ∷ cs;
  contains_finalizer = contains;
  add_finalizer = λ fs f. f ∷ fs;
  remove_finalizer = λ fs f. keep (λ g. flip (g == f)) fs;
}

abbrev start : World (Unit {0}) Call
start = record { server = tt; calls = [] }

abbrev client : UserClient (Unit {0})
client = cluster (ann true) (namespace_of "u1") (binding "lab" "workspace-editor-role")

disabled_user_only_loses_grants_example :
    All (IsRevocation (ann true)) (reconcile client "ann" start).1.calls
disabled_user_only_loses_grants_example =
    disabled_user_only_loses_grants client "ann" (ann true) start refl refl refl refl

cleanup-deletes_stale_example :
    (cleanup_stale_role_bindings client (ann false) start).1.calls
    ≡ log_each (map (delete_role_binding true) (stale (ann false) items)) []
unfolding cleanup_stale_role_bindings delete_unless_desired desired_namespaces for_each ◌>>=◌
cleanup-deletes_stale_example = cleanup-deletes_stale client (ann false) items start refl refl

abbrev half_minute : ℕ
half_minute = 30

runs_again : (reconcile_disabled client (ann true) start).0 ≡ ok half_minute
unfolding reconcile_disabled write_changed_status cleanup_stale_role_bindings delete_unless_desired
    desired_namespaces for_each ◌>>=◌
runs_again = ground arith

disabled_user_loses_all_bindings_example :
    (half_minute ≡ 30)
    × ((reconcile_disabled client (ann true) start).1.calls ≡ (
        if same_status (ann true).status (mark_disabled client (ann true)).status
        then log_each (map (delete_role_binding true) items) []
        else update_status (mark_disabled client (ann true))
          ∷ log_each (map (delete_role_binding true) items) []))
disabled_user_loses_all_bindings_example =
    disabled_user_loses_all_bindings client (ann true) items start half_minute refl refl runs_again

stamped_namespace_matches_example :
    personal_namespace_matches
      (stamp_namespace (ann false) config (namespace_of ""))
      (ann false)
      false
    ≡ true
stamped_namespace_matches_example =
    stamped_namespace_matches (ann false) config (namespace_of "") (differs "u1" "" refl) refl

personal_namespace_claims_are_own_example :
    All
      (IsOwnClaim (ann false))
      (reconcile_personal_namespace client (ann false) config start).1.calls
personal_namespace_claims_are_own_example =
    personal_namespace_claims_are_own client (ann false) config start refl

cleanup_deletes_only_own_namespace_example :
    All (IsOwnDelete (ann false)) (cleanup_user client (ann false) start).1.calls
cleanup_deletes_only_own_namespace_example =
    cleanup_deletes_only_own_namespace client (ann false) start refl

finalizer_released_after_cleanup_example :
    let released = set_finalizers (ann false) [] in
    let cleaned = cleanup_user client (ann false) start in
    ((cleaned.0 ≡ ok tt)
      × ((reconcile_deletion client (ann false) start).1.calls
          ≡ update_user released ∷ cleaned.1.calls))
    ⊎ ((e : Error) × (cleaned.0 ≡ err e)
        × ((reconcile_deletion client (ann false) start).0 ≡ err e)
        × ((reconcile_deletion client (ann false) start).1.calls ≡ cleaned.1.calls))
finalizer_released_after_cleanup_example =
    finalizer_released_after_cleanup client (ann false) start refl

role_change_replaces_binding_example :
    (ensure_role_binding client (ann false) "lab" "workspace-viewer-role" "shared" start).1.calls
    ≡ put_role_binding
        (grant (ann false) "workspace-viewer-role" (new_role_binding "ann-shared" "lab"))
      ∷ delete_role_binding true (binding "lab" "workspace-editor-role")
      ∷ []
unfolding ensure_role_binding lookup ◌>>=◌
role_change_replaces_binding_example =
    role_change_replaces_binding client (ann false) "lab" "workspace-viewer-role" "shared"
      (binding "lab" "workspace-editor-role") start refl refl refl none refl refl refl
