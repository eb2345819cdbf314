-- ===== src/User/Namespaces.antt =====
-- The personal namespace of a user: renderNamespaceTemplate, personalNamespaceMatches,
-- reconcilePersonalNamespace, ensureResourceQuota, cleanupUser.
use controller.Base.{
  String, ◌<>◌, Bool, true, false, ◌&&◌, ◌||◌, flip, Option, none, some, [], ◌∷◌, Map, at_key, put,
  put_all, ◌==◌, ◌/=◌, if◌then◌else◌, replace_all,
}
use controller.Base.Effects.{
  Result, ok, err, fault, wrap, pure, wrapping, find, ignore_not_found, ◌>>=◌, ◌>>◌, lift, when,
  for_each, reads, writes,
}
use controller.Api.Meta.{new_meta}
use controller.Api.User.{User}
use controller.Api.Auth.{PersonalNamespaceConfig}
use controller.User.Client.{
  UserClient, Run, Namespace, RoleBinding, ResourceQuota, put_namespace, delete_namespace,
  delete_role_binding, put_quota, label_managed_by, label_user_name, managed_by_value,
  label_personal_namespace, label_value_true, annotation_user_email, annotation_user_uid,
  annotation_namespace_enabled,
}
use controller.User.Bindings.{is_managed_for, managed_labels, ensure_role_binding}

unfoldable pub render_namespace_template : String → String → String
render_namespace_template template username =
    if template == "" then username else replace_all "{{username}}" username template

unfoldable pub personal_namespace_matches : Namespace → User → Bool → Bool
personal_namespace_matches ns user allow_legacy =
    let uid = at_key ns.annotations annotation_user_uid in
    if user.uid == ""
      || ns.deleting
      || flip (is_managed_for ns.meta user)
      || at_key ns.labels label_personal_namespace /= label_value_true
    then false
    else if uid /= ""
    then uid == user.uid
    else allow_legacy
      && user.status.personal_namespace == ns.name
      && at_key ns.annotations annotation_user_email == user.spec.email

-- The name that is recorded in the status wins over the template.
unfoldable pub personal_namespace_name : User → PersonalNamespaceConfig → String
personal_namespace_name user config =
    if user.status.personal_namespace == ""
    then render_namespace_template config.template user.name
    else user.status.personal_namespace

-- The labels and annotations that the mutating function writes.
unfoldable pub stamp_namespace : User → PersonalNamespaceConfig → Namespace → Namespace
stamp_namespace user config ns = record {
  meta = record ns.meta {
    labels = put label_managed_by managed_by_value (
        put label_user_name user.name
          (put label_personal_namespace label_value_true (put_all config.labels ns.labels)));
    annotations = put annotation_user_uid user.uid (
        put annotation_user_email user.spec.email (
          put_all config.annotations
            (put annotation_namespace_enabled label_value_true ns.annotations)));
  };
}

abbrev pub exists_on_server : Namespace → Bool
exists_on_server ns = ns.created || ns.resource_version /= ""

-- The mutating function that reconcilePersonalNamespace hands to CreateOrUpdate.
unfoldable pub claim_namespace :
    User → PersonalNamespaceConfig → String → Namespace → Result Namespace
claim_namespace user config name ns =
    if exists_on_server ns && flip (personal_namespace_matches ns user true)
    then err (
        fault (
          "namespace " <> name <> " is not owned by User " <> user.name <> "/" <> user.uid
          <> "; explicit operator recovery is required"))
    else ok (stamp_namespace user config ns)

abbrev pub get_or_new_ns : String → Option Namespace → Namespace
get_or_new_ns name none = record { meta = new_meta name "" }
get_or_new_ns name (some ns) = ns

-- The loop over the configured quota.
unfoldable pub parse_quota : (String → Result String) → Map → Result Map
parse_quota parse [] = ok []
parse_quota parse ((k, v) ∷ more) = elim (parse v) [
  | err e ↦ err (wrap ("invalid resource quota \"" <> k <> "\" value \"" <> v <> "\"") e)
  | ok q ↦ elim (parse_quota parse more) [ err e ↦ err e | ok rest ↦ ok (put k q rest) ]
]

abbrev pub new_quota : String → String → ResourceQuota
new_quota name namespace = record { meta = new_meta name namespace; hard = [] }

abbrev pub get_or_new_quota : String → String → Option ResourceQuota → ResourceQuota
get_or_new_quota name namespace none = new_quota name namespace
get_or_new_quota name namespace (some rq) = rq

unfoldable pub limit_quota : User → ResourceQuota → Map → ResourceQuota
limit_quota user rq hard = record {
  meta = record rq.meta {
    labels = put label_user_name user.name (put label_managed_by managed_by_value rq.labels);
  };
  hard = hard;
}

module _ {S : Type 0} (api : UserClient S) where
  unfoldable pub ensure_resource_quota : User → String → Map → Run S (Unit {0})
  unfolding parse_quota limit_quota
  ensure_resource_quota user namespace quota_spec = do
    let name = user.name <> "-quota"
    current ← reads (api.fetch_quota namespace name)
    hard ← lift (parse_quota api.parse_quantity quota_spec)
    let rq = limit_quota user (get_or_new_quota name namespace current) hard
    writes (put_quota rq) (api.store_quota rq)

  -- controllerutil.CreateOrUpdate of the namespace.
  unfoldable pub own_namespace : User → PersonalNamespaceConfig → String → Run S (Unit {0})
  own_namespace user config name = do
    current ← reads (api.fetch_namespace name)
    ns ← lift (claim_namespace user config name (get_or_new_ns name current))
    writes (put_namespace ns) (api.store_namespace ns)

  abbrev pub has_quota : Map → Bool
  has_quota [] = false
  has_quota (_ ∷ _) = true

  unfoldable pub reconcile_personal_namespace : User → PersonalNamespaceConfig → Run S String
  reconcile_personal_namespace user config = do
    let name = personal_namespace_name user config
    wrapping ("failed to create/update namespace " <> name) (own_namespace user config name)
    wrapping "failed to create personal namespace RoleBinding"
        (ensure_role_binding api user name "workspace-editor-role" "personal")
    when (has_quota config.resource_quota) (
        wrapping "failed to create ResourceQuota"
          (ensure_resource_quota user name config.resource_quota))
    pure name

  unfoldable pub delete_binding_of_user : RoleBinding → Run S (Unit {0})
  delete_binding_of_user rb =
      wrapping ("failed to delete RoleBinding " <> rb.namespace <> "/" <> rb.name)
        (ignore_not_found (writes (delete_role_binding false rb) (api.delete_binding false rb)))

  unfoldable pub delete_if_owned : User → Option Namespace → Run S (Unit {0})
  delete_if_owned user none = pure tt
  delete_if_owned user (some ns) = when (personal_namespace_matches ns user false) (
      wrapping ("failed to delete personal namespace " <> user.status.personal_namespace)
        (ignore_not_found (writes (delete_namespace ns) (api.delete_ns ns))))

  unfoldable pub cleanup_user : User → Run S (Unit {0})
  unfolding delete_binding_of_user delete_if_owned
  cleanup_user user = do
    items ← reads (api.list_role_bindings (managed_labels user))
    for_each delete_binding_of_user items
    when (user.status.personal_namespace /= "") (do
      found ← find (reads (api.get_namespace user.status.personal_namespace))
      delete_if_owned user found)
