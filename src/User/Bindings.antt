-- ===== src/User/Bindings.antt =====
-- The RoleBindings of a user: ensureRoleBinding, cleanupStaleRoleBindings, roleToClusterRole.
use controller.Base.{
  String, ◌<>◌, Bool, true, ◌&&◌, flip, Option, none, some, List, [], ◌∷◌, ◌++◌, map, Map, at_key,
  put, contains, ◌==◌, ◌/=◌, if◌then◌else◌,
}
use controller.Base.Effects.{
  fault, pure, find, ignore_not_found, ◌>>=◌, ◌>>◌, fail_if, when, for_each, reads, writes,
}
use controller.Api.Meta.{ObjectMeta, new_meta}
use controller.Api.User.{User}
use controller.User.Client.{
  UserClient, Run, RoleBinding, RoleRef, put_role_binding, delete_role_binding, label_managed_by,
  label_user_name, managed_by_value, annotation_user_email,
}

unfoldable pub role_to_cluster_role : String → String
role_to_cluster_role role =
    if role == "admin"
    then "workspace-admin-role"
    else if role == "viewer"
    then "workspace-viewer-role"
    else "workspace-editor-role"

abbrev pub cluster_role_ref : String → RoleRef
cluster_role_ref name = record {
  api_group = "rbac.authorization.k8s.io";
  kind = "ClusterRole";
  name = name;
}

-- Go compares the struct field by field.
abbrev pub same_role_ref : RoleRef → RoleRef → Bool
same_role_ref a b = a.api_group == b.api_group && a.kind == b.kind && a.name == b.name

abbrev pub is_managed_for : ObjectMeta → User → Bool
is_managed_for m user =
    at_key m.labels label_managed_by == managed_by_value
    && at_key m.labels label_user_name == user.name

abbrev pub binding_name : User → String → String
binding_name user binding_type = (user.name <> "-") <> binding_type

abbrev pub new_role_binding : String → String → RoleBinding
new_role_binding name namespace = record {
  meta = new_meta name namespace;
  subjects = [];
  role_ref = record { api_group = ""; kind = ""; name = "" };
}

-- The mutating function that ensureRoleBinding hands to CreateOrUpdate.
unfoldable pub grant : User → String → RoleBinding → RoleBinding
grant user cluster_role rb = record {
  meta = record rb.meta {
    labels = put label_user_name user.name (put label_managed_by managed_by_value rb.labels);
    annotations = put annotation_user_email user.spec.email rb.annotations;
  };
  subjects = record { kind = "User"; name = user.spec.email } ∷ [];
  role_ref = cluster_role_ref cluster_role;
}

abbrev pub get_or_new : RoleBinding → Option RoleBinding → RoleBinding
get_or_new fresh none = fresh
get_or_new fresh (some rb) = rb

-- The namespaces in which the user keeps a binding.
unfoldable pub desired_namespaces : User → List String
desired_namespaces user =
    if user.spec.disabled
    then []
    else (if user.status.personal_namespace == "" then [] else user.status.personal_namespace ∷ [])
      ++ map (λ access. access.namespace) user.spec.namespace_access

abbrev pub managed_labels : User → Map
managed_labels user = (label_managed_by, managed_by_value) ∷ (label_user_name, user.name) ∷ []

module _ {S : Type 0} (api : UserClient S) where
  unfoldable pub delete_for_replacement :
      User → String → RoleRef → Option RoleBinding → Run S (Unit {0})
  delete_for_replacement user location desired none = pure tt
  delete_for_replacement user location desired (some rb) =
      when (rb.resource_version /= "" && flip (same_role_ref rb.role_ref desired)) (do
        fail_if (flip (is_managed_for rb.meta user))
            (fault ("refusing to replace unmanaged RoleBinding " <> location))
        ignore_not_found (writes (delete_role_binding true rb) (api.delete_binding true rb)))

  unfoldable pub ensure_role_binding : User → String → String → String → Run S (Unit {0})
  unfolding delete_for_replacement
  ensure_role_binding user namespace cluster_role binding_type = do
    let name = binding_name user binding_type
    found ← find (reads (api.get_role_binding namespace name))
    delete_for_replacement user ((namespace <> "/") <> name) (cluster_role_ref cluster_role) found
    current ← reads (api.fetch_role_binding namespace name)
    let rb = grant user cluster_role (get_or_new (new_role_binding name namespace) current)
    writes (put_role_binding rb) (api.store_role_binding rb)

  unfoldable pub delete_unless_desired : List String → RoleBinding → Run S (Unit {0})
  delete_unless_desired desired rb =
      when (flip (contains desired rb.namespace))
        (ignore_not_found (writes (delete_role_binding true rb) (api.delete_binding true rb)))

  unfoldable pub cleanup_stale_role_bindings : User → Run S (Unit {0})
  unfolding delete_unless_desired
  cleanup_stale_role_bindings user = do
    items ← reads (api.list_role_bindings (managed_labels user))
    for_each (delete_unless_desired (desired_namespaces user)) items
