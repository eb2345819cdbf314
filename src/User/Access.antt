-- ===== src/User/Access.antt =====
-- ensureRoleBinding when a binding of the name exists already: a changed role, a foreign binding.
use controller.Base.{String, true, false, ◌≡◌, Option, ◌∷◌, arith, ◌==◌}
use controller.Base.Effects.{ok, World, is_ok, ◌>>=◌}
use controller.Api.User.{User}
use controller.User.Client.{UserClient, Call, put_role_binding, delete_role_binding, RoleBinding}
use controller.User.Bindings.{
  binding_name, same_role_ref, cluster_role_ref, is_managed_for, get_or_new, new_role_binding,
  grant, ensure_role_binding,
}

module _ {S : Type 0} (api : UserClient S) (user : User) (namespace role kind : String)
    (rb : RoleBinding) (w : World S Call)
    (found : (api.get_role_binding namespace (binding_name user kind) w.server).0 ≡ ok rb)
    (stored : (rb.resource_version == "") ≡ false)
    (differs : same_role_ref rb.role_ref (cluster_role_ref role) ≡ false) where
  -- A binding of that name with another role that is not managed for this user is left alone:
  -- the call fails and nothing is written.
  pub unmanaged_binding_is_refused :
      is_managed_for rb.meta user ≡ false
      → ((ensure_role_binding api user namespace role kind w).1.calls ≡ w.calls)
        × (is_ok (ensure_role_binding api user namespace role kind w).0 ≡ false)
  unfolding ensure_role_binding ◌>>=◌
  unmanaged_binding_is_refused foreign = ground arith

  -- A managed binding with another role is deleted, guarded by its UID and version, before
  -- the new one is written: where the call succeeds these two are its only writes, in this order,
  -- so that a downgrade leaves no binding with the old role behind.
  pub role_change_replaces_binding :
      (now : Option RoleBinding)
      → is_managed_for rb.meta user ≡ true
      → (api.fetch_role_binding namespace
          (binding_name user kind)
          (api.delete_binding true rb
            (api.get_role_binding namespace (binding_name user kind) w.server).1).1).0
        ≡ ok now
      → (ensure_role_binding api user namespace role kind w).0 ≡ ok tt
      → (ensure_role_binding api user namespace role kind w).1.calls
        ≡ put_role_binding
            (grant user role (get_or_new (new_role_binding (binding_name user kind) namespace) now))
          ∷ delete_role_binding true rb
          ∷ w.calls
  unfolding ensure_role_binding ◌>>=◌
  role_change_replaces_binding now managed fetched h = ground arith
