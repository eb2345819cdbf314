-- ===== src/User/Revocation.antt =====
-- What happens to the grants of a user that is disabled.
use controller.Base.{
  String, true, false, ◌≡◌, refl, inl, inr, List, [], ◌∷◌, map, All, keep, contains, flip, arith,
  if◌then◌else◌,
}
use controller.Base.Effects.{ok, World, ◌>>=◌}
use controller.Base.Safety.{Only, only_rules}
use controller.Base.Loops.{log_each, for_each-log, Result-cases}
use controller.Api.User.{User}
use controller.User.Client.{
  UserClient, Call, update_user, update_status, delete_role_binding, RoleBinding,
}
use controller.User.Bindings.{
  managed_labels, desired_namespaces, delete_unless_desired, cleanup_stale_role_bindings,
}
use controller.User.Reconcile.{
  Requeue, same_status, mark_disabled, reconcile_disabled, add_user_finalizer, reconcile_user,
  reconcile,
}

-- The calls that disabling may make: a guarded delete of a RoleBinding, and writes of the User that
-- keep its spec and the name of its personal namespace.
abbrev pub IsRevocation : User → Call → Type 0
IsRevocation user (delete_role_binding guarded rb) = guarded ≡ true
IsRevocation user (update_user u) = (u.spec ≡ user.spec) × (u.status ≡ user.status)
IsRevocation user (update_status u) =
    (u.spec ≡ user.spec) × (u.status.personal_namespace ≡ user.status.personal_namespace)
IsRevocation user _ = ⊥

-- The bindings among `items` whose namespace the user has no claim to.
abbrev pub stale : User → List RoleBinding → List RoleBinding
stale user = keep (λ rb. flip (contains (desired_namespaces user) rb.namespace))

module _ {S : Type 0} (api : UserClient S) where
  cleanup-Only : (user u : User) → Only (IsRevocation u) (cleanup_stale_role_bindings api user)
  unfolding cleanup_stale_role_bindings
  cleanup-Only user u = search only_rules depth 9

  disabled-Only : (user : User) → Only (IsRevocation user) (reconcile_disabled api user)
  unfolding reconcile_disabled mark_disabled
  disabled-Only user = search (only_rules, cleanup-Only) depth 12

  finalizer-Only : (user : User) → Only (IsRevocation user) (add_user_finalizer api user)
  unfolding add_user_finalizer
  finalizer-Only user = search only_rules depth 9

  user-Only :
      (name : String) (user : User)
      → user.spec.disabled ≡ true
      → user.deleting ≡ false
      → Only (IsRevocation user) (reconcile_user api name user)
  unfolding reconcile_user
  user-Only name user d live =
      rw (live, d) (search (only_rules, disabled-Only, finalizer-Only) depth 9)

  -- Reconciling a user that is disabled and not being deleted makes no call but these, whatever the
  -- cluster answers and also when it ends with an error: guarded deletes of RoleBindings, and
  -- writes of the User that leave its spec and the name of its personal namespace as they were. It
  -- grants nothing, and touches no namespace and no quota.
  pub disabled_user_only_loses_grants :
      (name : String) (user : User) (w : World S Call)
      → (api.get_user name w.server).0 ≡ ok user
      → user.spec.disabled ≡ true
      → user.deleting ≡ false
      → w.calls ≡ []
      → All (IsRevocation user) (reconcile api name w).1.calls
  unfolding reconcile ◌>>=◌
  disabled_user_only_loses_grants name user w found d live fresh =
      rw found ((user-Only name user d live).at _ (rw fresh tt))

  step-log :
      (user : User) (rb : RoleBinding) (w : World S Call)
      → (delete_unless_desired api (desired_namespaces user) rb w).0 ≡ ok tt
      → (delete_unless_desired api (desired_namespaces user) rb w).1.calls ≡ (
          if flip (contains (desired_namespaces user) rb.namespace)
          then delete_role_binding true rb ∷ w.calls
          else w.calls)
  unfolding delete_unless_desired ◌>>=◌
  step-log user rb w h = ground arith

  -- Cleaning up that succeeds has deleted exactly the listed bindings whose namespace is not
  -- desired, each once and in the order of the list.
  pub cleanup-deletes_stale :
      (user : User) (items : List RoleBinding) (w : World S Call)
      → (api.list_role_bindings (managed_labels user) w.server).0 ≡ ok items
      → (cleanup_stale_role_bindings api user w).0 ≡ ok tt
      → (cleanup_stale_role_bindings api user w).1.calls
        ≡ log_each (map (delete_role_binding true) (stale user items)) w.calls
  unfolding cleanup_stale_role_bindings ◌>>=◌
  cleanup-deletes_stale user items w listed h = rw listed (
      for_each-log (delete_unless_desired api (desired_namespaces user))
        (λ rb. flip (contains (desired_namespaces user) rb.namespace)) (delete_role_binding true)
        (step-log user) items
        (record w { server = (api.list_role_bindings (managed_labels user) w.server).1 })
        (rw listed at h))

  stale_of_disabled :
      (user : User) (items : List RoleBinding)
      → user.spec.disabled ≡ true
      → stale user items ≡ items
  unfolding desired_namespaces
  stale_of_disabled user [] d = refl
  stale_of_disabled user (rb ∷ items) d = ground (arith, stale_of_disabled user items d)

  disabled-cleanup :
      (user : User) (items : List RoleBinding) (w : World S Call)
      → user.spec.disabled ≡ true
      → (api.list_role_bindings (managed_labels user) w.server).0 ≡ ok items
      → (cleanup_stale_role_bindings api user w).0 ≡ ok tt
      → (cleanup_stale_role_bindings api user w).1.calls
        ≡ log_each (map (delete_role_binding true) items) w.calls
  disabled-cleanup user items w d listed h =
      rw (stale_of_disabled user items d) at (cleanup-deletes_stale user items w listed h)

  -- Disabling that succeeds has deleted every listed binding of the user, whatever its namespace.
  -- Besides these deletes it writes the status, exactly where the condition changes it, and it
  -- asks to be run again in 30 seconds.
  pub disabled_user_loses_all_bindings :
      (user : User) (items : List RoleBinding) (w : World S Call) (n : Requeue)
      → user.spec.disabled ≡ true
      → (api.list_role_bindings (managed_labels user) w.server).0 ≡ ok items
      → (reconcile_disabled api user w).0 ≡ ok n
      → let deleted = log_each (map (delete_role_binding true) items) w.calls in
        let marked = mark_disabled api user in
        (n ≡ 30)
        × ((reconcile_disabled api user w).1.calls ≡ (
            if same_status user.status marked.status
            then deleted
            else update_status marked ∷ deleted))
  unfolding reconcile_disabled ◌>>=◌
  disabled_user_loses_all_bindings user items w n d listed h =
      elim (Result-cases (cleanup_stale_role_bindings api user w).0) [
        | inl good ↦ ground (arith, good, disabled-cleanup user items w d listed good)
        | inr (e, bad) ↦ absurd (ground (arith, bad))
      ]
