-- ===== src/User/Reconcile.antt =====
-- UserReconciler.Reconcile with getAuthConfig and reconcileNamespaceAccess. Each branch of the
-- method is a function of its own; `reconcile` composes them.
use controller.Base.{
  ℕ, String, ◌<>◌, Bool, flip, Option, none, some, List, ◌==◌, if◌then◌else◌, decided,
}
use controller.Base.Effects.{
  Result, ok, err, message, pure, raise, attempt, wrapping, find, ◌>>=◌, ◌>>◌, when, for_each,
  reads, observes, writes, emits,
}
use controller.Api.Meta.{Condition}
use controller.Api.User.{User, UserStatus, UserStatus-discrete, NamespaceAccessEntry}
use controller.Api.Auth.{AuthConfig, PersonalNamespaceConfig}
use controller.User.Client.{UserClient, Run, update_user, update_status, event, user_finalizer}
use controller.User.Bindings.{
  role_to_cluster_role, ensure_role_binding, cleanup_stale_role_bindings,
}
use controller.User.Namespaces.{
  render_namespace_template, reconcile_personal_namespace, cleanup_user,
}

-- ctrl.Result: the seconds of RequeueAfter, 0 for none.
abbrev pub Requeue : Type 0
Requeue = ℕ

abbrev pub same_status : UserStatus → UserStatus → Bool
same_status a b = decided (UserStatus-discrete a b)

abbrev pub ready_condition : String → String → String → ℕ → Condition
ready_condition status reason text now = record {
  type = "Ready";
  status = status;
  observed_generation = 0;
  last_transition_time = now;
  reason = reason;
  message = text;
}

-- The personal namespace settings that are in force.
abbrev pub personal_config : Option AuthConfig → Option PersonalNamespaceConfig
personal_config none = none
personal_config (some cfg) = elim cfg.spec.personal_namespaces [
  | none ↦ none
  | some p ↦ if p.enabled then some p else none
]

abbrev pub set_status : User → UserStatus → User
set_status user status = record { meta = user.meta; spec = user.spec; status = status }

abbrev pub set_finalizers : User → List String → User
set_finalizers user finalizers = record {
  meta = record user.meta { finalizers = finalizers };
  spec = user.spec;
  status = user.status;
}

module _ {S : Type 0} (api : UserClient S) where
  -- `r.EventRecorder.Event(&user, Warning, reason, err.Error()); return err`
  abbrev pub report : {A : Type 0} → String → Result A → Run S A
  report reason (ok a) = pure a
  report reason (err e) = do emits (event "Warning" reason (message e)); raise e

  abbrev pub reporting : {A : Type 0} → String → Run S A → Run S A
  reporting reason m = do r ← attempt m; report reason r

  abbrev pub set_condition : List Condition → Condition → List Condition
  set_condition = api.set_status_condition

  unfoldable pub write_status : User → Run S User
  write_status user = writes (update_status user) (api.status_update user)

  -- `if !reflect.DeepEqual(previousStatus, user.Status) { r.Status().Update }`
  unfoldable pub write_changed_status : UserStatus → User → Run S (Unit {0})
  unfolding write_status
  write_changed_status previous user =
      when (flip (same_status previous user.status)) (do _ ← write_status user; pure tt)

  unfoldable pub reconcile_deletion : User → Run S Requeue
  reconcile_deletion user =
      if api.contains_finalizer user.finalizers user_finalizer
      then (do
        cleanup_user api user
        let released = set_finalizers user (api.remove_finalizer user.finalizers user_finalizer)
        _ ← writes (update_user released) (api.update released)
        pure 0)
      else pure 0

  unfoldable pub add_user_finalizer : User → Run S Requeue
  add_user_finalizer user = do
    let held = set_finalizers user (api.add_finalizer user.finalizers user_finalizer)
    _ ← writes (update_user held) (api.update held)
    pure 1

  unfoldable pub mark_disabled : User → User
  mark_disabled user = set_status user (record user.status {
    conditions = set_condition user.status.conditions (
        ready_condition "False" "Disabled"
          "User is disabled; managed namespace grants have been revoked" 0);
  })

  unfoldable pub reconcile_disabled : User → Run S Requeue
  unfolding write_changed_status
  reconcile_disabled user = do
    wrapping "failed to revoke disabled user grants" (cleanup_stale_role_bindings api user)
    write_changed_status user.status (mark_disabled user)
    pure 30

  -- The namespace and its record in the status.
  unfoldable pub reconcile_namespace : Option PersonalNamespaceConfig → User → Run S User
  unfolding write_status
  reconcile_namespace none user = pure user
  reconcile_namespace (some config) user = do
    name ← reporting "NamespaceFailed" (reconcile_personal_namespace api user config)
    if user.status.personal_namespace == name then pure user else do
      saved ← write_status (set_status user (record user.status { personal_namespace = name }))
      emits (event "Normal" "NamespaceCreated" ("Personal namespace \"" <> name <> "\" created"))
      pure saved

  unfoldable pub ensure_access : User → NamespaceAccessEntry → Run S (Unit {0})
  ensure_access user access =
      wrapping ("failed to create RoleBinding in " <> access.namespace)
        (ensure_role_binding api user access.namespace (role_to_cluster_role access.role) "shared")

  unfoldable pub reconcile_namespace_access : User → Run S (Unit {0})
  unfolding ensure_access
  reconcile_namespace_access user = do
    for_each (ensure_access user) user.spec.namespace_access
    wrapping "failed to cleanup stale RoleBindings" (cleanup_stale_role_bindings api user)

  unfoldable pub keep_namespace_name : Option PersonalNamespaceConfig → User → UserStatus
  keep_namespace_name none user = user.status
  keep_namespace_name (some config) user =
      if user.status.personal_namespace == ""
      then record user.status {
        personal_namespace = render_namespace_template config.template user.name;
      }
      else user.status

  unfoldable pub report_ready : Option PersonalNamespaceConfig → User → Run S (Unit {0})
  unfolding write_changed_status keep_namespace_name
  report_ready config user = do
    let previous = keep_namespace_name config user
    now ← observes api.now
    let ready = ready_condition "True" "Reconciled" "User resources are in sync" now
    let status = record previous { conditions = set_condition previous.conditions ready }
    write_changed_status previous (set_status user status)

  unfoldable pub reconcile_with : String → User → Option PersonalNamespaceConfig → Run S Requeue
  unfolding reconcile_namespace
  reconcile_with name user config = do
    owner ← reconcile_namespace config user
    reporting "RBACFailed" (reconcile_namespace_access owner)
    fresh ← reads (api.get_user name)
    report_ready config fresh
    pure 0

  -- An AuthConfig that cannot be read is asked for again later.
  abbrev pub with_auth_config : String → User → Result (Option AuthConfig) → Run S Requeue
  with_auth_config name user (ok cfg) = reconcile_with name user (personal_config cfg)
  with_auth_config name user (err e) = pure 30

  unfoldable pub reconcile_active : String → User → Run S Requeue
  unfolding reconcile_with
  reconcile_active name user = do
    found ← attempt (find (reads (api.get_auth_config "default")))
    with_auth_config name user found

  unfoldable pub reconcile_user : String → User → Run S Requeue
  reconcile_user name user =
      if user.deleting
      then reconcile_deletion user
      else if flip (api.contains_finalizer user.finalizers user_finalizer)
      then add_user_finalizer user
      else if user.spec.disabled
      then reconcile_disabled user
      else reconcile_active name user

  abbrev pub reconcile_found : String → Option User → Run S Requeue
  reconcile_found name none = pure 0
  reconcile_found name (some user) = reconcile_user name user

  unfoldable pub reconcile : String → Run S Requeue
  reconcile name = do found ← find (reads (api.get_user name)); reconcile_found name found
