-- ===== src/Auth/Reconcile.antt =====
-- authconfig_controller.go: Reconcile and verifyIssuer. The parts of the method that compute the
-- status are pure functions; `reconcile` makes the calls around them.
use controller.Base.{
  ℕ, String, ◌<>◌, Bool, false, ◌&&◌, flip, Option, none, some, List, ◌/=◌, nat_eq, if◌then◌else◌,
  decided, trim_right,
}
use controller.Base.Effects.{
  Result, ok, err, message, is_ok, pure, attempt, find, ◌>>=◌, ◌>>◌, when, reads, observes, writes,
  emits,
}
use controller.Api.Meta.{Condition}
use controller.Api.Auth.{AuthConfig, AuthConfigStatus, AuthConfigStatus-discrete}
use controller.Auth.Client.{AuthClient, Run, update_status, event}
use controller.Auth.Bootstrap.{reconcile_bootstrap_admin}

-- ctrl.Result: the seconds of RequeueAfter, 0 for none.
abbrev pub Requeue : Type 0
Requeue = ℕ

abbrev pub same_status : AuthConfigStatus → AuthConfigStatus → Bool
same_status a b = decided (AuthConfigStatus-discrete a b)

abbrev pub condition : String → String → ℕ → ℕ → String → String → Condition
condition type status generation time reason text = record {
  type = type;
  status = status;
  observed_generation = generation;
  last_transition_time = time;
  reason = reason;
  message = text;
}

abbrev pub has_oidc : AuthConfig → Bool
has_oidc cfg = elim cfg.spec.oidc [ none ↦ false | some o ↦ o.issuer_url /= "" ]

abbrev pub issuer_url : AuthConfig → String
issuer_url cfg = elim cfg.spec.oidc [ none ↦ "" | some o ↦ o.issuer_url ]

abbrev pub has_local_auth : AuthConfig → Bool
has_local_auth cfg = elim cfg.spec.local_auth [ none ↦ false | some l ↦ l.enabled ]

abbrev pub set_auth_status : AuthConfig → AuthConfigStatus → AuthConfig
set_auth_status cfg status = record { meta = cfg.meta; spec = cfg.spec; status = status }

module _ {S : Type 0} (api : AuthClient S) where
  -- What both branches without a method do: the issuer is not verified, and the conditions of
  -- the methods go.
  unfoldable pub cleared_status : AuthConfig → Condition → AuthConfigStatus
  cleared_status cfg ready = record {
    enabled = cfg.spec.enabled;
    issuer_reachable = false;
    last_verified = none;
    conditions =
        api.set_condition
          (api.remove_condition (api.remove_condition cfg.status.conditions "LocalAuthReady")
            "OIDCReady")
          ready;
  }

  unfoldable pub disabled_status : AuthConfig → ℕ → AuthConfigStatus
  disabled_status cfg now =
      cleared_status cfg (condition "Ready" "True" 0 now "Disabled" "Authentication is disabled")

  unfoldable pub missing_status : AuthConfig → ℕ → AuthConfigStatus
  missing_status cfg now = cleared_status cfg (
      condition "Ready" "False" 0 now "MissingAuthMethod"
        "Either OIDC or localAuth must be configured when auth is enabled")

  -- The condition of the local method; `local` is the result of reconcileBootstrapAdmin.
  unfoldable pub local_condition : AuthConfig → Result (Unit {0}) → Condition
  local_condition cfg (err e) =
      if has_local_auth cfg
      then condition "LocalAuthReady" "False" cfg.generation 0 "BootstrapAdminUnavailable"
          (message e)
      else condition "LocalAuthReady" "False" cfg.generation 0 "NotConfigured"
          "Local authentication is not configured"
  local_condition cfg (ok _) =
      if has_local_auth cfg
      then condition "LocalAuthReady" "True" cfg.generation 0 "UsableAdministrator"
          "Local authentication has a usable recovery administrator (temporary passwords require change)"
      else condition "LocalAuthReady" "False" cfg.generation 0 "NotConfigured"
          "Local authentication is not configured"

  unfoldable pub oidc_condition : AuthConfig → Bool → Condition
  oidc_condition cfg reachable =
      if flip (has_oidc cfg)
      then condition "OIDCReady" "False" cfg.generation 0 "NotConfigured" "OIDC is not configured"
      else if reachable
      then condition "OIDCReady" "True" cfg.generation 0 "IssuerVerified"
          "OIDC issuer is reachable; this does not prove a provider sign-in"
      else condition "OIDCReady" "False" cfg.generation 0 "IssuerUnreachable"
          "OIDC issuer is not reachable"

  -- The closure `methodConditions`.
  unfoldable pub method_conditions :
      AuthConfig → Result (Unit {0}) → Bool → List Condition → List Condition
  method_conditions cfg local reachable conditions =
      api.set_condition (api.set_condition conditions (local_condition cfg local))
        (oidc_condition cfg reachable)

  unfoldable pub local_only_ready : Result (Unit {0}) → ℕ → Condition
  local_only_ready (ok _) now =
      condition "Ready" "True" 0 now "LocalAuthOnly"
        "Authentication is enabled via local auth (no OIDC configured)"
  local_only_ready (err e) now =
      condition "Ready" "False" 0 now "BootstrapAdminUnavailable" (message e)

  unfoldable pub local_only_status : AuthConfig → Result (Unit {0}) → ℕ → AuthConfigStatus
  local_only_status cfg local now = record {
    enabled = cfg.spec.enabled;
    issuer_reachable = false;
    last_verified = none;
    conditions =
        method_conditions cfg local false
          (api.set_condition cfg.status.conditions (local_only_ready local now));
  }

  unfoldable pub issuer_ready : AuthConfig → Bool → ℕ → Condition
  issuer_ready cfg reachable now =
      if reachable
      then condition "Ready" "True" 0 now "IssuerVerified"
          ("OIDC issuer " <> issuer_url cfg <> " is reachable")
      else condition "Ready" "False" 0 now "IssuerUnreachable"
          ("OIDC issuer " <> issuer_url cfg <> " is not reachable")

  -- An outage of the issuer must not hide a usable local path.
  unfoldable pub recover_locally :
      AuthConfig → Result (Unit {0}) → Bool → List Condition → List Condition
  recover_locally cfg local reachable conditions =
      if flip reachable && has_local_auth cfg && is_ok local
      then api.set_condition conditions (
          condition "Ready" "True" cfg.generation 0 "LocalRecoveryAvailable"
            "OIDC is unavailable; local recovery administrator is usable")
      else conditions

  unfoldable pub oidc_status : AuthConfig → Result (Unit {0}) → Bool → ℕ → AuthConfigStatus
  oidc_status cfg local reachable now = record {
    enabled = cfg.spec.enabled;
    issuer_reachable = reachable;
    last_verified = some now;
    conditions = method_conditions cfg local reachable (
        recover_locally cfg local reachable
          (api.set_condition cfg.status.conditions (issuer_ready cfg reachable now)));
  }

  -- The closure `updateStatus`, with the status as it was read.
  unfoldable pub save_status : AuthConfig → AuthConfigStatus → Run S (Unit {0})
  save_status cfg status = when (flip (same_status cfg.status status)) (do
    _ ←
        writes (update_status (set_auth_status cfg status))
          (api.status_update (set_auth_status cfg status))
    pure tt)

  unfoldable pub well_known_url : String → String
  well_known_url issuer = trim_right b'/' issuer <> "/.well-known/openid-configuration"

  abbrev pub is_200 : Result ℕ → Bool
  is_200 (ok status) = nat_eq status 200
  is_200 (err e) = false

  unfoldable pub verify_issuer : String → Run S Bool
  verify_issuer issuer = do
    answer ← attempt (reads (api.http_get (well_known_url issuer)))
    pure (is_200 answer)

  abbrev pub warn : Result (Unit {0}) → Run S (Unit {0})
  warn (ok _) = pure tt
  warn (err e) = when api.has_recorder (emits (event "Warning" "BootstrapAdminFailed" (message e)))

  unfoldable pub bootstrap_result : AuthConfig → Run S (Result (Unit {0}))
  bootstrap_result cfg =
      if has_local_auth cfg
      then (do local ← attempt (reconcile_bootstrap_admin api cfg); warn local; pure local)
      else pure (ok tt)

  abbrev pub requeue_local : Result (Unit {0}) → Requeue
  requeue_local (ok _) = 300
  requeue_local (err e) = 30

  unfoldable pub finish_local_only : AuthConfig → Result (Unit {0}) → Run S Requeue
  finish_local_only cfg local = do
    now ← observes api.now
    save_status cfg (local_only_status cfg local now)
    pure (requeue_local local)

  unfoldable pub finish_oidc : AuthConfig → Result (Unit {0}) → Run S Requeue
  finish_oidc cfg local = do
    reachable ← verify_issuer (issuer_url cfg)
    now ← observes api.now
    save_status cfg (oidc_status cfg local reachable now)
    pure 300

  unfoldable pub reconcile_methods : AuthConfig → Run S Requeue
  reconcile_methods cfg = do
    local ← bootstrap_result cfg
    if has_oidc cfg then finish_oidc cfg local else finish_local_only cfg local

  unfoldable pub reconcile_config : AuthConfig → Run S Requeue
  reconcile_config cfg =
      if flip cfg.spec.enabled
      then (do now ← observes api.now; save_status cfg (disabled_status cfg now); pure 0)
      else if flip (has_oidc cfg) && flip (has_local_auth cfg)
      then (do now ← observes api.now; save_status cfg (missing_status cfg now); pure 30)
      else reconcile_methods cfg

  abbrev pub reconcile_found : Option AuthConfig → Run S Requeue
  reconcile_found none = pure 0
  reconcile_found (some cfg) = reconcile_config cfg

  unfoldable pub reconcile : String → Run S Requeue
  reconcile name =
      if name /= "default"
      then pure 0
      else do found ← find (reads (api.get_auth_config "default")); reconcile_found found
