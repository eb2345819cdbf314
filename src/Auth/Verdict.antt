-- ===== src/Auth/Verdict.antt =====
-- What the status of the AuthConfig says after a reconcile, for each outcome of its methods.
use controller.Base.{
  ℕ, String, Bool, true, false, ◌&&◌, ◌||◌, ◌∙◌, ◌≡◌, refl, ◌⊎◌, Option, none, some, List, [], ◌∷◌,
  arith, if◌then◌else◌, ◌==◌,
}
use controller.Base.Effects.{Result, ok, err, World, is_ok, ◌>>=◌}
use controller.Api.Meta.{Condition}
use controller.Api.Auth.{AuthConfig, AuthConfigStatus}
use controller.Auth.Client.{AuthClient, Call, update_status}
use controller.Auth.Reconcile.{
  same_status, condition, has_oidc, has_local_auth, issuer_url, set_auth_status, cleared_status,
  disabled_status, missing_status, local_condition, oidc_condition, method_conditions,
  local_only_ready, local_only_status, issuer_ready, recover_locally, oidc_status, save_status,
  is_200, well_known_url, verify_issuer, finish_oidc,
}

-- The condition of a type in a list.
unfoldable pub condition_of : String → List Condition → Option Condition
condition_of type [] = none
condition_of type (c ∷ cs) = if c.type == type then some c else condition_of type cs

abbrev pub status_in : Option Condition → String
status_in none = ""
status_in (some c) = c.status

-- The status of the condition of a type, "" where there is none.
unfoldable pub status_of : String → List Condition → String
status_of type cs = status_in (condition_of type cs)

abbrev pub truth : Bool → String
truth true = "True"
truth false = "False"

abbrev pub HasNoMethod : AuthConfigStatus → AuthConfig → String → Type 0
HasNoMethod status cfg verdict =
    (status_of "Ready" status.conditions ≡ verdict)
    × (status_of "LocalAuthReady" status.conditions ≡ "")
    × (status_of "OIDCReady" status.conditions ≡ "")
    × (status.enabled ≡ cfg.spec.enabled)
    × (status.issuer_reachable ≡ false)
    × (status.last_verified ≡ none)

module _ {S : Type 0} (api : AuthClient S)
    -- meta.SetStatusCondition sets the status of the condition's type and leaves the others.
    (set : (cs : List Condition) (c : Condition) (type : String)
      → status_of type (api.set_condition cs c)
        ≡ (if c.type == type then c.status else status_of type cs))
    -- meta.RemoveStatusCondition removes the conditions of the type and leaves the others.
    (removed : (cs : List Condition) (dropped type : String)
      → status_of type (api.remove_condition cs dropped)
        ≡ (if dropped == type then "" else status_of type cs)) where
  -- The two kinds of condition that the methods set, and what they set it to.
  local_condition-says :
      (cfg : AuthConfig) (local : Result (Unit {0}))
      → ((local_condition api cfg local).type ≡ "LocalAuthReady")
        × ((local_condition api cfg local).status ≡ truth (has_local_auth cfg && is_ok local))
  unfolding local_condition
  local_condition-says cfg (ok t) = (ground arith, ground arith)
  local_condition-says cfg (err e) = (ground arith, ground arith)

  oidc_condition-says :
      (cfg : AuthConfig) (reachable : Bool)
      → ((oidc_condition api cfg reachable).type ≡ "OIDCReady")
        × ((oidc_condition api cfg reachable).status ≡ truth (has_oidc cfg && reachable))
  unfolding oidc_condition
  oidc_condition-says cfg reachable = (ground arith, ground arith)

  methods_say :
      (cfg : AuthConfig) (local : Result (Unit {0})) (reachable : Bool) (cs : List Condition)
      → let after = method_conditions api cfg local reachable cs in
        (status_of "LocalAuthReady" after ≡ truth (has_local_auth cfg && is_ok local))
        × (status_of "OIDCReady" after ≡ truth (has_oidc cfg && reachable))
        × (status_of "Ready" after ≡ status_of "Ready" cs)
  unfolding method_conditions
  methods_say cfg local reachable cs =
      let (lt, ls) = local_condition-says cfg local in
      let (ot, os) = oidc_condition-says cfg reachable in
      (rw (set, set, lt, ot) ls, rw (set, ot) os, rw (set, set, lt, ot) refl)

  recovered :
      (cfg : AuthConfig) (local : Result (Unit {0})) (reachable : Bool) (now : ℕ)
      → status_of "Ready" (
          recover_locally api cfg local reachable
            (api.set_condition cfg.status.conditions (issuer_ready api cfg reachable now)))
        ≡ truth (reachable || (has_local_auth cfg && is_ok local))
  unfolding recover_locally issuer_ready
  recovered cfg (ok t) true now = rw set refl
  recovered cfg (err e) true now = rw set refl
  recovered cfg (ok t) false now = on (has_local_auth cfg)
    where
      on :
          (b : Bool)
          → status_of "Ready" (
              if b && true
              then api.set_condition
                  (api.set_condition cfg.status.conditions (issuer_ready api cfg false now))
                  (condition "Ready" "True" cfg.generation 0 "LocalRecoveryAvailable"
                    "OIDC is unavailable; local recovery administrator is usable")
              else api.set_condition cfg.status.conditions (issuer_ready api cfg false now))
            ≡ truth (b && true)
      on true = rw set refl
      on false = rw set refl
  recovered cfg (err e) false now =
      ground (arith, set cfg.status.conditions (issuer_ready api cfg false now) "Ready")

  only_local :
      (cfg : AuthConfig) (local : Result (Unit {0})) (now : ℕ)
      → status_of "Ready" (api.set_condition cfg.status.conditions (local_only_ready api local now))
        ≡ truth (is_ok local)
  unfolding local_only_ready
  only_local cfg (ok t) now = rw set refl
  only_local cfg (err e) now = rw set refl

  clear :
      (cfg : AuthConfig) (text reason : String) (now : ℕ) (verdict : Bool)
      → let cs =
          (cleared_status api cfg
            (condition "Ready" (truth verdict) 0 now reason text)).conditions in
        (status_of "Ready" cs ≡ truth verdict)
        × (status_of "LocalAuthReady" cs ≡ "")
        × (status_of "OIDCReady" cs ≡ "")
  unfolding cleared_status
  clear cfg text reason now verdict =
      (rw set refl, rw (set, removed, removed) refl, rw (set, removed) refl)

  -- With an issuer configured, the status says of each method whether it works: OIDC whether the issuer was
  -- reached, local sign-in whether it is enabled and the bootstrap succeeded, and as a whole ready
  -- exactly where at least one of them works. So an outage of the issuer does not hide a usable
  -- local administrator. The other fields record the switch, the answer and the time.
  pub oidc_verdict :
      (cfg : AuthConfig) (local : Result (Unit {0})) (reachable : Bool) (now : ℕ)
      → has_oidc cfg ≡ true
      → let status = oidc_status api cfg local reachable now in
        let works = has_local_auth cfg && is_ok local in
        (status_of "OIDCReady" status.conditions ≡ truth reachable)
        × (status_of "LocalAuthReady" status.conditions ≡ truth works)
        × (status_of "Ready" status.conditions ≡ truth (reachable || works))
        × (status.issuer_reachable ≡ reachable)
        × (status.last_verified ≡ some now)
        × (status.enabled ≡ cfg.spec.enabled)
  unfolding oidc_status recover_locally issuer_ready
  oidc_verdict cfg local reachable now h =
      let (l, o, r) = methods_say cfg local reachable (
        recover_locally api cfg local reachable
          (api.set_condition cfg.status.conditions (issuer_ready api cfg reachable now))) in
      (ground (arith, o), l, r ∙ recovered cfg local reachable now, refl, refl, refl)

  -- Without an issuer the verdict is that of the bootstrap: ready exactly where it succeeded.
  pub local_only_verdict :
      (cfg : AuthConfig) (local : Result (Unit {0})) (now : ℕ)
      → has_oidc cfg ≡ false
      → has_local_auth cfg ≡ true
      → let status = local_only_status api cfg local now in
        (status_of "Ready" status.conditions ≡ truth (is_ok local))
        × (status_of "LocalAuthReady" status.conditions ≡ truth (is_ok local))
        × (status_of "OIDCReady" status.conditions ≡ "False")
        × (status.issuer_reachable ≡ false)
        × (status.last_verified ≡ none)
  unfolding local_only_status local_only_ready
  local_only_verdict cfg local now h k =
      let (l, o, r) =
        methods_say cfg local false
          (api.set_condition cfg.status.conditions (local_only_ready api local now)) in
      (r ∙ only_local cfg local now, ground (arith, l), ground (arith, o), refl, refl)

  -- Where authentication is off, the conditions of the methods are removed and the AuthConfig is
  -- ready; where it is on without a method, they are removed and the AuthConfig is not ready. No
  -- issuer is recorded as reached or verified.
  pub cleared_verdict :
      (cfg : AuthConfig) (now : ℕ)
      → HasNoMethod (disabled_status api cfg now) cfg "True"
        × HasNoMethod (missing_status api cfg now) cfg "False"
  unfolding missing_status disabled_status cleared_status
  cleared_verdict cfg now =
      let (a, b, c) = clear cfg "Authentication is disabled" "Disabled" now true in
      let (d, e, f) =
        clear cfg "Either OIDC or localAuth must be configured when auth is enabled"
          "MissingAuthMethod" now false in
      ((a, b, c, refl, refl, refl), (d, e, f, refl, refl, refl))

module _ {S : Type 0} (api : AuthClient S) where
  -- A reconcile with an issuer records what the answer of this run makes of the status: where
  -- that differs from the status as it was read, by one status update and nothing else, and where
  -- it is the same, by no call at all. Unless the update fails it is run again in 300 seconds.
  pub status_written_only_if_changed :
      (cfg : AuthConfig) (local : Result (Unit {0})) (w : World S Call)
      → let answer = api.http_get (well_known_url api (issuer_url cfg)) w.server in
        let status = oidc_status api cfg local (is_200 api answer.0) (api.now answer.1).0 in
        let done = finish_oidc api cfg local w in
        (done.1.calls ≡ (
          if same_status cfg.status status
          then w.calls
          else update_status (set_auth_status cfg status) ∷ w.calls))
        × ((done.0 ≡ ok 300) ⊎ (is_ok done.0 ≡ false))
  unfolding finish_oidc verify_issuer save_status ◌>>=◌
  status_written_only_if_changed cfg local w = (ground arith, ground arith)
