-- ===== src/Windows/Credentials.antt =====
-- The first credentials of a guest: made once, never rotated, never made again once used.
use controller.Base.{
  String, true, false, ◌≡◌, refl, ◌==◌, ◌&&◌, flip, Option, none, some, [], All, All-none, at_key,
  arith, eq_iff,
}
use controller.Base.Effects.{
  Error, Result, ok, err, World, is_ok, is_not_found, missing_ok, find, reads, ◌>>=◌,
}
use controller.Base.Safety.{Only, only_rules, Only-bind-ok, Only-guard, fails-bind}
use controller.Api.Meta.{Secret}
use controller.Api.Workspace.{Workspace}
use controller.Workspace.Client.{WorkspaceClient, Call, update_secret}
use controller.Workspace.Reset.{windows_bootstrap_secret_name}
use controller.Windows.Client.{WindowsClient}
use controller.Windows.Names.{windows_enrollment_token}
use controller.Windows.Bootstrap.{
  is_provisioned, token_key, check_registry, check_certificates, with_token, backfill_token,
  keep_credentials, make_credentials, bootstrap_with, reconcile_windows_bootstrap,
}

module _ {S : Type 0} (api : WorkspaceClient S) (win : WindowsClient S) where
  -- The one write where the Secret is there: it gets a token that it does not have, before the guest
  -- is provisioned, and keeps everything else.
  abbrev pub IsBackfill : Workspace → Secret → Call → Type 0
  IsBackfill ws secret (update_secret s) =
      (at_key secret.content token_key ≡ "")
      × (is_provisioned ws ≡ false)
      × ((token : String) × (s ≡ with_token api win secret token))
  IsBackfill ws secret _ = ⊥

  token-Only :
      {P : Call → Type 0} (uid generation : String)
      → Only P (windows_enrollment_token api win uid generation)
  unfolding windows_enrollment_token
  token-Only uid generation = search only_rules depth 10

  module _ {P : Call → Type 0} where
    registry-silent : (ws : Workspace) (name : String) → Only P (check_registry api win ws name)
    unfolding check_registry
    registry-silent ws name = search only_rules depth 8

    certificates-silent :
        (ws : Workspace) (name : String) → Only P (check_certificates api win ws name)
    unfolding check_certificates
    certificates-silent ws name = search only_rules depth 8

  module _ (ws : Workspace) (secret : Secret) where
    filled-IsBackfill :
        (token : String)
        → (flip (is_provisioned ws) && at_key secret.content token_key == "") ≡ true
        → IsBackfill ws secret (update_secret (with_token api win secret token))
    filled-IsBackfill token h = (
      ground (arith, h, eq_iff (at_key secret.content token_key) ""),
      ground (arith, h),
      (token, refl),
    )

    backfill_token-Only :
        (flip (is_provisioned ws) && at_key secret.content token_key == "") ≡ true
        → Only (IsBackfill ws secret) (backfill_token api win ws secret)
    unfolding backfill_token
    backfill_token-Only h = search (only_rules, token-Only, filled-IsBackfill) depth 10

    keep-Only : Only (IsBackfill ws secret) (keep_credentials api win ws secret)
    unfolding keep_credentials
    keep-Only = search (only_rules, backfill_token-Only) depth 12

    found-Only :
        (held : Secret)
        → held ≡ secret
        → Only (IsBackfill ws secret) (bootstrap_with api win ws (some held))
    unfolding bootstrap_with
    found-Only held same = rw same keep-Only

    follow-Only :
        (a : Option Secret) (r : Result Secret)
        → r ≡ ok secret
        → missing_ok r ≡ ok a
        → Only (IsBackfill ws secret) (bootstrap_with api win ws a)
    follow-Only none r found h = absurd (ground (arith, found, h))
    follow-Only (some held) r found h = found-Only held (ground (arith, found, h))

    module _
        (held : (s : S)
          → (api.get_secret (windows_bootstrap_secret_name api ws) ws.namespace s).0
            ≡ ok secret) where
      read-Only : Only (IsBackfill ws secret) (
          find (reads (api.get_secret (windows_bootstrap_secret_name api ws) ws.namespace))
          >>= bootstrap_with api win ws)
      unfolding find reads
      read-Only = Only-bind-ok _ _ (search only_rules) (λ a w h. follow-Only a _ (held w.server) h)

      reconcile-Only : Only (IsBackfill ws secret) (reconcile_windows_bootstrap api win ws)
      unfolding reconcile_windows_bootstrap
      reconcile-Only = search (only_rules, registry-silent, certificates-silent, read-Only) depth 12

      -- While the Secret with the first credentials is there, nothing is written but a token that
      -- it lacks, before the guest is provisioned: the password, the answer file and all else stay as they are.
      pub credentials_never_rotate :
          (w : World S Call)
          → w.calls ≡ []
          → All (IsBackfill ws secret) (reconcile_windows_bootstrap api win ws w).1.calls
      credentials_never_rotate w new = reconcile-Only.at w (rw new tt)

  module _ (ws : Workspace) (reason : Error)
      (gone : (s : S)
        → (api.get_secret (windows_bootstrap_secret_name api ws) ws.namespace s).0 ≡ err reason)
      (missing : is_not_found reason ≡ true) (done : is_provisioned ws ≡ true) where
    refused-fails :
        (a : Option Secret) (v : World S Call)
        → missing_ok {A = Secret} (err reason) ≡ ok a
        → is_ok (bootstrap_with api win ws a v).0 ≡ false
    unfolding bootstrap_with make_credentials ◌>>=◌
    refused-fails none v h = ground (arith, done)
    refused-fails (some secret) v h = absurd (ground (arith, missing, h))

    refused-Only :
        (P : Call → Type 0) (a : Option Secret) (r : Result Secret)
        → r ≡ err reason
        → missing_ok r ≡ ok a
        → Only P (bootstrap_with api win ws a)
    unfolding bootstrap_with make_credentials
    refused-Only P none r e h = Only-guard _ _ _ (λ fresh. absurd (ground (arith, done, fresh)))
    refused-Only P (some secret) r e h = absurd (ground (arith, missing, e, h))

    lost-fails :
        (v : World S Call)
        → is_ok
            ((find (reads (api.get_secret (windows_bootstrap_secret_name api ws) ws.namespace))
                >>= bootstrap_with api win ws)
              v).0
          ≡ false
    unfolding find reads
    lost-fails v =
        fails-bind _ _ v (λ a u read. refused-fails a u (ground (arith, read, gone v.server)))

    lost-Only :
        (P : Call → Type 0)
        → Only P (
            find (reads (api.get_secret (windows_bootstrap_secret_name api ws) ws.namespace))
            >>= bootstrap_with api win ws)
    unfolding find reads
    lost-Only P =
        Only-bind-ok _ _ (search only_rules) (λ a w h. refused-Only P a _ (gone w.server) h)

    silent : Only (λ _. ⊥) (reconcile_windows_bootstrap api win ws)
    unfolding reconcile_windows_bootstrap
    silent = search (only_rules, registry-silent, certificates-silent, lost-Only) depth 12

    -- Where the Secret with the first credentials is gone although the guest is provisioned, whatever
    -- registry its profile imports from, the call fails and writes nothing: no credentials are made
    -- anew and no token is issued.
    pub lost_credentials_are_an_error :
        (w : World S Call)
        → w.calls ≡ []
        → (is_ok (reconcile_windows_bootstrap api win ws w).0 ≡ false)
          × ((reconcile_windows_bootstrap api win ws w).1.calls ≡ [])
    unfolding reconcile_windows_bootstrap
    lost_credentials_are_an_error w new = (
      fails-bind _ _ w (λ a v _. fails-bind _ _ v (λ b u _. lost-fails u)),
      All-none _ (silent.at w (rw new tt)),
    )
