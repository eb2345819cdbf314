-- ===== src/Workspace/Credentials.antt =====
-- The credential of the management plane: when it is made, and what is accepted.
use controller.Base.{
  ℕ, ℤ, ◌≤◌, String, true, false, ◌≡◌, ◌≢◌, refl, Option, none, some, [], All, length, lookup, ◌==◌,
  arith, eq_iff, eq_refl,
}
use controller.Base.Effects.{ok, World, is_ok, ◌>>=◌}
use controller.Base.Safety.{Only, only_rules, Only-guard, Only-if}
use controller.Api.Meta.{Secret}
use controller.Api.Workspace.{Workspace, ManagementExecutionStatus}
use controller.Workspace.Client.{WorkspaceClient, Call, Vm, Document, create_secret}
use controller.Workspace.Bootstrap.{
  is_epoch_answered, is_token, document_matches, is_managed_secret, management_bootstrap_matches,
  new_document, bootstrap_secret, issue_bootstrap, is_bootstrap_current, bootstrap_management,
  reconcile_management_bootstrap,
}

module _ {S : Type 0} (api : WorkspaceClient S) where
  -- The one call that the management bootstrap may make.
  abbrev pub IsCredential : Workspace → Call → Type 0
  IsCredential instance (create_secret s) =
      (s.namespace ≡ api.management_namespace)
      × (s.namespace ≢ instance.namespace)
      × (s.namespace ≢ "")
      × (s.immutable ≡ some true)
      × (s.type ≡ "Opaque")
      × (s.owner_references ≡ [])
      × (length s.content ≡ 1)
  IsCredential instance _ = ⊥

  module _ (instance : Workspace) (apart : (api.management_namespace == instance.namespace) ≡ false)
      (set : (api.management_namespace == "") ≡ false) where
    secret-IsCredential :
        (ws : Workspace) (vm : Vm) (name raw : String)
        → IsCredential instance (create_secret (bootstrap_secret api ws vm name raw))
    unfolding bootstrap_secret
    secret-IsCredential ws vm name raw = (
      refl,
      ground (arith, eq_iff api.management_namespace instance.namespace),
      ground (arith, eq_iff api.management_namespace ""),
      refl,
      refl,
      refl,
      refl,
    )

    issue-Only :
        (ws : Workspace) (vm : Vm) (name : String) (epoch : ℤ) (found : Option Secret)
        → Only (IsCredential instance) (issue_bootstrap api ws vm name epoch found)
    unfolding issue_bootstrap
    issue-Only ws vm name epoch none = search (only_rules, secret-IsCredential) depth 16
    issue-Only ws vm name epoch (some s) = search only_rules depth 9

    management-Only :
        (observed : Vm) → Only (IsCredential instance) (bootstrap_management api instance observed)
    unfolding bootstrap_management
    management-Only observed = search (only_rules, issue-Only) depth 20

  bootstrap-Only :
      (instance : Workspace) (observed : Vm)
      → Only (IsCredential instance) (reconcile_management_bootstrap api instance observed)
  unfolding reconcile_management_bootstrap
  bootstrap-Only instance observed =
      Only-if (api.management_namespace == "") _ _ (λ _. search only_rules)
        (λ set. Only-guard _ _ _ (λ passed. management-Only instance (ground arith) set observed))

  -- The management bootstrap writes nothing but new Secrets that are immutable, owned by nobody and
  -- of one key, in the configured namespace, which is not that of the workspace, whatever the cluster answers.
  pub credentials_stay_apart :
      (instance : Workspace) (observed : Vm) (w : World S Call)
      → w.calls ≡ []
      → All (IsCredential instance) (reconcile_management_bootstrap api instance observed w).1.calls
  credentials_stay_apart instance observed w fresh =
      (bootstrap-Only instance observed).at w (rw fresh tt)

  -- A Secret that is there already is never written again, expired or not: the outcome is whether
  -- it is the credential of this workspace, machine and epoch at this time.
  pub existing_credential_is_kept :
      (ws : Workspace) (vm : Vm) (name : String) (epoch : ℤ) (secret : Secret) (w : World S Call)
      → let done = issue_bootstrap api ws vm name epoch (some secret) w in
        (done.1.calls ≡ w.calls)
        × (is_ok done.0 ≡ management_bootstrap_matches api secret ws vm (api.now w.server).0)
  unfolding issue_bootstrap ◌>>=◌
  existing_credential_is_kept ws vm name epoch secret w = ground arith

  -- A workspace with a pending reset, stop, reboot or detach, of another type than
  -- vm, being deleted, or no longer the one observed, is given no credential: the call fails and writes nothing.
  pub pending_workspace_gets_no_credential :
      (instance ws : Workspace) (observed : Vm) (w : World S Call)
      → (api.live_workspace instance.name instance.namespace w.server).0 ≡ ok ws
      → is_bootstrap_current api instance ws ≡ false
      → (is_ok (bootstrap_management api instance observed w).0 ≡ false)
        × ((bootstrap_management api instance observed w).1.calls ≡ w.calls)
  unfolding bootstrap_management ◌>>=◌
  pending_workspace_gets_no_credential instance ws observed w read stale = ground (arith, read)

module _ {S : Type 0} (api : WorkspaceClient S)
    -- what encoding/json and encoding/base64 read is what they have written
    (json : (d : Document) (raw : String)
      → api.encode_document d ≡ ok raw
      → api.decode_document raw ≡ some d)
    (base64 : (nonce : String) → api.decode_base64 (api.encode_base64 nonce) ≡ some nonce) where
  token :
      (nonce : String) → api.byte_length nonce ≡ 32 → is_token api (api.encode_base64 nonce) ≡ true
  unfolding is_token
  token nonce long = ground (arith, base64 nonce, long, eq_refl (api.encode_base64 nonce))

  document :
      (ws : Workspace) (vm : Vm) (state : ManagementExecutionStatus) (nonce : String) (made now : ℕ)
      → is_epoch_answered ws vm (some state) ≡ true
      → api.byte_length nonce ≡ 32
      → made ≤ now
      → document_matches api
          (new_document api ws vm state.revocation_epoch nonce made)
          ws
          vm
          (some state)
          now
        ≡ true
  unfolding document_matches new_document is_epoch_answered
  document ws vm state nonce made now answered long since = ground (
    arith,
    token nonce long,
    eq_refl ws.uid,
    eq_refl vm.uid,
    eq_refl ws.namespace,
    eq_refl ws.name,
  )

  -- A credential that is made for a workspace is accepted on every later reconcile, until
  -- the workspace, the machine or the epoch changes: its document matches the state it was made
  -- for, and stays within the lifetime that is allowed from any later time.
  pub issued_credential_is_accepted :
      (ws : Workspace) (vm : Vm) (state : ManagementExecutionStatus) (name nonce raw : String)
      (made now : ℕ)
      → ws.status.management_execution ≡ some state
      → is_epoch_answered ws vm (some state) ≡ true
      → api.byte_length nonce ≡ 32
      → api.encode_document (new_document api ws vm state.revocation_epoch nonce made) ≡ ok raw
      → raw ≢ ""
      → api.byte_length raw ≤ 4096
      → made ≤ now
      → management_bootstrap_matches api (bootstrap_secret api ws vm name raw) ws vm now ≡ true
  unfolding management_bootstrap_matches bootstrap_secret is_managed_secret lookup
  issued_credential_is_accepted ws vm state name nonce raw made now held answered long encoded
        filled short since =
      rw (json (new_document api ws vm state.revocation_epoch nonce made) raw encoded, held)
        (ground (
          arith,
          eq_refl ws.uid,
          eq_refl vm.uid,
          eq_refl ws.namespace,
          eq_refl ws.name,
          eq_iff raw "",
          document ws vm state nonce made now,
        ))
