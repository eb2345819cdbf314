-- ===== src/Workspace/Bootstrap.antt =====
-- vm_management_bootstrap.go: the Secret with the credential of the management plane.
use controller.Base.{
  ℕ, ℤ, pos, ltb_int, eq_int, to_uint64, ◌+◌, ◌-◌, ◌*◌, ◌%◌, String, ◌<>◌, Bool, true, false, ◌&&◌,
  ◌||◌, flip, Option, none, some, [], ◌∷◌, length, any, at_key, has_key, leb, nat_eq, ◌==◌, ◌/=◌,
  if◌then◌else◌,
}
use controller.Base.Effects.{
  Result, ok, err, fault, is_not_found, pure, attempt, lift, fail_if, ◌>>=◌, ◌>>◌, reads, observes,
  writes,
}
use controller.Api.Meta.{Secret, new_meta}
use controller.Api.Workspace.{Workspace, ManagementExecutionStatus}
use controller.Workspace.Client.{
  WorkspaceClient, Run, Vm, Document, create_secret, annotation_reset, annotation_stopped,
  windows_reboot_annotation, windows_detaching_generation, workspace_type_of, workspace_type_vm,
  or_fault,
}
use controller.Workspace.Execution.{management_vm_current, requested_execution_epoch}

abbrev pub management_bootstrap_label : String
management_bootstrap_label = "kubeworkspaces.io/management-bootstrap"

-- 15 minutes in nanoseconds.
abbrev pub management_bootstrap_lifetime : ℕ
management_bootstrap_lifetime = 900 * 1000000000

unfoldable pub management_lifecycle_pending : Workspace → Bool
management_lifecycle_pending ws = any (has_key ws.annotations) (
    annotation_reset ∷ annotation_stopped ∷ windows_reboot_annotation ∷ windows_detaching_generation
    ∷ [])

abbrev pub is_set : Option Bool → Bool
is_set none = false
is_set (some b) = b

-- `!t.IsZero() && !t.After(limit)`
abbrev pub expires_by : Option ℕ → ℕ → Bool
expires_by none limit = false
expires_by (some t) limit = leb t limit

-- The epoch that a credential is made for: the status has it for this very machine, and it
-- answers every request.
unfoldable pub is_epoch_answered : Workspace → Vm → Option ManagementExecutionStatus → Bool
is_epoch_answered ws vm none = false
is_epoch_answered ws vm (some state) = elim (requested_execution_epoch ws) [
  | err e ↦ false
  | ok requested ↦
      state.vm_uid == vm.uid
      && flip (ltb_int state.revocation_epoch (pos 0))
      && flip (ltb_int state.revocation_epoch requested)
]

abbrev pub epoch_of : Option ManagementExecutionStatus → ℤ
epoch_of none = pos 0
epoch_of (some state) = state.revocation_epoch

module _ {S : Type 0} (api : WorkspaceClient S) where
  unfoldable pub management_bootstrap_secret_name : String → String → ℤ → String
  management_bootstrap_secret_name workspace_uid vm_uid epoch =
      let identity = (workspace_uid <> "/") <> vm_uid in
      "kw-mgmt-"
      <> api.sha256_16
          (if eq_int epoch (pos 0) then identity else (identity <> "/") <> api.format_int epoch)

  -- The token is the one text of 32 bytes.
  unfoldable pub is_token : String → Bool
  is_token token = elim (api.decode_base64 token) [
    | none ↦ false
    | some nonce ↦ nat_eq (api.byte_length nonce) 32 && api.encode_base64 nonce == token
  ]

  unfoldable pub document_matches :
      Document → Workspace → Vm → Option ManagementExecutionStatus → ℕ → Bool
  document_matches doc ws vm none now = false
  document_matches doc ws vm (some state) now =
      state.vm_uid == vm.uid
      && flip (ltb_int state.revocation_epoch (pos 0))
      && is_token doc.token
      && nat_eq doc.version 1
      && doc.namespace == ws.namespace
      && doc.workspace_name == ws.name
      && doc.workspace_uid == ws.uid
      && doc.generation == vm.uid
      && nat_eq doc.revocation_epoch (to_uint64 state.revocation_epoch)
      && expires_by doc.expires_at (now + management_bootstrap_lifetime)

  unfoldable pub is_managed_secret : Secret → Workspace → Vm → Bool
  is_managed_secret secret ws vm =
      secret.type == "Opaque"
      && is_set secret.immutable
      && nat_eq (length secret.owner_references) 0
      && flip secret.deleting
      && nat_eq (length secret.content) 1
      && at_key secret.labels management_bootstrap_label == "v1"
      && at_key secret.labels "kubeworkspaces.io/workspace-uid" == ws.uid
      && at_key secret.labels "kubeworkspaces.io/virtualmachine-uid" == vm.uid
      && at_key secret.annotations "kubeworkspaces.io/workspace-namespace" == ws.namespace
      && at_key secret.annotations "kubeworkspaces.io/workspace-name" == ws.name

  abbrev pub decoded_matches : Option Document → Workspace → Vm → ℕ → Bool
  decoded_matches none ws vm now = false
  decoded_matches (some doc) ws vm now =
      document_matches doc ws vm ws.status.management_execution now

  unfoldable pub management_bootstrap_matches : Secret → Workspace → Vm → ℕ → Bool
  management_bootstrap_matches secret ws vm now =
      let raw = at_key secret.content "bootstrap.json" in
      is_managed_secret secret ws vm
      && raw /= ""
      && leb (api.byte_length raw) 4096
      && decoded_matches (api.decode_document raw) ws vm now

  unfoldable pub new_document : Workspace → Vm → ℤ → String → ℕ → Document
  new_document ws vm epoch nonce now = record {
    version = 1;
    token = api.encode_base64 nonce;
    namespace = ws.namespace;
    workspace_name = ws.name;
    workspace_uid = ws.uid;
    generation = vm.uid;
    revocation_epoch = to_uint64 epoch;
    expires_at = some ((now - now % 1000) + management_bootstrap_lifetime);
  }

  unfoldable pub bootstrap_secret : Workspace → Vm → String → String → Secret
  bootstrap_secret ws vm name raw = record {
    meta = record (new_meta name api.management_namespace) {
      labels =
          (management_bootstrap_label, "v1")
          ∷ ("kubeworkspaces.io/workspace-uid", ws.uid)
          ∷ ("kubeworkspaces.io/virtualmachine-uid", vm.uid)
          ∷ [];
      annotations =
          ("kubeworkspaces.io/workspace-namespace", ws.namespace)
          ∷ ("kubeworkspaces.io/workspace-name", ws.name)
          ∷ [];
    };
    type = "Opaque";
    immutable = some true;
    content = ("bootstrap.json", raw) ∷ [];
  }

  abbrev pub found_or_fault : String → Result Secret → Result (Option Secret)
  found_or_fault text (ok secret) = ok (some secret)
  found_or_fault text (err e) = if is_not_found e then ok none else err (fault text)

  unfoldable pub issue_bootstrap : Workspace → Vm → String → ℤ → Option Secret → Run S (Unit {0})
  issue_bootstrap ws vm name epoch (some secret) = do
    now ← observes api.now
    fail_if (flip (management_bootstrap_matches secret ws vm now))
        (fault "management bootstrap Secret identity conflicts")
  issue_bootstrap ws vm name epoch none = do
    drawn ← attempt (reads api.random_nonce)
    nonce ← lift (or_fault "management bootstrap entropy unavailable" drawn)
    now ← observes api.now
    raw ← lift (
        or_fault "management bootstrap encoding failed"
          (api.encode_document (new_document ws vm epoch nonce now)))
    stored ← attempt (
        writes (create_secret (bootstrap_secret ws vm name raw))
          (api.secret_create (bootstrap_secret ws vm name raw)))
    lift (or_fault "management bootstrap Secret creation failed" stored)

  unfoldable pub is_bootstrap_current : Workspace → Workspace → Bool
  is_bootstrap_current instance ws =
      ws.uid /= ""
      && ws.uid == instance.uid
      && flip ws.deleting
      && workspace_type_of ws == workspace_type_vm
      && flip (management_lifecycle_pending ws)

  unfoldable pub bootstrap_management : Workspace → Vm → Run S (Unit {0})
  bootstrap_management instance observed = do
    answer ← attempt (reads (api.live_workspace instance.name instance.namespace))
    ws ← lift (or_fault "management bootstrap workspace lookup failed" answer)
    fail_if (flip (is_bootstrap_current instance ws))
        (fault "management bootstrap workspace identity is not current")
    machine ← attempt (reads (api.live_vm instance.name instance.namespace))
    vm ← lift (or_fault "management bootstrap VM lookup failed" machine)
    fail_if (flip (management_vm_current api ws vm observed))
        (fault "management bootstrap VM identity is not current")
    fail_if (flip (is_epoch_answered ws vm ws.status.management_execution))
        (fault "management bootstrap execution epoch is not current")
    let epoch = epoch_of ws.status.management_execution
    let name = management_bootstrap_secret_name ws.uid vm.uid epoch
    held ← attempt (reads (api.live_secret name api.management_namespace))
    found ← lift (found_or_fault "management bootstrap Secret lookup failed" held)
    issue_bootstrap ws vm name epoch found

  unfoldable pub reconcile_management_bootstrap : Workspace → Vm → Run S (Unit {0})
  reconcile_management_bootstrap instance observed =
      if api.management_namespace == "" then pure tt else do
        fail_if
            (flip (api.is_dns1123_label api.management_namespace)
              || api.management_namespace == instance.namespace)
            (fault "management bootstrap requires a separate protected namespace")
        bootstrap_management instance observed
