-- ===== src/Workspace/Tests.antt =====
-- The theorems on the Workspace controller, applied on the small cluster.
use native.Mathlib.Decide.{ℕ_discrete}
use controller.Base.{
  pos, String, true, false, ◌≡◌, refl, inl, inr, none, some, [], ◌∷◌, All, differs, decided,
  decided→eq, eq→decided, String-discrete, Bool-cases, eq_iff, lookup, length, has_key, ◌==◌, arith,
  if◌then◌else◌,
}
use controller.Base.Effects.{ok, err, is_ok}
use controller.Api.Workspace.{Workspace}
use controller.Workspace.Client.{
  WorkspaceClient, Document, stateful_set, annotation_reset, windows_workspace,
}
use controller.Workspace.Execution.{requested_execution_epoch, management_vm_current, is_owner}
use controller.Workspace.Bootstrap.{
  is_epoch_answered, management_bootstrap_matches, new_document, bootstrap_secret,
  reconcile_management_bootstrap,
}
use controller.Workspace.Credentials.{
  IsCredential, credentials_stay_apart, issued_credential_is_accepted,
}
use controller.Workspace.Workloads.{workload_template}
use controller.Workspace.ContainerInit.{prepare_container_init}
use controller.Workspace.InitSafety.{IsOwnSecret, only_own_secrets_are_touched}
use controller.Workspace.Status.{update_workspace_status}
use controller.Workspace.Readiness.{Attempts, readiness_keeps_execution}
use controller.Workspace.Resources.{vm_domain_resources, container_resources}
use controller.Workspace.Memory.{missing_resources_panic}
use controller.Workspace.Reset.{handle_reset}
use controller.Workspace.Resets.{IsPermitted, reset_waits_for_machine}
use controller.Workspace.Fixtures.{cluster, workspace, machine, no_object, start, dev, client}

abbrev answered : Workspace
answered = workspace [] 4

-- The workspace has the epoch that it asks for, and is given a credential.
abbrev granted : WorkspaceClient (Unit {0})
granted = cluster answered (ok machine)

credentials_stay_apart_example :
    All
      (IsCredential granted answered)
      (reconcile_management_bootstrap granted answered machine start).1.calls
credentials_stay_apart_example = credentials_stay_apart granted answered machine start refl

-- That run creates a Secret.
credential_is_written :
    length (reconcile_management_bootstrap granted answered machine start).1.calls ≡ 1
unfolding reconcile_management_bootstrap controller.Base.Effects.◌>>=◌
    controller.Workspace.Bootstrap.bootstrap_management
    controller.Workspace.Bootstrap.is_bootstrap_current
    controller.Workspace.Client.workspace_type_of
    controller.Workspace.Bootstrap.management_lifecycle_pending lookup management_vm_current
    is_owner windows_workspace is_epoch_answered requested_execution_epoch
    controller.Workspace.Bootstrap.issue_bootstrap
credential_is_written = refl

-- The credential of the machine, made at the time 0.
abbrev document : Document
document = record {
  version = 1;
  token = "nonce";
  namespace = "ann";
  workspace_name = "dev";
  workspace_uid = "w1";
  generation = "v1";
  revocation_epoch = 4;
  expires_at = some 900000000000;
}

unfoldable Document-discrete : Discrete Document
Document-discrete = hlevel (String-discrete, ℕ_discrete)

-- A codec that knows the one document.
abbrev issuer : WorkspaceClient (Unit {0})
issuer = record client {
  encode_document =
      λ d. if decided (Document-discrete d document) then ok "document" else err no_object;
  decode_document = λ s. if s == "document" then some document else none;
}

codec :
    (d : Document) (raw : String)
    → issuer.encode_document d ≡ ok raw
    → issuer.decode_document raw ≡ some d
codec d raw h = elim (Bool-cases (decided (Document-discrete d document))) [
  | inl same ↦
      ground (arith, same, decided→eq (Document-discrete d document) same, eq_iff raw "document")
  | inr other ↦ absurd (ground (arith, other))
]

document_is_written : issuer.encode_document document ≡ ok "document"
document_is_written = ground (arith, eq→decided (Document-discrete document document) refl)

issued_credential_is_accepted_example :
    management_bootstrap_matches issuer
      (bootstrap_secret issuer answered machine "kw-mgmt-1" "document")
      answered
      machine
      60
    ≡ true
unfolding is_epoch_answered requested_execution_epoch new_document
issued_credential_is_accepted_example =
    issued_credential_is_accepted issuer codec (λ nonce. refl) answered machine
      (record { vm_uid = "v1"; revocation_epoch = pos 4 }) "kw-mgmt-1" "nonce" "document" 0 60 refl
      refl refl document_is_written (differs "document" "" refl) (ground arith) (ground arith)

abbrev resetting : Workspace
resetting = workspace ((annotation_reset, "now") ∷ []) 4

-- A workspace of type container with inline user data.
abbrev hosted : Workspace
hosted = record {
  meta = dev.meta;
  spec = record dev.spec { type = "container" };
  status = dev.status;
}

only_own_secrets_are_touched_example :
    All
      (IsOwnSecret client hosted)
      (prepare_container_init client hosted (workload_template stateful_set hosted) start).1.calls
only_own_secrets_are_touched_example =
    only_own_secrets_are_touched client hosted (workload_template stateful_set hosted) start refl

-- That run creates the Secret.
own_secret_is_written :
    length
      (prepare_container_init client hosted (workload_template stateful_set hosted) start).1.calls
    ≡ 1
unfolding prepare_container_init controller.Workspace.ContainerInit.prepare_with
    controller.Workspace.ContainerInit.initialize controller.Base.Effects.◌>>=◌
    controller.Workspace.ContainerInit.check_template
    controller.Workspace.ContainerInit.validate_container_init_identity
    controller.Workspace.ContainerInit.is_bad_account controller.Workspace.Client.workspace_type_of
    workload_template controller.Workspace.Workloads.ensure_port
    controller.Workspace.ContainerInit.container_init_data
    controller.Workspace.ContainerInit.store_data
own_secret_is_written = refl

readiness_keeps_execution_example :
    Attempts client dev start (update_workspace_status client dev 1 none start).1
readiness_keeps_execution_example =
    readiness_keeps_execution client (λ R m r t h w. h w) dev 1 none start

reset_waits_for_machine_example :
    All (IsPermitted client resetting machine) (handle_reset client resetting start).1.calls
reset_waits_for_machine_example = reset_waits_for_machine client resetting machine start refl refl

missing_resources_panic_example : is_ok (vm_domain_resources dev.spec.template none) ≡ false
unfolding container_resources
missing_resources_panic_example = missing_resources_panic dev.spec.template none
