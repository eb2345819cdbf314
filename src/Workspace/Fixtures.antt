-- ===== src/Workspace/Fixtures.antt =====
-- A small cluster, on which the theorems on the Workspace controller are applied.
use controller.Base.{ℕ, pos, String, true, none, some, [], ◌∷◌, Map}
use controller.Base.Effects.{Error, Result, ok, err, api, not_found, World}
use controller.Api.Meta.{OwnerReference, new_meta}
use controller.Api.Workspace.{Workspace, WorkspaceCondition, ContainerInitSpec, Container}
use controller.Workspace.Client.{WorkspaceClient, Call, Vm}

abbrev pub editor : Container
editor = record {
  name = "editor";
  image = "ghcr.io/kube-workspaces/editor:1";
  image_pull_policy = "";
  command = [];
  args = [];
  ports = [];
  volume_mounts = [];
  requests = [];
  limits = [];
  termination_message_path = "";
  termination_message_policy = "";
  security_context = none;
  other = "";
}

abbrev pub condition : String → WorkspaceCondition
condition type = record {
  type = type;
  status = "True";
  last_probe_time = none;
  last_transition_time = some 1;
  reason = "";
  message = "";
}

abbrev pub init : ContainerInitSpec
init = record {
  mode = "baked-in";
  default_user = "";
  run_as_user = "";
  user_data = "#cloud-config";
  user_data_secret_ref = none;
}

-- A vm workspace with these annotations, whose request is the epoch `n`.
abbrev pub workspace : Map → ℕ → Workspace
workspace annotations n = record {
  meta = record (new_meta "dev" "ann") { uid = "w1"; annotations = annotations };
  spec = record {
    container_init = some init;
    execution_revocation_epoch = pos n;
    vm_profile = none;
    type = "vm";
    template = record {
      volumes = [];
      init_containers = [];
      containers = editor ∷ [];
      node_selector = [];
      other = "";
    };
  };
  status = record {
    management_execution = some (record { vm_uid = "v1"; revocation_epoch = pos 4 });
    conditions = condition "Ready" ∷ condition "Initialized" ∷ [];
    ready_replicas = 0;
    container_state = record { waiting = none; running = none; terminated = none };
  };
}

abbrev pub machine : Vm
machine = record { meta = record (new_meta "dev" "ann") { uid = "v1" }; running = some true }

abbrev pub owner : OwnerReference
owner = record {
  api_version = "kubeworkspaces.io/v1alpha1";
  kind = "Workspace";
  name = "dev";
  uid = "w1";
  controller = true;
}

abbrev pub no_object : Error
no_object = api not_found "not found"

-- The server has one workspace, and the machine as given.
abbrev pub cluster : Workspace → Result Vm → WorkspaceClient (Unit {0})
cluster ws vm = record {
  get_workspace = λ name namespace s. (ok ws, s);
  live_workspace = λ name namespace s. (ok ws, s);
  workspace_update = λ u s. (ok u, s);
  status_update = λ u s. (ok u, s);
  get_vm = λ name namespace s. (vm, s);
  live_vm = λ name namespace s. (vm, s);
  vm_update = λ v s. (ok tt, s);
  vm_delete = λ v s. (ok tt, s);
  get_vmi = λ name namespace s. (err no_object, s);
  get_secret = λ name namespace s. (err no_object, s);
  live_secret = λ name namespace s. (err no_object, s);
  secret_create = λ x s. (ok tt, s);
  secret_update = λ x s. (ok tt, s);
  secret_delete = λ x s. (ok tt, s);
  get_workload = λ kind name namespace s. (err no_object, s);
  workload_create = λ kind x s. (ok x, s);
  workload_update = λ kind x s. (ok x, s);
  get_service = λ name namespace s. (err no_object, s);
  service_create = λ x s. (ok tt, s);
  service_update = λ x s. (ok tt, s);
  get_pod = λ name namespace s. (err no_object, s);
  list_pods = λ namespace label value s. (ok [], s);
  list_images = λ s. (ok [], s);
  now = λ s. (0, s);
  random_nonce = λ s. (ok "nonce", s);
  new_uuid = λ s. ("uuid", s);
  retry_on_conflict = λ m. m;
  management_namespace = "kw-management";
  container_init_image = "";
  is_controlled_by = λ object by. true;
  controller_of = λ object. some owner;
  set_controller = λ by object. ok (record object { owner_references = owner ∷ [] });
  sha256 = λ s. s;
  sha256_6 = λ s. s;
  sha256_8 = λ s. s;
  sha256_16 = λ s. s;
  byte_length = λ s. 32;
  format_int = λ n. "n";
  encode_base64 = λ s. s;
  decode_base64 = λ s. some s;
  encode_document = λ d. ok d.token;
  decode_document = λ s. none;
  is_dns1123_label = λ s. true;
  encode_template = λ t. "template";
  derives = λ a b. true;
  is_account_name = λ s. true;
  is_failure_step = λ s. true;
  trim_space = λ s. s;
  decode_diagnostic = λ s. none;
}

abbrev pub start : World (Unit {0}) Call
start = record { server = tt; calls = [] }

abbrev pub dev : Workspace
dev = workspace [] 6

abbrev pub client : WorkspaceClient (Unit {0})
client = cluster dev (ok machine)

abbrev pub gone : WorkspaceClient (Unit {0})
gone = cluster dev (err no_object)
