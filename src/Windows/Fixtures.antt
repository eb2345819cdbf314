-- ===== src/Windows/Fixtures.antt =====
-- A small cluster with a Windows guest, on which the theorems are applied.
use controller.Base.{◌<>◌, pos, true, false, none, some, [], ◌∷◌, Map}
use controller.Base.Effects.{ok, err}
use controller.Api.Meta.{Secret, new_meta}
use controller.Api.Workspace.{Workspace, ResolvedVmProfile, VmGpuProfile}
use controller.Workspace.Client.{WorkspaceClient, Pod, Vmi}
use controller.Api.Image.{Image}
use controller.Workspace.Fixtures.{editor, machine, no_object, cluster, workspace}
use controller.Windows.Client.{WindowsClient, GuestAgent}
use controller.Windows.Lifecycle.{mark_provisioned, clear_detaching}

abbrev pub profile : ResolvedVmProfile
profile = record {
  gpu = none;
  id = "windows11-amd64-v1";
  image = "registry/windows@sha256:0";
  generation = "g1";
  root_disk_size = "80Gi";
  cpu_cores = pos 4;
  guest_memory = "8Gi";
  import_secret_name = "";
  import_cert_config_map_name = "";
  storage_class_name = "";
}

abbrev pub guest : Map → Workspace
guest annotations = record {
  meta = (workspace annotations 4).meta;
  spec = record (workspace annotations 4).spec { vm_profile = some profile };
  status = (workspace annotations 4).status;
}

abbrev pub agent : GuestAgent (Unit {0})
agent = record {
  complete_bootstrap = λ namespace pod vm hostname s. (ok true, s);
  stage_enrollment = λ namespace pod vm token s. (ok tt, s);
}

abbrev pub inventory : WindowsClient (Unit {0})
inventory = record {
  guest_agent = some agent;
  get_config_map = λ name namespace s. (err no_object, s);
  list_nodes = λ hostname s. (ok [], s);
  list_kubevirts = λ s. (ok [], s);
  list_data_volumes = λ namespace s. (ok tt, s);
  list_storage_classes = λ s. (ok [], s);
  get_storage_profile = λ name s. (ok [], s);
  get_gpu_profiles = λ s. (ok [], s);
  random_bytes = λ s. (ok (1 ∷ 2 ∷ []), s);
  sha256_bytes = λ s. 1 ∷ 2 ∷ 3 ∷ [];
  encode_hex = λ bytes. "00";
  encode_upper_hex = λ bytes. "00";
  encode_bytes = λ bytes. "secret";
  encode_token = λ t. ok t.token;
  escape_text = λ s. ok s;
  is_image_digest = λ s. true;
  parse_quantity = λ s. some (pos 0);
  quantity_value = λ s. pos 4;
  is_dns1123_subdomain = λ s. true;
  is_qualified_name = λ s. true;
  is_label_value = λ s. true;
  split_slash = λ s. s ∷ [];
}

abbrev pub first_secret : Secret
first_secret = record {
  meta = new_meta "dev-win-0" "ann";
  type = "Opaque";
  immutable = none;
  content = ("autounattend.xml", "<unattend/>") ∷ ("password", "secret") ∷ [];
}

abbrev pub instance_up : Vmi
instance_up = record {
  phase = "Running";
  active_pods = ("p1", "worker") ∷ [];
  conditions = ("AgentConnected", "True") ∷ [];
}

abbrev pub launcher : Pod
launcher = record {
  name = "virt-launcher-dev";
  uid = "p1";
  conditions = [];
  container_statuses = [];
  other = "";
}

-- The machine is off.
abbrev pub off : WorkspaceClient (Unit {0})
off = record (cluster (guest []) (ok machine)) {
  get_secret = λ name namespace s. (ok first_secret, s);
}

abbrev pub on : WorkspaceClient (Unit {0})
on = record off { get_vmi = λ name namespace s. (ok instance_up, s) }

-- A server counts the versions of what it keeps.
abbrev pub kept : Workspace → Workspace
kept ws = record {
  meta = record ws.meta { resource_version = ws.resource_version <> "1" };
  spec = ws.spec;
  status = ws.status;
}

abbrev pub counting : WorkspaceClient (Unit {0}) → WorkspaceClient (Unit {0})
counting api = record api { workspace_update = λ ws s. (ok (kept ws), s) }

-- The instance and the launcher after the restart.
abbrev pub instance_again : Vmi
instance_again = record {
  phase = "Running";
  active_pods = ("p2", "worker") ∷ [];
  conditions = ("AgentConnected", "True") ∷ [];
}

abbrev pub launcher_again : Pod
launcher_again = record {
  name = "virt-launcher-dev-2";
  uid = "p2";
  conditions = [];
  container_statuses = [];
  other = "";
}

abbrev pub on_again : WorkspaceClient (Unit {0})
on_again = record off { get_vmi = λ name namespace s. (ok instance_again, s) }

-- The workspace as it is kept after the first round and after the removal.
abbrev pub marked_guest : Workspace
marked_guest = kept (mark_provisioned (guest []))

abbrev pub cleared_guest : Workspace
cleared_guest = kept (clear_detaching marked_guest)

abbrev pub lost : WorkspaceClient (Unit {0})
lost = cluster (guest []) (ok machine)

abbrev pub settled : Workspace
settled = guest (("kubeworkspaces.io/windows-provisioned-generation", "g1") ∷ [])

abbrev pub gpu : VmGpuProfile
gpu = record {
  id = "a10-v1";
  display_name = "A10";
  resource_name = "nvidia.com/A10";
  kind = "pci";
  count = pos 1;
  node_selector = ("gpu", "a10") ∷ [];
  guest_driver_version = "1";
  experimental = false;
}

abbrev pub windows_image : Image
windows_image = record {
  meta = new_meta "windows" "";
  spec = record {
    image = "registry/windows@sha256:0";
    display_name = "Windows 11";
    description = "";
    category = "";
    tags = [];
    default_port = pos 0;
    default_path = "";
    icon = "";
    default_args = [];
    default_command = [];
    default_container_init = none;
    default_env = [];
    default_credentials = none;
    privileged = false;
    homepage_url = "";
    source_url = "";
    image_homepage_url = "";
    default_user = "";
    default_password = "";
    default_cloud_init = false;
    default_user_data = "";
    default_homedir = "";
    default_shell = "";
    links = [];
    proxy_config = none;
    default_uid = none;
    default_init_containers = [];
    additional_ports = [];
    default_shared_memory = false;
    default_image_pull_policy = "";
    workspace_types = "vm" ∷ [];
    vm_profile = "windows11-amd64-v1";
    persistent_root_disk = true;
    persistent_root_disk_size = "";
    memory_limit = "";
    memory_request = "";
    video_device = "";
    sound_device = "";
    remote_desktop = none;
  };
  status = record { conditions = [] };
}

-- A vm workspace of that image, without a profile.
abbrev pub plain : Workspace
plain = record {
  meta = (workspace [] 4).meta;
  spec = record (workspace [] 4).spec {
    template = record (workspace [] 4).spec.template {
      containers = record editor { image = "registry/windows@sha256:0" } ∷ [];
    };
  };
  status = (workspace [] 4).status;
}

-- Every quantity is 100 GiB.
abbrev pub large : WindowsClient (Unit {0})
large = record inventory { parse_quantity = λ s. some (pos 107374182400000000000) }

abbrev pub unmade : WorkspaceClient (Unit {0})
unmade = cluster plain (err no_object)
