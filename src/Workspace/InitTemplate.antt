-- ===== src/Workspace/InitTemplate.antt =====
-- container_init.go: what the injection of the init runner adds to the pod template.
use controller.Base.{
  ℕ, pos, String, ◌<>◌, Bool, true, false, ◌&&◌, ◌||◌, flip, some, List, [], ◌∷◌, ◌++◌, put, ltb,
  nat_eq, ◌==◌, ◌/=◌, if◌then◌else◌, has_prefix, has_suffix, contains_char, after_last,
}
use controller.Api.Workspace.{
  ContainerInitSpec, Container, Volume, VolumeMount, secret_source, empty_dir, PodTemplate,
}
use controller.Workspace.Client.{WorkspaceClient}

abbrev pub container_init_disabled : String
container_init_disabled = "disabled"

abbrev pub container_init_injected : String
container_init_injected = "injected"

abbrev pub container_init_baked_in : String
container_init_baked_in = "baked-in"

abbrev pub container_init_bin_volume : String
container_init_bin_volume = "kw-container-init-bin"

abbrev pub container_init_data_volume : String
container_init_data_volume = "kw-container-init-data"

abbrev pub container_init_installer : String
container_init_installer = "container-init-install"

abbrev pub container_init_bin_path : String
container_init_bin_path = "/opt/container-init"

abbrev pub container_init_data_path : String
container_init_data_path = "/run/container-init"

abbrev pub container_init_data_key : String
container_init_data_key = "user-data"

abbrev pub container_init_max_data : ℕ
container_init_max_data = 262144

abbrev pub container_init_hash : String
container_init_hash = "kubeworkspaces.io/container-init-data-hash"

unfoldable pub container_init_pull_policy : String → String
container_init_pull_policy image =
    let name = after_last b'/' image in
    if flip (contains_char b'@' image)
      && (has_suffix name ":latest" || flip (contains_char b':' name))
    then "Always"
    else "IfNotPresent"

-- A volume of a reserved name, an init container of the installer's name, a mount at a reserved path.
unfoldable pub is_reserved_volume : Volume → Bool
is_reserved_volume v = v.name == container_init_bin_volume || v.name == container_init_data_volume

unfoldable pub is_reserved_mount : VolumeMount → Bool
is_reserved_mount m =
    m.mount_path == container_init_bin_path
    || m.mount_path == container_init_data_path
    || has_prefix m.mount_path (container_init_bin_path <> "/")
    || has_prefix m.mount_path (container_init_data_path <> "/")

abbrev pub has_command : List String → Bool
has_command [] = false
has_command (c ∷ cs) = c /= ""

abbrev pub mounts_of : List Container → List VolumeMount
mounts_of [] = []
mounts_of (c ∷ cs) = c.volume_mounts

abbrev pub command_of : List Container → List String
command_of [] = []
command_of (c ∷ cs) = c.command

abbrev pub mount : String → String → VolumeMount
mount name path = record { name = name; read_only = true; mount_path = path; other = "" }

abbrev pub set_main : (Container → Container) → List Container → List Container
set_main f [] = []
set_main f (c ∷ cs) = f c ∷ cs

abbrev pub is_bad_data : ℕ → Bool
is_bad_data bytes = nat_eq bytes 0 || ltb container_init_max_data bytes

abbrev pub or_text : String → String → String
or_text s default = if s == "" then default else s

unfoldable pub option_args : String → String → List String
option_args flag value = if value == "" then [] else flag ∷ value ∷ []

-- The application behind the runner.
unfoldable pub wrap_main : ContainerInitSpec → Container → Container
wrap_main cfg main = record main {
  command = (container_init_bin_path <> "/container-init") ∷ [];
  termination_message_path = or_text main.termination_message_path "/dev/termination-log";
  termination_message_policy = or_text main.termination_message_policy "File";
  args =
      ("--user-data"
        ∷ (container_init_data_path <> "/" <> container_init_data_key)
        ∷ "--termination-message"
        ∷ or_text main.termination_message_path "/dev/termination-log"
        ∷ [])
      ++ option_args "--default-user" cfg.default_user
      ++ option_args "--run-as" cfg.run_as_user
      ++ ("--" ∷ main.command ++ main.args);
  volume_mounts =
      main.volume_mounts ++ (mount container_init_bin_volume container_init_bin_path ∷ []);
}

module _ {S : Type 0} (api : WorkspaceClient S) where
  -- What both modes add: the data, mounted read-only, and its hash.
  unfoldable pub mount_data : String → String → PodTemplate → PodTemplate
  mount_data name text pod = record {
    labels = pod.labels;
    annotations = put container_init_hash (api.sha256 text) pod.annotations;
    spec = record {
      volumes =
          pod.spec.volumes
          ++ (record {
            name = container_init_data_volume;
            source =
                secret_source name 292 ((container_init_data_key, container_init_data_key) ∷ []);
          }
              ∷ []);
      init_containers = pod.spec.init_containers;
      containers =
          set_main
            (λ main. record main {
              volume_mounts =
                  main.volume_mounts
                  ++ (mount container_init_data_volume container_init_data_path ∷ []);
            })
            pod.spec.containers;
      node_selector = pod.spec.node_selector;
      other = pod.spec.other;
    };
  }

  abbrev pub installer : Container
  installer = record {
    name = container_init_installer;
    image = api.container_init_image;
    image_pull_policy = container_init_pull_policy api.container_init_image;
    command =
        "/bin/sh" ∷ "-c"
        ∷ "cp /usr/local/bin/container-init /install/container-init && chmod 0755 /install/container-init"
        ∷ [];
    args = [];
    ports = [];
    volume_mounts =
        record {
          name = container_init_bin_volume;
          read_only = false;
          mount_path = "/install";
          other = "";
        }
        ∷ [];
    requests = [];
    limits = [];
    termination_message_path = "";
    termination_message_policy = "";
    security_context =
        some (record {
          run_as_user = some (pos 0);
          read_only_root_filesystem = some true;
          other = "";
        });
    other = "";
  }

  unfoldable pub inject_runner : ContainerInitSpec → PodTemplate → PodTemplate
  inject_runner cfg pod = record {
    labels = pod.labels;
    annotations = pod.annotations;
    spec = record {
      volumes =
          pod.spec.volumes
          ++ (record { name = container_init_bin_volume; source = empty_dir } ∷ []);
      init_containers = pod.spec.init_containers ++ (installer ∷ []);
      containers = set_main (wrap_main cfg) pod.spec.containers;
      node_selector = pod.spec.node_selector;
      other = pod.spec.other;
    };
  }
