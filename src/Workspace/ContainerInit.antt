-- ===== src/Workspace/ContainerInit.antt =====
-- container_init.go: the checks, the Secret with the user data, and the injection.
use Prim.Native.Char.{code}
use controller.Base.{
  String, ◌<>◌, Bool, ◌&&◌, ◌||◌, flip, Option, none, some, [], ◌∷◌, any, length, Map, at_key, ltb,
  nat_eq, ◌==◌, ◌/=◌, if◌then◌else◌, take_chars, chars, trim_right_set, decided,
}
use controller.Base.Effects.{
  fault, pure, lift, find, when, fail_if, wrapping, ignore_not_found, ◌>>=◌, ◌>>◌, reads, writes,
}
use controller.Api.Meta.{ObjectMeta, Secret, new_meta}
use controller.Api.Workspace.{Workspace, ContainerInitSpec, PodTemplate}
use controller.Workspace.Client.{
  WorkspaceClient, Run, create_secret, update_secret, delete_secret, workspace_type_of,
  workspace_type_vm,
}
use controller.Workspace.Services.{Map-discrete}
use controller.Workspace.InitTemplate.{
  container_init_disabled, container_init_injected, container_init_baked_in,
  container_init_installer, container_init_data_key, is_reserved_volume, is_reserved_mount,
  has_command, mounts_of, command_of, is_bad_data, mount_data, inject_runner,
}

module _ {S : Type 0} (api : WorkspaceClient S) where
  -- Names are ASCII, so that characters are bytes.
  unfoldable pub container_init_secret_name : String → String
  container_init_secret_name name =
      if ltb 230 (chars name)
      then (trim_right_set (λ c. nat_eq (code c) b'-' || nat_eq (code c) b'.') (take_chars 210 name)
          <> "-"
          <> api.sha256_8 name)
        <> "-container-init"
      else name <> "-container-init"

  unfoldable pub is_bad_account : String → Bool
  is_bad_account name = name /= "" && flip (api.is_account_name name)

  unfoldable pub validate_container_init_identity : ContainerInitSpec → Run S (Unit {0})
  validate_container_init_identity cfg = do
    fail_if
        ((cfg.default_user /= "" || cfg.run_as_user /= "") && cfg.mode /= container_init_injected)
        (fault "container initialization identity options require injected mode")
    fail_if (is_bad_account cfg.default_user || is_bad_account cfg.run_as_user)
        (fault "container initialization identity must be a valid account name")
    fail_if (cfg.run_as_user == "root")
        (fault "container initialization runAsUser must be non-root")

  abbrev pub remove_found : Workspace → Option Secret → Run S (Unit {0})
  remove_found ws none = pure tt
  remove_found ws (some secret) =
      when (api.is_controlled_by secret.meta ws.meta)
        (ignore_not_found (writes (delete_secret secret) (api.secret_delete secret)))

  unfoldable pub remove_container_init_secret : Workspace → Run S (Unit {0})
  remove_container_init_secret ws = do
    found ← find (reads (api.get_secret (container_init_secret_name ws.name) ws.namespace))
    remove_found ws found

  abbrev pub data_secret : Workspace → String → Secret
  data_secret ws text = record {
    meta = new_meta (container_init_secret_name ws.name) ws.namespace;
    type = "Opaque";
    immutable = none;
    content = (container_init_data_key, text) ∷ [];
  }

  abbrev pub with_meta : Secret → ObjectMeta → Secret
  with_meta s meta = record {
    meta = meta;
    type = s.type;
    immutable = s.immutable;
    content = s.content;
  }

  abbrev pub with_content : Secret → Map → Secret
  with_content s content = record {
    meta = s.meta;
    type = s.type;
    immutable = s.immutable;
    content = content;
  }

  -- The Secret with the inline user data is made, or brought up to date where it is the workspace's.
  unfoldable pub store_data : Workspace → String → Option Secret → Run S (Unit {0})
  store_data ws text none = do
    meta ← lift (api.set_controller ws.meta (data_secret ws text).meta)
    let made = with_meta (data_secret ws text) meta
    writes (create_secret made) (api.secret_create made)
  store_data ws text (some held) = do
    fail_if (flip (api.is_controlled_by held.meta ws.meta))
        (fault "container initialization Secret name is already in use by another owner")
    let wanted = (container_init_data_key, text) ∷ []
    when (flip (decided (Map-discrete held.content wanted))) (
        writes (update_secret (with_content held wanted))
          (api.secret_update (with_content held wanted)))

  -- The name of the Secret with the user data, and the data.
  unfoldable pub container_init_data :
      Workspace → ContainerInitSpec → Option String → Run S (String × String)
  container_init_data ws cfg (some name) = do
    fail_if (cfg.user_data /= "" || name == "" || name == container_init_secret_name ws.name)
        (fault "choose inline userData or an independently managed named userDataSecretRef")
    secret ←
        wrapping "cannot read container initialization Secret"
          (reads (api.get_secret name ws.namespace))
    let text = at_key secret.content container_init_data_key
    fail_if (is_bad_data (api.byte_length text))
        (fault "container initialization Secret needs a nonempty user-data key of at most 256 KiB")
    remove_container_init_secret ws
    pure (secret.name, text)
  container_init_data ws cfg none = do
    fail_if (is_bad_data (api.byte_length cfg.user_data))
        (fault "container initialization userData must contain 1 to 262144 bytes")
    found ← find (reads (api.get_secret (container_init_secret_name ws.name) ws.namespace))
    store_data ws cfg.user_data found
    pure (container_init_secret_name ws.name, cfg.user_data)

  -- The checks on the template, before anything is written.
  unfoldable pub check_template : Workspace → ContainerInitSpec → PodTemplate → Run S (Unit {0})
  check_template ws cfg pod = do
    fail_if (cfg.mode /= container_init_injected && cfg.mode /= container_init_baked_in)
        (fault "unsupported container initialization mode")
    validate_container_init_identity cfg
    fail_if (workspace_type_of ws == workspace_type_vm)
        (fault "container initialization cannot be used for a VM")
    fail_if (nat_eq (length pod.spec.containers) 0)
        (fault "container initialization requires a main container")
    fail_if (cfg.mode == container_init_injected && api.trim_space api.container_init_image == "")
        (fault "injected initialization requires the operator's container-init-image setting")
    fail_if
        (cfg.mode == container_init_injected && flip (has_command (command_of pod.spec.containers)))
        (fault "injected initialization requires an explicit application command")
    fail_if (any is_reserved_volume pod.spec.volumes)
        (fault "workspace volume conflicts with a reserved container-init volume name")
    fail_if (any (λ c. c.name == container_init_installer) pod.spec.init_containers)
        (fault "workspace init container conflicts with the container-init installer name")
    fail_if (any is_reserved_mount (mounts_of pod.spec.containers))
        (fault "workspace mount conflicts with a reserved container-init path")

  unfoldable pub initialize : Workspace → ContainerInitSpec → PodTemplate → Run S PodTemplate
  initialize ws cfg pod = do
    check_template ws cfg pod
    held ← container_init_data ws cfg cfg.user_data_secret_ref
    let mounted = mount_data api held.0 held.1 pod
    pure (if cfg.mode == container_init_baked_in then mounted else inject_runner api cfg mounted)

  unfoldable pub without_init : Workspace → PodTemplate → Run S PodTemplate
  without_init ws pod = do remove_container_init_secret ws; pure pod

  unfoldable pub prepare_with :
      Workspace → PodTemplate → Option ContainerInitSpec → Run S PodTemplate
  prepare_with ws pod none = without_init ws pod
  prepare_with ws pod (some cfg) =
      if cfg.mode == container_init_disabled then without_init ws pod else initialize ws cfg pod

  unfoldable pub prepare_container_init : Workspace → PodTemplate → Run S PodTemplate
  prepare_container_init ws pod = prepare_with ws pod ws.spec.container_init
