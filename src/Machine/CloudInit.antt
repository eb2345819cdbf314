-- ===== src/Machine/CloudInit.antt =====
-- workspace_controller.go, vm_linux_agent.go and vm_disks.go: the user data of a VirtualMachine. A panic,
-- which the assignment to a nil map is, is an error here.
use controller.Base.{
  String, ◌<>◌, Bool, true, false, ◌&&◌, ◌||◌, flip, Option, none, some, List, [], ◌∷◌, ◌++◌, map,
  any, contains, at_key, ◌==◌, ◌/=◌, if◌then◌else◌, has_prefix, trim_prefix,
}
use controller.Base.Effects.{Error, Result, ok, err, fault, wrap_result}
use controller.Api.Workspace.{Workspace, VolumeMount}
use controller.Api.Image.{Image}
use controller.Workspace.Client.{WorkspaceClient}
use controller.Workspace.Reset.{annotation_agent_generation}
use controller.Machine.Client.{
  MachineClient, Item, item, mapping, other_item, Field, sequence, other_field, Body,
}
use controller.Machine.Disks.{shell_quote, valid_guest_mount_path, vm_disk_serial}
use controller.Machine.Agent.{linux_agent_image}

abbrev pub binding_path : String
binding_path = "/etc/workspace-agent/public/binding.json"

abbrev pub cloud_config : String
cloud_config = "#cloud-config"

abbrev pub keys_field : String
keys_field = "ssh_authorized_keys"

abbrev pub files_field : String
files_field = "write_files"

abbrev pub nil_map : Error
nil_map = fault "assignment to entry in nil map"

abbrev pub items_in : Field → List Item
items_in (sequence items) = items
items_in (other_field text) = []

-- `body[key].([]interface{})`, empty where there is none.
unfoldable pub items_of : String → Body → List Item
items_of key [] = []
items_of key (f ∷ body) = if f.0 == key then items_in f.1 else items_of key body

-- `body[key] = items`
unfoldable pub set_items : String → List Item → Body → Body
set_items key items [] = (key, sequence items) ∷ []
set_items key items (f ∷ body) =
    let rest = set_items key items body in
    if f.0 == key then (key, sequence items) ∷ body else f ∷ rest

-- The items, a text that was seen before left out.
unfoldable pub merge_items : List String → List Item → List Item
merge_items seen [] = []
merge_items seen (item s ∷ xs) =
    if contains seen s then merge_items seen xs else item s ∷ merge_items (s ∷ seen) xs
merge_items seen (mapping fields other ∷ xs) = mapping fields other ∷ merge_items seen xs
merge_items seen (other_item text ∷ xs) = other_item text ∷ merge_items seen xs

abbrev pub merge_keys : List String → Body → List Item
merge_keys keys body = merge_items [] (items_of keys_field body ++ map item keys)

abbrev pub and_then : {A B : Type 0} → Result A → (A → Result B) → Result B
and_then (ok a) f = f a
and_then (err e) f = err e

abbrev pub guard : Bool → Error → Result (Unit {0})
guard true e = err e
guard false e = ok tt

abbrev pub is_binding : Item → Bool
is_binding (mapping fields other) = at_key fields "path" == binding_path
is_binding (item s) = false
is_binding (other_item text) = false

abbrev pub binding_item : String → Item
binding_item binding =
    mapping
      (("path", binding_path)
        ∷ ("owner", "root:root")
        ∷ ("permissions", "0444")
        ∷ ("content", binding)
        ∷ [])
      ""

abbrev pub or_empty : Option Body → Body
or_empty none = []
or_empty (some body) = body

-- The text that is generated for the password of the user.
unfoldable pub password_config : (user password : String) → String
password_config user password =
    "#cloud-config\nssh_pwauth: true\nchpasswd:\n  expire: false\n  list: |\n    " <> user <> ":"
    <> password <> "\n"

unfoldable pub default_data : Option Image → String
default_data none = ""
default_data (some img) =
    if img.spec.default_user_data /= ""
    then img.spec.default_user_data
    else if img.spec.default_cloud_init
        && img.spec.default_user /= ""
        && img.spec.default_password /= ""
    then password_config img.spec.default_user img.spec.default_password
    else ""

abbrev pub mounts_of : Workspace → List VolumeMount
mounts_of ws = elim ws.spec.template.containers [ [] ↦ [] | c ∷ cs ↦ c.volume_mounts ]

unfoldable pub can_mount : Option Image → Bool
can_mount none = false
can_mount (some img) = img.spec.default_cloud_init || img.spec.default_user_data /= ""

abbrev pub user_of : Option Image → String
user_of none = ""
user_of (some img) = img.spec.default_user

unfoldable pub ownership_line : String → String
ownership_line user =
    if user == ""
    then ""
    else "if [ \"$formatted\" = true ] && id "
      <> shell_quote user
      <> " >/dev/null 2>&1; then chown "
      <> shell_quote user
      <> " \"$target\"; fi\n"

unfoldable pub mount_script : (device target ownership : String) → String
mount_script device target ownership =
    "set -eu\ndevice="
    <> shell_quote device
    <> "\ntarget="
    <> shell_quote target
    <> "\nformatted=false\nudevadm settle\ntest -b \"$device\"\n"
    <> "if blkid -p \"$device\" >/dev/null 2>&1; then\n"
    <> "  test \"$(blkid -p -s TYPE -o value \"$device\")\" = ext4\nelse\n  status=$?\n"
    <> "  test \"$status\" = 2\n  mkfs.ext4 -F \"$device\"\n  formatted=true\nfi\n"
    <> "mkdir -p \"$target\"\nif ! mountpoint -q \"$target\"; then\n"
    <> "  mount -t ext4 \"$device\" \"$target\"\nfi\n"
    <> ownership

module _ {S : Type 0} (api : WorkspaceClient S) (vms : MachineClient S) where
  -- The document of a cloud-config; none is a nil map.
  abbrev pub parse_trimmed : String → Result (Option Body)
  parse_trimmed trimmed = if trimmed == "" then ok (some []) else vms.yaml_unmarshal trimmed

  abbrev pub read_user_data : String → Result (Option Body)
  read_user_data text =
      parse_trimmed (vms.trim_space (trim_prefix (vms.trim_space text) cloud_config))

  abbrev pub written : String → Result String → String
  written text (ok yaml) = cloud_config <> "\n" <> yaml
  written text (err e) = text

  -- The keys over a document; what cannot be read or written is left as it is.
  unfoldable pub inject_into : String → List String → Result (Option Body) → Result String
  inject_into text keys (ok none) = err nil_map
  inject_into text keys (ok (some body)) =
      ok (written text (vms.yaml_marshal (set_items keys_field (merge_keys keys body) body)))
  inject_into text keys (err e) = ok text

  unfoldable pub inject_ssh_authorized_keys : String → List String → Result String
  inject_ssh_authorized_keys text [] = ok text
  inject_ssh_authorized_keys text (key ∷ keys) =
      inject_into text (key ∷ keys) (if text == "" then ok (some []) else read_user_data text)

  unfoldable pub cloud_init_user_data : Option Image → List String → Result String
  cloud_init_user_data img keys = inject_ssh_authorized_keys (default_data img) keys

  abbrev pub encode : Body → Result String
  encode body = and_then (vms.yaml_marshal body) (λ yaml. ok (cloud_config <> "\n" <> yaml))

  -- Other files with the path of the binding are refused.
  unfoldable pub bind_document : String → Body → Result String
  bind_document binding body =
      and_then
        (guard (any is_binding (items_of files_field body))
          (fault "linux agent binding path is reserved for the controller"))
        (λ _.
          encode
            (set_items files_field (items_of files_field body ++ binding_item binding ∷ []) body))

  abbrev pub agent_generation : Workspace → String
  agent_generation ws = at_key ws.annotations annotation_agent_generation

  unfoldable pub bind_agent : Workspace → String → Result String
  bind_agent ws text =
      if ws.uid == "" || agent_generation ws == ""
      then err (fault "linux agent workspace binding has not been initialized")
      else if flip (has_prefix (vms.trim_space text) cloud_config)
      then err (fault "linux agent requires cloud-config user-data")
      else and_then
          (wrap_result "linux agent requires cloud-config user-data" (vms.yaml_unmarshal text))
          (λ body.
            and_then (vms.binding_json ws.uid (agent_generation ws))
              (λ binding. bind_document binding (or_empty body)))

  unfoldable pub linux_agent_cloud_init : Workspace → Option Image → String → Result String
  linux_agent_cloud_init ws img text = if linux_agent_image img then bind_agent ws text else ok text

  abbrev pub mount_command : String → VolumeMount → Item
  mount_command user mount = item (
      mount_script ("/dev/disk/by-id/virtio-" <> vm_disk_serial api vms mount.name) mount.mount_path
        (ownership_line user))

  unfoldable pub is_bad_mount : (names paths : List String) → VolumeMount → Bool
  is_bad_mount names paths mount =
      flip (api.is_dns1123_label mount.name)
      || contains names mount.name
      || flip (valid_guest_mount_path api vms mount.mount_path)
      || contains paths mount.mount_path

  -- The commands that mount the disks, in order; names and paths are those before them.
  unfoldable pub mount_commands :
      String → (names paths : List String) → List VolumeMount → Result (List Item)
  mount_commands user names paths [] = ok []
  mount_commands user names paths (m ∷ ms) =
      and_then
        (guard (is_bad_mount names paths m)
          (fault "VM disk names and clean guest mount paths must be valid and unique"))
        (λ _.
          and_then (mount_commands user (m.name ∷ names) (m.mount_path ∷ paths) ms)
            (λ rest. ok (mount_command user m ∷ rest)))

  abbrev pub add_commands : Option Body → List Item → Result String
  add_commands none commands = err nil_map
  add_commands (some body) commands =
      encode (set_items "bootcmd" (items_of "bootcmd" body ++ commands) body)

  -- The document that the commands are added to.
  unfoldable pub mount_document : String → Result (Option Body)
  mount_document text =
      if text == ""
      then ok (some [])
      else if flip (has_prefix (vms.trim_space text) cloud_config)
      then err (fault "VM disk mounting requires cloud-config user-data")
      else vms.yaml_unmarshal text

  unfoldable pub mount_disks : Option Image → List VolumeMount → String → Result String
  mount_disks img [] text = ok text
  mount_disks img (m ∷ ms) text =
      if flip (can_mount img)
      then err (fault "VM disk mounting requires a cloud-init capable Image")
      else and_then (mount_document text)
          (λ body. and_then (mount_commands (user_of img) [] [] (m ∷ ms)) (add_commands body))

  unfoldable pub vm_cloud_init_user_data : Workspace → Option Image → List String → Result String
  vm_cloud_init_user_data ws img keys =
      and_then (cloud_init_user_data img keys)
        (λ text. and_then (linux_agent_cloud_init ws img text) (mount_disks img (mounts_of ws)))
