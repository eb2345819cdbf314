-- ===== src/Machine/Secrets.antt =====
-- workspace_controller.go: the Secrets of a VirtualMachine, and the keys that are put into them.
use Prim.Native.Char.{code}
use controller.Base.{
  ℕ, ◌-◌, String, ◌<>◌, Bool, false, ◌&&◌, ◌||◌, flip, Option, none, some, List, [], ◌∷◌, at_key,
  ltb, leb, nat_eq, ◌==◌, ◌/=◌, if◌then◌else◌, decided, keep, map, take_chars, chars,
  trim_right_set, has_suffix,
}
use controller.Base.Effects.{pure, lift, find, when, ◌>>=◌, reads, writes}
use controller.Api.Meta.{ObjectMeta, Secret, new_meta}
use controller.Api.Workspace.{Workspace}
use controller.Api.Image.{Image}
use controller.Workspace.Client.{
  WorkspaceClient, Run, create_secret, update_secret, delete_secret, put_secret,
}
use controller.Workspace.ContainerInit.{with_content, with_meta}
use controller.Workspace.Services.{Map-discrete}
use controller.Machine.Client.{MachineClient}

abbrev pub cloud_init_secret_key : String
cloud_init_secret_key = "userdata"

abbrev pub inline_cloud_init_max_bytes : ℕ
inline_cloud_init_max_bytes = 2048

unfoldable pub cloud_init_secret_name : String → String
cloud_init_secret_name name = name <> "-cloudinit"

-- The datasource: inline, or the name of a Secret.
pub data NoCloud : Type 0 where
  inline_data secret_ref : String → NoCloud

unfoldable pub uses_guest_agent_ssh : Option Image → Bool
uses_guest_agent_ssh none = false
uses_guest_agent_ssh (some img) =
    img.spec.default_user /= ""
    && at_key img.annotations "kubeworkspaces.io/ssh-key-propagation" == "qemuGuestAgent"

-- strings.TrimSuffix
unfoldable pub trim_suffix : String → String → String
trim_suffix s suffix = if has_suffix s suffix then take_chars (chars s - chars suffix) s else s

abbrev pub key_secret_of : (name namespace : String) → Option Secret → ObjectMeta
key_secret_of name namespace none = new_meta name namespace
key_secret_of name namespace (some held) = held.meta

abbrev pub immutable_of : Option Secret → Option Bool
immutable_of none = none
immutable_of (some held) = held.immutable

module _ {S : Type 0} (api : WorkspaceClient S) (vms : MachineClient S) where
  -- Names are ASCII, so that characters are bytes.
  unfoldable pub root_disk_data_volume_name : String → String
  root_disk_data_volume_name name =
      if leb (chars name) 244
      then name <> "-rootdisk"
      else trim_right_set (λ c. nat_eq (code c) b'.' || nat_eq (code c) b'-') (take_chars 227 name)
        <> "-"
        <> api.sha256_8 name
        <> "-rootdisk"

  unfoldable pub ssh_key_secret_name : String → String
  ssh_key_secret_name name = trim_suffix (root_disk_data_volume_name name) "-rootdisk" <> "-sshkeys"

  unfoldable pub cloud_init_volume : (name text : String) → NoCloud
  cloud_init_volume name text =
      if ltb inline_cloud_init_max_bytes (api.byte_length text)
      then secret_ref (cloud_init_secret_name name)
      else inline_data text

  abbrev pub cloud_init_secret : Workspace → String → Secret
  cloud_init_secret ws text = record {
    meta = new_meta (cloud_init_secret_name ws.name) ws.namespace;
    type = "Opaque";
    immutable = none;
    content = (cloud_init_secret_key, text) ∷ [];
  }

  abbrev pub drop_found : Option Secret → Run S (Unit {0})
  drop_found none = pure tt
  drop_found (some secret) = writes (delete_secret secret) (api.secret_delete secret)

  unfoldable pub store_cloud_init : Secret → Option Secret → Run S (Unit {0})
  store_cloud_init wanted none = writes (create_secret wanted) (api.secret_create wanted)
  store_cloud_init wanted (some found) =
      when (flip (decided (Map-discrete found.content wanted.content))) (
        writes (update_secret (with_content api found wanted.content))
          (api.secret_update (with_content api found wanted.content)))

  unfoldable pub keep_cloud_init : Workspace → String → Run S (Unit {0})
  keep_cloud_init ws text = do
    meta ← lift (api.set_controller ws.meta (cloud_init_secret ws text).meta)
    let wanted = with_meta api (cloud_init_secret ws text) meta
    found ← find (reads (api.get_secret (cloud_init_secret_name ws.name) ws.namespace))
    store_cloud_init wanted found

  unfoldable pub drop_cloud_init : Workspace → Run S (Unit {0})
  drop_cloud_init ws = do
    found ← find (reads (api.get_secret (cloud_init_secret_name ws.name) ws.namespace))
    drop_found found

  unfoldable pub reconcile_cloud_init_secret : Workspace → String → Run S (Unit {0})
  reconcile_cloud_init_secret ws text =
      if leb (api.byte_length text) inline_cloud_init_max_bytes
      then drop_cloud_init ws
      else keep_cloud_init ws text

  unfoldable pub ssh_authorized_keys_for_workspace : String → Run S (List String)
  ssh_authorized_keys_for_workspace namespace = do
    keys ← reads (vms.list_ssh_keys namespace)
    pure (vms.sort_strings (keep (λ k. k /= "") (map (λ k. k.spec.public_key) keys)))

  unfoldable pub ssh_secret : Workspace → List String → Option Secret → ObjectMeta → Secret
  ssh_secret ws keys found meta = record {
    meta = meta;
    type = "Opaque";
    immutable = immutable_of found;
    content = ("authorized_keys", vms.join_lines keys) ∷ [];
  }

  unfoldable pub reconcile_ssh_key_secret : Workspace → List String → Run S (Unit {0})
  reconcile_ssh_key_secret ws keys = do
    let name = ssh_key_secret_name ws.name
    found ← reads (vms.fetch_secret name ws.namespace)
    meta ← lift (api.set_controller ws.meta (key_secret_of name ws.namespace found))
    let stored = ssh_secret ws keys found meta
    writes (put_secret stored) (vms.store_secret stored)
