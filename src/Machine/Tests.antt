-- ===== src/Machine/Tests.antt =====
-- The theorems on the VirtualMachine of a workspace, applied on a small cluster.
use controller.Base.{
  ℕ, pos, true, false, ◌≡◌, refl, Option, none, some, [], ◌∷◌, ◌++◌, map, keep, contains,
  contains_char, All, lookup, flip, ◌||◌, ◌==◌,
}
use controller.Base.Effects.{Result, is_ok, ok, fault, err, find, reads}
use controller.Api.Meta.{new_meta}
use controller.Api.Workspace.{Workspace, Container}
use controller.Workspace.Client.{WorkspaceClient, Run, Pod, Disk, annotation_reset}
use controller.Workspace.Fixtures.{editor, machine, no_object, cluster, start, workspace}
use controller.Machine.Client.{MachineClient, Body, item, other_item, sequence}
use controller.Machine.Disks.{claim_vm_disks, valid_guest_mount_path, is_protected}
use controller.Machine.Claims.{IsClaim, only_free_disks_are_claimed}
use controller.Machine.Dispatch.{reconcile}
use controller.Machine.Order.{pending_reset_spares_machine}
use controller.Machine.CloudInit.{
  keys_field, files_field, items_of, set_items, merge_keys, written, encode, inject_into,
  inject_ssh_authorized_keys, read_user_data, is_binding, binding_item, bind_document,
  mount_command, mount_commands, is_bad_mount,
}
use controller.Machine.UserData.{
  texts, others, distinct, field_of, is_null, keys_are_merged, null_user_data_panics,
  binding_is_the_only_one,
}
use controller.Machine.Mounts.{IsMountable, IsApart, mounts_never_collide}

abbrev mounting : Container
mounting = record editor {
  volume_mounts =
      record { name = "work"; read_only = false; mount_path = "/work"; other = "" } ∷ [];
}

-- A vm workspace with a disk.
abbrev vm_workspace : Workspace
vm_workspace = record {
  meta = record (workspace [] 4).meta { annotations = (annotation_reset, "now") ∷ [] };
  spec = record (workspace [] 4).spec {
    container_init = none;
    template = record {
      volumes = [];
      init_containers = [];
      containers = mounting ∷ [];
      node_selector = [];
      other = "";
    };
  };
  status = (workspace [] 4).status;
}

-- A disk that a workspace which is gone had claimed.
abbrev left_disk : Disk
left_disk = record {
  meta = record (new_meta "work" "ann") {
    labels = ("kubeworkspaces.io/volume-type", "vm-disk") ∷ [];
    annotations = ("kubeworkspaces.io/disk-workspace", "old/w0") ∷ [];
  };
  is_blank = true;
}

abbrev disks : MachineClient (Unit {0})
disks = record {
  live_disk = λ name namespace s. (ok left_disk, s);
  disk_update = λ disk s. (ok tt, s);
  live_vmi = λ name namespace s. (err no_object, s);
  probe_vm = λ s. (err no_object, s);
  list_ssh_keys = λ namespace s. (ok [], s);
  list_workspaces = λ namespace s. (ok [], s);
  fetch_secret = λ name namespace s. (ok none, s);
  store_secret = λ secret s. (ok tt, s);
  sort_strings = λ names. names;
  split_owner = λ s. ("old", some "w0");
  clean_path = λ path. path;
  sha256_9 = λ s. s;
  to_lower = λ s. s;
  since_creation = λ meta s. (pos 1, s);
  parse_url = λ s. none;
  has_text = λ text part. false;
  has_space = λ s. false;
  join_lines = λ keys. "";
  trim_space = λ s. s;
  yaml_unmarshal = λ s. ok none;
  yaml_marshal = λ body. ok "ssh_authorized_keys: []";
  binding_json = λ uid generation. ok "{}";
}

abbrev client : WorkspaceClient (Unit {0})
client = cluster vm_workspace (ok machine)

-- Claims run on a cluster that has no other workspace.
abbrev alone : WorkspaceClient (Unit {0})
alone = record client { live_workspace = λ name namespace s. (err no_object, s) }

abbrev ready_machine : Workspace → Run (Unit {0}) (Workspace × Result (ℕ × Option Pod))
ready_machine ws w = (ok (ws, ok (1, none)), w)

only_free_disks_are_claimed_example :
    All (IsClaim alone disks vm_workspace) (claim_vm_disks alone disks vm_workspace start).1.calls
only_free_disks_are_claimed_example =
    only_free_disks_are_claimed alone disks (λ P m h. h) vm_workspace start refl

-- What the machine's reconcile must not be asked for.
abbrev lost_machine : Workspace → Run (Unit {0}) (Workspace × Result (ℕ × Option Pod))
lost_machine ws w = (err (fault "no machine"), w)

pending_reset_spares_machine_example :
    reconcile client disks ready_machine "dev" "ann" start
    ≡ reconcile client disks lost_machine "dev" "ann" start
unfolding lookup find reads
pending_reset_spares_machine_example =
    pending_reset_spares_machine client disks ready_machine lost_machine vm_workspace refl "dev"
      "ann" start refl

abbrev seeded : Body
seeded = (keys_field, sequence (item "k0" ∷ item "k0" ∷ other_item "1" ∷ [])) ∷ []

keys_are_merged_example :
    let made = set_items keys_field (merge_keys ("k1" ∷ []) seeded) seeded in
    let had = items_of keys_field seeded in
    (inject_into client disks "" ("k1" ∷ []) (ok (some seeded))
      ≡ ok (written client disks "" (disks.yaml_marshal made)))
    × (contains (texts (items_of keys_field made)) "k1"
        ≡ (contains (texts had) "k1" || contains ("k1" ∷ []) "k1"))
    × (distinct (texts (items_of keys_field made)) ≡ true)
    × (others (items_of keys_field made) ≡ others had)
    × (field_of "bootcmd" made ≡ field_of "bootcmd" seeded)
keys_are_merged_example = keys_are_merged client disks "" ("k1" ∷ []) seeded "k1" "bootcmd" refl

null_user_data_panics_example :
    is_ok (inject_ssh_authorized_keys client disks "#cloud-config\nnull" ("k1" ∷ [])) ≡ (
      "#cloud-config\nnull" == ""
      || flip (is_null client disks (read_user_data client disks "#cloud-config\nnull")))
null_user_data_panics_example = null_user_data_panics client disks "#cloud-config\nnull" "k1" []

binding_is_the_only_one_example :
    let files = items_of files_field seeded ++ binding_item "{}" ∷ [] in
    let made = set_items files_field files seeded in
    (encode client disks made ≡ ok "#cloud-config\nssh_authorized_keys: []")
    × (keep is_binding (items_of files_field made) ≡ binding_item "{}" ∷ [])
unfolding bind_document items_of lookup
binding_is_the_only_one_example =
    binding_is_the_only_one client disks "{}" seeded "#cloud-config\nssh_authorized_keys: []" refl

mounts_never_collide_example :
    (mount_commands client disks "dev" [] [] mounting.volume_mounts
      ≡ ok (map (mount_command client disks "dev") mounting.volume_mounts))
    × All (IsMountable client disks) mounting.volume_mounts
    × IsApart mounting.volume_mounts
unfolding mount_commands is_bad_mount valid_guest_mount_path is_protected contains_char
mounts_never_collide_example = mounts_never_collide client disks "dev" mounting.volume_mounts refl
