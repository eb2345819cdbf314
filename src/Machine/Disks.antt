-- ===== src/Machine/Disks.antt =====
-- vm_disks.go: the claims of disks, their serials and mount paths, the quotes of a shell.
use controller.Base.{
  String, ◌<>◌, Bool, true, ◌&&◌, ◌||◌, flip, Option, none, some, List, [], ◌∷◌, any, map, at_key,
  put, replace_all, contains_char, ◌==◌, ◌/=◌, has_prefix,
}
use controller.Base.Effects.{
  Result, ok, err, fault, is_not_found, raise, attempt, wrapping, when, fail_if, for_each, ◌>>=◌,
  ◌>>◌, reads, writes,
}
use controller.Api.Workspace.{Workspace, Container}
use controller.Workspace.Client.{WorkspaceClient, Run, Disk, Vmi, update_disk}
use controller.Machine.Client.{MachineClient}

abbrev pub vm_disk_type_label : String
vm_disk_type_label = "kubeworkspaces.io/volume-type"

abbrev pub vm_disk_owner_annotation : String
vm_disk_owner_annotation = "kubeworkspaces.io/disk-workspace"

abbrev pub protected_paths : List String
protected_paths =
    "/" ∷ "/boot" ∷ "/dev" ∷ "/proc" ∷ "/sys" ∷ "/etc" ∷ "/usr" ∷ "/bin" ∷ "/sbin" ∷ "/lib"
    ∷ "/lib64" ∷ "/run" ∷ []

unfoldable pub is_protected : String → String → Bool
is_protected value path = value == path || (path /= "/" && has_prefix value (path <> "/"))

unfoldable pub shell_quote : String → String
shell_quote value = "'" <> replace_all "'" "'\"'\"'" value <> "'"

unfoldable pub owner_of : Disk → String
owner_of disk = at_key disk.annotations vm_disk_owner_annotation

unfoldable pub owner_mark : Workspace → String
owner_mark ws = ws.name <> "/" <> ws.uid

unfoldable pub is_platform_disk : Disk → Bool
is_platform_disk disk =
    flip (at_key disk.labels vm_disk_type_label /= "vm-disk" || flip disk.is_blank || disk.deleting)

unfoldable pub claim_disk : Workspace → Disk → Disk
claim_disk ws disk = record {
  meta = record disk.meta {
    annotations = put vm_disk_owner_annotation (owner_mark ws) disk.annotations;
  };
  is_blank = disk.is_blank;
}

-- The workspace of that name is the one of the claim: it has its UID, or the claim names none.
unfoldable pub is_same_owner : Option String → Workspace → Bool
is_same_owner none other = true
is_same_owner (some uid) other = other.uid == uid

abbrev pub mount_names : List Container → List String
mount_names [] = []
mount_names (c ∷ cs) = map (λ m. m.name) c.volume_mounts

module _ {S : Type 0} (api : WorkspaceClient S) (vms : MachineClient S) where
  -- At most 20 characters.
  unfoldable pub vm_disk_serial : String → String
  vm_disk_serial name = "kw" <> vms.sha256_9 name

  unfoldable pub valid_guest_mount_path : String → Bool
  valid_guest_mount_path value =
      flip (
        flip (has_prefix value "/")
        || vms.clean_path value /= value
        || contains_char 0 value
        || contains_char 13 value
        || contains_char 10 value)
      && flip (any (is_protected value) protected_paths)

  unfoldable pub check_owner :
      (disk name : String) → Option String → Result Workspace → Run S (Unit {0})
  check_owner disk name uid (ok other) =
      fail_if (is_same_owner uid other)
        (fault ("VM disk " <> disk <> " is owned by workspace " <> name))
  check_owner disk name uid (err e) = fail_if (flip (is_not_found e)) e

  unfoldable pub check_instance : (disk name : String) → Result Vmi → Run S (Unit {0})
  check_instance disk name (ok vmi) =
      raise (fault ("VM disk " <> disk <> " is still used by VMI " <> name))
  check_instance disk name (err e) = fail_if (flip (is_not_found e)) e

  -- The claim of another workspace has lapsed: it and its instance are gone.
  unfoldable pub check_lapsed : Workspace → (disk current : String) → Run S (Unit {0})
  check_lapsed ws disk current = do
    let parts = vms.split_owner current
    other ← attempt (reads (api.live_workspace parts.0 ws.namespace))
    check_owner disk parts.0 parts.1 other
    vmi ← attempt (reads (vms.live_vmi parts.0 ws.namespace))
    check_instance disk parts.0 vmi

  unfoldable pub claim_found : Workspace → (name : String) → Disk → Run S (Unit {0})
  claim_found ws name disk = do
    fail_if (flip (is_platform_disk disk))
        (fault (name <> " must be a non-terminating platform-created blank CDI disk"))
    when (owner_of disk /= "" && owner_of disk /= owner_mark ws)
        (check_lapsed ws name (owner_of disk))
    when (owner_of disk /= owner_mark ws)
        (writes (update_disk (claim_disk ws disk)) (vms.disk_update (claim_disk ws disk)))

  abbrev pub claim_once : Workspace → String → Run S (Unit {0})
  claim_once ws name = do
    disk ← wrapping ("cannot get VM disk " <> name) (reads (vms.live_disk name ws.namespace))
    claim_found ws name disk

  unfoldable pub claim_vm_data_volume : Workspace → String → Run S (Unit {0})
  claim_vm_data_volume ws name = api.retry_on_conflict (claim_once ws name)

  unfoldable pub claim_vm_disks : Workspace → Run S (Unit {0})
  claim_vm_disks ws =
      for_each (claim_vm_data_volume ws)
        (vms.sort_strings (mount_names ws.spec.template.containers))
