-- ===== src/Windows/Preflight.antt =====
-- vm_windows_guest.go: preflightWindows and its parts, and vm_windows_gpu.go: preflightWindowsGPU.
use controller.Base.{
  ℤ, pos, ℤ-discrete, ltb_int, eq_int, String, Bool, true, false, ◌&&◌, ◌||◌, flip, Option, none,
  some, List, [], ◌∷◌, any, keep, lookup, at_key, ◌==◌, ◌/=◌, if◌then◌else◌, has_prefix, has_suffix,
  decided, String-discrete, contains,
}
use controller.Base.Effects.{
  Error, Result, ok, err, fault, pure, raise, lift, when, fail_if, ◌>>=◌, ◌>>◌, reads,
}
use controller.Api.Workspace.{Workspace, VmGpuProfile}
use controller.Workspace.Client.{WorkspaceClient, Run}
use controller.Windows.Client.{WindowsClient, Node, KubeVirt, StorageClass, ClaimProperties}
use controller.Windows.Profile.{validate_windows_profile, validate_vm_gpu_profile}

abbrev pub worker_of : Workspace → String
worker_of ws = at_key ws.spec.template.node_selector "kubernetes.io/hostname"

-- An allocatable quantity, zero where it is not listed.
abbrev pub quantity_of : Node → String → ℤ
quantity_of node name = elim (lookup name node.allocatable) [ none ↦ pos 0 | some q ↦ q ]

unfoldable pub is_certified : Node → Bool
is_certified node = flip (
    node.unschedulable
    || at_key node.labels "kubeworkspaces.io/windows11-amd64-eligible" /= "true"
    || at_key node.labels "kubernetes.io/arch" /= "amd64")

unfoldable pub is_node_ready : Node → Bool
is_node_ready node = any (λ c. c.0 == "Ready" && c.1 == "True") node.conditions

-- The one element of a list, where it has just one.
abbrev pub sole {ℓ} : {A : Type ℓ} → Error → Result (List A) → Result A
sole e (ok (x ∷ [])) = ok x
sole e _ = err e

-- The same, for a list that has been read.
abbrev pub sole_of {ℓ} : {A : Type ℓ} → Error → List A → Result A
sole_of e (x ∷ []) = ok x
sole_of e _ = err e

unfoldable pub is_deployed : KubeVirt → Bool
is_deployed kv = has_prefix kv.version "v1.9." && kv.phase == "Deployed"

abbrev pub marked_with : String → List StorageClass → List StorageClass
marked_with annotation classes = keep (λ c. at_key c.annotations annotation == "true") classes

abbrev pub or_next : Result String → List StorageClass → Result String
or_next next [] = next
or_next next (c ∷ []) = ok c.name
or_next next (c ∷ d ∷ more) = err (fault "windows backend-state StorageClass is ambiguous")

-- The first of the annotations that some class has.
unfoldable pub default_class : List String → List StorageClass → Result String
default_class [] classes = ok ""
default_class (a ∷ rest) classes = or_next (default_class rest classes) (marked_with a classes)

abbrev pub default_annotations : List String
default_annotations =
    "storageclass.kubevirt.io/is-default-virt-class" ∷ "storageclass.kubernetes.io/is-default-class"
    ∷ []

unfoldable pub state_class : KubeVirt → List StorageClass → Result String
state_class kv classes =
    if kv.vm_state_storage_class == ""
    then default_class default_annotations classes
    else ok kv.vm_state_storage_class

-- The last class of the name.
unfoldable pub class_named : String → List StorageClass → Option StorageClass → Option StorageClass
class_named name [] found = found
class_named name (c ∷ cs) found = class_named name cs (if c.name == name then some c else found)

unfoldable pub modes_rwo : List String → Bool → Result Bool
modes_rwo [] rwo = ok rwo
modes_rwo (m ∷ ms) rwo =
    if m == "ReadWriteMany"
    then err (fault "local backend-state storage cannot satisfy RWX")
    else modes_rwo ms (rwo || m == "ReadWriteOnce")

abbrev pub next_rwo : (Bool → Result Bool) → Result Bool → Result Bool
next_rwo next (ok rwo) = next rwo
next_rwo next (err e) = err e

-- Whether some Filesystem claim may be ReadWriteOnce; an error where one may be ReadWriteMany.
unfoldable pub claims_rwo : List ClaimProperties → Bool → Result Bool
claims_rwo [] rwo = ok rwo
claims_rwo (p ∷ ps) rwo =
    if p.volume_mode /= "Filesystem"
    then claims_rwo ps rwo
    else next_rwo (claims_rwo ps) (modes_rwo p.access_modes rwo)

unfoldable pub gpu-discrete : Discrete VmGpuProfile
gpu-discrete = hlevel (String-discrete, ℤ-discrete)

-- Whether the operator has approved the profile, by one equal profile of its ID and no other.
unfoldable pub approve : VmGpuProfile → List VmGpuProfile → Bool → Result Bool
approve profile [] approved = ok approved
approve profile (c ∷ cs) approved =
    if c.id /= profile.id
    then approve profile cs approved
    else if approved || flip (decided (gpu-discrete c profile))
    then err (fault "VM GPU snapshot does not match its versioned operator profile")
    else approve profile cs true

unfoldable pub has_label : Node → String × String → Bool
has_label node entry = elim (lookup entry.0 node.labels) [
  | none ↦ false
  | some value ↦ value == entry.1
]

abbrev pub permitted_devices : VmGpuProfile → KubeVirt → List String
permitted_devices profile kv =
    if profile.kind == "mediated" then kv.mediated_devices else kv.pci_host_devices

module _ {S : Type 0} (api : WorkspaceClient S) (win : WindowsClient S) where
  -- A read whose error is replaced.
  abbrev pub read_or {ℓ} : {A : Type ℓ} → Error → (S → Result A × S) → S → Result A × S
  read_or e f s = (elim (f s).0 [ ok a ↦ ok a | err _ ↦ err e ], (f s).1)

  abbrev pub read_nodes : String → S → Result (List Node) × S
  read_nodes host = read_or (fault "windows worker inventory is unavailable") (win.list_nodes host)

  unfoldable pub preflight_windows_node : Workspace → Run S (Unit {0})
  preflight_windows_node ws = do
    fail_if (worker_of ws == "") (
        fault
          "windows workspaces require a certified worker selector so root and state storage bind together")
    nodes ← reads (read_nodes (worker_of ws))
    node ←
        lift (sole_of (fault "windows worker selector must resolve to one certified worker") nodes)
    fail_if (flip (is_certified node))
        (fault "windows worker is not schedulable/certified for the selected amd64 profile")
    fail_if (eq_int (quantity_of node "devices.kubevirt.io/kvm") (pos 0))
        (fault "windows worker does not advertise KVM acceleration")
    fail_if (flip (is_node_ready node)) (fault "windows worker is not Ready")

  unfoldable pub check_claims : String → Run S (Unit {0})
  check_claims name = do
    properties ← reads (
        read_or
          (fault "explicit local backend-state class requires a Filesystem/RWO StorageProfile")
          (win.get_storage_profile name))
    rwo ← lift (claims_rwo properties false)
    fail_if (flip rwo) (fault "explicit local backend-state class requires Filesystem/RWO defaults")

  abbrev pub check_class : KubeVirt → String → Option StorageClass → Run S (Unit {0})
  check_class kv name none = raise (fault "windows backend-state StorageClass is missing")
  check_class kv name (some c) =
      when (kv.vm_state_storage_class /= "" && has_suffix c.provisioner "/local-path")
        (check_claims name)

  abbrev pub read_kubevirt : Error → S → Result KubeVirt × S
  read_kubevirt e s = (sole e (win.list_kubevirts s).0, (win.list_kubevirts s).1)

  unfoldable pub preflight_windows_infrastructure : Workspace → Run S (Unit {0})
  preflight_windows_infrastructure ws = do
    kv ← reads (read_kubevirt (fault "windows requires an available KubeVirt installation"))
    fail_if (flip (is_deployed kv))
        (fault "windows profile requires deployed KubeVirt 1.9.x persistent-state support")
    fail_if kv.use_emulation (fault "windows profile requires KVM, not software emulation")
    reads (
        read_or (fault "windows persistent roots require CDI") (win.list_data_volumes ws.namespace))
    classes ← reads (
        read_or (fault "windows persistent-state storage inventory is unavailable")
          win.list_storage_classes)
    name ← lift (state_class kv classes)
    check_class kv name (class_named name classes none)

  abbrev pub read_worker : String → S → Result Node × S
  read_worker host s = (
    sole (fault "VM GPU requires an available certified worker") (win.list_nodes host s).0,
    (win.list_nodes host s).1,
  )

  unfoldable pub preflight_gpu : Workspace → Option VmGpuProfile → Run S (Unit {0})
  preflight_gpu ws none = pure tt
  preflight_gpu ws (some profile) = do
    validate_vm_gpu_profile api win (some profile)
    profiles ←
        reads (read_or (fault "VM GPU operator profiles are unavailable") win.get_gpu_profiles)
    approved ← lift (approve profile profiles false)
    fail_if (flip approved) (fault "VM GPU profile is not approved by the operator")
    preflight_windows_node ws
    node ← reads (read_worker (worker_of ws))
    fail_if (any (λ entry. flip (has_label node entry)) profile.node_selector)
        (fault "selected worker is not eligible for this VM GPU profile")
    fail_if (ltb_int (quantity_of node profile.resource_name) (pos 1000000000))
        (fault "selected worker does not advertise the VM GPU resource")
    kv ← reads (read_kubevirt (fault "VM GPU KubeVirt allowlist is unavailable"))
    fail_if (flip (contains (permitted_devices profile kv) profile.resource_name))
        (fault "VM GPU resource is not in the matching KubeVirt allowlist")

  unfoldable pub preflight_windows_gpu : Workspace → Run S (Unit {0})
  preflight_windows_gpu ws =
      preflight_gpu ws (elim ws.spec.vm_profile [ none ↦ none | some p ↦ p.gpu ])

  unfoldable pub preflight_windows : Workspace → Run S (Unit {0})
  preflight_windows ws = do
    validate_windows_profile api win ws
    preflight_windows_node ws
    preflight_windows_infrastructure ws
    preflight_windows_gpu ws
