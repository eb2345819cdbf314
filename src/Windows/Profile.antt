-- ===== src/Windows/Profile.antt =====
-- vm_windows_guest.go: validateWindowsProfile, and vm_windows_gpu.go: validateVMGPUProfile.
use controller.Base.{
  ℕ, ◌*◌, ℤ, pos, eq_int, ltb_int, String, Bool, true, false, ◌&&◌, ◌||◌, flip, Option, none, some,
  List, [], ◌∷◌, any, at_key, Map, ltb, ◌==◌, ◌/=◌, has_prefix, has_suffix, contains_char,
}
use controller.Base.Effects.{fault, pure, raise, fail_if, ◌>>◌}
use controller.Api.Workspace.{Workspace, Container, VolumeMount, ResolvedVmProfile, VmGpuProfile}
use controller.Workspace.Client.{WorkspaceClient, Run, windows_11_amd64_v1, workspace_type_vm}
use controller.Windows.Client.{WindowsClient}

-- A quantity of so many GiB, in billionths.
abbrev pub gibibytes : ℕ → ℤ
gibibytes n = pos (n * 1073741824 * 1000000000)

abbrev pub is_at_least : ℤ → Option ℤ → Bool
is_at_least least none = false
is_at_least least (some q) = flip (ltb_int q least)

abbrev pub has_slash : String × String → Bool
has_slash entry = contains_char b'/' entry.0

abbrev pub is_empty_list {ℓ} : {A : Type ℓ} → List A → Bool
is_empty_list [] = true
is_empty_list (x ∷ xs) = false

-- The domain belongs to Kubernetes.
unfoldable pub is_reserved_domain : String → Bool
is_reserved_domain domain =
    domain == "kubernetes.io"
    || has_suffix domain ".kubernetes.io"
    || domain == "k8s.io"
    || has_suffix domain ".k8s.io"

-- The one container has the resolved image, by its digest.
unfoldable pub has_image : (is_digest : String → Bool) → String → List Container → Bool
has_image is_digest image (c ∷ []) = c.image == image && is_digest image
has_image is_digest image _ = false

abbrev pub mounts_of : Workspace → List VolumeMount
mounts_of ws = elim ws.spec.template.containers [ [] ↦ [] | c ∷ cs ↦ c.volume_mounts ]

unfoldable pub mounts_nothing : Workspace → Bool
mounts_nothing ws = is_empty_list (mounts_of ws) && is_empty_list ws.spec.template.volumes

module _ {S : Type 0} (api : WorkspaceClient S) (win : WindowsClient S) where
  unfoldable pub is_vendor_resource : String → List String → Bool
  is_vendor_resource name (domain ∷ rest ∷ []) = flip (
      ltb 253 (api.byte_length name)
      || has_prefix name "requests."
      || flip (win.is_dns1123_subdomain domain)
      || flip (win.is_qualified_name name)
      || is_reserved_domain domain)
  is_vendor_resource name _ = false

  unfoldable pub is_versioned_profile : VmGpuProfile → Bool
  is_versioned_profile p = flip (
      ltb 63 (api.byte_length p.id)
      || flip (api.is_dns1123_label p.id)
      || p.display_name == ""
      || ltb 128 (api.byte_length p.display_name)
      || p.guest_driver_version == ""
      || ltb 128 (api.byte_length p.guest_driver_version)
      || flip (eq_int p.count (pos 1))
      || (p.kind /= "pci" && p.kind /= "mediated")
      || is_empty_list p.node_selector)

  abbrev pub is_bad_selector : String × String → Bool
  is_bad_selector entry = flip (win.is_qualified_name entry.0) || flip (win.is_label_value entry.1)

  unfoldable pub validate_vm_gpu_profile : Option VmGpuProfile → Run S (Unit {0})
  validate_vm_gpu_profile none = pure tt
  validate_vm_gpu_profile (some p) = do
    fail_if (flip (is_vendor_resource p.resource_name (win.split_slash p.resource_name)))
        (fault "VM GPU profile requires a vendor extended resource")
    fail_if (flip (is_versioned_profile p)) (fault "invalid versioned VM GPU profile")
    fail_if (any is_bad_selector p.node_selector) (fault "invalid VM GPU worker selector")

  abbrev pub limits_of : Workspace → Map
  limits_of ws = elim ws.spec.template.containers [ [] ↦ [] | c ∷ cs ↦ c.limits ]

  abbrev pub requests_of : Workspace → Map
  requests_of ws = elim ws.spec.template.containers [ [] ↦ [] | c ∷ cs ↦ c.requests ]

  abbrev pub is_foreign_arch : String → Bool
  is_foreign_arch arch = arch /= "" && arch /= "amd64"

  unfoldable pub validate_resolved : Workspace → ResolvedVmProfile → Run S (Unit {0})
  validate_resolved ws p = do
    fail_if (p.id /= windows_11_amd64_v1) (fault "unsupported VM guest profile")
    fail_if (ws.spec.type /= workspace_type_vm) (fault "windows profile requires a VM workspace")
    fail_if (flip (has_image win.is_image_digest p.image ws.spec.template.containers))
        (fault "windows profile requires one main container with the resolved OCI image digest")
    fail_if (flip (mounts_nothing ws))
        (fault "windows automatic user-disk mounting is not supported")
    fail_if (any has_slash (limits_of ws))
        (fault "windows GPU resources require a typed operator profile, not container limits")
    fail_if (any has_slash (requests_of ws))
        (fault "windows GPU resources require a typed operator profile, not container requests")
    validate_vm_gpu_profile p.gpu
    fail_if (ltb_int p.cpu_cores (pos 2)) (fault "windows 11 requires at least 2 guest CPU cores")
    fail_if (flip (is_at_least (gibibytes 4) (win.parse_quantity p.guest_memory)))
        (fault "windows 11 requires at least 4Gi guest memory")
    fail_if (flip (is_at_least (gibibytes 80) (win.parse_quantity p.root_disk_size)))
        (fault "windows prepared roots require at least 80Gi persistent storage")
    fail_if (p.generation == "") (fault "windows provisioning generation is missing")
    fail_if (is_foreign_arch (at_key ws.spec.template.node_selector "kubernetes.io/arch"))
        (fault "windows 11 profile requires amd64 scheduling")

  abbrev pub validate_found : Workspace → Option ResolvedVmProfile → Run S (Unit {0})
  validate_found ws none = raise (fault "unsupported VM guest profile")
  validate_found ws (some p) = validate_resolved ws p

  unfoldable pub validate_windows_profile : Workspace → Run S (Unit {0})
  validate_windows_profile ws = validate_found ws ws.spec.vm_profile
