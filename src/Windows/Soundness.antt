-- ===== src/Windows/Soundness.antt =====
-- The profile that is resolved from an Image, and what a valid profile is.
use controller.Base.{
  pos, ltb_int, String, true, false, ◌≡◌, ◌≢◌, refl, ap, Option, none, some, [], All, ◌==◌, arith,
  eq_iff,
}
use controller.Base.Effects.{ok, World, ◌>>=◌}
use controller.Base.Safety.{
  Only, only_rules, Only-bind, Only-bind-ok, Only-if, Only-guard, Only-fail_if, Only-observes,
  Only-writes, Only-pure,
}
use controller.Api.Workspace.{Workspace, ResolvedVmProfile, VmGpuProfile}
use controller.Api.Image.{Image}
use controller.Workspace.Client.{
  WorkspaceClient, Call, Vm, update_workspace, windows_11_amd64_v1, workspace_type_vm,
}
use controller.Workspace.Reset.{set_generation}
use controller.Windows.Client.{WindowsClient}
use controller.Windows.Profile.{
  gibibytes, is_at_least, has_image, mounts_nothing, validate_vm_gpu_profile, validate_resolved,
  validate_found, validate_windows_profile,
}
use controller.Windows.Resolve.{
  with_profile, resolved_profile, save_profile, refuse_legacy, resolve_image, resolve_new,
  renew_generation, resolve_with, resolve_windows_profile, is_private_root,
}

module _ {S : Type 0} (api : WorkspaceClient S) (win : WindowsClient S) where
  -- What the guest needs of the workspace and its profile.
  abbrev pub IsSound : Workspace → ResolvedVmProfile → Type 0
  IsSound ws p =
      (p.id ≡ windows_11_amd64_v1)
      × (ws.spec.type ≡ workspace_type_vm)
      × (has_image win.is_image_digest p.image ws.spec.template.containers ≡ true)
      × (mounts_nothing ws ≡ true)
      × (ltb_int p.cpu_cores (pos 2) ≡ false)
      × (is_at_least (gibibytes 4) (win.parse_quantity p.guest_memory) ≡ true)
      × (is_at_least (gibibytes 80) (win.parse_quantity p.root_disk_size) ≡ true)
      × (p.generation ≢ "")

  validated-IsSound :
      (ws : Workspace) (p : ResolvedVmProfile) (w : World S Call)
      → (validate_resolved api win ws p w).0 ≡ ok tt
      → IsSound ws p
  unfolding validate_resolved ◌>>=◌
  validated-IsSound ws p w h = (
    ground (arith, h, eq_iff p.id windows_11_amd64_v1),
    ground (arith, h, eq_iff ws.spec.type workspace_type_vm),
    ground (arith, h),
    ground (arith, h),
    ground (arith, h),
    ground (arith, h),
    ground (arith, h),
    ground (arith, h, eq_iff p.generation ""),
  )

  -- What resolving may write: the workspace with a sound profile of the Image and nothing else changed
  -- where it has no profile, or with a new generation of its profile and nothing else changed where
  -- its profile has none.
  abbrev pub IsResolution : Workspace → Option ResolvedVmProfile → Option Image → Call → Type 0
  IsResolution ws none (some img) (update_workspace u) =
      (p : ResolvedVmProfile) × (u ≡ with_profile ws (some p))
      × (p.image ≡ img.spec.image)
      × (is_private_root img.spec ≡ true)
      × IsSound u p
  IsResolution ws (some p) img (update_workspace u) =
      (p.generation ≡ "")
      × ((v : S) × (u ≡ with_profile ws (some (record p { generation = (api.new_uuid v).0 }))))
  IsResolution ws held img _ = ⊥

  module _ {P : Call → Type 0} where
    gpu-Only : (gpu : Option VmGpuProfile) → Only P (validate_vm_gpu_profile api win gpu)
    unfolding validate_vm_gpu_profile
    gpu-Only none = search only_rules
    gpu-Only (some p) = search only_rules depth 8

    resolved-Only : (u : Workspace) (p : ResolvedVmProfile) → Only P (validate_resolved api win u p)
    unfolding validate_resolved
    resolved-Only u p = search (only_rules, gpu-Only) depth 30

    found-Only :
        (u : Workspace) (p : Option ResolvedVmProfile) → Only P (validate_found api win u p)
    found-Only u none = search only_rules
    found-Only u (some p) = resolved-Only u p

    pub validate-Only : (u : Workspace) → Only P (validate_windows_profile api win u)
    unfolding validate_windows_profile
    validate-Only u = found-Only u u.spec.vm_profile

    legacy-Only : (vm : Option Vm) → Only P (refuse_legacy api win vm)
    legacy-Only none = search only_rules
    legacy-Only (some vm) = search only_rules

  module _ (ws : Workspace) (img : Image) where
    saved-IsResolution :
        (p : ResolvedVmProfile) (w : World S Call)
        → p.image ≡ img.spec.image
        → is_private_root img.spec ≡ true
        → (validate_windows_profile api win (with_profile ws (some p)) w).0 ≡ ok tt
        → IsResolution ws none (some img) (update_workspace (with_profile ws (some p)))
    unfolding validate_windows_profile
    saved-IsResolution p w image private h =
        (p, refl, image, private, validated-IsSound (with_profile ws (some p)) p w h)

    saved-Only :
        (p : ResolvedVmProfile) (w : World S Call)
        → p.image ≡ img.spec.image
        → is_private_root img.spec ≡ true
        → (validate_windows_profile api win (with_profile ws (some p)) w).0 ≡ ok tt
        → Only (IsResolution ws none (some img)) (save_profile api win (with_profile ws (some p)))
    saved-Only p w image private h =
        Only-bind _ _ (Only-writes _ _ (saved-IsResolution p w image private h)) (λ _. Only-pure _)

    validated-Only :
        (generation : String)
        → is_private_root img.spec ≡ true
        → let u =
            with_profile ws
              (some (resolved_profile api win img.spec generation ws.spec.template.containers)) in
          Only
            (IsResolution ws none (some img))
            (validate_windows_profile api win u >>= λ _. save_profile api win u)
    unfolding resolved_profile
    validated-Only generation private =
        Only-bind-ok _ _ (validate-Only _) (λ t w h. saved-Only _ w refl private h)

    image-Only : Only (IsResolution ws none (some img)) (resolve_image api win ws img.spec)
    unfolding resolve_image
    image-Only = Only-guard _ _ _ (λ _. Only-guard _ _ _ (λ private.
        Only-bind _ _ (Only-fail_if _ _) (λ _. Only-bind _ _ (search only_rules) (λ existing.
          Only-bind _ _ (legacy-Only existing) (λ _.
            Only-bind _ _ (Only-observes _)
              (λ generation. validated-Only generation (ground arith)))))))

  new-Only :
      (ws : Workspace) (img : Option Image)
      → Only (IsResolution ws none img) (resolve_new api win ws img)
  unfolding resolve_new
  new-Only ws none = search only_rules
  new-Only ws (some img) = search (only_rules, image-Only)

  kept-Only :
      (ws u : Workspace) (p : ResolvedVmProfile) (img : Option Image)
      → IsResolution ws (some p) img (update_workspace u)
      → Only (IsResolution ws (some p) img) (save_profile api win u)
  kept-Only ws u p img h = Only-bind _ _ (Only-writes _ _ h) (λ _. Only-pure _)

  renewed-Only :
      (ws : Workspace) (p : ResolvedVmProfile) (img : Option Image)
      → ws.spec.vm_profile ≡ some p
      → p.generation ≡ ""
      → Only (IsResolution ws (some p) img) (renew_generation api win ws)
  unfolding renew_generation ◌>>=◌
  renewed-Only ws p img held h = record {
    at = λ w k.
        let made : Option ResolvedVmProfile → Workspace =
          λ o. with_profile ws (set_generation (api.new_uuid w.server).0 o) in
        (kept-Only ws (made ws.spec.vm_profile) p img (h, (w.server, ap made held))).at
          (record w { server = (api.new_uuid w.server).1 }) k;
  }

  with-Only :
      (ws : Workspace) (img : Option Image) (held : Option ResolvedVmProfile)
      → ws.spec.vm_profile ≡ held
      → Only (IsResolution ws held img) (resolve_with api win ws img held)
  unfolding resolve_with
  with-Only ws img none e = new-Only ws img
  with-Only ws img (some p) e =
      Only-if (p.generation == "") _ _
        (λ h. renewed-Only ws p img e (ground (arith, h, eq_iff p.generation "")))
        (λ _. Only-bind _ _ (validate-Only ws) (λ _. Only-pure _))

  -- A workspace without a profile is given one only from an Image with a private root, for its
  -- reference, and one that the guest needs: for Windows 11, for a vm workspace of one container
  -- pinned by digest and no disks, of 2 cores, 4 GiB and 80 GiB at least and with a generation. One
  -- with a profile is only given a fresh generation in this profile, where it has none. Nothing else of
  -- the workspace is changed, and nothing else is written.
  pub chosen_profile_is_sound :
      (ws : Workspace) (img : Option Image) (w : World S Call)
      → w.calls ≡ []
      → All
          (IsResolution ws ws.spec.vm_profile img)
          (resolve_windows_profile api win ws img w).1.calls
  unfolding resolve_windows_profile
  chosen_profile_is_sound ws img w new = (with-Only ws img ws.spec.vm_profile refl).at w (rw new tt)
