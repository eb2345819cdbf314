-- ===== src/Windows/Tests.antt =====
-- The theorems on Windows guests, applied on a small cluster.
use controller.Base.{
  ◌<>◌, pos, true, false, ◌≡◌, refl, ◌↔◌, ◌&&◌, length, flip, none, some, [], ◌∷◌, All, Map, lookup,
}
use controller.Base.Effects.{ok, err, is_ok}
use controller.Api.Workspace.{Workspace}
use controller.Workspace.Client.{WorkspaceClient}
use controller.Workspace.Fixtures.{no_object, start}
use controller.Windows.Bootstrap.{is_provisioned, reconcile_windows_bootstrap}
use controller.Windows.Lifecycle.{
  is_detaching, is_rebooting, is_stopped, is_connected, wants_running, has_bootstrap_disk,
  mark_provisioned, clear_detaching, windows_ready, finish_windows_detach, finish_windows_reboot,
}
use controller.Windows.Stages.{stage_of, fresh, IsConsistent}
use controller.Windows.Transitions.{IsMove, lifecycle_follows_stages}
use controller.Windows.Boot.{is_said_ready, ready_means_settled}
use controller.Windows.Stored.{IsLike}
use controller.Windows.FirstBoot.{IsStoring, IsUp, IsDown, IsResponsive, fresh_guest_becomes_ready}
use controller.Windows.Credentials.{
  IsBackfill, credentials_never_rotate, lost_credentials_are_an_error,
}
use controller.Windows.Preflight.{approve}
use controller.Windows.Approval.{of_id, profile_is_approved_once}
use controller.Windows.Resolve.{resolve_windows_profile}
use controller.Windows.Soundness.{IsResolution, chosen_profile_is_sound}
use controller.Windows.Fixtures.{
  guest, agent, inventory, first_secret, instance_up, launcher, off, on, kept, counting,
  instance_again, launcher_again, on_again, marked_guest, cleared_guest, lost, settled, gpu,
  windows_image, plain, large, unmade,
}

is_consistent : IsConsistent (guest [])
unfolding is_detaching lookup
is_consistent = (refl, refl)

is_fresh : stage_of (guest []) ≡ fresh
unfolding stage_of is_detaching is_provisioned lookup
is_fresh = refl

lifecycle_follows_stages_example :
    All
      (IsMove on inventory (guest []))
      (windows_ready on inventory (guest []) (some launcher) true start).1.calls
    × All
        (IsMove on inventory (guest []))
        (finish_windows_detach on inventory (guest []) start).1.calls
    × All
        (IsMove on inventory (guest []))
        (finish_windows_reboot on inventory (guest []) start).1.calls
lifecycle_follows_stages_example =
    lifecycle_follows_stages on inventory (guest []) is_consistent (some launcher) true start refl

ready_means_settled_example :
    is_said_ready (windows_ready on inventory (guest []) (some launcher) true start).0 ≡ (
      flip (is_stopped (guest []))
      && flip (is_rebooting (guest []))
      && true
      && is_connected (ok instance_up)
      && flip (is_detaching (guest []))
      && is_provisioned (guest []))
ready_means_settled_example = ready_means_settled on inventory (guest []) (some launcher) true start

stores : (api : WorkspaceClient (Unit {0})) → IsStoring (counting api)
stores api = record {
  stored = λ ws s. kept ws;
  update_is = λ ws s. refl;
  like = λ ws s. (refl, refl, refl, refl);
}

up : IsUp (counting on) (guest []) instance_up
unfolding is_connected
up = record { vmi_is = λ s. refl; connected = refl }

down : (ws : Workspace) → IsDown (counting off) ws first_secret
down ws = record {
  reason = no_object;
  gone = λ s. refl;
  missing = refl;
  secret_is = λ name s. refl;
  controlled = refl;
  secret_written = λ x s. refl;
}

up_again : (ws : Workspace) → IsUp (counting on_again) ws instance_again
unfolding is_connected
up_again ws = record { vmi_is = λ s. refl; connected = refl }

responsive : IsResponsive agent
responsive = record { completes = λ n p v h s. refl; stages = λ n p v t s. refl }

fresh_guest_becomes_ready_example :
    ((marked : Workspace) × ((windows_ready
          (counting on)
          inventory
          (guest [])
          (some launcher)
          true
          start).0
        ≡ ok (marked, false))
      × IsLike (mark_provisioned (guest [])) marked)
    × (wants_running marked_guest ≡ false)
    × (has_bootstrap_disk marked_guest ≡ false)
    × ((cleared : Workspace) × ((finish_windows_detach
            (counting off)
            inventory
            marked_guest
            start).0
          ≡ ok cleared)
        × IsLike (clear_detaching marked_guest) cleared)
    × (wants_running cleared_guest ≡ true)
    × (has_bootstrap_disk cleared_guest ≡ false)
    × ((windows_ready
          (counting on_again)
          inventory
          cleared_guest
          (some launcher_again)
          true
          start).0
        ≡ ok (cleared_guest, true))
unfolding is_stopped is_rebooting lookup
fresh_guest_becomes_ready_example =
    fresh_guest_becomes_ready (counting on) (counting off) (counting on_again) inventory agent
      (guest []) marked_guest cleared_guest launcher launcher_again instance_up instance_again
      first_secret (stores on) (stores off) up (λ name s. refl) responsive (down marked_guest)
      (up_again cleared_guest) start start start refl refl is_consistent is_fresh refl refl
      (refl, refl, refl, refl) (refl, refl, refl, refl)

credentials_never_rotate_example :
    All
      (IsBackfill on inventory (guest []) first_secret)
      (reconcile_windows_bootstrap on inventory (guest []) start).1.calls
credentials_never_rotate_example =
    credentials_never_rotate on inventory (guest []) first_secret (λ s. refl) start refl

lost_credentials_are_an_error_example :
    (is_ok (reconcile_windows_bootstrap lost inventory settled start).0 ≡ false)
    × ((reconcile_windows_bootstrap lost inventory settled start).1.calls ≡ [])
unfolding is_provisioned lookup
lost_credentials_are_an_error_example =
    lost_credentials_are_an_error lost inventory settled no_object (λ s. refl) refl refl start refl

profile_is_approved_once_example :
    (approve gpu (gpu ∷ []) false ≡ ok true) ↔ (of_id gpu (gpu ∷ []) ≡ gpu ∷ [])
profile_is_approved_once_example = profile_is_approved_once gpu (gpu ∷ [])

chosen_profile_is_sound_example :
    All
      (IsResolution unmade large plain none (some windows_image))
      (resolve_windows_profile unmade large plain (some windows_image) start).1.calls
chosen_profile_is_sound_example =
    chosen_profile_is_sound unmade large plain (some windows_image) start refl

-- That run writes the workspace.
chosen_profile_is_written :
    length (resolve_windows_profile unmade large plain (some windows_image) start).1.calls ≡ 1
unfolding resolve_windows_profile controller.Windows.Resolve.resolve_with
    controller.Windows.Resolve.resolve_new controller.Windows.Resolve.resolve_image
    controller.Base.Effects.◌>>=◌ controller.Windows.Resolve.is_private_root
    controller.Windows.Resolve.windows_remote_desktop_transport
    controller.Windows.Profile.validate_windows_profile controller.Windows.Profile.validate_resolved
    controller.Windows.Resolve.resolved_profile controller.Windows.Profile.has_image
    controller.Windows.Profile.mounts_nothing controller.Windows.Profile.validate_vm_gpu_profile
    lookup
chosen_profile_is_written = refl
