-- ===== src/Windows/Transitions.antt =====
-- What the actions of the life cycle may do at each stage.
use controller.Base.{
  String, Bool, true, false, ◌≡◌, refl, Option, none, some, [], All, lookup, lookup-delete, flip,
  arith,
}
use controller.Base.Effects.{World, find, reads, ◌>>=◌}
use controller.Base.Safety.{Only, only_rules, Only-if}
use controller.Api.Meta.{Secret}
use controller.Api.Workspace.{Workspace}
use controller.Workspace.Client.{
  WorkspaceClient, Call, Pod, Vmi, update_workspace, update_secret, complete_bootstrap,
  stage_enrollment,
}
use controller.Windows.Client.{WindowsClient, GuestAgent}
use controller.Windows.Bootstrap.{is_provisioned, answer_key}
use controller.Windows.Lifecycle.{
  is_detaching, mark_provisioned, clear_detaching, clear_reboot, windows_agent_connected,
  stage_windows_enrollment, finish_provisioning, provision_guest, reconcile_windows_provisioning,
  windows_ready, without_answer, remove_bootstrap, finish_windows_detach, end_reboot,
  finish_windows_reboot,
}
use controller.Windows.Stages.{
  fresh, detaching, stage_of, ◌⟶◌, stay, complete, detach, IsConsistent, mark-stage,
  mark-IsConsistent, clear-stage, clear-IsConsistent, reboot-stage, reboot-IsConsistent,
}

module _ {S : Type 0} (api : WorkspaceClient S) (win : WindowsClient S) where
  -- What may be written for a workspace: itself, one stage further or at its stage and still
  -- consistent; the Secret without the answer file while the bootstrap is being removed; and the
  -- guest is spoken to only while it is fresh.
  abbrev pub IsMove : Workspace → Call → Type 0
  IsMove ws (update_workspace u) = (stage_of ws ⟶ stage_of u) × IsConsistent u
  IsMove ws (update_secret s) = (stage_of ws ≡ detaching) × (lookup answer_key s.content ≡ none)
  IsMove ws (complete_bootstrap pod hostname) = stage_of ws ≡ fresh
  IsMove ws (stage_enrollment pod token) = stage_of ws ≡ fresh
  IsMove ws _ = ⊥

  moves : {s t s2 t2 : _} → s ≡ s2 → t ≡ t2 → s2 ⟶ t2 → s ⟶ t
  moves {s} {t} {s2} {t2} p q e = rw (p, q) e

  fresh-stage :
      (ws : Workspace) → is_detaching ws ≡ false → is_provisioned ws ≡ false → stage_of ws ≡ fresh
  unfolding stage_of
  fresh-stage ws d p = ground (arith, d, p)

  detaching-stage : (ws : Workspace) → is_detaching ws ≡ true → stage_of ws ≡ detaching
  unfolding stage_of
  detaching-stage ws d = ground (arith, d)

  no_answer : (secret : Secret) → lookup answer_key (without_answer api win secret).content ≡ none
  no_answer secret = ground (arith, lookup-delete answer_key answer_key secret.content)

  module _ (ws : Workspace) (consistent : IsConsistent ws) where
    marked-IsMove : stage_of ws ≡ fresh → IsMove ws (update_workspace (mark_provisioned ws))
    marked-IsMove h = (moves h (mark-stage ws) complete, mark-IsConsistent ws consistent)

    finish-Only :
        (agent : GuestAgent S) (pod : String) (done : Bool)
        → stage_of ws ≡ fresh
        → Only (IsMove ws) (finish_provisioning api win agent ws pod done)
    unfolding finish_provisioning stage_windows_enrollment
    finish-Only agent pod false h = search only_rules
    finish-Only agent pod true h = search (only_rules, marked-IsMove) depth 14

    provision-Only :
        (pod : Option Pod) (agent : Option (GuestAgent S))
        → stage_of ws ≡ fresh
        → Only (IsMove ws) (provision_guest api win ws pod agent)
    unfolding provision_guest
    provision-Only (some pod) (some agent) h = search (only_rules, finish-Only) depth 14
    provision-Only (some pod) none h = search only_rules
    provision-Only none agent h = search only_rules

    provisioning-Only :
        (pod : Option Pod) → Only (IsMove ws) (reconcile_windows_provisioning api win ws pod)
    unfolding reconcile_windows_provisioning
    provisioning-Only pod =
        Only-if (is_detaching ws) _ _ (λ _. search only_rules)
          (λ d.
            Only-if (is_provisioned ws) _ _ (λ _. search only_rules)
              (λ p. provision-Only pod win.guest_agent (fresh-stage ws d p)))

    ready-Only :
        (pod : Option Pod) (running : Bool)
        → Only (IsMove ws) (windows_ready api win ws pod running)
    unfolding windows_ready windows_agent_connected
    ready-Only pod running = search (only_rules, provisioning-Only) depth 14

    cleared-IsMove : is_detaching ws ≡ true → IsMove ws (update_workspace (clear_detaching ws))
    cleared-IsMove d = (
      moves (detaching-stage ws d) (clear-stage ws consistent d) detach,
      clear-IsConsistent ws consistent,
    )

    kept-IsMove :
        (secret : Secret)
        → is_detaching ws ≡ true
        → IsMove ws (update_secret (without_answer api win secret))
    kept-IsMove secret d = (detaching-stage ws d, no_answer secret)

    remove-Only :
        (vmi : Option Vmi)
        → is_detaching ws ≡ true
        → Only (IsMove ws) (remove_bootstrap api win ws vmi)
    unfolding remove_bootstrap
    remove-Only (some vmi) d = search only_rules
    remove-Only none d = search (only_rules, cleared-IsMove, kept-IsMove) depth 14

    then-Only :
        is_detaching ws ≡ true
        → Only
            (IsMove ws)
            (find (reads (api.get_vmi ws.name ws.namespace)) >>= remove_bootstrap api win ws)
    then-Only d = search (only_rules, remove-Only) depth 12

    detach-Only : Only (IsMove ws) (finish_windows_detach api win ws)
    unfolding finish_windows_detach
    detach-Only =
        Only-if (flip (is_detaching ws)) _ _ (λ _. search only_rules)
          (λ kept. then-Only (ground arith))

    rebooted-IsMove : IsMove ws (update_workspace (clear_reboot ws))
    rebooted-IsMove = (moves refl (reboot-stage ws) stay, reboot-IsConsistent ws consistent)

    end-Only : (vmi : Option Vmi) → Only (IsMove ws) (end_reboot api win ws vmi)
    unfolding end_reboot
    end-Only (some vmi) = search only_rules
    end-Only none = search (only_rules, rebooted-IsMove)

    reboot-Only : Only (IsMove ws) (finish_windows_reboot api win ws)
    unfolding finish_windows_reboot
    reboot-Only = search (only_rules, end-Only) depth 12

    -- Readiness, the removal of the bootstrap and the end of a reboot write the workspace only at
    -- its stage or at the next one, and consistent; they take the answer file out of the Secret only while the
    -- bootstrap is being removed, and speak to the guest only before that, whatever the cluster answers.
    pub lifecycle_follows_stages :
        (pod : Option Pod) (running : Bool) (w : World S Call)
        → w.calls ≡ []
        → All (IsMove ws) (windows_ready api win ws pod running w).1.calls
          × All (IsMove ws) (finish_windows_detach api win ws w).1.calls
          × All (IsMove ws) (finish_windows_reboot api win ws w).1.calls
    lifecycle_follows_stages pod running w new = (
      (ready-Only pod running).at w (rw new tt),
      detach-Only.at w (rw new tt),
      reboot-Only.at w (rw new tt),
    )
