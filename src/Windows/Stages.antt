-- ===== src/Windows/Stages.antt =====
-- The stages that a generation of a Windows guest goes through, as its annotations tell them.
use controller.Base.{
  true, false, ◌≡◌, lookup-put, lookup-delete, put, ◌==◌, if◌then◌else◌, flip, ◌||◌, arith, eq_iff,
  eq_refl,
}
use controller.Api.Workspace.{Workspace}
use controller.Workspace.Client.{
  windows_provisioned_generation, windows_detaching_generation, windows_reboot_annotation,
  generation_of,
}
use controller.Windows.Bootstrap.{is_provisioned}
use controller.Windows.Lifecycle.{is_detaching, mark_provisioned, clear_detaching, clear_reboot}

pub data Stage : Type 0 where
  fresh detaching provisioned : Stage

unfoldable pub stage_of : Workspace → Stage
stage_of ws =
    if is_detaching ws then detaching else if is_provisioned ws then provisioned else fresh

infix 40 ◌⟶◌
pub data ◌⟶◌ : Stage → Stage → Type 0 where
  stay : {s : Stage} → s ⟶ s
  complete : fresh ⟶ detaching
  detach : detaching ⟶ provisioned

-- A workspace with a generation, which is provisioned where its bootstrap is being removed.
abbrev pub IsConsistent : Workspace → Type 0
IsConsistent ws =
    ((generation_of ws == "") ≡ false) × ((flip (is_detaching ws) || is_provisioned ws) ≡ true)

pub mark-stage : (ws : Workspace) → stage_of (mark_provisioned ws) ≡ detaching
unfolding stage_of is_detaching mark_provisioned
mark-stage ws = ground (
  arith,
  lookup-put windows_detaching_generation windows_detaching_generation (generation_of ws)
      (put windows_provisioned_generation (generation_of ws) ws.annotations),
  eq_refl (generation_of ws),
)

pub mark-provisioned : (ws : Workspace) → is_provisioned (mark_provisioned ws) ≡ true
unfolding is_provisioned mark_provisioned
mark-provisioned ws = ground (
  arith,
  lookup-put windows_detaching_generation windows_provisioned_generation (generation_of ws)
      (put windows_provisioned_generation (generation_of ws) ws.annotations),
  lookup-put windows_provisioned_generation windows_provisioned_generation (generation_of ws)
      ws.annotations,
  eq_refl (generation_of ws),
)

pub mark-IsConsistent : (ws : Workspace) → IsConsistent ws → IsConsistent (mark_provisioned ws)
unfolding mark_provisioned
mark-IsConsistent ws h = (h.0, ground (arith, mark-provisioned ws))

pub clear-provisioned : (ws : Workspace) → is_provisioned (clear_detaching ws) ≡ is_provisioned ws
unfolding is_provisioned clear_detaching
clear-provisioned ws = ground (
  arith,
  lookup-delete windows_detaching_generation windows_provisioned_generation ws.annotations,
)

pub clear-detaching :
    (ws : Workspace) → (generation_of ws == "") ≡ false → is_detaching (clear_detaching ws) ≡ false
unfolding is_detaching clear_detaching
clear-detaching ws h = ground (
  arith,
  lookup-delete windows_detaching_generation windows_detaching_generation ws.annotations,
  eq_iff (generation_of ws) "",
  eq_iff "" (generation_of ws),
)

pub clear-stage :
    (ws : Workspace)
    → IsConsistent ws
    → is_detaching ws ≡ true
    → stage_of (clear_detaching ws) ≡ provisioned
unfolding stage_of
clear-stage ws h d = ground (arith, clear-provisioned ws, clear-detaching ws h.0, h.1, d)

pub clear-IsConsistent : (ws : Workspace) → IsConsistent ws → IsConsistent (clear_detaching ws)
unfolding clear_detaching
clear-IsConsistent ws h = (h.0, ground (arith, clear-detaching ws h.0))

reboot-detaching : (ws : Workspace) → is_detaching (clear_reboot ws) ≡ is_detaching ws
unfolding is_detaching clear_reboot
reboot-detaching ws =
    ground
      (arith, lookup-delete windows_reboot_annotation windows_detaching_generation ws.annotations)

reboot-provisioned : (ws : Workspace) → is_provisioned (clear_reboot ws) ≡ is_provisioned ws
unfolding is_provisioned clear_reboot
reboot-provisioned ws =
    ground
      (arith, lookup-delete windows_reboot_annotation windows_provisioned_generation ws.annotations)

pub reboot-stage : (ws : Workspace) → stage_of (clear_reboot ws) ≡ stage_of ws
unfolding stage_of
reboot-stage ws = ground (arith, reboot-detaching ws, reboot-provisioned ws)

pub reboot-IsConsistent : (ws : Workspace) → IsConsistent ws → IsConsistent (clear_reboot ws)
unfolding clear_reboot
reboot-IsConsistent ws h = (h.0, ground (arith, reboot-detaching ws, reboot-provisioned ws, h.1))
