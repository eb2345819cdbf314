-- ===== src/Windows/Stored.antt =====
-- A workspace as the server keeps it, and what its annotations tell of its machine.
use controller.Base.{true, false, ◌≡◌, refl, ◌∙◌, lookup-put, lookup-delete, put, arith}
use controller.Api.Workspace.{Workspace}
use controller.Workspace.Client.{
  annotation_stopped, windows_provisioned_generation, windows_detaching_generation,
  windows_reboot_annotation, generation_of,
}
use controller.Windows.Bootstrap.{is_provisioned}
use controller.Windows.Lifecycle.{
  is_detaching, is_rebooting, is_stopped, mark_provisioned, clear_detaching,
}
use controller.Windows.Stages.{
  fresh, detaching, stage_of, IsConsistent, mark-stage, mark-provisioned, clear-provisioned,
  clear-detaching,
}

-- The same workspace as the server keeps it: its spec and annotations, and what its machine is called by.
-- The version, status and all else may differ.
abbrev pub IsLike : Workspace → Workspace → Type 0
IsLike u v =
    (v.name ≡ u.name)
    × (v.namespace ≡ u.namespace)
    × (v.annotations ≡ u.annotations)
    × (v.spec ≡ u.spec)

marked-settled :
    (ws : Workspace)
    → is_stopped ws ≡ false
    → is_rebooting ws ≡ false
    → (is_stopped (mark_provisioned ws) ≡ false) × (is_rebooting (mark_provisioned ws) ≡ false)
unfolding is_stopped is_rebooting mark_provisioned
marked-settled ws s r = (
  ground (
    arith,
    s,
    lookup-put windows_detaching_generation annotation_stopped (generation_of ws)
        (put windows_provisioned_generation (generation_of ws) ws.annotations),
    lookup-put windows_provisioned_generation annotation_stopped (generation_of ws) ws.annotations,
  ),
  ground (
    arith,
    r,
    lookup-put windows_detaching_generation windows_reboot_annotation (generation_of ws)
        (put windows_provisioned_generation (generation_of ws) ws.annotations),
    lookup-put windows_provisioned_generation windows_reboot_annotation (generation_of ws)
        ws.annotations,
  ),
)

cleared-settled :
    (ws : Workspace)
    → is_stopped ws ≡ false
    → is_rebooting ws ≡ false
    → (is_stopped (clear_detaching ws) ≡ false) × (is_rebooting (clear_detaching ws) ≡ false)
unfolding is_stopped is_rebooting clear_detaching
cleared-settled ws s r = (
  ground (arith, s, lookup-delete windows_detaching_generation annotation_stopped ws.annotations),
  ground (
    arith,
    r,
    lookup-delete windows_detaching_generation windows_reboot_annotation ws.annotations,
  ),
)

-- What the annotations and the spec tell is the same of a workspace as the server keeps it.
module _ (u v : Workspace) (like : IsLike u v) where
  like-stopped : is_stopped v ≡ is_stopped u
  unfolding is_stopped
  like-stopped = rw like.2 refl

  like-rebooting : is_rebooting v ≡ is_rebooting u
  unfolding is_rebooting
  like-rebooting = rw like.2 refl

  like-detaching : is_detaching v ≡ is_detaching u
  unfolding is_detaching
  like-detaching = rw (like.2, like.3) refl

  like-provisioned : is_provisioned v ≡ is_provisioned u
  unfolding is_provisioned
  like-provisioned = rw (like.2, like.3) refl

pub fresh→flags :
    (ws : Workspace) → stage_of ws ≡ fresh → (is_detaching ws ≡ false) × (is_provisioned ws ≡ false)
unfolding stage_of
fresh→flags ws h = (ground (arith, h), ground (arith, h))

detaching→flag : (ws : Workspace) → stage_of ws ≡ detaching → is_detaching ws ≡ true
unfolding stage_of
detaching→flag ws h = ground (arith, h)

-- A workspace that is marked or cleared has the flags that its machine is made by, as the server keeps it.
module _ (ws v u : Workspace) (consistent : IsConsistent ws) (s : is_stopped ws ≡ false)
    (r : is_rebooting ws ≡ false) (marked : IsLike (mark_provisioned ws) v)
    (cleared : IsLike (clear_detaching v) u) where
  pub held-detaching : is_detaching v ≡ true
  held-detaching =
      like-detaching (mark_provisioned ws) v marked
      ∙ detaching→flag (mark_provisioned ws) (mark-stage ws)

  pub held-provisioned : is_provisioned v ≡ true
  held-provisioned = like-provisioned (mark_provisioned ws) v marked ∙ mark-provisioned ws

  held-settled : (is_stopped v ≡ false) × (is_rebooting v ≡ false)
  held-settled =
      let (stopped, rebooting) = marked-settled ws s r in
      (
        like-stopped (mark_provisioned ws) v marked ∙ stopped,
        like-rebooting (mark_provisioned ws) v marked ∙ rebooting,
      )

  pub left-settled : (is_stopped u ≡ false) × (is_rebooting u ≡ false)
  left-settled =
      let (stopped, rebooting) = cleared-settled v held-settled.0 held-settled.1 in
      (
        like-stopped (clear_detaching v) u cleared ∙ stopped,
        like-rebooting (clear_detaching v) u cleared ∙ rebooting,
      )

  pub left-provisioned : is_provisioned u ≡ true
  left-provisioned =
      like-provisioned (clear_detaching v) u cleared ∙ clear-provisioned v ∙ held-provisioned

  pub left-detaching : is_detaching u ≡ false
  unfolding mark_provisioned
  left-detaching =
      like-detaching (clear_detaching v) u cleared ∙ clear-detaching v (rw marked.3 consistent.0)
